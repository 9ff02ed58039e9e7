-- ===== src/Consensus/Stored.antt =====
-- consensus/hs_models.go: over a store that keeps each block under its hash and above its parent, the
-- models are what the engine relies on.
use std.HLevel.{Σ_prop_path}
use hs_blockchain.Prelude.{
  suc, ◌≡◌, refl, sym, ap, ◌∙◌, ◌↔◌, ◌<◌, Bool, true, Option, none, some, some-injective, Bytes,
  bytes_eq_iff, length, subst, arith,
}
use hs_blockchain.Core.Crypto.{Crypto, ok}
use hs_blockchain.Core.Validators.{ValidatorStore}
use hs_blockchain.Core.Certs.{
  PbQuorumCert, PbVote, Vote, bytes_or_empty, validate_vote, set_vote_data,
}
use hs_blockchain.Core.Blocks.{PbBlock}
use hs_blockchain.Hotstuff.Types.{Blocks, IsLawful}
use hs_blockchain.Consensus.Models.{
  hs_voter, hs_height, hs_equal, hs_justify, hs_vote_block, hs_qc_block, hs_parent,
}

PbBlock-IsSet : IsSet PbBlock
PbBlock-IsSet = hlevel

-- What the validator and the storage keep: a block is found under its hash, which has a byte, and is one
-- above its parent where that is found.
pub record IsStore (store : Bytes → Option PbBlock) : Type 0 where
  pub own_hash : (h : Bytes) (b : PbBlock) → store h ≡ some b → b.hash ≡ h
  pub has_bytes : (h : Bytes) (b : PbBlock) → store h ≡ some b → 0 < length h
  pub above :
      (h : Bytes) (b parent : PbBlock)
      → store h ≡ some b
      → store b.parent_hash ≡ some parent
      → b.height ≡ suc parent.height

module _ (store : Bytes → Option PbBlock) where
  -- A block of the store.
  abbrev pub Stored : Type 0
  Stored = (b : PbBlock) × (store b.hash ≡ some b)

  -- A vote that Vote.Validate accepts, with the voter that setData reads out of its message.
  pub record Ballot (c : Crypto) (vs : ValidatorStore) : Type 0 where
    pub vote : Vote
    pub pb : PbVote
    pub present : vote.pb ≡ some pb
    pub read : set_vote_data c vote.pb ≡ ok vote
    pub valid : validate_vote c vs vote ≡ ok tt

  module _ (law : IsStore store) where
    pub held : (h : Bytes) (b : PbBlock) → store h ≡ some b → store b.hash ≡ some b
    held h b e = subst (λ k. store k ≡ some b) (sym (law.own_hash h b e)) e

    pub qc_held :
        (qc : Option PbQuorumCert) (b : PbBlock)
        → hs_qc_block store qc ≡ some b
        → store b.hash ≡ some b
    unfolding hs_qc_block
    qc_held none b e = absurd (ground (arith, e))
    qc_held (some qc) b e = held (bytes_or_empty qc.block_hash) b e

    -- An answer of the store.
    abbrev pub kept :
        (m : Option PbBlock) → ((b : PbBlock) → m ≡ some b → store b.hash ≡ some b) → Option Stored
    kept none f = none
    kept (some b) f = some (b, f b refl)

    abbrev pub stored_equal : Stored → Option Stored → Bool
    stored_equal a none = hs_equal a.0 none
    stored_equal a (some b) = hs_equal a.0 (some b.0)

    module _ (c : Crypto) (vs : ValidatorStore) where
      -- The models as the engine's blocks, certificates and votes.
      unfoldable pub stored_blocks : Blocks Stored (Option PbQuorumCert) (Ballot c vs)
      unfolding hs_height hs_parent hs_equal hs_justify hs_qc_block hs_vote_block hs_voter
      stored_blocks = record {
        height = λ b. hs_height b.0;
        parent = λ b. kept (hs_parent store b.0) (held b.0.parent_hash);
        equal = stored_equal;
        justify = λ b. hs_justify b.0;
        block = λ qc. kept (hs_qc_block store qc) (qc_held qc);
        vote_block = λ v. kept (hs_vote_block store v.pb) (held (bytes_or_empty v.pb.block_hash));
        voter = λ v. hs_voter v.vote;
      }

      kept-some :
          (m : Option PbBlock) (f : (b : PbBlock) → m ≡ some b → store b.hash ≡ some b) (a : Stored)
          → kept m f ≡ some a
          → m ≡ some a.0
      kept-some none f a e = absurd (ground (arith, e))
      kept-some (some b) f a e = ap some (ap (λ (x : Stored). x.0) (some-injective _ _ e))

      same_block : (a b : Stored) → (stored_equal a (some b) ≡ true) ↔ (a ≡ b)
      unfolding hs_equal
      same_block a b = (
        λ e.
            Σ_prop_path (λ x. hlevel PbBlock-IsSet)
              (some-injective _ _
                (sym a.1 ∙ ap store ((bytes_eq_iff a.0.hash b.0.hash).0 e) ∙ b.1)),
        λ e. (bytes_eq_iff a.0.hash b.0.hash).1 (ap (λ (x : Stored). x.0.hash) e),
      )

      pub parent-store :
          (a b : Stored) → stored_blocks.parent a ≡ some b → store a.0.parent_hash ≡ some b.0
      unfolding stored_blocks hs_parent
      parent-store a b e = kept-some (store a.0.parent_hash) (held a.0.parent_hash) b e

      pub vote-store :
          (v : Ballot c vs) (b : Stored)
          → stored_blocks.vote_block v ≡ some b
          → store (bytes_or_empty v.pb.block_hash) ≡ some b.0
      unfolding stored_blocks hs_vote_block
      vote-store v b e =
          kept-some (store (bytes_or_empty v.pb.block_hash)) (held (bytes_or_empty v.pb.block_hash))
            b e

      pub stored-IsLawful : IsLawful stored_blocks
      unfolding stored_blocks hs_equal hs_height
      stored-IsLawful = record {
        equal_nil = λ a. refl;
        equal_iff = same_block;
        height_parent = λ a b e. law.above a.0.hash a.0 b.0 a.1 (parent-store a b e);
      }
