-- ===== src/Consensus/Certified.antt =====
-- consensus/hs_models.go and hs_driver.go under the engine: what a node commits, and what its certificates
-- are worth to the others.
use hs_blockchain.Prelude.{
  suc, ◌≡◌, refl, sym, ap, ◌∙◌, ◌<◌, true, false, Bool, ltb, ◌⊎◌, Option, none, some, List, [], ◌∷◌,
  Bytes, map, length, length-map, All, All-map, All-of_map, Option-cases, inl, inr, arith,
}
use hs_blockchain.Core.Crypto.{Checked, CoreError, check, ok, err, panic, ◌>>=◌}
use hs_blockchain.Core.Certs.{
  PbQuorumCert, QuorumCert, bytes_or_empty, validate_qc, set_qc_data, build_qc, build_loop,
  new_quorum_cert,
}
use hs_blockchain.Core.Blocks.{PbBlock, qc_hash}
use hs_blockchain.Core.Building.{IsCast, voters, build_qc-judged}
use hs_blockchain.Hotstuff.Types.{Blocks, IsLawful, Driver, Safely, Safely-map}
use hs_blockchain.Hotstuff.State.{Call, new_state}
use hs_blockchain.Hotstuff.Engine.{Event, run}
use hs_blockchain.Hotstuff.Commits.{Links}
use hs_blockchain.Hotstuff.Safety.{commits, IsChained, run-IsChained}
use hs_blockchain.Hotstuff.Quorums.{IsTally, IsJustified, IsCounting, run-IsCounting}
use hs_blockchain.Consensus.Driver.{Node, create_qc}
use hs_blockchain.Consensus.Models.{hs_voter}
use hs_blockchain.Consensus.Stored.{
  IsStore, Stored, Ballot, stored_blocks, parent-store, vote-store, stored-IsLawful,
}

-- Each block names the one before it by its hash, and is one above it.
abbrev pub HashChain : PbBlock → List PbBlock → Type 0
HashChain e [] = Unit
HashChain e (b ∷ bs) = (b.parent_hash ≡ e.hash) × (b.height ≡ suc e.height) × HashChain b bs

hash_there : (m : Option Bytes) → 0 < length (bytes_or_empty m) → m ≡ some (bytes_or_empty m)
hash_there none h = absurd (omega (arith, h))
hash_there (some b) h = refl

module _ {D : Type 0} (node : Node D) (store : Bytes → Option PbBlock) (law : IsStore store) where
  abbrev pub NodeVote : Type 0
  NodeVote = Ballot store node.storage.crypto node.vld_store

  abbrev node_blocks : Blocks (Stored store) (Option PbQuorumCert) NodeVote
  node_blocks = stored_blocks store law node.storage.crypto node.vld_store

  node-IsLawful : IsLawful node_blocks
  node-IsLawful = stored-IsLawful store law node.storage.crypto node.vld_store

  Links-HashChain :
      (e : Stored store) (bs : List (Stored store))
      → Links node_blocks e bs
      → HashChain e.0 (map (λ b. b.0) bs)
  Links-HashChain e [] l = tt
  Links-HashChain e (b ∷ bs) l =
      let found = parent-store store law node.storage.crypto node.vld_store b e l.0 in
      (
        sym (law.own_hash b.0.parent_hash e.0 found),
        law.above b.0.hash b.0 e.0 b.1 found,
        Links-HashChain b bs l.1,
      )

  -- A vote of the engine for a block is a vote for the block's hash.
  ballot-IsCast :
      (p : Stored store) (v : NodeVote)
      → node_blocks.equal p (node_blocks.vote_block v) ≡ true
      → IsCast node.storage.crypto node.vld_store p.0.hash v.vote
  ballot-IsCast p v e = elim (Option-cases (node_blocks.vote_block v)) [
    | inl f ↦ absurd (ground (arith, rw f at e, node-IsLawful.equal_nil p))
    | inr (b, f) ↦
        let same : p ≡ b = (node-IsLawful.equal_iff p b).0 (rw f at e) in
        let found = vote-store store law node.storage.crypto node.vld_store v b f in
        let hash = bytes_or_empty v.pb.block_hash in
        let named : hash ≡ p.0.hash =
          sym (law.own_hash hash b.0 found) ∙ ap (λ (x : Stored store). x.0.hash) (sym same) in
        record {
          read = v.read;
          about =
              rw v.present
                (hash_there v.pb.block_hash (law.has_bytes hash b.0 found) ∙ ap some named);
          valid = v.valid;
        }
  ]

  voters-ballots : (vs : List NodeVote) → voters (map (λ v. v.vote) vs) ≡ map node_blocks.voter vs
  unfolding stored_blocks hs_voter
  voters-ballots [] = refl
  voters-ballots (v ∷ vs) = rw (voters-ballots vs) refl

  -- hsDriver.MajorityCount and CreateQC, as the engine calls them; a certificate of these votes is made.
  abbrev certificate_message : Checked QuorumCert → Option PbQuorumCert
  certificate_message (ok qc) = qc.pb
  certificate_message (err e) = none
  certificate_message panic = none

  unfoldable pub node_driver : Driver (Option PbQuorumCert) NodeVote
  unfolding create_qc
  node_driver = record {
    majority_count = node.vld_store.majority;
    create_qc = λ vs. certificate_message (create_qc node (map (λ v. v.vote) vs));
  }

  -- What a call of CreateQC gives: a certificate about the block of the votes, if there are any, which
  -- QuorumCert.Validate accepts or refuses by the number of the votes alone, and which a node that reads
  -- its message has in the same form.
  pub record Certifies (vs : List NodeVote) : Type 0 where
    pub qc : QuorumCert
    pub made : create_qc node (map (λ v. v.vote) vs) ≡ ok qc
    pub about :
        (vs ≡ [])
        ⊎ ((p : Stored store) × All (λ v. node_blocks.equal p (node_blocks.vote_block v) ≡ true) vs
            × (qc_hash qc.pb ≡ p.0.hash))
    pub judged :
        validate_qc node.storage.crypto node.vld_store qc
        ≡ check (ltb (length vs) node.vld_store.majority) CoreError.not_enough_sig
    pub read : set_qc_data node.storage.crypto qc.pb ≡ ok qc

  abbrev pub CertifiedCall : Call (Stored store) NodeVote → Type 0
  CertifiedCall (Call.create_qc vs) = Certifies vs
  CertifiedCall _ = Unit

  no_votes-judged :
      (b : Bool)
      → (check b CoreError.not_enough_sig >>= λ _. ok tt) ≡ check b CoreError.not_enough_sig
  no_votes-judged true = refl
  no_votes-judged false = refl

  tally-Certifies : (vs : List NodeVote) → IsTally node_blocks node_driver vs → Certifies vs
  unfolding create_qc build_qc build_loop new_quorum_cert validate_qc set_qc_data stored_blocks
  tally-Certifies [] t = record {
    qc = record { pb = some (record { block_hash = none; signatures = [] }); sigs = [] };
    made = refl;
    about = inl refl;
    judged = no_votes-judged (ltb 0 node.vld_store.majority);
    read = refl;
  }
  tally-Certifies (v ∷ vs) t =
      let votes = map (λ (v : NodeVote). v.vote) (v ∷ vs) in
      let counted : length votes ≡ length (v ∷ vs) =
        length-map (λ (v : NodeVote). v.vote) (v ∷ vs) in
      let (qc, made, about, judged, read) =
        build_qc-judged node.storage.crypto node.vld_store t.about.0.hash votes
          (All-of_map _ (λ (v : NodeVote). v.vote) (v ∷ vs)
            (All-map _ _ (v ∷ vs) (ballot-IsCast t.about) t.same_block))
          (rw voters-ballots t.distinct) (omega (arith, counted)) in
      record {
        qc = qc;
        made = made;
        about = inr (t.about, t.same_block, about);
        judged = rw counted at judged;
        read = read;
      }

  tallies-certify :
      (cs : List (Call (Stored store) NodeVote))
      → All (IsJustified node_blocks node_driver) cs
      → All CertifiedCall cs
  tallies-certify [] j = tt
  tallies-certify (Call.create_qc vs ∷ cs) j = (tally-Certifies vs j.0, tallies-certify cs j.1)
  tallies-certify (Call.broadcast_proposal b ∷ cs) j = (tt, tallies-certify cs j.1)
  tallies-certify (Call.vote_block b ∷ cs) j = (tt, tallies-certify cs j.1)
  tallies-certify (Call.commit b ∷ cs) j = (tt, tallies-certify cs j.1)

-- Over a store with the same answers throughout, which keeps each block under its hash and above its
-- parent, every sequence of calls of the
-- engine of a node ends, and if no safety breach ended the process, the blocks handed to Commit are one
-- chain by their hashes: the first names the start by its hash, each next the one before it, and the
-- heights go up by one.
pub run-HashChain :
    {D : Type 0} (node : Node D) (store : Bytes → Option PbBlock) (law : IsStore store)
    (b0 : Stored store) (q0 : Option PbQuorumCert)
    (es : List (Event (Stored store) (Option PbQuorumCert) (NodeVote node store law)))
    → Safely
        (λ s. HashChain b0.0 (map (λ b. b.0) (commits s.calls)))
        (run
          (stored_blocks store law node.storage.crypto node.vld_store)
          (node_driver node store law)
          es
          (new_state b0 q0))
run-HashChain node store law b0 q0 es =
    Safely-map (IsChained (node_blocks node store law) b0) _ _
      (λ s c. Links-HashChain node store law b0 (commits s.calls) c.links)
      (run-IsChained (node_blocks node store law) (node_driver node store law) b0 q0 es
        (node-IsLawful node store law))

-- Over a store with the same answers throughout, which keeps each block under its hash, of a byte at least,
-- and above its parent, every sequence of calls of the engine of a node, with votes that Vote.Validate
-- accepts, ends, also when calls come between the parts of an OnReceiveVote; and if no safety breach
-- ended the process, each call of CreateQC gives a certificate: all its votes are for one block, for whose
-- hash it is, unless there are no votes; QuorumCert.Validate accepts it if the votes are at least a
-- majority, and else refuses it for too few signatures; a node that reads its message has the same.
pub run-certifies :
    {D : Type 0} (node : Node D) (store : Bytes → Option PbBlock) (law : IsStore store)
    (b0 : Stored store) (q0 : Option PbQuorumCert)
    (es : List (Event (Stored store) (Option PbQuorumCert) (NodeVote node store law)))
    → Safely
        (λ s. All (CertifiedCall node store law) s.calls)
        (run
          (stored_blocks store law node.storage.crypto node.vld_store)
          (node_driver node store law)
          es
          (new_state b0 q0))
run-certifies node store law b0 q0 es =
    Safely-map (IsCounting (node_blocks node store law) (node_driver node store law)) _ _
      (λ s c. tallies-certify node store law s.calls c.certificates)
      (run-IsCounting (node_blocks node store law) (node_driver node store law) b0 q0 es
        (node-IsLawful node store law))
