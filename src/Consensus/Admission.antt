-- ===== src/Consensus/Admission.antt =====
-- What consensus/validator.go lets through to the engine, whatever the network answers.
use hs_blockchain.Prelude.{
  ℕ, suc, ◌≡◌, refl, subst, Bool, Bool-cases, true, false, not, Option, none, some, some-injective,
  List, [], ◌∷◌, Bytes, bytes_eq, if◌then◌else◌, ◌==◌, arith, All, Map, lookup, insert, ◌⊎◌, inl,
  inr,
}
use hs_blockchain.Core.Crypto.{Checked, ok, err, panic}
use hs_blockchain.Core.Certs.{QuorumCert, Vote, validate_qc, validate_vote}
use hs_blockchain.Core.Blocks.{PbBlock, Block, validate_block}
use hs_blockchain.Consensus.Validator.{
  Resources, Call, State, Result, returned, failed, panicked, out_of_fuel, Action, continue, ◌>>=◌,
  return, check, from_checked, message_of, message, block_hash, get_or_keep, set_state_block,
  get_state_block, accept_answer, request_block, request_block_by_height, call_update,
  call_receive_proposal, verify_proposal_to_vote, update_hotstuff, sync_txs,
  verify_with_parent_and_update_hotstuff,
}

module _ (P : Block → Type 0) where
  All-insert :
      (k : Bytes) (b : Block) (m : Map Block)
      → P b
      → All (λ (e : Bytes × Block). P e.1) m
      → All (λ (e : Bytes × Block). P e.1) (insert k b m)
  unfolding insert
  All-insert k b [] h a = (h, tt)
  All-insert k b ((j, c) ∷ m) h a = elim (Bool-cases (bytes_eq j k)) [
    | inl e ↦ rw e (h, a.1)
    | inr e ↦ rw e (a.0, All-insert k b m h a.1)
  ]

  All-lookup :
      (k : Bytes) (b : Block) (m : Map Block)
      → All (λ (e : Bytes × Block). P e.1) m
      → lookup k m ≡ some b
      → P b
  unfolding lookup
  All-lookup k b [] a e = absurd (ground (arith, e))
  All-lookup k b ((j, c) ∷ m) a e = elim (Bool-cases (bytes_eq j k)) [
    | inl f ↦ subst P (some-injective _ _ (rw (lookup, f) at e)) a.0
    | inr f ↦ All-lookup k b m a.1 (rw (lookup, f) at e)
  ]

-- The states of the other parts that the node's calls lead to.
pub data Reached {W : Type 0} (r : Resources W) (w0 : W) : W → Type 0 where
  first : Reached r w0 w0
  synced :
      {w : W} (peer : Bytes) (hashes : List Bytes)
      → Reached r w0 w
      → Reached r w0 (r.sync_txs peer hashes w).1
  asked :
      {w : W} (peer hash : Bytes) → Reached r w0 w → Reached r w0 (r.request_block peer hash w).1
  asked_height :
      {w : W} (peer : Bytes) (height : ℕ)
      → Reached r w0 w
      → Reached r w0 (r.request_block_by_height peer height w).1
  updated : {w : W} (b : Block) → Reached r w0 w → Reached r w0 (r.update b w)
  proposed : {w : W} (b : Block) → Reached r w0 w → Reached r w0 (r.receive_proposal b w)
  voted : {w : W} (v : Vote) → Reached r w0 w → Reached r w0 (r.receive_vote v w)
  raised : {w : W} (qc : QuorumCert) → Reached r w0 w → Reached r w0 (r.update_qc_high qc w)

module _ {W : Type 0} (r : Resources W) (w0 : W) where
  abbrev pub Validated : Block → Type 0
  Validated b = validate_block (r.crypto) (r.vld_store) b ≡ ok tt

  -- A block that the node has checked, or has had in its storage.
  abbrev pub Known : Block → Type 0
  Known b = Validated b ⊎ ((h : Bytes) × (w : W) × Reached r w0 w × (r.stored_block h w ≡ some b))

  -- A block one above a known block.
  pub record Rises (b : Block) : Type 0 where
    pub parent : Block
    pub known : Known parent
    pub pb : PbBlock
    pub parent_pb : PbBlock
    pub has_message : b.pb ≡ some pb
    pub parent_message : parent.pb ≡ some parent_pb
    pub above : pb.height ≡ suc parent_pb.height

  -- The checks before a vote hold of the block, at the state of the other parts.
  abbrev pub Votable : Block → W → Type 0
  Votable b w = (pb : PbBlock) × (b.pb ≡ some pb) × (verify_proposal_to_vote r pb w ≡ true)

  abbrev pub SoundCall : Call W → Type 0
  SoundCall (Call.update b) = Validated b × Rises b
  SoundCall (Call.receive_proposal b w) = (Validated b × Rises b) × Votable b w
  SoundCall (Call.receive_vote v) = validate_vote (r.crypto) (r.vld_store) v ≡ ok tt
  SoundCall (Call.update_qc_high qc) = validate_qc (r.crypto) (r.vld_store) qc ≡ ok tt

  -- The blocks of the state are known, and every call of the engine is sound.
  pub record IsSound (s : State W) : Type 0 where
    pub world : Reached r w0 s.world
    pub blocks : All (λ (e : Bytes × Block). Known e.1) s.blocks
    pub calls : All SoundCall s.calls

  abbrev pub OnReturn : {A : Type 0} → (A → Type 0) → Result A → Type 0
  OnReturn P (returned a) = P a
  OnReturn P failed = Unit
  OnReturn P panicked = Unit
  OnReturn P out_of_fuel = Unit

  -- The action keeps a sound state sound, and what it returns satisfies the predicate.
  abbrev pub Keeps : {A : Type 0} → Action W A → (A → Type 0) → Type 0
  Keeps m P = (s : State W) → IsSound s → IsSound (m s).1 × OnReturn P (m s).0

  pub Keeps-bind :
      {A B : Type 0} (m : Action W A) (f : A → Action W B) (P : A → Type 0) (Q : B → Type 0)
      → Keeps m P
      → ((a : A) → P a → Keeps (f a) Q)
      → Keeps (m >>= f) Q
  Keeps-bind {A = A} {B = B} m f P Q h k s sound = go (m s).0 (m s).1 (h s sound).0 (h s sound).1
    where
      go :
          (a : Result A) (s' : State W)
          → IsSound s'
          → OnReturn P a
          → IsSound (continue a s' f).1 × OnReturn Q (continue a s' f).0
      go (returned a) s' i p = k a p s' i
      go failed s' i p = (i, tt)
      go panicked s' i p = (i, tt)
      go out_of_fuel s' i p = (i, tt)

  pub message-Keeps : (b : Block) → Keeps (message b) (λ pb. b.pb ≡ some pb)
  message-Keeps b s i = go b.pb refl
    where
      go :
          (m : Option PbBlock)
          → b.pb ≡ m
          → IsSound (message_of m s).1 × OnReturn (λ pb. b.pb ≡ some pb) (message_of m s).0
      go none e = (i, tt)
      go (some pb) e = (i, e)

  pub check-Keeps : (b : Bool) → Keeps (check b) (λ _. b ≡ false)
  check-Keeps true s i = (i, tt)
  check-Keeps false s i = (i, refl)

  pub from_checked-Keeps : (c : Checked (Unit {0})) → Keeps (from_checked c) (λ _. c ≡ ok tt)
  from_checked-Keeps (ok a) s i = (i, refl)
  from_checked-Keeps (err e) s i = (i, tt)
  from_checked-Keeps panic s i = (i, tt)

  -- A block that is looked up is known.
  unfoldable pub KnownIfAny : Option Block → Type 0
  KnownIfAny none = Unit
  KnownIfAny (some b) = Known b

  set_state_block-IsSound :
      (b : Block) (s : State W) → Known b → IsSound s → IsSound (set_state_block b s)
  unfolding set_state_block
  set_state_block-IsSound b s k i = record {
    world = i.world;
    blocks = All-insert Known (block_hash b) b s.blocks k i.blocks;
    calls = i.calls;
  }

  pub get_state_block-Keeps : (hash : Bytes) → Keeps (get_state_block r hash) KnownIfAny
  unfolding get_state_block get_or_keep KnownIfAny
  get_state_block-Keeps hash s i = go (lookup hash s.blocks) (r.stored_block hash s.world) refl refl
    where
      go :
          (m n : Option Block)
          → lookup hash s.blocks ≡ m
          → r.stored_block hash s.world ≡ n
          → IsSound (get_or_keep m n s).1 × OnReturn KnownIfAny (get_or_keep m n s).0
      go (some b) n e f = (i, All-lookup Known hash b s.blocks i.blocks e)
      go none none e f = (i, tt)
      go none (some b) e f = (
        set_state_block-IsSound b s (inr (hash, s.world, i.world, f)) i,
        inr (hash, s.world, i.world, f),
      )

  accept_answer-Keeps :
      (a : Option Block × W) (s : State W)
      → Reached r w0 a.1
      → IsSound s
      → IsSound (accept_answer r a s).1 × OnReturn Validated (accept_answer r a s).0
  unfolding accept_answer
  accept_answer-Keeps (none, w) s v i =
      (record { world = v; blocks = i.blocks; calls = i.calls }, tt)
  accept_answer-Keeps (some b, w) s reached i =
      Keeps-bind (from_checked (validate_block (r.crypto) (r.vld_store) b)) (λ _. return b)
        (λ _. Validated b) Validated
        (from_checked-Keeps (validate_block (r.crypto) (r.vld_store) b)) (λ a v s' i'. (i', v))
        (record s { world = w }) (record { world = reached; blocks = i.blocks; calls = i.calls })

  pub request_block-Keeps : (peer hash : Bytes) → Keeps (request_block r peer hash) Validated
  unfolding request_block
  request_block-Keeps peer hash s i =
      accept_answer-Keeps (r.request_block peer hash s.world) s (Reached.asked peer hash i.world) i

  pub request_block_by_height-Keeps :
      (peer : Bytes) (height : ℕ) → Keeps (request_block_by_height r peer height) Validated
  unfolding request_block_by_height
  request_block_by_height-Keeps peer height s i =
      accept_answer-Keeps (r.request_block_by_height peer height s.world) s
        (Reached.asked_height peer height i.world) i

  sync_txs-Keeps : (peer : Bytes) (hashes : List Bytes) → Keeps (sync_txs r peer hashes) (λ _. Unit)
  unfolding sync_txs
  sync_txs-Keeps peer hashes s i =
      go (r.sync_txs peer hashes s.world) (Reached.synced peer hashes i.world)
    where
      go :
          (a : Bool × W)
          → Reached r w0 a.1
          → IsSound (record s { world = a.1 })
            × OnReturn (λ _. Unit) (if a.0 then returned tt else failed)
      go (true, w) reached = (record { world = reached; blocks = i.blocks; calls = i.calls }, tt)
      go (false, w) reached = (record { world = reached; blocks = i.blocks; calls = i.calls }, tt)

  update_hotstuff-Keeps :
      (b : Block) (pb : PbBlock) (voting : Bool)
      → b.pb ≡ some pb
      → Validated b
      → Rises b
      → Keeps (update_hotstuff r b pb voting) (λ _. Unit)
  unfolding update_hotstuff call_update call_receive_proposal
  update_hotstuff-Keeps b pb false m v up s i = (
    record { world = Reached.updated b i.world; blocks = i.blocks; calls = ((v, up), i.calls) },
    tt,
  )
  update_hotstuff-Keeps b pb true m v up s i =
      elim (Bool-cases (verify_proposal_to_vote r pb s.world)) [
        | inl e ↦
            rw (update_hotstuff, e)
              (
                record {
                  world = Reached.proposed b i.world;
                  blocks = i.blocks;
                  calls = (((v, up), (pb, m, e)), i.calls);
                },
                tt,
              )
        | inr e ↦
            rw (update_hotstuff, e)
              (
                record {
                  world = Reached.updated b i.world;
                  blocks = i.blocks;
                  calls = ((v, up), i.calls);
                },
                tt,
              )
      ]

  pub verify-Keeps :
      (peer : Bytes) (b p : Block) (voting : Bool)
      → Validated b
      → Known p
      → Keeps (verify_with_parent_and_update_hotstuff r peer b p voting) (λ _. Unit)
  unfolding verify_with_parent_and_update_hotstuff
  verify-Keeps peer b p voting v k =
      Keeps-bind (message b) _ (λ pb. b.pb ≡ some pb) (λ _. Unit) (message-Keeps b)
        (λ pb m.
          Keeps-bind (message p) _ (λ ppb. p.pb ≡ some ppb) (λ _. Unit) (message-Keeps p)
            (λ ppb n.
              Keeps-bind (check (not (pb.height == suc ppb.height))) _
                (λ _. not (pb.height == suc ppb.height) ≡ false) (λ _. Unit)
                (check-Keeps (not (pb.height == suc ppb.height)))
                (λ _ c.
                  Keeps-bind (sync_txs r peer pb.transactions) _ (λ _. Unit) (λ _. Unit)
                    (sync_txs-Keeps peer pb.transactions)
                    (λ _ _ s i.
                      update_hotstuff-Keeps b pb voting m v
                        (record {
                          parent = p;
                          known = k;
                          pb = pb;
                          parent_pb = ppb;
                          has_message = m;
                          parent_message = n;
                          above = ground (arith, c);
                        })
                        (set_state_block b s) (set_state_block-IsSound b s (inl v) i)))))
