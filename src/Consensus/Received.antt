-- ===== src/Consensus/Received.antt =====
-- The handlers of consensus/validator.go, over every sequence of messages.
use hs_blockchain.Prelude.{
  ℕ, zero, suc, ◌≡◌, Bool-cases, true, false, Option, none, some, List, [], ◌∷◌, Bytes, inl, inr,
  leb, ltb, ◌-◌,
}
use hs_blockchain.Core.Certs.{QuorumCert, Vote, validate_qc, validate_vote}
use hs_blockchain.Core.Blocks.{PbBlock, Block, validate_block, is_genesis, qc_hash}
use hs_blockchain.Consensus.Validator.{
  Resources, State, Result, returned, failed, panicked, out_of_fuel, or_else, Action, return, check,
  from_checked, message, height_of, get_state_block, request_block, request_block_by_height,
  verify_with_parent_and_update_hotstuff,
}
use hs_blockchain.Consensus.Handlers.{
  connect_block, sync_forward_loop, sync_forward_committed_blocks, get_qc_ref,
  sync_missing_committed_blocks, sync_missing_parent_blocks, get_parent_block, on_receive_proposal,
  on_receive_vote, on_receive_new_view, Event, handle, handle_all,
}
use hs_blockchain.Consensus.Admission.{
  Reached, Validated, Known, IsSound, OnReturn, Keeps, KnownIfAny, Keeps-bind, message-Keeps,
  check-Keeps, from_checked-Keeps, get_state_block-Keeps, request_block-Keeps,
  request_block_by_height-Keeps, verify-Keeps,
}

module _ {W : Type 0} (r : Resources W) (w0 : W) where
  Keeps-weaken :
      {A : Type 0} (m : Action W A) (P Q : A → Type 0)
      → ((a : A) → P a → Q a)
      → Keeps r w0 m P
      → Keeps r w0 m Q
  Keeps-weaken {A = A} m P Q h k s i = ((k s i).0, go (m s).0 (k s i).1)
    where
      go : (a : Result A) → OnReturn r w0 P a → OnReturn r w0 Q a
      go (returned a) p = h a p
      go failed p = tt
      go panicked p = tt
      go out_of_fuel p = tt

  or_else-Keeps :
      (p : Option Block) (m : Action W Block)
      → KnownIfAny r w0 p
      → Keeps r w0 m (Known r w0)
      → Keeps r w0 (or_else p m) (Known r w0)
  unfolding or_else KnownIfAny
  or_else-Keeps (some b) m k h s i = (i, k)
  or_else-Keeps none m k h s i = h s i

  connect_block-Keeps :
      (peer : Bytes) (b : Block) (p : Option Block)
      → Validated r w0 b
      → KnownIfAny r w0 p
      → Keeps r w0 (connect_block r peer b p) (λ _. Unit)
  unfolding connect_block KnownIfAny
  connect_block-Keeps peer b none v k s i = (i, tt)
  connect_block-Keeps peer b (some p) v k s i = verify-Keeps r w0 peer b p false v k s i

  request-Known : (peer hash : Bytes) → Keeps r w0 (request_block r peer hash) (Known r w0)
  request-Known peer hash =
      Keeps-weaken (request_block r peer hash) (Validated r w0) (Known r w0) (λ b v. inl v)
        (request_block-Keeps r w0 peer hash)

  sync_forward_loop-Keeps :
      (peer : Bytes) (count height : ℕ)
      → Keeps r w0 (sync_forward_loop r peer count height) (λ _. Unit)
  unfolding sync_forward_loop
  sync_forward_loop-Keeps peer zero height = λ s i. (i, tt)
  sync_forward_loop-Keeps peer (suc count) height =
      Keeps-bind r w0 (request_block_by_height r peer height) _ (Validated r w0) (λ _. Unit)
        (request_block_by_height-Keeps r w0 peer height)
        (λ b v.
          Keeps-bind r w0 (message b) _ (λ pb. b.pb ≡ some pb) (λ _. Unit) (message-Keeps r w0 b)
            (λ pb m.
              Keeps-bind r w0 (get_state_block r pb.parent_hash) _ (KnownIfAny r w0) (λ _. Unit)
                (get_state_block-Keeps r w0 pb.parent_hash)
                (λ p k.
                  Keeps-bind r w0 (connect_block r peer b p) _ (λ _. Unit) (λ _. Unit)
                    (connect_block-Keeps peer b p v k)
                    (λ _ _. sync_forward_loop-Keeps peer count (suc height)))))

  get_qc_ref-Keeps : (peer hash : Bytes) → Keeps r w0 (get_qc_ref r peer hash) (Known r w0)
  unfolding get_qc_ref
  get_qc_ref-Keeps peer hash =
      Keeps-bind r w0 (get_state_block r hash) _ (KnownIfAny r w0) (Known r w0)
        (get_state_block-Keeps r w0 hash)
        (λ p k. or_else-Keeps p (request_block r peer hash) k (request-Known peer hash))

  sync_missing_committed_blocks-Keeps :
      (pb : PbBlock) → Keeps r w0 (sync_missing_committed_blocks r pb) (λ _. Unit)
  unfolding sync_missing_committed_blocks sync_forward_committed_blocks
  sync_missing_committed_blocks-Keeps pb s i =
      elim (Bool-cases (leb pb.exec_height (r.block_height s.world))) [
        | inl e ↦ rw (sync_missing_committed_blocks, e) (i, tt)
        | inr e ↦ elim (Bool-cases (is_genesis pb)) [
          | inl f ↦ rw (sync_missing_committed_blocks, e, f) (i, tt)
          | inr f ↦
              rw (sync_missing_committed_blocks, e, f)
                (Keeps-bind r w0 (get_qc_ref r pb.proposer (qc_hash pb.quorum_cert)) _ (Known r w0)
                  (λ _. Unit) (get_qc_ref-Keeps pb.proposer (qc_hash pb.quorum_cert))
                  (λ q k.
                    Keeps-bind r w0 (check (ltb (height_of q) (r.block_height s.world))) _ _
                      (λ _. Unit) (check-Keeps r w0 (ltb (height_of q) (r.block_height s.world)))
                      (λ _ _.
                        sync_forward_loop-Keeps pb.proposer
                          (pb.exec_height - suc (r.block_height s.world))
                          (suc (r.block_height s.world))))
                  s i)
        ]
      ]

  sync_missing_parent_blocks-Keeps :
      (fuel : ℕ) (peer hash : Bytes)
      → Keeps r w0 (sync_missing_parent_blocks r fuel peer hash) (Known r w0)
  unfolding sync_missing_parent_blocks
  sync_missing_parent_blocks-Keeps zero peer hash = λ s i. (i, tt)
  sync_missing_parent_blocks-Keeps (suc fuel) peer hash =
      Keeps-bind r w0 (get_state_block r hash) _ (KnownIfAny r w0) (Known r w0)
        (get_state_block-Keeps r w0 hash)
        (λ p k. or_else-Keeps p _ k (
          Keeps-bind r w0 (request_block r peer hash) _ (Validated r w0) (Known r w0)
            (request_block-Keeps r w0 peer hash)
            (λ b v.
              Keeps-bind r w0 (message b) _ (λ pb. b.pb ≡ some pb) (Known r w0)
                (message-Keeps r w0 b)
                (λ pb m.
                  Keeps-bind r w0 (sync_missing_parent_blocks r fuel peer pb.parent_hash) _
                    (Known r w0) (Known r w0)
                    (sync_missing_parent_blocks-Keeps fuel peer pb.parent_hash)
                    (λ g h.
                      Keeps-bind r w0 (verify_with_parent_and_update_hotstuff r peer b g false)
                        (λ _. return b) (λ _. Unit) (Known r w0)
                        (verify-Keeps r w0 peer b g false v h) (λ _ _ s i. (i, inl v)))))))

  get_parent_block-Keeps :
      (fuel : ℕ) (pb : PbBlock) → Keeps r w0 (get_parent_block r fuel pb) (Known r w0)
  unfolding get_parent_block
  get_parent_block-Keeps fuel pb =
      Keeps-bind r w0 (get_state_block r pb.parent_hash) _ (KnownIfAny r w0) (Known r w0)
        (get_state_block-Keeps r w0 pb.parent_hash)
        (λ p k. or_else-Keeps p _ k (
          Keeps-bind r w0 (sync_missing_committed_blocks r pb) _ (λ _. Unit) (Known r w0)
            (sync_missing_committed_blocks-Keeps pb)
            (λ _ _. sync_missing_parent_blocks-Keeps fuel pb.proposer pb.parent_hash)))

  on_receive_proposal-Keeps :
      (fuel : ℕ) (b : Block) → Keeps r w0 (on_receive_proposal r fuel b) (λ _. Unit)
  unfolding on_receive_proposal
  on_receive_proposal-Keeps fuel b =
      Keeps-bind r w0 (from_checked (validate_block (r.crypto) (r.vld_store) b)) _
        (λ _. Validated r w0 b) (λ _. Unit)
        (from_checked-Keeps r w0 (validate_block (r.crypto) (r.vld_store) b))
        (λ _ v.
          Keeps-bind r w0 (message b) _ (λ pb. b.pb ≡ some pb) (λ _. Unit) (message-Keeps r w0 b)
            (λ pb m.
              Keeps-bind r w0 (get_parent_block r fuel pb) _ (Known r w0) (λ _. Unit)
                (get_parent_block-Keeps fuel pb)
                (λ p k. verify-Keeps r w0 pb.proposer b p true v k)))

  on_receive_vote-Keeps : (v : Vote) → Keeps r w0 (on_receive_vote r v) (λ _. Unit)
  unfolding on_receive_vote
  on_receive_vote-Keeps v =
      Keeps-bind r w0 (from_checked (validate_vote (r.crypto) (r.vld_store) v)) _ _ (λ _. Unit)
        (from_checked-Keeps r w0 (validate_vote (r.crypto) (r.vld_store) v))
        (λ _ e s i.
          (record { world = Reached.voted v i.world; blocks = i.blocks; calls = (e, i.calls) }, tt))

  on_receive_new_view-Keeps : (qc : QuorumCert) → Keeps r w0 (on_receive_new_view r qc) (λ _. Unit)
  unfolding on_receive_new_view
  on_receive_new_view-Keeps qc =
      Keeps-bind r w0 (from_checked (validate_qc (r.crypto) (r.vld_store) qc)) _ _ (λ _. Unit)
        (from_checked-Keeps r w0 (validate_qc (r.crypto) (r.vld_store) qc))
        (λ _ e s i. (
          record { world = Reached.raised qc i.world; blocks = i.blocks; calls = (e, i.calls) },
          tt,
        ))

  handle-IsSound :
      (fuel : ℕ) (e : Event) (s : State W) → IsSound r w0 s → IsSound r w0 (handle r fuel e s)
  unfolding handle
  handle-IsSound fuel (Event.proposal b) s i = (on_receive_proposal-Keeps fuel b s i).0
  handle-IsSound fuel (Event.vote v) s i = (on_receive_vote-Keeps v s i).0
  handle-IsSound fuel (Event.new_view qc) s i = (on_receive_new_view-Keeps qc s i).0

  -- For any sequence of proposals, votes and certificates that the handlers take one after the other, whatever the
  -- peers answer and however deep a synchronisation may go, from a state whose blocks are known and whose
  -- calls are sound: every block that the handlers keep has passed its validation, or the storage has had
  -- it in a state that the calls led to; every block that they give to the engine has passed its
  -- validation and is one above a known block, which need not be the parent that it names, and they give
  -- it as a proposal only where the checks for a vote hold at that call; every vote and every
  -- certificate that they give it has passed its validation.
  pub handle_all-IsSound :
      (fuel : ℕ) (es : List Event) (s : State W)
      → IsSound r w0 s
      → IsSound r w0 (handle_all r fuel es s)
  unfolding handle_all
  handle_all-IsSound fuel [] s i = i
  handle_all-IsSound fuel (e ∷ es) s i =
      handle_all-IsSound fuel es (handle r fuel e s) (handle-IsSound fuel e s i)
