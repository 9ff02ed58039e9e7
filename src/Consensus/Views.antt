-- ===== src/Consensus/Views.antt =====
-- What consensus/rotator.go keeps: the leader is a validator, and the rotation never stalls.
use hs_blockchain.Prelude.{
  ℕ, suc, ◌≡◌, refl, true, false, Option, none, some, List, [], ◌∷◌, arith, ◌<◌, ◌+◌, ◌-◌, length,
  lookup, ◌⊎◌, inl, inr, Bool-cases, Option-cases, lookup-insert, insert, ltb, ◌==◌, if◌then◌else◌,
  ◌∙◌, ap,
}
use hs_blockchain.Core.Crypto.{PublicKey}
use hs_blockchain.Core.Validators.{index_validators, new_validator_store, get_validator_index}
use hs_blockchain.Consensus.Rotator.{
  Rotator, Event, view_timeout, leader_timeout, new_qc_high, get_faulty_count, start, next_leader,
  change_view, restart_leader, is_new_view_approval, on_proposer, step, run,
}

inserted :
    (i : ℕ) (v : PublicKey) (vs : List PublicKey) (k : List ℕ) (m : List (List ℕ × ℕ))
    → ((x : ℕ) → lookup k m ≡ some x → x < i + length (v ∷ vs))
    → (x : ℕ) → lookup k (insert v.key_str i m) ≡ some x
    → x < suc i + length vs
inserted i v vs k m h x e = ground (arith, lookup-insert v.key_str k i m, e, h x)

-- An index in the map of validators is one of a validator.
lookup-index_validators :
    (k : List ℕ) (j i : ℕ) (vs : List PublicKey) (m : List (List ℕ × ℕ))
    → ((x : ℕ) → lookup k m ≡ some x → x < i + length vs)
    → lookup k (index_validators i vs m) ≡ some j
    → j < i + length vs
unfolding index_validators
lookup-index_validators k j i [] m h e = h j e
lookup-index_validators k j i (v ∷ vs) m h e =
    let found =
      lookup-index_validators k j (suc i) vs (insert v.key_str i m) (inserted i v vs k m h) e in
    omega (arith, found)

pub get_validator_index-lt :
    (vs : List PublicKey) (key : Option PublicKey)
    → 0 < length vs
    → get_validator_index (new_validator_store vs) key < length vs
unfolding get_validator_index new_validator_store lookup
get_validator_index-lt vs none h = h
get_validator_index-lt vs (some key) h =
    elim (Option-cases (lookup key.key_str (index_validators 0 vs []))) [
      | inl e ↦ rw (e, get_validator_index) h
      | inr (j, e) ↦
          rw (e, get_validator_index)
            (omega
              (arith, lookup-index_validators key.key_str j 0 vs [] (λ x q. ground (arith, q)) e))
    ]

module _ {Q : Type 0} (vs : List PublicKey) where
  -- The leader is a validator, and the rotation goes on: a timer is running, or more leaders than may be
  -- faulty have timed out, and the next certificate, of any proposer, is waited for.
  pub record IsRotating (s : Rotator Q) : Type 0 where
    pub leader_valid : s.leader_index < length vs
    pub goes_on :
        (s.leader_timer ≡ true)
        ⊎ ((s.view_timer ≡ true)
            ⊎ ((s.pending_view_change ≡ false)
                × (length vs - (new_validator_store vs).majority < s.leader_timeout_count)))

  -- The number of timeouts after an event: one more for a leader's timeout, and none once a certificate approves.
  abbrev timeouts_after : ℕ → Event Q → Rotator Q → ℕ
  timeouts_after n (view_timeout now qc_high) s = n
  timeouts_after n (leader_timeout now qc_high) s = n + 1
  timeouts_after n (new_qc_high now qc proposer) s =
      let i = get_validator_index (new_validator_store vs) proposer in
      if is_new_view_approval (new_validator_store vs) i s then 0 else n

  step-timeouts :
      (e : Event Q) (s : Rotator Q)
      → (step (new_validator_store vs) e s).leader_timeout_count
        ≡ timeouts_after s.leader_timeout_count e s
  unfolding step on_proposer restart_leader change_view
  step-timeouts (view_timeout now qc_high) s = refl
  step-timeouts (leader_timeout now qc_high) s = ground arith
  step-timeouts (new_qc_high now qc proposer) s = ground arith

  next_leader-lt :
      (s : Rotator Q) → 0 < length vs → next_leader (new_validator_store vs) s < length vs
  unfolding next_leader new_validator_store
  next_leader-lt s h = ground (arith, h)

  restart_leader-IsRotating :
      (s : Rotator Q)
      → s.leader_index < length vs
      → IsRotating (restart_leader (new_validator_store vs) s)
  unfolding restart_leader new_validator_store
  restart_leader-IsRotating s h =
      elim (Bool-cases (ltb (get_faulty_count (new_validator_store vs)) s.leader_timeout_count)) [
        | inl many ↦
            rw (many, restart_leader)
              record { leader_valid = h; goes_on = inr (inr (refl, ground (arith, many))) }
        | inr few ↦ rw (few, restart_leader) record { leader_valid = h; goes_on = inl refl }
      ]

  on_proposer-IsRotating :
      (now proposer : ℕ) (s : Rotator Q)
      → proposer < length vs
      → IsRotating s
      → IsRotating (on_proposer (new_validator_store vs) now proposer s)
  unfolding on_proposer
  on_proposer-IsRotating now proposer s h r =
      elim (Bool-cases (is_new_view_approval (new_validator_store vs) proposer s)) [
        | inl e ↦ rw (e, on_proposer) record { leader_valid = h; goes_on = inl refl }
        | inr e ↦ elim (Bool-cases (proposer == s.leader_index)) [
          | inl own ↦
              rw (e, own, on_proposer) record { leader_valid = r.leader_valid; goes_on = inl refl }
          | inr other ↦ rw (e, other, on_proposer) r
        ]
      ]

  step-IsRotating :
      (e : Event Q) (s : Rotator Q)
      → 0 < length vs
      → IsRotating s
      → IsRotating (step (new_validator_store vs) e s)
  unfolding step change_view
  step-IsRotating (view_timeout now qc_high) s h r = record {
    leader_valid = next_leader-lt (record s { view_timer = false }) h;
    goes_on = inl refl;
  }
  step-IsRotating (leader_timeout now qc_high) s h r =
      let counted : Rotator Q = record s {
        leader_timer = false;
        leader_timeout_count = s.leader_timeout_count + 1;
      } in
      restart_leader-IsRotating
        (record (change_view (new_validator_store vs) now qc_high counted) { view_timer = false })
        (next_leader-lt counted h)
  step-IsRotating (new_qc_high now qc proposer) s h r =
      on_proposer-IsRotating now _ (record s { qc = some qc })
        (get_validator_index-lt vs proposer h)
        (record { leader_valid = r.leader_valid; goes_on = r.goes_on })

  run-keeps :
      (es : List (Event Q)) (s : Rotator Q)
      → 0 < length vs
      → IsRotating s
      → IsRotating (run (new_validator_store vs) es s)
  unfolding run
  run-keeps [] s h r = r
  run-keeps (e ∷ es) s h r =
      run-keeps es (step (new_validator_store vs) e s) h (step-IsRotating e s h r)

  -- The timeouts of leaders since a leader was last approved, over the events, from a number of them.
  abbrev pub timeouts_since : ℕ → List (Event Q) → Rotator Q → ℕ
  timeouts_since n [] s = n
  timeouts_since n (e ∷ es) s =
      timeouts_since (timeouts_after n e s) es (step (new_validator_store vs) e s)

  run-timeouts :
      (es : List (Event Q)) (s : Rotator Q)
      → (run (new_validator_store vs) es s).leader_timeout_count
        ≡ timeouts_since s.leader_timeout_count es s
  unfolding run
  run-timeouts [] s = refl
  run-timeouts (e ∷ es) s =
      run-timeouts es (step (new_validator_store vs) e s)
      ∙ ap (λ n. timeouts_since n es (step (new_validator_store vs) e s)) (step-timeouts e s)

  -- From the start with a leader among the validators, over every sequence of timeouts and certificates
  -- the leader stays one of the validators; the rotation never stalls: a timer is running, or
  -- the timeouts counted are more than the validators beyond a majority and the rotator is
  -- ready for a certificate; and the count is that of the leaders' timeouts since a certificate
  -- last approved a leader, or since the start and from its count.
  pub run-IsRotating :
      (es : List (Event Q)) (now : ℕ) (s : Rotator Q)
      → s.leader_index < length vs
      → IsRotating (run (new_validator_store vs) es (start (new_validator_store vs) now s))
        × ((run
              (new_validator_store vs)
              es
              (start (new_validator_store vs) now s)).leader_timeout_count
            ≡ timeouts_since s.leader_timeout_count es (start (new_validator_store vs) now s))
  unfolding start
  run-IsRotating es now s h = (
    run-keeps es (start (new_validator_store vs) now s) (omega (arith, h))
        (record { leader_valid = h; goes_on = inl refl }),
    run-timeouts es (start (new_validator_store vs) now s),
  )

  -- Where the rotator waits for a certificate without a pending change of view, any new certificate
  -- restarts the leader's timer and makes its proposer the leader.
  pub new_qc_high-restarts :
      (now : ℕ) (qc : Q) (proposer : Option PublicKey) (s : Rotator Q)
      → s.pending_view_change ≡ false
      → ((step (new_validator_store vs) (new_qc_high now qc proposer) s).leader_timer ≡ true)
        × ((step (new_validator_store vs) (new_qc_high now qc proposer) s).leader_index
            ≡ get_validator_index (new_validator_store vs) proposer)
  unfolding step on_proposer
  new_qc_high-restarts now qc proposer s h =
      let i = get_validator_index (new_validator_store vs) proposer in
      elim (Bool-cases (i == s.leader_index)) [
        | inl own ↦ rw (on_proposer, is_new_view_approval, h, own) (refl, ground (arith, own))
        | inr other ↦ rw (on_proposer, is_new_view_approval, h, other) (refl, refl)
      ]
