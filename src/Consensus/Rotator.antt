-- ===== src/Consensus/Rotator.antt =====
-- consensus/rotator.go: the leader of the current view, its timers and its changes.
-- The loop of run takes one event at a time, so a handler is one step.
use hs_blockchain.Prelude.{
  ℕ, Bool, true, false, not, Option, some, List, [], ◌∷◌, ◌++◌, if◌then◌else◌, leb, ltb, ◌==◌, ◌&&◌,
  ◌||◌, ◌+◌, ◌-◌,
}
use hs_blockchain.Core.Crypto.{PublicKey}
use hs_blockchain.Core.Validators.{
  ValidatorStore, validator_count, get_validator, get_validator_index,
}

-- The fields of the rotator, with the leader and the certificate that it keeps in state.go. A timer is
-- running or it is not, and `sent` holds the new views that went out, the oldest first.
pub record Rotator (Q : Type 0) : Type 0 where
  pub leader_index : ℕ
  pub qc : Option Q
  pub view_start : ℕ
  pub pending_view_change : Bool
  pub leader_timeout_count : ℕ
  pub leader_timer : Bool
  pub view_timer : Bool
  pub sent : List (Option PublicKey × Q)

-- What the loop of run waits for. A timeout comes with the time and the engine's high certificate, a
-- new certificate with the time and the proposer of its block.
pub data Event (Q : Type 0) : Type 0 where
  view_timeout : ℕ → Q → Event Q
  leader_timeout : ℕ → Q → Event Q
  new_qc_high : ℕ → Q → Option PublicKey → Event Q

-- getFaultyCount of state.go
unfoldable pub get_faulty_count : ValidatorStore → ℕ
unfolding validator_count
get_faulty_count store = validator_count store - store.majority

module _ {Q : Type 0} (store : ValidatorStore) where
  -- start and the beginning of run: both timers are new.
  unfoldable pub start : ℕ → Rotator Q → Rotator Q
  start now s = record s { view_start = now; leader_timer = true; view_timer = true }

  unfoldable pub next_leader : Rotator Q → ℕ
  unfolding validator_count
  next_leader s =
      let leader_idx = s.leader_index + 1 in
      if leb (validator_count store) leader_idx then 0 else leader_idx

  -- changeView
  unfoldable pub change_view : ℕ → Q → Rotator Q → Rotator Q
  unfolding next_leader get_validator
  change_view now qc_high s = record s {
    leader_index = next_leader s;
    pending_view_change = true;
    view_start = now;
    sent = s.sent ++ (get_validator store (next_leader s), qc_high) ∷ [];
  }

  -- The choice at the end of onLeaderTimeout.
  unfoldable pub restart_leader : Rotator Q → Rotator Q
  unfolding get_faulty_count
  restart_leader s =
      if ltb (get_faulty_count store) s.leader_timeout_count
      then record s { leader_timer = false; pending_view_change = false }
      else record s { leader_timer = true }

  -- onLeaderTimeout
  unfoldable pub on_leader_timeout : ℕ → Q → Rotator Q → Rotator Q
  unfolding change_view restart_leader
  on_leader_timeout now qc_high s =
      let changed =
        change_view now qc_high (record s { leader_timeout_count = s.leader_timeout_count + 1 }) in
      restart_leader (record changed { view_timer = false })

  -- onViewTimeout
  unfoldable pub on_view_timeout : ℕ → Q → Rotator Q → Rotator Q
  unfolding change_view
  on_view_timeout now qc_high s = record (change_view now qc_high s) { leader_timer = true }

  -- isNewViewApproval
  unfoldable pub is_new_view_approval : ℕ → Rotator Q → Bool
  is_new_view_approval proposer s =
      (not s.pending_view_change && not (proposer == s.leader_index))
      || (s.pending_view_change && (proposer == s.leader_index))

  -- approveViewLeader
  unfoldable pub approve_view_leader : ℕ → ℕ → Rotator Q → Rotator Q
  approve_view_leader now proposer s = record s {
    pending_view_change = false;
    leader_index = proposer;
    view_start = now;
    leader_timeout_count = 0;
  }

  -- onNewQCHigh after setQC, for the index of the proposer.
  unfoldable pub on_proposer : ℕ → ℕ → Rotator Q → Rotator Q
  unfolding is_new_view_approval approve_view_leader
  on_proposer now proposer s =
      if is_new_view_approval proposer s
      then record (approve_view_leader now proposer s) { leader_timer = true; view_timer = true }
      else if proposer == s.leader_index
      then record s { leader_timer = true }
      else s

  -- onNewQCHigh
  unfoldable pub on_new_qc_high : ℕ → Q → Option PublicKey → Rotator Q → Rotator Q
  unfolding on_proposer get_validator_index
  on_new_qc_high now qc proposer s =
      on_proposer now (get_validator_index store proposer) (record s { qc = some qc })

  -- One round of run. A timer that has fired is not running.
  unfoldable pub step : Event Q → Rotator Q → Rotator Q
  unfolding on_view_timeout on_leader_timeout on_new_qc_high
  step (view_timeout now qc_high) s = on_view_timeout now qc_high (record s { view_timer = false })
  step (leader_timeout now qc_high) s =
      on_leader_timeout now qc_high (record s { leader_timer = false })
  step (new_qc_high now qc proposer) s = on_new_qc_high now qc proposer s

  unfoldable pub run : List (Event Q) → Rotator Q → Rotator Q
  unfolding step
  run [] s = s
  run (e ∷ es) s = run es (step e s)
