-- ===== src/Consensus/Examples.antt =====
-- Three validators, one leader timeout after another.
use hs_blockchain.Prelude.{ℕ, ◌≡◌, refl, true, false, none, some, List, [], ◌∷◌, arith}
use hs_blockchain.Core.Crypto.{PublicKey}
use hs_blockchain.Core.Validators.{new_validator_store, get_validator_index}
use hs_blockchain.Consensus.Rotator.{
  Rotator, Event, view_timeout, leader_timeout, new_qc_high, start, step, run,
}
use hs_blockchain.Consensus.Views.{IsRotating, timeouts_since, run-IsRotating, new_qc_high-restarts}

abbrev validator : ℕ → PublicKey
validator n = record { key = n ∷ []; key_str = n ∷ [] }

abbrev three : List PublicKey
three = validator 0 ∷ validator 1 ∷ validator 2 ∷ []

abbrev stopped : Rotator ℕ
stopped = record {
  leader_index = 1;
  qc = none;
  view_start = 0;
  pending_view_change = false;
  leader_timeout_count = 0;
  leader_timer = false;
  view_timer = false;
  sent = [];
}

abbrev some_events : List (Event ℕ)
some_events =
    leader_timeout 1 7
    ∷ view_timeout 2 7
    ∷ leader_timeout 3 7
    ∷ new_qc_high 4 8 (some (validator 2))
    ∷ []

run-IsRotating_example :
    IsRotating three
      (run (new_validator_store three) some_events (start (new_validator_store three) 0 stopped))
    × ((run
          (new_validator_store three)
          some_events
          (start (new_validator_store three) 0 stopped)).leader_timeout_count
        ≡ timeouts_since three stopped.leader_timeout_count some_events
            (start (new_validator_store three) 0 stopped))
run-IsRotating_example = run-IsRotating three some_events 0 stopped (omega arith)

new_qc_high-restarts_example :
    ((step (new_validator_store three) (new_qc_high 4 8 (some (validator 2))) stopped).leader_timer
      ≡ true)
    × ((step
          (new_validator_store three)
          (new_qc_high 4 8 (some (validator 2)))
          stopped).leader_index
        ≡ get_validator_index (new_validator_store three) (some (validator 2)))
new_qc_high-restarts_example = new_qc_high-restarts three 4 8 (some (validator 2)) stopped refl
