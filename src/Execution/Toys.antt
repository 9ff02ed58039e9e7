-- ===== src/Execution/Toys.antt =====
-- A chaincode that counts its invocations, and its registry, for examples.
use hs_blockchain.Prelude.{suc, none, some, [], ◌∷◌, Bytes, ◌==◌, if◌then◌else◌}
use hs_blockchain.Execution.Tracker.{Value}
use hs_blockchain.Execution.Chaincode.{done, get, put, Chaincode}
use hs_blockchain.Execution.TxExecuter.{CodeInfo, ok, err, Registry}
use hs_blockchain.Execution.BlkExecuter.{Schedule}

abbrev pub next_count : Value → Bytes
next_count none = 1 ∷ []
next_count (some []) = 1 ∷ []
next_count (some (n ∷ _)) = suc n ∷ []

abbrev pub counter : Chaincode
counter = record {
  init = λ ctx. put [] (some (0 ∷ [])) (done none);
  invoke = λ ctx. get [] (λ v. put [] (some (next_count v)) (done none));
  query = λ ctx. get [] (λ v. done (ok v));
}

abbrev pub the_code : CodeInfo
the_code = record { driver_type = 0; code_id = 1 ∷ [] }

abbrev pub registry : Registry
registry = record {
  decode_deployment = λ b. ok (record { code_info = the_code; install_data = []; init_input = b });
  decode_code_info = λ v. elim v [ none ↦ err (2 ∷ []) | some _ ↦ ok the_code ];
  encode_code_info = λ info. info.code_id;
  drivers = λ t. if t == 0 then some (λ id. ok counter) else none;
  unknown_driver = 3 ∷ [];
}

abbrev pub all_early : Schedule
all_early tx read = 0
