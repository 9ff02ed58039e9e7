-- ===== src/Execution/TxExecuter.antt =====
-- execution/tx_executer.go and execution/code_registry.go: the execution of one transaction over its
-- tracker. The clock is left out: no execution runs into its timeout.
use hs_blockchain.Prelude.{
  ℕ, ◌≡◌, refl, ◌⊎◌, inl, inr, Option, none, some, [], Bytes, if◌then◌else◌, replicate, length,
  ◌==◌,
}
use hs_blockchain.Execution.Tracker.{
  Value, Tracker, Getter, base, track, spawn, get_state, set_state, merge, new_state_tracker,
}
use hs_blockchain.Execution.Chaincode.{CallContext, Chaincode, run_program}
pub use hs_blockchain.Execution.Chaincode.{Outcome, ok, err}

-- Fields of the block and the transaction that an execution reads.
pub record TxInput : Type 0 where
  pub hash : Bytes
  pub code_addr : Bytes
  pub input : Bytes
  pub sender : Value
  pub block_hash : Bytes
  pub block_height : ℕ

pub record CodeInfo : Type 0 where
  pub driver_type : ℕ
  pub code_id : Bytes

pub record DeploymentInput : Type 0 where
  pub code_info : CodeInfo
  pub install_data : Bytes
  pub init_input : Bytes

pub Outcome-cases :
    {A : Type 0} (o : Outcome A) → ((e : Bytes) × (o ≡ err e)) ⊎ ((a : A) × (o ≡ ok a))
Outcome-cases (err e) = inl (e, refl)
Outcome-cases (ok a) = inr (a, refl)

-- What is not in these files: the JSON decoder and encoder, and the registered drivers. A failure
-- gives the text of its error.
pub record Registry : Type 0 where
  pub decode_deployment : Bytes → Outcome DeploymentInput
  pub decode_code_info : Value → Outcome CodeInfo
  pub encode_code_info : CodeInfo → Bytes
  -- drivers[type].GetInstance, for a registered type
  pub drivers : ℕ → Option (Bytes → Outcome Chaincode)
  -- the text of "unknown chaincode driver type"
  pub unknown_driver : Bytes

abbrev pub code_registry_addr : Bytes
code_registry_addr = replicate 32 0

module _ (reg : Registry) where
  -- getDriver, and the driver's GetInstance.
  unfoldable pub driver_instance : CodeInfo → Outcome Chaincode
  driver_instance info = elim (reg.drivers info.driver_type) [
    | none ↦ err reg.unknown_driver
    | some instance_of ↦ instance_of info.code_id
  ]

  -- deploy. setCodeInfo's error, of the encoder, is dropped by its caller.
  unfoldable pub deploy : Bytes → DeploymentInput → Getter → Outcome Chaincode × Getter
  unfolding driver_instance
  deploy code_addr input g = elim (reg.drivers input.code_info.driver_type) [
    | none ↦ (err reg.unknown_driver, g)
    | some instance_of ↦ (
      instance_of input.code_info.code_id,
      set_state code_addr (some (reg.encode_code_info input.code_info)) g,
    )
  ]

  -- getInstance
  unfoldable pub get_instance : Bytes → Getter → Outcome Chaincode × Getter
  unfolding driver_instance
  get_instance code_addr g =
      let (value, g') = get_state code_addr g in
      (elim (reg.decode_code_info value) [ err e ↦ err e | ok info ↦ driver_instance info ], g')

-- makeCallContext
unfoldable pub make_call_context : TxInput → Bytes → CallContext
make_call_context tx input = record {
  sender = tx.sender;
  block_hash = tx.block_hash;
  block_height = tx.block_height;
  input = input;
}

-- The child's tracker is dropped. The transaction's own tracker, right above the base, stays.
unfoldable pub leave : Getter → Getter
leave (base view n) = base view n
leave (track child (base view n)) = track child (base view n)
leave (track child (track t g)) = track t g

-- The tracker on top.
unfoldable pub top_tracker : Getter → Tracker
top_tracker (base view n) = new_state_tracker []
top_tracker (track t g) = t

-- txTrk.merge(child)
unfoldable pub merge_into : Tracker → Getter → Getter
unfolding merge
merge_into child (base view n) = base view n
merge_into child (track t g) = track (merge child t) g

module _ (reg : Registry) (tx : TxInput) where
  -- The end of executeDeployment, after Init; `registered` is the tracker of the code registry.
  unfoldable pub finish_deployment : Tracker → Option Bytes × Getter → Option Bytes × Getter
  unfolding leave top_tracker merge_into
  finish_deployment registered (some e, g) = (some e, leave g)
  finish_deployment registered (none, g) =
      (none, merge_into (top_tracker g) (merge_into registered (leave g)))

  unfoldable pub init_deployment :
      DeploymentInput → Outcome Chaincode × Getter → Option Bytes × Getter
  unfolding finish_deployment make_call_context spawn run_program
  init_deployment input (err e, g) = (some e, leave g)
  init_deployment input (ok cc, g) =
      finish_deployment (top_tracker g)
        (run_program (cc.init (make_call_context tx input.init_input)) (spawn tx.hash (leave g)))

  -- executeDeployment
  unfoldable pub execute_deployment : Getter → Option Bytes × Getter
  unfolding deploy init_deployment
  execute_deployment g = elim (reg.decode_deployment tx.input) [
    | err e ↦ (some e, g)
    | ok input ↦ init_deployment input (deploy reg tx.hash input (spawn code_registry_addr g))
  ]

  -- The end of executeInvoke.
  unfoldable pub finish_invoke : Option Bytes × Getter → Option Bytes × Getter
  unfolding leave top_tracker merge_into
  finish_invoke (some e, g) = (some e, leave g)
  finish_invoke (none, g) = (none, merge_into (top_tracker g) (leave g))

  unfoldable pub call_instance : Outcome Chaincode × Getter → Option Bytes × Getter
  unfolding finish_invoke make_call_context spawn run_program
  call_instance (err e, g) = (some e, leave g)
  call_instance (ok cc, g) =
      finish_invoke
        (run_program (cc.invoke (make_call_context tx tx.input)) (spawn tx.code_addr (leave g)))

  -- executeInvoke
  unfoldable pub execute_invoke : Getter → Option Bytes × Getter
  unfolding get_instance call_instance
  execute_invoke g = call_instance (get_instance reg tx.code_addr (spawn code_registry_addr g))

  -- executeChaincode
  unfoldable pub execute_chaincode : Getter → Option Bytes × Getter
  unfolding execute_deployment execute_invoke
  execute_chaincode g = if length tx.code_addr == 0 then execute_deployment g else execute_invoke g

-- core.TxCommit, less the time that the execution took.
pub record TxCommit : Type 0 where
  pub hash : Bytes
  pub block_hash : Bytes
  pub block_height : ℕ
  pub error : Bytes

-- execute
unfoldable pub tx_commit : TxInput → Option Bytes → TxCommit
tx_commit tx e = record {
  hash = tx.hash;
  block_hash = tx.block_hash;
  block_height = tx.block_height;
  error = elim e [ none ↦ [] | some text ↦ text ];
}
