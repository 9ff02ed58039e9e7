-- ===== src/Execution/Chaincode.antt =====
-- execution/chaincode/chaincode.go and execution/call_context.go: a chaincode as the calls that it
-- makes. A chaincode is deterministic in what it reads; its panics are errors, since the executer
-- recovers them.
use hs_blockchain.Prelude.{ℕ, Option, Bytes}
use hs_blockchain.Execution.Tracker.{Value, Getter, get_state, set_state}

pub data Program (R : Type 0) : Type 0 where
  -- the call returns
  done : R → Program R
  -- ctx.GetState(key), and how the call goes on with the value
  get : Bytes → (Value → Program R) → Program R
  -- ctx.SetState(key, value)
  put : Bytes → Value → Program R → Program R

-- A result or an error, of which the text is kept.
pub data Outcome (A : Type 0) : Type 0 where
  ok : A → Outcome A
  err : Bytes → Outcome A

-- What a call can ask its context, apart from the state.
pub record CallContext : Type 0 where
  pub sender : Value
  pub block_hash : Bytes
  pub block_height : ℕ
  pub input : Bytes

-- Init and Invoke return an error, if there is one, and Query a value or an error.
pub record Chaincode : Type 0 where
  pub init : CallContext → Program (Option Bytes)
  pub invoke : CallContext → Program (Option Bytes)
  pub query : CallContext → Program (Outcome Value)

-- A call over the state of its context.
unfoldable pub run_program : {R : Type 0} → Program R → Getter → R × Getter
run_program (done e) g = (e, g)
run_program (get key rest) g = let (value, g') = get_state key g in run_program (rest value) g'
run_program (put key value rest) g = run_program rest (set_state key value g)
