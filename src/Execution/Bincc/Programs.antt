-- ===== src/Execution/Bincc/Programs.antt =====
-- execution/bincc/client.go, the process of a chaincode, and execution/bincc/runner.go, the node's side of
-- it. The chaincode does not panic: a panic ends its process. The node's timer is a number of messages
-- that it serves before the timer fires; the other times, and the start of the process, are left out.
use hs_blockchain.Prelude.{
  ℕ, zero, suc, Option, none, some, [], Bytes, if◌then◌else◌, ◌==◌, ltb, length,
}
use hs_blockchain.Execution.Tracker.{Value, Getter, get_state, set_state}
use hs_blockchain.Execution.Chaincode.{
  Program, done, get, put, Outcome, ok, err, CallContext, Chaincode,
}
use hs_blockchain.Execution.Bincc.Processes.{Process, ended, write_message, read_message}
use hs_blockchain.Execution.Bincc.Messages.{
  CallType, init, invoke, query, CallData, up_stream_get_state, up_stream_set_state,
  up_stream_result, UpStream, DownStream, Library,
}

-- The call context that the client is for its chaincode.
unfoldable pub client_context : CallData → CallContext
client_context d = record {
  sender = d.sender;
  block_hash = d.block_hash;
  block_height = d.block_height;
  input = d.input;
}

-- A message of the client.
unfoldable pub request_of : Bytes → Value → ℕ → UpStream
request_of key value up_type = record { key = key; value = value; error = []; up_type = up_type }

-- GetState drops the error, so the value is nil then.
abbrev pub value_or_nil : Outcome Value → Value
value_or_nil (ok v) = v
value_or_nil (err e) = none

-- `var result []byte` stays nil in Init and Invoke.
abbrev pub only_error : Option Bytes → Outcome Value
only_error none = ok none
only_error (some e) = err e

-- The message of a result.
unfoldable pub result_of : Outcome Value → UpStream
result_of (ok v) = record { key = []; value = v; error = []; up_type = up_stream_result }
result_of (err e) = record { key = []; value = none; error = e; up_type = up_stream_result }

module _ (lib : Library) where
  -- The end of request: the value of the answer, or an error.
  unfoldable pub value_of_down : Outcome DownStream → Outcome Value
  value_of_down (err e) = err e
  value_of_down (ok down) =
      if ltb 0 (length down.error) then err (lib.errorf down.error) else ok down.value

  unfoldable pub response_of : Outcome Bytes → Outcome Value
  unfolding value_of_down
  response_of (err e) = err e
  response_of (ok b) = value_of_down (lib.decode_down b)

  -- request
  unfoldable pub request :
      Bytes → Value → ℕ → (Outcome Value → Process (Unit {0})) → Process (Unit {0})
  unfolding request_of response_of
  request key value up_type rest =
      write_message (lib.encode_up (request_of key value up_type))
        (read_message (λ o. rest (response_of o)))

  -- sendResult; main ends the process with status 0 after it.
  unfoldable pub send_result : Outcome Value → Process (Unit {0})
  unfolding result_of
  send_result r = write_message (lib.encode_up (result_of r)) (ended tt)

  -- The chaincode with the client as its context: GetState and SetState are requests.
  unfoldable pub run_calls :
      {R : Type 0} → (R → Process (Unit {0})) → Program R → Process (Unit {0})
  unfolding request
  run_calls rest (done r) = rest r
  run_calls rest (get key more) =
      request key none up_stream_get_state (λ v. run_calls rest (more (value_or_nil v)))
  run_calls rest (put key value more) =
      request key value up_stream_set_state (λ _. run_calls rest more)

  -- runChaincode
  unfoldable pub run_chaincode : Chaincode → CallData → CallType → Process (Unit {0})
  unfolding run_calls send_result client_context
  run_chaincode cc d init = run_calls (λ e. send_result (only_error e)) (cc.init (client_context d))
  run_chaincode cc d invoke =
      run_calls (λ e. send_result (only_error e)) (cc.invoke (client_context d))
  run_chaincode cc d query = run_calls send_result (cc.query (client_context d))

  -- loadCallData, and what runChaincodeAsync does with it
  unfoldable pub run_call_data : Chaincode → Outcome CallData → Process (Unit {0})
  unfolding run_chaincode
  run_call_data cc (err e) = ended tt
  run_call_data cc (ok d) = run_chaincode cc d d.call_type

  unfoldable pub start_client : Chaincode → Outcome Bytes → Process (Unit {0})
  unfolding run_call_data
  start_client cc (err e) = ended tt
  start_client cc (ok b) = run_call_data cc (lib.decode_call b)

  -- runChaincodeAsync
  unfoldable pub run_chaincode_async : Chaincode → Process (Unit {0})
  unfolding start_client
  run_chaincode_async cc = read_message (start_client cc)

-- Why a run fails.
pub data RunError : Type 0 where
  call_timeout read_upstream parse_upstream : RunError
  -- the error that the chaincode sends
  code_error : Bytes → RunError

pub data Answer : Type 0 where
  answered : Value → Answer
  failed : RunError → Answer

-- The node's side ends with its answer, and with the context as the calls leave it.
abbrev pub Runner : Type 0
Runner = Process (Answer × Getter)

-- sendCallData
unfoldable pub call_data_of : CallType → CallContext → CallData
call_data_of call_type ctx = record {
  input = ctx.input;
  sender = ctx.sender;
  block_hash = ctx.block_hash;
  block_height = ctx.block_height;
  call_type = call_type;
}

-- serveState: the answer to a request, and the context after it.
unfoldable pub served : UpStream → Getter → DownStream × Getter
served up g =
    if up.up_type == up_stream_get_state
    then (let (v, g') = get_state up.key g in (record { value = v; error = [] }, g'))
    else if up.up_type == up_stream_set_state
    then (record { value = none; error = [] }, set_state up.key up.value g)
    else (record { value = none; error = [] }, g)

module _ (lib : Library) where
  -- The answer to a result message.
  unfoldable pub answer_of : UpStream → Answer
  answer_of up =
      if ltb 0 (length up.error)
      then failed (code_error (lib.errorf up.error))
      else answered up.value

  unfoldable pub serve_state : (Getter → Runner) → UpStream → Getter → Runner
  unfolding served
  serve_state rest up g = write_message (lib.encode_down (served up g).0) (rest (served up g).1)

  -- What the loop does with a message.
  unfoldable pub on_message : (Getter → Runner) → Getter → Outcome UpStream → Runner
  unfolding answer_of serve_state
  on_message rest g (err e) = ended (failed parse_upstream, g)
  on_message rest g (ok up) =
      if up.up_type == up_stream_result then ended (answer_of up, g) else serve_state rest up g

  unfoldable pub on_upstream : (Getter → Runner) → Getter → Outcome Bytes → Runner
  unfolding on_message
  on_upstream rest g (err e) = ended (failed read_upstream, g)
  on_upstream rest g (ok b) = on_message rest g (lib.decode_up b)

  -- serveStateAndGetResult
  unfoldable pub serve_state_and_get_result : ℕ → Getter → Runner
  unfolding on_upstream
  serve_state_and_get_result zero g = ended (failed call_timeout, g)
  serve_state_and_get_result (suc n) g = read_message (on_upstream (serve_state_and_get_result n) g)

  -- runCode, once the process has started
  unfoldable pub run_code : ℕ → CallType → CallContext → Getter → Runner
  unfolding call_data_of serve_state_and_get_result
  run_code n call_type ctx g =
      write_message (lib.encode_call (call_data_of call_type ctx)) (serve_state_and_get_result n g)
