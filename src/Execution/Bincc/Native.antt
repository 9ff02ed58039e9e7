-- ===== src/Execution/Bincc/Native.antt =====
-- execution/bincc/ against the chaincode called directly: the answer, the state that is left, and the
-- number of steps.
use hs_blockchain.Prelude.{ℕ, ◌≡◌, refl, sym, subst, true, false, Bytes, ◌+◌, ◌*◌, ◌<◌, arith}
use hs_blockchain.Execution.Tracker.{Value, Getter}
use hs_blockchain.Execution.Chaincode.{Outcome, CallContext, Chaincode, run_program}
use hs_blockchain.Execution.Bincc.Processes.{ended, advance, Pair, step, Steps}
use hs_blockchain.Execution.Bincc.Messages.{CallType, init, invoke, query, Library, IsJson}
use hs_blockchain.Execution.Bincc.Programs.{
  only_error, client_context, run_chaincode, run_call_data, start_client, run_chaincode_async,
  Answer, call_data_of, serve_state_and_get_result, run_code,
}
use hs_blockchain.Execution.Bincc.Orders.{IsStuck, any_order, Steps-trans}
use hs_blockchain.Execution.Bincc.Exchange.{pair, IsShort, to_the_left}
use hs_blockchain.Execution.Bincc.Served.{calls, expected, IsFitting, client, run_calls-served}

module _ (cc : Chaincode) where
  -- The chaincode called directly, over the state of the context.
  unfoldable pub native : CallType → CallContext → Getter → Outcome Value × Getter
  native init ctx g = let (e, g') = run_program (cc.init ctx) g in (only_error e, g')
  native invoke ctx g = let (e, g') = run_program (cc.invoke ctx) g in (only_error e, g')
  native query ctx g = run_program (cc.query ctx) g

  -- How many requests it makes.
  unfoldable pub native_calls : CallType → CallContext → Getter → ℕ
  unfolding calls
  native_calls init ctx g = calls (cc.init ctx) g
  native_calls invoke ctx g = calls (cc.invoke ctx) g
  native_calls query ctx g = calls (cc.query ctx) g

module _ (lib : Library) (text : Bytes → Bytes) (cc : Chaincode) (n : ℕ) (ctx : CallContext)
    (g : Getter) where
  -- Every message between the processes is short.
  unfoldable pub IsShortCall : CallType → Type 0
  unfolding IsFitting
  IsShortCall init = IsFitting lib text only_error (cc.init ctx) g
  IsShortCall invoke = IsFitting lib text only_error (cc.invoke ctx) g
  IsShortCall query = IsFitting lib text (λ r. r) (cc.query ctx) g

  -- Both sides at the start, and at the end.
  abbrev pub start : CallType → Pair (Unit {0}) (Answer × Getter)
  start call_type = pair (run_chaincode_async lib cc) (run_code lib n call_type ctx g)

  abbrev pub finish : CallType → Pair (Unit {0}) (Answer × Getter)
  finish call_type =
      let (r, g') = native cc call_type ctx g in pair (ended tt) (ended (expected lib text r, g'))

  finish-IsStuck : (call_type : CallType) → IsStuck (finish call_type)
  unfolding step advance
  finish-IsStuck call_type true = refl
  finish-IsStuck call_type false = refl

  module _ (json : IsJson lib text) where
    run_chaincode-served :
        (call_type : CallType)
        → IsShortCall call_type
        → native_calls cc call_type ctx g < n
        → Steps
            (6 * native_calls cc call_type ctx g + 3)
            (pair
              (run_chaincode lib cc (call_data_of call_type ctx) call_type)
              (serve_state_and_get_result lib n g))
            (finish call_type)
    unfolding run_chaincode client_context call_data_of native native_calls IsShortCall client
    run_chaincode-served init fit few =
        run_calls-served lib text json only_error (cc.init ctx) g n fit few
    run_chaincode-served invoke fit few =
        run_calls-served lib text json only_error (cc.invoke ctx) g n fit few
    run_chaincode-served query fit few =
        run_calls-served lib text json (λ r. r) (cc.query ctx) g n fit few

    one_order :
        (call_type : CallType)
        → IsShort (lib.encode_call (call_data_of call_type ctx))
        → IsShortCall call_type
        → native_calls cc call_type ctx g < n
        → Steps (6 * native_calls cc call_type ctx g + 6) (start call_type) (finish call_type)
    unfolding run_chaincode_async run_code start_client run_call_data
    one_order call_type short fit few =
        let d = call_data_of call_type ctx in
        let serve = serve_state_and_get_result lib n g in
        let first = to_the_left (lib.encode_call d) (start_client lib cc) serve short in
        let second =
          subst
            (λ o.
              Steps (6 * native_calls cc call_type ctx g + 3) (pair (run_call_data lib cc o) serve)
                (finish call_type))
            (sym (json.call_back d)) (run_chaincode-served call_type fit few) in
        subst (λ k. Steps k (start call_type) (finish call_type)) three_more
          (Steps-trans 3 (6 * native_calls cc call_type ctx g + 3) (start call_type)
            (pair (run_call_data lib cc (lib.decode_call (lib.encode_call d))) serve)
            (finish call_type) first second)
      where
        three_more :
            3 + (6 * native_calls cc call_type ctx g + 3) ≡ 6 * native_calls cc call_type ctx g + 6
        three_more = omega arith

-- A chaincode that the node runs as a process, and that the node serves in time, with short messages: in
-- whatever order the two processes take their steps, the run can go on to the state in which the client
-- is over and the node has the answer and the state that the chaincode gives when it is called
-- directly, and the steps taken and those left are six for each request and six more. An error comes
-- back as the text that the encoder and Errorf make of it, and an error without a text as a nil value.
pub run_code-native :
    (lib : Library) (text : Bytes → Bytes) (cc : Chaincode) (n : ℕ) (ctx : CallContext) (g : Getter)
    (call_type : CallType)
    → IsJson lib text
    → IsShort (lib.encode_call (call_data_of call_type ctx))
    → IsShortCall lib text cc n ctx g call_type
    → native_calls cc call_type ctx g < n
    → (m : ℕ) (t : Pair (Unit {0}) (Answer × Getter))
    → Steps m (start lib text cc n ctx g call_type) t
    → (k : ℕ) × (m + k ≡ 6 * native_calls cc call_type ctx g + 6)
      × Steps k t (finish lib text cc n ctx g call_type)
run_code-native lib text cc n ctx g call_type json short fit few m t steps =
    any_order m (6 * native_calls cc call_type ctx g + 6) (start lib text cc n ctx g call_type) t
      (finish lib text cc n ctx g call_type) (finish-IsStuck lib text cc n ctx g call_type)
      (one_order lib text cc n ctx g json call_type short fit few) steps
