-- ===== src/Execution/Bincc/Served.antt =====
-- execution/bincc/: the requests of a chaincode that runs as a process, one after the other, and the
-- answers of the node.
use hs_blockchain.Prelude.{
  ℕ, zero, suc, ◌≡◌, refl, sym, ap, subst, ◌∙◌, none, [], Bytes, if◌then◌else◌, ltb, length, ◌+◌,
  ◌*◌, ◌<◌, arith,
}
use hs_blockchain.Execution.Tracker.{Value, Getter, get_state, set_state}
use hs_blockchain.Execution.Chaincode.{Program, done, get, put, Outcome, ok, err, run_program}
use hs_blockchain.Execution.Bincc.Processes.{
  Process, ended, write_message, read_message, Pair, Steps,
}
use hs_blockchain.Execution.Bincc.Messages.{
  up_stream_get_state, up_stream_set_state, UpStream, Library, IsJson,
}
use hs_blockchain.Execution.Bincc.Programs.{
  request_of, request, value_of_down, response_of, result_of, send_result, run_calls, value_or_nil,
  Answer, answered, failed, code_error, Runner, answer_of, served, serve_state, on_message,
  on_upstream, serve_state_and_get_result,
}
use hs_blockchain.Execution.Bincc.Orders.{Steps-trans}
use hs_blockchain.Execution.Bincc.Exchange.{pair, IsShort, to_the_right, exchange}

-- How many requests a call makes.
unfoldable pub calls : {R : Type 0} → Program R → Getter → ℕ
calls (done r) g = 0
calls (get key more) g = suc (calls (more (get_state key g).0) (get_state key g).1)
calls (put key value more) g = suc (calls more (set_state key value g))

module _ (lib : Library) (text : Bytes → Bytes) where
  -- The answer for what a chaincode returns: an error goes through the encoder and through Errorf, and an
  -- error without a text is none.
  unfoldable pub expected : Outcome Value → Answer
  expected (ok v) = answered v
  expected (err e) =
      if ltb 0 (length (text e)) then failed (code_error (lib.errorf (text e))) else answered none

  -- Every message of a call is short.
  unfoldable pub IsFitting : {R : Type 0} → (R → Outcome Value) → Program R → Getter → Type 0
  IsFitting to (done r) g = IsShort (lib.encode_up (result_of (to r)))
  IsFitting to (get key more) g =
      IsShort (lib.encode_up (request_of key none up_stream_get_state))
      × IsShort (lib.encode_down (record { value = (get_state key g).0; error = [] }))
      × IsFitting to (more (get_state key g).0) (get_state key g).1
  IsFitting to (put key value more) g =
      IsShort (lib.encode_up (request_of key value up_stream_set_state))
      × IsShort (lib.encode_down (record { value = none; error = [] }))
      × IsFitting to more (set_state key value g)

  module _ (json : IsJson lib text) where
    response-down :
        (v : Value)
        → response_of lib (ok (lib.encode_down (record { value = v; error = [] }))) ≡ ok v
    unfolding response_of value_of_down
    response-down v =
        ap (value_of_down lib) (json.down_back (record { value = v; error = [] }))
        ∙ rw json.text_empty refl

    on_upstream-result :
        (rest : Getter → Runner) (g : Getter) (r : Outcome Value)
        → on_upstream lib rest g (ok (lib.encode_up (result_of r))) ≡ ended (expected r, g)
    unfolding on_upstream on_message result_of answer_of expected
    on_upstream-result rest g (ok v) =
        ap (on_message lib rest g) (json.up_back (result_of (ok v))) ∙ rw json.text_empty refl
    on_upstream-result rest g (err e) =
        ap (on_message lib rest g) (json.up_back (result_of (err e))) ∙ branches
      where
        branches :
            on_message lib rest g (ok (record (result_of (err e)) { error = text e }))
            ≡ ended (expected (err e), g)
        branches = ground arith

    on_upstream-get :
        (rest : Getter → Runner) (g : Getter) (key : Bytes)
        → on_upstream lib rest g (ok (lib.encode_up (request_of key none up_stream_get_state)))
          ≡ write_message
              (lib.encode_down (record { value = (get_state key g).0; error = [] }))
              (rest (get_state key g).1)
    unfolding on_upstream on_message request_of serve_state served
    on_upstream-get rest g key =
        ap (on_message lib rest g) (json.up_back (request_of key none up_stream_get_state))

    on_upstream-set :
        (rest : Getter → Runner) (g : Getter) (key : Bytes) (value : Value)
        → on_upstream lib rest g (ok (lib.encode_up (request_of key value up_stream_set_state)))
          ≡ write_message
              (lib.encode_down (record { value = none; error = [] }))
              (rest (set_state key value g))
    unfolding on_upstream on_message request_of serve_state served
    on_upstream-set rest g key value =
        ap (on_message lib rest g) (json.up_back (request_of key value up_stream_set_state))

    -- A request with its answer, and then the rest.
    after_exchange :
        (up : UpStream) (v : Value) (rest : Outcome Value → Process (Unit {0})) (g : Getter)
        (n c : ℕ) (g' : Getter) (z : Pair (Unit {0}) (Answer × Getter))
        → IsShort (lib.encode_up up)
        → IsShort (lib.encode_down (record { value = v; error = [] }))
        → on_upstream lib (serve_state_and_get_result lib n) g (ok (lib.encode_up up))
          ≡ write_message
              (lib.encode_down (record { value = v; error = [] }))
              (serve_state_and_get_result lib n g')
        → Steps (6 * c + 3) (pair (rest (ok v)) (serve_state_and_get_result lib n g')) z
        → Steps
            (6 * suc c + 3)
            (pair
              (write_message (lib.encode_up up) (read_message (λ o. rest (response_of lib o))))
              (serve_state_and_get_result lib (suc n) g))
            z
    unfolding serve_state_and_get_result
    after_exchange up v rest g n c g' z short_up short_down e more =
        let first =
          exchange (lib.encode_up up) (lib.encode_down (record { value = v; error = [] }))
            (λ o. rest (response_of lib o)) (on_upstream lib (serve_state_and_get_result lib n) g)
            (serve_state_and_get_result lib n g') short_up short_down e in
        let more' =
          subst (λ o. Steps (6 * c + 3) (pair (rest o) (serve_state_and_get_result lib n g')) z)
            (sym (response-down v)) more in
        subst
          (λ k.
            Steps k
              (pair
                (write_message (lib.encode_up up) (read_message (λ o. rest (response_of lib o))))
                (serve_state_and_get_result lib (suc n) g))
              z)
          six_more (Steps-trans 6 (6 * c + 3) _ _ z first more')
      where
        six_more : 6 + (6 * c + 3) ≡ 6 * suc c + 3
        six_more = omega arith

    module _ {R : Type 0} (to : R → Outcome Value) where
      unfoldable pub client : Program R → Process (Unit {0})
      client = run_calls lib (λ r. send_result lib (to r))

      pub run_calls-served :
          (p : Program R) (g : Getter) (n : ℕ)
          → IsFitting to p g
          → calls p g < n
          → Steps
              (6 * calls p g + 3)
              (pair (client p) (serve_state_and_get_result lib n g))
              (pair (ended tt) (ended (expected (to (run_program p g).0), (run_program p g).1)))
      unfolding client calls IsFitting run_calls request send_result run_program
          serve_state_and_get_result
      run_calls-served p g zero fit few = absurd (omega arith)
      run_calls-served (done r) g (suc n) fit few =
          let serve = serve_state_and_get_result lib n in
          subst
            (λ x.
              Steps 3 (pair (send_result lib (to r)) (read_message (on_upstream lib serve g)))
                (pair (ended tt) x))
            (on_upstream-result serve g (to r))
            (to_the_right (lib.encode_up (result_of (to r))) (ended tt) (on_upstream lib serve g)
              fit)
      run_calls-served (get key more) g (suc n) fit few =
          let (v, g') = get_state key g in
          after_exchange (request_of key none up_stream_get_state) v
            (λ o. client (more (value_or_nil o))) g n (calls (more v) g') g' _ fit.0 fit.1
            (on_upstream-get (serve_state_and_get_result lib n) g key)
            (run_calls-served (more v) g' n fit.2 (omega (arith, few)))
      run_calls-served (put key value more) g (suc n) fit few =
          let g' = set_state key value g in
          after_exchange (request_of key value up_stream_set_state) none (λ o. client more) g n
            (calls more g') g' _ fit.0 fit.1
            (on_upstream-set (serve_state_and_get_result lib n) g key value)
            (run_calls-served more g' n fit.2 (omega (arith, few)))
