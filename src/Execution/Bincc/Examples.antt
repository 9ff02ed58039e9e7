-- ===== src/Execution/Bincc/Examples.antt =====
-- A counter that runs as a process, with an encoder that puts the length before each byte string.
use hs_blockchain.Prelude.{
  lookup, ℕ, zero, suc, ◌≡◌, refl, ap, ap₂, ◌∙◌, false, none, some, [], ◌∷◌, ◌++◌, Bytes, length,
  take, drop, ◌+◌, ◌*◌, arith, take-append, take-length, drop-append, drop-length,
}
use hs_blockchain.Execution.Tracker.{
  Value, Getter, base, track, new_state_tracker, get_state, set_state,
}
use hs_blockchain.Execution.Chaincode.{ok, err, CallContext}
use hs_blockchain.Execution.Bincc.Processes.{
  Pair, step, Steps, write_message, advance, has_ended, after_right,
}
use hs_blockchain.Execution.Bincc.Messages.{
  CallType, init, invoke, query, CallData, UpStream, DownStream, Library, IsJson,
}
use hs_blockchain.Execution.Bincc.Programs.{
  run_code, run_chaincode_async, serve_state_and_get_result, call_data_of, request_of, result_of,
  Answer,
}
use hs_blockchain.Execution.Bincc.Exchange.{frame}
use hs_blockchain.Execution.Bincc.Native.{native_calls, IsShortCall, start, finish, run_code-native}
use hs_blockchain.Execution.Toys.{counter}

abbrev pack : Bytes → Bytes → Bytes
pack b rest = length b ∷ (b ++ rest)

abbrev pack_value : Value → Bytes → Bytes
pack_value none rest = 0 ∷ rest
pack_value (some b) rest = suc (length b) ∷ (b ++ rest)

-- The byte string at the front, and what is behind it.
abbrev unpack : Bytes → Bytes × Bytes
unpack [] = ([], [])
unpack (n ∷ rest) = (take n rest, drop n rest)

abbrev unpack_value : Bytes → Value × Bytes
unpack_value [] = (none, [])
unpack_value (zero ∷ rest) = (none, rest)
unpack_value (suc n ∷ rest) = (some (take n rest), drop n rest)

unpack-pack : (b rest : Bytes) → unpack (pack b rest) ≡ (b, rest)
unpack-pack b rest =
    ap₂ (λ x y. (x, y)) (take-append (length b) b rest (omega arith) ∙ take-length b)
      (drop-append (length b) b rest (omega arith) ∙ ap (λ x. x ++ rest) (drop-length b))

unpack_value-pack_value : (v : Value) (rest : Bytes) → unpack_value (pack_value v rest) ≡ (v, rest)
unpack_value-pack_value none rest = refl
unpack_value-pack_value (some b) rest = ap (λ p. (some p.0, p.1)) (unpack-pack b rest)

abbrev type_number : CallType → ℕ
type_number init = 0
type_number invoke = 1
type_number query = 2

abbrev type_of : ℕ → CallType
type_of zero = init
type_of (suc zero) = invoke
type_of (suc (suc n)) = query

type_of-type_number : (t : CallType) → type_of (type_number t) ≡ t
type_of-type_number init = refl
type_of-type_number invoke = refl
type_of-type_number query = refl

abbrev call_from : CallType → ℕ → Bytes × Bytes → CallData
call_from t h (input, rest) =
    let (block_hash, rest') = unpack rest in
    record {
      input = input;
      sender = (unpack_value rest').0;
      block_hash = block_hash;
      block_height = h;
      call_type = t;
    }

abbrev up_from : ℕ → Bytes × Bytes → UpStream
up_from t (key, rest) =
    let (value, error) = unpack_value rest in
    record { key = key; value = value; error = error; up_type = t }

abbrev packed : Library
packed = record {
  encode_call = λ d.
      type_number d.call_type
      ∷ d.block_height
      ∷ pack d.input (pack d.block_hash (pack_value d.sender []));
  decode_call =
      λ b. elim b [ t ∷ h ∷ rest ↦ ok (call_from (type_of t) h (unpack rest)) | _ ↦ err [] ];
  encode_up = λ u. u.up_type ∷ pack u.key (pack_value u.value u.error);
  decode_up = λ b. elim b [ t ∷ rest ↦ ok (up_from t (unpack rest)) | [] ↦ err [] ];
  encode_down = λ d. pack_value d.value d.error;
  decode_down =
      λ b. (let (value, error) = unpack_value b in ok (record { value = value; error = error }));
  errorf = λ b. b;
}

packed-call : (d : CallData) → packed.decode_call (packed.encode_call d) ≡ ok d
packed-call d =
    ap₂ (λ t p. ok (call_from t d.block_height p)) (type_of-type_number d.call_type)
      (unpack-pack d.input (pack d.block_hash (pack_value d.sender [])))
    ∙ (ap (λ (p : Bytes × Bytes). ok (record d { block_hash = p.0; sender = (unpack_value p.1).0 }))
          (unpack-pack d.block_hash (pack_value d.sender []))
        ∙ ap (λ (p : Value × Bytes). ok (record d { sender = p.0 }))
            (unpack_value-pack_value d.sender []))

packed-up : (u : UpStream) → packed.decode_up (packed.encode_up u) ≡ ok u
packed-up u =
    ap (λ p. ok (up_from u.up_type p)) (unpack-pack u.key (pack_value u.value u.error))
    ∙ ap (λ (p : Value × Bytes). ok (record u { value = p.0; error = p.1 }))
        (unpack_value-pack_value u.value u.error)

packed-down : (d : DownStream) → packed.decode_down (packed.encode_down d) ≡ ok d
packed-down d =
    ap (λ (p : Value × Bytes). ok (record { value = p.0; error = p.1 }))
      (unpack_value-pack_value d.value d.error)

packed-IsJson : IsJson packed (λ b. b)
packed-IsJson = record {
  text_empty = refl;
  call_back = packed-call;
  up_back = packed-up;
  down_back = packed-down;
}

abbrev context : CallContext
context = record { sender = none; block_hash = 7 ∷ []; block_height = 3; input = 5 ∷ 6 ∷ [] }

abbrev state : Getter
state = track (new_state_tracker []) (base (λ n k. some (4 ∷ [])) 0)

-- The node has written the call data, and the client has not read it yet.
abbrev first_state : Pair (Unit {0}) (Answer × Getter)
first_state = record {
  left = run_chaincode_async packed counter;
  right = serve_state_and_get_result packed 5 state;
  to_left = frame (packed.encode_call (call_data_of invoke context));
  to_right = [];
}

first_step : Steps 1 (start packed (λ b. b) counter 5 context state invoke) first_state
unfolding step run_code write_message advance frame has_ended after_right
first_step = (false, first_state, refl, refl)

counter-IsShort : IsShortCall packed (λ b. b) counter 5 context state invoke
unfolding IsShortCall request_of result_of get_state set_state lookup new_state_tracker
counter-IsShort = (omega arith, omega arith, (omega arith, omega arith, omega arith))

run_code-native_example :
    (k : ℕ) × (1 + k ≡ 6 * native_calls counter invoke context state + 6)
    × Steps k first_state (finish packed (λ b. b) counter 5 context state invoke)
unfolding native_calls call_data_of
run_code-native_example =
    run_code-native packed (λ b. b) counter 5 context state invoke packed-IsJson (omega arith)
      counter-IsShort (omega arith) 1 first_state first_step
