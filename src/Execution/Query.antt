-- ===== src/Execution/Query.antt =====
-- Query of execution/execution.go, with the verified states of state_verifier.go and the context of
-- call_context.go.
use hs_blockchain.Prelude.{◌≡◌, refl, subst, Option, none, some, [], ◌++◌, Bytes, ◌⊎◌, inl, inr}
use hs_blockchain.Execution.Tracker.{Value}
use hs_blockchain.Execution.Chaincode.{
  Program, done, get, put, Outcome, ok, err, CallContext, Chaincode,
}
use hs_blockchain.Execution.TxExecuter.{Registry, code_registry_addr, driver_instance}

-- What VerifyState of the state store gives: a value, or `none` for a panic.
abbrev pub Verifier : Type 0
Verifier = Bytes → Option Value

-- stateVerifier.GetState
unfoldable pub get_verified : Verifier → Bytes → Verifier
get_verified store prefix key = store (prefix ++ key)

-- A call over verified states; SetState of callContextQuery does nothing.
unfoldable pub run_query : {R : Type 0} → Program R → Verifier → Option R
run_query (done r) read = some r
run_query (get key rest) read = elim (read key) [
  | none ↦ none
  | some value ↦ run_query (rest value) read
]
run_query (put key value rest) read = run_query rest read

-- callContextQuery
unfoldable pub query_context : Bytes → CallContext
query_context input = record { sender = none; block_hash = []; block_height = 0; input = input }

module _ (reg : Registry) where
  -- getInstance over verified states.
  unfoldable pub query_instance : Bytes → Verifier → Option (Outcome Chaincode)
  unfolding driver_instance
  query_instance code_addr read = elim (read code_addr) [
    | none ↦ none
    | some value ↦
        some
          (elim (reg.decode_code_info value) [ err e ↦ err e | ok info ↦ driver_instance reg info ])
  ]

  -- Query without the recovery; `none` is a panic.
  unfoldable pub query_panics : Verifier → Bytes → Bytes → Option (Outcome Value)
  unfolding query_instance get_verified run_query query_context
  query_panics store code_addr input =
      elim (query_instance code_addr (get_verified store code_registry_addr)) [
        | none ↦ none
        | some instance_of ↦ elim instance_of [
          | err e ↦ some (err e)
          | ok cc ↦ run_query (cc.query (query_context input)) (get_verified store code_addr)
        ]
      ]

  -- Query: a panic is recovered as an error, of the text that Errorf gives.
  unfoldable pub query : Bytes → Verifier → Bytes → Bytes → Outcome Value
  unfolding query_panics
  query panic_text store code_addr input = elim (query_panics store code_addr input) [
    | none ↦ err panic_text
    | some answer ↦ answer
  ]

-- The states of the verifier are those of the store, where it does not panic.
abbrev pub Verifies : Verifier → (Bytes → Value) → Type 0
Verifies read store = (key : Bytes) (value : Value) → read key ≡ some value → value ≡ store key

abbrev pub stored : (Bytes → Value) → Verifier
stored store key = some (store key)

-- A panic, at a key that does not verify, or what the stored states give.
abbrev OrPanics : {A : Type 0} → Verifier → Option A → Option A → Type 0
OrPanics read a b = ((a ≡ none) × ((key : Bytes) × (read key ≡ none))) ⊎ (a ≡ b)

-- A read goes on with the stored state, or panics.
read-OrPanics :
    {A : Type 0} (read : Verifier) (store : Bytes → Value) (key : Bytes)
    (rest rest' : Value → Option A)
    → Verifies read store
    → ((value : Value) → OrPanics read (rest value) (rest' value))
    → OrPanics read (elim (read key) [ none ↦ none | some value ↦ rest value ]) (rest' (store key))
read-OrPanics {A = A} read store key rest rest' v h = go (read key) refl
  where
    go :
        (m : Option Value)
        → read key ≡ m
        → OrPanics {A = A} read
            (elim m [ none ↦ none | some value ↦ rest value ])
            (rest' (store key))
    go none e = inl (refl, (key, e))
    go (some value) e = subst (λ x. OrPanics read (rest value) (rest' x)) (v key value e) (h value)

run_query-Verifies :
    {R : Type 0} (p : Program R) (read : Verifier) (store : Bytes → Value)
    → Verifies read store
    → OrPanics read (run_query p read) (run_query p (stored store))
unfolding run_query
run_query-Verifies (done r) read store v = inr refl
run_query-Verifies (put key value rest) read store v = run_query-Verifies rest read store v
run_query-Verifies (get key rest) read store v =
    read-OrPanics read store key (λ value. run_query (rest value) read)
      (λ value. run_query (rest value) (stored store)) v
      (λ value. run_query-Verifies (rest value) read store v)

module _ (reg : Registry) (panic_text : Bytes) (read : Verifier) (store : Bytes → Value)
    (v : Verifies read store) (code_addr input : Bytes) where
  -- Query of an instance.
  instance-OrPanics :
      (o : Outcome Chaincode)
      → OrPanics read
          (elim o [
            | err e ↦ some (err e)
            | ok cc ↦ run_query (cc.query (query_context input)) (get_verified read code_addr)
          ])
          (elim o [
            | err e ↦ some (err e)
            | ok cc ↦
                run_query (cc.query (query_context input)) (get_verified (stored store) code_addr)
          ])
  unfolding get_verified
  instance-OrPanics (err e) = inr refl
  instance-OrPanics (ok cc) =
      elim (run_query-Verifies (cc.query (query_context input)) (get_verified read code_addr)
        (λ key. store (code_addr ++ key)) (λ key value e. v (code_addr ++ key) value e)) [
          | inl (e, (key, n)) ↦ inl (e, (code_addr ++ key, n))
          | inr e ↦ inr e
        ]

  -- The instance that the stored states name.
  abbrev stored_instance : Outcome Chaincode
  stored_instance = elim (reg.decode_code_info (store (code_registry_addr ++ code_addr))) [
    | err e ↦ err e
    | ok info ↦ driver_instance reg info
  ]

  query_instance-OrPanics :
      OrPanics read
        (query_instance reg code_addr (get_verified read code_registry_addr))
        (some stored_instance)
  unfolding query_instance get_verified
  query_instance-OrPanics =
      read-OrPanics read store (code_registry_addr ++ code_addr) _
        (λ value. some (elim (reg.decode_code_info value) [
          | err e ↦ err e
          | ok info ↦ driver_instance reg info
        ]))
        v (λ value. inr refl)

  query_panics-OrPanics :
      OrPanics read
        (query_panics reg read code_addr input)
        (query_panics reg (stored store) code_addr input)
  unfolding query_panics query_instance get_verified
  query_panics-OrPanics = elim query_instance-OrPanics [
    | inl (e, w) ↦ inl (rw (query_panics, e) refl, w)
    | inr e ↦ rw (query_panics, e) (instance-OrPanics stored_instance)
  ]

  -- A query over verified states is the error of a panic, at a key that does not verify, or what it is over the stored states.
  pub query-Verifies :
      ((query reg panic_text read code_addr input ≡ err panic_text)
        × ((key : Bytes) × (read key ≡ none)))
      ⊎ (query reg panic_text read code_addr input
          ≡ query reg panic_text (stored store) code_addr input)
  unfolding query
  query-Verifies = elim query_panics-OrPanics [
    | inl (e, w) ↦ inl (rw (query, e) refl, w)
    | inr e ↦ inr (rw (query, e) refl)
  ]
