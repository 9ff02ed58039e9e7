-- ===== src/Execution/Steps.antt =====
-- execution/tx_executer.go: two executions of a transaction over states that agree on what the block
-- has not changed.
use hs_blockchain.Prelude.{
  refl, subst, ap, Bool-cases, Option, none, some, Bytes, length, ◌==◌, inl, inr, Option-cases, Map,
}
use hs_blockchain.Execution.Tracker.{Value, Tracker, Getter, spawn, set_dependency, write}
use hs_blockchain.Execution.Chaincode.{Program, Chaincode, run_program}
use hs_blockchain.Execution.TxExecuter.{
  TxInput, Registry, Outcome, ok, err, Outcome-cases, DeploymentInput, leave, top_tracker,
  merge_into, deploy, driver_instance, get_instance, finish_invoke, call_instance, execute_invoke,
  finish_deployment, init_deployment, execute_deployment, execute_chaincode, make_call_context,
  code_registry_addr,
}
use hs_blockchain.Execution.Bottom.{
  At, At-leave, At-spawn, At-set_state, At-run_program, At-merge_into,
}
use hs_blockchain.Execution.Agreement.{
  Notes, Hits, Agree, Same, Same-get, Same-run_program, Same-then, Agree-leave, Agree-merge_into,
  top_tracker-Agree, Agree-spawn, Agree-set_state, Notes-set_dependency, Notes-write,
  Hits-set_dependency, Hits-write,
}

-- What the tracker right above the base keeps through reads and writes, it keeps through a
-- transaction.
module _ (reg : Registry) (tx : TxInput) (P : Tracker → Type 0)
    (noted : (key : Bytes) (t : Tracker) → P t → P (set_dependency key t))
    (written : (key : Bytes) (value : Value) (t : Tracker) → P t → P (write key value t)) where
  pub At-finish_invoke : (r : Option Bytes × Getter) → At P r.1 → At P (finish_invoke reg tx r).1
  unfolding finish_invoke
  At-finish_invoke (some e, g) a = At-leave P g a
  At-finish_invoke (none, g) a =
      At-merge_into P noted written (top_tracker g) (leave g) (At-leave P g a)

  pub At-call_instance :
      (r : Outcome Chaincode × Getter) → At P r.1 → At P (call_instance reg tx r).1
  unfolding call_instance
  At-call_instance (err e, g) a = At-leave P g a
  At-call_instance (ok cc, g) a =
      let program = cc.invoke (make_call_context tx tx.input) in
      let start = spawn tx.code_addr (leave g) in
      At-finish_invoke (run_program program start) (
        At-run_program P noted written program start
          (At-spawn P tx.code_addr (leave g) (At-leave P g a)))

  pub At-finish_deployment :
      (t : Tracker) (r : Option Bytes × Getter) → At P r.1 → At P (finish_deployment reg tx t r).1
  unfolding finish_deployment
  At-finish_deployment t (some e, g) a = At-leave P g a
  At-finish_deployment t (none, g) a =
      At-merge_into P noted written (top_tracker g) (merge_into t (leave g))
        (At-merge_into P noted written t (leave g) (At-leave P g a))

module _ (changes : Map Value) (reg : Registry) (tx : TxInput) where
  Same-get_instance :
      (code_addr : Bytes) (g h : Getter)
      → Agree changes g h
      → At Notes g
      → Same changes (get_instance reg code_addr g) (get_instance reg code_addr h)
  unfolding get_instance
  Same-get_instance code_addr g h a n = elim (Same-get changes code_addr g h a n) [
    | inl hits ↦ inl hits
    | inr (e, a', n') ↦ inr (
      ap (λ v. elim (reg.decode_code_info v) [ err e ↦ err e | ok info ↦ driver_instance reg info ])
          e,
      a',
      n',
    )
  ]

  Same-finish_invoke :
      (e : Option Bytes) (g h : Getter)
      → Agree changes g h
      → At Notes g
      → Same changes (finish_invoke reg tx (e, g)) (finish_invoke reg tx (e, h))
  unfolding finish_invoke
  Same-finish_invoke (some e) g h a n = inr (refl, Agree-leave changes g h a, At-leave Notes g n)
  Same-finish_invoke none g h a n = inr (
    refl,
    Agree-merge_into changes (top_tracker g) (top_tracker h) (leave g) (leave h)
        (top_tracker-Agree changes g h a) (Agree-leave changes g h a),
    At-merge_into Notes Notes-set_dependency Notes-write (top_tracker g) (leave g)
        (At-leave Notes g n),
  )

  -- A chaincode called after the tracker on top is dropped.
  Same-start :
      (p : Program (Option Bytes)) (prefix : Bytes) (g h : Getter)
      → Agree changes g h
      → At Notes g
      → Same changes
          (run_program p (spawn prefix (leave g)))
          (run_program p (spawn prefix (leave h)))
  Same-start p prefix g h a n =
      Same-run_program changes p (spawn prefix (leave g)) (spawn prefix (leave h))
        (Agree-spawn changes prefix (leave g) (leave h) (Agree-leave changes g h a))
        (At-spawn Notes prefix (leave g) (At-leave Notes g n))

  Same-call_instance :
      (i : Outcome Chaincode) (g h : Getter)
      → Agree changes g h
      → At Notes g
      → Same changes (call_instance reg tx (i, g)) (call_instance reg tx (i, h))
  unfolding call_instance
  Same-call_instance (err e) g h a n = inr (refl, Agree-leave changes g h a, At-leave Notes g n)
  Same-call_instance (ok cc) g h a n =
      let p = cc.invoke (make_call_context tx tx.input) in
      Same-then changes (finish_invoke reg tx)
        (At-finish_invoke reg tx (Hits changes) (Hits-set_dependency changes) (Hits-write changes))
        Same-finish_invoke (run_program p (spawn tx.code_addr (leave g)))
        (run_program p (spawn tx.code_addr (leave h))) (Same-start p tx.code_addr g h a n)

  Same-execute_invoke :
      (g h : Getter)
      → Agree changes g h
      → At Notes g
      → Same changes (execute_invoke reg tx g) (execute_invoke reg tx h)
  unfolding execute_invoke
  Same-execute_invoke g h a n =
      Same-then changes (call_instance reg tx)
        (At-call_instance reg tx (Hits changes) (Hits-set_dependency changes) (Hits-write changes))
        Same-call_instance (get_instance reg tx.code_addr (spawn code_registry_addr g))
        (get_instance reg tx.code_addr (spawn code_registry_addr h))
        (Same-get_instance tx.code_addr (spawn code_registry_addr g) (spawn code_registry_addr h)
          (Agree-spawn changes code_registry_addr g h a) (At-spawn Notes code_registry_addr g n))

  Same-finish_deployment :
      (t : Tracker) (e : Option Bytes) (g h : Getter)
      → Agree changes g h
      → At Notes g
      → Same changes (finish_deployment reg tx t (e, g)) (finish_deployment reg tx t (e, h))
  unfolding finish_deployment
  Same-finish_deployment t (some e) g h a n =
      inr (refl, Agree-leave changes g h a, At-leave Notes g n)
  Same-finish_deployment t none g h a n = inr (
    refl,
    Agree-merge_into changes (top_tracker g) (top_tracker h) (merge_into t (leave g))
        (merge_into t (leave h)) (top_tracker-Agree changes g h a)
        (Agree-merge_into changes t t (leave g) (leave h) refl (Agree-leave changes g h a)),
    At-merge_into Notes Notes-set_dependency Notes-write (top_tracker g) (merge_into t (leave g))
        (At-merge_into Notes Notes-set_dependency Notes-write t (leave g) (At-leave Notes g n)),
  )

  Same-init_deployment :
      (input : DeploymentInput) (i : Outcome Chaincode) (g h : Getter)
      → Agree changes g h
      → At Notes g
      → Same changes (init_deployment reg tx input (i, g)) (init_deployment reg tx input (i, h))
  unfolding init_deployment
  Same-init_deployment input (err e) g h a n =
      inr (refl, Agree-leave changes g h a, At-leave Notes g n)
  Same-init_deployment input (ok cc) g h a n =
      let p = cc.init (make_call_context tx input.init_input) in
      subst
        (λ t.
          Same changes
            (finish_deployment reg tx (top_tracker g) (run_program p (spawn tx.hash (leave g))))
            (finish_deployment reg tx t (run_program p (spawn tx.hash (leave h)))))
        (top_tracker-Agree changes g h a)
        (Same-then changes (finish_deployment reg tx (top_tracker g))
          (At-finish_deployment reg tx (Hits changes) (Hits-set_dependency changes)
            (Hits-write changes) (top_tracker g))
          (Same-finish_deployment (top_tracker g)) (run_program p (spawn tx.hash (leave g)))
          (run_program p (spawn tx.hash (leave h))) (Same-start p tx.hash g h a n))

  Same-deploy :
      (input : DeploymentInput) (g h : Getter)
      → Agree changes g h
      → At Notes g
      → Same changes (deploy reg tx.hash input g) (deploy reg tx.hash input h)
  unfolding deploy
  Same-deploy input g h a n = elim (Option-cases (reg.drivers input.code_info.driver_type)) [
    | inl e ↦ rw (e, deploy) (inr (refl, a, n))
    | inr (instance_of, e) ↦
        let info = some (reg.encode_code_info input.code_info) in
        rw (e, deploy)
          (inr (
            refl,
            Agree-set_state changes tx.hash info g h a,
            At-set_state Notes Notes-set_dependency Notes-write tx.hash info g n,
          ))
  ]

  At-init_deployment :
      (input : DeploymentInput) (r : Outcome Chaincode × Getter)
      → At (Hits changes) r.1
      → At (Hits changes) (init_deployment reg tx input r).1
  unfolding init_deployment
  At-init_deployment input (err e, g) a = At-leave (Hits changes) g a
  At-init_deployment input (ok cc, g) a =
      let p = cc.init (make_call_context tx input.init_input) in
      At-finish_deployment reg tx (Hits changes) (Hits-set_dependency changes) (Hits-write changes)
        (top_tracker g) (run_program p (spawn tx.hash (leave g)))
        (At-run_program (Hits changes) (Hits-set_dependency changes) (Hits-write changes) p
          (spawn tx.hash (leave g))
          (At-spawn (Hits changes) tx.hash (leave g) (At-leave (Hits changes) g a)))

  Same-execute_deployment :
      (g h : Getter)
      → Agree changes g h
      → At Notes g
      → Same changes (execute_deployment reg tx g) (execute_deployment reg tx h)
  unfolding execute_deployment
  Same-execute_deployment g h a n = elim (Outcome-cases (reg.decode_deployment tx.input)) [
    | inl (e, q) ↦ rw (q, execute_deployment) (inr (refl, a, n))
    | inr (input, q) ↦
        rw (q, execute_deployment)
          (Same-then changes (init_deployment reg tx input) (At-init_deployment input)
            (Same-init_deployment input) (deploy reg tx.hash input (spawn code_registry_addr g))
            (deploy reg tx.hash input (spawn code_registry_addr h))
            (Same-deploy input (spawn code_registry_addr g) (spawn code_registry_addr h)
              (Agree-spawn changes code_registry_addr g h a)
              (At-spawn Notes code_registry_addr g n)))
  ]

  pub Same-execute_chaincode :
      (g h : Getter)
      → Agree changes g h
      → At Notes g
      → Same changes (execute_chaincode reg tx g) (execute_chaincode reg tx h)
  unfolding execute_chaincode
  Same-execute_chaincode g h a n = elim (Bool-cases (length tx.code_addr == 0)) [
    | inl e ↦ rw (e, execute_chaincode) (Same-execute_deployment g h a n)
    | inr e ↦ rw (e, execute_chaincode) (Same-execute_invoke g h a n)
  ]
