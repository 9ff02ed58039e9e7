-- ===== src/Execution/Depth.antt =====
-- execution/tx_executer.go: after a transaction its own tracker is left, right above the base.
use hs_blockchain.Prelude.{
  ℕ, suc, ◌≡◌, ◌∙◌, refl, ap, Bool-cases, Option-cases, arith, Option, none, some, Bytes, length,
  ◌==◌, inl, inr, ◌++◌, lookup,
}
use hs_blockchain.Execution.Tracker.{
  Value, Tracker, Getter, base, track, spawn, get_state, set_state,
}
use hs_blockchain.Execution.Chaincode.{Program, done, get, put, Chaincode, run_program}
use hs_blockchain.Execution.TxExecuter.{
  TxInput, Registry, Outcome, ok, err, Outcome-cases, DeploymentInput, leave, top_tracker,
  merge_into, deploy, get_instance, finish_invoke, call_instance, execute_invoke, finish_deployment,
  init_deployment, execute_deployment, execute_chaincode, make_call_context, code_registry_addr,
}
use hs_blockchain.Execution.Bottom.{bottom}

-- How many trackers there are above the base.
unfoldable pub depth : Getter → ℕ
depth (base view n) = 0
depth (track t g) = suc (depth g)

depth-get_state : (key : Bytes) (g : Getter) → depth (get_state key g).1 ≡ depth g
unfolding get_state depth
depth-get_state key (base view n) = refl
depth-get_state key (track t g) = elim (Option-cases (lookup (t.key_prefix ++ key) t.changes)) [
  | inl e ↦ rw (e, get_state) (ap suc (depth-get_state (t.key_prefix ++ key) g))
  | inr (value, e) ↦ rw (e, get_state) refl
]

depth-set_state :
    (key : Bytes) (value : Value) (g : Getter) → depth (set_state key value g) ≡ depth g
unfolding set_state depth
depth-set_state key value (base view n) = refl
depth-set_state key value (track t g) = refl

depth-merge_into : (t : Tracker) (g : Getter) → depth (merge_into t g) ≡ depth g
unfolding merge_into depth
depth-merge_into t (base view n) = refl
depth-merge_into t (track u g) = refl

depth-run_program : (p : Program (Option Bytes)) (g : Getter) → depth (run_program p g).1 ≡ depth g
unfolding run_program
depth-run_program (done e) g = refl
depth-run_program (get key rest) g =
    depth-run_program (rest (get_state key g).0) (get_state key g).1 ∙ depth-get_state key g
depth-run_program (put key value rest) g =
    depth-run_program rest (set_state key value g) ∙ depth-set_state key value g

depth-leave : (g : Getter) → depth g ≡ 2 → depth (leave g) ≡ 1
unfolding leave depth
depth-leave (base view n) e = grind (arith, e)
depth-leave (track t (base view n)) e = grind (arith, e)
depth-leave (track t (track u g)) e = grind (arith, e)

module _ (reg : Registry) (tx : TxInput) where
  depth-finish_invoke :
      (r : Option Bytes × Getter) → depth r.1 ≡ 2 → depth (finish_invoke reg tx r).1 ≡ 1
  unfolding finish_invoke
  depth-finish_invoke (some e, g) d = depth-leave g d
  depth-finish_invoke (none, g) d = depth-merge_into (top_tracker g) (leave g) ∙ depth-leave g d

  depth-start :
      (p : Program (Option Bytes)) (prefix : Bytes) (g : Getter)
      → depth g ≡ 2
      → depth (run_program p (spawn prefix (leave g))).1 ≡ 2
  unfolding spawn depth
  depth-start p prefix g d = depth-run_program p (spawn prefix (leave g)) ∙ ap suc (depth-leave g d)

  depth-call_instance :
      (r : Outcome Chaincode × Getter) → depth r.1 ≡ 2 → depth (call_instance reg tx r).1 ≡ 1
  unfolding call_instance
  depth-call_instance (err e, g) d = depth-leave g d
  depth-call_instance (ok cc, g) d =
      let p = cc.invoke (make_call_context tx tx.input) in
      depth-finish_invoke (run_program p (spawn tx.code_addr (leave g)))
        (depth-start p tx.code_addr g d)

  depth-execute_invoke : (g : Getter) → depth g ≡ 1 → depth (execute_invoke reg tx g).1 ≡ 1
  unfolding execute_invoke get_instance spawn depth
  depth-execute_invoke g d =
      depth-call_instance (get_instance reg tx.code_addr (spawn code_registry_addr g))
        (depth-get_state tx.code_addr (spawn code_registry_addr g) ∙ ap suc d)

  depth-finish_deployment :
      (t : Tracker) (r : Option Bytes × Getter)
      → depth r.1 ≡ 2
      → depth (finish_deployment reg tx t r).1 ≡ 1
  unfolding finish_deployment
  depth-finish_deployment t (some e, g) d = depth-leave g d
  depth-finish_deployment t (none, g) d =
      depth-merge_into (top_tracker g) (merge_into t (leave g))
      ∙ (depth-merge_into t (leave g) ∙ depth-leave g d)

  depth-init_deployment :
      (input : DeploymentInput) (r : Outcome Chaincode × Getter)
      → depth r.1 ≡ 2
      → depth (init_deployment reg tx input r).1 ≡ 1
  unfolding init_deployment
  depth-init_deployment input (err e, g) d = depth-leave g d
  depth-init_deployment input (ok cc, g) d =
      let p = cc.init (make_call_context tx input.init_input) in
      depth-finish_deployment (top_tracker g) (run_program p (spawn tx.hash (leave g)))
        (depth-start p tx.hash g d)

  depth-deploy :
      (input : DeploymentInput) (g : Getter) → depth (deploy reg tx.hash input g).1 ≡ depth g
  unfolding deploy
  depth-deploy input g = elim (Option-cases (reg.drivers input.code_info.driver_type)) [
    | inl e ↦ rw (e, deploy) refl
    | inr (instance_of, e) ↦
        rw (e, deploy) (depth-set_state tx.hash (some (reg.encode_code_info input.code_info)) g)
  ]

  depth-execute_deployment : (g : Getter) → depth g ≡ 1 → depth (execute_deployment reg tx g).1 ≡ 1
  unfolding execute_deployment spawn depth
  depth-execute_deployment g d = elim (Outcome-cases (reg.decode_deployment tx.input)) [
    | inl (e, q) ↦ rw (q, execute_deployment) d
    | inr (input, q) ↦
        rw (q, execute_deployment)
          (depth-init_deployment input (deploy reg tx.hash input (spawn code_registry_addr g))
            (depth-deploy input (spawn code_registry_addr g) ∙ ap suc d))
  ]

  pub depth-execute_chaincode :
      (g : Getter) → depth g ≡ 1 → depth (execute_chaincode reg tx g).1 ≡ 1
  unfolding execute_chaincode
  depth-execute_chaincode g d = elim (Bool-cases (length tx.code_addr == 0)) [
    | inl e ↦ rw (e, execute_chaincode) (depth-execute_deployment g d)
    | inr e ↦ rw (e, execute_chaincode) (depth-execute_invoke g d)
  ]

-- With one tracker above the base, it is both the one on top and the one at the bottom.
pub bottom-depth : (g : Getter) → depth g ≡ 1 → bottom g ≡ some (top_tracker g)
unfolding depth bottom top_tracker
bottom-depth (base view n) d = grind (arith, d)
bottom-depth (track t (base view n)) d = refl
bottom-depth (track t (track u g)) d = grind (arith, d)
