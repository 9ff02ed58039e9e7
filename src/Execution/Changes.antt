-- ===== src/Execution/Changes.antt =====
-- The changes that the execution of a block leaves: each key once, with its last value.
use hs_blockchain.Prelude.{
  ◌≡◌, ◌∙◌, refl, sym, ap, subst, Bool-cases, false, Option, none, some, List, [], ◌∷◌, ◌++◌, Bytes,
  bytes_eq, bytes_eq_iff, if◌then◌else◌, arith, map, inl, inr, Map, lookup, insert, contains,
  Distinct, keys, length, ◌==◌,
}
use hs_blockchain.Core.Certs.{bytes_or_empty}
use hs_blockchain.Execution.Tracker.{Value, Tracker, write, write_all, merge, new_state_tracker}
use hs_blockchain.Execution.TxExecuter.{TxInput, Registry, TxCommit}
use hs_blockchain.Execution.BlkExecuter.{root_value, execute_tx, merge_commit, serial_loop}
use hs_blockchain.Execution.Execute.{state_change, get_state_changes}
use hs_blockchain.Storage.States.{pair_of, last_value}

contains-keys-insert :
    (j k : Bytes) (v : Value) (m : Map Value)
    → bytes_eq k j ≡ false
    → contains j (keys (insert k v m)) ≡ contains j (keys m)
unfolding insert contains
contains-keys-insert j k v [] h = ground (arith, h)
contains-keys-insert j k v ((i, w) ∷ m) h =
    ground (
      arith,
      h,
      contains-keys-insert j k v m h,
      bytes_eq_iff i k,
      bytes_eq_iff k j,
      bytes_eq_iff i j,
    )

Distinct-insert :
    (k : Bytes) (v : Value) (m : Map Value) → Distinct (keys m) → Distinct (keys (insert k v m))
unfolding insert contains
Distinct-insert k v [] d = (refl, tt)
Distinct-insert k v ((i, w) ∷ m) d = elim (Bool-cases (bytes_eq i k)) [
  | inl e ↦ rw e (ground (arith, d, e, bytes_eq_iff i k), d.1)
  | inr e ↦ rw e (
    contains-keys-insert i k v m (ground (arith, e, bytes_eq_iff i k, bytes_eq_iff k i)) ∙ d.0,
    Distinct-insert k v m d.1,
  )
]

Distinct-write_all :
    (m : Map Value) (t : Tracker)
    → Distinct (keys t.changes)
    → Distinct (keys (write_all m t).changes)
unfolding write_all write
Distinct-write_all [] t d = d
Distinct-write_all ((key, value) ∷ m) t d =
    Distinct-write_all m (write key value t)
      (Distinct-insert (t.key_prefix ++ key) value t.changes d)

module _ (reg : Registry) (store : Bytes → Value) where
  Distinct-merge_commit :
      (root : Tracker) (e : TxCommit × Tracker)
      → Distinct (keys root.changes)
      → Distinct (keys (merge_commit reg store root e).0.changes)
  unfolding merge_commit merge
  Distinct-merge_commit root (commit, child) d = elim (Bool-cases (length commit.error == 0)) [
    | inl e ↦ rw e (Distinct-write_all child.changes root d)
    | inr e ↦ rw e d
  ]

  Distinct-serial_loop :
      (root : Tracker) (txs : List TxInput)
      → Distinct (keys root.changes)
      → Distinct (keys (serial_loop reg store root txs).0.changes)
  unfolding serial_loop
  Distinct-serial_loop root [] d = d
  Distinct-serial_loop root (tx ∷ txs) d =
      Distinct-serial_loop
        (merge_commit reg store root (execute_tx reg store (λ _. root_value reg store root) tx)).0
        txs
        (Distinct-merge_commit root (execute_tx reg store (λ _. root_value reg store root) tx) d)

-- The value that the database has for a key after the changes of a tracker.
abbrev pub stored : Option Value → Option Bytes → Option Bytes
stored none old = old
stored (some v) old = some (bytes_or_empty v)

last_value-absent :
    (key : Bytes) (m : Map Value) (old : Option Bytes)
    → contains key (keys m) ≡ false
    → last_value key (map pair_of (map state_change m)) old ≡ old
unfolding last_value contains
last_value-absent key [] old h = refl
last_value-absent key ((k, v) ∷ m) old h =
    ap (last_value key (map pair_of (map state_change m))) unchanged
    ∙ last_value-absent key m old (ground (arith, h))
  where
    unchanged : (if bytes_eq k key then some (bytes_or_empty v) else old) ≡ old
    unchanged = ground (arith, h)

last_value-lookup :
    (key : Bytes) (m : Map Value) (old : Option Bytes)
    → Distinct (keys m)
    → last_value key (map pair_of (map state_change m)) old ≡ stored (lookup key m) old
unfolding last_value lookup
last_value-lookup key [] old d = refl
last_value-lookup key ((k, v) ∷ m) old d = elim (Bool-cases (bytes_eq k key)) [
  | inl e ↦
      let same : k ≡ key = (bytes_eq_iff k key).0 e in
      ap
        (λ b.
          last_value key (map pair_of (map state_change m))
            (if b then some (bytes_or_empty v) else old))
        e
      ∙ (last_value-absent key m (some (bytes_or_empty v))
            (subst (λ x. contains x (keys m) ≡ false) same d.0)
          ∙ ap (λ b. stored (if b then some v else lookup key m) old) (sym e))
  | inr e ↦
      ap
        (λ b.
          last_value key (map pair_of (map state_change m))
            (if b then some (bytes_or_empty v) else old))
        e
      ∙ (last_value-lookup key m old d.1
          ∙ ap (λ b. stored (if b then some v else lookup key m) old) (sym e))
]

-- The changes of the serial execution of a block, as messages, give each key the value that the block's
-- tracker has for it.
pub last_value-serial_loop :
    (reg : Registry) (store : Bytes → Value) (txs : List TxInput) (key : Bytes) (old : Option Bytes)
    → last_value key
        (map pair_of (get_state_changes (serial_loop reg store (new_state_tracker []) txs).0))
        old
      ≡ stored (lookup key (serial_loop reg store (new_state_tracker []) txs).0.changes) old
unfolding get_state_changes new_state_tracker
last_value-serial_loop reg store txs key old =
    last_value-lookup key _ old (Distinct-serial_loop reg store (new_state_tracker []) txs tt)
