-- ===== src/Execution/Tracker.antt =====
-- execution/state_tracker.go: a tracker of reads and writes over a base state.
-- Keys and values are byte strings, and `none` is a nil value.
use hs_blockchain.Prelude.{
  ℕ, suc, Bool, true, false, Option, none, some, [], ◌∷◌, ◌++◌, Bytes, if◌then◌else◌, Map, has,
  lookup, insert,
}

abbrev pub Value : Type 0
Value = Option Bytes

pub record Tracker : Type 0 where
  pub key_prefix : Bytes
  pub track_dep : Bool
  pub dependencies : Map (Unit {0})
  pub changes : Map Value

-- The interface stateGetter: a tracker over its base state, or the state at the bottom. That state
-- may change between reads, since other transactions write to it: `view n` is what the read
-- number `n` sees, and the getter counts the reads.
pub data Getter : Type 0 where
  base : (ℕ → Bytes → Value) → ℕ → Getter
  track : Tracker → Getter → Getter

-- newStateTracker, without its base.
unfoldable pub new_state_tracker : Bytes → Tracker
new_state_tracker key_prefix = record {
  key_prefix = key_prefix;
  track_dep = false;
  dependencies = [];
  changes = [];
}

-- spawn
unfoldable pub spawn : Bytes → Getter → Getter
unfolding new_state_tracker
spawn key_prefix g = track (record (new_state_tracker key_prefix) { track_dep = true }) g

-- setDependency
unfoldable pub set_dependency : Bytes → Tracker → Tracker
set_dependency key t =
    if t.track_dep then record t { dependencies = insert key tt t.dependencies } else t

-- GetState: the value, and the getter with the reads noted down.
unfoldable pub get_state : Bytes → Getter → Value × Getter
unfolding set_dependency
get_state key (base view n) = (view n key, base view (suc n))
get_state key (track t g) =
    let full = t.key_prefix ++ key in
    let t' = set_dependency full t in
    let (below, g') = get_state full g in
    elim (lookup full t.changes) [ some value ↦ (value, track t' g) | none ↦ (below, track t' g') ]

-- setState
unfoldable pub write : Bytes → Value → Tracker → Tracker
write key value t = record t { changes = insert (t.key_prefix ++ key) value t.changes }

-- SetState. The state at the bottom has no SetState; no caller writes there.
unfoldable pub set_state : Bytes → Value → Getter → Getter
unfolding write
set_state key value (base view n) = base view n
set_state key value (track t g) = track (write key value t) g

-- merge: the child's changes, in some order.
unfoldable pub write_all : Map Value → Tracker → Tracker
unfolding write
write_all [] t = t
write_all ((key, value) ∷ m) t = write_all m (write key value t)

unfoldable pub merge : Tracker → Tracker → Tracker
unfolding write_all
merge child t = write_all child.changes t

-- The loop of hasDependencyChanges over the child's dependencies.
unfoldable pub any_changed : Bytes → Map (Unit {0}) → Map Value → Bool
any_changed key_prefix [] changes = false
any_changed key_prefix ((key, _) ∷ deps) changes =
    if has (key_prefix ++ key) changes then true else any_changed key_prefix deps changes

-- hasDependencyChanges
unfoldable pub has_dependency_changes : Tracker → Tracker → Bool
unfolding any_changed
has_dependency_changes child t = any_changed t.key_prefix child.dependencies t.changes
