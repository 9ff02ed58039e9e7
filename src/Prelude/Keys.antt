-- ===== src/Prelude/Keys.antt =====
-- Lists of byte strings without repetition, and how many of them two such lists share.
use Prim.Native.Nat.{suc, ◌+◌, ◌≤◌}
use mathlib.Core.Path.{◌≡◌, refl}
use mathlib.Core.Logic.{inl, inr}
use mathlib.Core.Bool.{Bool, true, false, ◌||◌}
use mathlib.Core.List.{List, [], ◌∷◌, ◌++◌, map}
use native.Mathlib.Omega.{arith}
use hs_blockchain.Prelude.Tests.{if◌then◌else◌, Bool-cases}
use hs_blockchain.Prelude.Lists.{length, length-append, All}
use hs_blockchain.Prelude.ByteStrings.{Bytes, bytes_eq, bytes_eq_iff}
use hs_blockchain.Prelude.Maps.{Map, lookup, insert, has}

unfoldable pub contains : Bytes → List Bytes → Bool
contains k [] = false
contains k (x ∷ xs) = bytes_eq x k || contains k xs

-- No byte string stands twice in the list.
abbrev pub Distinct : List Bytes → Type 0
Distinct [] = Unit
Distinct (x ∷ xs) = (contains x xs ≡ false) × Distinct xs

abbrev pub keys {ℓ} : {V : Type ℓ} → Map V → List Bytes
keys = map (λ e. e.0)

pub has-contains {ℓ} : {V : Type ℓ} (k : Bytes) (m : Map V) → has k m ≡ contains k (keys m)
unfolding has lookup contains
has-contains k [] = refl
has-contains k ((j, v) ∷ m) = ground (arith, has-contains k m)

-- A new key goes to the end.
pub insert_new {ℓ} :
    {V : Type ℓ} (k : Bytes) (v : V) (m : Map V) → has k m ≡ false → insert k v m ≡ m ++ (k, v) ∷ []
unfolding has lookup insert
insert_new k v [] h = refl
insert_new k v ((j, w) ∷ m) h = ground (arith, insert_new k v m)

pub contains-append :
    (k : Bytes) (xs ys : List Bytes) → contains k (xs ++ ys) ≡ (contains k xs || contains k ys)
unfolding contains
contains-append k [] ys = refl
contains-append k (x ∷ xs) ys = ground (arith, contains-append k xs ys)

pub Distinct-append_new :
    (xs : List Bytes) (k : Bytes) → Distinct xs → contains k xs ≡ false → Distinct (xs ++ k ∷ [])
unfolding contains
Distinct-append_new [] k d h = (refl, tt)
Distinct-append_new (x ∷ xs) k d h = (
  ground (arith, contains-append x xs (k ∷ []), bytes_eq_iff x k, bytes_eq_iff k x, d),
  Distinct-append_new xs k d.1 (ground arith),
)

pub contains_none :
    (k : Bytes) (xs : List Bytes) → All (λ x. bytes_eq k x ≡ false) xs → contains k xs ≡ false
unfolding contains
contains_none k [] h = refl
contains_none k (x ∷ xs) h =
    ground (arith, contains_none k xs h.1, bytes_eq_iff x k, bytes_eq_iff k x, h.0)

-- The list without its first copy of the byte string.
erase_first : Bytes → List Bytes → List Bytes
erase_first k [] = []
erase_first k (x ∷ xs) = if bytes_eq x k then xs else x ∷ erase_first k xs

length-erase_first :
    (k : Bytes) (xs : List Bytes)
    → contains k xs ≡ true
    → suc (length (erase_first k xs)) ≡ length xs
unfolding erase_first contains
length-erase_first k [] h = cc
length-erase_first k (x ∷ xs) h = ground (arith, length-erase_first k xs)

contains-erase_first :
    (k j : Bytes) (xs : List Bytes)
    → bytes_eq k j ≡ false
    → contains j (erase_first k xs) ≡ contains j xs
unfolding erase_first contains
contains-erase_first k j [] h = refl
contains-erase_first k j (x ∷ xs) h =
    ground
      (arith, contains-erase_first k j xs h, bytes_eq_iff x k, bytes_eq_iff k j, bytes_eq_iff x j)

-- Where a byte string is absent, every element differs from it.
All-ne : (k : Bytes) (xs : List Bytes) → contains k xs ≡ false → All (λ x. bytes_eq k x ≡ false) xs
unfolding contains
All-ne k [] h = tt
All-ne k (x ∷ xs) h =
    (ground (arith, bytes_eq_iff x k, bytes_eq_iff k x), All-ne k xs (ground arith))

-- Every element of the first list is in the second.
abbrev pub Within : List Bytes → List Bytes → Type 0
Within xs zs = All (λ x. contains x zs ≡ true) xs

Within-erase_first :
    (k : Bytes) (xs zs : List Bytes)
    → contains k xs ≡ false
    → Within xs zs
    → Within xs (erase_first k zs)
unfolding contains
Within-erase_first k [] zs h w = tt
Within-erase_first k (x ∷ xs) zs h w = (
  ground (arith, contains-erase_first k x zs, bytes_eq_iff x k, bytes_eq_iff k x, w.0),
  Within-erase_first k xs zs (ground arith) w.1,
)

-- Distinct elements of a list are no more than the list has.
pub length-Within : (xs zs : List Bytes) → Distinct xs → Within xs zs → length xs ≤ length zs
length-Within [] zs d w = omega arith
length-Within (x ∷ xs) zs d w = omega (
  arith,
  length-Within xs (erase_first x zs) d.1 (Within-erase_first x xs zs d.0 w.1),
  length-erase_first x zs w.0,
)

-- The elements of the first list that are in the second, and the others.
unfoldable pub shared : List Bytes → List Bytes → List Bytes
shared [] ys = []
shared (x ∷ xs) ys = if contains x ys then x ∷ shared xs ys else shared xs ys

others : List Bytes → List Bytes → List Bytes
others [] ys = []
others (x ∷ xs) ys = if contains x ys then others xs ys else x ∷ others xs ys

length-shared-others :
    (xs ys : List Bytes) → length (shared xs ys) + length (others xs ys) ≡ length xs
unfolding shared others
length-shared-others [] ys = omega arith
length-shared-others (x ∷ xs) ys = ground (arith, length-shared-others xs ys)

contains-others :
    (k : Bytes) (xs ys : List Bytes) → contains k xs ≡ false → contains k (others xs ys) ≡ false
unfolding contains others
contains-others k [] ys h = refl
contains-others k (x ∷ xs) ys h = ground (arith, contains-others k xs ys)

Distinct-others : (xs ys : List Bytes) → Distinct xs → Distinct ys → Distinct (others xs ys ++ ys)
unfolding others
Distinct-others [] ys d e = e
Distinct-others (x ∷ xs) ys d e = elim (Bool-cases (contains x ys)) [
  | inl old ↦ rw old (Distinct-others xs ys d.1 e)
  | inr new ↦
      rw new
        (rw (contains-append, contains-others x xs ys d.0, new) refl, Distinct-others xs ys d.1 e)
]

Within-others :
    (xs ys zs : List Bytes) → Within xs zs → Within ys zs → Within (others xs ys ++ ys) zs
unfolding others
Within-others [] ys zs v w = w
Within-others (x ∷ xs) ys zs v w = elim (Bool-cases (contains x ys)) [
  | inl old ↦ rw old (Within-others xs ys zs v.1 w)
  | inr new ↦ rw new (v.0, Within-others xs ys zs v.1 w)
]

-- Two lists of distinct elements of a third share what they have together beyond its length.
pub length-shared :
    (xs ys zs : List Bytes)
    → Distinct xs
    → Distinct ys
    → Within xs zs
    → Within ys zs
    → length xs + length ys ≤ length zs + length (shared xs ys)
length-shared xs ys zs d e v w = omega (
  arith,
  length-shared-others xs ys,
  length-append (others xs ys) ys,
  length-Within (others xs ys ++ ys) zs (Distinct-others xs ys d e) (Within-others xs ys zs v w),
)
