-- ===== src/TxPool/Queues.antt =====
-- Deletion from the queue of txpool/txstore.go, and what heap.Pop takes.
use hs_blockchain.Prelude.{
  ◌≤◌, ℕ, ◌≡◌, refl, true, false, not, none, some, [], ◌∷◌, Bytes, Map, has, lookup, delete, arith,
  All, Distinct, keys, Bool-cases, inl, inr, subst, ◌⊎◌, bytes_eq, bytes_eq_iff, ◌&&◌, contains,
}
use hs_blockchain.TxPool.TxStore.{earliest, pop}

pub contains-delete :
    (j k : Bytes) (q : Map ℕ)
    → contains j (keys (delete k q)) ≡ (contains j (keys q) && not (bytes_eq k j))
unfolding contains delete
contains-delete j k [] = refl
contains-delete j k ((i, t) ∷ q) =
    ground (arith, contains-delete j k q, bytes_eq_iff i k, bytes_eq_iff i j, bytes_eq_iff k j)

pub Distinct-delete : (k : Bytes) (q : Map ℕ) → Distinct (keys q) → Distinct (keys (delete k q))
unfolding delete
Distinct-delete k [] d = tt
Distinct-delete k ((i, t) ∷ q) d = elim (Bool-cases (bytes_eq i k)) [
  | inl e ↦ rw e (Distinct-delete k q d.1)
  | inr e ↦ rw e (ground (arith, contains-delete i k q, d.0), Distinct-delete k q d.1)
]

pub All-delete :
    (P Q : Bytes → Type 0) (k : Bytes) (q : Map ℕ)
    → ((x : Bytes) → bytes_eq x k ≡ false → P x → Q x)
    → All P (keys q)
    → All Q (keys (delete k q))
unfolding delete
All-delete P Q k [] f a = tt
All-delete P Q k ((i, t) ∷ q) f a = elim (Bool-cases (bytes_eq i k)) [
  | inl e ↦ rw e (All-delete P Q k q f a.1)
  | inr e ↦ rw e (f i e a.0, All-delete P Q k q f a.1)
]

pub delete_absent : (k : Bytes) (q : Map ℕ) → has k q ≡ false → delete k q ≡ q
unfolding has lookup delete
delete_absent k [] h = refl
delete_absent k ((i, t) ∷ q) h = ground (arith, delete_absent k q)

pub All-has : (P : Bytes → Type 0) (k : Bytes) (q : Map ℕ) → has k q ≡ true → All P (keys q) → P k
unfolding has lookup
All-has P k [] h a = absurd (ground arith)
All-has P k ((i, t) ∷ q) h a = elim (Bool-cases (bytes_eq i k)) [
  | inl e ↦ subst P ((bytes_eq_iff i k).0 e) a.0
  | inr e ↦ All-has P k q (ground arith) a.1
]

pub pop-cases :
    (q : Map ℕ) → (pop q ≡ none) ⊎ ((hash : Bytes) × (pop q ≡ some (hash, delete hash q)))
unfolding pop
pop-cases [] = inl refl
pop-cases (e ∷ q) = inr ((earliest e q).0, refl)

abbrev pub HasEntry : Bytes × ℕ → Map ℕ → Type 0
HasEntry e [] = ⊥
HasEntry e (f ∷ q) = (e ≡ f) ⊎ HasEntry e q

-- An entry of the queue that no entry is earlier than.
abbrev pub IsEarliest : Bytes × ℕ → Map ℕ → Type 0
IsEarliest e q = All (λ (f : Bytes × ℕ). e.1 ≤ f.1) q × HasEntry e q
