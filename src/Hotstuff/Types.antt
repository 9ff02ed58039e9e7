-- ===== src/Hotstuff/Types.antt =====
-- hotstuff/types.go: the interfaces Block, QC and Vote, and the comparison of heights.
-- Go's nil of an interface type is `none`.
use Prim.Native.Nat.{compare, Ordering}
use hs_blockchain.Prelude.{ℕ, suc, ◌≡◌, Bool, true, false, Option, none, some, Bytes, List, ◌↔◌}

-- The methods of the interfaces, as the block store answers them during a run.
pub record Blocks (B Q V : Type 0) : Type 0 where
  pub height : B → ℕ
  pub parent : B → Option B
  pub equal : B → Option B → Bool
  pub justify : B → Q
  pub block : Q → Option B
  pub vote_block : V → Option B
  pub voter : V → Bytes

-- What the engine relies on: Equal is false at nil and true at the same block only, and a block
-- is one above its parent.
pub record IsLawful {B Q V : Type 0} (o : Blocks B Q V) : Type 0 where
  pub equal_nil : (a : B) → o.equal a none ≡ false
  pub equal_iff : (a b : B) → (o.equal a (some b) ≡ true) ↔ (a ≡ b)
  pub height_parent : (a b : B) → o.parent a ≡ some b → o.height a ≡ suc (o.height b)

-- The driver's answers that the engine uses: the quorum size and the certificate of some votes.
pub record Driver (Q V : Type 0) : Type 0 where
  pub majority_count : ℕ
  pub create_qc : List V → Q

-- How a call ends: it returns, log.Fatalf ends the process, or the model's fuel runs out.
pub data Run {ℓ} (A : Type ℓ) : Type ℓ where
  ok : A → Run A
  fatal out_of_fuel : Run A

infixl 5 ◌>>=◌
abbrev pub ◌>>=◌ {ℓ κ} : {A : Type ℓ} {B : Type κ} → Run A → (A → Run B) → Run B
ok a >>= f = f a
fatal >>= f = fatal
out_of_fuel >>= f = out_of_fuel

-- The call ends, and if it returns, its result satisfies the predicate.
abbrev pub Safely {ℓ} : {A : Type ℓ} → (A → Type 0) → Run A → Type 0
Safely P (ok a) = P a
Safely P fatal = Unit
Safely P out_of_fuel = ⊥

pub Safely-bind {ℓ κ} :
    {A : Type ℓ} {B : Type κ} (P : A → Type 0) (Q : B → Type 0) (m : Run A) (f : A → Run B)
    → Safely P m
    → ((a : A) → P a → Safely Q (f a))
    → Safely Q (m >>= f)
Safely-bind P Q (ok a) f h k = k a h
Safely-bind P Q fatal f h k = tt
Safely-bind P Q out_of_fuel f h k = absurd h

pub Safely-map {ℓ} :
    {A : Type ℓ} (P Q : A → Type 0) (m : Run A) → ((a : A) → P a → Q a) → Safely P m → Safely Q m
Safely-map P Q (ok a) f h = f a h
Safely-map P Q fatal f h = tt
Safely-map P Q out_of_fuel f h = absurd h

module _ {B Q V : Type 0} (o : Blocks B Q V) where
  -- CmpBlockHeight, with `lt`, `eq` and `gt` for -1, 0 and 1.
  unfoldable pub cmp_block_height : Option B → Option B → Ordering
  cmp_block_height none none = Ordering.eq
  cmp_block_height none (some b2) = Ordering.lt
  cmp_block_height (some b1) none = Ordering.gt
  cmp_block_height (some b1) (some b2) = compare (o.height b1) (o.height b2)

  -- `CmpBlockHeight(b1, b2) == 1`
  unfoldable pub is_higher : Option B → Option B → Bool
  unfolding cmp_block_height
  is_higher b1 b2 = elim (cmp_block_height b1 b2) [ Ordering.gt ↦ true | _ ↦ false ]

  -- `CmpBlockHeight(b1, b2) != -1`
  unfoldable pub not_lower : Option B → Option B → Bool
  unfolding cmp_block_height
  not_lower b1 b2 = elim (cmp_block_height b1 b2) [ Ordering.lt ↦ false | _ ↦ true ]
