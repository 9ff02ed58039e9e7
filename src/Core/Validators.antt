-- ===== src/Core/Validators.antt =====
-- core/validator_store.go: the fixed set of validators and the size of a majority.
use hs_blockchain.Prelude.{
  ℕ, suc, ◌+◌, ◌*◌, ◌/◌, Bool, true, false, not, Option, none, some, List, [], ◌∷◌, if◌then◌else◌,
  Map, has, lookup, insert, length, get_elem?,
}
use hs_blockchain.Core.Crypto.{PublicKey, Signature}

pub record ValidatorStore : Type 0 where
  pub validators : List PublicKey
  pub v_map : Map ℕ
  pub majority : ℕ

-- MajorityCount: math.Ceil(float64(2n+1) / 3). The float quotient rounds to the integer ceiling for
-- every count below 2^50.
unfoldable pub majority_count : ℕ → ℕ
majority_count n = (2 * n + 1 + 2) / 3

-- The loop of NewValidatorStore that fills vMap.
unfoldable pub index_validators : ℕ → List PublicKey → Map ℕ → Map ℕ
index_validators i [] m = m
index_validators i (v ∷ vs) m = index_validators (suc i) vs (insert v.key_str i m)

-- NewValidatorStore
unfoldable pub new_validator_store : List PublicKey → ValidatorStore
unfolding index_validators majority_count
new_validator_store vs = record {
  validators = vs;
  v_map = index_validators 0 vs [];
  majority = majority_count (length vs);
}

unfoldable pub validator_count : ValidatorStore → ℕ
validator_count store = length store.validators

-- IsValidator; `none` is a nil key.
unfoldable pub is_validator : ValidatorStore → Option PublicKey → Bool
is_validator store none = false
is_validator store (some key) = has key.key_str store.v_map

-- GetValidator. A negative index, which gives nil too, is left out: every caller counts from 0.
unfoldable pub get_validator : ValidatorStore → ℕ → Option PublicKey
get_validator store idx = get_elem? store.validators idx

-- GetValidatorIndex: 0 for nil and for a key that the map lacks.
unfoldable pub get_validator_index : ValidatorStore → Option PublicKey → ℕ
get_validator_index store none = 0
get_validator_index store (some key) = elim (lookup key.key_str store.v_map) [
  | none ↦ 0
  | some i ↦ i
]

-- hasInvalidValidator of core/crypto.go
unfoldable pub has_invalid_validator : ValidatorStore → List Signature → Bool
unfolding is_validator
has_invalid_validator store [] = false
has_invalid_validator store (sig ∷ sigs) =
    if not (is_validator store (some sig.pub_key)) then true else has_invalid_validator store sigs
