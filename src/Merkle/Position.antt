-- ===== src/Merkle/Position.antt =====
-- merkle/types.go: the positions of nodes and their bytes, which key the stores.
use hs_blockchain.Prelude.{
  ℕ, zero, suc, Option, none, some, List, [], ◌∷◌, ◌++◌, Bytes, if◌then◌else◌, ◌==◌, ◌+◌, ◌*◌, ◌/◌,
  ◌%◌, Map, has, insert,
}

-- big.Int.Bytes: the digits in base 256, the highest first; the number is fuel enough.
unfoldable pub digits : ℕ → ℕ → Bytes
digits zero n = []
digits (suc fuel) n =
    let high = digits fuel (n / 256) in if n == 0 then [] else high ++ (n % 256) ∷ []

unfoldable pub int_bytes : ℕ → Bytes
unfolding digits
int_bytes n = digits n n

-- big.Int.SetBytes
unfoldable pub set_int_bytes : ℕ → Bytes → ℕ
set_int_bytes n [] = n
set_int_bytes n (x ∷ xs) = set_int_bytes (n * 256 + x) xs

-- `str` is `bytes` as a string.
pub record Position : Type 0 where
  pub level : ℕ
  pub index : ℕ
  pub bytes : Bytes

-- setBytes
unfoldable pub position_bytes : ℕ → ℕ → Bytes
unfolding int_bytes
position_bytes level index = level ∷ (elim (int_bytes index) [ [] ↦ 0 ∷ [] | x ∷ xs ↦ x ∷ xs ])

-- NewPosition
unfoldable pub new_position : ℕ → ℕ → Position
unfolding position_bytes
new_position level index = record {
  level = level;
  index = index;
  bytes = position_bytes level index;
}

-- UnmarshalPosition; `none` is the panic at no bytes.
unfoldable pub unmarshal_position : Bytes → Option Position
unfolding set_int_bytes
unmarshal_position [] = none
unmarshal_position (level ∷ ib) =
    some (record { level = level; index = set_int_bytes 0 ib; bytes = level ∷ ib })

-- UniqueMap
unfoldable pub unique_loop : List Position → Map Position → Map Position
unique_loop [] pmap = pmap
unique_loop (p ∷ ps) pmap =
    unique_loop ps (if has p.bytes pmap then pmap else insert p.bytes p pmap)

unfoldable pub unique_map : List Position → Map Position
unfolding unique_loop
unique_map ps = unique_loop ps []
