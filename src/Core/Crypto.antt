-- ===== src/Core/Crypto.antt =====
-- core/crypto.go: public keys, signatures and lists of signatures.
-- ed25519, sha3 and base64 are not under this repository: `Crypto` names the calls that are used.
use hs_blockchain.Prelude.{
  ℕ, Bool, true, false, not, Option, none, some, List, [], ◌∷◌, Bytes, if◌then◌else◌, Map, has,
  insert, length, ◌==◌, ◌/◌, ◌%◌, ◌^◌,
}

pub record Crypto : Type 0 where
  -- ed25519.Verify(key, msg, value)
  pub verify : Bytes → Bytes → Bytes → Bool
  -- sha3.New256 over the written bytes
  pub sha3 : Bytes → Bytes
  -- base64.StdEncoding.EncodeToString
  pub base64 : Bytes → Bytes

-- The errors of the package; `panic` is a run-time panic, at a nil pointer for one.
pub data CoreError : Type 0 where
  invalid_key_size nil_sig nil_qc not_enough_sig duplicate_sig invalid_sig : CoreError
  invalid_validator nil_vote invalid_block_hash nil_block invalid_tx_hash nil_tx : CoreError

pub data Checked {ℓ} (A : Type ℓ) : Type ℓ where
  ok : A → Checked A
  err : CoreError → Checked A
  panic : Checked A

infixl 5 ◌>>=◌ ◌>>◌
abbrev pub ◌>>=◌ {ℓ κ} : {A : Type ℓ} {B : Type κ} → Checked A → (A → Checked B) → Checked B
ok a >>= f = f a
err e >>= f = err e
panic >>= f = panic

abbrev pub ◌>>◌ {ℓ} : {B : Type ℓ} → Checked (Unit {0}) → Checked B → Checked B
m >> k = m >>= λ _. k

-- `if failed { return e }`
abbrev pub check : Bool → CoreError → Checked (Unit {0})
check true e = err e
check false e = ok tt

pub record PublicKey : Type 0 where
  pub key : Bytes
  pub key_str : Bytes

-- core_pb.Signature
pub record PbSignature : Type 0 where
  pub pub_key : Bytes
  pub value : Bytes

pub record Signature : Type 0 where
  -- named for Go's field `data`
  pub pb : PbSignature
  pub pub_key : PublicKey

abbrev pub public_key_size : ℕ
public_key_size = 32

-- binary.Write of a uint64 in big-endian order; an int64 goes by its bit pattern.
unfoldable pub be64 : ℕ → Bytes
be64 n =
    (n / 2 ^ 56 % 256)
    ∷ (n / 2 ^ 48 % 256)
    ∷ (n / 2 ^ 40 % 256)
    ∷ (n / 2 ^ 32 % 256)
    ∷ (n / 2 ^ 24 % 256)
    ∷ (n / 2 ^ 16 % 256)
    ∷ (n / 2 ^ 8 % 256)
    ∷ (n % 256)
    ∷ []

module _ (c : Crypto) where
  -- NewPublicKey
  unfoldable pub new_public_key : Bytes → Checked PublicKey
  new_public_key b =
      if not (length b == public_key_size)
      then err CoreError.invalid_key_size
      else ok (record { key = b; key_str = c.base64 b })

  -- newSignature; `none` is a nil pointer.
  unfoldable pub new_signature : Option PbSignature → Checked Signature
  unfolding new_public_key
  new_signature none = err CoreError.nil_sig
  new_signature (some pb) = do
    key ← new_public_key pb.pub_key
    ok (record { pb = pb; pub_key = key })

  -- Signature.Verify
  unfoldable pub verify_signature : Signature → Bytes → Bool
  verify_signature sig msg = c.verify sig.pub_key.key msg sig.pb.value

  -- newSigList
  unfoldable pub new_sig_list : List (Option PbSignature) → Checked (List Signature)
  unfolding new_signature
  new_sig_list [] = ok []
  new_sig_list (pb ∷ pbs) = do sig ← new_signature pb; sigs ← new_sig_list pbs; ok (sig ∷ sigs)

  -- hasInvalidSig
  unfoldable pub has_invalid_sig : Bytes → List Signature → Bool
  unfolding verify_signature
  has_invalid_sig msg [] = false
  has_invalid_sig msg (sig ∷ sigs) =
      if not (verify_signature sig msg) then true else has_invalid_sig msg sigs

-- The loop of hasDuplicate over the map of the keys seen.
unfoldable pub duplicate_loop : Map (Unit {0}) → List Signature → Bool
duplicate_loop seen [] = false
duplicate_loop seen (sig ∷ sigs) =
    let rest = duplicate_loop (insert sig.pub_key.key_str tt seen) sigs in
    if has sig.pub_key.key_str seen then true else rest

-- hasDuplicate
unfoldable pub has_duplicate : List Signature → Bool
unfolding duplicate_loop
has_duplicate sigs = duplicate_loop [] sigs
