-- ===== src/Core/Quorum.antt =====
-- What an accepted certificate of core/quorum_cert.go proves, and that two of them share a correct
-- validator under the fault bound of core/validator_store.go.
use hs_blockchain.Prelude.{
  ℕ, suc, ◌+◌, ◌-◌, ◌*◌, ◌/◌, ◌≤◌, ◌<◌, ◌≡◌, refl, ◌↔◌, inl, inr, true, false, ◌||◌, some, List, [],
  ◌∷◌, map, Bytes, bytes_eq_iff, Map, has, has-insert, insert, length, length-map, All, All-map,
  Distinct, contains, contains_none, Within, shared, length-shared, Option-cases, arith,
}
use hs_blockchain.Core.Crypto.{
  Crypto, ok, PublicKey, Signature, verify_signature, has_invalid_sig, duplicate_loop,
  has_duplicate,
}
use hs_blockchain.Core.Validators.{
  ValidatorStore, majority_count, index_validators, new_validator_store, is_validator,
  has_invalid_validator,
}
use hs_blockchain.Core.Certs.{QuorumCert, PbQuorumCert, bytes_or_empty, validate_qc}

abbrev pub signers : List Signature → List Bytes
signers = map (λ s. s.pub_key.key_str)

abbrev pub names : List PublicKey → List Bytes
names = map (λ k. k.key_str)

-- Every name is new to the map.
abbrev IsFresh : Map (Unit {0}) → List Bytes → Type 0
IsFresh seen = All (λ k. has k seen ≡ false)

duplicate_loop-IsFresh :
    (seen : Map (Unit {0})) (sigs : List Signature)
    → duplicate_loop seen sigs ≡ false
    → Distinct (signers sigs) × IsFresh seen (signers sigs)
unfolding duplicate_loop
duplicate_loop-IsFresh seen [] h = (tt, tt)
duplicate_loop-IsFresh seen (sig ∷ sigs) h =
    let k = sig.pub_key.key_str in
    let new : has k seen ≡ false = ground arith in
    let (d, f) = duplicate_loop-IsFresh (insert k tt seen) sigs (ground arith) in
    (
      (
        contains_none k (signers sigs)
            (All-map _ _ (signers sigs) (λ j g. ground (arith, has-insert k j tt seen, g)) f),
        d,
      ),
      (new, All-map _ _ (signers sigs) (λ j g. ground (arith, has-insert k j tt seen, g)) f),
    )

IsFresh-insert :
    (k : Bytes) (seen : Map (Unit {0})) (ks : List Bytes)
    → contains k ks ≡ false
    → IsFresh seen ks
    → IsFresh (insert k tt seen) ks
unfolding contains
IsFresh-insert k seen [] h f = tt
IsFresh-insert k seen (j ∷ ks) h f = (
  ground (arith, has-insert k j tt seen, f.0, bytes_eq_iff j k, bytes_eq_iff k j),
  IsFresh-insert k seen ks (ground arith) f.1,
)

IsFresh-duplicate_loop :
    (seen : Map (Unit {0})) (sigs : List Signature)
    → Distinct (signers sigs)
    → IsFresh seen (signers sigs)
    → duplicate_loop seen sigs ≡ false
unfolding duplicate_loop
IsFresh-duplicate_loop seen [] d f = refl
IsFresh-duplicate_loop seen (sig ∷ sigs) d f =
    let k = sig.pub_key.key_str in
    rw f.0 (IsFresh-duplicate_loop (insert k tt seen) sigs d.1 (IsFresh-insert k seen _ d.0 f.1))

All-IsFresh : (ks : List Bytes) → IsFresh [] ks
unfolding has
All-IsFresh [] = tt
All-IsFresh (k ∷ ks) = (refl, All-IsFresh ks)

pub has_duplicate_iff :
    (sigs : List Signature) → (has_duplicate sigs ≡ false) ↔ Distinct (signers sigs)
unfolding has_duplicate
has_duplicate_iff sigs = (
  λ h. (duplicate_loop-IsFresh [] sigs h).0,
  λ d. IsFresh-duplicate_loop [] sigs d (All-IsFresh _),
)

module _ (vs : ValidatorStore) where
  abbrev AreValidators : List Signature → Type 0
  AreValidators = All (λ s. is_validator vs (some s.pub_key) ≡ true)

  validators-forth :
      (sigs : List Signature) → has_invalid_validator vs sigs ≡ false → AreValidators sigs
  unfolding has_invalid_validator
  validators-forth [] h = tt
  validators-forth (s ∷ sigs) h = (ground arith, validators-forth sigs (ground arith))

  validators-back :
      (sigs : List Signature) → AreValidators sigs → has_invalid_validator vs sigs ≡ false
  unfolding has_invalid_validator
  validators-back [] h = refl
  validators-back (s ∷ sigs) h = ground (arith, h.0, validators-back sigs h.1)

module _ (c : Crypto) (msg : Bytes) where
  abbrev AllVerify : List Signature → Type 0
  AllVerify = All (λ s. verify_signature c s msg ≡ true)

  verify-forth : (sigs : List Signature) → has_invalid_sig c msg sigs ≡ false → AllVerify sigs
  unfolding has_invalid_sig
  verify-forth [] h = tt
  verify-forth (s ∷ sigs) h = (ground arith, verify-forth sigs (ground arith))

  verify-back : (sigs : List Signature) → AllVerify sigs → has_invalid_sig c msg sigs ≡ false
  unfolding has_invalid_sig
  verify-back [] h = refl
  verify-back (s ∷ sigs) h = ground (arith, h.0, verify-back sigs h.1)

-- What a certificate must be to be accepted.
pub record IsCertificate (c : Crypto) (vs : ValidatorStore) (qc : QuorumCert) : Type 0 where
  -- the message that is there
  pub pb : PbQuorumCert
  pub present : qc.pb ≡ some pb
  pub enough : vs.majority ≤ length qc.sigs
  pub distinct : Distinct (signers qc.sigs)
  pub validators : All (λ s. is_validator vs (some s.pub_key) ≡ true) qc.sigs
  pub verified : All (λ s. verify_signature c s (bytes_or_empty pb.block_hash) ≡ true) qc.sigs

module _ (c : Crypto) (vs : ValidatorStore) (qc : QuorumCert) where
  validate_qc-forth : validate_qc c vs qc ≡ ok tt → IsCertificate c vs qc
  unfolding validate_qc
  validate_qc-forth h = elim (Option-cases qc.pb) [
    | inl e ↦ absurd (ground arith)
    | inr (pb, e) ↦ record {
      pb = pb;
      present = e;
      enough = ground arith;
      distinct = (has_duplicate_iff qc.sigs).0 (ground arith);
      validators = validators-forth vs qc.sigs (ground arith);
      verified = verify-forth c (bytes_or_empty pb.block_hash) qc.sigs (ground arith);
    }
  ]

  validate_qc-back : IsCertificate c vs qc → validate_qc c vs qc ≡ ok tt
  unfolding validate_qc
  validate_qc-back v = ground (
    arith,
    v.present,
    (has_duplicate_iff qc.sigs).1 v.distinct,
    validators-back vs qc.sigs v.validators,
    verify-back c (bytes_or_empty v.pb.block_hash) qc.sigs v.verified,
  )

-- QuorumCert.Validate accepts a certificate exactly when its message is there, it has at least a
-- majority of signatures, no key signs twice, every key is a validator's, and every signature
-- verifies against the certificate's block hash.
pub validate_qc_iff :
    (c : Crypto) (vs : ValidatorStore) (qc : QuorumCert)
    → (validate_qc c vs qc ≡ ok tt) ↔ IsCertificate c vs qc
validate_qc_iff c vs qc = (validate_qc-forth c vs qc, validate_qc-back c vs qc)

has-index_validators :
    (k : Bytes) (i : ℕ) (vs : List PublicKey) (m : Map ℕ)
    → has k (index_validators i vs m) ≡ (contains k (names vs) || has k m)
unfolding index_validators contains
has-index_validators k i [] m = refl
has-index_validators k i (v ∷ vs) m =
    ground
      (arith, has-index_validators k (suc i) vs (insert v.key_str i m), has-insert v.key_str k i m)

-- IsValidator holds of exactly the keys that the store was made of.
pub is_validator_iff :
    (vs : List PublicKey) (key : PublicKey)
    → is_validator (new_validator_store vs) (some key) ≡ contains key.key_str (names vs)
unfolding is_validator new_validator_store has
is_validator_iff vs key = ground (arith, has-index_validators key.key_str 0 vs [])

Within-names :
    (vs : List PublicKey) (sigs : List Signature)
    → All (λ s. is_validator (new_validator_store vs) (some s.pub_key) ≡ true) sigs
    → Within (signers sigs) (names vs)
Within-names vs [] h = tt
Within-names vs (s ∷ sigs) h =
    (rw (is_validator_iff vs s.pub_key) at (h.0), Within-names vs sigs h.1)

-- A majority leaves at least two thirds: twice a majority is more than all and the faulty.
majority_overlap :
    (n m k s : ℕ) → majority_count n ≤ m → majority_count n ≤ k → m + k ≤ n + s → (n - 1) / 3 < s
unfolding majority_count
majority_overlap n m k s h g e = omega arith

-- Two certificates that QuorumCert.Validate accepts under one set of validators share signers: more
-- than the third of the other validators that may be faulty, (n - 1) / 3 of n.
pub quorum_overlap :
    (c : Crypto) (vs : List PublicKey) (p q : QuorumCert)
    → validate_qc c (new_validator_store vs) p ≡ ok tt
    → validate_qc c (new_validator_store vs) q ≡ ok tt
    → (length vs - 1) / 3 < length (shared (signers p.sigs) (signers q.sigs))
unfolding majority_count new_validator_store
quorum_overlap c vs p q hp hq =
    let v = (validate_qc_iff c (new_validator_store vs) p).0 hp in
    let w = (validate_qc_iff c (new_validator_store vs) q).0 hq in
    majority_overlap (length vs) (length p.sigs) (length q.sigs) _ v.enough w.enough (
      omega (
        arith,
        length-shared (signers p.sigs) (signers q.sigs) (names vs) v.distinct w.distinct
            (Within-names vs p.sigs v.validators) (Within-names vs q.sigs w.validators),
        length-map (λ (s : Signature). s.pub_key.key_str) p.sigs,
        length-map (λ (s : Signature). s.pub_key.key_str) q.sigs,
        length-map (λ (k : PublicKey). k.key_str) vs,
      ))

-- With n = 3f + 1 validators a majority is 2f + 1; a majority never exceeds the validators but of
-- none, and any two majorities overlap in more than (n - 1) / 3.
pub majority_count_bounds :
    (n : ℕ)
    → (majority_count (3 * n + 1) ≡ 2 * n + 1)
      × (majority_count (suc n) ≤ suc n)
      × (n + (n - 1) / 3 < 2 * majority_count n)
unfolding majority_count
majority_count_bounds n = omega arith
