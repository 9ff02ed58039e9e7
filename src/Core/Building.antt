-- ===== src/Core/Building.antt =====
-- core/quorum_cert.go: a certificate that is built of the votes of a majority, on the wire and back.
use hs_blockchain.Prelude.{
  ◌≡◌, refl, sym, ap, ◌≤◌, ◌<◌, inl, inr, true, false, ltb, ◌∙◌, none, some, List, [], ◌∷◌, Bytes,
  map, length, length-map, All, All-map, Distinct, has, Option-cases, Bool-cases, ◌==◌, arith,
}
use hs_blockchain.Core.Crypto.{
  Crypto, CoreError, check, ok, err, panic, Signature, new_public_key, new_signature,
  verify_signature, new_sig_list, public_key_size,
}
use hs_blockchain.Core.Validators.{ValidatorStore, is_validator}
use hs_blockchain.Core.Certs.{
  vote_hash, QuorumCert, PbVote, Vote, new_quorum_cert, validate_qc, validate_vote, set_vote_data,
  set_qc_data, vote_signature, build_loop, build_qc,
}
use hs_blockchain.Core.Blocks.{qc_hash}
use hs_blockchain.Core.Quorum.{signers, validate_qc_iff}

abbrev voter_name : Vote → Bytes
voter_name vote = elim (vote.voter) [ none ↦ [] | some key ↦ key.key_str ]

abbrev pub voters : List Vote → List Bytes
voters = map voter_name

-- A vote for the hash that Validate accepts, with the voter that setData reads out of its message.
pub record IsCast (c : Crypto) (vs : ValidatorStore) (hash : Bytes) (vote : Vote) : Type 0 where
  pub read : set_vote_data c vote.pb ≡ ok vote
  pub about : vote_hash vote ≡ some hash
  pub valid : validate_vote c vs vote ≡ ok tt

module _ (c : Crypto) (vs : ValidatorStore) (hash : Bytes) where
  -- A signature of a validator over the hash, as newSignature reads it.
  record IsGood (sig : Signature) : Type 0 where
    pub wire : new_signature c (some sig.pb) ≡ ok sig
    pub member : is_validator vs (some sig.pub_key) ≡ true
    pub verified : verify_signature c sig hash ≡ true

  record HasSignature (vote : Vote) : Type 0 where
    pub pb : PbVote
    pub sig : Signature
    pub same_hash : pb.block_hash ≡ some hash
    pub signed : vote_signature vote ≡ ok (pb, sig)
    pub named : voter_name vote ≡ sig.pub_key.key_str
    pub good : IsGood sig

  ok-injective : {A : Type 0} {a b : A} → ok a ≡ ok b → a ≡ b
  ok-injective {a = a} e = ap (λ m. elim m [ ok x ↦ x | err e ↦ a | panic ↦ a ]) e

  cast-signature : (vote : Vote) → IsCast c vs hash vote → HasSignature vote
  unfolding vote_signature set_vote_data validate_vote new_signature new_public_key is_validator
      verify_signature
  cast-signature vote v = elim (Option-cases vote.pb) [
    | inl e ↦ absurd (ground (arith, v.read, e))
    | inr (pb, e) ↦ elim (Option-cases pb.signature) [
      | inl f ↦ absurd (ground (arith, v.read, e, f))
      | inr (s, f) ↦ elim (Bool-cases (length s.pub_key == public_key_size)) [
        | inr g ↦ absurd (ground (arith, v.read, e, f, g))
        | inl g ↦
            let voter : vote.voter
                ≡ some (record { key = s.pub_key; key_str = c.base64 s.pub_key }) =
              sym (ap (λ (x : Vote). x.voter) (ok-injective (rw (e, f, g) at (v.read)))) in
            let h : pb.block_hash ≡ some hash = rw e at (v.about) in
            let accepted = rw (e, f, g, h) at (v.valid) in
            record {
              pb = pb;
              sig = record {
                pb = s;
                pub_key = record { key = s.pub_key; key_str = c.base64 s.pub_key };
              };
              same_hash = h;
              signed = ground (arith, e, f, voter);
              named = rw voter refl;
              good = record {
                wire = rw g refl;
                member = ground (
                  arith,
                  accepted,
                  Bool-cases (has (c.base64 s.pub_key) vs.v_map),
                  Bool-cases (c.verify s.pub_key hash s.value),
                );
                verified = ground (
                  arith,
                  accepted,
                  Bool-cases (has (c.base64 s.pub_key) vs.v_map),
                  Bool-cases (c.verify s.pub_key hash s.value),
                );
              };
            }
      ]
    ]
  ]

  -- The signatures of the votes, once the certificate has its hash.
  record HasSignatures (votes : List Vote) : Type 0 where
    pub sigs : List Signature
    pub built : build_loop votes (some hash) ≡ ok (some hash, sigs)
    pub named : signers sigs ≡ voters votes
    pub good : All IsGood sigs

  cast-signatures : (votes : List Vote) → All (IsCast c vs hash) votes → HasSignatures votes
  unfolding build_loop
  cast-signatures [] a = record { sigs = []; built = refl; named = refl; good = tt }
  cast-signatures (vote ∷ votes) a =
      let first = cast-signature vote a.0 in
      let rest = cast-signatures votes a.1 in
      record {
        sigs = first.sig ∷ rest.sigs;
        built = rw (first.signed, rest.built) refl;
        named = rw (first.named, rest.named) refl;
        good = (first.good, rest.good);
      }

  -- The first vote gives the certificate its hash.
  build_loop-first :
      (votes : List Vote)
      → 0 < length votes
      → All (IsCast c vs hash) votes
      → build_loop votes none ≡ build_loop votes (some hash)
  unfolding build_loop
  build_loop-first [] h a = absurd (omega (arith, h))
  build_loop-first (vote ∷ votes) h a =
      let first = cast-signature vote a.0 in rw (first.signed, first.same_hash) refl

  good-new_sig_list :
      (sigs : List Signature)
      → All IsGood sigs
      → new_sig_list c (map (λ s. some s.pb) sigs) ≡ ok sigs
  unfolding new_sig_list
  good-new_sig_list [] g = refl
  good-new_sig_list (sig ∷ sigs) g = rw (g.0.wire, good-new_sig_list sigs g.1) refl

  -- The certificate of the signatures.
  abbrev certificate : List Signature → QuorumCert
  certificate sigs = record {
    pb = some (record { block_hash = some hash; signatures = map (λ s. some s.pb) sigs });
    sigs = sigs;
  }

  signatures-judged :
      (votes : List Vote) (s : HasSignatures votes)
      → Distinct (voters votes)
      → validate_qc c vs (certificate s.sigs)
        ≡ check (ltb (length votes) vs.majority) CoreError.not_enough_sig
  unfolding validate_qc
  signatures-judged votes s d =
      let counted : length s.sigs ≡ length votes =
        sym (length-map (λ (x : Signature). x.pub_key.key_str) s.sigs)
        ∙ ap length s.named
        ∙ length-map voter_name votes in
      elim (Bool-cases (ltb (length votes) vs.majority)) [
        | inl few ↦ rw (counted, few) refl
        | inr many ↦ rw many (
            (validate_qc_iff c vs (certificate s.sigs)).1 (record {
              pb = record { block_hash = some hash; signatures = map (λ s. some s.pb) s.sigs };
              present = refl;
              enough = ground (arith, many, counted);
              distinct = rw s.named d;
              validators = All-map _ _ s.sigs (λ x g. g.member) s.good;
              verified = All-map _ _ s.sigs (λ x g. g.verified) s.good;
            }))
      ]

-- Votes for one hash that Vote.Validate accepts, of different voters, build a certificate for that hash,
-- which QuorumCert.Validate refuses for too few signatures or accepts, and which has the same form read
-- from its message.
pub build_qc-judged :
    (c : Crypto) (vs : ValidatorStore) (hash : Bytes) (votes : List Vote)
    → All (IsCast c vs hash) votes
    → Distinct (voters votes)
    → 0 < length votes
    → (qc : QuorumCert) × (build_qc new_quorum_cert votes ≡ ok qc)
      × (qc_hash qc.pb ≡ hash)
      × (validate_qc c vs qc ≡ check (ltb (length votes) vs.majority) CoreError.not_enough_sig)
      × (set_qc_data c qc.pb ≡ ok qc)
unfolding build_qc new_quorum_cert set_qc_data
build_qc-judged c vs hash votes a d h =
    let s = cast-signatures c vs hash votes a in
    (
      certificate c vs hash s.sigs,
      rw (build_loop-first c vs hash votes h a, s.built) refl,
      refl,
      signatures-judged c vs hash votes s d,
      rw (good-new_sig_list c vs hash s.sigs s.good) refl,
    )

-- Votes for one hash that Vote.Validate accepts, of different voters and at least a majority of them, build
-- a certificate for that hash, which QuorumCert.Validate accepts; and a node that reads the certificate's
-- message has the same certificate.
pub build_qc-accepted :
    (c : Crypto) (vs : ValidatorStore) (hash : Bytes) (votes : List Vote)
    → All (IsCast c vs hash) votes
    → Distinct (voters votes)
    → vs.majority ≤ length votes
    → 0 < length votes
    → (qc : QuorumCert) × (build_qc new_quorum_cert votes ≡ ok qc)
      × (qc_hash qc.pb ≡ hash)
      × (validate_qc c vs qc ≡ ok tt)
      × (set_qc_data c qc.pb ≡ ok qc)
build_qc-accepted c vs hash votes a d m h =
    let (qc, built, about, judged, read) = build_qc-judged c vs hash votes a d h in
    let enough : ltb (length votes) vs.majority ≡ false = ground (arith, m) in
    (qc, built, about, rw enough at judged, read)
