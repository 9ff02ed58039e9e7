-- ===== src/Core/Certs.antt =====
-- core/quorum_cert.go and core/vote.go.
use hs_blockchain.Prelude.{not, Option, none, some, List, [], ◌∷◌, Bytes, length, ltb, map}
use hs_blockchain.Core.Crypto.{
  Crypto, CoreError, Checked, ok, err, panic, ◌>>=◌, ◌>>◌, check, PublicKey, PbSignature, Signature,
  new_signature, verify_signature, new_sig_list, has_invalid_sig, has_duplicate,
}
use hs_blockchain.Core.Validators.{ValidatorStore, is_validator, has_invalid_validator}

-- core_pb.QuorumCert; `none` is a nil hash or a nil signature.
pub record PbQuorumCert : Type 0 where
  pub block_hash : Option Bytes
  pub signatures : List (Option PbSignature)

pub record QuorumCert : Type 0 where
  pub pb : Option PbQuorumCert
  pub sigs : List Signature

-- core_pb.Vote
pub record PbVote : Type 0 where
  pub block_hash : Option Bytes
  pub signature : Option PbSignature

pub record Vote : Type 0 where
  pub pb : Option PbVote
  pub voter : Option PublicKey

-- BlockHash of a vote
abbrev pub vote_hash : Vote → Option Bytes
vote_hash vote = elim (vote.pb) [ none ↦ none | some pb ↦ pb.block_hash ]

-- A nil slice is read as the empty one.
abbrev pub bytes_or_empty : Option Bytes → Bytes
bytes_or_empty none = []
bytes_or_empty (some b) = b

unfoldable pub new_quorum_cert : QuorumCert
new_quorum_cert = record { pb = some (record { block_hash = none; signatures = [] }); sigs = [] }

module _ (c : Crypto) where
  -- QuorumCert.Validate
  unfoldable pub validate_qc : ValidatorStore → QuorumCert → Checked (Unit {0})
  unfolding has_duplicate has_invalid_validator has_invalid_sig
  validate_qc vs qc = elim (qc.pb) [
    | none ↦ err CoreError.nil_qc
    | some pb ↦ do
      check (ltb (length qc.sigs) vs.majority) CoreError.not_enough_sig
      check (has_duplicate qc.sigs) CoreError.duplicate_sig
      check (has_invalid_validator vs qc.sigs) CoreError.invalid_validator
      check (has_invalid_sig c (bytes_or_empty pb.block_hash) qc.sigs) CoreError.invalid_sig
      ok tt
  ]

  -- QuorumCert.setData: a nil message is a nil pointer at its field.
  unfoldable pub set_qc_data : Option PbQuorumCert → Checked QuorumCert
  unfolding new_sig_list
  set_qc_data none = panic
  set_qc_data (some pb) = do
    sigs ← new_sig_list c pb.signatures
    ok (record { pb = some pb; sigs = sigs })

  -- Vote.Validate
  unfoldable pub validate_vote : ValidatorStore → Vote → Checked (Unit {0})
  unfolding new_signature is_validator verify_signature
  validate_vote vs vote = elim (vote.pb) [
    | none ↦ err CoreError.nil_vote
    | some pb ↦ do
      sig ← new_signature c pb.signature
      check (not (is_validator vs (some sig.pub_key))) CoreError.invalid_validator
      check (not (verify_signature c sig (bytes_or_empty pb.block_hash))) CoreError.invalid_sig
      ok tt
  ]

  -- Vote.setData
  unfoldable pub set_vote_data : Option PbVote → Checked Vote
  unfolding new_signature
  set_vote_data none = panic
  set_vote_data (some pb) = do
    sig ← new_signature c pb.signature
    ok (record { pb = some pb; voter = some sig.pub_key })

-- One round of the loop of QuorumCert.Build, and the signatures of the later votes. A vote without a
-- signature or a voter, which setData refuses, panics here; the code panics when it reads the key.
unfoldable pub vote_signature : Vote → Checked (PbVote × Signature)
vote_signature vote = elim (vote.pb) [
  | none ↦ panic
  | some pb ↦ elim (pb.signature) [
    | none ↦ panic
    | some sig ↦ elim (vote.voter) [
      | none ↦ panic
      | some key ↦ ok (pb, record { pb = sig; pub_key = key })
    ]
  ]
]

-- `if qc.data.BlockHash == nil { qc.data.BlockHash = hash }`
abbrev pub or_hash : Option Bytes → Option Bytes → Option Bytes
or_hash (some h) hash = some h
or_hash none hash = hash

-- QuorumCert.Build: the certificate's hash is the first vote's that has one.
unfoldable pub build_loop : List Vote → Option Bytes → Checked (Option Bytes × List Signature)
unfolding vote_signature
build_loop [] hash = ok (hash, [])
build_loop (vote ∷ votes) hash = do
  (pb, sig) ← vote_signature vote
  (hash', sigs) ← build_loop votes (or_hash hash pb.block_hash)
  ok (hash', sig ∷ sigs)

unfoldable pub build_qc : QuorumCert → List Vote → Checked QuorumCert
unfolding build_loop
build_qc qc votes = elim (qc.pb) [
  | none ↦ panic
  | some pb ↦ do
    (hash, sigs) ← build_loop votes pb.block_hash
    ok (record {
      pb = some (record { block_hash = hash; signatures = map (λ s. some s.pb) sigs });
      sigs = sigs;
    })
]
