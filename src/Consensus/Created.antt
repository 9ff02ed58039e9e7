-- ===== src/Consensus/Created.antt =====
-- consensus/genesis.go: what a node has when the creation of the genesis block is done.
use hs_blockchain.Prelude.{
  ℕ, ◌≡◌, refl, sym, ◌∙◌, Bool, true, false, not, Option, none, some, Bytes, bytes_eq, bytes_eq_iff,
  arith,
}
use hs_blockchain.Core.Crypto.{Crypto, Checked, ok, err, panic, PublicKey}
use hs_blockchain.Core.Validators.{ValidatorStore}
use hs_blockchain.Core.Certs.{PbQuorumCert, QuorumCert, bytes_or_empty, validate_qc}
use hs_blockchain.Core.Blocks.{
  PbBlock, Block, is_genesis, validate_block, validate_block_qc, set_block_data,
}
use hs_blockchain.Consensus.Validator.{returned}
use hs_blockchain.Consensus.Creation.{
  Setting, State, Action, ◌>>=◌, ◌>>◌, check, from_checked, pointer, present, close_done,
}
use hs_blockchain.Consensus.Genesis.{unmarshal_answer, request_valid_block, fetch_genesis}

-- A certificate that is accepted, and the block of height 0 that it is about.
pub record IsCertified (c : Crypto) (vs : ValidatorStore) (b : Block) (q : QuorumCert)
    : Type 0 where
  pub pb : PbBlock
  pub pq : PbQuorumCert
  pub block_pb : b.pb ≡ some pb
  pub cert_pb : q.pb ≡ some pq
  pub first : pb.height ≡ 0
  pub valid : validate_qc c vs q ≡ ok tt
  pub same : pb.hash ≡ bytes_or_empty pq.block_hash

-- A state can end a call, or the call goes on from it: the calls that leave the state as it is.
module _ {W : Type 0} (Q : State W → Type 0) (s : State W) where
  module _ {A B : Type 0} (f : A → Action W B) where
    pub from_checked-rule :
        (c : Checked A) → Q s → ((a : A) → c ≡ ok a → Q (f a s).1) → Q ((from_checked c >>= f) s).1
    from_checked-rule (ok a) q h = h a refl
    from_checked-rule (err e) q h = q
    from_checked-rule panic q h = q

    pub pointer-rule :
        (o : Option A) → Q s → ((a : A) → o ≡ some a → Q (f a s).1) → Q ((pointer o >>= f) s).1
    pointer-rule none q h = q
    pointer-rule (some a) q h = h a refl

    pub present-rule :
        (o : Option A) → Q s → ((a : A) → o ≡ some a → Q (f a s).1) → Q ((present o >>= f) s).1
    present-rule none q h = q
    present-rule (some a) q h = h a refl

  pub check-rule :
      {B : Type 0} (m : Action W B) (b : Bool)
      → Q s
      → (b ≡ false → Q (m s).1)
      → Q ((check b >> m) s).1
  check-rule m true q h = q
  check-rule m false q h = h refl

-- The certificate of a block that is unmarshalled and validated is validated with it.
certificate-valid :
    (c : Crypto) (vs : ValidatorStore) (pb : PbBlock) (b : Block) (q : QuorumCert)
    → set_block_data c pb ≡ ok b
    → validate_block c vs b ≡ ok tt
    → b.quorum_cert ≡ some q
    → validate_qc c vs q ≡ ok tt
unfolding set_block_data validate_block validate_block_qc
certificate-valid c vs pb b q set valid e = ground (arith, set, valid, e)

module _ {W : Type 0} (r : Setting W) where
  -- The block is of height 0, and when the creation is done there is a certificate for it.
  pub record IsFine (s : State W) : Type 0 where
    pub heights : (b : Block) → s.b0 ≡ some b → (pb : PbBlock) → b.pb ≡ some pb → pb.height ≡ 0
    pub certified :
        s.done ≡ true
        → (b : Block) × (q : QuorumCert) × (s.b0 ≡ some b)
          × (s.q0 ≡ some q)
          × IsCertified r.crypto r.vld_store b q

  -- A state that is not done, with a block of height 0.
  pub running :
      (s : State W)
      → s.done ≡ false
      → ((b : Block) → s.b0 ≡ some b → (pb : PbBlock) → b.pb ≡ some pb → pb.height ≡ 0)
      → IsFine s
  running s open' heights = record { heights = heights; certified = λ h. cc }

  -- A new block of height 0, before the creation is done.
  pub with_block :
      (s : State W) (b : Block) (pb : PbBlock)
      → s.done ≡ false
      → b.pb ≡ some pb
      → pb.height ≡ 0
      → IsFine (record s { b0 = some b })
  with_block s b pb open' e h =
      running (record s { b0 = some b }) open' (λ b' e' pb' e''. height b' e' pb' e'')
    where
      height : (b' : Block) → some b ≡ some b' → (pb' : PbBlock) → b'.pb ≡ some pb' → pb'.height ≡ 0
      height b' e' pb' e'' = ground (arith, e, h, e', e'')

  -- The end of the creation.
  done-IsFine :
      (s : State W) (b : Block) (q : QuorumCert)
      → s.b0 ≡ some b
      → s.q0 ≡ some q
      → IsCertified r.crypto r.vld_store b q
      → IsFine (record s { done = true })
  done-IsFine s b q eb eq c = record {
    heights = λ b' e' pb' e''. height b' e' pb' e'';
    certified = λ _. (b, q, eb, eq, c);
  }
    where
      height : (b' : Block) → s.b0 ≡ some b' → (pb' : PbBlock) → b'.pb ≡ some pb' → pb'.height ≡ 0
      height b' e' pb' e'' = ground (arith, c.block_pb, c.first, eb, e', e'')

  -- The other fields do not matter.
  pub same_parts :
      (s : State W) (t : State W)
      → s.b0 ≡ t.b0
      → s.q0 ≡ t.q0
      → s.done ≡ t.done
      → IsFine s
      → IsFine t
  same_parts s t eb eq ed i = record {
    heights = λ b e. i.heights b (eb ∙ e);
    certified = λ d. moved (i.certified (ed ∙ d));
  }
    where
      moved :
          (b : Block) × (q : QuorumCert) × (s.b0 ≡ some b)
            × (s.q0 ≡ some q)
            × IsCertified r.crypto r.vld_store b q
          → (b : Block) × (q : QuorumCert) × (t.b0 ≡ some b)
            × (t.q0 ≡ some q)
            × IsCertified r.crypto r.vld_store b q
      moved (b, q, e, e', c) = (b, q, sym eb ∙ e, sym eq ∙ e', c)

  module _ {B : Type 0} (f : Block → Action W B) (s : State W) (i : IsFine s)
      (h : (b : Block) (pb : PbBlock)
        → set_block_data r.crypto pb ≡ ok b
        → validate_block r.crypto r.vld_store b ≡ ok tt
        → IsFine (f b s).1) where
    after_validation :
        (b : Block) (pb : PbBlock) (c : Checked (Unit {0}))
        → set_block_data r.crypto pb ≡ ok b
        → validate_block r.crypto r.vld_store b ≡ c
        → IsFine (((from_checked c >> λ s'. (returned b, s')) >>= f) s).1
    after_validation b pb (ok _) e v = h b pb e v
    after_validation b pb (err _) e v = i
    after_validation b pb panic e v = i

    after_unmarshal :
        (pb : PbBlock) (c : Checked Block)
        → set_block_data r.crypto pb ≡ c
        → IsFine
            (((from_checked c >>= λ b.
                  from_checked (validate_block r.crypto r.vld_store b) >> λ s'. (returned b, s'))
                >>= f)
              s).1
    after_unmarshal pb (ok b) e =
        after_validation b pb (validate_block r.crypto r.vld_store b) e refl
    after_unmarshal pb (err _) e = i
    after_unmarshal pb panic e = i

    after_answer :
        (o : Option PbBlock)
        → IsFine
            (((unmarshal_answer r o >>= λ b.
                  from_checked (validate_block r.crypto r.vld_store b) >> λ s'. (returned b, s'))
                >>= f)
              s).1
    unfolding unmarshal_answer
    after_answer none = i
    after_answer (some pb) = after_unmarshal pb (set_block_data r.crypto pb) refl

  request-rule :
      {B : Type 0} (f : Block → Action W B) (peer : Option PublicKey) (height : ℕ) (s : State W)
      → IsFine s
      → ((w : W) (b : Block) (pb : PbBlock)
          → set_block_data r.crypto pb ≡ ok b
          → validate_block r.crypto r.vld_store b ≡ ok tt
          → IsFine (f b (record s { world = w })).1)
      → IsFine ((request_valid_block r peer height >>= f) s).1
  unfolding request_valid_block
  request-rule f peer height s i h =
      let a = r.answer peer height s.world in
      after_answer f (record s { world = a.1 })
        (same_parts s (record s { world = a.1 }) refl refl refl i) (h a.1) a.0

  -- close(done), at the end of a handler that has set the block and the certificate.
  pub close-IsFine :
      (s : State W) (b : Block) (q : QuorumCert)
      → s.done ≡ false
      → s.b0 ≡ some b
      → s.q0 ≡ some q
      → IsCertified r.crypto r.vld_store b q
      → IsFine (close_done s).1
  unfolding close_done
  close-IsFine s b q open' eb eq c = rw open' (done-IsFine s b q eb eq c)

  pub zero_of : (pb : PbBlock) → not (is_genesis pb) ≡ false → pb.height ≡ 0
  zero_of pb e = ground (arith, e)

  pub same_hash : (a b : Bytes) → not (bytes_eq a b) ≡ false → a ≡ b
  same_hash a b e = ground (arith, e, bytes_eq_iff a b)

  pub fetch-IsFine :
      (peer : Option PublicKey) (s : State W)
      → s.done ≡ false
      → IsFine s
      → IsFine (fetch_genesis r peer s).1
  unfolding fetch_genesis
  fetch-IsFine peer s open' i = request-rule _ peer 0 s i (λ w b0 m0 e0 v0.
      let i' = same_parts s (record s { world = w }) refl refl refl i in
      pointer-rule IsFine (record s { world = w }) _ b0.pb i'
        (λ pb0 ep.
          check-rule IsFine (record s { world = w }) _ (not (is_genesis pb0)) i'
            (λ g.
              request-rule _ peer 1 (record s { world = w }) i'
                (λ w1 b1 m1 e1 v1.
                  let s1 = record s { world = w1 } in
                  let i1 = same_parts s s1 refl refl refl i in
                  pointer-rule IsFine s1 _ b1.quorum_cert i1 (λ qc eqc.
                    pointer-rule IsFine s1 _ qc.pb i1 (λ pq epq.
                      check-rule IsFine s1 _
                        (not (bytes_eq pb0.hash (bytes_or_empty pq.block_hash))) i1
                        (λ h.
                          close-IsFine (record s1 { b0 = some b0; q0 = some qc }) b0 qc open' refl
                            refl
                            (record {
                              pb = pb0;
                              pq = pq;
                              block_pb = ep;
                              cert_pb = epq;
                              first = zero_of pb0 g;
                              valid = certificate-valid r.crypto r.vld_store m1 b1 qc e1 v1 eqc;
                              same = same_hash pb0.hash (bytes_or_empty pq.block_hash) h;
                            }))))))))
