-- ===== src/Consensus/Creation.antt =====
-- consensus/genesis.go: what the creation of the genesis block keeps and sends. A call is an action on the
-- state, which returns, fails or panics.
use hs_blockchain.Prelude.{ℕ, Bool, true, false, Option, none, some, List, ◌∷◌, if◌then◌else◌, Map}
use hs_blockchain.Core.Crypto.{Crypto, Checked, ok, err, panic, PublicKey}
use hs_blockchain.Core.Validators.{ValidatorStore}
use hs_blockchain.Core.Certs.{QuorumCert, Vote}
use hs_blockchain.Core.Blocks.{Signer, PbBlock, Block}
use hs_blockchain.Consensus.Validator.{Result, returned, failed, panicked, out_of_fuel}

-- What the creation uses: the keys, the clock, and a peer's answer to a request for a block, before the
-- message service unmarshals it. `arrange` is the order in which Go goes through the map of votes.
pub record Setting (W : Type 0) : Type 0 where
  pub crypto : Crypto
  pub vld_store : ValidatorStore
  pub signer : Signer
  pub chain_id : ℕ
  pub now : ℕ
  pub answer : Option PublicKey → ℕ → W → Option PbBlock × W
  pub arrange : List Vote → List Vote

-- What a node sends.
pub data Sent : Type 0 where
  broadcast_proposal : Block → Sent
  send_vote : Vote → Sent
  broadcast_new_view send_new_view : QuorumCert → Sent

-- `votes` is none as long as the map is nil. `busy` says that broadcastQC runs: it holds mtxVote until
-- the creation is done.
pub record State (W : Type 0) : Type 0 where
  pub world : W
  pub b0 : Option Block
  pub q0 : Option QuorumCert
  pub votes : Option (Map Vote)
  pub done : Bool
  pub busy : Bool
  pub sent : List Sent

abbrev pub Action : Type 0 → Type 0 → Type 0
Action W A = State W → Result A × State W

abbrev pub continue : {W A B : Type 0} → Result A → State W → (A → Action W B) → Result B × State W
continue (returned a) s f = f a s
continue failed s f = (failed, s)
continue panicked s f = (panicked, s)
continue out_of_fuel s f = (out_of_fuel, s)

infixl 5 ◌>>=◌ ◌>>◌
abbrev pub ◌>>=◌ : {W A B : Type 0} → Action W A → (A → Action W B) → Action W B
m >>= f = λ s. continue (m s).0 (m s).1 f

abbrev pub ◌>>◌ : {W B : Type 0} → Action W (Unit {0}) → Action W B → Action W B
m >> k = m >>= λ _. k

-- `if failed { return an error }`
abbrev pub check : {W : Type 0} → Bool → Action W (Unit {0})
check true s = (failed, s)
check false s = (returned tt, s)

abbrev pub from_checked : {W A : Type 0} → Checked A → Action W A
from_checked (ok a) s = (returned a, s)
from_checked (err e) s = (failed, s)
from_checked panic s = (panicked, s)

-- A pointer that is used; a nil one panics.
abbrev pub pointer : {W A : Type 0} → Option A → Action W A
pointer none s = (panicked, s)
pointer (some a) s = (returned a, s)

-- A value that is there, or an error.
abbrev pub present : {W A : Type 0} → Option A → Action W A
present none s = (failed, s)
present (some a) s = (returned a, s)

abbrev pub note : {W : Type 0} → Sent → Action W (Unit {0})
note m s = (returned tt, record s { sent = m ∷ s.sent })

-- setB0 and setQ0
abbrev pub set_b0 : {W : Type 0} → Block → Action W (Unit {0})
set_b0 b s = (returned tt, record s { b0 = some b })

abbrev pub set_q0 : {W : Type 0} → QuorumCert → Action W (Unit {0})
set_q0 q s = (returned tt, record s { q0 = some q })

-- close(done), which panics the second time
unfoldable pub close_done : {W : Type 0} → Action W (Unit {0})
close_done s = if s.done then (panicked, s) else (returned tt, record s { done = true })

abbrev pub get_b0 : {W : Type 0} → Action W (Option Block)
get_b0 s = (returned s.b0, s)
