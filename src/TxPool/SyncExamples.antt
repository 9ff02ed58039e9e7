-- ===== src/TxPool/SyncExamples.antt =====
-- A pool that lacks the one transaction of a block, and a peer that has it.
use hs_blockchain.Prelude.{true, false, none, some, [], ◌∷◌, replicate}
use hs_blockchain.Core.Crypto.{Crypto}
use hs_blockchain.Core.Blocks.{Transaction}
use hs_blockchain.TxPool.Sync.{Pool}

abbrev trusting : Crypto
trusting = record { verify = λ key msg value. true; sha3 = λ b. 9 ∷ []; base64 = λ b. b }

abbrev lacking : Transaction
lacking = record {
  pb = some (record {
    hash = 9 ∷ [];
    nonce = 0;
    sender = replicate 32 7;
    code_addr = [];
    input = [];
    expiry = 0;
    signature = [];
  });
  sender = none;
}

abbrev helped : Pool
helped = record {
  crypto = trusting;
  has_tx = λ h. false;
  verify_tx = λ tx. true;
  request_tx_list = λ peer hs. some (lacking ∷ []);
  now = 4;
  arrive = λ txs. txs;
}
