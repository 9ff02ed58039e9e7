-- ===== src/Execution/Bincc/Messages.antt =====
-- execution/bincc/types.go: the messages between the node and the process of a chaincode, with
-- encoding/json and fmt.Errorf as parameters. A nil key is as the empty one.
use hs_blockchain.Prelude.{ℕ, Bytes, ◌≡◌, []}
use hs_blockchain.Execution.Tracker.{Value}
use hs_blockchain.Execution.Chaincode.{Outcome, ok}

pub data CallType : Type 0 where
  init invoke query : CallType

pub record CallData : Type 0 where
  pub input : Bytes
  pub sender : Value
  pub block_hash : Bytes
  pub block_height : ℕ
  pub call_type : CallType

-- UpStreamType is an int, so a process may send any number.
abbrev pub up_stream_get_state : ℕ
up_stream_get_state = 0

abbrev pub up_stream_set_state : ℕ
up_stream_set_state = 1

abbrev pub up_stream_result : ℕ
up_stream_result = 2

pub record UpStream : Type 0 where
  pub key : Bytes
  pub value : Value
  pub error : Bytes
  pub up_type : ℕ

pub record DownStream : Type 0 where
  pub value : Value
  pub error : Bytes

pub record Library : Type 0 where
  -- json.Marshal and json.Unmarshal
  pub encode_call : CallData → Bytes
  pub decode_call : Bytes → Outcome CallData
  pub encode_up : UpStream → Bytes
  pub decode_up : Bytes → Outcome UpStream
  pub encode_down : DownStream → Bytes
  pub decode_down : Bytes → Outcome DownStream
  -- the text of fmt.Errorf with this format and no values
  pub errorf : Bytes → Bytes

-- What encoding/json documents: byte slices and numbers come back as they were. A string that is not
-- UTF-8 comes back with replacement characters, so `text` says what a string comes back as.
pub record IsJson (lib : Library) (text : Bytes → Bytes) : Type 0 where
  pub text_empty : text [] ≡ []
  pub call_back : (d : CallData) → lib.decode_call (lib.encode_call d) ≡ ok d
  pub up_back :
      (u : UpStream) → lib.decode_up (lib.encode_up u) ≡ ok (record u { error = text u.error })
  pub down_back :
      (d : DownStream)
      → lib.decode_down (lib.encode_down d) ≡ ok (record d { error = text d.error })
