-- ===== src/JuriaCoin/Coin.antt =====
-- chaincodes/juriacoin/juria_coin.go: the chaincode as a tree of its reads and writes. An int64 is
-- held as its bit pattern, a number below 2^64.
use hs_blockchain.Prelude.{
  ℕ, Bool, Option, none, some, [], ◌∷◌, Bytes, bytes_eq, if◌then◌else◌, not, ltb, ◌+◌, ◌-◌, ◌*◌,
  ◌%◌, ◌^◌,
}
use hs_blockchain.Core.Crypto.{be64}
use hs_blockchain.Execution.Tracker.{Value}
use hs_blockchain.Execution.Chaincode.{Program, done, get, put, CallContext, Chaincode}
use hs_blockchain.Execution.TxExecuter.{Outcome, ok, err}

pub record Input : Type 0 where
  pub method : Bytes
  pub dest : Bytes
  pub value : ℕ

-- What is not in the file: the JSON decoder of parseInput with its error, the encoder, the texts of the errors
-- and of the panic of an index out of range.
pub record Host : Type 0 where
  pub parse_input : Bytes → Outcome Input
  pub not_minter : Bytes
  pub not_enough : Bytes
  pub no_method : Bytes
  pub out_of_range : Bytes
  -- json.Marshal of an int64
  pub number : ℕ → Bytes

-- "setMinter", "mint" and "transfer"
abbrev pub method_set_minter : Bytes
method_set_minter = 115 ∷ 101 ∷ 116 ∷ 77 ∷ 105 ∷ 110 ∷ 116 ∷ 101 ∷ 114 ∷ []

abbrev pub method_mint : Bytes
method_mint = 109 ∷ 105 ∷ 110 ∷ 116 ∷ []

abbrev pub method_transfer : Bytes
method_transfer = 116 ∷ 114 ∷ 97 ∷ 110 ∷ 115 ∷ 102 ∷ 101 ∷ 114 ∷ []

-- "minter", "total" and "balance"
abbrev pub method_minter : Bytes
method_minter = 109 ∷ 105 ∷ 110 ∷ 116 ∷ 101 ∷ 114 ∷ []

abbrev pub method_total : Bytes
method_total = 116 ∷ 111 ∷ 116 ∷ 97 ∷ 108 ∷ []

abbrev pub method_balance : Bytes
method_balance = 98 ∷ 97 ∷ 108 ∷ 97 ∷ 110 ∷ 99 ∷ 101 ∷ []

-- keyMinter and keyTotal
abbrev pub key_minter : Bytes
key_minter = 109 ∷ 105 ∷ 110 ∷ 116 ∷ 101 ∷ 114 ∷ []

abbrev pub key_total : Bytes
key_total = 116 ∷ 111 ∷ 116 ∷ 97 ∷ 108 ∷ []

-- Sum, difference and order of int64.
unfoldable pub add64 : ℕ → ℕ → ℕ
add64 a b = (a + b) % 2 ^ 64

unfoldable pub sub64 : ℕ → ℕ → ℕ
sub64 a b = (a + (2 ^ 64 - b)) % 2 ^ 64

unfoldable pub less64 : ℕ → ℕ → Bool
less64 a b = ltb ((a + 2 ^ 63) % 2 ^ 64) ((b + 2 ^ 63) % 2 ^ 64)

-- decodeBalance: 0 for nil, a panic for less than eight bytes, and no look at a ninth.
unfoldable pub decode_balance : Value → Option ℕ
decode_balance none = some 0
decode_balance (some (b7 ∷ b6 ∷ b5 ∷ b4 ∷ b3 ∷ b2 ∷ b1 ∷ b0 ∷ _)) = some (
    b7 * 2 ^ 56
    + b6 * 2 ^ 48
    + b5 * 2 ^ 40
    + b4 * 2 ^ 32
    + b3 * 2 ^ 24
    + b2 * 2 ^ 16
    + b1 * 2 ^ 8
    + b0)
decode_balance (some _) = none

-- encodeBalance
unfoldable pub encode_balance : ℕ → Value
unfolding be64
encode_balance value = some (be64 value)

-- bytes.Equal and a key out of a nil slice: nil is as the empty one.
abbrev pub bytes_of : Value → Bytes
bytes_of none = []
bytes_of (some b) = b

module _ (host : Host) where
  -- A balance read from the state. A panic of the chaincode is the error of the transaction.
  unfoldable pub get_balance : Bytes → (ℕ → Program (Option Bytes)) → Program (Option Bytes)
  unfolding decode_balance
  get_balance key rest = get key (λ v. elim (decode_balance v) [
    | none ↦ done (some host.out_of_range)
    | some balance ↦ rest balance
  ])

  -- Init
  unfoldable pub init_coin : CallContext → Program (Option Bytes)
  init_coin ctx = put key_minter ctx.sender (done none)

  -- invokeSetMinter
  unfoldable pub invoke_set_minter : CallContext → Input → Program (Option Bytes)
  invoke_set_minter ctx input = get key_minter (λ minter.
      if not (bytes_eq (bytes_of minter) (bytes_of ctx.sender))
      then done (some host.not_minter)
      else put key_minter (some input.dest) (done none))

  -- invokeMint
  unfoldable pub invoke_mint : CallContext → Input → Program (Option Bytes)
  unfolding get_balance add64 encode_balance
  invoke_mint ctx input = get key_minter (λ minter.
      if not (bytes_eq (bytes_of minter) (bytes_of ctx.sender))
      then done (some host.not_minter)
      else get_balance key_total (λ total. get_balance input.dest (λ balance.
        put key_total (encode_balance (add64 total input.value))
          (put input.dest (encode_balance (add64 balance input.value)) (done none)))))

  -- invokeTransfer
  unfoldable pub invoke_transfer : CallContext → Input → Program (Option Bytes)
  unfolding get_balance add64 sub64 less64 encode_balance
  invoke_transfer ctx input = get_balance (bytes_of ctx.sender) (λ bsctx.
      if less64 bsctx input.value
      then done (some host.not_enough)
      else get_balance input.dest (λ bdes.
        put (bytes_of ctx.sender) (encode_balance (sub64 bsctx input.value))
          (put input.dest (encode_balance (add64 bdes input.value)) (done none))))

  unfoldable pub invoke_method : CallContext → Input → Program (Option Bytes)
  unfolding invoke_set_minter invoke_mint invoke_transfer
  invoke_method ctx input =
      if bytes_eq input.method method_set_minter
      then invoke_set_minter ctx input
      else if bytes_eq input.method method_mint
      then invoke_mint ctx input
      else if bytes_eq input.method method_transfer
      then invoke_transfer ctx input
      else done (some host.no_method)

  -- Invoke
  unfoldable pub invoke_coin : CallContext → Program (Option Bytes)
  unfolding invoke_method
  invoke_coin ctx = elim (host.parse_input ctx.input) [
    | err e ↦ done (some e)
    | ok input ↦ invoke_method ctx input
  ]

  -- queryTotal and queryBalance: the balance of a key, written by the JSON encoder.
  unfoldable pub query_balance : Bytes → Program (Outcome Value)
  unfolding decode_balance
  query_balance key = get key (λ v. elim (decode_balance v) [
    | none ↦ done (err host.out_of_range)
    | some balance ↦ done (ok (some (host.number balance)))
  ])

  unfoldable pub query_method : Input → Program (Outcome Value)
  unfolding query_balance
  query_method input =
      if bytes_eq input.method method_minter
      then get key_minter (λ v. done (ok v))
      else if bytes_eq input.method method_total
      then query_balance key_total
      else if bytes_eq input.method method_balance
      then query_balance input.dest
      else done (err host.no_method)

  -- Query
  unfoldable pub query_coin : CallContext → Program (Outcome Value)
  unfolding query_method
  query_coin ctx = elim (host.parse_input ctx.input) [
    | err e ↦ done (err e)
    | ok input ↦ query_method input
  ]

  unfoldable pub juria_coin : Chaincode
  unfolding init_coin invoke_coin query_coin
  juria_coin = record { init = init_coin; invoke = invoke_coin; query = query_coin }
