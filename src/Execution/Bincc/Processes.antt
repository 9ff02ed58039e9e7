-- ===== src/Execution/Bincc/Processes.antt =====
-- Two processes that are joined by two pipes, as exec.Cmd joins them, and the framing of their messages
-- in execution/bincc/readwriter.go. A pipe holds any number of bytes here, and a write succeeds.
use hs_blockchain.Prelude.{
  ℕ, zero, suc, ◌≡◌, Bool, true, false, Option, none, some, [], ◌∷◌, ◌++◌, Bytes, if◌then◌else◌,
  ltb, leb, length, take, drop, ◌+◌, ◌*◌, ◌/◌, ◌%◌, ◌^◌,
}
use hs_blockchain.Execution.Chaincode.{Outcome, ok, err}

pub data Process (A : Type 0) : Type 0 where
  -- the process is over, with what it leaves
  ended : A → Process A
  -- a write to the pipe
  send : Bytes → Process A → Process A
  -- io.ReadFull of so many bytes; `none` if the pipe ends before
  receive : ℕ → (Option Bytes → Process A) → Process A

-- binary.BigEndian.PutUint32
unfoldable pub be32 : ℕ → Bytes
be32 n = (n / 2 ^ 24 % 256) ∷ (n / 2 ^ 16 % 256) ∷ (n / 2 ^ 8 % 256) ∷ (n % 256) ∷ []

-- binary.BigEndian.Uint32; ReadFull gave four bytes.
unfoldable pub be32_value : Bytes → ℕ
be32_value (a ∷ b ∷ c ∷ d ∷ rest) = ((a * 256 + b) * 256 + c) * 256 + d
be32_value _ = 0

abbrev pub message_size_limit : ℕ
message_size_limit = 100000000

-- The error of a read: of the pipe, or for a big message.
abbrev pub read_error : Bytes
read_error = []

module _ {A : Type 0} where
  -- readWriter.write; a length is an uint32.
  unfoldable pub write_message : Bytes → Process A → Process A
  unfolding be32
  write_message b rest = send (be32 (length b % 2 ^ 32) ++ b) rest

  -- readFixedSize
  unfoldable pub read_fixed_size : ℕ → (Outcome Bytes → Process A) → Process A
  read_fixed_size size rest =
      receive size (λ o. elim o [ none ↦ rest (err read_error) | some b ↦ rest (ok b) ])

  -- The second half of readWriter.read.
  unfoldable pub read_body : (Outcome Bytes → Process A) → Outcome Bytes → Process A
  unfolding read_fixed_size be32_value
  read_body rest (err e) = rest (err e)
  read_body rest (ok b) =
      let size = be32_value b in
      if ltb message_size_limit size then rest (err read_error) else read_fixed_size size rest

  -- readWriter.read
  unfoldable pub read_message : (Outcome Bytes → Process A) → Process A
  unfolding read_body read_fixed_size
  read_message rest = read_fixed_size 4 (read_body rest)

  unfoldable pub has_ended : Process A → Bool
  has_ended (ended a) = true
  has_ended (send b rest) = false
  has_ended (receive size rest) = false

  -- One step of a process, if it can make one: the rest of it, what is left in the pipe that it reads,
  -- and what it writes. The flag says that the process at the other end is over.
  unfoldable pub advance : Bool → Process A → Bytes → Option (Process A × Bytes × Bytes)
  advance closed (ended a) pipe = none
  advance closed (send b rest) pipe = some (rest, pipe, b)
  advance closed (receive size rest) pipe =
      if leb size (length pipe)
      then some (rest (some (take size pipe)), drop size pipe, [])
      else if closed
      then some (rest none, [], [])
      else none

-- The two processes, and the bytes on the way to each.
pub record Pair (A B : Type 0) : Type 0 where
  pub left : Process A
  pub right : Process B
  pub to_left : Bytes
  pub to_right : Bytes

module _ {A B : Type 0} where
  unfoldable pub after_left : Pair A B → Process A × Bytes × Bytes → Pair A B
  after_left s (p, rest, out) = record s { left = p; to_left = rest; to_right = s.to_right ++ out }

  unfoldable pub after_right : Pair A B → Process B × Bytes × Bytes → Pair A B
  after_right s (p, rest, out) = record s { right = p; to_right = rest; to_left = s.to_left ++ out }

  -- A step of the left process (true) or of the right one.
  unfoldable pub step : Bool → Pair A B → Option (Pair A B)
  unfolding has_ended advance after_left after_right
  step true s = elim (advance (has_ended s.right) s.left s.to_left) [
    | none ↦ none
    | some q ↦ some (after_left s q)
  ]
  step false s = elim (advance (has_ended s.left) s.right s.to_right) [
    | none ↦ none
    | some q ↦ some (after_right s q)
  ]

  -- So many steps lead from one state to the other, in some order.
  abbrev pub Steps : ℕ → Pair A B → Pair A B → Type 0
  Steps zero s z = s ≡ z
  Steps (suc n) s z = (b : Bool) × (t : Pair A B) × (step b s ≡ some t) × Steps n t z
