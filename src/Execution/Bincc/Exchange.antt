-- ===== src/Execution/Bincc/Exchange.antt =====
-- A message from one process to the other and its answer, step by step.
use hs_blockchain.Prelude.{
  ℕ, ◌≡◌, refl, sym, subst, Bool, true, false, some, [], ◌++◌, Bytes, if◌then◌else◌, leb, ltb,
  length, ◌%◌, ◌^◌, ◌≤◌, arith, take-length, drop-length,
}
use hs_blockchain.Execution.Chaincode.{Outcome, ok}
use hs_blockchain.Execution.Bincc.Processes.{
  Process, be32, be32_value, message_size_limit, write_message, read_fixed_size, read_body,
  read_message, has_ended, advance, Pair, after_left, after_right, step, Steps,
}
use hs_blockchain.Execution.Bincc.Orders.{Steps-trans}

-- Two processes with nothing on the way between them.
abbrev pub pair : {A B : Type 0} → Process A → Process B → Pair A B
pair p q = record { left = p; right = q; to_left = []; to_right = [] }

-- The message is not bigger than readWriter.read allows.
abbrev pub IsShort : Bytes → Type 0
IsShort b = length b ≤ message_size_limit

be32_value-be32 : (n : ℕ) → n ≤ message_size_limit → be32_value (be32 (n % 2 ^ 32)) ≡ n
unfolding be32_value be32
be32_value-be32 n h = omega arith

unfoldable pub frame : Bytes → Bytes
frame b = be32 (length b % 2 ^ 32) ++ b

module _ {A : Type 0} where
  advance-frame :
      (c : Bool) (h : Outcome Bytes → Process A) (b : Bytes)
      → advance c (read_message h) (frame b)
        ≡ some (read_body h (ok (be32 (length b % 2 ^ 32))), b, [])
  unfolding advance read_message read_fixed_size frame be32
  advance-frame c h b = ground arith

  advance-body :
      (c : Bool) (h : Outcome Bytes → Process A) (b : Bytes)
      → IsShort b
      → advance c (read_body h (ok (be32 (length b % 2 ^ 32)))) b ≡ some (h (ok b), [], [])
  unfolding advance read_body read_fixed_size
  advance-body c h b short =
      let not_big : ltb message_size_limit (length b) ≡ false = ground (arith, short) in
      let all_there : leb (length b) (length b) ≡ true = ground arith in
      rw
        (
          be32_value-be32 (length b) short,
          not_big,
          if◌then◌else◌,
          all_there,
          take-length b,
          drop-length b,
        )
        refl

module _ {A B : Type 0} where
  -- A message from the left process to the right one.
  pub to_the_right :
      (b : Bytes) (p : Process A) (h : Outcome Bytes → Process B)
      → IsShort b
      → Steps 3 (pair (write_message b p) (read_message h)) (pair p (h (ok b)))
  unfolding step write_message frame has_ended after_left after_right
  to_the_right b p h short = (
    true,
    record { left = p; right = read_message h; to_left = []; to_right = frame b },
    unfold advance in refl,
    (
      false,
      record {
        left = p;
        right = read_body h (ok (be32 (length b % 2 ^ 32)));
        to_left = [];
        to_right = b;
      },
      rw (advance-frame (has_ended p) h b, step) refl,
      (false, pair p (h (ok b)), rw (advance-body (has_ended p) h b short, step) refl, refl),
    ),
  )

  pub to_the_left :
      (b : Bytes) (h : Outcome Bytes → Process A) (p : Process B)
      → IsShort b
      → Steps 3 (pair (read_message h) (write_message b p)) (pair (h (ok b)) p)
  unfolding step write_message frame has_ended after_left after_right
  to_the_left b h p short = (
    false,
    record { left = read_message h; right = p; to_left = frame b; to_right = [] },
    unfold advance in refl,
    (
      true,
      record {
        left = read_body h (ok (be32 (length b % 2 ^ 32)));
        right = p;
        to_left = b;
        to_right = [];
      },
      rw (advance-frame (has_ended p) h b, step) refl,
      (true, pair (h (ok b)) p, rw (advance-body (has_ended p) h b short, step) refl, refl),
    ),
  )

  -- A message to the right, and its answer.
  pub exchange :
      (b d : Bytes) (lft : Outcome Bytes → Process A) (rgt : Outcome Bytes → Process B)
      (p : Process B)
      → IsShort b
      → IsShort d
      → rgt (ok b) ≡ write_message d p
      → Steps 6 (pair (write_message b (read_message lft)) (read_message rgt)) (pair (lft (ok d)) p)
  exchange b d lft rgt p sb sd e =
      Steps-trans 3 3 _ (pair (read_message lft) (rgt (ok b))) _
        (to_the_right b (read_message lft) rgt sb)
        (subst (λ x. Steps 3 (pair (read_message lft) x) (pair (lft (ok d)) p)) (sym e)
          (to_the_left d lft p sd))
