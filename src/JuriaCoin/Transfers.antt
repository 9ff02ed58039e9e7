-- ===== src/JuriaCoin/Transfers.antt =====
-- What a transfer of chaincodes/juriacoin/juria_coin.go does to the balances.
use hs_blockchain.Prelude.{
  ℕ, ◌≡◌, ◌∙◌, refl, sym, ap, subst, lookup, ◌++◌, Bool-cases, Option-cases, Option, none, some,
  Bytes, bytes_eq, bytes_eq_iff, bytes_eq_refl, if◌then◌else◌, inl, inr, ◌⊎◌, arith, true, false,
  ◌<◌, ◌^◌,
}
use hs_blockchain.Execution.Tracker.{Value, Tracker, Getter, track, get_state, set_state, write}
use hs_blockchain.Execution.Chaincode.{Program, done, CallContext, run_program}
use hs_blockchain.JuriaCoin.Coin.{
  Input, Host, add64, sub64, less64, decode_balance, encode_balance, bytes_of, get_balance,
  invoke_transfer,
}
use hs_blockchain.JuriaCoin.Values.{
  value_at, get_state-value_at, IsStill, IsStill-get_state, value_at-get_state, value_at-set_state,
}

pub decode_balance-encode_balance :
    (n : ℕ) → n < 2 ^ 64 → decode_balance (encode_balance n) ≡ some n
unfolding decode_balance encode_balance
decode_balance-encode_balance n h = ap some (omega arith)

-- The sums and differences of a transfer cancel out.
add64-sub64 :
    (a b v : ℕ) → a < 2 ^ 64 → b < 2 ^ 64 → v < 2 ^ 64 → add64 (sub64 a v) (add64 b v) ≡ add64 a b
unfolding add64 sub64
add64-sub64 a b v ha hb hv = omega arith

add64-lt : (a b : ℕ) → add64 a b < 2 ^ 64
unfolding add64
add64-lt a b = omega arith

sub64-lt : (a b : ℕ) → sub64 a b < 2 ^ 64
unfolding sub64
sub64-lt a b = omega arith

-- There is a tracker on top, which takes the writes.
abbrev pub IsTracked : Getter → Type 0
IsTracked g = (t : Tracker) × (h : Getter) × (g ≡ track t h)

IsTracked-get_state : (key : Bytes) (g : Getter) → IsTracked g → IsTracked (get_state key g).1
unfolding get_state
IsTracked-get_state key g (t, h, e) =
    subst (λ x. IsTracked (get_state key x).1) (sym e)
      (elim (Option-cases (lookup (t.key_prefix ++ key) t.changes)) [
        | inl m ↦ rw (m, get_state) (_, _, refl)
        | inr (v, m) ↦ rw (m, get_state) (_, _, refl)
      ])

value_at-write :
    (j key : Bytes) (v : Value) (g : Getter)
    → IsTracked g
    → value_at j (set_state key v g) ≡ (if bytes_eq key j then v else value_at j g)
value_at-write j key v g (t, h, e) =
    subst (λ x. value_at j (set_state key v x) ≡ (if bytes_eq key j then v else value_at j x))
      (sym e) (value_at-set_state j key v t h)

IsTracked-set_state :
    (key : Bytes) (v : Value) (g : Getter) → IsTracked g → IsTracked (set_state key v g)
unfolding set_state
IsTracked-set_state key v g (t, h, e) =
    subst (λ x. IsTracked (set_state key v x)) (sym e) (write key v t, h, refl)

run_program-get_balance :
    (host : Host) (key : Bytes) (rest : ℕ → Program (Option Bytes)) (g : Getter) (a : ℕ)
    → decode_balance (value_at key g) ≡ some a
    → run_program (get_balance host key rest) g ≡ run_program (rest a) (get_state key g).1
unfolding run_program get_balance
run_program-get_balance host key rest g a e =
    let e' : decode_balance (get_state key g).0 ≡ some a = rw (get_state-value_at key g) e in
    ap
      (λ (o : Option ℕ).
        run_program (elim o [ none ↦ done (some host.out_of_range) | some balance ↦ rest balance ])
          (get_state key g).1)
      e'

module _ (host : Host) (ctx : CallContext) (input : Input) (g : Getter) where
  abbrev payer : Bytes
  payer = bytes_of ctx.sender

  abbrev read_both : Getter
  read_both = (get_state input.dest (get_state payer g).1).1

  -- The state after both writes.
  abbrev paid : ℕ → ℕ → Getter
  paid a b =
      set_state input.dest (encode_balance (add64 b input.value))
        (set_state payer (encode_balance (sub64 a input.value)) read_both)

  -- The outcome and the state of a transfer.
  abbrev pub transferred : Option Bytes × Getter
  transferred = run_program (invoke_transfer host ctx input) g

  module _ (a b : ℕ) (still : IsStill g) (payer_has : decode_balance (value_at payer g) ≡ some a)
      (dest_has : decode_balance (value_at input.dest g) ≡ some b) where
    run_program-transfer : transferred ≡ (
        if less64 a input.value
        then (some host.not_enough, (get_state payer g).1)
        else (none, paid a b))
    unfolding invoke_transfer run_program
    run_program-transfer =
        let dest_has' : decode_balance (value_at input.dest (get_state payer g).1) ≡ some b =
          rw (value_at-get_state input.dest payer g still) dest_has in
        run_program-get_balance host payer _ g a payer_has
        ∙ elim (Bool-cases (less64 a input.value)) [
          | inl l ↦ rw l refl
          | inr l ↦
              rw l (run_program-get_balance host input.dest _ (get_state payer g).1 b dest_has')
        ]

    value_at-paid :
        (j : Bytes)
        → IsTracked g
        → value_at j (paid a b) ≡ (
            if bytes_eq input.dest j
            then encode_balance (add64 b input.value)
            else if bytes_eq payer j
            then encode_balance (sub64 a input.value)
            else value_at j g)
    value_at-paid j tracked =
        let first = IsTracked-get_state payer g tracked in
        let second = IsTracked-get_state input.dest (get_state payer g).1 first in
        let same : value_at j read_both ≡ value_at j g =
          value_at-get_state j input.dest (get_state payer g).1 (IsStill-get_state payer g still)
          ∙ value_at-get_state j payer g still in
        rw
          (
            value_at-write j input.dest _ _ (IsTracked-set_state payer _ read_both second),
            value_at-write j payer _ read_both second,
            same,
          )
          refl

-- A transfer from an account to another one, through a tracker over a state that stays the same during
-- the call, with readable balances and a value below 2^64: without enough balance it fails with its
-- error and every value stays; else it succeeds, and takes the value from the sender, gives it to
-- the receiver, keeps the sum of the two and leaves every other key alone.
pub transfer-cases :
    (host : Host) (ctx : CallContext) (input : Input) (g : Getter) (a b : ℕ)
    → IsStill g
    → IsTracked g
    → decode_balance (value_at (bytes_of ctx.sender) g) ≡ some a
    → decode_balance (value_at input.dest g) ≡ some b
    → a < 2 ^ 64
    → b < 2 ^ 64
    → input.value < 2 ^ 64
    → bytes_eq input.dest (bytes_of ctx.sender) ≡ false
    → ((less64 a input.value ≡ true)
        × ((transferred host ctx input g).0 ≡ some host.not_enough)
        × ((j : Bytes) → value_at j (transferred host ctx input g).1 ≡ value_at j g))
      ⊎ ((less64 a input.value ≡ false)
          × ((transferred host ctx input g).0 ≡ none)
          × (decode_balance (value_at (bytes_of ctx.sender) (transferred host ctx input g).1)
              ≡ some (sub64 a input.value))
          × (decode_balance (value_at input.dest (transferred host ctx input g).1)
              ≡ some (add64 b input.value))
          × (add64 (sub64 a input.value) (add64 b input.value) ≡ add64 a b)
          × ((j : Bytes)
              → bytes_eq input.dest j ≡ false
              → bytes_eq (bytes_of ctx.sender) j ≡ false
              → value_at j (transferred host ctx input g).1 ≡ value_at j g))
transfer-cases host ctx input g a b still tracked payer_has dest_has ha hb hv other =
    let run = run_program-transfer host ctx input g a b still payer_has dest_has in
    let s = bytes_of ctx.sender in
    let final = paid host ctx input g a b in
    let at = λ (j : Bytes). value_at-paid host ctx input g a b still payer_has dest_has j tracked in
    elim (Bool-cases (less64 a input.value)) [
      | inl l ↦
          let e : transferred host ctx input g ≡ (some host.not_enough, (get_state s g).1) =
            run ∙ rw l refl in
          inl (l, ap (λ r. r.0) e, λ j. rw e (value_at-get_state j s g still))
      | inr l ↦
          let e : transferred host ctx input g ≡ (none, final) = run ∙ rw l refl in
          inr (
            l,
            ap (λ r. r.0) e,
            rw (e, at s, other, bytes_eq_refl s)
                (decode_balance-encode_balance _ (sub64-lt a input.value)),
            rw (e, at input.dest, bytes_eq_refl input.dest)
                (decode_balance-encode_balance _ (add64-lt b input.value)),
            add64-sub64 a b input.value ha hb hv,
            λ j nd ns. rw (e, at j, nd, ns) refl,
          )
    ]

-- A transfer of an account to itself, through a tracker over a state that stays the same during the
-- call, of no more than its readable balance, is not neutral: it succeeds and adds the value to the
-- balance, which the second write sets from the balance that was read before the first.
pub transfer_self :
    (host : Host) (ctx : CallContext) (input : Input) (g : Getter) (a : ℕ)
    → IsStill g
    → IsTracked g
    → decode_balance (value_at (bytes_of ctx.sender) g) ≡ some a
    → less64 a input.value ≡ false
    → input.dest ≡ bytes_of ctx.sender
    → ((transferred host ctx input g).0 ≡ none)
      × (decode_balance (value_at (bytes_of ctx.sender) (transferred host ctx input g).1)
          ≡ some (add64 a input.value))
transfer_self host ctx input g a still tracked payer_has enough e =
    let s = bytes_of ctx.sender in
    let dest_has : decode_balance (value_at input.dest g) ≡ some a = rw e payer_has in
    let run : transferred host ctx input g ≡ (none, paid host ctx input g a a) =
      run_program-transfer host ctx input g a a still payer_has dest_has ∙ rw enough refl in
    let at = value_at-paid host ctx input g a a still payer_has dest_has s tracked in
    let own : bytes_eq input.dest s ≡ true = (bytes_eq_iff input.dest s).1 e in
    (
      ap (λ r. r.0) run,
      rw (run, at, own) (decode_balance-encode_balance _ (add64-lt a input.value)),
    )
