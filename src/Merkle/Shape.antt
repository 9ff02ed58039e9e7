-- ===== src/Merkle/Shape.antt =====
-- What merkle/tree_calc.go computes: groups of nodes, and the least height that holds the leaves.
use native.Mathlib.Nat.{
  div-add-mod, div-lt_iff_lt-mul, mod-lt, mul-le-mul_right, mul-le-mul_left, mul_comm, pow-zero,
  pow-suc,
}
use hs_blockchain.Prelude.{
  ℕ, zero, suc, ◌≡◌, ap, ◌∙◌, ◌≤◌, ◌<◌, ◌+◌, ◌-◌, ◌*◌, ◌/◌, ◌%◌, ◌^◌, ◌↔◌, inl, inr, Bool-cases,
  Option, some, ltb, arith, false,
}
use hs_blockchain.Merkle.TreeCalc.{
  TreeCalc, group_count, height_loop, height, first_node_of_group, group_of_node,
  node_index_in_group,
}

-- The loop of Height ends `levels` levels up: as many hold the nodes, and no fewer do.
pub record Levels (tc : TreeCalc) (n h : ℕ) (r : Option ℕ) : Type 0 where
  pub levels : ℕ
  pub result : r ≡ some (h + levels)
  pub holds : n ≤ tc.bfactor ^ levels
  pub least : (j : ℕ) → n ≤ tc.bfactor ^ j → levels ≤ j

module _ (tc : TreeCalc) (some_branch : 0 < tc.bfactor) where
  -- For a branch factor above 0, GroupCount is the least number of groups that hold the nodes: it is at
  -- most some number exactly when that many full groups have at least as many nodes.
  pub group_count-le_iff : (n y : ℕ) → (group_count tc n ≤ y) ↔ (n ≤ y * tc.bfactor)
  unfolding group_count
  group_count-le_iff n y =
      let b = tc.bfactor in
      let split : b * (n / b) + n % b ≡ n = div-add-mod n b in
      let swap : b * (n / b) ≡ n / b * b = mul_comm b (n / b) in
      let small : n % b < b = mod-lt n some_branch in
      let over : n < suc (n / b) * b = omega (arith, split, swap, small) in
      elim (Bool-cases (ltb 0 (n % b))) [
        | inl part ↦
            rw (group_count, part)
              (
                λ h.
                    let lt : n < y * b = (div-lt_iff_lt-mul some_branch).0 (omega (arith, h)) in
                    omega (arith, lt),
                λ h. elim (Bool-cases (ltb (n / b) y)) [
                  | inl lt ↦ ground (arith, lt)
                  | inr ge ↦
                      let le : y * b ≤ n / b * b = mul-le-mul_right b (ground (arith, ge)) in
                      ground (arith, le, split, swap, part, h)
                ],
              )
        | inr full ↦
            rw (group_count, full)
              (
                λ h.
                    let le : n / b * b ≤ y * b = mul-le-mul_right b h in
                    ground (arith, le, split, swap, full),
                λ h.
                    let lt : n / b < suc y =
                      (div-lt_iff_lt-mul some_branch).1 (omega (arith, h, some_branch)) in
                    omega (arith, lt),
              )
      ]

  -- Fewer groups than nodes, where there is more than one node.
  group_count-lt : (n : ℕ) → 1 < tc.bfactor → 1 < n → group_count tc n < n
  group_count-lt n two more =
      let le : group_count tc n ≤ n - 1 = (group_count-le_iff n (n - 1)).1 (
        omega
          (arith, mul-le-mul_left {m = 2} {n = tc.bfactor} (n - 1) (omega (arith, two)), more)) in
      omega (arith, le, more)

  -- For a branch factor above 0, every node is at its place in its group: the first node of GroupOfNode
  -- and NodeIndexInGroup add up to the node, and the place is below the branch factor.
  pub node-of_group :
      (i : ℕ)
      → (first_node_of_group tc (group_of_node tc i) + node_index_in_group tc i ≡ i)
        × (node_index_in_group tc i < tc.bfactor)
  unfolding first_node_of_group group_of_node node_index_in_group
  node-of_group i = (
    omega (arith, div-add-mod i tc.bfactor, mul_comm tc.bfactor (i / tc.bfactor)),
    mod-lt i some_branch,
  )

  one_more :
      (n h : ℕ) (r : Option ℕ) → 1 < n → Levels tc (group_count tc n) (h + 1) r → Levels tc n h r
  one_more n h r more l = record {
    levels = suc l.levels;
    result = l.result ∙ ap some (omega arith);
    holds = rw pow-suc ((group_count-le_iff n (tc.bfactor ^ l.levels)).0 l.holds);
    least = least_above;
  }
    where
      least_above : (j : ℕ) → n ≤ tc.bfactor ^ j → suc l.levels ≤ j
      least_above zero le = absurd (omega (arith, le, more, pow-zero tc.bfactor))
      least_above (suc j) le =
          omega (arith, l.least j ((group_count-le_iff n (tc.bfactor ^ j)).1 (rw pow-suc at le)))

  no_more : (n h : ℕ) → ltb 1 n ≡ false → Levels tc n h (some h)
  no_more n h few = record {
    levels = 0;
    result = ap some (omega arith);
    holds = ground (arith, few, pow-zero tc.bfactor);
    least = λ j le. omega arith;
  }

  module _ (two : 1 < tc.bfactor) where
    height_loop-Levels :
        (fuel n h k : ℕ)
        → n < fuel
        → n ≤ tc.bfactor ^ k
        → h + k < 256
        → Levels tc n h (height_loop tc fuel n h)
    unfolding height_loop
    height_loop-Levels zero n h k f le small = absurd (omega (arith, f))
    height_loop-Levels (suc fuel) n h zero f le small =
        let few : ltb 1 n ≡ false = ground (arith, le, pow-zero tc.bfactor) in
        rw (height_loop, few) (no_more n h few)
    height_loop-Levels (suc fuel) n h (suc k) f le small = elim (Bool-cases (ltb 1 n)) [
      | inr few ↦ rw (height_loop, few) (no_more n h few)
      | inl more ↦
          let lt : 1 < n = ground (arith, more) in
          let next : (h + 1) % 2 ^ 8 ≡ h + 1 = omega (arith, small) in
          rw (height_loop, more, next)
            (one_more n h _ lt (
              height_loop-Levels fuel (group_count tc n) (h + 1) k
                (omega (arith, group_count-lt n two lt, f))
                ((group_count-le_iff n (tc.bfactor ^ k)).1 (rw pow-suc at le))
                (omega (arith, small))))
    ]

-- For a branch factor of at least 2 and leaves that at most 254 levels of branching hold, Height returns,
-- and the levels below the root are the least number that holds the leaves: that power of the
-- branch factor is at least the number of leaves, and no lower power is.
pub height-Levels :
    (tc : TreeCalc) (some_branch : 0 < tc.bfactor) (n k : ℕ)
    → 1 < tc.bfactor
    → n ≤ tc.bfactor ^ k
    → k < 255
    → Levels tc n 1 (height tc n)
unfolding height
height-Levels tc some_branch n k two le small =
    height_loop-Levels tc some_branch two (n + 1) n 1 k (omega arith) le (omega (arith, small))
