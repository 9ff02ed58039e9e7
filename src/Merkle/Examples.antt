-- ===== src/Merkle/Examples.antt =====
-- A tree with branch factor 5, and 8 leaves in two groups.
use hs_blockchain.Prelude.{◌≡◌, refl, ◌≤◌, ◌*◌, ◌↔◌, some, arith}
use hs_blockchain.Merkle.TreeCalc.{TreeCalc, group_count, height}
use hs_blockchain.Merkle.Shape.{Levels, group_count-le_iff, height-Levels}

abbrev five : TreeCalc
five = record { bfactor = 5 }

height_eight : height five 8 ≡ some 3
unfolding height
height_eight = refl

group_count-le_iff_example : (group_count five 8 ≤ 2) ↔ (8 ≤ 2 * 5)
group_count-le_iff_example = group_count-le_iff five (omega arith) 8 2

height-Levels_example : Levels five 8 1 (height five 8)
height-Levels_example =
    height-Levels five (omega arith) 8 2 (omega arith) (omega arith) (omega arith)
