-- ===== src/Buddy/Tree.antt =====
-- The tree of blocks in an array: parents, children, buddies and levels agree.
use modern.Base.{ℕ, suc, ◌+◌, ◌*◌, ◌/◌, ◌^◌, ◌<◌, ◌≡◌, ◌≢◌, some, ◌∙◌, ap, arith}
use modern.Base.Bytes.{u64_mod}
use modern.Utils.{log2}
use modern.Utils.Log2.{log2-IsLog2, IsLog2-suc, IsLog2-unique}
use modern.Buddy.Defs.{Buddy, get_left, get_right, get_parent, get_buddy, block_log2size}

-- the depth of a child is one more
log2_double : (n d : ℕ) → 0 < n → n < 2 ^ 63 → d < 2 → log2 (2 * n + d) ≡ log2 n + 1
log2_double n d p h hd =
    IsLog2-unique (log2 (2 * n + d)) (log2 n + 1)
      (log2-IsLog2 (2 * n + d) (omega arith) (omega arith))
      (let e : log2 n + 1 ≡ suc (log2 n) = omega arith in
        let half : (2 * n + d) / 2 ≡ n = omega arith in
        rw e (IsLog2-suc (rw half (log2-IsLog2 n p (omega arith)))))

-- the two blocks that a block is split into
pub record AreChildren (b : Buddy) (i l r : ℕ) : Type 0 where
  pub left : get_left b i ≡ some l
  pub right : get_right b i ≡ some r
  pub ne : l ≢ r
  pub left_parent : get_parent l ≡ some i
  pub right_parent : get_parent r ≡ some i
  pub left_buddy : get_buddy l ≡ some r
  pub right_buddy : get_buddy r ≡ some l
  pub left_level : block_log2size b l + 1 ≡ block_log2size b i
  pub right_level : block_log2size b r + 1 ≡ block_log2size b i

-- Where the array has room for the children of block `i` and the tree has a level below it, its two
-- children are distinct, have it for their parent and each other for their buddy, and are one level
-- lower.
pub children_lem :
    (b : Buddy) (i : ℕ)
    → 2 * i + 2 < b.max_blocks
    → b.max_blocks < 2 ^ 63
    → b.root_log2size < u64_mod
    → log2 (i + 1) < b.root_log2size
    → AreChildren b i (2 * i + 1) (2 * i + 2)
unfolding get_left get_right get_parent get_buddy block_log2size
children_lem b i room small root deep =
    let at_left : 2 * i + 1 + 1 ≡ 2 * (i + 1) + 0 = omega arith in
    let at_right : 2 * i + 2 + 1 ≡ 2 * (i + 1) + 1 = omega arith in
    let dl : log2 (2 * i + 1 + 1) ≡ log2 (i + 1) + 1 =
      ap log2 at_left ∙ log2_double (i + 1) 0 (omega arith) (omega arith) (omega arith) in
    let dr : log2 (2 * i + 2 + 1) ≡ log2 (i + 1) + 1 =
      ap log2 at_right ∙ log2_double (i + 1) 1 (omega arith) (omega arith) (omega arith) in
    record {
      left = ground arith;
      right = ground arith;
      ne = omega arith;
      left_parent = ground arith;
      right_parent = ground arith;
      left_buddy = ground arith;
      right_buddy = ground arith;
      left_level = omega arith;
      right_level = omega arith;
    }
