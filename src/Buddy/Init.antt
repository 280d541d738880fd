-- ===== src/Buddy/Init.antt =====
-- The constructor of `BuddyAllocator`: the state that the theorems start from.
use native.Mathlib.Nat.{pow-le-pow_right}
use modern.Base.{
  ℕ, ◌-◌, ◌^◌, ◌≤◌, ◌==◌, ==_of_eq, ==_of_ne, if◌then◌else◌, refl, arith, List, [], ◌∷◌, ℕ_discrete,
}
use modern.Utils.{log2}
use modern.Buddy.Defs.{Block, new_buddy, block_log2size}
use modern.Buddy.Lists.{IsFree}
use modern.Buddy.Split.{IsTree}

-- only the root is available
abbrev pub only_root : ℕ → ℕ → List ℕ
only_root root l = if l == root then 0 ∷ [] else []

-- A new allocator of 2 ^ root bytes, 16 ≤ root ≤ 31, over an array of 65536 blocks has room for its
-- tree, and its lists are empty but for the root's size, which holds the root alone.
pub new_buddy_lem :
    (addr root : ℕ) (base : ℕ → Block)
    → 16 ≤ root
    → root ≤ 31
    → IsTree (new_buddy addr root base 65536)
      × IsFree (new_buddy addr root base 65536) (only_root root)
unfolding new_buddy block_log2size log2
new_buddy_lem addr root base lo hi =
    let room : 2 ^ (root - 15) ≤ 2 ^ 16 = pow-le-pow_right (omega arith) {j = 16} (omega arith) in
    (
      record { root_lo = lo; root_hi = omega arith; enough = room; small = omega arith },
      λ m mlo mhi. elim (ℕ_discrete m root) [
        | yes here ↦ rw (==_of_eq here) (record {
          head = ground arith;
          ring = (refl, refl);
          distinct = (refl, tt);
          level = λ i h. ground arith;
          free = λ i h. ground arith;
          inside = λ i h. ground arith;
        })
        | no ne ↦ rw (==_of_ne ne) (record {
          head = ground arith;
          ring = tt;
          distinct = tt;
          level = λ i h. cc (h);
          free = λ i h. cc (h);
          inside = λ i h. cc (h);
        })
      ],
    )
