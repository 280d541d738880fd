-- ===== src/Buddy/Tests.antt =====
-- Runs of the buddy allocator, and its theorems at small trees.
use modern.Base.{ℕ, ◌^◌, ◌≡◌, refl, Option, some, none, arith, ◌>>=◌}
use modern.Utils.{log2}
use modern.Buddy.Defs.{
  Buddy, fresh_block, new_buddy, get_left, get_right, get_parent, get_buddy, block_log2size,
  get_block_phy_addr,
}
use modern.Buddy.Ops.{allocate_pages, free_pages}
use modern.Buddy.Lists.{IsFree}
use modern.Buddy.Split.{IsTree}
use modern.Buddy.Alloc.{allocate_pages_lem, PagesResult}
use modern.Buddy.Init.{new_buddy_lem, only_root}
use modern.Buddy.Whole.{IsWhole}
use modern.Buddy.Cycle.{new_buddy-IsWhole, free_pages-allocate_pages, CycleResult}
use modern.Buddy.Address.{allocate_two, allocate_two-Overlap, Overlap}

-- 1 GiB at 64 MiB
abbrev boot : Buddy
boot = new_buddy 0x400_0000 30 (λ i. fresh_block) 65536

abbrev self_test : Option (Option ℕ × Option ℕ)
self_test = do
  (addr1, b) ← allocate_pages 24 boot
  (addr2, b) ← allocate_pages 16 b
  b ← free_pages addr1 b
  b ← free_pages addr2 b
  some ((b.buckets 14).first_block, (b.buckets 8).first_block)

-- The test in `buddy_allocator_init`: after two allocations and their release the root is the only
-- block that is available.
self_test_passes : self_test ≡ some (some 0, none)
unfolding allocate_pages free_pages new_buddy get_left get_right get_parent get_buddy block_log2size
    get_block_phy_addr log2
self_test_passes = refl

allocate_two-Overlap_example :
    (p q : ℕ) × (allocate_two 29 boot ≡ some (p, q)) × Overlap p (2 ^ 29) q (2 ^ 29)
allocate_two-Overlap_example =
    allocate_two-Overlap 0x400_0000 29 (λ i. fresh_block) (omega arith) (omega arith) (omega arith)

boot-IsTree : IsTree boot
boot-IsTree = (new_buddy_lem 0x400_0000 30 (λ i. fresh_block) (omega arith) (omega arith)).0

boot-IsFree : IsFree boot (only_root 30)
boot-IsFree = (new_buddy_lem 0x400_0000 30 (λ i. fresh_block) (omega arith) (omega arith)).1

allocate_pages_lem_example :
    (addr : ℕ) × (b' : Buddy) × (allocate_pages 24 boot ≡ some (addr, b'))
    × PagesResult boot (only_root 30) 24 addr b'
allocate_pages_lem_example = allocate_pages_lem 24 boot-IsTree boot-IsFree (omega arith)

-- no block is valid before the root
boot-IsWhole : IsWhole none boot (only_root 30)
boot-IsWhole =
    new_buddy-IsWhole 0x400_0000 30 (λ i. fresh_block) (omega arith) (omega arith) (λ i. refl)

free_pages-allocate_pages_example :
    (addr : ℕ) × (b' : Buddy) × (allocate_pages 24 boot ≡ some (addr, b'))
    × CycleResult boot addr b'
unfolding new_buddy
free_pages-allocate_pages_example =
    free_pages-allocate_pages 24 boot-IsWhole (omega arith) (omega arith)

new_buddy-IsWhole_example : IsWhole none boot (only_root 30)
new_buddy-IsWhole_example =
    new_buddy-IsWhole 0x400_0000 30 (λ i. fresh_block) (omega arith) (omega arith) (λ i. refl)
