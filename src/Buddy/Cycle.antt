-- ===== src/Buddy/Cycle.antt =====
-- Allocation and release over the whole tree, one after the other.
use modern.Base.{
  ℕ, ◌+◌, ◌≤◌, ◌<◌, ◌≡◌, ◌⊎◌, inl, inr, true, false, none, some, leb, refl, sym, ap, ◌∙◌, arith,
  List,
}
use modern.Base.Bytes.{u64_mod}
use modern.Utils.{log2}
use modern.Buddy.Defs.{Block, Buddy, new_buddy, block_log2size, get_block_phy_addr}
use modern.Buddy.Ops.{allocate_pages, free_pages, count_allocated}
use modern.Buddy.Granted.{Granted}
use modern.Buddy.Alloc.{AllocRuns, alloc_block_size_lem, count_allocated-Granted}
use modern.Buddy.Init.{only_root, new_buddy_lem}
use modern.Buddy.Whole.{IsWhole}
use modern.Buddy.Kept.{Kept}
use modern.Buddy.Release.{Released, counted-IsWhole, free_pages_lem}

-- A new allocator over an array in which no block is valid is a whole tree, of the root alone.
pub new_buddy-IsWhole :
    (addr root : ℕ) (base : ℕ → Block)
    → 16 ≤ root
    → root ≤ 31
    → ((i : ℕ) → (base i).valid ≡ false)
    → IsWhole none (new_buddy addr root base 65536) (only_root root)
unfolding new_buddy block_log2size log2
new_buddy-IsWhole addr root base lo hi unused =
    let (tree, lists) = new_buddy_lem addr root base lo hi in
    let only : (i : ℕ) → ((new_buddy addr root base 65536).blocks i).valid ≡ true → i ≡ 0 =
      λ i v. ground (arith, unused i) in
    record {
      tree = tree;
      lists = lists;
      sizes = λ i v. rw (only i v) (omega arith);
      listed = λ i v a out. rw (only i v) (ground arith);
      only_valid = λ i l l_lo l_hi h. (ground arith, refl);
      up = λ i v pos. absurd (pos (only i v));
    }

-- what `allocate_pages` leaves of the whole tree
abbrev pub WholeResult : Buddy → (ℕ → List ℕ) → ℕ → ℕ → Buddy → Type 0
WholeResult b free l addr b' =
    ((addr ≡ 0) × (b' ≡ b))
    ⊎ ((i : ℕ) × (free' : ℕ → List ℕ) × (addr ≡ get_block_phy_addr b i)
        × Granted b free l i b' free'
        × Kept b' free' i)

whole_of :
    {b : Buddy} {free : ℕ → List ℕ} (l : ℕ)
    → IsWhole none b free
    → 16 ≤ l
    → AllocRuns (b.root_log2size + 2) b free l
    → (addr : ℕ) × (b' : Buddy) × (allocate_pages l b ≡ some (addr, b'))
      × WholeResult b free l addr b'
unfolding allocate_pages get_block_phy_addr
whole_of {b} l w lo (none, b1, runs, res) =
    let big : leb 16 l ≡ true = ground arith in (0, b1, rw (big, runs), inl (refl, res.0))
whole_of {b} l w lo (some i, b1, runs, (free', g, keeps)) =
    let big : leb 16 l ≡ true = ground arith in
    let k = keeps w in
    (
      get_block_phy_addr b i,
      count_allocated b1 l,
      rw (big, runs) refl,
      inr (
        i,
        free',
        refl,
        count_allocated-Granted g,
        record { whole = counted-IsWhole b1 free' _ _ k.whole; valid = k.valid; leaf = k.leaf },
      ),
    )

pub allocate_pages-IsWhole :
    {b : Buddy} {free : ℕ → List ℕ} (l : ℕ)
    → IsWhole none b free
    → 16 ≤ l
    → (addr : ℕ) × (b' : Buddy) × (allocate_pages l b ≡ some (addr, b'))
      × WholeResult b free l addr b'
allocate_pages-IsWhole {b} l w lo =
    whole_of l w lo
      (alloc_block_size_lem (b.root_log2size + 2) l w.tree w.lists lo (omega arith) (omega arith))

-- what the release of the answer leaves
abbrev pub CycleResult : Buddy → ℕ → Buddy → Type 0
CycleResult b addr b' =
    ((addr ≡ 0) × (b' ≡ b))
    ⊎ ((i : ℕ) × (b'' : Buddy) × (free'' : ℕ → List ℕ) × (top : ℕ) × (addr ≡ get_block_phy_addr b i)
        × (free_pages addr b' ≡ some b'')
        × Released b' i b'' free'' top)

addr_same :
    (b b' : Buddy) (i : ℕ)
    → b'.phy_start ≡ b.phy_start
    → get_block_phy_addr b' i ≡ get_block_phy_addr b i
unfolding get_block_phy_addr
addr_same b b' i e = rw e

cycle_of :
    {b : Buddy} {free : ℕ → List ℕ} (l addr : ℕ) (b' : Buddy)
    → b.phy_start < u64_mod
    → WholeResult b free l addr b'
    → CycleResult b addr b'
cycle_of {b} l addr b' start (inl nothing) = inl nothing
cycle_of {b} l addr b' start (inr (i, free', at, g, k)) =
    let (b'', free'', top, runs, r) =
      free_pages_lem b' free' i k.whole (omega (arith, g.start, start)) k.valid g.taken k.leaf in
    inr (
      i,
      b'',
      free'',
      top,
      at,
      ap (λ a. free_pages a b') (at ∙ sym (addr_same b b' i g.start)) ∙ runs,
      r,
    )

-- On an allocator that meets the invariant, `allocate_pages` of 2 ^ l bytes, l ≥ 16, returns. Either it
-- answers 0 and changes nothing, or `free_pages` of its answer succeeds: the block is merged with the
-- available buddies on its way to the root, the merged block is in the list of its size, its own
-- buddy is not available, and the invariant holds again.
pub free_pages-allocate_pages :
    {b : Buddy} {free : ℕ → List ℕ} (l : ℕ)
    → IsWhole none b free
    → 16 ≤ l
    → b.phy_start < u64_mod
    → (addr : ℕ) × (b' : Buddy) × (allocate_pages l b ≡ some (addr, b')) × CycleResult b addr b'
free_pages-allocate_pages l w lo start =
    let (addr, b', runs, res) = allocate_pages-IsWhole l w lo in
    (addr, b', runs, cycle_of l addr b' start res)
