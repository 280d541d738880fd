-- ===== src/Pages.antt =====
-- The page allocator as its clients see it, and the wrappers at the end of mm/page_alloc.cpp.
use modern.Base.{◌≤◌, ◌≡◌, ℕ, Option, some, ◌>>=◌, ltb, if◌then◌else◌}
use modern.Base.Bytes.{add64, sub64}
use modern.Utils.{log2_ceil}

abbrev pub log2_min_size : ℕ
log2_min_size = 16

abbrev pub kernel_start : ℕ
kernel_start = 0xffff_8000_0000_0000

-- `allocate_pages` and `free_pages` of an allocator over its state. An address is physical, 0 where
-- no block is left; `none` is a panic.
pub record PageSource : Type 1 where
  pub State : Type 0
  pub allocate_pages : ℕ → State → Option (ℕ × State)
  pub free_pages : ℕ → State → Option State

-- The allocator's contract: in a valid state it answers every request of at least a smallest block,
-- perhaps with address 0, and is in a valid state again.
pub record Answers (src : PageSource) : Type 1 where
  pub Valid : src.State → Type 0
  pub answer :
      (i : ℕ) (s : src.State)
      → 16 ≤ i
      → Valid s
      → (addr : ℕ) × (s' : src.State) × (src.allocate_pages i s ≡ some (addr, s')) × Valid s'

-- `kernel2phy` of mm/mm.cpp
abbrev pub kernel2phy : ℕ → ℕ
kernel2phy addr = sub64 addr kernel_start

module _ (src : PageSource) where
  open src use {State, allocate_pages, free_pages}

  unfoldable pub physical_page_alloc : ℕ → State → Option (ℕ × State)
  physical_page_alloc i s = allocate_pages i s

  unfoldable pub physical_page_release : ℕ → State → Option State
  physical_page_release paddr s = free_pages paddr s

  -- A failed allocation comes out as `KERNEL_START + 0`.
  unfoldable pub kernel_page_alloc : ℕ → State → Option (ℕ × State)
  kernel_page_alloc i s = do
    (phy_addr, s') ← allocate_pages i s
    some (add64 kernel_start phy_addr, s')

  unfoldable pub kernel_page_free : ℕ → State → Option State
  kernel_page_free vaddr s = free_pages (sub64 vaddr kernel_start) s

  unfoldable pub kmalloc : ℕ → State → Option (ℕ × State)
  unfolding kernel_page_alloc
  kmalloc size s =
      let l = log2_ceil size in
      kernel_page_alloc (if ltb l log2_min_size then log2_min_size else l) s

  unfoldable pub kfree : ℕ → State → Option State
  unfolding kernel_page_free
  kfree p s = kernel_page_free p s
