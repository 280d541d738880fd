-- ===== src/Buddy/Source.antt =====
-- The buddy allocator as the source of pages of mm/page_alloc.cpp: it keeps the contract.
use modern.Base.{ℕ, ◌≤◌, ◌≡◌, some, List, inl, inr, subst, sym, arith}
use modern.Pages.{PageSource, Answers}
use modern.Buddy.Defs.{Buddy}
use modern.Buddy.Ops.{allocate_pages, free_pages}
use modern.Buddy.Lists.{IsFree}
use modern.Buddy.Split.{IsTree}
use modern.Buddy.Alloc.{PagesResult, allocate_pages_lem}

abbrev pub buddy_source : PageSource
buddy_source = record { State = Buddy; allocate_pages = allocate_pages; free_pages = free_pages }

-- The blocks are there, and the lists hold available blocks.
abbrev pub IsReady : Buddy → Type 0
IsReady b = IsTree b × ((free : ℕ → List ℕ) × IsFree b free)

pages-IsReady :
    {b : Buddy} {free : ℕ → List ℕ} {l addr : ℕ} (b' : Buddy)
    → IsTree b
    → IsFree b free
    → PagesResult b free l addr b'
    → IsReady b'
pages-IsReady {b} {free} b' t v (inl (zero_addr, same, none_left)) =
    subst IsReady (sym same) (t, (free, v))
pages-IsReady b' t v (inr (i, free', at, g)) = (
  record {
    root_lo = omega (arith, g.root, t.root_lo);
    root_hi = omega (arith, g.root, t.root_hi);
    enough = rw (g.root, g.room) t.enough;
    small = omega (arith, g.room, t.small);
  },
  (free', g.valid),
)

-- A tree of blocks whose lists hold the available blocks answers every request of at least 2 ^ 16
-- bytes, and is such a tree again.
pub allocate_pages-IsReady :
    (l : ℕ) (b : Buddy)
    → 16 ≤ l
    → IsReady b
    → (addr : ℕ) × (b' : Buddy) × (allocate_pages l b ≡ some (addr, b')) × IsReady b'
allocate_pages-IsReady l b lo (t, (free, v)) =
    let (addr, b', runs, r) = allocate_pages_lem l t v lo in
    (addr, b', runs, pages-IsReady b' t v r)

-- the allocator as a source of pages that keeps the contract
abbrev pub buddy_answers : Answers buddy_source
buddy_answers = record { Valid = IsReady; answer = allocate_pages-IsReady }
