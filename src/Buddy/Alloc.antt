-- ===== src/Buddy/Alloc.antt =====
-- `alloc_block_size` and `allocate_pages`, against the lists of available blocks.
use modern.Base.{
  ℕ, zero, suc, ◌+◌, ◌*◌, ◌≤◌, ◌<◌, ◌≡◌, ◌⊎◌, inl, inr, true, false, Option, none, some, ltb, leb,
  ==_of_ne, refl, ◌∙◌, ap, arith, List, [], ◌∷◌, ℕ_discrete, Bool-cases,
}
use modern.Buddy.Defs.{Buddy, update, block_log2size, bucket_index, get_block_phy_addr}
use modern.Buddy.Ops.{
  set_available, split, remove_from_available_list, alloc_block_size, allocate_pages,
  count_allocated,
}
use modern.Buddy.Lists.{IsFree, head_of}
use modern.Buddy.Split.{IsTree, children_of, split_lem}
use modern.Buddy.Granted.{Granted, AllocResult, first_Granted, first_Kept}
use modern.Buddy.Ring.{has}
use modern.Buddy.Halves.{split-Kept}

alloc_over :
    (b : Buddy) (fuel l : ℕ)
    → ltb b.root_log2size l ≡ true
    → alloc_block_size (suc fuel) b l ≡ some (none, b)
unfolding alloc_block_size
alloc_over b fuel l over = rw over

module _ (b : Buddy) (fuel l : ℕ) (fits : ltb b.root_log2size l ≡ false) where
  alloc_first :
      (i : ℕ)
      → (b.buckets (bucket_index l)).first_block ≡ some i
      → alloc_block_size (suc fuel) b l
        ≡ some (
          some i,
          remove_from_available_list (record b { blocks = set_available b.blocks i false }) i,
        )
  unfolding alloc_block_size
  alloc_first i e = rw (fits, e, alloc_block_size)

  alloc_fails :
      {b1 : Buddy}
      → (b.buckets (bucket_index l)).first_block ≡ none
      → alloc_block_size fuel b (l + 1) ≡ some (none, b1)
      → alloc_block_size (suc fuel) b l ≡ some (none, b1)
  unfolding alloc_block_size
  alloc_fails e above = rw (fits, e, above, alloc_block_size)

  alloc_split :
      (p : ℕ) (b1 : Buddy) {r : Option ℕ × Buddy}
      → (b.buckets (bucket_index l)).first_block ≡ none
      → alloc_block_size fuel b (l + 1) ≡ some (some p, b1)
      → split b1 p ≡ some r
      → alloc_block_size (suc fuel) b l ≡ some r
  unfolding alloc_block_size
  alloc_split p b1 e above halves = rw (fits, e, above, alloc_block_size) halves

-- a larger block is split, or there is none
from_larger :
    {b : Buddy} {free : ℕ → List ℕ} (fuel l : ℕ)
    → IsTree b
    → IsFree b free
    → 16 ≤ l
    → ltb b.root_log2size l ≡ false
    → free l ≡ []
    → (r : Option ℕ) (b1 : Buddy) → alloc_block_size fuel b (l + 1) ≡ some (r, b1)
    → AllocResult b free (l + 1) r b1
    → (r : Option ℕ) × (b' : Buddy) × (alloc_block_size (suc fuel) b l ≡ some (r, b'))
      × AllocResult b free l r b'
from_larger {b} {free} fuel l t v lo fits empty none b1 runs res =
    let vacant = (v l lo (ground arith)).head ∙ ap head_of empty in
    (
      none,
      b1,
      alloc_fails b fuel l fits vacant runs,
      (
        res.0,
        λ m mlo mhi. elim (ℕ_discrete m l) [
          | yes here ↦ rw here empty
          | no ne ↦ res.1 m (omega arith) mhi
        ],
      ),
    )
from_larger {b} {free} fuel l t v lo fits empty (some p) b1 runs (free1, g, keeps) =
    let vacant = (v l lo (ground arith)).head ∙ ap head_of empty in
    let t1 : IsTree b1 = record {
      root_lo = omega (arith, g.root, t.root_lo);
      root_hi = omega (arith, g.root, t.root_hi);
      enough = rw (g.root, g.room) t.enough;
      small = omega (arith, g.room, t.small);
    } in
    let vacant1 : free1 l ≡ [] = g.below l (omega arith) ∙ empty in
    let hi : suc l ≤ b1.root_log2size = omega (arith, g.fits, g.root) in
    let inside : p < b1.max_blocks = omega (arith, g.inside, g.room) in
    let (half_room, ch) = children_of p l t1 (omega (arith, g.level)) lo hi inside in
    let (b', halves, same, v', level, taken, room) =
      split_lem p l t1 g.valid (omega (arith, g.level)) lo hi inside vacant1 in
    (
      some (2 * p + 1),
      b',
      alloc_split b fuel l fits p b1 vacant runs halves,
      (
        update free1 l ((2 * p + 2) ∷ []),
        record {
          valid = v';
          start = same.start ∙ g.start;
          root = same.root ∙ g.root;
          room = same.room ∙ g.room;
          level = level;
          fits = ground arith;
          inside = omega (arith, room, g.room);
          taken = taken;
          below = λ m h. rw (==_of_ne {a = m} {b = l} (omega arith)) (g.below m (omega arith));
        },
        λ w.
            split-Kept b1 b' free1 p l (keeps w) g.taken (λ i. has i ((2 * p + 2) ∷ [])) same v'
              vacant1 half_room lo (omega arith) (omega (arith, ch.left_level, g.level))
              (omega (arith, ch.right_level, g.level)),
      ),
    )

abbrev pub AllocRuns : ℕ → Buddy → (ℕ → List ℕ) → ℕ → Type 0
AllocRuns fuel b free l =
    (r : Option ℕ) × (b' : Buddy) × (alloc_block_size fuel b l ≡ some (r, b'))
    × AllocResult b free l r b'

one_level :
    (fuel : ℕ) {b : Buddy} {free : ℕ → List ℕ} (l : ℕ)
    → IsTree b
    → IsFree b free
    → 16 ≤ l
    → (l ≤ b.root_log2size → AllocRuns fuel b free (l + 1))
    → (xs : List ℕ) → free l ≡ xs
    → (ltb b.root_log2size l ≡ true) ⊎ (ltb b.root_log2size l ≡ false)
    → AllocRuns (suc fuel) b free l
one_level fuel {b} l t v lo larger xs e (inl over) =
    (none, b, alloc_over b fuel l over, (refl, λ m mlo mhi. absurd (ground arith)))
one_level fuel l t v lo larger [] e (inr fits) =
    let (r, b1, runs, res) = larger (ground arith) in from_larger fuel l t v lo fits e r b1 runs res
one_level fuel {b} {free} l t v lo larger (i ∷ xs) e (inr fits) = (
  some i,
  remove_from_available_list (record b { blocks = set_available b.blocks i false }) i,
  alloc_first b fuel l fits i ((v l lo (ground arith)).head ∙ ap head_of e),
  (
    update free l xs,
    first_Granted l i xs v lo (ground arith) e,
    λ w. first_Kept l i xs w lo (ground arith) e,
  ),
)

-- With blocks for a whole tree, and lists of the available blocks, `alloc_block_size` returns: a
-- block, or null and an unchanged allocator if no block of the size or a larger one is available.
pub alloc_block_size_lem :
    (fuel : ℕ) {b : Buddy} {free : ℕ → List ℕ} (l : ℕ)
    → IsTree b
    → IsFree b free
    → 16 ≤ l
    → 0 < fuel
    → suc (suc b.root_log2size) ≤ fuel + l
    → AllocRuns fuel b free l
alloc_block_size_lem zero l t v lo pos enough = absurd (omega arith)
alloc_block_size_lem (suc fuel) {b} {free} l t v lo pos enough =
    one_level fuel l t v lo
      (λ inside. alloc_block_size_lem fuel (l + 1) t v (omega arith) (omega arith) (omega arith))
      (free l) refl (Bool-cases (ltb b.root_log2size l))

-- counting is not seen in the lists
count_allocated-IsFree :
    {b : Buddy} {free : ℕ → List ℕ} (l : ℕ) → IsFree b free → IsFree (count_allocated b l) free
unfolding block_log2size
count_allocated-IsFree {b} {free} l v m lo hi =
    let at = v m lo hi in
    record {
      head = ground (arith, at.head);
      ring = at.ring;
      distinct = at.distinct;
      level = at.level;
      free = at.free;
      inside = at.inside;
    }

pub count_allocated-Granted :
    {b : Buddy} {free : ℕ → List ℕ} {l i : ℕ} {b' : Buddy} {free' : ℕ → List ℕ}
    → Granted b free l i b' free'
    → Granted b free l i (count_allocated b' l) free'
unfolding block_log2size
count_allocated-Granted {l} g = record {
  valid = count_allocated-IsFree l g.valid;
  start = g.start;
  root = g.root;
  room = g.room;
  level = g.level;
  fits = g.fits;
  inside = g.inside;
  taken = g.taken;
  below = g.below;
}

-- the two answers of `allocate_pages`
abbrev pub PagesResult : Buddy → (ℕ → List ℕ) → ℕ → ℕ → Buddy → Type 0
PagesResult b free l addr b' =
    ((addr ≡ 0) × (b' ≡ b) × ((m : ℕ) → l ≤ m → m ≤ b.root_log2size → free m ≡ []))
    ⊎ ((i : ℕ) × (free' : ℕ → List ℕ) × (addr ≡ get_block_phy_addr b i)
        × Granted b free l i b' free')

pages_of :
    {b : Buddy} {free : ℕ → List ℕ} (l : ℕ)
    → 16 ≤ l
    → AllocRuns (b.root_log2size + 2) b free l
    → (addr : ℕ) × (b' : Buddy) × (allocate_pages l b ≡ some (addr, b'))
      × PagesResult b free l addr b'
unfolding allocate_pages get_block_phy_addr
pages_of {b} l lo (none, b1, runs, res) =
    let big : leb 16 l ≡ true = ground arith in (0, b1, rw (big, runs), inl (refl, res.0, res.1))
pages_of {b} l lo (some i, b1, runs, (free', g, keeps)) =
    let big : leb 16 l ≡ true = ground arith in
    (
      get_block_phy_addr b i,
      count_allocated b1 l,
      rw (big, runs) refl,
      inr (i, free', refl, count_allocated-Granted g),
    )

-- On a tree of blocks whose lists hold the available blocks, `allocate_pages` of 2 ^ l bytes,
-- l ≥ 16, returns. Either it hands out the address of a block of that size, which is inside the
-- array and now marked as taken, and the lists again hold available blocks of their sizes only; or it
-- returns 0, changes nothing, and no block of the size or a larger one was available.
pub allocate_pages_lem :
    {b : Buddy} {free : ℕ → List ℕ} (l : ℕ)
    → IsTree b
    → IsFree b free
    → 16 ≤ l
    → (addr : ℕ) × (b' : Buddy) × (allocate_pages l b ≡ some (addr, b'))
      × PagesResult b free l addr b'
allocate_pages_lem {b} l t v lo =
    pages_of l lo (alloc_block_size_lem (b.root_log2size + 2) l t v lo (omega arith) (omega arith))
