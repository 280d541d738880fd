-- ===== src/Buddy/Merge.antt =====
-- `try_merge_with_buddy`: a freed block goes up while its buddy is available.
use modern.Base.{
  ℕ, ◌≤◌, ◌≡◌, ◌≢◌, inl, inr, true, false, some, ◌==◌, ==_of_ne, if◌then◌else◌, sym, ap, ◌∙◌, arith,
  List,
}
use modern.Buddy.Defs.{Block, Buddy, block_log2size}
use modern.Buddy.Ops.{is_block, set_valid, set_available, remove_from_available_list}
use modern.Buddy.Ring.{has, IsRing-frame}
use modern.Buddy.Lists.{IsList, IsFree, SameOutside, level_eq}
use modern.Buddy.Lists.Remove.{remove_from_available_list_lem}
use modern.Buddy.Lists.Without.{without, without-has, has-without}
use modern.Buddy.Whole.{siblings, buddy_twice, IsWhole, parent_of, buddy_of, has-split}

-- Block `m` and its buddy `u` are one block again, their parent `p`.
abbrev pub merged : Buddy → ℕ → ℕ → ℕ → Buddy
merged b m u p =
    let removed = remove_from_available_list b u in
    let bl = set_valid removed.blocks u false in
    record removed { blocks = set_valid (set_available bl p true) m false }

-- A change of flags that leaves the available blocks of the lists available.
pub flags-IsList :
    (b : Buddy) (bl : ℕ → Block) (l : ℕ) (xs : List ℕ)
    → ((i : ℕ) → ((bl i).next ≡ (b.blocks i).next) × ((bl i).prev ≡ (b.blocks i).prev))
    → ((i : ℕ) → (b.blocks i).available ≡ true → (bl i).available ≡ true)
    → IsList b l xs
    → IsList (record b { blocks = bl }) l xs
unfolding block_log2size
flags-IsList b bl l xs links more v = record {
  head = v.head;
  ring = IsRing-frame b.blocks bl xs v.ring (λ i h. links i);
  distinct = v.distinct;
  level = v.level;
  free = λ i h. more i (v.free i h);
  inside = v.inside;
}

set_flags :
    (bl : ℕ → Block) (m u p i : ℕ)
    → let bl' = set_valid (set_available (set_valid bl u false) p true) m false in
      ((bl' i).next ≡ (bl i).next)
      × ((bl' i).prev ≡ (bl i).prev)
      × ((bl' i).available ≡ (if i == p then true else (bl i).available))
      × ((bl' i).valid ≡ (if i == m then false else if i == u then false else (bl i).valid))
set_flags bl m u p i = ground arith

-- `r` is the allocator without the buddy `u` of `m` in the lists.
module _ (b r : Buddy) (free free' : ℕ → List ℕ) (m : ℕ) (w : IsWhole (some m) b free)
    (valid : (b.blocks m).valid ≡ true) (below : m ≢ 0)
    (ready : (b.blocks (buddy_of m)).available ≡ true)
    (same : SameOutside b r
      (block_log2size b (buddy_of m))
      (λ i. has i (free (block_log2size b (buddy_of m)))))
    (lists : IsFree r free')
    (fewer : (i l : ℕ)
      → 16 ≤ l
      → l ≤ b.root_log2size
      → has i (free' l) ≡ true
      → (has i (free l) ≡ true) × (i ≢ buddy_of m))
    (rest : (i l : ℕ) → has i (free l) ≡ true → i ≢ buddy_of m → has i (free' l) ≡ true) where
  abbrev u : ℕ
  u = buddy_of m

  abbrev p : ℕ
  p = parent_of m

  abbrev after : Buddy
  after = record r {
    blocks = set_valid (set_available (set_valid r.blocks u false) p true) m false;
  }

  after-level : (i : ℕ) → block_log2size after i ≡ block_log2size b i
  after-level i = level_eq b after i same.root

  after_available :
      (i : ℕ) → (after.blocks i).available ≡ (if i == p then true else (b.blocks i).available)
  after_available i = ground (arith, same.avail i)

  after_valid :
      (i : ℕ)
      → (after.blocks i).valid
        ≡ (if i == m then false else if i == u then false else (b.blocks i).valid)
  after_valid i = ground (arith, same.valid i)

  -- what is valid after the merge was valid before and is not one of the two
  still_valid :
      (i : ℕ) → (after.blocks i).valid ≡ true → ((b.blocks i).valid ≡ true) × (i ≢ m) × (i ≢ u)
  still_valid i h = ground (arith, after_valid i)

  merged-up :
      (i : ℕ)
      → (after.blocks i).valid ≡ true
      → i ≢ 0
      → ((after.blocks (parent_of i)).valid ≡ true)
        × ((after.blocks (parent_of i)).available ≡ false)
        × ((after.blocks (buddy_of i)).valid ≡ true)
        × (is_block (some p) (parent_of i) ≡ false)
  merged-up i h pos =
      let (v, not_m, not_u) = still_valid i h in
      let (pv, pa, uv, pm) = w.up i v pos in
      let apart : parent_of i ≢ p =
        λ e. elim (siblings i m pos below e) [ inl x ↦ not_m x | inr x ↦ not_u x ] in
      let no_m : parent_of i ≢ m = ground arith in
      let no_u : parent_of i ≢ u = λ e. cc (ap (λ j. (b.blocks j).available) e, pa, ready) in
      let from_m : buddy_of i ≢ m = λ e. not_u (sym (buddy_twice i pos) ∙ ap buddy_of e) in
      let from_u : buddy_of i ≢ u =
        λ e. not_m (sym (buddy_twice i pos) ∙ ap buddy_of e ∙ buddy_twice m below) in
      (
        after_valid (parent_of i) ∙ rw (==_of_ne no_m, ==_of_ne no_u) pv,
        after_available (parent_of i) ∙ rw (==_of_ne apart) pa,
        after_valid (buddy_of i) ∙ rw (==_of_ne from_m, ==_of_ne from_u) uv,
        ==_of_ne (λ e. apart (sym e)),
      )

  merged-listed :
      (i : ℕ)
      → (after.blocks i).valid ≡ true
      → (after.blocks i).available ≡ true
      → is_block (some p) i ≡ false
      → has i (free' (block_log2size after i)) ≡ true
  merged-listed i h a out =
      let (v, not_m, not_u) = still_valid i h in
      let open_before : (b.blocks i).available ≡ true = ground (arith, after_available i) in
      rw (after-level i) (
        rest i (block_log2size b i) (w.listed i v open_before (==_of_ne (λ e. not_m (sym e))))
          not_u)

  merged-only_valid :
      (i l : ℕ)
      → 16 ≤ l
      → l ≤ r.root_log2size
      → has i (free' l) ≡ true
      → ((after.blocks i).valid ≡ true) × (is_block (some p) i ≡ false)
  merged-only_valid i l lo hi h =
      let top : l ≤ b.root_log2size = omega (arith, hi, same.root) in
      let (before, not_u) = fewer i l lo top h in
      let (v, hole) = w.only_valid i l lo top before in
      let open_before = (w.lists l lo top).free i before in
      let pa = (w.up m valid below).1 in
      let not_m : i ≢ m = ground arith in
      (
        after_valid i ∙ rw (==_of_ne not_m, ==_of_ne not_u) v,
        ==_of_ne (λ e. cc (ap (λ j. (b.blocks j).available) e, pa, open_before)),
      )

  pub merged_parent : (after.blocks p).valid ≡ true
  merged_parent =
      let not_m : p ≢ m = ground arith in
      let not_u : p ≢ u = ground arith in
      after_valid p ∙ rw (==_of_ne not_m, ==_of_ne not_u) (w.up m valid below).0

  pub merged-IsWhole : IsWhole (some p) after free'
  merged-IsWhole = record {
    tree = record {
      root_lo = omega (arith, same.root, w.tree.root_lo);
      root_hi = omega (arith, same.root, w.tree.root_hi);
      enough = rw (same.root, same.room) w.tree.enough;
      small = omega (arith, same.room, w.tree.small);
    };
    lists = λ l lo hi.
        flags-IsList r after.blocks l (free' l) (λ i. ground arith) (λ i h. ground arith)
          (lists l lo hi);
    sizes = λ i h.
        let (inside, lo, hi) = w.sizes i (still_valid i h).0 in
        (
          omega (arith, same.room, inside),
          omega (arith, after-level i, lo),
          omega (arith, after-level i, same.root, hi),
        );
    listed = merged-listed;
    only_valid = merged-only_valid;
    up = merged-up;
  }

-- One step of the merge keeps the invariant, with the parent in the place of the block.
pub merge_once :
    (b : Buddy) (free : ℕ → List ℕ) (m : ℕ)
    → IsWhole (some m) b free
    → (b.blocks m).valid ≡ true
    → m ≢ 0
    → (b.blocks (buddy_of m)).available ≡ true
    → (free' : ℕ → List ℕ) × IsWhole
        (some (parent_of m))
        (merged b m (buddy_of m) (parent_of m))
        free'
      × (((merged b m (buddy_of m) (parent_of m)).blocks (parent_of m)).valid ≡ true)
      × SameOutside b
          (remove_from_available_list b (buddy_of m))
          (block_log2size b (buddy_of m))
          (λ i. has i (free (block_log2size b (buddy_of m))))
merge_once b free m w valid below ready =
    let u = buddy_of m in
    let (pv, pa, uv, pm) = w.up m valid below in
    let here = w.listed u uv ready (ground arith) in
    let (pre, post, e) = has-split u (free (block_log2size b u)) here in
    let (u_in, u_lo, u_hi) = w.sizes u uv in
    let (same, v') = remove_from_available_list_lem u pre post w.lists u_lo u_hi e in
    let free' = without w.lists u pre post e u_lo u_hi in
    let fewer = without-has w.lists u pre post e u_lo u_hi in
    let rest = has-without w.lists u pre post e u_lo u_hi in
    let r = remove_from_available_list b u in
    (
      free',
      merged-IsWhole b r free free' m w valid below ready same v' fewer rest,
      merged_parent b r free free' m w valid below ready same v' fewer rest,
      same,
    )
