-- ===== src/Buddy/Release.antt =====
-- `free_pages`: the merged block joins the list of its size.
use native.Mathlib.Nat.{pow-le-pow_right}
use modern.Base.{
  ℕ, ◌^◌, suc, ◌+◌, ◌*◌, ◌/◌, ◌%◌, ◌≤◌, ◌<◌, ◌≡◌, ◌≢◌, ◌⊎◌, true, false, none, some, ==_of_ne, refl,
  sym, ap, ◌∙◌, arith, List, [], ◌∷◌, ◌++◌,
}
use modern.Base.Bytes.{sub64, u64_mod}
use modern.Utils.{log2}
use modern.Utils.Log2.{log2-IsLog2}
use modern.Buddy.Defs.{Buddy, update, block_log2size, bucket_index, get_block_phy_addr, block_size}
use modern.Buddy.Ops.{set_available, add_to_available_list, try_merge_with_buddy, free_pages}
use modern.Buddy.Ring.{has}
use modern.Buddy.Lists.{IsFree, SameOutside, level_eq}
use modern.Buddy.Lists.Add.{add_to_available_list_lem}
use modern.Buddy.Split.{depth_of_level}
use modern.Buddy.Whole.{IsWhole, parent_of, buddy_of}
use modern.Buddy.Fill.{filled-IsWhole, filled-joined, filled_alone}
use modern.Buddy.Merge.{flags-IsList}
use modern.Buddy.Free.{up_by, Merged, try_merge_with_buddy_lem}

-- The counter of a bucket is not part of the invariant.
abbrev pub counted : Buddy → ℕ → ℕ → Buddy
counted b k n = record b {
  buckets = update b.buckets k (record (b.buckets k) { allocated_blocks = n });
}

pub counted-IsWhole :
    (b : Buddy) (free : ℕ → List ℕ) (k n : ℕ)
    → IsWhole none b free
    → IsWhole none (counted b k n) free
unfolding block_log2size
counted-IsWhole b free k n w = record {
  tree = record {
    root_lo = w.tree.root_lo;
    root_hi = w.tree.root_hi;
    enough = w.tree.enough;
    small = w.tree.small;
  };
  lists = λ l lo hi.
      let at = w.lists l lo hi in
      record {
        head = ground (arith, at.head);
        ring = at.ring;
        distinct = at.distinct;
        level = at.level;
        free = at.free;
        inside = at.inside;
      };
  sizes = w.sizes;
  listed = w.listed;
  only_valid = w.only_valid;
  up = w.up;
}

-- A taken block with nothing below it may be the hole.
open_hole :
    (b : Buddy) (free : ℕ → List ℕ) (i : ℕ)
    → IsWhole none b free
    → (b.blocks i).available ≡ false
    → ((j : ℕ) → (b.blocks j).valid ≡ true → j ≢ 0 → parent_of j ≢ i)
    → IsWhole (some i) b free
open_hole b free i w taken leaf = record {
  tree = w.tree;
  lists = w.lists;
  sizes = w.sizes;
  listed = λ j v a out. w.listed j v a refl;
  only_valid = λ j l lo hi h. (
    (w.only_valid j l lo hi h).0,
    ==_of_ne (λ e. cc (ap (λ x. (b.blocks x).available) e, taken, (w.lists l lo hi).free j h)),
  );
  up = λ j v pos.
      let (pv, pa, uv, pm) = w.up j v pos in (pv, pa, uv, ==_of_ne (λ e. leaf j v pos (sym e)));
}

-- the address of a block leads back to it
block_at :
    (b : Buddy) (free : ℕ → List ℕ) (i : ℕ)
    → IsWhole none b free
    → (b.blocks i).valid ≡ true
    → b.phy_start < u64_mod
    → sub64 (get_block_phy_addr b i) b.phy_start ≡ i * block_size
unfolding get_block_phy_addr
block_at b free i w valid start =
    let (inside, lo, hi) = w.sizes i valid in
    let d = depth_of_level i (block_log2size b i) w.tree refl hi in
    let bound = log2-IsLog2 (i + 1) (omega arith) (omega (arith, w.tree.small)) in
    let n : ℕ = log2 (i + 1) in
    let up : 2 ^ suc n ≤ 2 ^ 17 =
      pow-le-pow_right (omega arith) {j = 17} (omega (arith, d, lo, w.tree.root_hi)) in
    omega (arith, bound.upper, up, start)

-- What a release leaves: an allocator that meets the invariant, in which a block `top` of the path
-- from `i` to the root is available, and its buddy is not.
pub record Released (b : Buddy) (i : ℕ) (b' : Buddy) (free' : ℕ → List ℕ) (top : ℕ) : Type 0 where
  pub whole : IsWhole none b' free'
  pub start : b'.phy_start ≡ b.phy_start
  pub root : b'.root_log2size ≡ b.root_log2size
  pub joined : has top (free' (block_log2size b' top)) ≡ true
  pub path : (k : ℕ) × (top ≡ up_by k i)
  pub alone : (top ≡ 0) ⊎ ((b'.blocks (buddy_of top)).available ≡ false)

-- `add_to_available_list` on a block whose size is known
added_at :
    {b : Buddy} {free : ℕ → List ℕ} (n l : ℕ)
    → IsFree b free
    → block_log2size b n ≡ l
    → 16 ≤ l
    → l ≤ b.root_log2size
    → has n (free l) ≡ false
    → (b.blocks n).available ≡ true
    → n < b.max_blocks
    → (b' : Buddy) × (add_to_available_list b n ≡ some b')
      × SameOutside b b' l (λ i. has i (n ∷ free l))
      × IsFree b' (update free l (free l ++ (n ∷ [])))
added_at {b} {free} n l v e lo hi out ready inside =
    let (b', runs, same, v') =
      add_to_available_list_lem n v (rw e lo) (rw e hi) (rw e out) ready inside in
    (b', runs, (rw e at same), (rw e at v'))

-- `top` joins its list, after the merge.
fill :
    (b b1 : Buddy) (free1 : ℕ → List ℕ) (i top : ℕ)
    → Merged b i top b1 free1
    → (b2 : Buddy) × (free' : ℕ → List ℕ) × (add_to_available_list
          (record b1 { blocks = set_available b1.blocks top true })
          top
        ≡ some b2)
      × Released b i b2 free' top
fill b b1 free1 i top m =
    let w = m.whole in
    let (inside, lo, hi) = w.sizes top m.valid in
    let ready = record b1 { blocks = set_available b1.blocks top true } in
    let l = block_log2size b1 top in
    let v1 : IsFree ready free1 = λ k klo khi.
      flags-IsList b1 ready.blocks k (free1 k) (λ j. ground arith) (λ j h. ground arith)
        (w.lists k klo khi) in
    let out : has top (free1 l) ≡ false = ground (arith, w.only_valid top l lo hi) in
    let (b2, adds, same, v2) =
      added_at top l v1 (level_eq b1 ready top refl) lo hi out (ground arith) inside in
    (
      b2,
      update free1 l (free1 l ++ (top ∷ [])),
      adds,
      record {
        whole =
            filled-IsWhole b1 b2 free1 top l w m.valid refl (λ j. has j (top ∷ free1 l)) same v2;
        start = same.start ∙ m.start;
        root = same.root ∙ m.root;
        joined =
            filled-joined b1 b2 free1 top l w m.valid refl (λ j. has j (top ∷ free1 l)) same v2;
        path = m.path;
        alone =
            filled_alone b1 b2 free1 top l w m.valid refl (λ j. has j (top ∷ free1 l)) same v2
              m.alone;
      },
    )

free_runs :
    (b b1 b2 : Buddy) (i top : ℕ)
    → sub64 (get_block_phy_addr b i) b.phy_start ≡ i * block_size
    → (b.blocks i).available ≡ false
    → try_merge_with_buddy (i + 1) b i ≡ some (top, b1)
    → add_to_available_list (record b1 { blocks = set_available b1.blocks top true }) top ≡ some b2
    → let k = bucket_index (block_log2size b2 i) in
      free_pages (get_block_phy_addr b i) b
      ≡ some (counted b2 k (sub64 (b2.buckets k).allocated_blocks 1))
unfolding free_pages
free_runs b b1 b2 i top at taken merges adds =
    let down : i * block_size / block_size ≡ i = omega arith in
    let aligned : i * block_size % block_size ≡ 0 = omega arith in
    rw (at, down, aligned, taken, merges, adds)

counted-Released :
    (b b2 : Buddy) (i top k n : ℕ) (free' : ℕ → List ℕ)
    → Released b i b2 free' top
    → Released b i (counted b2 k n) free' top
unfolding block_log2size
counted-Released b b2 i top k n free' r = record {
  whole = counted-IsWhole b2 free' k n r.whole;
  start = r.start;
  root = r.root;
  joined = r.joined;
  path = r.path;
  alone = r.alone;
}

-- `free_pages`, on an allocator that meets the invariant and the address of a block that is handed
-- out, succeeds: no assertion fails. The block, merged with every available buddy on its way to the
-- root, is in the list of its size again, the merged block's own buddy is not available, and the
-- invariant holds.
pub free_pages_lem :
    (b : Buddy) (free : ℕ → List ℕ) (i : ℕ)
    → IsWhole none b free
    → b.phy_start < u64_mod
    → (b.blocks i).valid ≡ true
    → (b.blocks i).available ≡ false
    → ((j : ℕ) → (b.blocks j).valid ≡ true → j ≢ 0 → parent_of j ≢ i)
    → (b' : Buddy) × (free' : ℕ → List ℕ) × (top : ℕ) × (free_pages (get_block_phy_addr b i) b
        ≡ some b')
      × Released b i b' free' top
free_pages_lem b free i w start valid taken leaf =
    let (top, b1, free1, merges, m) =
      try_merge_with_buddy_lem (i + 1) b free i (omega arith) (open_hole b free i w taken leaf)
        valid in
    let (b2, free', adds, r) = fill b b1 free1 i top m in
    let k = bucket_index (block_log2size b2 i) in
    let n = sub64 (b2.buckets k).allocated_blocks 1 in
    (
      counted b2 k n,
      free',
      top,
      free_runs b b1 b2 i top (block_at b free i w valid start) taken merges adds,
      counted-Released b b2 i top k n free' r,
    )
