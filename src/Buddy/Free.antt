-- ===== src/Buddy/Free.antt =====
-- `try_merge_with_buddy` and `free_pages`, against the invariant of the tree.
use modern.Base.{
  ℕ, zero, suc, ◌<◌, ◌≡◌, ◌≢◌, ◌⊎◌, inl, inr, true, false, some, ==_of_ne, refl, ap, ◌∙◌, arith,
  List, ℕ_discrete, Bool-cases,
}
use modern.Buddy.Defs.{Buddy, get_parent}
use modern.Buddy.Ops.{set_valid, remove_from_available_list, try_merge_with_buddy}
use modern.Buddy.Whole.{IsWhole, parent_of, buddy_of, get_parent-parent_of, get_buddy-buddy_of}
use modern.Buddy.Merge.{merged, merge_once}

-- `k` levels up
abbrev pub up_by : ℕ → ℕ → ℕ
up_by zero i = i
up_by (suc k) i = up_by k (parent_of i)

-- Block `m` was merged into `top`: a block of its path to the root, in no list, whose buddy is taken.
pub record Merged (b : Buddy) (m top : ℕ) (b' : Buddy) (free' : ℕ → List ℕ) : Type 0 where
  pub whole : IsWhole (some top) b' free'
  pub valid : (b'.blocks top).valid ≡ true
  pub start : b'.phy_start ≡ b.phy_start
  pub root : b'.root_log2size ≡ b.root_log2size
  pub room : b'.max_blocks ≡ b.max_blocks
  pub alone : (top ≡ 0) ⊎ ((b'.blocks (buddy_of top)).available ≡ false)
  pub path : (k : ℕ) × (top ≡ up_by k m)

merge_root : (fuel : ℕ) (b : Buddy) → try_merge_with_buddy (suc fuel) b 0 ≡ some (0, b)
unfolding try_merge_with_buddy get_parent
merge_root fuel b = refl

module _ (fuel : ℕ) (b : Buddy) (m : ℕ) (below : m ≢ 0) where
  merge_stops :
      (b.blocks (buddy_of m)).available ≡ false → try_merge_with_buddy (suc fuel) b m ≡ some (m, b)
  unfolding try_merge_with_buddy
  merge_stops taken =
      rw (get_parent-parent_of m below, try_merge_with_buddy, get_buddy-buddy_of m below) (rw taken)

  merge_goes_on :
      (b.blocks (buddy_of m)).available ≡ true
      → let u = buddy_of m in
        let bl = set_valid (remove_from_available_list b u).blocks u false in
        ((bl (parent_of m)).available ≡ false)
        → ((bl (parent_of m)).valid ≡ true)
        → try_merge_with_buddy (suc fuel) b m
          ≡ try_merge_with_buddy fuel (merged b m (buddy_of m) (parent_of m)) (parent_of m)
  unfolding try_merge_with_buddy
  merge_goes_on ready pa pv =
      rw (get_parent-parent_of m below, try_merge_with_buddy, get_buddy-buddy_of m below)
        (rw (ready, pa, pv))

stays :
    {b : Buddy} {free : ℕ → List ℕ} {m : ℕ}
    → IsWhole (some m) b free
    → (b.blocks m).valid ≡ true
    → (m ≡ 0) ⊎ ((b.blocks (buddy_of m)).available ≡ false)
    → Merged b m m b free
stays w valid alone = record {
  whole = w;
  valid = valid;
  start = refl;
  root = refl;
  room = refl;
  alone = alone;
  path = (0, refl);
}

-- With fuel for the path to the root, `try_merge_with_buddy` returns, and its assertions hold.
pub try_merge_with_buddy_lem :
    (fuel : ℕ) (b : Buddy) (free : ℕ → List ℕ) (m : ℕ)
    → m < fuel
    → IsWhole (some m) b free
    → (b.blocks m).valid ≡ true
    → (top : ℕ) × (b' : Buddy) × (free' : ℕ → List ℕ) × (try_merge_with_buddy fuel b m
        ≡ some (top, b'))
      × Merged b m top b' free'
try_merge_with_buddy_lem zero b free m enough w valid = absurd (omega arith)
try_merge_with_buddy_lem (suc fuel) b free m enough w valid = elim (ℕ_discrete m 0) [
  | yes root ↦ (
    m,
    b,
    free,
    ap (try_merge_with_buddy (suc fuel) b) root ∙ merge_root fuel b ∙ rw root refl,
    stays w valid (inl root),
  )
  | no below ↦ elim (Bool-cases (b.blocks (buddy_of m)).available) [
    | inr taken ↦ (m, b, free, merge_stops fuel b m below taken, stays w valid (inr taken))
    | inl ready ↦
        let (pv, pa, uv, pm) = w.up m valid below in
        let (free1, w1, valid1, same) = merge_once b free m w valid below ready in
        let p = parent_of m in
        let far : p ≢ buddy_of m = ground arith in
        let b1 = merged b m (buddy_of m) p in
        let (top, b', free', runs, res) =
          try_merge_with_buddy_lem fuel b1 free1 p (omega arith) w1 valid1 in
        let (k, path) = res.path in
        (
          top,
          b',
          free',
          merge_goes_on fuel b m below ready (rw (==_of_ne far) (same.avail p ∙ pa))
                (rw (==_of_ne far) (same.valid p ∙ pv))
              ∙ runs,
          record {
            whole = res.whole;
            valid = res.valid;
            start = res.start ∙ same.start;
            root = res.root ∙ same.root;
            room = res.room ∙ same.room;
            alone = res.alone;
            path = (suc k, path);
          },
        )
  ]
]
