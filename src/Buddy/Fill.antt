-- ===== src/Buddy/Fill.antt =====
-- `free_pages`: the hole of a tree is filled when its block joins a list.
use modern.Base.{
  ℕ, ◌≡◌, ◌≢◌, ◌⊎◌, inl, inr, Bool, true, false, none, some, ◌==◌, ==_of_eq, ==_of_ne,
  if◌then◌else◌, refl, sym, ap, ◌∙◌, arith, List, [], ◌∷◌, ◌++◌, ℕ_discrete,
}
use modern.Buddy.Defs.{Buddy, update, block_log2size}
use modern.Buddy.Ops.{set_available}
use modern.Buddy.Ring.{has, has-append}
use modern.Buddy.Lists.{IsFree, SameOutside, level_eq}
use modern.Buddy.Whole.{IsWhole, parent_of, buddy_of}

-- The hole is filled: `top` is marked as available and joins its list.
module _ (b b' : Buddy) (free : ℕ → List ℕ) (top l : ℕ) (w : IsWhole (some top) b free)
    (valid : (b.blocks top).valid ≡ true) (level : block_log2size b top ≡ l) (touched : ℕ → Bool)
    (same : SameOutside (record b { blocks = set_available b.blocks top true }) b' l touched)
    (lists : IsFree b' (update free l (free l ++ (top ∷ [])))) where
  abbrev free' : ℕ → List ℕ
  free' = update free l (free l ++ (top ∷ []))

  filled_available :
      (i : ℕ) → (b'.blocks i).available ≡ (if i == top then true else (b.blocks i).available)
  filled_available i = same.avail i ∙ ground arith

  filled_valid : (i : ℕ) → (b'.blocks i).valid ≡ (b.blocks i).valid
  filled_valid i = same.valid i ∙ ground arith

  filled-level : (i : ℕ) → block_log2size b' i ≡ block_log2size b i
  filled-level i = level_eq b b' i same.root

  has-filled : (i k : ℕ) → has i (free k) ≡ true → has i (free' k) ≡ true
  has-filled i k h = elim (ℕ_discrete k l) [
    | yes here ↦
        rw (==_of_eq here)
          (ground (arith, has-append i (free l) (top ∷ []), ap (λ j. has i (free j)) here))
    | no away ↦ rw (==_of_ne away) h
  ]

  filled-has : (i k : ℕ) → has i (free' k) ≡ true → (i ≡ top) ⊎ (has i (free k) ≡ true)
  filled-has i k h = elim (ℕ_discrete k l) [
    | yes here ↦
        let there : has i (free l ++ (top ∷ [])) ≡ true = (rw (==_of_eq here) at h) in
        elim (ℕ_discrete i top) [
          | yes e ↦ inl e
          | no ne ↦ inr (
              ap (λ j. has i (free j)) here
              ∙ ground (arith, has-append i (free l) (top ∷ []), ==_of_ne ne))
        ]
    | no away ↦ inr (rw (==_of_ne away) at h)
  ]

  filled-listed :
      (i : ℕ)
      → (b'.blocks i).valid ≡ true
      → (b'.blocks i).available ≡ true
      → has i (free' (block_log2size b' i)) ≡ true
  filled-listed i v a = rw (filled-level i) (elim (ℕ_discrete i top) [
    | yes here ↦
        let at : block_log2size b i ≡ l = ap (block_log2size b) here ∙ level in
        rw (==_of_eq at) (ground (arith, has-append i (free l) (top ∷ []), here))
    | no away ↦ has-filled i (block_log2size b i) (
        w.listed i (sym (filled_valid i) ∙ v) (ground (arith, filled_available i))
          (==_of_ne (λ e. away (sym e))))
  ])

  filled-up :
      (i : ℕ)
      → (b'.blocks i).valid ≡ true
      → i ≢ 0
      → ((b'.blocks (parent_of i)).valid ≡ true)
        × ((b'.blocks (parent_of i)).available ≡ false)
        × ((b'.blocks (buddy_of i)).valid ≡ true)
        × (false ≡ false)
  filled-up i v pos =
      let (pv, pa, uv, pm) = w.up i (sym (filled_valid i) ∙ v) pos in
      let apart : parent_of i ≢ top = ground arith in
      (
        filled_valid (parent_of i) ∙ pv,
        filled_available (parent_of i) ∙ rw (==_of_ne apart) pa,
        filled_valid (buddy_of i) ∙ uv,
        refl,
      )

  pub filled-IsWhole : IsWhole none b' free'
  filled-IsWhole = record {
    tree = record {
      root_lo = omega (arith, same.root, w.tree.root_lo);
      root_hi = omega (arith, same.root, w.tree.root_hi);
      enough = rw (same.root, same.room) w.tree.enough;
      small = omega (arith, same.room, w.tree.small);
    };
    lists = lists;
    sizes = λ i h.
        let (inside, lo, hi) = w.sizes i (sym (filled_valid i) ∙ h) in
        (
          omega (arith, same.room, inside),
          omega (arith, filled-level i, lo),
          omega (arith, filled-level i, same.root, hi),
        );
    listed = λ i v a out. filled-listed i v a;
    only_valid = λ i k lo hi h. (
      elim (filled-has i k h) [
        | inl e ↦ filled_valid i ∙ ap (λ j. (b.blocks j).valid) e ∙ valid
        | inr old ↦ filled_valid i ∙ (w.only_valid i k lo (omega (arith, same.root, hi)) old).0
      ],
      refl,
    );
    up = filled-up;
  }

  pub filled-joined : has top (free' (block_log2size b' top)) ≡ true
  filled-joined = filled-listed top (filled_valid top ∙ valid) (filled_available top ∙ ground arith)

  pub filled_alone :
      (top ≡ 0) ⊎ ((b.blocks (buddy_of top)).available ≡ false)
      → (top ≡ 0) ⊎ ((b'.blocks (buddy_of top)).available ≡ false)
  filled_alone (inl root) = inl root
  filled_alone (inr taken) = elim (ℕ_discrete top 0) [
    | yes root ↦ inl root
    | no below ↦
        let apart : buddy_of top ≢ top = ground arith in
        inr (filled_available (buddy_of top) ∙ rw (==_of_ne apart) taken)
  ]
