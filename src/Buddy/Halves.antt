-- ===== src/Buddy/Halves.antt =====
-- What splitting a block does to the whole tree.
use modern.Base.{
  ℕ, ◌+◌, ◌*◌, ◌≤◌, ◌<◌, ◌≡◌, ◌≢◌, ◌⊎◌, inl, inr, Bool, true, false, ◌==◌, ==_of_eq, ==_of_ne,
  if◌then◌else◌, refl, ap, ◌∙◌, arith, List, [], ◌∷◌, ℕ_discrete,
}
use modern.Buddy.Defs.{Buddy, update, block_log2size}
use modern.Buddy.Ring.{has}
use modern.Buddy.Lists.{IsFree, SameOutside, level_eq}
use modern.Buddy.Split.{flagged}
use modern.Buddy.Kept.{Kept}
use modern.Buddy.Whole.{parent_of, buddy_of}

-- Block `p`, taken and with nothing below it, is split into `l` and `r`.
module _ (b b' : Buddy) (free : ℕ → List ℕ) (p size : ℕ) (k : Kept b free p)
    (taken : (b.blocks p).available ≡ false) (touched : ℕ → Bool)
    (same : SameOutside
      (record b { blocks = flagged b.blocks (2 * p + 1) (2 * p + 2) })
      b'
      size
      touched)
    (lists : IsFree b' (update free size ((2 * p + 2) ∷ []))) (empty : free size ≡ [])
    (room : 2 * p + 2 < b.max_blocks) (lo : 16 ≤ size) (hi : size ≤ b.root_log2size)
    (left_level : block_log2size b (2 * p + 1) ≡ size)
    (right_level : block_log2size b (2 * p + 2) ≡ size) where
  abbrev l : ℕ
  l = 2 * p + 1

  abbrev r : ℕ
  r = 2 * p + 2

  abbrev free' : ℕ → List ℕ
  free' = update free size (r ∷ [])

  split_available :
      (j : ℕ)
      → (b'.blocks j).available
        ≡ (if j == r then true else if j == l then false else (b.blocks j).available)
  split_available j = same.avail j ∙ ground arith

  split_valid :
      (j : ℕ)
      → (b'.blocks j).valid ≡ (if j == r then true else if j == l then true else (b.blocks j).valid)
  split_valid j = same.valid j ∙ ground arith

  split-level : (j : ℕ) → block_log2size b' j ≡ block_log2size b j
  split-level j = level_eq b b' j same.root

  -- neither half was valid
  not_half : (j : ℕ) → (b.blocks j).valid ≡ true → (j ≢ l) × (j ≢ r)
  not_half j v = (
    λ e. k.leaf j v (omega (arith, e)) (omega (arith, e)),
    λ e. k.leaf j v (omega (arith, e)) (omega (arith, e)),
  )

  left_taken : (b'.blocks l).available ≡ false
  left_taken = ground (arith, split_available l)

  which : (j : ℕ) → (b'.blocks j).valid ≡ true → (j ≡ r) ⊎ ((j ≡ l) ⊎ ((b.blocks j).valid ≡ true))
  which j v = elim (ℕ_discrete j r) [
    | yes e ↦ inl e
    | no not_r ↦ elim (ℕ_discrete j l) [
      | yes e ↦ inr (inl e)
      | no not_l ↦ inr (inr (ground (arith, split_valid j)))
    ]
  ]

  still_valid : (j : ℕ) → (b.blocks j).valid ≡ true → (b'.blocks j).valid ≡ true
  still_valid j v = ground (arith, split_valid j)

  -- the children of a block that stays as it was
  half-up :
      (j : ℕ)
      → parent_of j ≡ p
      → (b'.blocks (buddy_of j)).valid ≡ true
      → ((b'.blocks (parent_of j)).valid ≡ true)
        × ((b'.blocks (parent_of j)).available ≡ false)
        × ((b'.blocks (buddy_of j)).valid ≡ true)
        × (false ≡ false)
  half-up j e uv = (
    ap (λ x. (b'.blocks x).valid) e ∙ still_valid p k.valid,
    ap (λ x. (b'.blocks x).available) e ∙ ground (arith, split_available p),
    uv,
    refl,
  )

  split-sizes :
      (j : ℕ)
      → (b'.blocks j).valid ≡ true
      → (j < b'.max_blocks) × (16 ≤ block_log2size b' j) × (block_log2size b' j ≤ b'.root_log2size)
  split-sizes j v = elim (which j v) [
    | inl e ↦ rw e (
      omega (arith, same.room, room),
      omega (arith, split-level r, right_level, lo),
      omega (arith, split-level r, right_level, hi, same.root),
    )
    | inr (inl e) ↦ rw e (
      omega (arith, same.room, room),
      omega (arith, split-level l, left_level, lo),
      omega (arith, split-level l, left_level, hi, same.root),
    )
    | inr (inr old) ↦
        let (in_array, at_least, at_most) = k.whole.sizes j old in
        (
          omega (arith, same.room, in_array),
          omega (arith, split-level j, at_least),
          omega (arith, split-level j, at_most, same.root),
        )
  ]

  split-listed :
      (j : ℕ)
      → (b'.blocks j).valid ≡ true
      → (b'.blocks j).available ≡ true
      → has j (free' (block_log2size b' j)) ≡ true
  split-listed j v a = elim (which j v) [
    | inl e ↦
        let at : block_log2size b' j ≡ size =
          ap (block_log2size b') e ∙ split-level r ∙ right_level in
        rw (==_of_eq at) (ground arith)
    | inr (inl e) ↦ absurd (cc (ap (λ x. (b'.blocks x).available) e, a, left_taken))
    | inr (inr old) ↦
        let (not_l, not_r) = not_half j old in
        let before : (b.blocks j).available ≡ true = ground (arith, split_available j) in
        let there = k.whole.listed j old before refl in
        rw (split-level j) (elim (ℕ_discrete (block_log2size b j) size) [
          | yes e ↦ absurd (cc (there, ap (λ x. has j (free x)) e, ap (has j) empty))
          | no ne ↦ rw (==_of_ne ne) there
        ])
  ]

  split-up :
      (j : ℕ)
      → (b'.blocks j).valid ≡ true
      → j ≢ 0
      → ((b'.blocks (parent_of j)).valid ≡ true)
        × ((b'.blocks (parent_of j)).available ≡ false)
        × ((b'.blocks (buddy_of j)).valid ≡ true)
        × (false ≡ false)
  split-up j v pos = elim (which j v) [
    | inl e ↦ half-up j (ap parent_of e ∙ omega arith) (ground (arith, split_valid (buddy_of j)))
    | inr (inl e) ↦
        half-up j (ap parent_of e ∙ omega arith) (ground (arith, split_valid (buddy_of j)))
    | inr (inr old) ↦
        let (pv, pa, uv, pm) = k.whole.up j old pos in
        let (not_l, not_r) = not_half (parent_of j) pv in
        (
          still_valid (parent_of j) pv,
          split_available (parent_of j) ∙ rw (==_of_ne not_r, ==_of_ne not_l) pa,
          still_valid (buddy_of j) uv,
          refl,
        )
  ]

  split-has :
      (j n : ℕ) → 16 ≤ n → n ≤ b.root_log2size → has j (free' n) ≡ true → (b'.blocks j).valid ≡ true
  split-has j n n_lo n_hi h = elim (ℕ_discrete n size) [
    | yes e ↦
        let there : has j (r ∷ []) ≡ true = (rw (==_of_eq e) at h) in ground (arith, split_valid j)
    | no ne ↦ still_valid j (k.whole.only_valid j n n_lo n_hi (rw (==_of_ne ne) at h)).0
  ]

  pub split-Kept : Kept b' free' l
  split-Kept = record {
    whole = record {
      tree = record {
        root_lo = omega (arith, same.root, k.whole.tree.root_lo);
        root_hi = omega (arith, same.root, k.whole.tree.root_hi);
        enough = rw (same.root, same.room) k.whole.tree.enough;
        small = omega (arith, same.room, k.whole.tree.small);
      };
      lists = lists;
      sizes = split-sizes;
      listed = λ j v a out. split-listed j v a;
      only_valid = λ j n n_lo n_hi h. (split-has j n n_lo (omega (arith, n_hi, same.root)) h, refl);
      up = split-up;
    };
    valid = ground (arith, split_valid l);
    leaf = λ j v pos e. elim (which j v) [
      | inl x ↦ absurd (omega (arith, e, x))
      | inr (inl x) ↦ absurd (omega (arith, e, x))
      | inr (inr old) ↦ (not_half (parent_of j) (k.whole.up j old pos).0).0 e
    ];
  }
