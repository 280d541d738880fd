-- ===== src/Buddy/Kept.antt =====
-- What taking the first available block does to the whole tree.
use modern.Base.{
  ℕ, ◌≤◌, ◌≡◌, ◌≢◌, true, false, none, ◌==◌, if◌then◌else◌, refl, sym, ap, ◌∙◌, arith, List,
}
use modern.Buddy.Defs.{Buddy, block_log2size}
use modern.Buddy.Ring.{has}
use modern.Buddy.Lists.{IsFree, level_eq}
use modern.Buddy.Whole.{IsWhole, parent_of, buddy_of}

-- The tree with block `i` handed out: nothing is below it.
pub record Kept (b : Buddy) (free : ℕ → List ℕ) (i : ℕ) : Type 0 where
  pub whole : IsWhole none b free
  pub valid : (b.blocks i).valid ≡ true
  pub leaf : (j : ℕ) → (b.blocks j).valid ≡ true → j ≢ 0 → parent_of j ≢ i

-- The first block of its list is taken: `b'` is `b` with the block marked and out of the list.
module _ (b b' : Buddy) (free free' : ℕ → List ℕ) (i : ℕ) (w : IsWhole none b free)
    (valid : (b.blocks i).valid ≡ true) (ready : (b.blocks i).available ≡ true)
    (root : b'.root_log2size ≡ b.root_log2size) (room : b'.max_blocks ≡ b.max_blocks)
    (marked : (j : ℕ)
      → (b'.blocks j).available ≡ (if j == i then false else (b.blocks j).available))
    (kept : (j : ℕ) → (b'.blocks j).valid ≡ (b.blocks j).valid) (lists : IsFree b' free')
    (fewer : (j l : ℕ)
      → 16 ≤ l
      → l ≤ b.root_log2size
      → has j (free' l) ≡ true
      → (has j (free l) ≡ true) × (j ≢ i))
    (rest : (j l : ℕ) → has j (free l) ≡ true → j ≢ i → has j (free' l) ≡ true) where
  taken-up :
      (j : ℕ)
      → (b'.blocks j).valid ≡ true
      → j ≢ 0
      → ((b'.blocks (parent_of j)).valid ≡ true)
        × ((b'.blocks (parent_of j)).available ≡ false)
        × ((b'.blocks (buddy_of j)).valid ≡ true)
        × (false ≡ false)
  taken-up j v pos =
      let (pv, pa, uv, pm) = w.up j (sym (kept j) ∙ v) pos in
      (kept (parent_of j) ∙ pv, ground (arith, marked (parent_of j)), kept (buddy_of j) ∙ uv, refl)

  pub taken-Kept : Kept b' free' i
  taken-Kept = record {
    whole = record {
      tree = record {
        root_lo = omega (arith, root, w.tree.root_lo);
        root_hi = omega (arith, root, w.tree.root_hi);
        enough = rw (root, room) w.tree.enough;
        small = omega (arith, room, w.tree.small);
      };
      lists = lists;
      sizes = λ j v.
          let (inside, lo, hi) = w.sizes j (sym (kept j) ∙ v) in
          (
            omega (arith, room, inside),
            omega (arith, level_eq b b' j root, lo),
            omega (arith, level_eq b b' j root, root, hi),
          );
      listed = λ j v a out.
          let before : (b.blocks j).available ≡ true = ground (arith, marked j) in
          let apart : j ≢ i = ground (arith, marked j) in
          rw (level_eq b b' j root)
            (rest j (block_log2size b j) (w.listed j (sym (kept j) ∙ v) before refl) apart);
      only_valid = λ j l lo hi h.
          let top : l ≤ b.root_log2size = omega (arith, hi, root) in
          (kept j ∙ (w.only_valid j l lo top (fewer j l lo top h).0).0, refl);
      up = taken-up;
    };
    valid = kept i ∙ valid;
    leaf = λ j v pos e.
        let pa = (w.up j (sym (kept j) ∙ v) pos).1 in
        cc (ap (λ x. (b.blocks x).available) e, pa, ready);
  }
