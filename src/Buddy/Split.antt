-- ===== src/Buddy/Split.antt =====
-- `split` of a block, against the lists of available blocks.
use native.Mathlib.Nat.{pow-le-pow_right, pow-suc}
use modern.Base.{
  ℕ, suc, ◌-◌, ◌+◌, ◌*◌, ◌^◌, ◌≤◌, ◌<◌, ◌≡◌, true, false, some, ◌==◌, ==_of_ne, if◌then◌else◌, refl,
  sym, ◌∙◌, ap, arith, List, [], ◌∷◌, ℕ_discrete,
}
use modern.Utils.{log2}
use modern.Utils.Log2.{log2-IsLog2, log2-lt}
use modern.Buddy.Defs.{Block, Buddy, update, block_log2size}
use modern.Buddy.Ops.{set_available, set_valid, split, add_to_available_list}
use modern.Buddy.Tree.{AreChildren, children_lem}
use modern.Buddy.Ring.{has, IsRing-frame}
use modern.Buddy.Lists.{IsList, IsFree, SameOutside, level_eq}
use modern.Buddy.Lists.Add.{add_to_available_list_lem}

-- The sizes fit the buckets, and the array has a block for every node of the tree.
pub record IsTree (b : Buddy) : Type 0 where
  pub root_lo : 16 ≤ b.root_log2size
  pub root_hi : b.root_log2size ≤ 32
  pub enough : 2 ^ (b.root_log2size - 15) ≤ b.max_blocks
  pub small : b.max_blocks < 2 ^ 63

-- The depth of a block of a size that the tree has.
pub depth_of_level :
    {b : Buddy} (p m : ℕ)
    → IsTree b
    → block_log2size b p ≡ m
    → m ≤ b.root_log2size
    → log2 (p + 1) + m ≡ b.root_log2size
unfolding block_log2size
depth_of_level p m t e h = omega (arith, log2-lt (p + 1), t.root_hi)

pub children_of :
    {b : Buddy} (p l : ℕ)
    → IsTree b
    → block_log2size b p ≡ suc l
    → 16 ≤ l
    → suc l ≤ b.root_log2size
    → p < b.max_blocks
    → (2 * p + 2 < b.max_blocks) × AreChildren b p (2 * p + 1) (2 * p + 2)
children_of {b} p l t e lo hi inside =
    let d = depth_of_level p (suc l) t e hi in
    let i = log2-IsLog2 (p + 1) (omega arith) (omega (arith, t.small)) in
    let n : ℕ = log2 (p + 1) in
    let up : 2 ^ suc (suc n) ≤ 2 ^ (b.root_log2size - 15) =
      pow-le-pow_right (omega arith) (omega arith) in
    let room : 2 * p + 2 < b.max_blocks =
      omega (arith, up, i.upper, pow-suc 2 n, pow-suc 2 (suc n), t.enough) in
    (room, children_lem b p room t.small (omega (arith, t.root_hi)) (omega arith))

-- the flags of the two children
abbrev pub flagged : (ℕ → Block) → ℕ → ℕ → ℕ → Block
flagged bl left right =
    let bl1 = set_valid (set_available bl left false) left true in
    set_valid (set_available bl1 right true) right true

flagged_fields :
    (bl : ℕ → Block) (left right i : ℕ)
    → ((flagged bl left right i).next ≡ (bl i).next)
      × ((flagged bl left right i).prev ≡ (bl i).prev)
      × ((flagged bl left right i).available
          ≡ (if i == right then true else if i == left then false else (bl i).available))
flagged_fields bl left right i = ground arith

-- Flagging blocks of a size with an empty list changes no list.
flagged-IsList :
    {b : Buddy} {xs : List ℕ} {m l : ℕ} (left right : ℕ)
    → IsList b m xs
    → (m ≡ l → xs ≡ [])
    → block_log2size b left ≡ l
    → IsList (record b { blocks = flagged b.blocks left right }) m xs
unfolding block_log2size
flagged-IsList {b} {xs} {m} {l} left right v empty at = record {
  head = v.head;
  ring =
      IsRing-frame b.blocks (flagged b.blocks left right) xs v.ring (λ i h.
        ((flagged_fields b.blocks left right i).0, (flagged_fields b.blocks left right i).1));
  distinct = v.distinct;
  level = v.level;
  free = λ i h. (flagged_fields b.blocks left right i).2 ∙ kept i h;
  inside = v.inside;
}
  where
    kept :
        (i : ℕ)
        → has i xs ≡ true
        → (if i == right then true else if i == left then false else (b.blocks i).available) ≡ true
    kept i h = elim (ℕ_discrete i left) [
      | yes here ↦
          let none_there : has i xs ≡ false =
            ap (has i) (empty (sym (v.level i h) ∙ ap (block_log2size b) here ∙ at)) in
          cc (h, none_there)
      | no ne ↦ rw (==_of_ne ne) (ground (arith, v.free i h))
    ]

-- A block that joins an empty list is that list.
add_alone :
    {b : Buddy} {free : ℕ → List ℕ} (n l : ℕ)
    → IsFree b free
    → block_log2size b n ≡ l
    → 16 ≤ l
    → l ≤ b.root_log2size
    → free l ≡ []
    → (b.blocks n).available ≡ true
    → n < b.max_blocks
    → (b' : Buddy) × (add_to_available_list b n ≡ some b')
      × SameOutside b b' l (λ i. has i (n ∷ []))
      × IsFree b' (update free l (n ∷ []))
add_alone {b} {free} n l v e lo hi empty ready inside =
    let out : has n (free (block_log2size b n)) ≡ false = rw (e, empty) refl in
    let (b', runs, same, v') = add_to_available_list_lem n v (rw e lo) (rw e hi) out ready inside in
    (b', runs, (rw (e, empty) at same), (rw (e, empty) at v'))

-- Splitting a block of size 2 ^ (l + 1), where no block of size 2 ^ l is available, hands out its
-- left child, marked as taken, and makes its right child the only available block of that size.
pub split_lem :
    {b : Buddy} {free : ℕ → List ℕ} (p l : ℕ)
    → IsTree b
    → IsFree b free
    → block_log2size b p ≡ suc l
    → 16 ≤ l
    → suc l ≤ b.root_log2size
    → p < b.max_blocks
    → free l ≡ []
    → (b' : Buddy) × (split b p ≡ some (some (2 * p + 1), b'))
      × SameOutside
          (record b { blocks = flagged b.blocks (2 * p + 1) (2 * p + 2) })
          b'
          l
          (λ i. has i ((2 * p + 2) ∷ []))
      × IsFree b' (update free l ((2 * p + 2) ∷ []))
      × (block_log2size b' (2 * p + 1) ≡ l)
      × ((b'.blocks (2 * p + 1)).available ≡ false)
      × (2 * p + 1 < b.max_blocks)
unfolding split
split_lem {b} {free} p l t v e lo hi inside none_left =
    let (room, ch) = children_of p l t e lo hi inside in
    let at_left : block_log2size b (2 * p + 1) ≡ l = omega (arith, ch.left_level, e) in
    let at_right : block_log2size b (2 * p + 2) ≡ l = omega (arith, ch.right_level, e) in
    let v1 : IsFree (record b { blocks = flagged b.blocks (2 * p + 1) (2 * p + 2) }) free =
      λ m mlo mhi.
        flagged-IsList (2 * p + 1) (2 * p + 2) (v m mlo mhi) (λ same. rw same none_left) at_left in
    let (b', runs, same, v') =
      add_alone (2 * p + 2) l v1 (level_eq b _ (2 * p + 2) refl ∙ at_right) lo (omega arith)
        none_left (ground arith) room in
    (
      b',
      rw (ch.left, ch.right, runs) refl,
      same,
      v',
      level_eq b b' (2 * p + 1) same.root ∙ at_left,
      same.avail (2 * p + 1) ∙ ground arith,
      omega (arith, room),
    )
