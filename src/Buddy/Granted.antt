-- ===== src/Buddy/Granted.antt =====
-- What `alloc_block_size` leaves when it hands out a block: the case of an available one of the size.
use modern.Base.{
  ℕ, ◌≤◌, ◌<◌, ◌≡◌, ◌≢◌, Bool, true, false, Option, none, some, ==_of_eq, ==_of_ne, refl, ap, subst,
  ◌∙◌, arith, List, [], ◌∷◌, ℕ_discrete,
}
use mathlib.Core.Path.{fun_ext}
use modern.Buddy.Defs.{Block, Buddy, update, block_log2size}
use modern.Buddy.Ops.{set_available, unlink, remove_from_available_list}
use modern.Buddy.Ring.{has, IsRing-frame}
use modern.Buddy.Lists.{IsList, IsFree, level_eq}
use modern.Buddy.Lists.Remove.{remove_from_available_list_lem}
use modern.Buddy.Lists.Without.{without-has, has-without}
use modern.Buddy.Whole.{IsWhole}
use modern.Buddy.Kept.{Kept, taken-Kept}

-- What a granted request leaves: block `i` has the size, is inside the array and is marked as
-- taken, and the lists are again those of the available blocks; smaller sizes keep their lists.
pub record Granted (b : Buddy) (free : ℕ → List ℕ) (l i : ℕ) (b' : Buddy) (free' : ℕ → List ℕ)
    : Type 0 where
  pub valid : IsFree b' free'
  pub start : b'.phy_start ≡ b.phy_start
  pub root : b'.root_log2size ≡ b.root_log2size
  pub room : b'.max_blocks ≡ b.max_blocks
  pub level : block_log2size b' i ≡ l
  pub fits : l ≤ b.root_log2size
  pub inside : i < b.max_blocks
  pub taken : (b'.blocks i).available ≡ false
  pub below : (m : ℕ) → m < l → free' m ≡ free m

abbrev pub AllocResult : Buddy → (ℕ → List ℕ) → ℕ → Option ℕ → Buddy → Type 0
AllocResult b free l none b' = (b' ≡ b) × ((m : ℕ) → l ≤ m → m ≤ b.root_log2size → free m ≡ [])
AllocResult b free l (some i) b' =
    (free' : ℕ → List ℕ) × Granted b free l i b' free' × (IsWhole none b free → Kept b' free' i)

unlink-set_available :
    (bl : ℕ → Block) (p q : Option ℕ) (i : ℕ) (v : Bool)
    → unlink (set_available bl i v) p q ≡ set_available (unlink bl p q) i v
unfolding unlink
unlink-set_available bl none none i v = refl
unlink-set_available bl (some p) none i v = fun_ext (λ j. ground arith)
unlink-set_available bl none (some q) i v = fun_ext (λ j. ground arith)
unlink-set_available bl (some p) (some q) i v = fun_ext (λ j. ground arith)

-- marked before or after it leaves its list
taken_later :
    (b : Buddy) (i : ℕ)
    → remove_from_available_list (record b { blocks = set_available b.blocks i false }) i
      ≡ record (remove_from_available_list b i) {
        blocks = set_available (remove_from_available_list b i).blocks i false;
      }
unfolding remove_from_available_list block_log2size
taken_later b i = rw (==_of_eq {a = i} refl, unlink-set_available)

-- Marking a block outside a list does not change the list.
taken-IsList :
    {b : Buddy} {m : ℕ} {xs : List ℕ} (i : ℕ)
    → IsList b m xs
    → has i xs ≡ false
    → IsList (record b { blocks = set_available b.blocks i false }) m xs
unfolding block_log2size
taken-IsList {b} {m} {xs} i v out = record {
  head = v.head;
  ring = IsRing-frame b.blocks (set_available b.blocks i false) xs v.ring (λ j h. ground arith);
  distinct = v.distinct;
  level = v.level;
  free = λ j h. ground (arith, v.free j h);
  inside = v.inside;
}

-- A block stands in no list of another size.
only_list :
    {b : Buddy} {free : ℕ → List ℕ}
    → IsFree b free
    → (i m : ℕ) → 16 ≤ m
    → m ≤ b.root_log2size
    → m ≢ block_log2size b i
    → has i (free m) ≡ false
only_list v i m lo hi ne = ground (arith, (v m lo hi).level i)

-- what the allocation of the first available block leaves
pub first_Granted :
    {b : Buddy} {free : ℕ → List ℕ} (l i : ℕ) (xs : List ℕ)
    → IsFree b free
    → 16 ≤ l
    → l ≤ b.root_log2size
    → free l ≡ i ∷ xs
    → Granted b free l i
        (remove_from_available_list (record b { blocks = set_available b.blocks i false }) i)
        (update free l xs)
first_Granted {b} {free} l i xs v lo hi e =
    let at : IsList b l (i ∷ xs) = subst (IsList b l) e (v l lo hi) in
    let level = at.level i (ground arith) in
    let (same, v') =
      remove_from_available_list_lem i [] xs v (rw level lo) (rw level hi) (rw level e) in
    rw (taken_later b i) (record {
      valid = λ m mlo mhi. taken-IsList i ((rw level at v') m mlo mhi) (elim (ℕ_discrete m l) [
        | yes here ↦ rw (==_of_eq here) at.distinct.0
        | no ne ↦
            rw (==_of_ne ne)
              (only_list v i m mlo (omega (arith, mhi, same.root)) (omega (arith, ne, level)))
      ]);
      start = same.start;
      root = same.root;
      room = same.room;
      level = level_eq b _ i same.root ∙ level;
      fits = hi;
      inside = at.inside i (ground arith);
      taken = ground arith;
      below = λ m h. ground arith;
    })

-- and what it leaves of the whole tree
pub first_Kept :
    {b : Buddy} {free : ℕ → List ℕ} (l i : ℕ) (xs : List ℕ)
    → IsWhole none b free
    → 16 ≤ l
    → l ≤ b.root_log2size
    → free l ≡ i ∷ xs
    → Kept
        (remove_from_available_list (record b { blocks = set_available b.blocks i false }) i)
        (update free l xs)
        i
first_Kept {b} {free} l i xs w lo hi e =
    let at : IsList b l (i ∷ xs) = subst (IsList b l) e (w.lists l lo hi) in
    let level = at.level i (ground arith) in
    let (same, v') =
      remove_from_available_list_lem i [] xs w.lists (rw level lo) (rw level hi) (rw level e) in
    let g = first_Granted l i xs w.lists lo hi e in
    let fewer : (j k : ℕ)
        → 16 ≤ k
        → k ≤ b.root_log2size
        → has j (update free l xs k) ≡ true
        → (has j (free k) ≡ true) × (j ≢ i) =
      (rw level at (without-has w.lists i [] xs (rw level e) (rw level lo) (rw level hi))) in
    let rest : (j k : ℕ) → has j (free k) ≡ true → j ≢ i → has j (update free l xs k) ≡ true =
      (rw level at (has-without w.lists i [] xs (rw level e) (rw level lo) (rw level hi))) in
    let here : has i (free l) ≡ true = rw e (ground arith) in
    let after =
      remove_from_available_list (record b { blocks = set_available b.blocks i false }) i in
    taken-Kept b after free (update free l xs) i w (w.only_valid i l lo hi here).0
      (at.free i (ground arith)) g.root g.room
      (λ j. ap (λ x. (x.blocks j).available) (taken_later b i) ∙ ground (arith, same.avail j))
      (λ j. ap (λ x. (x.blocks j).valid) (taken_later b i) ∙ ground (arith, same.valid j)) g.valid
      fewer rest
