-- ===== src/Buddy/Whole.antt =====
-- mm/page_alloc.cpp: the invariant of the whole tree of blocks, flags and lists together.
use modern.Base.{
  ℕ, ◌+◌, ◌-◌, ◌/◌, ◌%◌, ◌≤◌, ◌<◌, ◌≡◌, ◌≢◌, ◌⊎◌, inl, inr, true, false, Option, some, ◌==◌,
  ==_of_ne, if◌then◌else◌, refl, ap, arith, List, [], ◌∷◌, ◌++◌, ℕ_discrete,
}
use modern.Buddy.Defs.{Buddy, get_parent, get_buddy, block_log2size}
use modern.Buddy.Ops.{is_block}
use modern.Buddy.Ring.{has}
use modern.Buddy.Lists.{IsFree}
use modern.Buddy.Split.{IsTree}

abbrev pub parent_of : ℕ → ℕ
parent_of i = (i - 1) / 2

abbrev pub buddy_of : ℕ → ℕ
buddy_of i = if i % 2 == 0 then i - 1 else i + 1

pub get_parent-parent_of : (i : ℕ) → i ≢ 0 → get_parent i ≡ some (parent_of i)
unfolding get_parent
get_parent-parent_of i h = rw (==_of_ne h)

pub get_buddy-buddy_of : (i : ℕ) → i ≢ 0 → get_buddy i ≡ some (buddy_of i)
unfolding get_buddy
get_buddy-buddy_of i h = ground arith

pub siblings : (i m : ℕ) → i ≢ 0 → m ≢ 0 → parent_of i ≡ parent_of m → (i ≡ m) ⊎ (i ≡ buddy_of m)
siblings i m hi hm same = elim (ℕ_discrete i m) [ yes e ↦ inl e | no ne ↦ inr (ground arith) ]

pub buddy_twice : (i : ℕ) → i ≢ 0 → buddy_of (buddy_of i) ≡ i
buddy_twice i h = ground arith

-- The valid blocks are the nodes of the tree that is split so far: each lies in the array and has a
-- size of some bucket, and with a node come its parent, which is taken, and its buddy. The lists
-- hold exactly the valid blocks that are available. One block, the `hole`, may be between the two:
-- it is in no list, whatever its flag says, and nothing is below it.
pub record IsWhole (hole : Option ℕ) (b : Buddy) (free : ℕ → List ℕ) : Type 0 where
  pub tree : IsTree b
  pub lists : IsFree b free
  pub sizes :
      (i : ℕ)
      → (b.blocks i).valid ≡ true
      → (i < b.max_blocks) × (16 ≤ block_log2size b i) × (block_log2size b i ≤ b.root_log2size)
  pub listed :
      (i : ℕ)
      → (b.blocks i).valid ≡ true
      → (b.blocks i).available ≡ true
      → is_block hole i ≡ false
      → has i (free (block_log2size b i)) ≡ true
  pub only_valid :
      (i l : ℕ)
      → 16 ≤ l
      → l ≤ b.root_log2size
      → has i (free l) ≡ true
      → ((b.blocks i).valid ≡ true) × (is_block hole i ≡ false)
  pub up :
      (i : ℕ)
      → (b.blocks i).valid ≡ true
      → i ≢ 0
      → ((b.blocks (parent_of i)).valid ≡ true)
        × ((b.blocks (parent_of i)).available ≡ false)
        × ((b.blocks (buddy_of i)).valid ≡ true)
        × (is_block hole (parent_of i) ≡ false)

-- A list taken apart at one of its blocks.
pub has-split :
    (i : ℕ) (xs : List ℕ)
    → has i xs ≡ true
    → (pre : List ℕ) × (post : List ℕ) × (xs ≡ pre ++ (i ∷ post))
has-split i [] h = absurd (cc)
has-split i (x ∷ xs) h = elim (ℕ_discrete i x) [
  | yes e ↦ ([], xs, rw e refl)
  | no ne ↦ let (pre, post, e) = has-split i xs (ground arith) in (x ∷ pre, post, ap (x ∷◌) e)
]
