-- ===== src/Buddy/Lists.antt =====
-- The available lists of the buddy allocator, one for each size, as lists of blocks: what
-- `add_to_available_list` and `remove_from_available_list` do to them.
pub mod Add
pub mod Remove
pub mod Without
use modern.Base.{
  ℕ, zero, suc, ◌-◌, ◌+◌, ◌≤◌, ◌<◌, ◌≡◌, ◌≢◌, Bool, true, false, Option, none, some, ◌>>=◌, ltb,
  ◌==◌, ==_of_eq, ==_of_ne, if◌then◌else◌, refl, sym, subst, ◌∙◌, ap, arith, List, [], ◌∷◌, ◌++◌,
  ◌||◌, ℕ_discrete,
}
use modern.Base.Bytes.{sub64, add64}
use modern.Buddy.Defs.{Block, Bucket, Buddy, update, block_log2size, bucket_index}
use modern.Buddy.Ops.{
  set_next, set_prev, unlink, is_block, add_to_available_list, remove_from_available_list,
}
use modern.Buddy.Ring.{
  has, has-append, Distinct, last_of, Chain, IsRing, IsRing-frame, has-last, prev-last,
}
use modern.Buddy.Ring.Add.{link_end, link_end-IsRing}
use modern.Buddy.Ring.Remove.{unlink-IsRing, Distinct-swap}

abbrev pub head_of : List ℕ → Option ℕ
head_of [] = none
head_of (x ∷ xs) = some x

-- the list of the blocks of 2 ^ l bytes
pub record IsList (b : Buddy) (l : ℕ) (xs : List ℕ) : Type 0 where
  pub head : (b.buckets (bucket_index l)).first_block ≡ head_of xs
  pub ring : IsRing b.blocks xs
  pub distinct : Distinct xs
  pub level : (i : ℕ) → has i xs ≡ true → block_log2size b i ≡ l
  pub free : (i : ℕ) → has i xs ≡ true → (b.blocks i).available ≡ true
  pub inside : (i : ℕ) → has i xs ≡ true → i < b.max_blocks

-- Every bucket's list: `free l` for the size 2 ^ l.
abbrev pub IsFree : Buddy → (ℕ → List ℕ) → Type 0
IsFree b free = (l : ℕ) → 16 ≤ l → l ≤ b.root_log2size → IsList b l (free l)

-- What both operations leave alone.
pub record SameOutside (b b' : Buddy) (l : ℕ) (touched : ℕ → Bool) : Type 0 where
  pub start : b'.phy_start ≡ b.phy_start
  pub root : b'.root_log2size ≡ b.root_log2size
  pub room : b'.max_blocks ≡ b.max_blocks
  pub avail : (i : ℕ) → (b'.blocks i).available ≡ (b.blocks i).available
  pub valid : (i : ℕ) → (b'.blocks i).valid ≡ (b.blocks i).valid
  pub links :
      (i : ℕ)
      → touched i ≡ false
      → ((b'.blocks i).next ≡ (b.blocks i).next) × ((b'.blocks i).prev ≡ (b.blocks i).prev)
  pub others : (k : ℕ) → k ≢ bucket_index l → b'.buckets k ≡ b.buckets k

pub level_eq :
    (b b' : Buddy) (i : ℕ)
    → b'.root_log2size ≡ b.root_log2size
    → block_log2size b' i ≡ block_log2size b i
unfolding block_log2size
level_eq b b' i e = rw e

-- A list of another size is not affected, since the touched blocks have size 2 ^ l.
pub IsList-other :
    {b b' : Buddy} {l : ℕ} {touched : ℕ → Bool}
    → SameOutside b b' l touched
    → ((i : ℕ) → touched i ≡ true → block_log2size b i ≡ l)
    → (m : ℕ) (xs : List ℕ) → 16 ≤ m
    → 16 ≤ l
    → m ≢ l
    → IsList b m xs
    → IsList b' m xs
IsList-other {b} {b'} {l} {touched} same size m xs hm hl ne v = record {
  head = rw (same.others (bucket_index m) (omega (arith, ne))) v.head;
  ring = IsRing-frame b.blocks b'.blocks xs v.ring (λ i h. same.links i (apart i h));
  distinct = v.distinct;
  level = λ i h. level_eq b b' i same.root ∙ v.level i h;
  free = λ i h. same.avail i ∙ v.free i h;
  inside = λ i h. omega (arith, v.inside i h, same.room);
}
  where
    apart : (i : ℕ) → has i xs ≡ true → touched i ≡ false
    apart i h = ground (arith, size i, v.level i h, ne)
