-- ===== src/Buddy/Defs.antt =====
-- mm/page_alloc.cpp: the state of `BuddyAllocator`, and the arithmetic of its tree. A `Block *` is
-- an index into `blocks`, `none` the null pointer; a bucket is found by log2size - Log2MinSize.
use modern.Base.{
  ℕ, ◌+◌, ◌-◌, ◌*◌, ◌/◌, ◌%◌, Bool, true, false, Option, none, some, leb, ◌==◌, if◌then◌else◌,
}
use modern.Base.Bytes.{add64, sub64}
use modern.Utils.{log2}

abbrev pub log2_min_size : ℕ
log2_min_size = 16

abbrev pub log2_max_size : ℕ
log2_max_size = 32

abbrev pub block_size : ℕ
block_size = 16 * 4096

-- `MaxBlocks`
abbrev pub preallocated : ℕ
preallocated = 4 * 1024 * 1024 * 1024 / block_size

pub record Block : Type 0 where
  pub valid : Bool
  pub available : Bool
  pub prev : Option ℕ
  pub next : Option ℕ

pub record Bucket : Type 0 where
  pub log2size : ℕ
  pub allocated_blocks : ℕ
  pub available_blocks : ℕ
  pub first_block : Option ℕ

pub record Buddy : Type 0 where
  pub phy_start : ℕ
  pub root_log2size : ℕ
  pub max_blocks : ℕ
  pub blocks : ℕ → Block
  pub buckets : ℕ → Bucket

abbrev pub update {ℓ} : {A : Type ℓ} → (ℕ → A) → ℕ → A → ℕ → A
update f i v j = if j == i then v else f j

-- `Block(true)`, and what the static array holds: the default member initialisers
abbrev pub fresh_block : Block
fresh_block = record { valid = false; available = true; prev = none; next = none }

-- The constructor, over the blocks' array.
unfoldable pub new_buddy : ℕ → ℕ → (ℕ → Block) → ℕ → Buddy
new_buddy addr log2size base max_blocks = record {
  phy_start = addr;
  root_log2size = log2size;
  max_blocks = max_blocks;
  blocks = update base 0 (record { valid = true; available = true; prev = some 0; next = some 0 });
  buckets = λ i. record {
    log2size = log2_min_size + i;
    allocated_blocks = 0;
    available_blocks = 0;
    first_block = if i == (log2size - log2_min_size) then some 0 else none;
  };
}

unfoldable pub get_left : Buddy → ℕ → Option ℕ
get_left b offset = if leb b.max_blocks (2 * offset + 1) then none else some (2 * offset + 1)

unfoldable pub get_right : Buddy → ℕ → Option ℕ
get_right b offset = if leb b.max_blocks (2 * offset + 2) then none else some (2 * offset + 2)

unfoldable pub get_parent : ℕ → Option ℕ
get_parent offset = if offset == 0 then none else some ((offset - 1) / 2)

unfoldable pub get_buddy : ℕ → Option ℕ
get_buddy offset =
    if offset == 0 then none else if offset % 2 == 0 then some (offset - 1) else some (offset + 1)

-- `root_log2size - log2(offset + 1)`
unfoldable pub block_log2size : Buddy → ℕ → ℕ
block_log2size b offset = sub64 b.root_log2size (log2 (offset + 1))

unfoldable pub get_block_phy_addr : Buddy → ℕ → ℕ
get_block_phy_addr b offset = add64 b.phy_start (offset * block_size)

abbrev pub bucket_index : ℕ → ℕ
bucket_index log2size = log2size - log2_min_size
