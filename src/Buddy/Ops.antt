-- ===== src/Buddy/Ops.antt =====
-- mm/page_alloc.cpp: the operations of `BuddyAllocator`. `none` is a panic, a failed assertion or a
-- null pointer that is followed.
use modern.Base.{
  ℕ, zero, suc, ◌+◌, ◌/◌, ◌%◌, Bool, true, false, not, Option, none, some, ◌>>=◌, ◌>>◌, guard, ltb,
  leb, ◌==◌, if◌then◌else◌,
}
use modern.Base.Bytes.{add64, sub64}
use modern.Buddy.Defs.{
  Block, Buddy, update, get_left, get_right, get_parent, get_buddy, block_log2size,
  get_block_phy_addr, bucket_index, log2_min_size, block_size,
}

abbrev pub is_block : Option ℕ → ℕ → Bool
is_block none i = false
is_block (some j) i = j == i

-- `block->next = …` and the like
abbrev pub set_next : (ℕ → Block) → ℕ → Option ℕ → ℕ → Block
set_next bl i p = update bl i (record (bl i) { next = p })

abbrev pub set_prev : (ℕ → Block) → ℕ → Option ℕ → ℕ → Block
set_prev bl i p = update bl i (record (bl i) { prev = p })

abbrev pub set_available : (ℕ → Block) → ℕ → Bool → ℕ → Block
set_available bl i v = update bl i (record (bl i) { available = v })

abbrev pub set_valid : (ℕ → Block) → ℕ → Bool → ℕ → Block
set_valid bl i v = update bl i (record (bl i) { valid = v })

-- `if (prev) prev->next = next; if (next) next->prev = prev;`
unfoldable pub unlink : (ℕ → Block) → Option ℕ → Option ℕ → ℕ → Block
unlink bl none none = bl
unlink bl (some p) none = set_next bl p none
unlink bl none (some n) = set_prev bl n none
unlink bl (some p) (some n) = set_prev (set_next bl p (some n)) n (some p)

unfoldable pub remove_from_available_list : Buddy → ℕ → Buddy
unfolding unlink
remove_from_available_list b block =
    let i = bucket_index (block_log2size b block) in
    let bucket = b.buckets i in
    let next = (b.blocks block).next in
    let first =
      if is_block bucket.first_block block
      then if is_block next block then none else next
      else bucket.first_block in
    record b {
      blocks = unlink b.blocks (b.blocks block).prev next;
      buckets = update b.buckets i (record bucket {
        first_block = first;
        available_blocks = sub64 bucket.available_blocks 1;
      });
    }

-- `last` is read through `first->prev`.
unfoldable pub add_to_available_list : Buddy → ℕ → Option Buddy
add_to_available_list b block =
    let i = bucket_index (block_log2size b block) in
    let bucket = b.buckets i in
    elim bucket.first_block [
      | none ↦ some (record b {
        blocks = set_prev (set_next b.blocks block (some block)) block (some block);
        buckets = update b.buckets i (record bucket {
          first_block = some block;
          available_blocks = add64 bucket.available_blocks 1;
        });
      })
      | some first ↦ (do
        last ← (b.blocks first).prev
        let linked = set_next (set_prev b.blocks first (some block)) last (some block)
        some (record b {
          blocks = set_prev (set_next linked block (some first)) block (some last);
          buckets =
              update b.buckets i
                (record bucket { available_blocks = add64 bucket.available_blocks 1 });
        }))
    ]

-- the two halves of a split block: the left one is handed out, the right one is put on its list
unfoldable pub split : Buddy → ℕ → Option (Option ℕ × Buddy)
unfolding add_to_available_list
split b parent = do
  left ← get_left b parent
  right ← get_right b parent
  let bl = set_valid (set_available b.blocks left false) left true
  let bl' = set_valid (set_available bl right true) right true
  b' ← add_to_available_list (record b { blocks = bl' }) right
  some (some left, b')

-- The inner option is the returned pointer. The recursion goes up to the root, so the levels above
-- `log2size` bound it: the fuel of `allocate_pages` is enough.
unfoldable pub alloc_block_size : ℕ → Buddy → ℕ → Option (Option ℕ × Buddy)
unfolding split remove_from_available_list
alloc_block_size zero b log2size = none
alloc_block_size (suc fuel) b log2size =
    let larger = alloc_block_size fuel b (log2size + 1) in
    if ltb b.root_log2size log2size
    then some (none, b)
    else elim (b.buckets (bucket_index log2size)).first_block [
      | some first ↦
          let taken = record b { blocks = set_available b.blocks first false } in
          some (some first, remove_from_available_list taken first)
      | none ↦ (do
        (parent, b') ← larger
        elim parent [ none ↦ some (none, b') | some parent ↦ split b' parent ])
    ]

-- the counter of `get_bucket(log2size)` goes up
abbrev pub count_allocated : Buddy → ℕ → Buddy
count_allocated b log2size =
    let bucket = b.buckets (bucket_index log2size) in
    record b {
      buckets =
          update b.buckets (bucket_index log2size)
            (record bucket { allocated_blocks = add64 bucket.allocated_blocks 1 });
    }

unfoldable pub allocate_pages : ℕ → Buddy → Option (ℕ × Buddy)
unfolding alloc_block_size
allocate_pages log2size b = do
  guard (leb log2_min_size log2size)
  (block, b') ← alloc_block_size (b.root_log2size + 2) b log2size
  elim block [
    | none ↦ some (0, b')
    | some block ↦ some (get_block_phy_addr b block, count_allocated b' log2size)
  ]

-- One block goes up a level while its buddy is available; the index halves, so it bounds the rounds.
unfoldable pub try_merge_with_buddy : ℕ → Buddy → ℕ → Option (ℕ × Buddy)
unfolding remove_from_available_list
try_merge_with_buddy zero b block = none
try_merge_with_buddy (suc fuel) b block = elim (get_parent block) [
  | none ↦ some (block, b)
  | some parent ↦ elim (get_buddy block) [
    | none ↦ some (block, b)
    | some buddy ↦
        let removed = remove_from_available_list b buddy in
        let bl = set_valid removed.blocks buddy false in
        let merged = record removed {
          blocks = set_valid (set_available bl parent true) block false;
        } in
        let rest = try_merge_with_buddy fuel merged parent in
        if not (b.blocks buddy).available
        then some (block, b)
        else guard (not (bl parent).available) >> (guard (bl parent).valid >> rest)
  ]
]

unfoldable pub free_pages : ℕ → Buddy → Option Buddy
unfolding try_merge_with_buddy add_to_available_list
free_pages addr b = do
  let block = sub64 addr b.phy_start / block_size
  guard (sub64 addr b.phy_start % block_size == 0)
  guard (not (b.blocks block).available)
  (merged, b') ← try_merge_with_buddy (block + 1) b block
  b'' ← add_to_available_list (record b' { blocks = set_available b'.blocks merged true }) merged
  let i = bucket_index (block_log2size b'' block)
  let bucket = b''.buckets i
  some (record b'' {
    buckets =
        update b''.buckets i (record bucket { allocated_blocks = sub64 bucket.allocated_blocks 1 });
  })
