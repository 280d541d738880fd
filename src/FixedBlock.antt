-- ===== src/FixedBlock.antt =====
-- include/mm/fixed_block_allocator.h: `FixedBlockAllocator`, a free list threaded through a buffer. A
-- `T *` is an index into the buffer, and `next` is the field that `NextPtr` names, `none` the null
-- pointer.
pub mod Chain
mod Tests
use modern.Base.{
  ℕ, zero, suc, ◌+◌, ◌-◌, Bool, true, false, Option, none, some, ◌>>=◌, ◌>>◌, guard, not, ◌==◌,
  if◌then◌else◌,
}

pub record FixedBlock : Type 0 where
  pub next : ℕ → Option ℕ
  pub head : Option ℕ
  pub tail : Option ℕ

-- `next_ptr(p) = q`
abbrev pub set_next_ptr : (ℕ → Option ℕ) → ℕ → Option ℕ → ℕ → Option ℕ
set_next_ptr f p q i = if i == p then q else f i

-- The loop of the constructor: round `i`, `n` rounds left, with `last` the index before.
unfoldable pub link_blocks : (ℕ → Option ℕ) → ℕ → ℕ → ℕ → Option ℕ
link_blocks f i zero = f
link_blocks f i (suc n) = link_blocks (set_next_ptr f (i - 1) (some i)) (i + 1) n

-- `none` is the panic on an empty buffer; `garbage` is what the buffer's fields held.
unfoldable pub new_fixed_block : (ℕ → Option ℕ) → ℕ → Option FixedBlock
unfolding link_blocks
new_fixed_block garbage max_size = do
  guard (not (max_size == 0))
  some (record {
    next = set_next_ptr (link_blocks garbage 1 (max_size - 1)) (max_size - 1) none;
    head = some 0;
    tail = some (max_size - 1);
  })

abbrev pub same_ptr : Option ℕ → Option ℕ → Bool
same_ptr none none = true
same_ptr none (some q) = false
same_ptr (some p) none = false
same_ptr (some p) (some q) = p == q

-- `allocate`: the outer option is a null pointer that is followed, the inner one the result.
unfoldable pub allocate : FixedBlock → Option (Option ℕ × FixedBlock)
allocate a = if same_ptr a.head a.tail then some (none, a) else (do
  old_head ← a.head
  some (
    some old_head,
    record a { next = set_next_ptr a.next old_head none; head = a.next old_head },
  ))

-- `create`: as `allocate`, and an object is built in the block that it returns; `built` is what the
-- constructor leaves in that block's pointer field.
unfoldable pub create : Option ℕ → FixedBlock → Option (Option ℕ × FixedBlock)
create built a = if same_ptr a.head a.tail then some (none, a) else (do
  old_head ← a.head
  some (
    some old_head,
    record a {
      next = set_next_ptr (set_next_ptr a.next old_head none) old_head built;
      head = a.next old_head;
    },
  ))

unfoldable pub free : FixedBlock → ℕ → FixedBlock
free a p = record a { next = set_next_ptr a.next p a.head; head = some p }
