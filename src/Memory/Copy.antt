-- ===== src/Memory/Copy.antt =====
-- `memset`, `memcpy` and `memmove` of lib/string.cpp: every byte of the memory afterwards.
use modern.Base.{
  ℕ, zero, suc, ◌+◌, ◌-◌, ◌%◌, ◌≤◌, ◌≡◌, ◌⊎◌, inl, inr, Bool, leb, ltb, ◌&&◌, if◌then◌else◌, arith,
  Bool-cases,
}
use modern.Memory.{Memory, store, memset_loop, memset, memcpy_loop, memcpy, memmove_down, memmove}

-- address `a` is one of the `n` from `first` on
abbrev pub in_range : ℕ → ℕ → ℕ → Bool
in_range first n a = leb first a && ltb a (first + n)

-- `n` bytes from `src` on, moved to `dst`
abbrev pub moved : Memory → ℕ → ℕ → ℕ → Memory
moved mem dst src n a = if in_range dst n a then mem (src + (a - dst)) else mem a

memset_loop_lem :
    (mem : Memory) (addr value i n a : ℕ)
    → memset_loop mem addr value i n a ≡ (if in_range (addr + i) n a then value % 256 else mem a)
unfolding memset_loop
memset_loop_lem mem addr value i zero a = ground arith
memset_loop_lem mem addr value i (suc n) a =
    ground (arith, memset_loop_lem (store mem (addr + i) (value % 256)) addr value (i + 1) n a)

-- `memset` writes the low byte of its value to the `size` bytes from `addr` on, and nothing else.
pub memset_lem :
    (mem : Memory) (addr value size a : ℕ)
    → memset mem addr value size a ≡ (if in_range addr size a then value % 256 else mem a)
unfolding memset
memset_lem mem addr value size a = ground (arith, memset_loop_lem mem addr value 0 size a)

-- Upwards a byte is read before it is overwritten, if the target does not start inside the source.
memcpy_loop_lem :
    (mem : Memory) (dst src i n a : ℕ)
    → (dst ≤ src) ⊎ (src + (i + n) ≤ dst)
    → memcpy_loop mem dst src i n a
      ≡ (if in_range (dst + i) n a then mem (src + (a - dst)) else mem a)
unfolding memcpy_loop
memcpy_loop_lem mem dst src i zero a apart = ground arith
memcpy_loop_lem mem dst src i (suc n) a (inl before) =
    ground (
      arith,
      memcpy_loop_lem (store mem (dst + i) (mem (src + i))) dst src (i + 1) n a (inl before),
    )
memcpy_loop_lem mem dst src i (suc n) a (inr after) = ground (
  arith,
  memcpy_loop_lem (store mem (dst + i) (mem (src + i))) dst src (i + 1) n a (inr (omega arith)),
)

memmove_down_lem :
    (mem : Memory) (dst src n a : ℕ)
    → src ≤ dst
    → memmove_down mem dst src n a ≡ moved mem dst src n a
unfolding memmove_down
memmove_down_lem mem dst src zero a h = ground arith
memmove_down_lem mem dst src (suc n) a h =
    ground (arith, memmove_down_lem (store mem (dst + n) (mem (src + n))) dst src n a h)

-- `memcpy` copies, if the target starts at or before the source or the two do not overlap; no
-- other byte changes.
pub memcpy_lem :
    (mem : Memory) (dst src size a : ℕ)
    → (dst ≤ src) ⊎ (src + size ≤ dst)
    → memcpy mem dst src size a ≡ moved mem dst src size a
unfolding memcpy
memcpy_lem mem dst src size a (inl before) =
    ground (arith, memcpy_loop_lem mem dst src 0 size a (inl before))
memcpy_lem mem dst src size a (inr after) =
    ground (arith, memcpy_loop_lem mem dst src 0 size a (inr (omega arith)))

-- `memmove` moves the `size` bytes from `src` on to `dst`, however the two ranges overlap: each byte
-- of the target is what the source held before the call, and no other byte changes.
pub memmove_lem :
    (mem : Memory) (dst src size a : ℕ) → memmove mem dst src size a ≡ moved mem dst src size a
unfolding memmove
memmove_lem mem dst src size a = elim (Bool-cases (ltb dst src)) [
  | inl up ↦ rw up (ground (arith, memcpy_loop_lem mem dst src 0 size a (inl (ground arith))))
  | inr down ↦ rw down (memmove_down_lem mem dst src size a (ground arith))
]
