-- ===== src/Memory.antt =====
-- lib/string.cpp over a memory of bytes: an address is a number, and no object reaches round the end
-- of the address space. An `int` is its bit pattern of 32 bits.
pub mod Copy
pub mod Compare
mod Tests
use modern.Base.{
  ℕ, zero, suc, ◌+◌, ◌-◌, ◌%◌, Bool, true, false, Option, none, some, ◌==◌, ltb, if◌then◌else◌,
  ◌||◌,
}

abbrev pub Memory : Type 0
Memory = ℕ → ℕ

abbrev pub store : Memory → ℕ → ℕ → Memory
store mem addr value a = if a == addr then value else mem a

-- `((u8*)data)[i] = value`, from round `i` on, `n` rounds left
unfoldable pub memset_loop : Memory → ℕ → ℕ → ℕ → ℕ → Memory
memset_loop mem addr value i zero = mem
memset_loop mem addr value i (suc n) =
    memset_loop (store mem (addr + i) (value % 256)) addr value (i + 1) n

unfoldable pub memset : Memory → ℕ → ℕ → ℕ → Memory
unfolding memset_loop
memset mem addr value size = memset_loop mem addr value 0 size

unfoldable pub memcpy_loop : Memory → ℕ → ℕ → ℕ → ℕ → Memory
memcpy_loop mem dst src i zero = mem
memcpy_loop mem dst src i (suc n) =
    memcpy_loop (store mem (dst + i) (mem (src + i))) dst src (i + 1) n

unfoldable pub memcpy : Memory → ℕ → ℕ → ℕ → Memory
unfolding memcpy_loop
memcpy mem dst src size = memcpy_loop mem dst src 0 size

-- The other branch of `memmove`: with `n` rounds left, byte n - 1 is next.
unfoldable pub memmove_down : Memory → ℕ → ℕ → ℕ → Memory
memmove_down mem dst src zero = mem
memmove_down mem dst src (suc n) = memmove_down (store mem (dst + n) (mem (src + n))) dst src n

unfoldable pub memmove : Memory → ℕ → ℕ → ℕ → Memory
unfolding memcpy_loop memmove_down
memmove mem dst src size =
    if ltb dst src then memcpy_loop mem dst src 0 size else memmove_down mem dst src size

-- the `int` -1
abbrev pub minus_one : ℕ
minus_one = 0xffff_ffff

-- The operands are given from their first byte on, by index.
unfoldable pub memcmp_loop : (ℕ → ℕ) → (ℕ → ℕ) → ℕ → ℕ → ℕ
memcmp_loop lhs rhs i zero = 0
memcmp_loop lhs rhs i (suc n) =
    let rest = memcmp_loop lhs rhs (i + 1) n in
    if ltb (lhs i) (rhs i) then minus_one else if ltb (rhs i) (lhs i) then 1 else rest

unfoldable pub memcmp : (ℕ → ℕ) → (ℕ → ℕ) → ℕ → ℕ
unfolding memcmp_loop
memcmp lhs rhs size = memcmp_loop lhs rhs 0 size

-- `strcmp` on fuel; `none` where it ran out. The loop goes on while one of the bytes is 0.
unfoldable pub strcmp : ℕ → (ℕ → ℕ) → (ℕ → ℕ) → ℕ → Option ℕ
strcmp zero a b i = none
strcmp (suc fuel) a b i =
    let rest = strcmp fuel a b (i + 1) in
    if a i == 0 || b i == 0
    then if ltb (a i) (b i) then some minus_one else if ltb (b i) (a i) then some 1 else rest
    else some 0

-- `strlen` on fuel, from index `size` on.
unfoldable pub strlen : ℕ → (ℕ → ℕ) → ℕ → Option ℕ
strlen zero s size = none
strlen (suc fuel) s size =
    let rest = strlen fuel s (size + 1) in if s size == 0 then some size else rest
