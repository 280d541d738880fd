-- ===== src/Loader/Fields.antt =====
-- boot_loader.c: what `copy` does, and when a header reads the same.
use modern.Base.{ℕ, zero, suc, ◌+◌, ◌*◌, ◌-◌, ◌<◌, ◌≤◌, ◌≡◌, ◌⊎◌, if◌then◌else◌, refl, arith, ap₂}
use modern.Memory.{Memory, store}
use modern.Memory.Copy.{in_range, moved}
use modern.Loader.{read_field, phdr_at, copy_loop, copy}

copy_loop_lem :
    (mem : Memory) (target src i n a : ℕ)
    → (target + (i + n) ≤ src) ⊎ (src + (i + n) ≤ target)
    → copy_loop mem target src i n a
      ≡ (if in_range (target + i) n a then mem (src + (a - target)) else mem a)
unfolding copy_loop
copy_loop_lem mem target src i zero a apart = ground arith
copy_loop_lem mem target src i (suc n) a apart = ground (
  arith,
  copy_loop_lem (store mem (target + i) (mem (src + i))) target src (i + 1) n a (ground arith),
)

pub copy_lem :
    (mem : Memory) (target src n a : ℕ)
    → (target + n ≤ src) ⊎ (src + n ≤ target)
    → copy mem target src n a ≡ moved mem target src n a
unfolding copy
copy_lem mem target src n a apart =
    ground (arith, copy_loop_lem mem target src 0 n a (ground arith))

-- a field does not change with bytes that it does not hold
read_field-same :
    (mem mem' : Memory) (lo hi a n : ℕ)
    → ((b : ℕ) → lo ≤ b → b < hi → mem' b ≡ mem b)
    → lo ≤ a
    → a + n ≤ hi
    → read_field mem' a n ≡ read_field mem a n
unfolding read_field
read_field-same mem mem' lo hi a zero same above below = refl
read_field-same mem mem' lo hi a (suc n) same above below =
    ap₂ (λ low rest. low + 256 * rest) (same a above (omega arith))
      (read_field-same mem mem' lo hi (a + 1) n same (omega arith) (omega arith))

pub phdr_at-same :
    (mem mem' : Memory) (lo hi a : ℕ)
    → ((b : ℕ) → lo ≤ b → b < hi → mem' b ≡ mem b)
    → lo ≤ a
    → a + 48 ≤ hi
    → phdr_at mem' a ≡ phdr_at mem a
unfolding phdr_at
phdr_at-same mem mem' lo hi a same above below =
    rw
      (
        read_field-same mem mem' lo hi a 4 same above (omega arith),
        read_field-same mem mem' lo hi (a + 8) 8 same (omega arith) (omega arith),
        read_field-same mem mem' lo hi (a + 16) 8 same (omega arith) (omega arith),
        read_field-same mem mem' lo hi (a + 32) 8 same (omega arith) (omega arith),
        read_field-same mem mem' lo hi (a + 40) 8 same (omega arith) (omega arith),
      )
      refl
