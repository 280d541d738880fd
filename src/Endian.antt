-- ===== src/Endian.antt =====
-- include/common/endian.hpp and common/endian.cpp. The bytes that the source joins by `|` do not
-- overlap, so they are added.
use modern.Base.{ℕ, ◌+◌, ◌*◌, ◌/◌, ◌%◌, ◌^◌, ◌<◌, ◌≡◌, arith}

unfoldable pub swap_endian32 : ℕ → ℕ
swap_endian32 v =
    v % 256 * 2 ^ 24 + v / 2 ^ 8 % 256 * 2 ^ 16 + v / 2 ^ 16 % 256 * 2 ^ 8 + v / 2 ^ 24 % 256

unfoldable pub swap_endian16 : ℕ → ℕ
swap_endian16 v = v % 256 * 2 ^ 8 + v / 2 ^ 8 % 256

-- of one byte
unfoldable pub swap_endian8 : ℕ → ℕ
swap_endian8 v = v

-- `be`, `cpu2be` and `be2cpu` are the swap, `le` leaves its operand.
abbrev pub be32 : ℕ → ℕ
be32 v = swap_endian32 v

abbrev pub be16 : ℕ → ℕ
be16 v = swap_endian16 v

abbrev pub le : ℕ → ℕ
le v = v

-- The swap of a 32-bit number reverses its four bytes, and undoes itself.
pub swap_endian32_lem :
    (a b c d : ℕ)
    → a < 256
    → b < 256
    → c < 256
    → d < 256
    → (swap_endian32 (a + b * 2 ^ 8 + c * 2 ^ 16 + d * 2 ^ 24)
        ≡ d + c * 2 ^ 8 + b * 2 ^ 16 + a * 2 ^ 24)
      × (swap_endian32 (swap_endian32 (a + b * 2 ^ 8 + c * 2 ^ 16 + d * 2 ^ 24))
          ≡ a + b * 2 ^ 8 + c * 2 ^ 16 + d * 2 ^ 24)
unfolding swap_endian32
swap_endian32_lem a b c d ha hb hc hd = omega arith

-- The swap of a 16-bit number undoes itself.
pub swap_endian16_twice : (v : ℕ) → v < 2 ^ 16 → swap_endian16 (swap_endian16 v) ≡ v
unfolding swap_endian16
swap_endian16_twice v h = omega arith
