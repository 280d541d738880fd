-- ===== src/Serial/Compact.antt =====
-- include/common/hexdump.hpp: the compact dump, whole lines and the rest together.
use modern.Base.{
  ℕ, zero, suc, ◌+◌, ◌-◌, ◌*◌, ◌/◌, ◌%◌, ◌<◌, ◌≡◌, ltb, true, some, List, [], ◌∷◌, ◌++◌, refl,
  arith, ap, ap₂, tests, ◌∙◌, sym, Bool-cases, inl, inr,
}
use modern.Serial.Digits.{++-nil, digit_value, digit_value-alphabet}
use modern.Serial.Dump.{hex_columns, hexdump_line, whole_lines, hexdump}
use modern.Serial.Bytes.{pair, hex01_lem, print_hex_lem}

-- the bytes from `i` on, and what a text of two digits and a space for each says they are
unfoldable pub bytes_of : (ℕ → ℕ) → ℕ → ℕ → List ℕ
bytes_of ptr i zero = []
bytes_of ptr i (suc n) = ptr i ∷ bytes_of ptr (i + 1) n

unfoldable pub read_bytes : List ℕ → List ℕ
read_bytes (high ∷ low ∷ space ∷ rest) = (digit_value high * 16 + digit_value low) ∷ read_bytes rest
read_bytes [] = []
read_bytes (high ∷ []) = []
read_bytes (high ∷ low ∷ []) = []

unfoldable columns : (ℕ → ℕ) → ℕ → ℕ → List ℕ
columns ptr i zero = []
columns ptr i (suc n) = pair (ptr i) ++ (0x20 ∷ columns ptr (i + 1) n)

columns-+ :
    (ptr : ℕ → ℕ) (m n i k j : ℕ)
    → k ≡ m + n
    → j ≡ i + m
    → columns ptr i k ≡ columns ptr i m ++ columns ptr j n
unfolding columns
columns-+ ptr zero n i k j total behind = ap₂ (columns ptr) (omega arith) (omega arith)
columns-+ ptr (suc m) n i k j total behind =
    ap (columns ptr i) {y = suc (m + n)} (omega arith)
    ∙ ap (λ r. pair (ptr i) ++ (0x20 ∷ r)) (columns-+ ptr m n (i + 1) (m + n) j refl (omega arith))

module _ (ptr : ℕ → ℕ) (byte : (j : ℕ) → ptr j < 256) where
  hex_columns_lem : (i n : ℕ) → hex_columns ptr i n ≡ some (columns ptr i n)
  unfolding hex_columns columns
  hex_columns_lem i zero = refl
  hex_columns_lem i (suc n) = rw (hex01_lem (ptr i) (byte i), hex_columns_lem (i + 1) n) refl

  line_lem :
      (first size addr indent : ℕ)
      → hexdump_line ptr first size 16 addr true indent ≡ some (columns ptr first size)
  unfolding hexdump_line
  line_lem first size addr indent = rw (hex_columns_lem first size, print_hex_lem 8 addr) refl

  whole_lines_lem :
      (line n indent : ℕ)
      → whole_lines ptr line n true indent ≡ some (columns ptr (line * 16) (n * 16))
  unfolding whole_lines columns
  whole_lines_lem line zero indent = refl
  whole_lines_lem line (suc n) indent =
      rw (line_lem (line * 16) 16 (line * 16) indent, whole_lines_lem (line + 1) n indent)
        (ap some (
          sym (
            columns-+ ptr 16 (n * 16) (line * 16) (suc n * 16) ((line + 1) * 16) (omega arith)
              (omega arith))))

  hexdump_lem : (size indent : ℕ) → hexdump ptr size true indent ≡ some (columns ptr 0 size)
  unfolding hexdump
  hexdump_lem size indent =
      let whole = size / 16 * 16 in
      rw (whole_lines_lem 0 (size / 16) indent) (elim (Bool-cases (ltb whole size)) [
        | inl more ↦
            rw (more, line_lem whole (size - whole) whole indent)
              (ap some (
                sym (
                  columns-+ ptr whole (size - whole) 0 size whole (omega (tests, more))
                    (omega arith))))
        | inr exact ↦ rw exact (
            ap some (
              ++-nil (columns ptr 0 whole)
              ∙ ap (columns ptr 0) {x = whole} {y = size} (ground arith)))
      ])

  read_bytes-columns : (i n : ℕ) → read_bytes (columns ptr i n) ≡ bytes_of ptr i n
  unfolding read_bytes columns bytes_of
  read_bytes-columns i zero = refl
  read_bytes-columns i (suc n) =
      rw
        (
          digit_value-alphabet (ptr i / 16) (omega (arith, byte i)),
          digit_value-alphabet (ptr i % 16) (omega arith),
          read_bytes-columns (i + 1) n,
        )
        (ap (λ b. b ∷ bytes_of ptr (i + 1) n) (omega arith))

  -- The compact dump of bytes ends, and its text reads back as all of them, in order.
  pub hexdump-read_bytes :
      (size indent : ℕ)
      → (text : List ℕ) × (hexdump ptr size true indent ≡ some text)
        × (read_bytes text ≡ bytes_of ptr 0 size)
  hexdump-read_bytes size indent =
      (columns ptr 0 size, hexdump_lem size indent, read_bytes-columns 0 size)
