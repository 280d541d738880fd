-- ===== src/Serial/Dump.antt =====
-- include/common/hexdump.hpp: the dump of bytes in lines of 16. What a print sends is a list of bytes;
-- `none` is a print that does not end within its buffer.
use modern.Base.{
  ℕ, zero, suc, ◌+◌, ◌-◌, ◌*◌, ◌/◌, ◌%◌, ◌^◌, ltb, leb, ◌&&◌, Bool, if◌then◌else◌, Option, some,
  ◌>>=◌, List, [], ◌∷◌, ◌++◌, replicate,
}
use modern.Serial.{hex, print_u64}

unfoldable pub hex01 : ℕ → Option (List ℕ)
hex01 value = do
  high ← print_u64 hex (value / 2 ^ 4)
  low ← print_u64 hex (value % 2 ^ 4)
  some (high ++ low)

-- `print_hex` on an integer of `n` bytes
unfoldable pub print_hex : ℕ → ℕ → Option (List ℕ)
print_hex zero value = some []
print_hex (suc n) value = do
  top ← hex01 (value / 2 ^ (8 * n) % 2 ^ 8)
  rest ← print_hex n value
  some (top ++ rest)

unfoldable pub isprint : ℕ → Bool
isprint c = leb 0x20 c && ltb c 0x7f

-- the columns of a line: `n` bytes from `ptr[i]` on, each with a space behind it
unfoldable pub hex_columns : (ℕ → ℕ) → ℕ → ℕ → Option (List ℕ)
hex_columns ptr i zero = some []
hex_columns ptr i (suc n) = do
  one ← hex01 (ptr i)
  rest ← hex_columns ptr (i + 1) n
  some (one ++ (0x20 ∷ rest))

-- the bytes as they are where they can be printed, and points elsewhere
unfoldable pub ascii_columns : (ℕ → ℕ) → ℕ → ℕ → List ℕ
ascii_columns ptr i zero = []
ascii_columns ptr i (suc n) =
    (if isprint (ptr i) then ptr i else 0x2e) ∷ ascii_columns ptr (i + 1) n

abbrev bar : List ℕ
bar = 0x20 ∷ 0x7c ∷ 0x20 ∷ []

unfoldable pub hexdump_line : (ℕ → ℕ) → ℕ → ℕ → ℕ → ℕ → Bool → ℕ → Option (List ℕ)
hexdump_line ptr first size cols addr compact indent = do
  bytes ← hex_columns ptr first size
  address ← print_hex 8 addr
  some (
      if compact
      then bytes
      else replicate indent 0x20
        ++ (address
            ++ (bar
                ++ (bytes
                    ++ (replicate (3 * (cols - size)) 0x20
                        ++ (bar ++ (ascii_columns ptr first size ++ (0x0a ∷ []))))))))

-- the whole lines from line `line` on
unfoldable pub whole_lines : (ℕ → ℕ) → ℕ → ℕ → Bool → ℕ → Option (List ℕ)
whole_lines ptr line zero compact indent = some []
whole_lines ptr line (suc n) compact indent = do
  one ← hexdump_line ptr (line * 16) 16 16 (line * 16) compact indent
  rest ← whole_lines ptr (line + 1) n compact indent
  some (one ++ rest)

-- `hexdump` of bytes
unfoldable pub hexdump : (ℕ → ℕ) → ℕ → Bool → ℕ → Option (List ℕ)
hexdump ptr size compact indent =
    let last =
      hexdump_line ptr (size / 16 * 16) (size - size / 16 * 16) 16 (size / 16 * 16) compact
        indent in
    do
      lines ← whole_lines ptr 0 (size / 16) compact indent
      tail ← (if ltb (size / 16 * 16) size then last else some [])
      some (lines ++ tail)
