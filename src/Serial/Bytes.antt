-- ===== src/Serial/Bytes.antt =====
-- include/common/hexdump.hpp: the dumped text reads back as the bytes.
use modern.Base.{
  ℕ, zero, suc, ◌+◌, ◌*◌, ◌/◌, ◌%◌, ◌^◌, ◌<◌, ◌≡◌, some, List, [], ◌∷◌, ◌++◌, refl, arith, ap, ◌∙◌,
  ℕ_discrete, ==_of_eq, ==_of_ne,
}
use modern.Serial.{hex, alphabet, print_u64, radix_of}
use modern.Serial.Digits.{text_of, digits, read_number, digit_value-alphabet}
use modern.Serial.Print.{put_number_lem}
use modern.Serial.Dump.{hex01, print_hex}

one_digit : (d : ℕ) → d < 16 → text_of 16 1 d ≡ alphabet d ∷ []
unfolding text_of digits alphabet
one_digit d below = elim (ℕ_discrete d 0) [
  | yes nothing ↦ rw (==_of_eq {a = d} nothing) (ap (◌∷ []) (ground arith))
  | no digit ↦ rw (==_of_ne {a = d} digit) (ap (λ x. alphabet x ∷ []) {x = d % 16} (omega arith))
]

print_digit : (d : ℕ) → d < 16 → print_u64 hex d ≡ some (alphabet d ∷ [])
unfolding print_u64 radix_of
print_digit d below =
    put_number_lem 20 16 1 d (omega arith) (omega arith) (omega arith) (omega arith) (omega arith)
    ∙ ap some (one_digit d below)

-- the two digits of a byte
abbrev pub pair : ℕ → List ℕ
pair v = alphabet (v / 16) ∷ alphabet (v % 16) ∷ []

pub hex01_lem : (v : ℕ) → v < 256 → hex01 v ≡ some (pair v)
unfolding hex01
hex01_lem v byte = rw (print_digit (v / 16) (omega arith), print_digit (v % 16) (omega arith)) refl

read_number-pair :
    (acc v : ℕ) (cs : List ℕ)
    → v < 256
    → read_number 16 acc (pair v ++ cs) ≡ read_number 16 (acc * 256 + v) cs
unfolding read_number
read_number-pair acc v cs byte =
    rw (digit_value-alphabet (v / 16) (omega arith), digit_value-alphabet (v % 16) (omega arith))
      (ap (λ a. read_number 16 a cs) (omega arith))

print_hex_step :
    (n v : ℕ) (rest : List ℕ)
    → print_hex n v ≡ some rest
    → print_hex (suc n) v ≡ some (pair (v / 2 ^ (8 * n) % 2 ^ 8) ++ rest)
unfolding print_hex
print_hex_step n v rest runs = rw (hex01_lem (v / 2 ^ (8 * n) % 2 ^ 8) (omega arith), runs) refl

-- the bytes of an integer of `n` bytes, the highest first
abbrev pub hex_text : ℕ → ℕ → List ℕ
hex_text zero v = []
hex_text (suc n) v = pair (v / 2 ^ (8 * n) % 2 ^ 8) ++ hex_text n v

pub print_hex_lem : (n v : ℕ) → print_hex n v ≡ some (hex_text n v)
unfolding print_hex
print_hex_lem zero v = refl
print_hex_lem (suc n) v = print_hex_step n v (hex_text n v) (print_hex_lem n v)

read_number-hex_text :
    (n acc v : ℕ)
    → read_number 16 acc (hex_text (suc n) v)
      ≡ read_number 16 (acc * 256 + v / 2 ^ (8 * n) % 2 ^ 8) (hex_text n v)
read_number-hex_text n acc v =
    read_number-pair acc (v / 2 ^ (8 * n) % 2 ^ 8) (hex_text n v) (omega arith)

-- `print_hex` on a `u64` ends, and its sixteen digits read back as the number.
pub print_hex-read_number :
    (v : ℕ)
    → v < 2 ^ 64
    → (text : List ℕ) × (print_hex 8 v ≡ some text) × (read_number 16 0 text ≡ v)
unfolding read_number
print_hex-read_number v fits = (
  hex_text 8 v,
  print_hex_lem 8 v,
  read_number-hex_text 7 0 v
      ∙ read_number-hex_text 6 _ v
      ∙ read_number-hex_text 5 _ v
      ∙ read_number-hex_text 4 _ v
      ∙ read_number-hex_text 3 _ v
      ∙ read_number-hex_text 2 _ v
      ∙ read_number-hex_text 1 _ v
      ∙ read_number-hex_text 0 _ v
      ∙ omega arith,
)
