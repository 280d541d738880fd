-- ===== src/Bits.antt =====
-- Bits of words: `>>`, `|` and `^`, as the drivers use them.
use modern.Base.{
  ℕ, zero, suc, ◌+◌, ◌*◌, ◌/◌, ◌%◌, ◌^◌, ◌<◌, ◌≡◌, Bool, ◌==◌, ◌||◌, if◌then◌else◌, refl, arith,
  ◌∙◌, ap,
}
use native.Mathlib.Nat.{pow-suc}

-- `(w >> i) & 1`
abbrev pub bit : ℕ → ℕ → Bool
bit w zero = w % 2 == 1
bit w (suc i) = bit (w / 2) i

-- `a | b` on the lowest `n` bits
unfoldable pub bit_or : ℕ → ℕ → ℕ → ℕ
bit_or zero a b = 0
bit_or (suc n) a b = (if (a % 2 == 1) || (b % 2 == 1) then 1 else 0) + 2 * bit_or n (a / 2) (b / 2)

-- `a ^ b` on the lowest `n` bits
unfoldable pub bit_xor : ℕ → ℕ → ℕ → ℕ
bit_xor zero a b = 0
bit_xor (suc n) a b = (if a % 2 == b % 2 then 0 else 1) + 2 * bit_xor n (a / 2) (b / 2)

pub bit-bit_or : (n a b i : ℕ) → i < n → bit (bit_or n a b) i ≡ (bit a i || bit b i)
unfolding bit_or
bit-bit_or zero a b i h = absurd (omega arith)
bit-bit_or (suc n) a b zero h = ground arith
bit-bit_or (suc n) a b (suc i) h =
    let half : ((if (a % 2 == 1) || (b % 2 == 1) then 1 else 0) + 2 * bit_or n (a / 2) (b / 2)) / 2
        ≡ bit_or n (a / 2) (b / 2) =
      ground arith in
    rw half (bit-bit_or n (a / 2) (b / 2) i (omega arith))

bit_xor-zero : (n : ℕ) → bit_xor n 0 0 ≡ 0
unfolding bit_xor
bit_xor-zero zero = refl
bit_xor-zero (suc n) = omega (arith, bit_xor-zero n)

-- `^` needs no more bits than its arguments.
pub bit_xor-lt : (n m a b : ℕ) → a < 2 ^ m → b < 2 ^ m → bit_xor n a b < 2 ^ m
unfolding bit_xor
bit_xor-lt n zero a b ha hb =
    let za : a ≡ 0 = omega (arith, ha) in
    let zb : b ≡ 0 = omega (arith, hb) in rw (za, zb, bit_xor-zero n) (omega arith)
bit_xor-lt zero (suc m) a b ha hb = omega (arith, ha)
bit_xor-lt (suc n) (suc m) a b ha hb =
    let half : bit_xor n (a / 2) (b / 2) < 2 ^ m =
      bit_xor-lt n m (a / 2) (b / 2) (omega arith) (omega arith) in
    ground (arith, half)

pub bit_or-zero : (n a : ℕ) → a < 2 ^ n → bit_or n a 0 ≡ a
unfolding bit_or
bit_or-zero zero a small = omega arith
bit_or-zero (suc n) a small =
    let half : bit_or n (a / 2) 0 ≡ a / 2 = bit_or-zero n (a / 2) (omega arith) in
    ground (arith, half)

pub bit_or_comm : (n a b : ℕ) → bit_or n a b ≡ bit_or n b a
unfolding bit_or
bit_or_comm zero a b = refl
bit_or_comm (suc n) a b = let half = bit_or_comm n (a / 2) (b / 2) in ground (arith, half)

twice : (c p : ℕ) → c * (p * 2) ≡ 2 * (c * p)
twice c p = grind arith

-- Fields that do not overlap: `|` is their sum.
pub bit_or-+ :
    (n m c b : ℕ)
    → b < 2 ^ m
    → c * 2 ^ m < 2 ^ n
    → b < 2 ^ n
    → bit_or n (c * 2 ^ m) b ≡ c * 2 ^ m + b
unfolding bit_or
bit_or-+ zero m c b low high fits = omega arith
bit_or-+ (suc n) zero c b low high fits =
    let nothing : b ≡ 0 = omega arith in
    rw nothing (bit_or-zero (suc n) (c * 2 ^ 0) high ∙ omega arith)
bit_or-+ (suc n) (suc m) c b low high fits =
    let doubled : c * 2 ^ suc m ≡ 2 * (c * 2 ^ m) = ap (c *◌) (pow-suc 2 m) ∙ twice c (2 ^ m) in
    let half = bit_or-+ n m c (b / 2) (omega arith) (omega (arith, doubled)) (omega arith) in
    let upper : c * 2 ^ suc m / 2 ≡ c * 2 ^ m = omega (arith, doubled) in
    let even : c * 2 ^ suc m % 2 ≡ 0 = omega (arith, doubled) in
    rw (upper, even, half) (ground (arith, doubled))
