-- ===== src/Pci/Bars.antt =====
-- device/pci.cpp: what `bar_parse` finds of a area_register that follows the standard.
use modern.Base.{
  ℕ, ◌+◌, ◌*◌, ◌-◌, ◌/◌, ◌%◌, ◌^◌, ◌<◌, ◌≤◌, ◌≡◌, Bool, true, false, ◌==◌, leb, if◌then◌else◌, refl,
  arith, all_below, all_below_lem, ap₂, ◌∙◌, Bool-cases, inl, inr,
}
use modern.Base.Bytes.{u32_mod}
use native.Mathlib.Nat.{pow-le-pow_right}
use modern.Pci.{bar_parse}

-- A area_register of an area of `2 ^ k` bytes: what is written stays in the bits from `k` on, and the
-- lowest bits are the flags.
abbrev pub area_register : ℕ → ℕ → ℕ → ℕ
area_register k flags w = w / 2 ^ k * 2 ^ k + flags

-- the size that is read back for an area of `2 ^ k` bytes, where `n` bits are flags
abbrev size_read : ℕ → ℕ → ℕ → ℕ
size_read n k flags = (u32_mod - area_register k flags (u32_mod - n + flags) / n * n) % u32_mod

-- all sizes and flags, numbered: the areas of at least `n` bytes
abbrev right_size : ℕ → ℕ → ℕ → Bool
right_size n k flags = if leb n (2 ^ k) then size_read n k flags == 2 ^ k else true

memory_sizes : all_below 512 (λ i. right_size 16 (i / 16) (i % 16)) ≡ true
memory_sizes = refl

io_sizes : all_below 128 (λ i. right_size 4 (i / 4) (i % 4)) ≡ true
io_sizes = refl

right_size_lem :
    (n k flags : ℕ) → n ≤ 2 ^ k → right_size n k flags ≡ true → size_read n k flags ≡ 2 ^ k
right_size_lem n k flags wide h = ground (arith, wide, h)

memory_bar : (k flags : ℕ) → 4 ≤ k → k < 32 → flags < 16 → size_read 16 k flags ≡ 2 ^ k
memory_bar k flags low high few =
    right_size_lem 16 k flags (pow-le-pow_right {n = 2} (omega arith) {i = 4} {j = k} low) (
      ap₂ (right_size 16) {x = k} {y = (16 * k + flags) / 16} {u = flags}
        {v = (16 * k + flags) % 16} (omega arith) (omega arith)
      ∙ all_below_lem 512 (λ i. right_size 16 (i / 16) (i % 16)) (16 * k + flags) memory_sizes
          (omega arith))

io_bar : (k flags : ℕ) → 2 ≤ k → k < 32 → flags < 4 → size_read 4 k flags ≡ 2 ^ k
io_bar k flags low high few =
    right_size_lem 4 k flags (pow-le-pow_right {n = 2} (omega arith) {i = 2} {j = k} low) (
      ap₂ (right_size 4) {x = k} {y = (4 * k + flags) / 4} {u = flags} {v = (4 * k + flags) % 4}
        (omega arith) (omega arith)
      ∙ all_below_lem 128 (λ i. right_size 4 (i / 4) (i % 4)) (4 * k + flags) io_sizes
          (omega arith))

-- the bits of a area_register that hold flags: two of one for ports, four of one for memory
abbrev pub flag_range : ℕ → ℕ
flag_range old = if old % 2 == 1 then 4 else 16

-- `bar_parse`, on a area_register of an area of `2 ^ k` bytes, finds the size and the kind of the area
-- and leaves the area_register as it was. The start of an area of ports is without the flags, that of an
-- area of memory is the area_register's value with them.
pub bar_parse_lem :
    (k old : ℕ)
    → (if old % 2 == 1 then 2 else 4) ≤ k
    → k < 32
    → area_register k (old % flag_range old) old ≡ old
    → bar_parse (area_register k (old % flag_range old)) old ≡ record {
      start = if old % 2 == 1 then old / 4 * 4 else old;
      size = 2 ^ k;
      is_io = old % 2 == 1;
      left = old;
    }
unfolding bar_parse
bar_parse_lem k old low high holds = elim (Bool-cases (old % 2 == 1)) [
  | inl ports ↦
      let low' = rw ports at low in
      let holds' = rw ports at holds in
      rw ports (
        ap₂ (λ size left. record { start = old / 4 * 4; size = size; is_io = true; left = left })
          (io_bar k (old % 4) low' high (omega arith)) holds')
  | inr memory ↦
      let low' = rw memory at low in
      let holds' = rw memory at holds in
      rw memory (
        ap₂ (λ size left. record { start = old; size = size; is_io = false; left = left })
          (memory_bar k (old % 16) low' high (omega arith)) holds')
]
