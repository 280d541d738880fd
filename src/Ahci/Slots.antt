-- ===== src/Ahci/Slots.antt =====
-- device/ahci.cpp: `find_cmdslot`, and the bits of a register.
use modern.Base.{
  ℕ, zero, suc, ◌+◌, ◌/◌, ◌%◌, ◌<◌, ◌≡◌, inl, inr, Bool, true, false, Option, none, some, ◌==◌,
  ◌||◌, if◌then◌else◌, arith, Bool-cases, sym, ◌∙◌,
}
use modern.Bits.{bit, bit_or, bit-bit_or}

-- The rounds from `i` on, `n` of them left; `none` is -1.
unfoldable pub find_free : ℕ → ℕ → ℕ → Option ℕ
find_free zero i slots = none
find_free (suc n) i slots =
    let rest = find_free n (i + 1) (slots / 2) in if slots % 2 == 0 then some i else rest

-- `find_cmdslot`, by the registers `sact` and `ci` of the port
unfoldable pub find_cmdslot : ℕ → ℕ → Option ℕ
unfolding bit_or find_free
find_cmdslot sact ci = find_free 32 0 (bit_or 32 sact ci)

-- the answer of a search through `n` slots from `i` on, whose busy bits are `busy`
abbrev pub Found : ℕ → ℕ → (ℕ → Bool) → Option ℕ → Type 0
Found i n busy none = (j : ℕ) → j < n → busy j ≡ true
Found i n busy (some k) =
    (m : ℕ) × (k ≡ i + m) × (m < n) × (busy m ≡ false) × ((j : ℕ) → j < m → busy j ≡ true)

find_free_lem : (n i slots : ℕ) → Found i n (bit slots) (find_free n i slots)
unfolding find_free
find_free_lem zero i slots = λ j h. absurd (omega arith)
find_free_lem (suc n) i slots = elim (Bool-cases (slots % 2 == 0)) [
  | inl free ↦ rw free (0, omega arith, omega arith, ground arith, λ j h. absurd (omega arith))
  | inr busy ↦ rw busy (
      later n i slots (ground arith) (find_free n (i + 1) (slots / 2))
        (find_free_lem n (i + 1) (slots / 2)))
]
  where
    later :
        (n i slots : ℕ)
        → bit slots 0 ≡ true
        → (r : Option ℕ) → Found (i + 1) n (bit (slots / 2)) r
        → Found i (suc n) (bit slots) r
    later n i slots first none all = below
      where
        below : (j : ℕ) → j < suc n → bit slots j ≡ true
        below zero h = first
        below (suc j) h = all j (omega arith)
    later n i slots first (some k) (m, at, lt, free, all) =
        (suc m, omega (arith, at), omega arith, free, below)
      where
        below : (j : ℕ) → j < suc m → bit slots j ≡ true
        below zero h = first
        below (suc j) h = all j (omega arith)

Found-same :
    (i n : ℕ) {f g : ℕ → Bool} (r : Option ℕ)
    → ((j : ℕ) → j < n → f j ≡ g j)
    → Found i n f r
    → Found i n g r
Found-same i n none same all = λ j h. sym (same j h) ∙ all j h
Found-same i n (some k) same (m, at, lt, free, all) =
    (m, at, lt, sym (same m lt) ∙ free, λ j h. sym (same j (omega arith)) ∙ all j h)

-- `find_cmdslot` returns the lowest of the 32 slots that is set neither in `sact` nor in `ci`, and -1
-- only where each slot is set in one of them.
pub find_cmdslot_lem :
    (sact ci : ℕ) → Found 0 32 (λ i. bit sact i || bit ci i) (find_cmdslot sact ci)
unfolding find_cmdslot
find_cmdslot_lem sact ci =
    Found-same 0 32 (find_free 32 0 (bit_or 32 sact ci)) (bit-bit_or 32 sact ci)
      (find_free_lem 32 0 (bit_or 32 sact ci))
