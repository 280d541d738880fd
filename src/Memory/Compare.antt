-- ===== src/Memory/Compare.antt =====
-- `memcmp`, `strcmp` and `strlen` of lib/string.cpp.
use modern.Base.{ℕ, zero, suc, ◌+◌, ◌≤◌, ◌<◌, ◌≡◌, ◌≢◌, ◌⊎◌, inl, some, refl, arith, ℕ_discrete}
use modern.Memory.{minus_one, memcmp_loop, memcmp, strcmp, strlen}

-- The first `n` bytes from index `i` on are the same.
abbrev pub Agree : (ℕ → ℕ) → (ℕ → ℕ) → ℕ → ℕ → Type 0
Agree lhs rhs i zero = Unit
Agree lhs rhs i (suc n) = (lhs i ≡ rhs i) × Agree lhs rhs (i + 1) n

-- At their first difference, within `n` bytes from index `i` on, the left one is smaller.
abbrev pub Less : (ℕ → ℕ) → (ℕ → ℕ) → ℕ → ℕ → Type 0
Less lhs rhs i zero = ⊥
Less lhs rhs i (suc n) = (lhs i < rhs i) ⊎ ((lhs i ≡ rhs i) × Less lhs rhs (i + 1) n)

-- What `memcmp` returns: 0 for equal bytes, -1 and 1 by the first difference.
abbrev pub Compared : (ℕ → ℕ) → (ℕ → ℕ) → ℕ → ℕ → ℕ → Type 0
Compared lhs rhs i n r =
    ((r ≡ 0) × Agree lhs rhs i n)
    ⊎ ((r ≡ minus_one) × Less lhs rhs i n ⊎ (r ≡ 1) × Less rhs lhs i n)

memcmp_loop_lem : (lhs rhs : ℕ → ℕ) (i n : ℕ) → Compared lhs rhs i n (memcmp_loop lhs rhs i n)
unfolding memcmp_loop
memcmp_loop_lem lhs rhs i zero = inl (refl, tt)
memcmp_loop_lem lhs rhs i (suc n) = ground (arith, memcmp_loop_lem lhs rhs (i + 1) n)

-- `memcmp` compares as words in a dictionary: it returns 0 if the first `size` bytes are the same,
-- -1 if at the first difference the left byte is smaller, and 1 if the right one is.
pub memcmp_lem : (lhs rhs : ℕ → ℕ) (size : ℕ) → Compared lhs rhs 0 size (memcmp lhs rhs size)
unfolding memcmp
memcmp_lem lhs rhs size = memcmp_loop_lem lhs rhs 0 size

-- `strcmp` returns 0 for any two strings that are not empty, whatever they hold.
pub strcmp_nonempty :
    (fuel : ℕ) (a b : ℕ → ℕ) → a 0 ≢ 0 → b 0 ≢ 0 → strcmp (suc fuel) a b 0 ≡ some 0
unfolding strcmp
strcmp_nonempty fuel a b h k = ground arith

strlen_loop :
    (fuel : ℕ) (s : ℕ → ℕ) (size len : ℕ)
    → size ≤ len
    → len < size + fuel
    → s len ≡ 0
    → ((i : ℕ) → i < len → s i ≢ 0)
    → strlen fuel s size ≡ some len
unfolding strlen
strlen_loop zero s size len lo hi end inner = absurd (omega arith)
strlen_loop (suc fuel) s size len lo hi end inner = elim (ℕ_discrete size len) [
  | yes here ↦ rw here (ground arith)
  | no ne ↦
      ground
        (arith, inner size, strlen_loop fuel s (size + 1) len (omega arith) (omega arith) end inner)
]

-- `strlen` returns the index of the first zero byte, given fuel beyond it.
pub strlen_lem :
    (fuel : ℕ) (s : ℕ → ℕ) (len : ℕ)
    → len < fuel
    → s len ≡ 0
    → ((i : ℕ) → i < len → s i ≢ 0)
    → strlen fuel s 0 ≡ some len
strlen_lem fuel s len enough end inner =
    strlen_loop fuel s 0 len (omega arith) (omega arith) end inner
