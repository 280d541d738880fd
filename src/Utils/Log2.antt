-- ===== src/Utils/Log2.antt =====
-- What the logarithms return.
use native.Mathlib.Nat.{pow-suc, one-le-pow}
use modern.Base.{
  ℕ, zero, suc, ◌+◌, ◌-◌, ◌*◌, ◌/◌, ◌%◌, ◌^◌, ◌≤◌, ◌<◌, ◌≡◌, inl, inr, arith, refl, ltb, ◌==◌,
  Bool-cases, ap,
}
use modern.Utils.{log2_loop, log2, log2_ceil_loop, log2_ceil}

-- `l` is the position of the highest one of `n`.
pub record IsLog2 (n l : ℕ) : Type 0 where
  pub lower : 2 ^ l ≤ n
  pub upper : n < 2 * 2 ^ l

pub IsLog2-suc : {n l : ℕ} → IsLog2 (n / 2) l → IsLog2 n (suc l)
IsLog2-suc {l} h = omega (arith, pow-suc 2 l)

log2_loop-IsLog2 :
    (k n ret : ℕ) → 0 < n → n < 2 ^ k → (l : ℕ) × (log2_loop k n ret ≡ ret + 1 + l) × IsLog2 n l
unfolding log2_loop
log2_loop-IsLog2 zero n ret p h = absurd (omega arith)
log2_loop-IsLog2 (suc k) n ret p h = elim (Bool-cases (ltb 0 (n / 2))) [
  | inl more ↦
      let (l, e, i) =
        log2_loop-IsLog2 k (n / 2) (ret + 1) (ground arith) (omega (arith, pow-suc 2 k)) in
      (suc l, rw more (omega arith), IsLog2-suc i)
  | inr last ↦ (0, rw last (omega arith), ground arith)
]

-- For every nonzero 64-bit number, `log2` returns the position of its highest one:
-- 2 ^ log2 n ≤ n < 2 ^ (log2 n + 1).
pub log2-IsLog2 : (n : ℕ) → 0 < n → n < 2 ^ 64 → IsLog2 n (log2 n)
unfolding log2
log2-IsLog2 n p h =
    let (l, e, i) = log2_loop-IsLog2 64 n 0 p h in
    let e' : log2_loop 64 n 0 - 1 ≡ l = omega arith in rw e' i

log2_loop-le : (k n ret : ℕ) → log2_loop k n ret ≤ ret + k
unfolding log2_loop
log2_loop-le zero n ret = omega arith
log2_loop-le (suc k) n ret = ground (arith, log2_loop-le k (n / 2) (ret + 1))

-- No logarithm exceeds 63.
pub log2-lt : (n : ℕ) → log2 n < 64
unfolding log2
log2-lt n = omega (arith, log2_loop-le 64 n 0)

-- The highest one has one position.
pub IsLog2-unique : {n : ℕ} (l m : ℕ) → IsLog2 n l → IsLog2 n m → l ≡ m
IsLog2-unique zero zero h i = refl
IsLog2-unique zero (suc m) h i = absurd (omega (arith, pow-suc 2 m, one-le-pow m 2 (omega arith)))
IsLog2-unique (suc l) zero h i = absurd (omega (arith, pow-suc 2 l, one-le-pow l 2 (omega arith)))
IsLog2-unique {n} (suc l) (suc m) h i =
    ap suc (IsLog2-unique {n = n / 2} l m (omega (arith, pow-suc 2 l)) (omega (arith, pow-suc 2 m)))

-- `l` is the least exponent with n ≤ 2 ^ l.
pub record IsLog2Ceil (n l : ℕ) : Type 0 where
  pub covers : n ≤ 2 ^ l
  pub least : 2 ^ l < 2 * n

-- Once a one has been counted, the loop returns the position above the highest one.
log2_ceil_loop_counted :
    (k n ones ret : ℕ)
    → 0 < ones
    → 0 < n
    → n < 2 ^ k
    → log2_ceil_loop k n ones ret ≡ log2_loop k n ret
unfolding log2_loop log2_ceil_loop
log2_ceil_loop_counted zero n ones ret o p h = absurd (omega arith)
log2_ceil_loop_counted (suc k) n ones ret o p h = ground (
  arith,
  pow-suc 2 k,
  log2_ceil_loop_counted k (n / 2) ones (ret + 1),
  log2_ceil_loop_counted k (n / 2) (ones + 1) (ret + 1),
)

log2_ceil_loop-IsLog2Ceil :
    (k n ret : ℕ)
    → 0 < n
    → n < 2 ^ k
    → (l : ℕ) × (log2_ceil_loop k n 0 ret ≡ ret + l) × IsLog2Ceil n l
unfolding log2_ceil_loop
log2_ceil_loop-IsLog2Ceil zero n ret p h = absurd (omega arith)
log2_ceil_loop-IsLog2Ceil (suc k) n ret p h = elim (Bool-cases (ltb 0 (n / 2))) [
  | inl more ↦ elim (Bool-cases (n % 2 == 0)) [
    | inl even ↦
        let (l, e, i) =
          log2_ceil_loop-IsLog2Ceil k (n / 2) (ret + 1) (ground arith)
            (omega (arith, pow-suc 2 k)) in
        (suc l, rw (even, more) (omega arith), ground (arith, pow-suc 2 l))
    | inr odd ↦
        let (l, e, i) =
          log2_loop-IsLog2 k (n / 2) (ret + 1) (ground arith) (omega (arith, pow-suc 2 k)) in
        (
          suc (suc l),
          rw (odd, more)
              (ground (arith, log2_ceil_loop_counted k (n / 2) 1 (ret + 1), pow-suc 2 k)),
          ground (arith, pow-suc 2 l, pow-suc 2 (suc l)),
        )
  ]
  | inr last ↦ (0, rw last (ground arith), ground arith)
]

-- For every nonzero 64-bit number, `log2_ceil` returns the least exponent whose power of two
-- covers it: n ≤ 2 ^ log2_ceil n < 2 n.
pub log2_ceil-IsLog2Ceil : (n : ℕ) → 0 < n → n < 2 ^ 64 → IsLog2Ceil n (log2_ceil n)
unfolding log2_ceil
log2_ceil-IsLog2Ceil n p h =
    let (l, e, i) = log2_ceil_loop-IsLog2Ceil 64 n 0 p h in
    let e' : log2_ceil_loop 64 n 0 0 ≡ l = omega arith in rw e' i
