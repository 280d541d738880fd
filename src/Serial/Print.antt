-- ===== src/Serial/Print.antt =====
-- What `operator<<` and `puti` print for an unsigned number.
use modern.Base.{
  ℕ, ◌^◌, ◌<◌, ◌≤◌, ◌≡◌, some, refl, arith, ap, ◌∙◌, ℕ_discrete, ==_of_ne, ==_of_eq, sym,
}
use modern.Serial.{hex, radix_of, put_back, put_number, print_u64, puti}
use modern.Serial.Digits.{digits, text_of, store_digits_lem, ++-nil}

-- A number below `radix ^ f` is printed, within a buffer of `f` digits.
pub put_number_lem :
    (size radix f n : ℕ)
    → 2 ≤ radix
    → radix ≤ 16
    → n < radix ^ f
    → f ≤ 64
    → f ≤ size
    → put_number size radix 64 n ≡ some (text_of radix f n)
unfolding put_number text_of put_back
put_number_lem size radix f n low high fits enough room = elim (ℕ_discrete n 0) [
  | yes none_left ↦ rw (==_of_eq {a = n} none_left) refl
  | no some_left ↦
      let (temp, i, runs, text) =
        store_digits_lem radix low high size f 64 n 0 (λ j. 0) fits enough (omega arith) in
      rw (==_of_ne {a = n} some_left, runs) (ap some (text ∙ ++-nil (digits radix f n)))
]

-- `puti` of the boot loader prints what the kernel prints in base 16.
pub puti-print_u64 : (n : ℕ) → n < 2 ^ 64 → puti n ≡ print_u64 hex n
unfolding puti print_u64 radix_of
puti-print_u64 n fits =
    put_number_lem 32 16 16 n (omega arith) (omega arith) (omega arith) (omega arith) (omega arith)
    ∙ sym (
        put_number_lem 20 16 16 n (omega arith) (omega arith) (omega arith) (omega arith)
          (omega arith))
