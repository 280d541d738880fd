-- ===== src/Serial/Digits.antt =====
-- The printing of numbers: it ends, within its buffer, and the digits read back as the number.
use modern.Base.{
  ℕ, zero, suc, ◌+◌, ◌-◌, ◌*◌, ◌/◌, ◌%◌, ◌^◌, ◌<◌, ◌≤◌, ◌≡◌, ltb, ◌==◌, if◌then◌else◌, some, List,
  [], ◌∷◌, ◌++◌, length, refl, arith, ap, ◌∙◌, ℕ_discrete, ==_of_ne, ==_of_eq, sym, subst,
  length-append, lt→ltb,
}
use native.Mathlib.Nat.{pow-zero, div-lt_iff_lt-mul, pow-suc, div-add-mod', mod-lt}
use modern.Serial.{alphabet, set_temp, store_digits, put_back}

-- The value of a digit, and of a text of digits, the first the highest.
unfoldable pub digit_value : ℕ → ℕ
digit_value c = if ltb c 0x57 then c - 0x30 else c - 0x57

unfoldable pub read_number : ℕ → ℕ → List ℕ → ℕ
read_number radix acc [] = acc
read_number radix acc (c ∷ cs) = read_number radix (acc * radix + digit_value c) cs

pub digit_value-alphabet : (d : ℕ) → d < 16 → digit_value (alphabet d) ≡ d
unfolding digit_value alphabet
digit_value-alphabet d below = ground arith

-- the digits of a number, the first the highest; none for 0
unfoldable pub digits : ℕ → ℕ → ℕ → List ℕ
digits radix zero n = []
digits radix (suc fuel) n =
    let upper = digits radix fuel (n / radix) in
    if n == 0 then [] else upper ++ (alphabet (n % radix) ∷ [])

-- `0` for 0, and the digits of any other number
unfoldable pub text_of : ℕ → ℕ → ℕ → List ℕ
text_of radix f n = if n == 0 then 0x30 ∷ [] else digits radix f n

read_number-++ :
    (radix acc : ℕ) (xs ys : List ℕ)
    → read_number radix acc (xs ++ ys) ≡ read_number radix (read_number radix acc xs) ys
unfolding read_number
read_number-++ radix acc [] ys = refl
read_number-++ radix acc (c ∷ xs) ys = read_number-++ radix (acc * radix + digit_value c) xs ys

set_temp-same : (temp : ℕ → ℕ) (i c : ℕ) → set_temp temp i c i ≡ c
unfolding set_temp
set_temp-same temp i c = ground arith

put_back-set_temp :
    (temp : ℕ → ℕ) (i c k : ℕ) → k ≤ i → put_back (set_temp temp i c) k ≡ put_back temp k
unfolding put_back set_temp
put_back-set_temp temp i c zero within = refl
put_back-set_temp temp i c (suc k) within =
    rw (==_of_ne {a = k} {b = i} (omega arith), put_back-set_temp temp i c k (omega arith)) refl

++-one : (xs ys : List ℕ) (c : ℕ) → (xs ++ (c ∷ [])) ++ ys ≡ xs ++ (c ∷ ys)
++-one [] ys c = refl
++-one (x ∷ xs) ys c = ap (x ∷◌) (++-one xs ys c)

put_back-next :
    (temp : ℕ → ℕ) (i c : ℕ) → put_back (set_temp temp i c) (i + 1) ≡ c ∷ put_back temp i
unfolding put_back
put_back-next temp i c =
    ap (put_back (set_temp temp i c)) {y = suc i} (omega arith)
    ∙ rw (set_temp-same temp i c, put_back-set_temp temp i c i (omega arith)) refl

store_digits-done :
    (size radix fuel n : ℕ) (temp : ℕ → ℕ) (i : ℕ)
    → n ≡ 0
    → store_digits size radix fuel n temp i ≡ some (temp, i)
unfolding store_digits
store_digits-done size radix zero n temp i done = rw (==_of_eq {a = n} done) refl
store_digits-done size radix (suc fuel) n temp i done = rw (==_of_eq {a = n} done) refl

pub ++-nil : (xs : List ℕ) → xs ++ [] ≡ xs
++-nil [] = refl
++-nil (x ∷ xs) = ap (x ∷◌) (++-nil xs)

pub length-digits : (radix f n : ℕ) → length (digits radix f n) ≤ f
unfolding digits
length-digits radix zero n = omega arith
length-digits radix (suc f) n = elim (ℕ_discrete n 0) [
  | yes none_left ↦ rw (==_of_eq {a = n} none_left) (omega arith)
  | no some_left ↦
      rw
        (
          ==_of_ne {a = n} some_left,
          length-append (digits radix f (n / radix)) (alphabet (n % radix) ∷ []),
        )
        (omega (arith, length-digits radix f (n / radix)))
]

none_fit : (radix n : ℕ) → n < radix ^ 0 → 0 ≡ n
none_fit radix n fits = omega (arith, pow-zero radix)

module _ (radix : ℕ) (low : 2 ≤ radix) (high : radix ≤ 16) where
  upper_fits : (fuel n : ℕ) → n < radix ^ suc fuel → n / radix < radix ^ fuel
  upper_fits fuel n fits =
      let (to, from) = div-lt_iff_lt-mul {k = radix} {x = n} {y = radix ^ fuel} (omega arith) in
      from (subst (λ m. n < m) (pow-suc radix fuel) fits)

  pub read_number-digits :
      (fuel n : ℕ) → n < radix ^ fuel → read_number radix 0 (digits radix fuel n) ≡ n
  unfolding digits read_number
  read_number-digits zero n fits = none_fit radix n fits
  read_number-digits (suc fuel) n fits = elim (ℕ_discrete n 0) [
    | yes none_left ↦ rw (==_of_eq {a = n} none_left) (sym none_left)
    | no some_left ↦
        rw
          (
            ==_of_ne {a = n} some_left,
            read_number-++ radix 0 (digits radix fuel (n / radix)) (alphabet (n % radix) ∷ []),
            read_number-digits fuel (n / radix) (upper_fits fuel n fits),
            digit_value-alphabet (n % radix) (omega (arith, mod-lt n {m = radix} (omega arith))),
          )
          (div-add-mod' n radix)
  ]

  -- `f` rounds write the digits of a number below `radix ^ f`, whatever fuel is left.
  pub store_digits_lem :
      (size f fuel n i : ℕ) (temp : ℕ → ℕ)
      → n < radix ^ f
      → f ≤ fuel
      → i + f ≤ size
      → (temp' : ℕ → ℕ) × (i' : ℕ) × (store_digits size radix fuel n temp i ≡ some (temp', i'))
        × (put_back temp' i' ≡ digits radix f n ++ put_back temp i)
  unfolding digits store_digits
  store_digits_lem size zero fuel n i temp fits enough room =
      (temp, i, store_digits-done size radix fuel n temp i (sym (none_fit radix n fits)), refl)
  store_digits_lem size (suc f) zero n i temp fits enough room = absurd (omega arith)
  store_digits_lem size (suc f) (suc fuel) n i temp fits enough room = elim (ℕ_discrete n 0) [
    | yes none_left ↦
        (temp, i, rw (==_of_eq {a = n} none_left) refl, rw (==_of_eq {a = n} none_left) refl)
    | no some_left ↦
        let digit = alphabet (n % radix) in
        let (temp', i', runs, text) =
          store_digits_lem size f fuel (n / radix) (i + 1) (set_temp temp i digit)
            (upper_fits f n fits) (omega arith) (omega arith) in
        (
          temp',
          i',
          rw (==_of_ne {a = n} some_left, lt→ltb i size (omega arith)) runs,
          rw (==_of_ne {a = n} some_left) (
              text
              ∙ ap (digits radix f (n / radix) ++◌) (put_back-next temp i digit)
              ∙ sym (++-one (digits radix f (n / radix)) (put_back temp i) digit)),
        )
  ]
