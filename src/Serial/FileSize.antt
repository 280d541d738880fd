-- ===== src/Serial/FileSize.antt =====
-- include/lib/file_size.h: a size in the largest unit that fits.
use modern.Base.{
  ℕ, zero, suc, ◌+◌, ◌*◌, ◌/◌, ◌%◌, ◌^◌, ◌<◌, ◌≤◌, ◌≡◌, leb, ◌==◌, ◌⊎◌, if◌then◌else◌, Option, some,
  ◌>>=◌, List, [], ◌∷◌, ◌++◌,
}
use modern.Serial.{dec, print_u64}

pub record Scaled : Type 0 where
  pub size : ℕ
  pub remains : ℕ
  pub order : ℕ

-- `while (size >= 1024 && order < 4)`, with the rounds that `order` leaves
unfoldable pub scale : ℕ → Scaled → Scaled
scale zero x = x
scale (suc rounds) x =
    if leb 1024 x.size
    then scale rounds
        (record { size = x.size / 1024; remains = x.size % 1024; order = x.order + 1 })
    else x

unfoldable pub units : ℕ → List ℕ
units zero = 0x42 ∷ []
units (suc zero) = 0x4b ∷ 0x69 ∷ 0x42 ∷ []
units (suc (suc zero)) = 0x4d ∷ 0x69 ∷ 0x42 ∷ []
units (suc (suc (suc zero))) = 0x47 ∷ 0x69 ∷ 0x42 ∷ []
units (suc (suc (suc (suc n)))) = 0x54 ∷ 0x69 ∷ 0x42 ∷ []

abbrev pub scaled_from : ℕ → Scaled
scaled_from n = record { size = n; remains = 0; order = 0 }

unfoldable pub print_file_size : ℕ → Option (List ℕ)
print_file_size n =
    let x = scale 4 (scaled_from n) in
    let r = x.remains * 100 / 1024 in
    do
      whole ← print_u64 dec x.size
      fraction ← print_u64 dec r
      some (
          whole
          ++ ((if r == 0
                then []
                else (if leb 10 r then 0x2e ∷ [] else 0x2e ∷ 0x30 ∷ []) ++ fraction)
              ++ units x.order))

-- What a size comes to: the whole part in its unit, and the next ten bits below.
abbrev pub IsScaled : ℕ → Scaled → Type 0
IsScaled n x =
    ((x.size < 1024) ⊎ (x.order ≡ 4))
    × (x.order ≤ 4)
    × (x.remains < 1024)
    × ((x.size * 1024 + x.remains) * 1024 ^ x.order ≤ n * 1024)
    × (n * 1024 < (x.size * 1024 + x.remains + 1) * 1024 ^ x.order)
