-- ===== src/SmallVec/Tests.antt =====
-- The vector at small inputs.
use modern.Base.{ℕ, ◌+◌, ◌≡◌, [], ◌∷◌, refl}
use modern.SmallVec.{SmallVec}
use modern.SmallVec.Laws.{elements}

abbrev pair : SmallVec ℕ
pair = record { buf = λ i. i + 7; len = 2 }

elements-pair : elements pair ≡ 7 ∷ 8 ∷ []
elements-pair = refl
