-- ===== src/FixedBlock/Tests.antt =====
-- The free list at small inputs.
use modern.Base.{none, some, [], ◌∷◌, ◌==◌, if◌then◌else◌, refl}
use modern.FixedBlock.{FixedBlock}
use modern.FixedBlock.Chain.{IsFreeList}

-- blocks 2 and 0 are free, 1 is the sentry
abbrev two_free : FixedBlock
two_free = record {
  next = λ i. if i == 2 then some 0 else if i == 0 then some 1 else none;
  head = some 2;
  tail = some 1;
}

two_free-IsFreeList : IsFreeList two_free (2 ∷ 0 ∷ []) 1
two_free-IsFreeList = (refl, refl, (refl, refl), refl, (refl, (refl, tt)))

abbrev none_free : FixedBlock
none_free = record { next = λ i. none; head = some 1; tail = some 1 }
