-- ===== src/Pci/Dispatch.antt =====
-- device/pci.cpp: which drivers an interrupt reaches.
use modern.Base.{
  ℕ, ◌≡◌, Bool, true, false, if◌then◌else◌, List, [], ◌∷◌, ◌++◌, refl, ap, ◌⊎◌, inl, inr,
  Bool-cases,
}
use modern.Pci.{dispatch}

-- no driver of a list takes the interrupt
abbrev pub none_handles : (ℕ → ℕ → Bool) → ℕ → List ℕ → Bool
none_handles handle irq [] = true
none_handles handle irq (d ∷ ds) = if handle d irq then false else none_handles handle irq ds

-- An interrupt is taken by the first driver that handles it and reaches none behind it; where none
-- handles it, every active driver has been asked, in order.
pub dispatch_lem :
    (handle : ℕ → ℕ → Bool) (irq : ℕ) (drivers : List ℕ)
    → ((dispatch handle irq drivers ≡ (drivers, false)) × (none_handles handle irq drivers ≡ true))
      ⊎ ((before : List ℕ) × (d : ℕ) × (behind : List ℕ) × (drivers ≡ before ++ (d ∷ behind))
          × (none_handles handle irq before ≡ true)
          × (handle d irq ≡ true)
          × (dispatch handle irq drivers ≡ (before ++ (d ∷ []), true)))
unfolding dispatch
dispatch_lem handle irq [] = inl (refl, refl)
dispatch_lem handle irq (d ∷ ds) = elim (Bool-cases (handle d irq)) [
  | inl takes ↦ inr ([], d, ds, refl, refl, takes, rw takes refl)
  | inr passes ↦ elim (dispatch_lem handle irq ds) [
    | inl (asked, none) ↦ inl (rw (passes, asked) refl, rw passes none)
    | inr (before, first, behind, split, none, takes, asked) ↦
        inr (
          d ∷ before,
          first,
          behind,
          ap (d ∷◌) split,
          rw passes none,
          takes,
          rw (passes, asked) refl,
        )
  ]
]
