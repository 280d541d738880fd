-- ===== src/Acpi/Tables.antt =====
-- device/efi.cpp: which tables the loop over the entries finds.
use modern.Base.{
  ℕ, zero, suc, ◌+◌, ◌*◌, ◌<◌, ◌≤◌, ◌≡◌, ◌⊎◌, inl, inr, Bool, true, false, not, ◌&&◌, Option, none,
  some, ltb, if◌then◌else◌, refl, arith, ap, ◌∙◌, Bool-cases, ℕ_discrete,
}
use modern.Memory.{Memory}
use modern.Pages.{kernel_start}
use modern.Loader.{read_field}
use modern.Mm.Walk.{identity_map_phy_end}
use modern.Acpi.{
  has_signature, pcie_config_signature, apic_signature, Found, find_round, find_tables,
}

-- the physical address that entry `i` holds
abbrev pub entry : Memory → ℕ → ℕ → ℕ
entry mem tables i = read_field mem (tables + 8 * i) 8

-- The table at `phy` can be reached and has the signature.
abbrev pub is_pcie : Memory → ℕ → Bool
is_pcie mem phy =
    ltb phy identity_map_phy_end && has_signature mem (phy + kernel_start) pcie_config_signature

abbrev pub is_apic : Memory → ℕ → Bool
is_apic mem phy =
    ltb phy identity_map_phy_end
    && (not (has_signature mem (phy + kernel_start) pcie_config_signature)
        && has_signature mem (phy + kernel_start) apic_signature)

-- `r` is the table of the last of the entries from `i` on, `n` of them, that pass the test, or what it
-- was before, if none of them does.
abbrev pub IsLast : (ℕ → Bool) → (ℕ → ℕ) → ℕ → ℕ → Option ℕ → Option ℕ → Type 0
IsLast test at i n before r =
    ((r ≡ before) × ((j : ℕ) → i ≤ j → j < i + n → test (at j) ≡ false))
    ⊎ ((j : ℕ) × (i ≤ j)
        × (j < i + n)
        × (test (at j) ≡ true)
        × (r ≡ some (at j + kernel_start))
        × ((k : ℕ) → j < k → k < i + n → test (at k) ≡ false))

IsLast-step :
    (test : ℕ → Bool) (at : ℕ → ℕ) (i n : ℕ) (before middle r : Option ℕ)
    → middle ≡ (if test (at i) then some (at i + kernel_start) else before)
    → IsLast test at (i + 1) n middle r
    → IsLast test at i (suc n) before r
IsLast-step test at i n before middle r step (inr (j, lo, hi, yes_j, e, after)) =
    inr (j, omega arith, omega arith, yes_j, e, λ k above below. after k above (omega arith))
IsLast-step test at i n before middle r step (inl (e, none_after)) =
    elim (Bool-cases (test (at i))) [
      | inl here ↦ inr (
        i,
        omega arith,
        omega arith,
        here,
        e ∙ step ∙ rw here refl,
        λ k above below. none_after k (omega arith) (omega arith),
      )
      | inr away ↦ inl (
        e ∙ step ∙ rw away refl,
        λ j lo hi. elim (ℕ_discrete j i) [
          | yes same ↦ ap (λ x. test (at x)) same ∙ away
          | no other ↦ none_after j (omega arith) (omega arith)
        ],
      )
    ]

find_round-fields :
    (mem : Memory) (phy : ℕ) (f : Found)
    → ((find_round mem phy f).pcie
        ≡ (if is_pcie mem phy then some (phy + kernel_start) else f.pcie))
      × ((find_round mem phy f).apic
          ≡ (if is_apic mem phy then some (phy + kernel_start) else f.apic))
unfolding find_round
find_round-fields mem phy f = ground arith

find_tables-IsLast :
    (mem : Memory) (tables i n : ℕ) (f : Found)
    → let r = find_tables mem tables i n f in
      IsLast (is_pcie mem) (entry mem tables) i n f.pcie r.pcie
      × IsLast (is_apic mem) (entry mem tables) i n f.apic r.apic
unfolding find_tables
find_tables-IsLast mem tables i zero f =
    (inl (refl, λ j lo hi. absurd (omega arith)), inl (refl, λ j lo hi. absurd (omega arith)))
find_tables-IsLast mem tables i (suc n) f =
    let phy = entry mem tables i in
    let g = find_round mem phy f in
    let (fp, fa) = find_round-fields mem phy f in
    let (p, a) = find_tables-IsLast mem tables (i + 1) n g in
    (
      IsLast-step (is_pcie mem) (entry mem tables) i n f.pcie g.pcie _ fp p,
      IsLast-step (is_apic mem) (entry mem tables) i n f.apic g.apic _ fa a,
    )

-- The loop finds, for either signature, the table of the last entry that carries it below the end of
-- the identity mapping, and null exactly where there is none.
pub find_tables_lem :
    (mem : Memory) (tables n : ℕ)
    → let r = find_tables mem tables 0 n (record { pcie = none; apic = none }) in
      IsLast (is_pcie mem) (entry mem tables) 0 n none r.pcie
      × IsLast (is_apic mem) (entry mem tables) 0 n none r.apic
find_tables_lem mem tables n =
    find_tables-IsLast mem tables 0 n (record { pcie = none; apic = none })
