-- ===== src/Pci/Scan.antt =====
-- device/pci.cpp: which drivers start in a scan of one device.
use modern.Base.{
  ℕ, zero, suc, ◌+◌, ◌<◌, ◌≤◌, ◌≡◌, inl, inr, Bool, true, false, ◌==◌, refl, arith, ap, sym, ◌∙◌,
  Bool-cases, Option, some, none, List, ℕ_discrete, subst,
}
use mathlib.Core.List.{Memᴰ}
use mathlib.Core.List.Memᴰ
use modern.Pci.{
  ConfigSpace, PciBar, EcmGroup, invalid_vendor, parse_bars, concat_range, space_address,
  start_driver, scan_function, scan_device,
}

pub concat_range-intro :
    (round : ℕ → List ℕ) (i n x d : ℕ)
    → i ≤ x
    → x < i + n
    → Memᴰ d (round x)
    → Memᴰ d (concat_range round i n)
unfolding concat_range
concat_range-intro round i zero x d above below at = absurd (omega arith)
concat_range-intro round i (suc n) x d above below at = elim (ℕ_discrete x i) [
  | yes here ↦
      Memᴰ.append_left (concat_range round (i + 1) n) (subst (λ y. Memᴰ d (round y)) here at)
  | no away ↦
      Memᴰ.append_right (round i)
        (concat_range-intro round (i + 1) n x d (omega arith) (omega arith) at)
]

pub concat_range-elim :
    (round : ℕ → List ℕ) (i n d : ℕ)
    → Memᴰ d (concat_range round i n)
    → (x : ℕ) × (i ≤ x) × (x < i + n) × Memᴰ d (round x)
unfolding concat_range
concat_range-elim round i zero d at = absurd (Memᴰ.not-nil at)
concat_range-elim round i (suc n) d at = elim (Memᴰ.append_cases (round i) at) [
  | inl here ↦ (i, omega arith, omega arith, here)
  | inr behind ↦
      let (x, above, below, at') = concat_range-elim round (i + 1) n d behind in
      (x, omega arith, omega arith, at')
]

module _ (space : ℕ → ConfigSpace) (find : ℕ → ℕ → Option ℕ)
    (enumerate : ℕ → ℕ → List (ℕ × PciBar) → Bool) (identity_map_start : ℕ) where
  -- A function at an address whose driver `d` is found and starts.
  pub record IsStarted (d address : ℕ) : Type 0 where
    pub present : ((space address).vendor == invalid_vendor) ≡ false
    pub found : find (space address).vendor (space address).device ≡ some d
    pub starts : enumerate d address (parse_bars (space address) 0 6) ≡ true

  -- A driver that starts on function `function` of a device whose function 0 is there, on one of the
  -- buses from the group's first to the one before its last.
  pub record IsActive (g : EcmGroup) (d : ℕ) : Type 0 where
    pub j : ℕ
    pub device : ℕ
    pub function : ℕ
    pub bus : g.bus_start + j < g.bus_end
    pub slot : device < 32
    pub number : function < 8
    pub device_present :
        ((space (space_address g.base j device 0)).vendor == invalid_vendor) ≡ false
    pub started : IsStarted d (space_address g.base j device function)

  start_driver-elim :
      (o : Option ℕ) (address d : ℕ) (bars : List (ℕ × PciBar))
      → Memᴰ d (start_driver space find enumerate identity_map_start o address bars)
      → (o ≡ some d) × (enumerate d address bars ≡ true)
  unfolding start_driver
  start_driver-elim none address d bars at = absurd (Memᴰ.not-nil at)
  start_driver-elim (some driver) address d bars at =
      elim (Bool-cases (enumerate driver address bars)) [
        | inl starts ↦
            let same : d ≡ driver = Memᴰ.eq_of_singleton (rw starts at at) in
            (ap some (sym same), ap (λ x. enumerate x address bars) same ∙ starts)
        | inr fails ↦ absurd (Memᴰ.not-nil (rw fails at at))
      ]

  scan_function-elim :
      (address d : ℕ)
      → Memᴰ d (scan_function space find enumerate identity_map_start address)
      → IsStarted d address
  unfolding scan_function
  scan_function-elim address d at = elim (Bool-cases ((space address).vendor == invalid_vendor)) [
    | inl absent ↦ absurd (Memᴰ.not-nil (rw absent at at))
    | inr present ↦
        let (found, starts) =
          start_driver-elim (find (space address).vendor (space address).device) address d
            (parse_bars (space address) 0 6) (rw present at at) in
        record { present = present; found = found; starts = starts }
  ]

  pub scan_function-intro :
      (address d : ℕ)
      → IsStarted d address
      → Memᴰ d (scan_function space find enumerate identity_map_start address)
  unfolding scan_function start_driver
  scan_function-intro address d s = rw (s.present, s.found, s.starts) (Memᴰ.head refl)

  pub scan_device-elim :
      (base j device d : ℕ)
      → Memᴰ d (scan_device space find enumerate identity_map_start base j device)
      → ((space (space_address base j device 0)).vendor == invalid_vendor ≡ false)
        × ((function : ℕ) × (function < 8) × IsStarted d (space_address base j device function))
  unfolding scan_device
  scan_device-elim base j device d at =
      elim (Bool-cases ((space (space_address base j device 0)).vendor == invalid_vendor)) [
        | inl absent ↦ absurd (Memᴰ.not-nil (rw absent at at))
        | inr present ↦
            let (function, low, number, at') =
              concat_range-elim
                (λ function.
                  scan_function space find enumerate identity_map_start
                    (space_address base j device function))
                0 8 d (rw present at at) in
            (
              present,
              (function, number, scan_function-elim (space_address base j device function) d at'),
            )
      ]
