-- ===== src/Pci/Active.antt =====
-- device/pci.cpp: which drivers are active after `Enumerate`.
use modern.Base.{
  ℕ, ◌+◌, ◌-◌, ◌%◌, ◌<◌, ◌≤◌, ◌≡◌, ◌⊎◌, inl, inr, ◌↔◌, Bool, false, leb, refl, arith, Option, List,
  [], ◌∷◌, subst,
}
use mathlib.Core.List.{Memᴰ}
use mathlib.Core.List.Memᴰ
use modern.Base.Bytes.{u64_mod}
use modern.Pci.{
  ConfigSpace, PciBar, EcmGroup, concat_range, space_address, scan_function, scan_device, scan_bus,
  scan_group, scan_groups, enumerate_bus,
}
use modern.Pci.Scan.{
  concat_range-intro, concat_range-elim, IsActive, scan_function-intro, scan_device-elim,
}

module _ (space : ℕ → ConfigSpace) (find : ℕ → ℕ → Option ℕ)
    (enumerate : ℕ → ℕ → List (ℕ × PciBar) → Bool) (identity_map_start : ℕ) where
  abbrev Active : EcmGroup → ℕ → Type 0
  Active = IsActive space find enumerate identity_map_start

  -- The scan of a group that is in range.
  pub record IsGroup (g : EcmGroup) : Type 0 where
    pub low : g.base < identity_map_start
    pub ordered : g.bus_start ≤ g.bus_end
    pub byte : g.bus_end < 256

  scan_group-elim :
      (g : EcmGroup) (d : ℕ)
      → IsGroup g
      → Memᴰ d (scan_group space find enumerate identity_map_start g)
      → Active g d
  unfolding scan_group scan_bus
  scan_group-elim g d right at =
      let in_range : leb identity_map_start g.base ≡ false = ground (arith, right.low) in
      let (j, _, below, in_bus) =
        concat_range-elim
          (λ j. concat_range (scan_device space find enumerate identity_map_start g.base j) 0 32) 0
          ((g.bus_end + u64_mod - g.bus_start) % u64_mod) d (rw in_range at at) in
      let (device, _, slot, in_device) =
        concat_range-elim (scan_device space find enumerate identity_map_start g.base j) 0 32 d
          in_bus in
      let (present, (function, number, started)) =
        scan_device-elim space find enumerate identity_map_start g.base j device d in_device in
      record {
        j = j;
        device = device;
        function = function;
        bus = omega (arith, below, right.ordered, right.byte);
        slot = slot;
        number = number;
        device_present = present;
        started = started;
      }

  scan_group-intro :
      (g : EcmGroup) (d : ℕ)
      → IsGroup g
      → Active g d
      → Memᴰ d (scan_group space find enumerate identity_map_start g)
  unfolding scan_group scan_bus scan_device
  scan_group-intro g d right a =
      let in_range : leb identity_map_start g.base ≡ false = ground (arith, right.low) in
      rw in_range (
        concat_range-intro
          (λ j. concat_range (scan_device space find enumerate identity_map_start g.base j) 0 32) 0
          ((g.bus_end + u64_mod - g.bus_start) % u64_mod) a.j d (omega arith)
          (omega (arith, a.bus, right.byte))
          (concat_range-intro (scan_device space find enumerate identity_map_start g.base a.j) 0 32
            a.device d (omega arith) a.slot
            (rw a.device_present (
              concat_range-intro
                (λ function.
                  scan_function space find enumerate identity_map_start
                    (space_address g.base a.j a.device function))
                0 8 a.function d (omega arith) a.number
                (scan_function-intro space find enumerate identity_map_start
                  (space_address g.base a.j a.device a.function) d a.started)))))

  scan_groups-elim :
      (groups : List EcmGroup) (d : ℕ)
      → ((g : EcmGroup) → Memᴰ g groups → IsGroup g)
      → Memᴰ d (scan_groups space find enumerate identity_map_start groups)
      → (g : EcmGroup) × Memᴰ g groups × Active g d
  unfolding scan_groups
  scan_groups-elim [] d right at = absurd (Memᴰ.not-nil at)
  scan_groups-elim (g ∷ gs) d right at =
      elim (Memᴰ.append_cases (scan_group space find enumerate identity_map_start g) at) [
        | inl here ↦ (g, Memᴰ.head refl, scan_group-elim g d (right g (Memᴰ.head refl)) here)
        | inr behind ↦
            let (g', inside, active) =
              scan_groups-elim gs d (λ x m. right x (Memᴰ.tail m)) behind in
            (g', Memᴰ.tail inside, active)
      ]

  scan_groups-intro :
      (groups : List EcmGroup) (d : ℕ)
      → ((g : EcmGroup) → Memᴰ g groups → IsGroup g)
      → (g : EcmGroup) → Memᴰ g groups
      → Active g d
      → Memᴰ d (scan_groups space find enumerate identity_map_start groups)
  unfolding scan_groups
  scan_groups-intro [] d right g inside active = absurd (Memᴰ.not-nil inside)
  scan_groups-intro (g' ∷ gs) d right g inside active = elim (Memᴰ.cases_cons inside) [
    | inl here ↦
        Memᴰ.append_left (scan_groups space find enumerate identity_map_start gs)
          (scan_group-intro g' d (right g' (Memᴰ.head refl)) (subst (λ x. Active x d) here active))
    | inr behind ↦
        Memᴰ.append_right (scan_group space find enumerate identity_map_start g')
          (scan_groups-intro gs d (λ x m. right x (Memᴰ.tail m)) g behind active)
  ]

  -- After `Enumerate`, on groups in range, the active drivers are those from before and those that
  -- started on a function of a device whose function 0 is there, on any bus of a group but its last.
  pub enumerate_bus-IsActive :
      (active : List ℕ) (groups : List EcmGroup) (d : ℕ)
      → ((g : EcmGroup) → Memᴰ g groups → IsGroup g)
      → Memᴰ d (enumerate_bus space find enumerate identity_map_start active groups)
        ↔ (Memᴰ d active ⊎ ((g : EcmGroup) × Memᴰ g groups × Active g d))
  unfolding enumerate_bus
  enumerate_bus-IsActive active groups d right = (
    λ at. elim (Memᴰ.append_cases active at) [
      | inl before ↦ inl before
      | inr new ↦ inr (scan_groups-elim groups d right new)
    ],
    λ either. elim either [
      | inl before ↦
          Memᴰ.append_left (scan_groups space find enumerate identity_map_start groups) before
      | inr new ↦
          let (g, inside, started) = new in
          Memᴰ.append_right active (scan_groups-intro groups d right g inside started)
    ],
  )
