-- ===== src/Pci/Tests.antt =====
-- A machine with one device in slot 3 of bus 0, with two functions.
use modern.Base.{
  ℕ, ◌≡◌, ◌⊎◌, ◌↔◌, true, if◌then◌else◌, ◌==◌, Option, some, none, [], ◌∷◌, arith, sym, subst,
}
use mathlib.Core.List.{Memᴰ}
use mathlib.Core.List.Memᴰ
use modern.Pci.{ConfigSpace, EcmGroup, enumerate_bus}
use modern.Pci.Scan.{IsActive}
use modern.Pci.Active.{enumerate_bus-IsActive, IsGroup}

abbrev machine : ℕ → ConfigSpace
machine = λ address. record {
  vendor =
      if address == 0xb001_8000 then 0x10ec else if address == 0xb001_9000 then 0x8086 else 0xffff;
  device = if address == 0xb001_8000 then 0x8139 else 0x2922;
  bars = λ i. 0;
  respond = λ i w. w;
}

-- driver 1 is that of the first function
abbrev find_driver : ℕ → ℕ → Option ℕ
find_driver = λ vendor device. if vendor == 0x10ec then some 1 else none

abbrev one_group : EcmGroup
one_group = record { base = 0xb000_0000; bus_start = 0; bus_end = 255 }

only-IsGroup :
    (g : EcmGroup)
    → Memᴰ g (one_group ∷ [])
    → IsGroup machine find_driver (λ d a bars. true) 0xffff_8000_0400_0000 g
only-IsGroup g at =
    let same : one_group ≡ g = sym (Memᴰ.eq_of_singleton at) in
    subst (IsGroup machine find_driver (λ d a bars. true) 0xffff_8000_0400_0000) same
      (record { low = omega arith; ordered = omega arith; byte = omega arith })

enumerate_bus-IsActive_example :
    Memᴰ {A = ℕ} 1 (
      enumerate_bus machine find_driver
        (λ d a bars. true)
        0xffff_8000_0400_0000
        []
        (one_group ∷ []))
    ↔ (Memᴰ {A = ℕ} 1 []
        ⊎ ((g : EcmGroup) × Memᴰ g (one_group ∷ [])
            × IsActive machine find_driver (λ d a bars. true) 0xffff_8000_0400_0000 g 1))
enumerate_bus-IsActive_example =
    enumerate_bus-IsActive machine find_driver (λ d a bars. true) 0xffff_8000_0400_0000 []
      (one_group ∷ []) 1 only-IsGroup
