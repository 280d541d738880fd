-- ===== src/Acpi/Tests.antt =====
-- A table of the interrupt controllers with one processor and one I/O controller, a list of
-- two tables, and a controller that keeps its registers.
use modern.Base.{
  ℕ, ◌+◌, ◌-◌, ◌≡◌, ltb, none, some, List, [], ◌∷◌, ◌==◌, if◌then◌else◌, get_or, refl, arith,
}
use modern.Memory.{Memory, memcmp, memcmp_loop}
use modern.Pages.{kernel_start}
use modern.Loader.{read_field}
use modern.Acpi.{
  has_signature, pcie_config_signature, apic_signature, find_round, Device, pic_writes, find_tables,
  ioapic_init,
}
use modern.Acpi.Tables.{IsLast, is_pcie, is_apic, entry, find_tables_lem}
use modern.Acpi.Routes.{IsIoApic, IsRouted, ioapic_init-IsRouted}

-- registers by number, and the one that is selected
abbrev controller : Device
controller = record {
  State = ℕ × (ℕ → ℕ);
  store32 = λ s a v.
      if a == (kernel_start + 0xfec0_0000)
      then (v, s.1)
      else (s.0, λ k. if k == s.0 then v else s.1 k);
  load32 = λ s a. s.1 s.0;
}

abbrev controller-IsIoApic : IsIoApic controller (kernel_start + 0xfec0_0000)
controller-IsIoApic = record {
  reg = λ s k. s.1 k;
  select = λ s o k. refl;
  set = λ s o v k lo hi. refl;
  get = λ s o. refl;
}

-- 36 bytes of header, the address and the flags, a processor's entry, the controller's
abbrev madt : List ℕ
madt =
    b'A' ∷ b'P' ∷ b'I' ∷ b'C' ∷ 64 ∷ 0 ∷ 0 ∷ 0 ∷ 0 ∷ 0 ∷ 0 ∷ 0 ∷ 0 ∷ 0 ∷ 0 ∷ 0 ∷ 0 ∷ 0 ∷ 0 ∷ 0 ∷ 0
    ∷ 0 ∷ 0 ∷ 0 ∷ 0 ∷ 0 ∷ 0 ∷ 0 ∷ 0 ∷ 0 ∷ 0 ∷ 0 ∷ 0 ∷ 0 ∷ 0 ∷ 0 ∷ 0 ∷ 0 ∷ 0xe0 ∷ 0xfe ∷ 1 ∷ 0 ∷ 0
    ∷ 0 ∷ 0 ∷ 8 ∷ 0 ∷ 0 ∷ 1 ∷ 0 ∷ 0 ∷ 0 ∷ 1 ∷ 12 ∷ 0 ∷ 0 ∷ 0 ∷ 0 ∷ 0xc0 ∷ 0xfe ∷ 0 ∷ 0 ∷ 0 ∷ 0 ∷ []

abbrev firmware : Memory
firmware a = get_or madt a 0

-- register 1 says 24 entries
abbrev at_start : ℕ × (ℕ → ℕ)
at_start = (0, λ k. if k == 1 then 0x17_0020 else 0)

ioapic_init-IsRouted_example :
    (s' : ℕ × (ℕ → ℕ)) × (ioapic_init controller firmware 0 at_start
      ≡ some (pic_writes firmware 0, s'))
    × IsRouted controller (kernel_start + 0xfec0_0000) controller-IsIoApic s'
unfolding read_field
ioapic_init-IsRouted_example =
    ioapic_init-IsRouted controller firmware 0 0xfec0_0000 0 (8 ∷ 12 ∷ []) at_start
      controller-IsIoApic (omega arith) (omega arith) (omega arith) refl (omega arith) refl

-- two entries, for a table at 0x1000 and one at 0x2000
abbrev two_tables : Memory
two_tables a =
    if ltb a 16
    then if a == 1 then 0x10 else if a == 9 then 0x20 else 0
    else if ltb a (kernel_start + 0x2000)
    then get_or pcie_config_signature (a - (kernel_start + 0x1000)) 0
    else get_or apic_signature (a - (kernel_start + 0x2000)) 0

both_found :
    find_tables two_tables 0 0 2 (record { pcie = none; apic = none })
    ≡ record { pcie = some (kernel_start + 0x1000); apic = some (kernel_start + 0x2000) }
unfolding find_tables find_round has_signature read_field memcmp memcmp_loop
both_found = refl

find_tables_lem_example :
    let r = find_tables two_tables 0 0 2 (record { pcie = none; apic = none }) in
    IsLast (is_pcie two_tables) (entry two_tables 0) 0 2 none r.pcie
    × IsLast (is_apic two_tables) (entry two_tables 0) 0 2 none r.apic
find_tables_lem_example = find_tables_lem two_tables 0 2
