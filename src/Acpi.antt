-- ===== src/Acpi.antt =====
-- device/efi.cpp: the tables of the firmware; device/rtl8139.cpp: `ioapic_init` and the registers of
-- the interrupt controller. Memory is by virtual address; what the controller does with a store is
-- the device's and a parameter.
pub mod Tables
pub mod Madt
pub mod Routes
pub mod Init
mod Tests
use modern.Base.{
  ℕ, zero, suc, ◌+◌, ◌-◌, ◌*◌, ◌/◌, ◌%◌, ◌^◌, Bool, true, false, not, ◌&&◌, Option, none, some,
  ◌>>=◌, ◌>>◌, guard, List, [], ◌∷◌, ltb, ◌==◌, if◌then◌else◌, get_or,
}
use modern.Base.Bytes.{u32_mod, add64, sub64}
use modern.Memory.{Memory, memcmp}
use modern.Pages.{kernel_start}
use modern.Loader.{read_field}
use modern.Mm.Walk.{identity_map_phy_end}
use modern.Bits.{bit_or}
use modern.Pci.{EcmGroup}

-- `SystemDescriptionTable`: its length, and where its data begins
abbrev pub table_length : Memory → ℕ → ℕ
table_length mem sdt = read_field mem (sdt + 4) 4

abbrev pub table_header : ℕ
table_header = 36

abbrev pub table_data : ℕ → ℕ
table_data sdt = sdt + table_header

-- "XSDT", "MCFG" and "APIC"
abbrev pub xsdt_signature : List ℕ
xsdt_signature = b'X' ∷ b'S' ∷ b'D' ∷ b'T' ∷ []

abbrev pub pcie_config_signature : List ℕ
pcie_config_signature = b'M' ∷ b'C' ∷ b'F' ∷ b'G' ∷ []

abbrev pub apic_signature : List ℕ
apic_signature = b'A' ∷ b'P' ∷ b'I' ∷ b'C' ∷ []

-- `memcmp(sdt->signature, signature, 4) == 0`
unfoldable pub has_signature : Memory → ℕ → List ℕ → Bool
unfolding memcmp
has_signature mem sdt signature = memcmp (λ i. mem (sdt + i)) (λ i. get_or signature i 0) 4 == 0

-- `pcie_sdt` and `apic_sdt`
pub record Found : Type 0 where
  pub pcie : Option ℕ
  pub apic : Option ℕ

-- one round of the loop over the entries, at the entry that holds `phy`
unfoldable pub find_round : Memory → ℕ → Found → Found
unfolding has_signature
find_round mem phy f =
    let sdt = phy + kernel_start in
    if ltb phy identity_map_phy_end
    then if has_signature mem sdt pcie_config_signature
      then record f { pcie = some sdt }
      else if has_signature mem sdt apic_signature
      then record f { apic = some sdt }
      else f
    else f

-- the rounds from `i` on, `n` of them
unfoldable pub find_tables : Memory → ℕ → ℕ → ℕ → Found → Found
unfolding find_round
find_tables mem tables i zero f = f
find_tables mem tables i (suc n) f =
    find_tables mem tables (i + 1) n (find_round mem (read_field mem (tables + 8 * i) 8) f)

-- the `n` groups that the configuration table lists, from `a` on
unfoldable pub ecm_groups : Memory → ℕ → ℕ → List EcmGroup
ecm_groups mem a zero = []
ecm_groups mem a (suc n) =
    record { base = read_field mem a 8; bus_start = mem (a + 10); bus_end = mem (a + 11) }
    ∷ ecm_groups mem (a + 16) n

-- The walk over the entries of the interrupt controllers' table: the address and the first interrupt
-- of the first I/O controller, or none. An entry of length 0 is read for ever; then the fuel runs out,
-- and the result is `none`.
unfoldable pub find_io_apic : ℕ → Memory → ℕ → ℕ → ℕ → Option (Option (ℕ × ℕ))
find_io_apic zero mem p rest offset = none
find_io_apic (suc fuel) mem p rest offset =
    let next = find_io_apic fuel mem p rest (add64 offset (mem (p + offset + 1))) in
    if ltb offset rest
    then if mem (p + offset) == 1
      then some (some (read_field mem (p + offset + 4) 4, read_field mem (p + offset + 8) 4))
      else next
    else some none

abbrev pub ioapic_irq_start : ℕ
ioapic_irq_start = 0x40

abbrev pub ioapic_irq_count : ℕ
ioapic_irq_count = 0x18

abbrev pub ioapic_isa_irq_com1 : ℕ
ioapic_isa_irq_com1 = 0x44

abbrev pub ioapic_pci_irq_start : ℕ
ioapic_pci_irq_start = 0x50

abbrev pub ioapic_pci_irq_count : ℕ
ioapic_pci_irq_count = 0x8

-- A device behind addresses: what 32-bit stores do, and what a load gives.
pub record Device : Type 1 where
  pub State : Type 0
  pub store32 : State → ℕ → ℕ → State
  pub load32 : State → ℕ → ℕ

-- `0x10 + 2*(irq - irq_base)` and `0x11 + …`, as a `u8`
abbrev pub entry_offset : ℕ → ℕ → ℕ → ℕ
entry_offset first irq irq_base =
    (first + 2 * ((irq + u32_mod - irq_base) % u32_mod)) % u32_mod % 2 ^ 8

-- `outb` to the two interrupt controllers of old, if they are there
unfoldable pub pic_writes : Memory → ℕ → List (ℕ × ℕ)
pic_writes mem table =
    if read_field mem (table_data table + 4) 4 % 2 == 1
    then (0x21, 0xff) ∷ (0xa1, 0xff) ∷ []
    else []

module _ (dev : Device) where
  open dev use {State, store32, load32}

  unfoldable pub write_ioapic_register : State → ℕ → ℕ → ℕ → State
  write_ioapic_register s apic_base offset val =
      store32 (store32 s apic_base offset) (apic_base + 0x10) val

  unfoldable pub read_ioapic_register : State → ℕ → ℕ → ℕ × State
  read_ioapic_register s apic_base offset =
      let selected = store32 s apic_base offset in (load32 selected (apic_base + 0x10), selected)

  unfoldable pub ioapic_disable_irq : State → ℕ → ℕ → ℕ → State
  unfolding write_ioapic_register
  ioapic_disable_irq s ioapic irq_base irq =
      write_ioapic_register s ioapic (entry_offset 0x10 irq irq_base) (2 ^ 16)

  -- the last two lines of it read the entry back, to print it
  unfoldable pub ioapic_enable_irq : State → ℕ → ℕ → ℕ → ℕ → State
  unfolding write_ioapic_register read_ioapic_register
  ioapic_enable_irq s ioapic target_lapic_id irq_base irq =
      let lo = entry_offset 0x10 irq irq_base in
      let hi = entry_offset 0x11 irq irq_base in
      let s1 = write_ioapic_register s ioapic lo (bit_or 32 irq (2 ^ 13)) in
      let s2 = write_ioapic_register s1 ioapic hi (target_lapic_id * 2 ^ 24 % u32_mod) in
      (read_ioapic_register (read_ioapic_register s2 ioapic lo).1 ioapic hi).1

  -- the two loops, from `irq` on
  unfoldable pub disable_from : State → ℕ → ℕ → ℕ → State
  disable_from s ioapic irq zero = s
  disable_from s ioapic irq (suc n) =
      disable_from (ioapic_disable_irq s ioapic ioapic_irq_start irq) ioapic (irq + 1) n

  unfoldable pub enable_from : State → ℕ → ℕ → ℕ → State
  enable_from s ioapic irq zero = s
  enable_from s ioapic irq (suc n) =
      enable_from (ioapic_enable_irq s ioapic 0 ioapic_irq_start irq) ioapic (irq + 1) n

  -- all entries masked, then those of the PCI devices and of the serial port opened
  unfoldable pub set_routes : State → ℕ → State
  set_routes s ioapic =
      let masked = disable_from s ioapic ioapic_irq_start ioapic_irq_count in
      let opened = enable_from masked ioapic ioapic_pci_irq_start ioapic_pci_irq_count in
      ioapic_enable_irq opened ioapic 0 ioapic_irq_start ioapic_isa_irq_com1

  -- `none` is a failed assertion, or a table that is read for ever. A round goes on by a byte at
  -- least, so the fuel is the number of bytes, and one more.
  unfoldable pub ioapic_init : Memory → ℕ → State → Option (List (ℕ × ℕ) × State)
  unfolding pic_writes
  ioapic_init mem table s = do
    let rest = sub64 (sub64 (table_length mem table) table_header) 8
    found ← find_io_apic (rest + 1) mem (table_data table + 8) rest 0
    (phy_addr, irq_base) ← found
    guard (not (phy_addr == 0))
    let ioapic0 = kernel_start + phy_addr
    let (v, s1) = read_ioapic_register s ioapic0 1
    let max_redir_entry = v / 2 ^ 16 % 2 ^ 8 + 1
    guard (max_redir_entry == ioapic_irq_count)
    some (pic_writes mem table, set_routes s1 ioapic0)

  -- What `efi_table_init` hands over: the ports written, the controller, and the groups of buses that
  -- are scanned.
  unfoldable pub efi_table_init : Memory → ℕ → State → Option (List (ℕ × ℕ) × State × List EcmGroup)
  efi_table_init mem xsdt_phy s = do
    guard (not (xsdt_phy == 0))
    guard (ltb xsdt_phy identity_map_phy_end)
    let xsdt = xsdt_phy + kernel_start
    guard (has_signature mem xsdt xsdt_signature)
    let n_entries = sub64 (table_length mem xsdt) table_header / 8
    let f = find_tables mem (table_data xsdt) 0 n_entries (record { pcie = none; apic = none })
    apic_sdt ← f.apic
    (ports, s1) ← ioapic_init mem apic_sdt s
    pcie_sdt ← f.pcie
    let n = sub64 (table_length mem pcie_sdt) table_header / 16
    some (ports, s1, ecm_groups mem (table_data pcie_sdt + 8) n)
