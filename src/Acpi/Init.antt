-- ===== src/Acpi/Init.antt =====
-- device/efi.cpp: `efi_table_init`, from the firmware's root table to the groups of buses.
use modern.Base.{
  ℕ, ◌+◌, ◌-◌, ◌*◌, ◌/◌, ◌%◌, ◌^◌, ◌<◌, ◌≤◌, ◌≡◌, ◌≢◌, true, none, some, List, ltb, ==_of_ne, refl,
  arith,
}
use modern.Base.Bytes.{u32_mod, sub64}
use modern.Memory.{Memory}
use modern.Pages.{kernel_start}
use modern.Mm.Walk.{identity_map_phy_end}
use modern.Acpi.{
  Device, table_length, table_data, xsdt_signature, has_signature, find_tables, ecm_groups,
  pic_writes, ioapic_init, efi_table_init,
}
use modern.Acpi.Madt.{IsLaid, first_io_apic}
use modern.Acpi.Routes.{IsIoApic, IsRouted, ioapic_init-IsRouted}

-- the number of items of 8 and of 16 bytes that the source computes from a table's length
n_entries_of : (len m : ℕ) → len ≡ 36 + 8 * m → len < u32_mod → sub64 len 36 / 8 ≡ m
n_entries_of len m e small = omega (arith, e)

n_groups_of : (len n : ℕ) → len ≡ 44 + 16 * n → len < u32_mod → sub64 len 36 / 16 ≡ n
n_groups_of len n e small = omega (arith, e)

-- the code's steps, put together
init_steps :
    (dev : Device) (mem : Memory) (xsdt_phy apic_sdt pcie_sdt m n : ℕ) (s s' : dev.State)
    (ports : List (ℕ × ℕ))
    → xsdt_phy ≢ 0
    → ltb xsdt_phy identity_map_phy_end ≡ true
    → has_signature mem (xsdt_phy + kernel_start) xsdt_signature ≡ true
    → sub64 (table_length mem (xsdt_phy + kernel_start)) 36 / 8 ≡ m
    → find_tables mem
        (table_data (xsdt_phy + kernel_start))
        0
        m
        (record { pcie = none; apic = none })
      ≡ record { pcie = some pcie_sdt; apic = some apic_sdt }
    → ioapic_init dev mem apic_sdt s ≡ some (ports, s')
    → sub64 (table_length mem pcie_sdt) 36 / 16 ≡ n
    → efi_table_init dev mem xsdt_phy s
      ≡ some (ports, s', ecm_groups mem (table_data pcie_sdt + 8) n)
unfolding efi_table_init
init_steps dev mem xsdt_phy apic_sdt pcie_sdt m n s s' ports given below root entries found routed
      groups =
    rw (==_of_ne given, below, root, entries, found) (rw (routed, groups) refl)

-- From a root table below the end of the identity mapping with `m` entries, among which the loop finds
-- both tables, `efi_table_init` succeeds: the interrupts are routed as `ioapic_init` routes them by
-- the one table, and the `n` groups of buses that the other one lists are handed to the PCI driver.
-- The interrupt controllers' table has entries, none of length 0, that fill it, with an I/O controller
-- among them that is not at address 0 and has 24 entries.
pub efi_table_init-IsRouted :
    (dev : Device) (mem : Memory) (xsdt_phy apic_sdt pcie_sdt phy_addr irq_base m n : ℕ)
    (lens : List ℕ) (s : dev.State) (c : IsIoApic dev (kernel_start + phy_addr))
    → xsdt_phy ≢ 0
    → xsdt_phy < identity_map_phy_end
    → has_signature mem (xsdt_phy + kernel_start) xsdt_signature ≡ true
    → table_length mem (xsdt_phy + kernel_start) ≡ 36 + 8 * m
    → table_length mem (xsdt_phy + kernel_start) < u32_mod
    → find_tables mem
        (table_data (xsdt_phy + kernel_start))
        0
        m
        (record { pcie = none; apic = none })
      ≡ record { pcie = some pcie_sdt; apic = some apic_sdt }
    → 44 ≤ table_length mem apic_sdt
    → table_length mem apic_sdt < u32_mod
    → IsLaid mem (table_data apic_sdt + 8) (table_length mem apic_sdt - 44) 0 lens
    → first_io_apic mem (table_data apic_sdt + 8) 0 lens ≡ some (phy_addr, irq_base)
    → phy_addr ≢ 0
    → c.reg s 1 / 2 ^ 16 % 2 ^ 8 ≡ 23
    → table_length mem pcie_sdt ≡ 44 + 16 * n
    → table_length mem pcie_sdt < u32_mod
    → (s' : dev.State) × (efi_table_init dev mem xsdt_phy s
        ≡ some (pic_writes mem apic_sdt, s', ecm_groups mem (table_data pcie_sdt + 8) n))
      × IsRouted dev (kernel_start + phy_addr) c s'
efi_table_init-IsRouted dev mem xsdt_phy apic_sdt pcie_sdt phy_addr irq_base m n lens s c given
      below root entries small found lo hi laid first placed version groups few =
    let (s', runs, routed) =
      ioapic_init-IsRouted dev mem apic_sdt phy_addr irq_base lens s c lo hi laid first placed
        version in
    let inside : ltb xsdt_phy identity_map_phy_end ≡ true = ground arith in
    (
      s',
      init_steps dev mem xsdt_phy apic_sdt pcie_sdt m n s s' (pic_writes mem apic_sdt) given inside
          root (n_entries_of _ m entries small) found runs (n_groups_of _ n groups few),
      routed,
    )
