-- ===== src/Acpi/Routes.antt =====
-- device/rtl8139.cpp: the entries of the interrupt controller after `ioapic_init`.
use modern.Base.{
  ℕ, zero, suc, ◌+◌, ◌-◌, ◌*◌, ◌/◌, ◌%◌, ◌^◌, ◌<◌, ◌≤◌, ◌≡◌, ◌≢◌, Bool, true, ◌&&◌, ◌||◌, none,
  some, List, ltb, leb, ◌==◌, ==_of_ne, if◌then◌else◌, refl, arith, ap, ◌∙◌, ℕ_discrete,
}
use modern.Base.Bytes.{u32_mod, sub64}
use modern.Memory.{Memory}
use modern.Pages.{kernel_start}
use modern.Bits.{bit_or}
use modern.Acpi.{
  Device, table_length, table_header, table_data, entry_offset, read_ioapic_register,
  ioapic_disable_irq, ioapic_enable_irq, disable_from, enable_from, set_routes, pic_writes,
  ioapic_init,
}
use modern.Acpi.Madt.{IsLaid, first_io_apic, find_io_apic-first_io_apic}

-- What the code relies on of the controller at `base`: a store to its first address selects a
-- register and changes none; a store 16 bytes further sets the selected register, if it is of the
-- table of entries, and a load there reads it.
pub record IsIoApic (dev : Device) (base : ℕ) : Type 0 where
  pub reg : dev.State → ℕ → ℕ
  pub select : (s : dev.State) (o k : ℕ) → reg (dev.store32 s base o) k ≡ reg s k
  pub set :
      (s : dev.State) (o v k : ℕ)
      → 0x10 ≤ o
      → o < 0x40
      → reg (dev.store32 (dev.store32 s base o) (base + 0x10) v) k ≡ (if k == o then v else reg s k)
  pub get : (s : dev.State) (o : ℕ) → dev.load32 (dev.store32 s base o) (base + 0x10) ≡ reg s o

-- entry `i` for an interrupt that is let through, as `ioapic_enable_irq` writes it
abbrev pub opened : ℕ → ℕ
opened i = bit_or 32 (0x40 + i) (2 ^ 13)

-- a register of entries `i` to `i + n - 1`: the low half of each
abbrev is_low : ℕ → ℕ → ℕ → Bool
is_low i n k = leb (16 + 2 * i) k && (ltb k (16 + 2 * (i + n)) && k % 2 == 0)

-- the interrupts that are let through: the serial port's, and those of the PCI devices
abbrev pub is_open : ℕ → Bool
is_open i = i == 4 || leb 16 i

module _ (dev : Device) (base : ℕ) (c : IsIoApic dev base) where
  disabled :
      (s : dev.State) (i k : ℕ)
      → i < 24
      → c.reg (ioapic_disable_irq dev s base 0x40 (0x40 + i)) k
        ≡ (if k == 16 + 2 * i then 2 ^ 16 else c.reg s k)
  unfolding ioapic_disable_irq
  disabled s i k h =
      let at : entry_offset 0x10 (0x40 + i) 0x40 ≡ 16 + 2 * i = omega arith in
      rw at (c.set s (16 + 2 * i) (2 ^ 16) k (omega arith) (omega arith))

  enabled :
      (s : dev.State) (i k : ℕ)
      → i < 24
      → c.reg (ioapic_enable_irq dev s base 0 0x40 (0x40 + i)) k
        ≡ (if k == 17 + 2 * i then 0 else if k == 16 + 2 * i then opened i else c.reg s k)
  unfolding ioapic_enable_irq
  enabled s i k h =
      let lo : entry_offset 0x10 (0x40 + i) 0x40 ≡ 16 + 2 * i = omega arith in
      let hi : entry_offset 0x11 (0x40 + i) 0x40 ≡ 17 + 2 * i = omega arith in
      let s1 = dev.store32 (dev.store32 s base (16 + 2 * i)) (base + 0x10) (opened i) in
      rw (lo, hi)
        (c.select _ (17 + 2 * i) k
          ∙ c.select _ (16 + 2 * i) k
          ∙ c.set s1 (17 + 2 * i) 0 k (omega arith) (omega arith)
          ∙ ap (λ r. if k == 17 + 2 * i then 0 else r)
              (c.set s (16 + 2 * i) (opened i) k (omega arith) (omega arith)))

  disabled_from :
      (s : dev.State) (i n k : ℕ)
      → i + n ≤ 24
      → c.reg (disable_from dev s base (0x40 + i) n) k
        ≡ (if is_low i n k then 2 ^ 16 else c.reg s k)
  unfolding disable_from
  disabled_from s i zero k h = ground arith
  disabled_from s i (suc n) k h =
      let next : 0x40 + i + 1 ≡ 0x40 + (i + 1) = omega arith in
      rw next (
        ground (
          arith,
          disabled_from (ioapic_disable_irq dev s base 0x40 (0x40 + i)) (i + 1) n k (omega arith),
          disabled s i k (omega arith),
        ))

  -- the low halves of the entries let through, and the high halves of the same
  enabled_from :
      (s : dev.State) (i n k : ℕ)
      → i + n ≤ 24
      → c.reg (enable_from dev s base (0x40 + i) n) k ≡ (
          if leb (16 + 2 * i) k && ltb k (16 + 2 * (i + n))
          then if k % 2 == 0 then opened ((k - 16) / 2) else 0
          else c.reg s k)
  unfolding enable_from
  enabled_from s i zero k h = ground arith
  enabled_from s i (suc n) k h =
      let next : 0x40 + i + 1 ≡ 0x40 + (i + 1) = omega arith in
      rw next (
        ground (
          arith,
          enabled_from (ioapic_enable_irq dev s base 0 0x40 (0x40 + i)) (i + 1) n k (omega arith),
          enabled s i k (omega arith),
        ))

  pub set_routes_low :
      (s : dev.State) (i : ℕ)
      → i < 24
      → c.reg (set_routes dev s base) (16 + 2 * i) ≡ (if is_open i then opened i else 2 ^ 16)
  unfolding set_routes
  set_routes_low s i h =
      let masked = disable_from dev s base 0x40 24 in
      let routed = enable_from dev masked base 0x50 8 in
      enabled routed 4 (16 + 2 * i) (omega arith) ∙ elim (ℕ_discrete i 4) [
        | yes e ↦ rw e refl
        | no ne ↦ ground (
          arith,
          enabled_from masked 16 8 (16 + 2 * i) (omega arith),
          disabled_from s 0 24 (16 + 2 * i) (omega arith),
          ap opened (let back : (16 + 2 * i - 16) / 2 ≡ i = omega arith in back),
        )
      ]

  pub set_routes_high :
      (s : dev.State) (i : ℕ)
      → i < 24
      → is_open i ≡ true
      → c.reg (set_routes dev s base) (17 + 2 * i) ≡ 0
  unfolding set_routes
  set_routes_high s i h open_i =
      let masked = disable_from dev s base 0x40 24 in
      let routed = enable_from dev masked base 0x50 8 in
      enabled routed 4 (17 + 2 * i) (omega arith)
      ∙ ground (arith, enabled_from masked 16 8 (17 + 2 * i) (omega arith))

-- What `ioapic_init` leaves: the registers of the old controllers that were written, and the entry of
-- each interrupt.
pub record IsRouted (dev : Device) (base : ℕ) (c : IsIoApic dev base) (s : dev.State) : Type 0 where
  pub low : (i : ℕ) → i < 24 → c.reg s (16 + 2 * i) ≡ (if is_open i then opened i else 2 ^ 16)
  pub high : (i : ℕ) → i < 24 → is_open i ≡ true → c.reg s (17 + 2 * i) ≡ 0

rest_of : (len : ℕ) → 44 ≤ len → len < u32_mod → sub64 (sub64 len table_header) 8 ≡ len - 44
rest_of len lo hi = omega arith

-- On a table whose entries, none of length 0, fill it, with an I/O controller among them that is not at
-- address 0 and has 24 entries, `ioapic_init` succeeds: exactly the interrupts of the serial port and
-- of the PCI devices are let through, each as its own vector to processor 0, and all others are
-- masked; the old controllers are switched off if the table's flag says that they are there.
pub ioapic_init-IsRouted :
    (dev : Device) (mem : Memory) (table phy_addr irq_base : ℕ) (lens : List ℕ) (s : dev.State)
    (c : IsIoApic dev (kernel_start + phy_addr))
    → 44 ≤ table_length mem table
    → table_length mem table < u32_mod
    → IsLaid mem (table_data table + 8) (table_length mem table - 44) 0 lens
    → first_io_apic mem (table_data table + 8) 0 lens ≡ some (phy_addr, irq_base)
    → phy_addr ≢ 0
    → c.reg s 1 / 2 ^ 16 % 2 ^ 8 ≡ 23
    → (s' : dev.State) × (ioapic_init dev mem table s ≡ some (pic_writes mem table, s'))
      × IsRouted dev (kernel_start + phy_addr) c s'
unfolding ioapic_init read_ioapic_register
ioapic_init-IsRouted dev mem table phy_addr irq_base lens s c lo hi laid first placed version =
    let base = kernel_start + phy_addr in
    let p = table_data table + 8 in
    let len = table_length mem table in
    let found =
      find_io_apic-first_io_apic mem p (len - 44) lens (omega arith) laid ∙ ap some first in
    let s1 = dev.store32 s base 1 in
    (
      set_routes dev s1 base,
      rw (rest_of len lo hi, found, ==_of_ne placed) (rw (c.get s 1, version) refl),
      record {
        low = λ i h. set_routes_low dev base c s1 i h;
        high = λ i h o. set_routes_high dev base c s1 i h o;
      },
    )

-- A table without an I/O controller is refused.
pub ioapic_init_refuses :
    (dev : Device) (mem : Memory) (table : ℕ) (lens : List ℕ) (s : dev.State)
    → 44 ≤ table_length mem table
    → table_length mem table < u32_mod
    → IsLaid mem (table_data table + 8) (table_length mem table - 44) 0 lens
    → first_io_apic mem (table_data table + 8) 0 lens ≡ none
    → ioapic_init dev mem table s ≡ none
unfolding ioapic_init
ioapic_init_refuses dev mem table lens s lo hi laid first =
    let p = table_data table + 8 in
    let len = table_length mem table in
    let found =
      find_io_apic-first_io_apic mem p (len - 44) lens (omega arith) laid ∙ ap some first in
    rw (rest_of len lo hi, found) refl
