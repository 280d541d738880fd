-- ===== src/Pci.antt =====
-- device/pci.cpp: base address registers, the scan of the bus and the dispatch of interrupts. A
-- driver is named by a number; what its `Enumerate` and `HandleInterrupt` answer, and what a
-- area_register reads after a write, is the device's and a parameter.
pub mod Bars
pub mod Address
pub mod Scan
pub mod Active
pub mod Dispatch
mod Tests
use modern.Base.{
  ℕ, zero, suc, ◌+◌, ◌*◌, ◌-◌, ◌/◌, ◌%◌, ◌^◌, Bool, true, false, ◌==◌, ltb, leb, if◌then◌else◌,
  Option, some, none, List, [], ◌∷◌, ◌++◌, not,
}
use modern.Base.Bytes.{u32_mod, u64_mod}
use modern.Bits.{bit_or}

-- `PCIBar`, and the value that the area_register is left with
pub record PciBar : Type 0 where
  pub start : ℕ
  pub size : ℕ
  pub is_io : Bool
  pub left : ℕ

-- `bar_parse` on a area_register that holds `old`, where `respond w` is what it holds after `w` was
-- written: 0xfffffffc and 0xfffffff0 mask the lowest two and four bits, and `~x + 1` is `2 ^ 32 - x`.
unfoldable pub bar_parse : (ℕ → ℕ) → ℕ → PciBar
bar_parse respond old =
    if old % 2 == 1
    then record {
      start = old / 4 * 4;
      size = (u32_mod - respond (0xffff_fffc + old % 4) / 4 * 4) % u32_mod;
      is_io = true;
      left = respond old;
    }
    else record {
      start = old;
      size = (u32_mod - respond (0xffff_fff0 + old % 16) / 16 * 16) % u32_mod;
      is_io = false;
      left = respond old;
    }

-- the address that `pci_config_read_word` sends: fields that do not overlap when they are in range
unfoldable pub config_address : ℕ → ℕ → ℕ → ℕ → ℕ
config_address bus slot func offset =
    bit_or 32
      (bit_or 32 (bit_or 32 (bit_or 32 (bus * 2 ^ 16 % u32_mod) (slot * 2 ^ 11)) (func * 2 ^ 8))
        (offset % 256 / 4 * 4))
      0x8000_0000

-- and the word that it takes of the 32 bits read
unfoldable pub config_word : ℕ → ℕ → ℕ
config_word offset word = word / 2 ^ (offset / 2 % 2 * 2 * 8) % 2 ^ 16

-- what the scan reads of `ExtendedConfigSpace`
pub record ConfigSpace : Type 0 where
  pub vendor : ℕ
  pub device : ℕ
  pub bars : ℕ → ℕ
  pub respond : ℕ → ℕ → ℕ

-- `ECMGroup`
pub record EcmGroup : Type 0 where
  pub base : ℕ
  pub bus_start : ℕ
  pub bus_end : ℕ

abbrev pub invalid_vendor : ℕ
invalid_vendor = 0xffff

-- the bars of `info`: those that are not 0, by their index
unfoldable pub parse_bars : ConfigSpace → ℕ → ℕ → List (ℕ × PciBar)
parse_bars cs i zero = []
parse_bars cs i (suc n) =
    let rest = parse_bars cs (i + 1) n in
    if cs.bars i == 0 then rest else (i, bar_parse (cs.respond i) (cs.bars i)) ∷ rest

-- the address of a function's space, without `KERNEL_START`
unfoldable pub space_address : ℕ → ℕ → ℕ → ℕ → ℕ
space_address base j device function =
    bit_or 64 base (bit_or 64 (j * 2 ^ 20) (bit_or 64 (device * 2 ^ 15) (function * 2 ^ 12)))

-- `for (i = first; i < first + n; i++)`, where each round appends to the active drivers
unfoldable pub concat_range : (ℕ → List ℕ) → ℕ → ℕ → List ℕ
concat_range round i zero = []
concat_range round i (suc n) = round i ++ concat_range round (i + 1) n

module _ (space : ℕ → ConfigSpace) (find : ℕ → ℕ → Option ℕ)
    (enumerate : ℕ → ℕ → List (ℕ × PciBar) → Bool) (identity_map_start : ℕ) where
  -- a driver that is found is active if its `Enumerate` says so
  unfoldable pub start_driver : Option ℕ → ℕ → List (ℕ × PciBar) → List ℕ
  start_driver none address bars = []
  start_driver (some driver) address bars =
      if enumerate driver address bars then driver ∷ [] else []

  -- one function
  unfoldable pub scan_function : ℕ → List ℕ
  scan_function address =
      let cs = space address in
      if cs.vendor == invalid_vendor
      then []
      else start_driver (find cs.vendor cs.device) address (parse_bars cs 0 6)

  -- the loop over the functions of a device whose function 0 is there
  unfoldable pub scan_device : ℕ → ℕ → ℕ → List ℕ
  scan_device base j device =
      if (space (space_address base j device 0)).vendor == invalid_vendor
      then []
      else concat_range (λ function. scan_function (space_address base j device function)) 0 8

  -- the loops over devices, buses and groups
  unfoldable pub scan_bus : ℕ → ℕ → List ℕ
  scan_bus base j = concat_range (λ device. scan_device base j device) 0 32

  -- `bus_end - bus_start` is an `int` and is compared as a `u64`
  unfoldable pub scan_group : EcmGroup → List ℕ
  scan_group g =
      if leb identity_map_start g.base
      then []
      else concat_range (λ j. scan_bus g.base j) 0 ((g.bus_end + u64_mod - g.bus_start) % u64_mod)

  unfoldable pub scan_groups : List EcmGroup → List ℕ
  scan_groups [] = []
  scan_groups (g ∷ gs) = scan_group g ++ scan_groups gs

  -- `PCIBusDriver::Enumerate`: the active drivers afterwards
  unfoldable pub enumerate_bus : List ℕ → List EcmGroup → List ℕ
  enumerate_bus active groups = active ++ scan_groups groups

-- The interrupt handler that `Enumerate` registers: the drivers that are asked, in order, and
-- whether one took it. The end of the interrupt is signalled in either case.
unfoldable pub dispatch : (ℕ → ℕ → Bool) → ℕ → List ℕ → List ℕ × Bool
dispatch handle irq [] = ([], false)
dispatch handle irq (d ∷ ds) =
    let (asked, handled) = dispatch handle irq ds in
    if handle d irq then (d ∷ [], true) else (d ∷ asked, handled)
