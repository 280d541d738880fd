-- ===== src/Pci/Address.antt =====
-- device/pci.cpp: the two ways to address a function's configuration.
use modern.Base.{ℕ, ◌+◌, ◌*◌, ◌/◌, ◌%◌, ◌^◌, ◌<◌, ◌≡◌, refl, arith, ◌∙◌, subst}
use modern.Base.Bytes.{u32_mod}
use modern.Bits.{bit_or, bit_or-+, bit_or_comm}
use modern.Pci.{config_address, space_address}

-- `|` of a field from bit `m` on and one below it
joined : (n m c x b : ℕ) → x ≡ c * 2 ^ m → b < 2 ^ m → x < 2 ^ n → b < 2 ^ n → bit_or n x b ≡ x + b
joined n m c x b at low high fits =
    rw at (bit_or-+ n m c b low (subst (λ y. y < 2 ^ n) at high) fits)

-- The address that goes to the port names the bus, the slot, the function and the area_register, and has
-- the bit that enables the access.
pub config_address-fields :
    (bus slot func offset : ℕ)
    → bus < 256
    → slot < 32
    → func < 8
    → offset < 256
    → let a = config_address bus slot func offset in
      (a / 2 ^ 31 ≡ 1)
      × (a / 2 ^ 16 % 2 ^ 15 ≡ bus)
      × (a / 2 ^ 11 % 2 ^ 5 ≡ slot)
      × (a / 2 ^ 8 % 2 ^ 3 ≡ func)
      × (a % 2 ^ 8 ≡ offset / 4 * 4)
unfolding config_address
config_address-fields bus slot func offset few_buses few_slots few_funcs few =
    let bus_slot : bit_or 32 (bus * 2 ^ 16) (slot * 2 ^ 11) ≡ bus * 2 ^ 16 + slot * 2 ^ 11 =
      joined 32 16 bus (bus * 2 ^ 16) (slot * 2 ^ 11) refl (omega arith) (omega arith)
        (omega arith) in
    let with_func : bit_or 32 (bus * 2 ^ 16 + slot * 2 ^ 11) (func * 2 ^ 8)
        ≡ bus * 2 ^ 16 + slot * 2 ^ 11 + func * 2 ^ 8 =
      joined 32 11 (bus * 32 + slot) (bus * 2 ^ 16 + slot * 2 ^ 11) (func * 2 ^ 8) (omega arith)
        (omega arith) (omega arith) (omega arith) in
    let with_offset : bit_or 32 (bus * 2 ^ 16 + slot * 2 ^ 11 + func * 2 ^ 8) (offset % 256 / 4 * 4)
        ≡ bus * 2 ^ 16 + slot * 2 ^ 11 + func * 2 ^ 8 + offset % 256 / 4 * 4 =
      joined 32 8 (bus * 256 + slot * 8 + func) (bus * 2 ^ 16 + slot * 2 ^ 11 + func * 2 ^ 8)
        (offset % 256 / 4 * 4) (omega arith) (omega arith) (omega arith) (omega arith) in
    let low = bus * 2 ^ 16 + slot * 2 ^ 11 + func * 2 ^ 8 + offset % 256 / 4 * 4 in
    let enabled : bit_or 32 low 0x8000_0000 ≡ 0x8000_0000 + low =
      bit_or_comm 32 low 0x8000_0000
      ∙ joined 32 31 1 0x8000_0000 low refl (omega arith) (omega arith) (omega arith) in
    let fits : bus * 2 ^ 16 % u32_mod ≡ bus * 2 ^ 16 = omega arith in
    rw (fits, bus_slot, with_func, with_offset, enabled)
      (omega arith, omega arith, omega arith, omega arith, omega arith)

-- The spaces of the functions of a group lie in its 256 MiB, in the order of bus, device and function.
pub space_address-fields :
    (c j device function : ℕ)
    → c < 2 ^ 36
    → j < 256
    → device < 32
    → function < 8
    → space_address (c * 2 ^ 28) j device function
      ≡ c * 2 ^ 28 + (j * 2 ^ 20 + (device * 2 ^ 15 + function * 2 ^ 12))
unfolding space_address
space_address-fields c j device function few few_buses few_devices few_functions =
    let inner : bit_or 64 (device * 2 ^ 15) (function * 2 ^ 12)
        ≡ device * 2 ^ 15 + function * 2 ^ 12 =
      joined 64 15 device (device * 2 ^ 15) (function * 2 ^ 12) refl (omega arith) (omega arith)
        (omega arith) in
    let middle : bit_or 64 (j * 2 ^ 20) (device * 2 ^ 15 + function * 2 ^ 12)
        ≡ j * 2 ^ 20 + (device * 2 ^ 15 + function * 2 ^ 12) =
      joined 64 20 j (j * 2 ^ 20) (device * 2 ^ 15 + function * 2 ^ 12) refl (omega arith)
        (omega arith) (omega arith) in
    rw (inner, middle)
      (joined 64 28 c (c * 2 ^ 28) (j * 2 ^ 20 + (device * 2 ^ 15 + function * 2 ^ 12)) refl
        (omega arith) (omega arith) (omega arith))
