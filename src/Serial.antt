-- ===== src/Serial.antt =====
-- include/lib/serial_port.h: how `operator<<` prints an unsigned number, and `puti` of boot_loader.c.
-- Text is the list of the bytes that reach the port, in order.
pub mod Digits
pub mod Print
pub mod Dump
pub mod FileSize
pub mod Bytes
pub mod Compact
mod Tests
use modern.Base.{
  ℕ, zero, suc, ◌+◌, ◌/◌, ◌%◌, ltb, ◌==◌, if◌then◌else◌, Option, some, none, ◌>>=◌, List, [], ◌∷◌,
}

-- `IntRadix`, and the `radix` of `operator<<`
pub data IntRadix : Type 0 where
  binary oct dec hex : IntRadix

unfoldable pub radix_of : IntRadix → ℕ
radix_of hex = 16
radix_of dec = 10
radix_of binary = 10
radix_of oct = 10

-- `"0123456789abcdef"[d]`, for digits below 16
unfoldable pub alphabet : ℕ → ℕ
alphabet d = if ltb d 10 then 0x30 + d else 0x57 + d

-- `temp[i] = digit`
unfoldable pub set_temp : (ℕ → ℕ) → ℕ → ℕ → ℕ → ℕ
set_temp temp i c j = if j == i then c else temp j

-- `while (remain)`: `none` where the fuel runs out or the digit would not fit in `temp`
unfoldable pub store_digits : ℕ → ℕ → ℕ → ℕ → (ℕ → ℕ) → ℕ → Option ((ℕ → ℕ) × ℕ)
store_digits size radix zero remain temp i = if remain == 0 then some (temp, i) else none
store_digits size radix (suc fuel) remain temp i =
    let rest =
      store_digits size radix fuel (remain / radix) (set_temp temp i (alphabet (remain % radix)))
        (i + 1) in
    if remain == 0 then some (temp, i) else if ltb i size then rest else none

-- `while (i > 0) put(temp[--i])`
unfoldable pub put_back : (ℕ → ℕ) → ℕ → List ℕ
put_back temp zero = []
put_back temp (suc i) = temp i ∷ put_back temp i

-- the whole, with the buffer's size; what it holds at first is not read
unfoldable pub put_number : ℕ → ℕ → ℕ → ℕ → Option (List ℕ)
put_number size radix fuel n =
    let stored = store_digits size radix fuel n (λ j. 0) 0 in
    if n == 0 then some (0x30 ∷ []) else (do (temp, i) ← stored; some (put_back temp i))

-- `operator<<` on a `u64`
unfoldable pub print_u64 : IntRadix → ℕ → Option (List ℕ)
print_u64 int_radix n = put_number 20 (radix_of int_radix) 64 n

-- `puti` of the boot loader
unfoldable pub puti : ℕ → Option (List ℕ)
puti n = put_number 32 16 64 n
