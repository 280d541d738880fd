-- ===== src/Acpi/Madt.antt =====
-- device/rtl8139.cpp: the walk of `ioapic_init` over the entries of the interrupt controllers' table.
use modern.Base.{
  ℕ, zero, suc, ◌+◌, ◌<◌, ◌≤◌, ◌≡◌, ◌≢◌, inl, inr, true, false, Option, none, some, List, [], ◌∷◌,
  length, ltb, ◌==◌, ==_of_ne, if◌then◌else◌, refl, arith, Bool-cases,
}
use modern.Base.Bytes.{add64, u64_mod}
use modern.Memory.{Memory}
use modern.Loader.{read_field}
use modern.Acpi.{find_io_apic}

-- Entries of these lengths lie one behind the other from offset `o` on, up to offset `rest`.
abbrev pub IsLaid : Memory → ℕ → ℕ → ℕ → List ℕ → Type 0
IsLaid mem p rest o [] = o ≡ rest
IsLaid mem p rest o (len ∷ lens) =
    (mem (p + o + 1) ≡ len) × (0 < len) × (o < rest) × IsLaid mem p rest (o + len) lens

-- the first of the entries that is an I/O controller
abbrev pub first_io_apic : Memory → ℕ → ℕ → List ℕ → Option (ℕ × ℕ)
first_io_apic mem p o [] = none
first_io_apic mem p o (len ∷ lens) =
    if mem (p + o) == 1
    then some (read_field mem (p + o + 4) 4, read_field mem (p + o + 8) 4)
    else first_io_apic mem p (o + len) lens

laid-le :
    (mem : Memory) (p rest o : ℕ) (lens : List ℕ)
    → IsLaid mem p rest o lens
    → o + length lens ≤ rest
laid-le mem p rest o [] h = omega (arith, h)
laid-le mem p rest o (len ∷ lens) h = omega (arith, h, laid-le mem p rest (o + len) lens h.3)

find_laid :
    (fuel : ℕ) (mem : Memory) (p rest o : ℕ) (lens : List ℕ)
    → rest < u64_mod
    → length lens < fuel
    → IsLaid mem p rest o lens
    → find_io_apic fuel mem p rest o ≡ some (first_io_apic mem p o lens)
unfolding find_io_apic
find_laid zero mem p rest o lens small enough h = absurd (omega arith)
find_laid (suc fuel) mem p rest o [] small enough h =
    let over : ltb o rest ≡ false = ground (arith, h) in rw over refl
find_laid (suc fuel) mem p rest o (len ∷ lens) small enough h =
    let inside : ltb o rest ≡ true = ground (arith, h.2) in
    let next : add64 o (mem (p + o + 1)) ≡ o + len =
      omega (arith, h.0, small, laid-le mem p rest (o + len) lens h.3) in
    elim (Bool-cases (mem (p + o) == 1)) [
      | inl here ↦ rw (inside, here) refl
      | inr on ↦
          rw (inside, on, next) (find_laid fuel mem p rest (o + len) lens small (omega arith) h.3)
    ]

-- On a table whose entries, none of length 0, fill its bytes, the walk ends within the fuel that
-- `ioapic_init` gives it, and finds the first entry of an I/O controller, or that there is none.
pub find_io_apic-first_io_apic :
    (mem : Memory) (p rest : ℕ) (lens : List ℕ)
    → rest < u64_mod
    → IsLaid mem p rest 0 lens
    → find_io_apic (rest + 1) mem p rest 0 ≡ some (first_io_apic mem p 0 lens)
find_io_apic-first_io_apic mem p rest lens small h =
    find_laid (rest + 1) mem p rest 0 lens small (omega (arith, laid-le mem p rest 0 lens h)) h

-- An entry of length 0 that is no I/O controller is read for ever: no fuel is enough.
pub find_io_apic-zero_length :
    (fuel : ℕ) (mem : Memory) (p rest o : ℕ)
    → o < rest
    → rest < u64_mod
    → mem (p + o) ≢ 1
    → mem (p + o + 1) ≡ 0
    → find_io_apic fuel mem p rest o ≡ none
unfolding find_io_apic
find_io_apic-zero_length zero mem p rest o inside small other empty = refl
find_io_apic-zero_length (suc fuel) mem p rest o inside small other empty =
    let within : ltb o rest ≡ true = ground arith in
    let same : add64 o (mem (p + o + 1)) ≡ o = omega (arith, empty) in
    rw (within, ==_of_ne other, same)
      (find_io_apic-zero_length fuel mem p rest o inside small other empty)
