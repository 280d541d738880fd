-- ===== src/Ahci/Bytes.antt =====
-- device/ahci.cpp: `AHCIDevice::Read` over a device that answers every read.
use modern.Base.{ℕ, ◌+◌, ◌%◌, ◌≤◌, ◌<◌, ◌≡◌, ◌⊎◌, Bool, true, Option, none, some, sym, ap, ◌∙◌}
use modern.Base.Bytes.{u64_mod}
use modern.Memory.{Memory}
use modern.Pages.{PageSource, kmalloc, kernel2phy}
use modern.Ahci.Read.{SectorReader, Reads, device_read, answer_for, device_read_lem}

abbrev pub Succeeds : SectorReader → Type 0
Succeeds reader =
    (startl starth count buf : ℕ) (mem : Memory) → (reader startl starth count buf mem).0 ≡ true

module _ {S : Type 0} where
  memory_of : Memory → Option (Bool × Memory × S) → Memory
  memory_of d none = d
  memory_of d (some r) = r.1

-- A read whose buffer is granted succeeds, and all its bytes are the disk's.
pub device_read_bytes :
    (src : PageSource) (reader : SectorReader) (disk : ℕ → ℕ) (output start size buf : ℕ)
    (mem : Memory) (s s' : src.State)
    → Reads reader disk
    → Succeeds reader
    → kmalloc src size s ≡ some (buf, s')
    → 0 < size
    → start % 512 + size ≤ 8192
    → start + size + 511 < u64_mod
    → buf + 8192 < u64_mod
    → (output ≤ buf) ⊎ (buf + 8192 ≤ output)
    → (mem' : Memory) × (device_read src reader output start size mem s ≡ some (true, mem', s'))
      × ((i : ℕ) → i < size → mem' (output + i) ≡ disk (start + i))
unfolding memory_of
device_read_bytes src reader disk output start size buf mem s s' right works got pos few room high
      apart =
    let byte = λ (i : ℕ) (h : i < size).
      device_read_lem src reader disk output start size buf i mem s s' right got pos few room high
        apart h in
    let (mem', runs, first) = byte 0 pos in
    let yes : answer_for reader start size buf mem ≡ true = works _ _ _ (kernel2phy buf) mem in
    (
      mem',
      runs ∙ ap (λ ok. some (ok, mem', s')) yes,
      λ i h.
          let (m, run, right_byte) = byte i h in
          ap (λ (f : Memory). f (output + i)) (ap (memory_of mem) (sym runs ∙ run))
          ∙ right_byte yes,
    )
