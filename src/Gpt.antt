-- ===== src/Gpt.antt =====
-- device/gpt.cpp, include/device/gpt.hpp: the partitions of a disk. The two buffers on the stack are
-- addresses, and the disk is read through `AHCIDevice::Read`.
pub mod Fields
pub mod Listed
pub mod Listing
mod Tests
use modern.Base.{
  ℕ, zero, suc, ◌+◌, ◌-◌, ◌*◌, ◌%◌, Bool, Option, none, some, ◌>>=◌, ◌>>◌, guard, true, List, [],
  ◌∷◌, leb, ◌==◌, if◌then◌else◌, get_or,
}
use modern.Base.Bytes.{u32_mod, u64_mod, add64, sub64}
use modern.Memory.{Memory, memcmp}
use modern.Pages.{PageSource}
use modern.Loader.{read_field}
use modern.Ahci.Read.{SectorReader, device_read, sector_size}
use modern.Rtl8139.Rx.{bytes_from}

-- the fields of `GPTPartitionTableHeader` that are read, at their offsets
pub record GptHeader : Type 0 where
  pub partition_entry_lba : ℕ
  pub partition_entry_count : ℕ
  pub partition_entry_size : ℕ

unfoldable pub header_at : Memory → ℕ → GptHeader
header_at mem a = record {
  partition_entry_lba = read_field mem (a + 72) 8;
  partition_entry_count = read_field mem (a + 80) 4;
  partition_entry_size = read_field mem (a + 84) 4;
}

-- `GPTPrimaryPartition`, with the bytes of `entry_` that are copied
pub record GptPrimaryPartition : Type 0 where
  pub start_offset : ℕ
  pub size : ℕ
  pub entry : List ℕ

-- `sizeof(GPTPartitionEntry)`, with the two-byte `wchar_t` that the kernel is built with
abbrev pub partition_entry_bytes : ℕ
partition_entry_bytes = 200

abbrev pub efi_magic : List ℕ
efi_magic = b'E' ∷ b'F' ∷ b'I' ∷ b' ' ∷ b'P' ∷ b'A' ∷ b'R' ∷ b'T' ∷ []

-- the item of an entry of `entry_size` bytes at `a`, which has one if its type is not 0
unfoldable pub partition_at : Memory → ℕ → ℕ → Option GptPrimaryPartition
partition_at mem a entry_size =
    let first_lba = read_field mem (a + 32) 8 in
    let last_lba = read_field mem (a + 40) 8 in
    if read_field mem a 16 == 0
    then none
    else some (record {
      start_offset = first_lba * sector_size % u64_mod;
      size = add64 (sub64 last_lba first_lba) 1 * sector_size % u64_mod;
      entry = bytes_from mem a entry_size;
    })

abbrev pub prepend :
    Option GptPrimaryPartition → List GptPrimaryPartition → List GptPrimaryPartition
prepend none rest = rest
prepend (some p) rest = p ∷ rest

-- the copy of `entry_size` bytes stays in the item, if there is one
abbrev pub fits : Option GptPrimaryPartition → ℕ → Bool
fits none entry_size = true
fits (some p) entry_size = leb entry_size partition_entry_bytes

-- the address on the disk of entry `i`: the product is a `u32`
abbrev pub entry_offset : ℕ → ℕ → ℕ → ℕ
entry_offset entries_start entry_size i = add64 entries_start (entry_size * i % u32_mod)

module _ (src : PageSource) (reader : SectorReader) where
  open src use {State}

  -- The rounds from `i` on, `n` of them. `none` is a panic, or a store outside the buffer or the item:
  -- neither of the two sizes is checked against the entry's.
  unfoldable pub list_entries :
      ℕ → ℕ → ℕ → ℕ → ℕ → Memory → State → Option (List GptPrimaryPartition × Memory × State)
  unfolding device_read partition_at
  list_entries entry_buf entries_start entry_size i zero mem s = some ([], mem, s)
  list_entries entry_buf entries_start entry_size i (suc n) mem s = do
    guard (leb entry_size sector_size)
    (ok, mem1, s1) ←
        device_read src reader entry_buf (entry_offset entries_start entry_size i) entry_size mem s
    guard ok
    let found = partition_at mem1 entry_buf entry_size
    guard (fits found entry_size)
    (rest, mem2, s2) ← list_entries entry_buf entries_start entry_size (i + 1) n mem1 s1
    some (prepend found rest, mem2, s2)

  -- `ListPrimaryPartitions`
  unfoldable pub list_primary_partitions :
      ℕ → ℕ → Memory → State → Option (List GptPrimaryPartition × Memory × State)
  unfolding device_read list_entries
  list_primary_partitions header_buf entry_buf mem s = do
    (ok, mem1, s1) ← device_read src reader header_buf sector_size sector_size mem s
    guard ok
    guard (memcmp (λ i. mem1 (header_buf + i)) (λ i. get_or efi_magic i 0) 8 == 0)
    let header = header_at mem1 header_buf
    let partition_entries_start = header.partition_entry_lba * sector_size % u64_mod
    list_entries entry_buf partition_entries_start header.partition_entry_size 0
        header.partition_entry_count mem1 s1
