-- ===== src/Gpt/Listed.antt =====
-- `ListPrimaryPartitions` over a disk that answers: the partitions are those of the disk's table.
use modern.Base.{
  ℕ, zero, suc, ◌+◌, ◌*◌, ◌%◌, ◌<◌, ◌≤◌, ◌≡◌, ◌⊎◌, true, Option, none, some, List, [], leb, get_or,
  refl, arith, ◌∙◌,
}
use modern.Base.Bytes.{u32_mod, u64_mod}
use modern.Memory.{Memory, memcmp}
use modern.Pages.{PageSource, kmalloc}
use modern.Ahci.Read.{SectorReader, Reads, device_read}
use modern.Ahci.Bytes.{Succeeds, device_read_bytes}
use modern.Gpt.{
  GptHeader, GptPrimaryPartition, partition_at, header_at, efi_magic, prepend, fits, entry_offset,
  list_entries, list_primary_partitions,
}
use modern.Gpt.Fields.{IsCopy, partition_at-copy, header_at-copy, memcmp-same}

-- the partitions of the entries from `i` on, `n` of them, read off the disk itself
unfoldable pub partitions_on : (ℕ → ℕ) → ℕ → ℕ → ℕ → ℕ → List GptPrimaryPartition
partitions_on disk entries_start entry_size i zero = []
partitions_on disk entries_start entry_size i (suc n) =
    prepend (partition_at disk (entries_start + entry_size * i) entry_size)
      (partitions_on disk entries_start entry_size (i + 1) n)

-- States from which `n` buffers of a sector are granted, each apart from the byte addresses `out` that
-- are read into.
pub record IsSupply (src : PageSource) (out : ℕ → Type 0) (Left : ℕ → src.State → Type 0)
    : Type 0 where
  pub give :
      (n size : ℕ) (s : src.State)
      → size ≤ 512
      → Left (suc n) s
      → (buf : ℕ) × (s' : src.State) × (kmalloc src size s ≡ some (buf, s'))
        × Left n s'
        × (buf + 8192 < u64_mod)
        × ((a : ℕ) → out a → (a ≤ buf) ⊎ (buf + 8192 ≤ a))

fits_small :
    (p : Option GptPrimaryPartition) (entry_size : ℕ) → entry_size ≤ 200 → fits p entry_size ≡ true
fits_small none entry_size h = refl
fits_small (some p) entry_size h = ground arith

zero_add : (n : ℕ) → 0 + n ≡ n
zero_add n = omega arith

-- the code's steps, put together
module _ (src : PageSource) (reader : SectorReader) where
  list_step :
      (entry_buf entries_start entry_size i n start : ℕ) (mem mem1 mem2 : Memory)
      (s s1 s2 : src.State) (p : Option GptPrimaryPartition) (rest : List GptPrimaryPartition)
      → leb entry_size 512 ≡ true
      → entry_offset entries_start entry_size i ≡ start
      → device_read src reader entry_buf start entry_size mem s ≡ some (true, mem1, s1)
      → partition_at mem1 entry_buf entry_size ≡ p
      → fits p entry_size ≡ true
      → list_entries src reader entry_buf entries_start entry_size (i + 1) n mem1 s1
        ≡ some (rest, mem2, s2)
      → list_entries src reader entry_buf entries_start entry_size i (suc n) mem s
        ≡ some (prepend p rest, mem2, s2)
  unfolding list_entries
  list_step entry_buf entries_start entry_size i n start mem mem1 mem2 s s1 s2 p rest sector at runs
        found item others =
      rw (sector, at, runs, found, item, others) refl

  list_all :
      (header_buf entry_buf : ℕ) (h : GptHeader) (start : ℕ) (mem mem1 : Memory) (s s1 : src.State)
      {r : List GptPrimaryPartition × Memory × src.State}
      → device_read src reader header_buf 512 512 mem s ≡ some (true, mem1, s1)
      → memcmp (λ i. mem1 (header_buf + i)) (λ i. get_or efi_magic i 0) 8 ≡ 0
      → header_at mem1 header_buf ≡ h
      → h.partition_entry_lba * 512 % u64_mod ≡ start
      → list_entries src reader entry_buf start h.partition_entry_size 0 h.partition_entry_count
          mem1 s1
        ≡ some r
      → list_primary_partitions src reader header_buf entry_buf mem s ≡ some r
  unfolding list_primary_partitions
  list_all header_buf entry_buf h start mem mem1 s s1 runs magic same at listed =
      rw (runs, magic, same, at) listed

module _ (src : PageSource) (reader : SectorReader) (disk : ℕ → ℕ) (out : ℕ → Type 0)
    (Left : ℕ → src.State → Type 0) (supply : IsSupply src out Left) (right : Reads reader disk)
    (works : Succeeds reader) where
  one_read :
      (output start size n : ℕ) (mem : Memory) (s : src.State)
      → out output
      → Left (suc n) s
      → 0 < size
      → size ≤ 512
      → start + 1023 < u64_mod
      → (mem' : Memory) × (s' : src.State) × (device_read src reader output start size mem s
          ≡ some (true, mem', s'))
        × Left n s'
        × IsCopy mem' output disk start size
  one_read output start size n mem s to left pos few room =
      let (buf, s', got, left', high, apart) = supply.give n size s few left in
      let (mem', runs, bytes) =
        device_read_bytes src reader disk output start size buf mem s s' right works got pos
          (omega arith) (omega arith) high (apart output to) in
      (mem', s', runs, left', bytes)

  listed_from :
      (entry_buf entries_start entry_size i n : ℕ) (mem : Memory) (s : src.State)
      → out entry_buf
      → Left n s
      → 48 ≤ entry_size
      → entry_size ≤ 200
      → entry_size * (i + n) < u32_mod
      → entries_start + u32_mod + 1023 < u64_mod
      → (mem' : Memory) × (s' : src.State) × (list_entries src reader entry_buf entries_start
            entry_size i n mem s
          ≡ some (partitions_on disk entries_start entry_size i n, mem', s'))
  unfolding list_entries partitions_on
  listed_from entry_buf entries_start entry_size i zero mem s to left lo hi low room =
      (mem, s, refl)
  listed_from entry_buf entries_start entry_size i (suc n) mem s to left lo hi low room =
      let small : entry_size * i < u32_mod = grind arith in
      let at : entry_offset entries_start entry_size i ≡ entries_start + entry_size * i =
        omega arith in
      let (mem1, s1, runs, left1, bytes) =
        one_read entry_buf (entries_start + entry_size * i) entry_size n mem s to left (omega arith)
          (omega arith) (omega arith) in
      let (mem2, s2, rest) =
        listed_from entry_buf entries_start entry_size (i + 1) n mem1 s1 to left1 lo hi
          (omega (arith, low)) room in
      let same =
        partition_at-copy mem1 disk entry_buf (entries_start + entry_size * i) entry_size lo
          bytes in
      let sector : leb entry_size 512 ≡ true = ground arith in
      let item =
        fits_small (partition_at disk (entries_start + entry_size * i) entry_size) entry_size hi in
      (
        mem2,
        s2,
        list_step src reader entry_buf entries_start entry_size i n _ mem mem1 mem2 s s1 s2 _ _
            sector at runs same item rest,
      )

  -- On a disk that answers every read, with a buffer granted for each, and whose second sector begins
  -- with the magic word, `ListPrimaryPartitions` succeeds. For a table of entries of 48 to 200 bytes,
  -- below 4 GiB in all and not at the end of the address space, it lists exactly the entries of the
  -- table that have a type, in the order of the disk, each with its place in bytes and its own bytes.
  pub list_primary_partitions-partitions_on :
      (header_buf entry_buf : ℕ) (mem : Memory) (s : src.State)
      → let h = header_at disk 512 in
        out header_buf
        → out entry_buf
        → Left (suc h.partition_entry_count) s
        → memcmp (λ i. disk (512 + i)) (λ i. get_or efi_magic i 0) 8 ≡ 0
        → 48 ≤ h.partition_entry_size
        → h.partition_entry_size ≤ 200
        → h.partition_entry_size * h.partition_entry_count < u32_mod
        → h.partition_entry_lba * 512 + u32_mod + 1023 < u64_mod
        → (mem' : Memory) × (s' : src.State) × (list_primary_partitions src reader header_buf
              entry_buf mem s
            ≡ some (
              partitions_on disk
                  (h.partition_entry_lba * 512)
                  h.partition_entry_size
                  0
                  h.partition_entry_count,
              mem',
              s',
            ))
  list_primary_partitions-partitions_on header_buf entry_buf mem s to_header to_entry left magic lo
        hi low room =
      let h = header_at disk 512 in
      let (mem1, s1, runs, left1, bytes) =
        one_read header_buf 512 512 h.partition_entry_count mem s to_header left (omega arith)
          (omega arith) (omega arith) in
      let same = header_at-copy mem1 disk header_buf 512 bytes in
      let matched : memcmp (λ i. mem1 (header_buf + i)) (λ i. get_or efi_magic i 0) 8 ≡ 0 =
        memcmp-same (λ i. mem1 (header_buf + i)) (λ i. disk (512 + i)) (λ i. get_or efi_magic i 0) 8
          (λ j lt. bytes j (omega arith))
        ∙ magic in
      let start : h.partition_entry_lba * 512 % u64_mod ≡ h.partition_entry_lba * 512 =
        omega (arith, room) in
      let (mem2, s2, listed) =
        listed_from entry_buf (h.partition_entry_lba * 512) h.partition_entry_size 0
          h.partition_entry_count mem1 s1 to_entry left1 lo hi
          (rw (zero_add h.partition_entry_count) low) room in
      (
        mem2,
        s2,
        list_all src reader header_buf entry_buf h _ mem mem1 s s1 runs matched same start listed,
      )
