-- ===== src/Gpt/Listing.antt =====
-- What a list of partitions says of the disk, against its bytes.
use modern.Base.{
  ℕ, zero, suc, ◌+◌, ◌*◌, ◌%◌, ◌^◌, ◌<◌, ◌≤◌, ◌≡◌, ◌≢◌, ◌⊎◌, inl, inr, some, List, [], ◌∷◌,
  ==_of_eq, ==_of_ne, get_or, length, refl, arith, ap, ◌∙◌, ℕ_discrete,
}
use modern.Base.Bytes.{u32_mod, u64_mod, add64, sub64}
use modern.Memory.{Memory, memcmp}
use modern.Loader.{read_field}
use modern.Pages.{PageSource}
use modern.Ahci.Read.{SectorReader, Reads}
use modern.Ahci.Bytes.{Succeeds}
use modern.Rtl8139.Rx.{bytes_from}
use modern.Gpt.{
  GptPrimaryPartition, partition_at, prepend, efi_magic, header_at, list_primary_partitions,
}
use modern.Gpt.Listed.{IsSupply, partitions_on, list_primary_partitions-partitions_on}

-- `p` is the entry of `size` bytes at address `a` of the disk: it begins at the entry's first sector and
-- ends behind its last one, as far as 64 bits can tell, and holds the entry's bytes.
pub record IsPartition (disk : ℕ → ℕ) (a size : ℕ) (p : GptPrimaryPartition) : Type 0 where
  pub begin : p.start_offset ≡ read_field disk (a + 32) 8 * 512 % 2 ^ 64
  pub end : (p.start_offset + p.size) % 2 ^ 64 ≡ (read_field disk (a + 40) 8 + 1) * 512 % 2 ^ 64
  pub length_is : length p.entry ≡ size
  pub bytes : (i : ℕ) → i < size → get_or p.entry i 0 ≡ disk (a + i)

-- `ps` are the entries from `i` on, `n` of them, less those whose type, the first 16 bytes, is 0.
abbrev pub IsListing : (ℕ → ℕ) → ℕ → ℕ → ℕ → ℕ → List GptPrimaryPartition → Type 0
IsListing disk start size i zero ps = ps ≡ []
IsListing disk start size i (suc n) ps =
    ((read_field disk (start + size * i) 16 ≡ 0) × IsListing disk start size (i + 1) n ps)
    ⊎ ((read_field disk (start + size * i) 16 ≢ 0)
        × (p : GptPrimaryPartition) × (rest : List GptPrimaryPartition) × (ps ≡ p ∷ rest)
        × IsPartition disk (start + size * i) size p
        × IsListing disk start size (i + 1) n rest)

length-bytes_from : (mem : Memory) (a n : ℕ) → length (bytes_from mem a n) ≡ n
length-bytes_from mem a zero = refl
length-bytes_from mem a (suc n) = ap suc (length-bytes_from mem (a + 1) n)

get_or-bytes_from :
    (mem : Memory) (a n i : ℕ) → i < n → get_or (bytes_from mem a n) i 0 ≡ mem (a + i)
get_or-bytes_from mem a zero i h = absurd (omega arith)
get_or-bytes_from mem a (suc n) zero h = ap mem {y = a + 0} (omega arith)
get_or-bytes_from mem a (suc n) (suc i) h =
    get_or-bytes_from mem (a + 1) n i (omega arith) ∙ ap mem {y = a + suc i} (omega arith)

-- the end of a partition, on words of 64 bits
end_of :
    (first last : ℕ)
    → first < 2 ^ 64
    → last < 2 ^ 64
    → (first * 512 % 2 ^ 64 + add64 (sub64 last first) 1 * 512 % 2 ^ 64) % 2 ^ 64
      ≡ (last + 1) * 512 % 2 ^ 64
end_of first last lo hi = omega arith

read_field-lt : (mem : Memory) (a n : ℕ) → ((i : ℕ) → mem i < 256) → read_field mem a n < 256 ^ n
unfolding read_field
read_field-lt mem a zero bytes = omega arith
read_field-lt mem a (suc n) bytes = omega (arith, bytes a, read_field-lt mem (a + 1) n bytes)

partition_at-some :
    (disk : ℕ → ℕ) (a size : ℕ)
    → ((i : ℕ) → disk i < 256)
    → read_field disk a 16 ≢ 0
    → (p : GptPrimaryPartition) × (partition_at disk a size ≡ some p) × IsPartition disk a size p
unfolding partition_at
partition_at-some disk a size bytes typed =
    let first = read_field disk (a + 32) 8 in
    let last = read_field disk (a + 40) 8 in
    (
      record {
        start_offset = first * 512 % u64_mod;
        size = add64 (sub64 last first) 1 * 512 % u64_mod;
        entry = bytes_from disk a size;
      },
      rw (==_of_ne typed) refl,
      record {
        begin = refl;
        end =
            end_of first last (read_field-lt disk (a + 32) 8 bytes)
              (read_field-lt disk (a + 40) 8 bytes);
        length_is = length-bytes_from disk a size;
        bytes = get_or-bytes_from disk a size;
      },
    )

partitions_on-IsListing :
    (disk : ℕ → ℕ) (start size i n : ℕ)
    → ((k : ℕ) → disk k < 256)
    → IsListing disk start size i n (partitions_on disk start size i n)
unfolding partitions_on partition_at
partitions_on-IsListing disk start size i zero bytes = refl
partitions_on-IsListing disk start size i (suc n) bytes =
    let a : ℕ = start + size * i in
    let others = partitions_on-IsListing disk start size (i + 1) n bytes in
    elim (ℕ_discrete (read_field disk a 16) 0) [
      | yes blank ↦ inl (blank, rw (==_of_eq blank) others)
      | no typed ↦
          let (p, found, right) = partition_at-some disk a size bytes typed in
          inr (
            typed,
            p,
            partitions_on disk start size (i + 1) n,
            ap (λ q. prepend q (partitions_on disk start size (i + 1) n)) found,
            right,
            others,
          )
    ]

module _ (src : PageSource) (reader : SectorReader) (disk : ℕ → ℕ) (out : ℕ → Type 0)
    (Left : ℕ → src.State → Type 0) (supply : IsSupply src out Left) (right : Reads reader disk)
    (works : Succeeds reader) (bytes : (a : ℕ) → disk a < 256) where
  -- On a disk that answers every read, with a buffer granted for each, and whose second sector begins
  -- with the magic word, `ListPrimaryPartitions` succeeds. For a table of entries of 48 to 200 bytes,
  -- below 4 GiB in all and not at the end of the address space, it lists exactly the entries of the
  -- table that have a type, in the order of the disk, each with the place of its first and its last
  -- sector in bytes and with its own bytes. The table's place, number and size of entries are the words
  -- at 72, 80 and 84 of the second sector.
  pub list_primary_partitions-IsListing :
      (header_buf entry_buf : ℕ) (mem : Memory) (s : src.State)
      → let lba = read_field disk (512 + 72) 8 in
        let count = read_field disk (512 + 80) 4 in
        let size = read_field disk (512 + 84) 4 in
        out header_buf
        → out entry_buf
        → Left (suc count) s
        → memcmp (λ i. disk (512 + i)) (λ i. get_or efi_magic i 0) 8 ≡ 0
        → 48 ≤ size
        → size ≤ 200
        → size * count < u32_mod
        → lba * 512 + u32_mod + 1023 < u64_mod
        → (ps : List GptPrimaryPartition) × (mem' : Memory) × (s' : src.State)
          × (list_primary_partitions src reader header_buf entry_buf mem s ≡ some (ps, mem', s'))
          × IsListing disk (lba * 512) size 0 count ps
  unfolding header_at
  list_primary_partitions-IsListing header_buf entry_buf mem s to_header to_entry left magic lo hi
        low room =
      let (mem', s', runs) =
        list_primary_partitions-partitions_on src reader disk out Left supply right works header_buf
          entry_buf mem s to_header to_entry left magic lo hi low room in
      (
        partitions_on disk (read_field disk (512 + 72) 8 * 512) (read_field disk (512 + 84) 4) 0
            (read_field disk (512 + 80) 4),
        mem',
        s',
        runs,
        partitions_on-IsListing disk _ _ 0 _ bytes,
      )
