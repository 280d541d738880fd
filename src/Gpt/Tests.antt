-- ===== src/Gpt/Tests.antt =====
-- A disk with a table of two entries, of which one has a type.
use modern.Gpt.Listing.{IsListing, list_primary_partitions-IsListing}
use modern.Ahci.Samples.{copying, copying-Reads, copying-Succeeds}
use modern.Memory.{Memory, memcmp}
use modern.Base.{
  ℕ, ◌+◌, ◌-◌, ◌<◌, ◌≡◌, inl, some, [], ◌∷◌, ltb, ◌==◌, if◌then◌else◌, get_or, refl, arith, List,
  get_or-lt,
}
use modern.Pages.{PageSource, kmalloc, kernel_page_alloc, kernel_start}
use modern.Loader.{read_field}
use modern.Gpt.{efi_magic, partition_at, GptPrimaryPartition, list_primary_partitions}
use modern.Gpt.Listed.{IsSupply, partitions_on}

-- the table at sector 2, two entries of 128 bytes; the first is of sectors 40 to 49
abbrev disk : ℕ → ℕ
disk a =
    if ltb (a - 512) 8
    then get_or efi_magic (a - 512) 0
    else if a == 584
    then 2
    else if a == 592
    then 2
    else if a == 596
    then 128
    else if a == 1024
    then 1
    else if a == 1056
    then 40
    else if a == 1064
    then 49
    else 0

-- the one partition, in bytes
partitions_on-disk :
    partitions_on disk 1024 48 0 2
    ≡ record {
      start_offset = 20480;
      size = 5120;
      entry =
          1 ∷ 0 ∷ 0 ∷ 0 ∷ 0 ∷ 0 ∷ 0 ∷ 0 ∷ 0 ∷ 0 ∷ 0 ∷ 0 ∷ 0 ∷ 0 ∷ 0 ∷ 0 ∷ 0 ∷ 0 ∷ 0 ∷ 0 ∷ 0 ∷ 0 ∷ 0
          ∷ 0 ∷ 0 ∷ 0 ∷ 0 ∷ 0 ∷ 0 ∷ 0 ∷ 0 ∷ 0 ∷ 40 ∷ 0 ∷ 0 ∷ 0 ∷ 0 ∷ 0 ∷ 0 ∷ 0 ∷ 49 ∷ 0 ∷ 0 ∷ 0 ∷ 0
          ∷ 0 ∷ 0 ∷ 0 ∷ [];
    }
      ∷ []
unfolding partitions_on partition_at read_field
partitions_on-disk = refl

-- pages without end, all at one place
abbrev pool : PageSource
pool = record {
  State = ℕ;
  allocate_pages = λ i s. some (0x500_0000, s + 1);
  free_pages = λ addr s. some s;
}

pool-kmalloc : (size s : ℕ) → kmalloc pool size s ≡ some (kernel_start + 0x500_0000, s + 1)
unfolding kmalloc kernel_page_alloc
pool-kmalloc size s = refl

abbrev LowMemory : ℕ → Type 0
LowMemory a = a < 0x10_0000

pool-IsSupply : IsSupply pool LowMemory (λ n s. Unit {0})
pool-IsSupply = record {
  give = λ n size s few left. (
    kernel_start + 0x500_0000,
    s + 1,
    pool-kmalloc size s,
    tt,
    omega arith,
    λ a low. inl (omega arith),
  );
}

disk_bytes : (a : ℕ) → disk a < 256
disk_bytes a =
    let magic = get_or-lt efi_magic (a - 512) (
      omega arith,
      (
        omega arith,
        (
          omega arith,
          (omega arith, (omega arith, (omega arith, (omega arith, (omega arith, tt))))),
        ),
      ),
    ) in
    ground (arith, magic)

list_primary_partitions-IsListing_example :
    (ps : List GptPrimaryPartition) × (mem' : Memory) × (s' : ℕ) × (list_primary_partitions pool
        (copying disk)
        0x1000
        0x2000
        (λ a. 0)
        7
      ≡ some (ps, mem', s'))
    × IsListing disk 1024 128 0 2 ps
unfolding read_field memcmp
list_primary_partitions-IsListing_example =
    list_primary_partitions-IsListing pool (copying disk) disk LowMemory (λ n s. Unit {0})
      pool-IsSupply (copying-Reads disk) (copying-Succeeds disk) disk_bytes 0x1000 0x2000 (λ a. 0) 7
      (omega arith) (omega arith) tt refl (omega arith) (omega arith) (omega arith) (omega arith)
