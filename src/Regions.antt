-- ===== src/Regions.antt =====
-- The boot memory: `dump_efi_info` of mm/mm.cpp collects the regions, and `page_allocator_init` of
-- mm/page_alloc.cpp picks the range of the buddy allocator.
pub mod Choice
mod Tests
use modern.Base.{
  ℕ, zero, suc, ◌+◌, ◌*◌, ◌/◌, ◌%◌, ◌^◌, Bool, true, false, not, Option, none, some, List, [], ◌∷◌,
  ◌>>=◌, ◌>>◌, guard, ltb, leb, ◌==◌, ◌&&◌, ◌||◌, if◌then◌else◌,
}
use modern.Base.Bytes.{add64, sub64, u64_mod}
use modern.Utils.{log2}
use modern.SmallVec.{SmallVec, emplace_back, push_back, index_mut}
use modern.Buddy.Defs.{Block, Buddy, new_buddy, preallocated}

-- `PageRegion` of include/mm/page_alloc.h
pub record PageRegion : Type 0 where
  pub type : ℕ
  pub phy_start : ℕ
  pub virt_start : ℕ
  pub size : ℕ
  pub attr : ℕ

-- `EFI_MEMORY_DESCRIPTOR`, a structure of the firmware
pub record Descriptor : Type 0 where
  pub type : ℕ
  pub physical_start : ℕ
  pub number_of_pages : ℕ
  pub attribute : ℕ

-- `EfiConventionalMemory` of the firmware's enumeration
abbrev pub efi_conventional_memory : ℕ
efi_conventional_memory = 7

-- `SmallVec<PageRegion, 1024>`
abbrev pub max_regions : ℕ
max_regions = 1024

-- The kernel image is [kernel_start, kernel_start + kernel_size); `none` is the panic on an image
-- that meets free memory, or a region behind the room of the vector.
unfoldable pub dump_region : ℕ → ℕ → Descriptor → SmallVec PageRegion → Option (SmallVec PageRegion)
dump_region kernel_start kernel_size md v =
    let pages = md.number_of_pages in
    let recorded = emplace_back max_regions v (record {
      type = md.type;
      phy_start = md.physical_start;
      virt_start = 0;
      size = pages * 4096 % u64_mod;
      attr = md.attribute;
    }) in
    let r1 = add64 md.physical_start (4096 * pages % u64_mod) in
    let r2 = add64 kernel_start kernel_size in
    if md.type == efi_conventional_memory
    then (do
      v' ← recorded
      guard (leb r2 md.physical_start || leb r1 kernel_start)
      push_back max_regions v' (record {
        type = md.type;
        phy_start = md.physical_start;
        virt_start = 0;
        size = pages;
        attr = md.attribute;
      }))
    else recorded

unfoldable pub dump_efi_info :
    ℕ → ℕ → List Descriptor → SmallVec PageRegion → Option (SmallVec PageRegion)
unfolding dump_region
dump_efi_info kernel_start kernel_size [] v = some v
dump_efi_info kernel_start kernel_size (md ∷ mds) v =
    dump_region kernel_start kernel_size md v >>= dump_efi_info kernel_start kernel_size mds

-- `IDENTITY_MAP_PHY_START` and `IDENTITY_MAP_PHY_END` of include/cpu_defs.h
abbrev pub identity_map_phy_start : ℕ
identity_map_phy_start = 32 * 512 * 4096

abbrev pub identity_map_phy_end : ℕ
identity_map_phy_end = 4 * 512 * 512 * 4096

-- the loop that looks for the largest region: `max_pages` and `max_pages_addr`
unfoldable pub largest_region : SmallVec PageRegion → ℕ → ℕ → ℕ → ℕ → Option (ℕ × ℕ)
largest_region regions i zero max_pages max_pages_addr = some (max_pages, max_pages_addr)
largest_region regions i (suc n) max_pages max_pages_addr = do
  region ← index_mut max_regions regions i
  let n_pages = region.size / 4096
  let better = ltb max_pages n_pages && ltb region.phy_start 0x1_0000_0000
  largest_region regions (i + 1) n (if better then n_pages else max_pages)
      (if better then region.phy_start else max_pages_addr)

-- the two corrections: nothing below the identity map, and at most 1 GiB
unfoldable pub clamp_pages : ℕ × ℕ → ℕ × ℕ
clamp_pages (max_pages, addr) =
    let below = ltb addr identity_map_phy_start in
    let pages : ℕ =
      if below then sub64 max_pages (sub64 identity_map_phy_start addr / 4096) else max_pages in
    (
      if ltb (1024 * 1024 * 1024 / 4096) pages then 1024 * 1024 * 1024 / 4096 else pages,
      if below then identity_map_phy_start else addr,
    )

-- the address and the log2size that `buddy_allocator_init` is given; `none` is a failed assertion, or a
-- read behind the vector's buffer
unfoldable pub page_range : SmallVec PageRegion → Option (ℕ × ℕ)
unfolding largest_region clamp_pages
page_range regions = do
  largest ← largest_region regions 0 regions.len 0 0
  let (pages, addr) = clamp_pages largest
  let log2size = log2 (pages * 4096 % u64_mod)
  guard (leb identity_map_phy_start addr)
  guard (leb (add64 addr (2 ^ log2size)) identity_map_phy_end)
  some (addr, log2size)

-- `page_allocator_init`, up to the test that the allocator is put to.
unfoldable pub page_allocator_init : SmallVec PageRegion → (ℕ → Block) → Option Buddy
unfolding page_range
page_allocator_init regions preallocated_blocks = do
  (addr, log2size) ← page_range regions
  some (new_buddy addr log2size preallocated_blocks preallocated)
