-- ===== src/Mm/Tests.antt =====
-- The page table of an image at 16 MiB, with the table itself at the 1024th page of the image, and
-- no other page table in memory.
use modern.Base.{ℕ, ◌+◌, ◌*◌, ◌≡◌, some, refl, arith, true, if◌then◌else◌, ◌==◌, inr, ltb}
use modern.Pages.{kernel_start}
use modern.Mm.Image.{zeroed}
use modern.Mm.Segments.{gdt_init, Gdt, Segments}
use modern.Mm.Installed.{gdt_init-IsInstalled, IsInstalled}
use modern.Mm.Boot.{
  setup_kernel_image_page_table, place_boot, setup_page_table_in_kernel_space-boot,
}
use modern.Mm.Count.{
  Words, PhyMemory, calculate_total_pages, count_pages, count_pml4e, count_pdpe, count_pde,
  count_pt, for_present, is_page_present,
}
use modern.Mm.Walk.{place, walk, built, root_of, is_kernel, phy2virt, Frames}
use modern.Mm.Kernel.{setup_page_table_walk, phy2virt-walk}

abbrev empty : Frames
empty = λ f i. zeroed

setup_page_table_walk_example :
    walk (place (built 1024 4096) 5120 empty) (root_of 1024 4096) (kernel_start + 0x20_0123)
    ≡ some 0x120_0123
setup_page_table_walk_example =
    setup_page_table_walk 1024 4096 empty 0x20_0123 (omega arith) (omega arith) (omega arith)

phy2virt-walk_example :
    (vaddr : ℕ) × (phy2virt 0xfee0_0000 ≡ some vaddr)
    × (is_kernel vaddr ≡ true)
    × (walk (place (built 1024 4096) 5120 empty) (root_of 1024 4096) vaddr ≡ some 0xfee0_0000)
phy2virt-walk_example =
    phy2virt-walk 1024 4096 empty 0xfee0_0000 (omega arith) (omega arith) (omega arith)
      (omega arith)

-- the table of a firmware: seven entries, its code segment in entry 7
abbrev firmware_gdt : Gdt
firmware_gdt = λ j. if j == 7 then 0x00af_9a00_0000_ffff else 0

gdt_init-IsInstalled_example :
    (s : Segments) × (gdt_init firmware_gdt 8 0x38 0x30 0xffff_8000_0123_4560 0xffff_8000_0030_0000
      ≡ some s)
    × IsInstalled firmware_gdt 8 0x38 0x30 0xffff_8000_0123_4560 0xffff_8000_0030_0000 s
    × (s.gdt 9 ≡ 0)
gdt_init-IsInstalled_example =
    gdt_init-IsInstalled firmware_gdt 8 0x38 0x30 0xffff_8000_0123_4560 0xffff_8000_0030_0000 9
      (omega arith) (omega arith) (inr (omega arith))

-- Three page tables below one directory: an empty one, one of two pages, one of three. The 2 MiB
-- page behind them has no table.
abbrev paged : PhyMemory
paged = λ table i.
    if table == 0x1000
    then if i == 0 then 0x2003 else 0
    else if table == 0x2000
    then if ltb i 3 then 0x3003 + 0x1000 * i else if i == 3 then 0x20_0083 else 0
    else if table == 0x4000
    then if ltb i 2 then 0x7003 else 0
    else if table == 0x5000
    then if ltb i 3 then 0x7003 else 0
    else 0

abbrev top : Words
top = λ i. if i == 0 then 0x1003 else 0

-- five pages, and three after the first table
calculate_total_pages-three_tables : calculate_total_pages paged top ≡ 3
unfolding calculate_total_pages count_pages count_pml4e count_pdpe count_pde count_pt for_present
    is_page_present
calculate_total_pages-three_tables = refl

-- the boot loader's table at 4 MiB, below a firmware whose own entry is empty
abbrev boot_memory : Frames
boot_memory =
    place_boot (setup_kernel_image_page_table (4096 * 1024) zeroed (4096 * 4096)) 1024 empty

setup_page_table_in_kernel_space-boot_example :
    walk (place (built 1024 4096) 5120 empty) (root_of 1024 4096) (kernel_start + 0x20_0123)
    ≡ walk boot_memory 1024 (kernel_start + 0x20_0123)
setup_page_table_in_kernel_space-boot_example =
    setup_page_table_in_kernel_space-boot 1024 4096 zeroed empty 1024 empty 0x20_0123 (omega arith)
      (omega arith) (omega arith) (omega arith)
