-- ===== src/Mm/Image.antt =====
-- mm/mm.cpp: `KernelImagePageTable` and `setup_page_table_in_kernel_space`, and the tests on
-- addresses below it. The address of `t` and the physical start of the kernel's image come from the
-- linker and the boot loader and are parameters.
use modern.Base.{
  ℕ, zero, suc, ◌+◌, ◌*◌, ◌/◌, ◌%◌, ◌^◌, ◌<◌, ◌≡◌, ◌&&◌, arith, ltb, leb, ◌==◌, Bool, true, false,
  if◌then◌else◌, ◌≤◌,
}
use modern.Base.Bytes.{add64, sub64}
use modern.Pages.{kernel_start}

abbrev pub pages_per_table : ℕ
pages_per_table = 512

abbrev pub kernel_space_pages : ℕ
kernel_space_pages = 4 * 512 * 512

abbrev pub kernel_image_pages : ℕ
kernel_image_pages = 32 * 512

-- The bits that the kernel sets or leaves 0 in the entries of all four levels, and the frame.
pub record Entry : Type 0 where
  pub p : Bool
  pub rw_bit : Bool
  pub us : Bool
  pub pcd : Bool
  pub base_addr : ℕ

abbrev pub Table : Type 0
Table = ℕ → Entry

-- an entry of zero bits
abbrev pub zeroed : Entry
zeroed = record { p = false; rw_bit = false; us = false; pcd = false; base_addr = 0 }

-- `pml4t` and `pdpt` have 512 entries each, `pdt` has 2048, `pt` has 2048 * 512.
pub record KernelImagePageTable : Type 0 where
  pub pml4t : Table
  pub pdpt : Table
  pub pdt : Table
  pub pt : Table

-- `e.p = 1; e.rw = 1; e.base_addr = frame`, the last a field of 40 bits
unfoldable pub set_frame : ℕ → Entry → Entry
set_frame frame e = record e { p = true; rw_bit = true; base_addr = frame % 2 ^ 40 }

-- `for (i = first; i < first + n; i++) body(i, table[i])`
unfoldable pub for_entries : (ℕ → Entry → Entry) → ℕ → ℕ → Table → Table
for_entries body i zero tbl = tbl
for_entries body i (suc n) tbl =
    for_entries body (i + 1) n (λ j. if j == i then body i (tbl i) else tbl j)

for_entries_lem :
    (body : ℕ → Entry → Entry) (i n : ℕ) (tbl : Table) (j : ℕ)
    → for_entries body i n tbl j ≡ (if leb i j && ltb j (i + n) then body j (tbl j) else tbl j)
unfolding for_entries
for_entries_lem body i zero tbl j = ground arith
for_entries_lem body i (suc n) tbl j =
    ground (arith, for_entries_lem body (i + 1) n (λ k. if k == i then body i (tbl i) else tbl k) j)

pub for_entries-in :
    (body : ℕ → Entry → Entry) (n : ℕ) (tbl : Table) (j : ℕ)
    → j < n
    → for_entries body 0 n tbl j ≡ body j (tbl j)
for_entries-in body n tbl j below = ground (arith, for_entries_lem body 0 n tbl j)

pub for_entries-out :
    (body : ℕ → Entry → Entry) (n : ℕ) (tbl : Table) (j : ℕ)
    → n ≤ j
    → for_entries body 0 n tbl j ≡ tbl j
for_entries-out body n tbl j above = ground (arith, for_entries_lem body 0 n tbl j)

-- where the tables stand in `t`, in bytes
abbrev pub pdpt_bytes : ℕ
pdpt_bytes = 4096

abbrev pub pdt_bytes : ℕ
pdt_bytes = 2 * 4096

abbrev pub pt_bytes : ℕ
pt_bytes = 6 * 4096

-- `((u64)p - KERNEL_START + kernel_start_phy) >> 12`
abbrev pub phy_frame : ℕ → ℕ → ℕ
phy_frame kernel_start_phy vaddr = add64 (sub64 vaddr kernel_start) kernel_start_phy / 2 ^ 12

-- `t.pt[i].pcd = 1` after `set_frame`
unfoldable pub identity_entry : ℕ → Entry → Entry
identity_entry i e = record (set_frame i e) { pcd = true }

-- the kernel's image, after the identity mapping: `pcd` keeps the value it has
unfoldable pub image_entry : ℕ → ℕ → Entry → Entry
image_entry kernel_start_phy i e = set_frame (kernel_start_phy / 2 ^ 12 + i) e

-- The image before the first line: all its bytes are 0.
abbrev pub zeroed_image : KernelImagePageTable
zeroed_image = record {
  pml4t = λ _. zeroed;
  pdpt = λ _. zeroed;
  pdt = λ _. zeroed;
  pt = λ _. zeroed;
}

module _ (t_addr kernel_start_phy : ℕ) where
  -- `&t.pdt[i * PAGES_PER_TABLE]` for the entries of `pdpt`, `&t.pt[i * PAGES_PER_TABLE]` for those
  -- of `pdt`, of 8 bytes each
  unfoldable pub pdpt_body : ℕ → Entry → Entry
  pdpt_body i e =
      set_frame (phy_frame kernel_start_phy (t_addr + (pdt_bytes + 8 * (i * pages_per_table)))) e

  unfoldable pub pdt_body : ℕ → Entry → Entry
  pdt_body i e =
      set_frame (phy_frame kernel_start_phy (t_addr + (pt_bytes + 8 * (i * pages_per_table)))) e

  -- the whole page table, every loop of it
  unfoldable pub setup_page_table_in_kernel_space : KernelImagePageTable
  setup_page_table_in_kernel_space = record {
    pml4t = λ j.
        if j == 256
        then set_frame (phy_frame kernel_start_phy (t_addr + pdpt_bytes)) (zeroed_image.pml4t j)
        else zeroed_image.pml4t j;
    pdpt = for_entries pdpt_body 0 pages_per_table zeroed_image.pdpt;
    pdt = for_entries pdt_body 0 (kernel_space_pages / pages_per_table) zeroed_image.pdt;
    pt =
        for_entries (image_entry kernel_start_phy) 0 kernel_image_pages
          (for_entries identity_entry 0 kernel_space_pages zeroed_image.pt);
  }

  -- the value that goes to cr3
  unfoldable pub new_cr3 : ℕ
  new_cr3 = add64 (sub64 t_addr kernel_start) kernel_start_phy
