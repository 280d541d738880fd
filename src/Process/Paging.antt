-- ===== src/Process/Paging.antt =====
-- `Process::map_user_addr` of process.cpp: what the loop leaves in the page table.
use modern.Base.{
  ℕ, zero, suc, ◌+◌, ◌-◌, ◌/◌, ◌%◌, ◌^◌, ◌≡◌, ◌&&◌, arith, refl, ltb, leb, ◌==◌, Bool, true,
  if◌then◌else◌,
}
use modern.Process.Defs.{PageTableEntry, PageTable, Process}

-- The body of the loop: `base_addr` is a field of 40 bits. The other bits keep their values.
unfoldable pub map_page : PageTable → ℕ → ℕ → PageTable
map_page pt vpage ppage i =
    if i == vpage
    then record { p = true; rw_bit = true; us = true; base_addr = ppage % 2 ^ 40 }
    else pt i

-- The rounds from `i` on, `n` of them left.
unfoldable pub map_pages : ℕ → ℕ → PageTable → ℕ → ℕ → PageTable
map_pages vpage ppage pt i zero = pt
map_pages vpage ppage pt i (suc n) =
    map_pages vpage ppage (map_page pt (vpage + i) (ppage + i)) (i + 1) n

unfoldable pub map_user_addr : Process → ℕ → ℕ → ℕ → Process
map_user_addr proc vaddr paddr n_pages = record proc {
  pt = map_pages (vaddr / 2 ^ 12) (paddr / 2 ^ 12) proc.pt 0 n_pages;
}

-- page `i` is one of the `n` from `first` on
abbrev pub in_run : ℕ → ℕ → ℕ → Bool
in_run first n i = leb first i && ltb i (first + n)

abbrev pub user_entry : ℕ → PageTableEntry
user_entry frame = record { p = true; rw_bit = true; us = true; base_addr = frame % 2 ^ 40 }

map_pages_lem :
    (vpage ppage i n : ℕ) (pt : PageTable) (j : ℕ)
    → map_pages vpage ppage pt i n j
      ≡ (if in_run (vpage + i) n j then user_entry (ppage + (j - vpage)) else pt j)
unfolding map_pages map_page
map_pages_lem vpage ppage i zero pt j = ground arith
map_pages_lem vpage ppage i (suc n) pt j =
    ground (arith, map_pages_lem vpage ppage (i + 1) n (map_page pt (vpage + i) (ppage + i)) j)

-- `map_user_addr` maps the pages from `vaddr` on, `n` of them and no others, to the consecutive
-- frames from `paddr` on, present, writable and open to user code; every other entry of the page
-- table is unchanged.
pub map_user_addr_lem :
    (proc : Process) (vaddr paddr n j : ℕ)
    → (map_user_addr proc vaddr paddr n).pt j ≡ (
        if in_run (vaddr / 2 ^ 12) n j
        then user_entry (paddr / 2 ^ 12 + (j - vaddr / 2 ^ 12))
        else proc.pt j)
unfolding map_user_addr
map_user_addr_lem proc vaddr paddr n j =
    ground (arith, map_pages_lem (vaddr / 2 ^ 12) (paddr / 2 ^ 12) 0 n proc.pt j)

-- The heap's bounds are not touched.
pub brk-map_user_addr :
    (proc : Process) (vaddr paddr n : ℕ)
    → let proc' = map_user_addr proc vaddr paddr n in
      (proc'.brk_start ≡ proc.brk_start) × (proc'.brk_end ≡ proc.brk_end)
unfolding map_user_addr
brk-map_user_addr proc vaddr paddr n = (refl, refl)
