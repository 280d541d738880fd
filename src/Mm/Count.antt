-- ===== src/Mm/Count.antt =====
-- `calculate_total_pages` of mm/mm.cpp and the count of `dump_pagetable` of boot_page_table.c, on
-- tables as words of 64 bits at physical addresses, less what they print.
use modern.Base.{ℕ, zero, suc, ◌+◌, ◌*◌, ◌/◌, Bool, true, false, if◌then◌else◌}
use modern.Base.Bytes.{add64}
use modern.Bits.{bit}

-- one table, and the tables of memory by their addresses
abbrev pub Words : Type 0
Words = ℕ → ℕ

abbrev pub PhyMemory : Type 0
PhyMemory = ℕ → Words

unfoldable pub is_page_present : ℕ → Bool
is_page_present page_table_entry = bit page_table_entry 0

-- `e & 0xfffffffffffff000`
abbrev pub table_of : ℕ → ℕ
table_of e = e / 4096 * 4096

pub record Count : Type 0 where
  pub total_pages : ℕ
  pub pte_printed : Bool

-- the loop over `l`: the first entry present of all is not counted, and ends the loop
unfoldable pub count_pt : Words → ℕ → ℕ → Count → Count
count_pt pt l zero st = st
count_pt pt l (suc n) st =
    let next = count_pt pt (l + 1) n in
    if is_page_present (pt l)
    then if st.pte_printed
      then next (record st { total_pages = add64 st.total_pages 1 })
      else record st { pte_printed = true }
    else next st

-- the same loop of `dump_pagetable`
unfoldable pub dump_pt : Words → ℕ → ℕ → Count → Count
dump_pt pt l zero st = st
dump_pt pt l (suc n) st =
    let next = dump_pt pt (l + 1) n in
    if is_page_present (pt l)
    then next (record st { total_pages = add64 st.total_pages 1 })
    else next st

-- the loops of the upper levels: the body on each entry that is present
unfoldable pub for_present : (ℕ → Count → Count) → Words → ℕ → ℕ → Count → Count
for_present body table i zero st = st
for_present body table i (suc n) st =
    for_present body table (i + 1) n (if is_page_present (table i) then body (table i) st else st)

module _ (pt_loop : Words → ℕ → ℕ → Count → Count) (mem : PhyMemory) where
  -- a page of 2 MiB is not counted
  unfoldable pub count_pde : ℕ → Count → Count
  count_pde e st = if bit e 7 then st else pt_loop (mem (table_of e)) 0 512 st

  unfoldable pub count_pdpe : ℕ → Count → Count
  count_pdpe e st = for_present count_pde (mem (table_of e)) 0 512 st

  unfoldable pub count_pml4e : ℕ → Count → Count
  count_pml4e e st = for_present count_pdpe (mem (table_of e)) 0 512 st

  unfoldable pub count_pages : Words → ℕ
  count_pages pml4t =
      (for_present count_pml4e pml4t 0 512
        (record { total_pages = 0; pte_printed = false })).total_pages

unfoldable pub calculate_total_pages : PhyMemory → Words → ℕ
calculate_total_pages mem pml4t = count_pages count_pt mem pml4t

unfoldable pub dump_pagetable : PhyMemory → Words → ℕ
dump_pagetable mem pml4t = count_pages dump_pt mem pml4t
