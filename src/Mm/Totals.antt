-- ===== src/Mm/Totals.antt =====
-- What `calculate_total_pages` of mm/mm.cpp and `dump_pagetable` of boot_page_table.c count, against
-- the page tables that a walk meets.
use modern.Base.{ℕ, ◌<◌, List, [], ◌∷◌}
use modern.Base.Bytes.{u64_mod}
use modern.Mm.Count.{Count}

abbrev IsSmall : Count → Type 0
IsSmall st = st.total_pages < u64_mod

-- A walk over all the levels does to the count what the page tables that it meets do, in turn.
module _ (step : ℕ → Count → Count)
    (step-IsSmall : (c : ℕ) (st : Count) → IsSmall st → IsSmall (step c st)) where
  unfoldable run : List ℕ → Count → Count
  run [] st = st
  run (c ∷ cs) st = run cs (step c st)
