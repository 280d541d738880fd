-- ===== src/Mm/Leaves.antt =====
-- What the two counts of Mm/Count come to: the page tables of 4 KiB pages that a walk over all
-- entries meets, in its order, and how many pages each maps.
use modern.Base.{
  ℕ, zero, suc, ◌+◌, ◌%◌, ◌<◌, ◌≡◌, arith, refl, Bool, true, false, if◌then◌else◌, List, [], ◌∷◌,
  ◌++◌, ◌∙◌, ap, Bool-cases, inl, inr,
}
use modern.Base.Bytes.{add64, u64_mod}
use modern.Bits.{bit}
use modern.Mm.Count.{Words, PhyMemory, Count, is_page_present, table_of, count_pt, dump_pt}

-- how many of the entries from `l` on, `n` of them, are present
unfoldable pub present_count : Words → ℕ → ℕ → ℕ
present_count pt l zero = 0
present_count pt l (suc n) = (if is_page_present (pt l) then 1 else 0) + present_count pt (l + 1) n

-- the counts below the present entries of a table
unfoldable pub below_present : (ℕ → List ℕ) → Words → ℕ → ℕ → List ℕ
below_present counts table i zero = []
below_present counts table i (suc n) =
    (if is_page_present (table i) then counts (table i) else [])
    ++ below_present counts table (i + 1) n

module _ (mem : PhyMemory) where
  unfoldable pub pde_counts : ℕ → List ℕ
  pde_counts e = if bit e 7 then [] else present_count (mem (table_of e)) 0 512 ∷ []

  unfoldable pub pdpe_counts : ℕ → List ℕ
  pdpe_counts e = below_present pde_counts (mem (table_of e)) 0 512

  unfoldable pub pml4e_counts : ℕ → List ℕ
  pml4e_counts e = below_present pdpe_counts (mem (table_of e)) 0 512

  unfoldable pub leaf_counts : Words → List ℕ
  leaf_counts pml4t = below_present pml4e_counts pml4t 0 512

unfoldable pub sum : List ℕ → ℕ
sum [] = 0
sum (c ∷ cs) = c + sum cs

-- the first count that is not 0, or 0
unfoldable pub first_nonzero : List ℕ → ℕ
first_nonzero [] = 0
first_nonzero (zero ∷ cs) = first_nonzero cs
first_nonzero (suc c ∷ cs) = suc c

abbrev pub positive : ℕ → Bool
positive zero = false
positive (suc c) = true

abbrev pub counted : ℕ → Bool → Count
counted total printed = record { total_pages = total; pte_printed = printed }

-- what a whole page table of `c` pages does to the count, in the two programs
unfoldable pub total_step : ℕ → Count → Count
total_step c st =
    if st.pte_printed
    then counted ((st.total_pages + c) % u64_mod) true
    else counted st.total_pages (positive c)

unfoldable pub dump_step : ℕ → Count → Count
dump_step c st = counted ((st.total_pages + c) % u64_mod) st.pte_printed

count_pt-printed :
    (pt : Words) (l n t : ℕ)
    → t < u64_mod
    → count_pt pt l n (counted t true) ≡ counted ((t + present_count pt l n) % u64_mod) true
unfolding count_pt present_count
count_pt-printed pt l zero t small = ap (λ x. counted x true) (omega arith)
count_pt-printed pt l (suc n) t small = elim (Bool-cases (is_page_present (pt l))) [
  | inl here ↦ rw here (
      count_pt-printed pt (l + 1) n (add64 t 1) (omega arith)
      ∙ ap (λ x. counted x true) (omega arith))
  | inr gone ↦
      rw gone (count_pt-printed pt (l + 1) n t small ∙ ap (λ x. counted x true) (omega arith))
]

one_more : (c : ℕ) → suc c ≡ 1 + c
one_more c = omega arith

count_pt-first :
    (pt : Words) (l n t : ℕ)
    → count_pt pt l n (counted t false) ≡ counted t (positive (present_count pt l n))
unfolding count_pt present_count
count_pt-first pt l zero t = refl
count_pt-first pt l (suc n) t = elim (Bool-cases (is_page_present (pt l))) [
  | inl here ↦ rw here (ap (λ c. counted t (positive c)) (one_more (present_count pt (l + 1) n)))
  | inr gone ↦ rw gone (
      count_pt-first pt (l + 1) n t
      ∙ ap (λ c. counted t (positive c)) {y = 0 + present_count pt (l + 1) n} (omega arith))
]

count_pt-parts :
    (pt : Words) (t : ℕ) (b : Bool)
    → t < u64_mod
    → count_pt pt 0 512 (counted t b) ≡ total_step (present_count pt 0 512) (counted t b)
unfolding total_step
count_pt-parts pt t true small = count_pt-printed pt 0 512 t small
count_pt-parts pt t false small = count_pt-first pt 0 512 t

dump_pt-printed :
    (pt : Words) (l n t : ℕ) (b : Bool)
    → t < u64_mod
    → dump_pt pt l n (counted t b) ≡ counted ((t + present_count pt l n) % u64_mod) b
unfolding dump_pt present_count
dump_pt-printed pt l zero t b small = ap (λ x. counted x b) (omega arith)
dump_pt-printed pt l (suc n) t b small = elim (Bool-cases (is_page_present (pt l))) [
  | inl here ↦ rw here (
      dump_pt-printed pt (l + 1) n (add64 t 1) b (omega arith)
      ∙ ap (λ x. counted x b) (omega arith))
  | inr gone ↦
      rw gone (dump_pt-printed pt (l + 1) n t b small ∙ ap (λ x. counted x b) (omega arith))
]

pub count_pt-step :
    (pt : Words) (st : Count)
    → st.total_pages < u64_mod
    → count_pt pt 0 512 st ≡ total_step (present_count pt 0 512) st
count_pt-step pt st small = count_pt-parts pt st.total_pages st.pte_printed small

pub dump_pt-step :
    (pt : Words) (st : Count)
    → st.total_pages < u64_mod
    → dump_pt pt 0 512 st ≡ dump_step (present_count pt 0 512) st
unfolding dump_step
dump_pt-step pt st small = dump_pt-printed pt 0 512 st.total_pages st.pte_printed small
