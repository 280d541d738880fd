-- ===== src/Buddy/Ring/Add.antt =====
-- The assignments of `add_to_available_list` put a block at the end of a ring.
use modern.Base.{ℕ, ◌≡◌, false, some, ◌==◌, if◌then◌else◌, ◌∙◌, arith, List, [], ◌∷◌, ◌++◌}
use modern.Buddy.Defs.{Block}
use modern.Buddy.Ops.{set_next, set_prev}
use modern.Buddy.Ring.{has, Distinct, last_of, IsRing, has-last, Chain-join, Chain-relink}

-- the blocks after the assignments, for a list with head `h` and end `l`
abbrev pub link_end : (ℕ → Block) → ℕ → ℕ → ℕ → ℕ → Block
link_end bl h l n =
    set_prev (set_next (set_next (set_prev bl h (some n)) l (some n)) n (some h)) n (some l)

link_end_fields :
    (bl : ℕ → Block) (h l n i : ℕ)
    → ((link_end bl h l n i).next
        ≡ (if i == n then some h else if i == l then some n else (bl i).next))
      × ((link_end bl h l n i).prev
          ≡ (if i == n then some l else if i == h then some n else (bl i).prev))
link_end_fields bl h l n i = ground arith

-- A ring of at least one block and a block outside of it: linked in, the block is its end.
pub link_end-IsRing :
    (bl : ℕ → Block) (h : ℕ) (xs : List ℕ) (n : ℕ)
    → IsRing bl (h ∷ xs)
    → Distinct (h ∷ xs)
    → has n (h ∷ xs) ≡ false
    → IsRing (link_end bl h (last_of h xs) n) (h ∷ xs ++ (n ∷ []))
link_end-IsRing bl h xs n c d out =
    Chain-join bl' h xs n [] h
      (Chain-relink bl bl' h xs h n c d
        (λ i m ne. (link_end_fields bl h l n i).0 ∙ ground (arith, out))
        (λ i m. (link_end_fields bl h l n i).1 ∙ ground (arith, out, d.0))
        ((link_end_fields bl h l n l).0 ∙ ground (arith, out, has-last h xs))
        ((link_end_fields bl h l n n).1 ∙ ground arith))
      (
        (link_end_fields bl h l n n).0 ∙ ground arith,
        (link_end_fields bl h l n h).1 ∙ ground (arith, out),
      )
  where
    l : ℕ
    l = last_of h xs

    bl' : ℕ → Block
    bl' = link_end bl h l n
