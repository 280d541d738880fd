-- ===== src/Buddy/Ring/Remove.antt =====
-- The assignments of `remove_from_available_list` take a block out of a ring.
use mathlib.Core.List.{append-nil}
use modern.Base.{ℕ, ◌≡◌, false, some, ◌==◌, if◌then◌else◌, ◌∙◌, arith, List, [], ◌∷◌, ◌++◌}
use modern.Buddy.Defs.{Block}
use modern.Buddy.Ops.{unlink}
use modern.Buddy.Ring.{
  has, has-append, Distinct, last_of, IsRing, prev-last, Chain-join, Chain-split, Chain-relink,
}

Distinct-insert :
    (x : ℕ) (ys xs : List ℕ)
    → Distinct (ys ++ xs)
    → has x (ys ++ xs) ≡ false
    → Distinct (ys ++ (x ∷ xs))
Distinct-insert x [] xs d h = (h, d)
Distinct-insert x (y ∷ ys) xs d h = (
  ground (arith, has-append y ys xs, has-append y ys (x ∷ xs), d.0),
  Distinct-insert x ys xs d.1 (ground arith),
)

pub Distinct-swap : (xs ys : List ℕ) → Distinct (xs ++ ys) → Distinct (ys ++ xs)
Distinct-swap [] ys d = rw (append-nil ys) d
Distinct-swap (x ∷ xs) ys d =
    Distinct-insert x ys xs (Distinct-swap xs ys d.1)
      (ground (arith, has-append x xs ys, has-append x ys xs, d.0))

unlink_fields :
    (bl : ℕ → Block) (p r i : ℕ)
    → ((unlink bl (some p) (some r) i).next ≡ (if i == p then some r else (bl i).next))
      × ((unlink bl (some p) (some r) i).prev ≡ (if i == r then some p else (bl i).prev))
unfolding unlink
unlink_fields bl p r i = ground arith

-- The head of a ring is taken out; the rest is a ring.
unlink_head :
    (bl : ℕ → Block) (y r : ℕ) (rs : List ℕ)
    → IsRing bl (y ∷ r ∷ rs)
    → Distinct (y ∷ r ∷ rs)
    → IsRing (unlink bl (bl y).prev (bl y).next) (r ∷ rs)
unlink_head bl y r rs c d =
    let at_prev = prev-last bl r rs y c.2 in
    rw (at_prev, c.0)
      (Chain-relink bl (unlink bl (some p) (some r)) r rs y r c.2 d.1
        (λ i m ne. (unlink_fields bl p r i).0 ∙ ground arith)
        (λ i m. (unlink_fields bl p r i).1 ∙ ground (arith, d.1))
        ((unlink_fields bl p r p).0 ∙ ground arith) ((unlink_fields bl p r r).1 ∙ ground arith))
  where
    p : ℕ
    p = last_of r rs

rotate :
    (bl : ℕ → Block) (x : ℕ) (xs : List ℕ) (y : ℕ) (ys : List ℕ)
    → IsRing bl (x ∷ xs ++ (y ∷ ys))
    → IsRing bl (y ∷ ys ++ (x ∷ xs))
rotate bl x xs y ys c = let (l, r) = Chain-split bl x xs y ys x c in Chain-join bl y ys x xs y r l

-- A block of a ring, wherever it stands, is taken out; the others keep their order.
pub unlink-IsRing :
    (bl : ℕ → Block) (pre : List ℕ) (y : ℕ) (post : List ℕ)
    → IsRing bl (pre ++ (y ∷ post))
    → Distinct (pre ++ (y ∷ post))
    → IsRing (unlink bl (bl y).prev (bl y).next) (pre ++ post)
unlink-IsRing bl [] y [] c d = tt
unlink-IsRing bl [] y (r ∷ rs) c d = unlink_head bl y r rs c d
unlink-IsRing bl (x ∷ xs) y [] c d =
    rw (append-nil xs)
      (unlink_head bl y x xs (rotate bl x xs y [] c) (Distinct-swap (x ∷ xs) (y ∷ []) d))
unlink-IsRing bl (x ∷ xs) y (r ∷ ys) c d = rotate (unlink bl (bl y).prev (bl y).next) r ys x xs (
    unlink_head bl y r (ys ++ (x ∷ xs)) (rotate bl x xs y (r ∷ ys) c)
      (Distinct-swap (x ∷ xs) (y ∷ r ∷ ys) d))
