-- ===== src/Buddy/Ring.antt =====
-- The circular lists of mm/page_alloc.cpp as chains of blocks, and what relinking does to them.
pub mod Add
pub mod Remove
use modern.Base.{
  ℕ, zero, suc, ◌≡◌, ◌≢◌, Bool, true, false, Option, none, some, ◌==◌, ==_of_eq, ==_of_ne,
  if◌then◌else◌, refl, sym, ◌∙◌, ap, arith, List, [], ◌∷◌, ◌++◌, ◌||◌,
}
use modern.Buddy.Defs.{Block, update}

abbrev pub has : ℕ → List ℕ → Bool
has i [] = false
has i (x ∷ xs) = (i == x) || has i xs

abbrev pub Distinct : List ℕ → Type 0
Distinct [] = Unit
Distinct (x ∷ xs) = (has x xs ≡ false) × Distinct xs

abbrev pub last_of : ℕ → List ℕ → ℕ
last_of a [] = a
last_of a (x ∷ xs) = last_of x xs

-- from `a` through `xs` to `z`, linked both ways
abbrev pub Chain : (ℕ → Block) → ℕ → List ℕ → ℕ → Type 0
Chain bl a [] z = ((bl a).next ≡ some z) × ((bl z).prev ≡ some a)
Chain bl a (x ∷ xs) z = ((bl a).next ≡ some x) × ((bl x).prev ≡ some a) × Chain bl x xs z

abbrev pub IsRing : (ℕ → Block) → List ℕ → Type 0
IsRing bl [] = Unit
IsRing bl (x ∷ xs) = Chain bl x xs x

pub has-append : (i : ℕ) (xs ys : List ℕ) → has i (xs ++ ys) ≡ (has i xs || has i ys)
has-append i [] ys = refl
has-append i (x ∷ xs) ys = ground (arith, has-append i xs ys)

pub has-last : (a : ℕ) (xs : List ℕ) → has (last_of a xs) (a ∷ xs) ≡ true
has-last a [] = ground arith
has-last a (x ∷ xs) = ground (arith, has-last x xs)

pub ne-last : (a : ℕ) (xs : List ℕ) (i : ℕ) → has i (a ∷ xs) ≡ false → i ≢ last_of a xs
ne-last a xs i h = ground (arith, has-last a xs)

pub prev-last :
    (bl : ℕ → Block) (a : ℕ) (xs : List ℕ) (z : ℕ)
    → Chain bl a xs z
    → (bl z).prev ≡ some (last_of a xs)
prev-last bl a [] z c = c.1
prev-last bl a (x ∷ xs) z c = prev-last bl x xs z c.2

-- A chain taken apart at one of its blocks, and put together.
pub Chain-split :
    (bl : ℕ → Block) (a : ℕ) (xs : List ℕ) (y : ℕ) (ys : List ℕ) (z : ℕ)
    → Chain bl a (xs ++ (y ∷ ys)) z
    → Chain bl a xs y × Chain bl y ys z
Chain-split bl a [] y ys z c = ((c.0, c.1), c.2)
Chain-split bl a (x ∷ xs) y ys z c =
    let (l, r) = Chain-split bl x xs y ys z c.2 in ((c.0, c.1, l), r)

pub Chain-join :
    (bl : ℕ → Block) (a : ℕ) (xs : List ℕ) (y : ℕ) (ys : List ℕ) (z : ℕ)
    → Chain bl a xs y
    → Chain bl y ys z
    → Chain bl a (xs ++ (y ∷ ys)) z
Chain-join bl a [] y ys z l r = (l.0, l.1, r)
Chain-join bl a (x ∷ xs) y ys z l r = (l.0, l.1, Chain-join bl x xs y ys z l.2 r)

-- A chain survives any change of its blocks that leaves the links between them, and leads to `w`
-- if its last block and `w` are linked.
module _ (bl bl' : ℕ → Block) where
  pub Chain-relink :
      (a : ℕ) (xs : List ℕ) (z w : ℕ)
      → Chain bl a xs z
      → Distinct (a ∷ xs)
      → ((i : ℕ) → has i (a ∷ xs) ≡ true → i ≢ last_of a xs → (bl' i).next ≡ (bl i).next)
      → ((i : ℕ) → has i xs ≡ true → (bl' i).prev ≡ (bl i).prev)
      → (bl' (last_of a xs)).next ≡ some w
      → (bl' w).prev ≡ some (last_of a xs)
      → Chain bl' a xs w
  Chain-relink a [] z w c d n p e f = (e, f)
  Chain-relink a (x ∷ xs) z w c d n p e f = (
    n a (ground arith) (ne-last x xs a d.0) ∙ c.0,
    p x (ground arith) ∙ c.1,
    Chain-relink x xs z w c.2 d.1 (λ i m. n i (ground arith)) (λ i m. p i (ground arith)) e f,
  )

  -- A ring survives a change elsewhere.
  pub Chain-frame :
      (a : ℕ) (xs : List ℕ) (z : ℕ)
      → Chain bl a xs z
      → ((i : ℕ) → has i (a ∷ xs) ≡ true → (bl' i).next ≡ (bl i).next)
      → ((i : ℕ) → has i xs ≡ true → (bl' i).prev ≡ (bl i).prev)
      → (bl' z).prev ≡ (bl z).prev
      → Chain bl' a xs z
  Chain-frame a [] z c n p f = (n a (ground arith) ∙ c.0, f ∙ c.1)
  Chain-frame a (x ∷ xs) z c n p f = (
    n a (ground arith) ∙ c.0,
    p x (ground arith) ∙ c.1,
    Chain-frame x xs z c.2 (λ i m. n i (ground arith)) (λ i m. p i (ground arith)) f,
  )

  pub IsRing-frame :
      (xs : List ℕ)
      → IsRing bl xs
      → ((i : ℕ) → has i xs ≡ true → ((bl' i).next ≡ (bl i).next) × ((bl' i).prev ≡ (bl i).prev))
      → IsRing bl' xs
  IsRing-frame [] c same = tt
  IsRing-frame (x ∷ xs) c same =
      Chain-frame x xs x c (λ i m. (same i m).0) (λ i m. (same i (ground arith)).1)
        (same x (ground arith)).1
