-- ===== src/Buddy/Lists/Without.antt =====
-- The available lists without one block of one of them.
use modern.Base.{
  ℕ, ◌≤◌, ◌≡◌, ◌≢◌, true, ==_of_eq, ==_of_ne, sym, subst, ap, ◌∙◌, arith, List, ◌∷◌, ◌++◌,
  ℕ_discrete,
}
use modern.Buddy.Defs.{Buddy, update, block_log2size}
use modern.Buddy.Ring.{has, has-append}
use modern.Buddy.Lists.{IsList, IsFree}
use modern.Buddy.Lists.Remove.{Distinct-drop}

module _ {b : Buddy} {free : ℕ → List ℕ} (v : IsFree b free) (n : ℕ) (pre post : List ℕ)
    (e : free (block_log2size b n) ≡ pre ++ (n ∷ post)) (n_lo : 16 ≤ block_log2size b n)
    (n_hi : block_log2size b n ≤ b.root_log2size) where
  abbrev pub without : ℕ → List ℕ
  without = update free (block_log2size b n) (pre ++ post)

  pub without-has :
      (i l : ℕ)
      → 16 ≤ l
      → l ≤ b.root_log2size
      → has i (without l) ≡ true
      → (has i (free l) ≡ true) × (i ≢ n)
  without-has i l lo hi h = elim (ℕ_discrete l (block_log2size b n)) [
    | yes here ↦
        let there : has i (pre ++ post) ≡ true = (rw (==_of_eq here) at h) in
        let at = subst (IsList b (block_log2size b n)) e (v (block_log2size b n) n_lo n_hi) in
        let out = (Distinct-drop pre n post at.distinct).1 in
        (
          rw (here, e) (ground (arith, has-append i pre post, has-append i pre (n ∷ post))),
          λ same. cc (ap (λ j. has j (pre ++ post)) same, out, there),
        )
    | no away ↦
        let there : has i (free l) ≡ true = (rw (==_of_ne away) at h) in
        (there, λ same. away (sym ((v l lo hi).level i there) ∙ ap (block_log2size b) same))
  ]

  pub has-without : (i l : ℕ) → has i (free l) ≡ true → i ≢ n → has i (without l) ≡ true
  has-without i l h ne = elim (ℕ_discrete l (block_log2size b n)) [
    | yes here ↦
        let there : has i (pre ++ (n ∷ post)) ≡ true =
          ap (has i) (sym e ∙ ap free (sym here)) ∙ h in
        rw (==_of_eq here)
          (ground (arith, has-append i pre post, has-append i pre (n ∷ post), ==_of_ne ne))
    | no away ↦ rw (==_of_ne away) h
  ]
