-- ===== src/SsQueue/Ring.antt =====
-- The slots of an `SSQueue` as a ring: its invariant, and the pointers that wait in it.
use native.Mathlib.Nat.{mod-eq_of_lt, mod_self}
use modern.Base.{
  ℕ, zero, suc, ◌+◌, ◌-◌, ◌%◌, ◌<◌, ◌≡◌, ◌≢◌, inl, inr, arith, refl, ltb, leb, Bool-cases,
  if◌then◌else◌, List, [], ◌∷◌, ◌++◌, ap, ap₂, ◌∙◌, sym, length, get_or, set, get_or-set_ne,
}
use modern.Base.Bytes.{u64_mod}
use modern.SsQueue.{SsQueue, next_index}

pub record IsValid (q : SsQueue) : Type 0 where
  pub start_in : q.rx_start < length q.rx_queue
  pub end_in : q.rx_end < length q.rx_queue
  pub small : length q.rx_queue < u64_mod

-- `i` steps on round a ring of `size` slots
abbrev pub turn : ℕ → ℕ → ℕ → ℕ
turn size h n = if ltb (h + n) size then h + n else h + n - size

turn_lem : (i size : ℕ) → i < size → size < u64_mod → (i + 1) % u64_mod % size ≡ turn size i 1
turn_lem i size h s = elim (Bool-cases (ltb (i + 1) size)) [
  | inl inside ↦ ground (arith, mod-eq_of_lt {n = i + 1} {m = size})
  | inr last ↦
      let e : i + 1 ≡ size = ground arith in
      let w : (i + 1) % u64_mod ≡ size = omega arith in rw (last, w, mod_self) (omega arith)
]

pub next_index-turn :
    {q : SsQueue} (i : ℕ)
    → IsValid q
    → i < length q.rx_queue
    → next_index q i ≡ turn (length q.rx_queue) i 1
unfolding next_index
next_index-turn {q} i v h = turn_lem i (length q.rx_queue) h v.small

pub turn-turn :
    (size h n : ℕ) → h < size → suc n < size → turn size (turn size h 1) n ≡ turn size h (suc n)
turn-turn size h n p r = ground arith

pub turn-lt : (size h n : ℕ) → h < size → n < size → turn size h n < size
turn-lt size h n p r = ground arith

-- the `n` pointers from slot `h` on, of `size` slots
module _ (slots : List ℕ) (size : ℕ) where
  abbrev pub window : ℕ → ℕ → List ℕ
  window h zero = []
  window h (suc n) = get_or slots h 0 ∷ window (turn size h 1) n

  pub length-window : (h n : ℕ) → length (window h n) ≡ n
  length-window h zero = refl
  length-window h (suc n) = ap suc (length-window (turn size h 1) n)

  -- the last of a window apart
  pub window-snoc :
      (h n : ℕ)
      → h < size
      → n < size
      → window h (suc n) ≡ window h n ++ (get_or slots (turn size h n) 0 ∷ [])
  window-snoc h zero p r = ground arith
  window-snoc h (suc n) p r =
      ap (λ w. get_or slots h 0 ∷ w)
        (window-snoc (turn size h 1) n (turn-lt size h 1 p (omega arith)) (omega arith)
          ∙ ap (λ i. window (turn size h 1) n ++ (get_or slots i 0 ∷ [])) (turn-turn size h n p r))

-- A write outside of a window does not change it.
pub window-set_ne :
    (slots : List ℕ) (size h n i x : ℕ)
    → h < size
    → n < size
    → ((k : ℕ) → k < n → turn size h k ≢ i)
    → window (set slots i x) size h n ≡ window slots size h n
window-set_ne slots size h zero i x p r out = refl
window-set_ne slots size h (suc n) i x p r out =
    ap₂ ◌∷◌ (get_or-set_ne slots x 0 (λ e. out 0 (omega arith) (ground (arith, e)))) (
      window-set_ne slots size (turn size h 1) n i x (turn-lt size h 1 p (omega arith))
        (omega arith)
        (λ k l e. out (suc k) (omega arith) (sym (turn-turn size h k p (omega arith)) ∙ e)))

-- how many wait: from `rx_start` round to `rx_end`
abbrev pub count : SsQueue → ℕ
count q =
    if leb q.rx_start q.rx_end
    then q.rx_end - q.rx_start
    else q.rx_end + length q.rx_queue - q.rx_start

abbrev pub contents : SsQueue → List ℕ
contents q = window q.rx_queue (length q.rx_queue) q.rx_start (count q)
