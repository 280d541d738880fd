-- ===== src/SsQueue/Slots.antt =====
-- The slots of a queue and the pointer outside: what a swap and a write through the pointer do.
use modern.Base.{
  ℕ, zero, suc, ◌≤◌, ◌<◌, ◌≡◌, ◌≢◌, Bool, true, false, List, [], ◌∷◌, ◌++◌, map, ◌==◌, ==_of_ne,
  inl, inr, Bool-cases, ltb, if◌then◌else◌, length, get_or, set, refl, sym, ◌∙◌, ap, ap₂, arith,
}
use modern.SsQueue.{SsQueue, enq, deq, next_index}
use modern.SsQueue.Ring.{IsValid, turn, window, count, contents}
use modern.SsQueue.Fifo.{capacity, fifo_deq, enq-contents, deq_refines}
use modern.Buddy.Defs.{update}
use modern.Buddy.Ring.{has, Distinct}

pub has-set : (xs : List ℕ) (i p y : ℕ) → has y (p ∷ xs) ≡ false → has y (set xs i p) ≡ false
has-set [] i p y h = refl
has-set (x ∷ xs) zero p y h = ground arith
has-set (x ∷ xs) (suc i) p y h = ground (arith, has-set xs i p y)

pub has-get_or : (xs : List ℕ) (i p : ℕ) → has (get_or xs i p) (p ∷ xs) ≡ true
has-get_or [] i p = ground arith
has-get_or (x ∷ xs) zero p = ground arith
has-get_or (x ∷ xs) (suc i) p = ground (arith, has-get_or xs i p)

pub ne_of_has : (x y : ℕ) (xs : List ℕ) → has x xs ≡ true → has y xs ≡ false → x ≢ y
ne_of_has x y xs h k e = let h' : has y xs ≡ true = ap (λ z. has z xs) (sym e) ∙ h in cc (h', k)

-- Swapping a pointer into a slot keeps all pointers distinct.
pub Distinct-swap_in :
    (xs : List ℕ) (i p : ℕ) → Distinct (p ∷ xs) → Distinct (get_or xs i p ∷ set xs i p)
Distinct-swap_in [] i p d = d
Distinct-swap_in (x ∷ xs) zero p d = (ground arith, (ground arith, d.1.1))
Distinct-swap_in (x ∷ xs) (suc i) p d =
    let rest = Distinct-swap_in xs i p (ground arith, d.1.1) in
    let out : has x (p ∷ xs) ≡ false = ground arith in
    let ne : get_or xs i p ≢ x = ne_of_has (get_or xs i p) x (p ∷ xs) (has-get_or xs i p) out in
    (rw (==_of_ne ne) rest.0, (has-set xs i p x out, rest.1))

pub has-slot : (xs : List ℕ) (i : ℕ) → i < length xs → has (get_or xs i 0) xs ≡ true
has-slot [] i h = absurd (omega arith)
has-slot (x ∷ xs) zero h = ground arith
has-slot (x ∷ xs) (suc i) h = ground (arith, has-slot xs i)

-- A write to a packet that is in no slot does not change the packets in a window.
pub map-window {ℓ} :
    {A : Type ℓ} (f : ℕ → A) (slots : List ℕ) (size h n p : ℕ) (v : A)
    → size ≤ length slots
    → h < size
    → has p slots ≡ false
    → map (update f p v) (window slots size h n) ≡ map f (window slots size h n)
map-window f slots size h zero p v fits inside out = refl
map-window f slots size h (suc n) p v fits inside out =
    ap₂ ◌∷◌
      (rw (==_of_ne (ne_of_has (get_or slots h 0) p slots (has-slot slots h (omega arith)) out)))
      (map-window f slots size (turn size h 1) n p v fits (ground arith) out)

-- After the write the packet itself is what the pointer leads to.
pub map-snoc {ℓ} :
    {A : Type ℓ} (f : ℕ → A) (xs : List ℕ) (p : ℕ) (v : A)
    → map (update f p v) (xs ++ (p ∷ [])) ≡ map (update f p v) xs ++ (v ∷ [])
map-snoc f [] p v = ap (λ u. u ∷ []) (ground arith)
map-snoc f (x ∷ xs) p v = ap (λ r. update f p v x ∷ r) (map-snoc f xs p v)

-- A pointer and the slots, and a second pointer that is none of them.
pub record AreApart (slots : List ℕ) (p other : ℕ) : Type 0 where
  pub distinct : Distinct (p ∷ slots)
  pub out : has other (p ∷ slots) ≡ false

pub AreApart-flip : {slots : List ℕ} {p other : ℕ} → AreApart slots p other → AreApart slots other p
AreApart-flip {slots} {p} {other} a = record {
  distinct = (ground (arith, a.out), a.distinct.1);
  out = ground (arith, a.out, a.distinct.0);
}

pub AreApart-swap :
    {slots : List ℕ} {p other : ℕ} (i : ℕ)
    → AreApart slots p other
    → AreApart (set slots i p) (get_or slots i p) other
AreApart-swap {slots} {p} {other} i a = record {
  distinct = Distinct-swap_in slots i p a.distinct;
  out =
      let ne = ne_of_has (get_or slots i p) other (p ∷ slots) (has-get_or slots i p) a.out in
      ground (arith, has-set slots i p other a.out, ne);
}

module _ (q : SsQueue) (p other : ℕ) (a : AreApart q.rx_queue p other) where
  pub enq-AreApart : AreApart (enq q p).2.rx_queue (enq q p).1 other
  unfolding enq
  enq-AreApart = elim (Bool-cases (next_index q q.rx_end == q.rx_start)) [
    | inl full ↦ rw full a
    | inr room ↦ rw room (AreApart-swap q.rx_end a)
  ]

  pub deq-AreApart : AreApart (deq q p).2.rx_queue (deq q p).1 other
  unfolding deq
  deq-AreApart = elim (Bool-cases (q.rx_start == q.rx_end)) [
    | inl empty ↦ rw empty a
    | inr some_wait ↦ rw some_wait (AreApart-swap q.rx_start a)
  ]

-- What the pointers lead to: a write through the caller's pointer, which then goes in.
pub map-enq {ℓ} :
    {A : Type ℓ} (q : SsQueue) (f : ℕ → A) (p : ℕ) (x : A)
    → IsValid q
    → has p q.rx_queue ≡ false
    → let (ok, p', q') = enq q p in
      map (update f p x) (contents q')
      ≡ (if ok then map f (contents q) ++ (x ∷ []) else map f (contents q))
map-enq q f p x v out =
    let e = enq-contents v p in
    let kept =
      map-window f q.rx_queue (length q.rx_queue) q.rx_start (count q) p x (omega arith) v.start_in
        out in
    elim (Bool-cases (ltb (length (contents q)) (capacity q))) [
      | inl room ↦
          let e' = rw room at e in
          rw (ap (λ r. r.0) e', ap (λ r. r.1) e')
            (map-snoc f (contents q) p x ∙ ap (λ xs. xs ++ (x ∷ [])) kept)
      | inr full ↦ let e' = rw full at e in rw (ap (λ r. r.0) e', ap (λ r. r.1) e') kept
    ]

map-fifo_deq {ℓ} :
    {A : Type ℓ} (f : ℕ → A) (xs : List ℕ) (p : ℕ) (r : Bool × ℕ × List ℕ)
    → r ≡ fifo_deq xs p
    → map f xs ≡ (if r.0 then f r.1 ∷ map f r.2 else map f r.2)
map-fifo_deq f [] p r e = rw e refl
map-fifo_deq f (x ∷ xs) p r e = rw e refl

pub map-deq {ℓ} :
    {A : Type ℓ} (q : SsQueue) (f : ℕ → A) (p : ℕ)
    → IsValid q
    → let (ok, p', q') = deq q p in
      map f (contents q) ≡ (if ok then f p' ∷ map f (contents q') else map f (contents q'))
map-deq q f p v =
    map-fifo_deq f (contents q) p ((deq q p).0, (deq q p).1, contents (deq q p).2) (deq_refines v p)
