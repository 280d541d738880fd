-- ===== src/SsQueue/Pool.antt =====
-- No pointer is lost or doubled: what the slots and the caller hold together stays the same.
use mathlib.Core.List.{Perm}
use mathlib.Core.List.Perm
use modern.Base.{ℕ, zero, suc, List, [], ◌∷◌, get_or, set, ◌==◌, Bool-cases, inl, inr}
use modern.SsQueue.{SsQueue, deq, enq, next_index}

swap-perm : (xs : List ℕ) (i p : ℕ) → Perm (get_or xs i p ∷ set xs i p) (p ∷ xs)
swap-perm [] i p = Perm.refl (p ∷ [])
swap-perm (x ∷ xs) zero p = Perm.swap p x xs
swap-perm (x ∷ xs) (suc i) p =
    Perm.trans (Perm.swap x (get_or xs i p) (set xs i p))
      (Perm.trans (Perm.cons x (swap-perm xs i p)) (Perm.swap p x xs))

-- Whatever `enq` returns, the caller's pointer and the slots hold the same pointers as before.
pub enq-perm :
    (q : SsQueue) (packet : ℕ)
    → let (done, p, q') = enq q packet in Perm (p ∷ q'.rx_queue) (packet ∷ q.rx_queue)
unfolding enq
enq-perm q packet = elim (Bool-cases (next_index q q.rx_end == q.rx_start)) [
  | inl full ↦ rw full (Perm.refl (packet ∷ q.rx_queue))
  | inr room ↦ rw room (swap-perm q.rx_queue q.rx_end packet)
]

-- Whatever `deq` returns, the caller's pointer and the slots hold the same pointers as before.
pub deq-perm :
    (q : SsQueue) (packet : ℕ)
    → let (done, p, q') = deq q packet in Perm (p ∷ q'.rx_queue) (packet ∷ q.rx_queue)
unfolding deq
deq-perm q packet = elim (Bool-cases (q.rx_start == q.rx_end)) [
  | inl empty ↦ rw empty (Perm.refl (packet ∷ q.rx_queue))
  | inr some_wait ↦ rw some_wait (swap-perm q.rx_queue q.rx_start packet)
]
