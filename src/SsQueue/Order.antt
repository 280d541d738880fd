-- ===== src/SsQueue/Order.antt =====
-- include/common/kssq.hpp: what comes out of an `SSQueue` that two threads use at once.
use modern.Base.{
  ℕ, suc, ◌+◌, ◌-◌, ◌<◌, ◌≡◌, ◌≢◌, arith, leb, if◌then◌else◌, [], ◌∷◌, ◌++◌, ap, ◌∙◌, length,
  get_or, set,
}
use modern.Base.Bytes.{u64_mod}
use modern.SsQueue.{SsQueue, next_index}
use modern.SsQueue.Ring.{turn, next_index-turn, window, window-snoc, window-set_ne}

-- how many wait between two places of a ring
abbrev pub between : ℕ → ℕ → ℕ → ℕ
between size h e = if leb h e then e - h else e + size - h

-- A ring of `size` slots.
pub record IsRing (size : ℕ) (q : SsQueue) : Type 0 where
  pub size_is : length q.rx_queue ≡ size
  pub small : size < u64_mod
  pub start_in : q.rx_start < size
  pub end_in : q.rx_end < size

module _ (size : ℕ) (q : SsQueue) (v : IsRing size q) where
  abbrev n : ℕ
  n = between size q.rx_start q.rx_end

  pub next_lem : (i : ℕ) → i < size → next_index q i ≡ turn size i 1
  next_lem i below =
      next_index-turn {q = q} i
        (record {
          start_in = omega (arith, v.start_in, v.size_is);
          end_in = omega (arith, v.end_in, v.size_is);
          small = omega (arith, v.small, v.size_is);
        })
        (omega (arith, v.size_is))
      ∙ ap (λ m. turn m i 1) v.size_is

  -- The producer's write changes no slot that waits.
  window-write :
      (h m p : ℕ)
      → h < size
      → m < size
      → ((k : ℕ) → k < m → turn size h k ≢ q.rx_end)
      → window (set q.rx_queue q.rx_end p) size h m ≡ window q.rx_queue size h m
  window-write h m p below few out = window-set_ne q.rx_queue size h m q.rx_end p below few out

  pub all-write :
      (p : ℕ)
      → window (set q.rx_queue q.rx_end p) size q.rx_start n ≡ window q.rx_queue size q.rx_start n
  all-write p =
      window-write q.rx_start n p v.start_in (ground (arith, v.start_in, v.end_in))
        (λ k l. ground (arith, v.start_in, v.end_in))

  pub rest-write :
      (p : ℕ)
      → 0 < n
      → window (set q.rx_queue q.rx_end p) size (turn size q.rx_start 1) (n - 1)
        ≡ window q.rx_queue size (turn size q.rx_start 1) (n - 1)
  rest-write p some_wait =
      window-write (turn size q.rx_start 1) (n - 1) p (ground (arith, v.start_in, v.end_in))
        (ground (arith, v.start_in, v.end_in))
        (λ k l. ground (arith, v.start_in, v.end_in, some_wait))

  -- nor does the consumer's, behind the slot that it takes
  pub rest-take :
      (p : ℕ)
      → 0 < n
      → window (set q.rx_queue q.rx_start p) size (turn size q.rx_start 1) (n - 1)
        ≡ window q.rx_queue size (turn size q.rx_start 1) (n - 1)
  rest-take p some_wait =
      window-set_ne q.rx_queue size (turn size q.rx_start 1) (n - 1) q.rx_start p
        (ground (arith, v.start_in, v.end_in)) (ground (arith, v.start_in, v.end_in))
        (λ k l. ground (arith, v.start_in, v.end_in, some_wait))

  pub all-cons :
      0 < n
      → window q.rx_queue size q.rx_start n
        ≡ get_or q.rx_queue q.rx_start 0 ∷ window q.rx_queue size (turn size q.rx_start 1) (n - 1)
  all-cons some_wait =
      ap (window q.rx_queue size q.rx_start) {y = suc (n - 1)} (omega (arith, some_wait))

  -- When `rx_end_` moves, the slot that was written is the last that waits.
  pub all-publish :
      suc n < size
      → window q.rx_queue size q.rx_start (between size q.rx_start (turn size q.rx_end 1))
        ≡ window q.rx_queue size q.rx_start n ++ (get_or q.rx_queue q.rx_end 0 ∷ [])
  all-publish room =
      ap (window q.rx_queue size q.rx_start) {y = suc n}
        (ground (arith, v.start_in, v.end_in, room))
      ∙ window-snoc q.rx_queue size q.rx_start n v.start_in (omega (arith, room))
      ∙ ap (λ i. window q.rx_queue size q.rx_start n ++ (get_or q.rx_queue i 0 ∷ []))
          (ground (arith, v.start_in, v.end_in, room))

  pub rest-publish :
      suc n < size
      → 0 < n
      → window q.rx_queue size
          (turn size q.rx_start 1)
          (between size q.rx_start (turn size q.rx_end 1) - 1)
        ≡ window q.rx_queue size (turn size q.rx_start 1) (n - 1)
          ++ (get_or q.rx_queue q.rx_end 0 ∷ [])
  rest-publish room some_wait =
      ap (window q.rx_queue size (turn size q.rx_start 1)) {y = suc (n - 1)}
        (ground (arith, v.start_in, v.end_in, room))
      ∙ window-snoc q.rx_queue size (turn size q.rx_start 1) (n - 1) (ground (arith, v.start_in))
          (omega (arith, room))
      ∙ ap
          (λ i.
            window q.rx_queue size (turn size q.rx_start 1) (n - 1) ++ (get_or q.rx_queue i 0 ∷ []))
          (ground (arith, v.start_in, v.end_in, room, some_wait))
