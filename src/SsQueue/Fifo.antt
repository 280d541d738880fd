-- ===== src/SsQueue/Fifo.antt =====
-- A valid `SSQueue` is a FIFO that holds one pointer less than it has slots.
use modern.Base.{
  ℕ, suc, ◌-◌, ◌<◌, ◌≡◌, ◌≢◌, arith, ltb, Bool, true, false, if◌then◌else◌, List, [], ◌∷◌, ◌++◌, ap,
  ap₂, refl, ◌∙◌, sym, length, get_or, set, ==_of_eq, ==_of_ne, ℕ_discrete, length-set,
  get_or-set_self, get_or_default,
}
use modern.SsQueue.{SsQueue, next_index, deq, enq}
use modern.SsQueue.Ring.{
  IsValid, turn, turn-lt, next_index-turn, window, count, contents, length-window, window-snoc,
  window-set_ne,
}

-- The specification: a bounded FIFO of pointers, oldest first.
abbrev pub fifo_enq : ℕ → List ℕ → ℕ → Bool × List ℕ
fifo_enq capacity xs x = if ltb (length xs) capacity then (true, xs ++ (x ∷ [])) else (false, xs)

abbrev pub fifo_deq : List ℕ → ℕ → Bool × ℕ × List ℕ
fifo_deq [] p = (false, p, [])
fifo_deq (x ∷ xs) p = (true, x, xs)

abbrev pub capacity : SsQueue → ℕ
capacity q = length q.rx_queue - 1

module _ {q : SsQueue} (packet : ℕ) (v : IsValid q) where
  pub enq-IsValid : IsValid (enq q packet).2
  unfolding enq
  enq-IsValid =
      ground (arith, next_index-turn q.rx_end v v.end_in, length-set q.rx_queue q.rx_end packet)

  pub deq-IsValid : IsValid (deq q packet).2
  unfolding deq
  deq-IsValid =
      ground
        (arith, next_index-turn q.rx_start v v.start_in, length-set q.rx_queue q.rx_start packet)

module _ {q : SsQueue} (v : IsValid q) where
  window_of_write :
      (packet : ℕ)
      → count q < capacity q
      → window (set q.rx_queue q.rx_end packet) (length q.rx_queue) q.rx_start (suc (count q))
        ≡ contents q ++ (packet ∷ [])
  window_of_write packet r =
      window-snoc (set q.rx_queue q.rx_end packet) (length q.rx_queue) q.rx_start (count q)
        v.start_in (omega arith)
      ∙ ap₂ (λ w x. w ++ (x ∷ []))
          (window-set_ne q.rx_queue (length q.rx_queue) q.rx_start (count q) q.rx_end packet
            v.start_in (omega arith) (λ k l. ground arith))
          (rw at_end (get_or-set_self q.rx_queue q.rx_end packet 0 v.end_in))
    where
      at_end : turn (length q.rx_queue) q.rx_start (count q) ≡ q.rx_end
      at_end = ground arith

  enq_room : next_index q q.rx_end ≢ q.rx_start → count q < capacity q
  enq_room ne = ground (arith, next_index-turn q.rx_end v v.end_in)

  enq_full : next_index q q.rx_end ≡ q.rx_start → count q ≡ capacity q
  enq_full e = ground (arith, next_index-turn q.rx_end v v.end_in)

  contents-enq :
      (packet : ℕ)
      → next_index q q.rx_end ≢ q.rx_start
      → contents
          (record q { rx_queue = set q.rx_queue q.rx_end packet; rx_end = next_index q q.rx_end })
        ≡ contents q ++ (packet ∷ [])
  contents-enq packet ne =
      ap₂ (λ s c. window (set q.rx_queue q.rx_end packet) s q.rx_start c)
        (length-set q.rx_queue q.rx_end packet) waiting
      ∙ window_of_write packet (enq_room ne)
    where
      waiting :
          count
            (record q { rx_queue = set q.rx_queue q.rx_end packet; rx_end = next_index q q.rx_end })
          ≡ suc (count q)
      waiting =
          ground (arith, length-set q.rx_queue q.rx_end packet, next_index-turn q.rx_end v v.end_in)

  -- the answer and the contents alone
  pub enq-contents :
      (packet : ℕ)
      → let (done, p, q') = enq q packet in
        (done, contents q') ≡ fifo_enq (capacity q) (contents q) packet
  unfolding enq
  enq-contents packet = elim (ℕ_discrete (next_index q q.rx_end) q.rx_start) [
    | yes full ↦ rw (==_of_eq full) (
        ground
          (arith, enq_full full, length-window q.rx_queue (length q.rx_queue) q.rx_start (count q)))
    | no room ↦
        rw (==_of_ne room, contents-enq packet room)
          (ground (
            arith,
            enq_room room,
            length-window q.rx_queue (length q.rx_queue) q.rx_start (count q),
          ))
  ]

  -- On a valid queue `enq` is the FIFO's: it takes the pointer unless `length - 1` wait already. Then
  -- the caller keeps its pointer and the queue is as it was; otherwise the caller is given the
  -- pointer that stood in the slot.
  pub enq_refines :
      (packet : ℕ)
      → let (done, p, q') = enq q packet in
        ((done, contents q') ≡ fifo_enq (capacity q) (contents q) packet)
        × (done ≡ false → (p ≡ packet) × (q' ≡ q))
        × (done ≡ true → p ≡ get_or q.rx_queue q.rx_end packet)
  unfolding enq
  enq_refines packet = (
    unfold enq in enq-contents packet,
    elim (ℕ_discrete (next_index q q.rx_end) q.rx_start) [
      | yes full ↦ rw (==_of_eq full) (λ kept. (refl, refl))
      | no room ↦ rw (==_of_ne room) (λ kept. absurd (cc kept))
    ],
    elim (ℕ_discrete (next_index q q.rx_end) q.rx_start) [
      | yes full ↦ rw (==_of_eq full) (λ taken. absurd (cc taken))
      | no room ↦ rw (==_of_ne room) (λ taken. refl)
    ],
  )

  contents-deq :
      (packet : ℕ)
      → q.rx_start ≢ q.rx_end
      → contents q
        ≡ get_or q.rx_queue q.rx_start packet
          ∷ contents (record q {
            rx_queue = set q.rx_queue q.rx_start packet;
            rx_start = next_index q q.rx_start;
          })
  contents-deq packet ne =
      ap (window q.rx_queue (length q.rx_queue) q.rx_start) waiting
      ∙ ap₂ ◌∷◌ (get_or_default q.rx_queue q.rx_start 0 packet v.start_in) (
          sym (
            window-set_ne q.rx_queue (length q.rx_queue) (turn (length q.rx_queue) q.rx_start 1)
              left q.rx_start packet (turn-lt _ _ 1 v.start_in (ground arith)) fewer apart)
          ∙ moved)
    where
      left : ℕ
      left = count (record q {
        rx_queue = set q.rx_queue q.rx_start packet;
        rx_start = next_index q q.rx_start;
      })

      waiting : count q ≡ suc left
      waiting =
          ground (
            arith,
            length-set q.rx_queue q.rx_start packet,
            next_index-turn q.rx_start v v.start_in,
          )

      fewer : left < length q.rx_queue
      fewer = ground (arith, waiting)

      apart :
          (k : ℕ)
          → k < left
          → turn (length q.rx_queue) (turn (length q.rx_queue) q.rx_start 1) k ≢ q.rx_start
      apart k l = ground (arith, waiting)

      moved :
          window
            (set q.rx_queue q.rx_start packet)
            (length q.rx_queue)
            (turn (length q.rx_queue) q.rx_start 1)
            left
          ≡ window
              (set q.rx_queue q.rx_start packet)
              (length (set q.rx_queue q.rx_start packet))
              (next_index q q.rx_start)
              left
      moved =
          ap₂ (λ s h. window (set q.rx_queue q.rx_start packet) s h left)
            (sym (length-set q.rx_queue q.rx_start packet))
            (sym (next_index-turn q.rx_start v v.start_in))

  pub deq_refines :
      (packet : ℕ)
      → let (done, p, q') = deq q packet in (done, p, contents q') ≡ fifo_deq (contents q) packet
  unfolding deq
  deq_refines packet = elim (ℕ_discrete q.rx_start q.rx_end) [
    | yes empty ↦ rw (==_of_eq empty) (ground arith)
    | no some_wait ↦ rw (==_of_ne some_wait, contents-deq packet some_wait)
  ]
