-- ===== src/SsQueue/Linear.antt =====
-- include/common/kssq.hpp: the consumer's steps, and whole runs of the two threads.
use modern.Base.{
  ℕ, ◌-◌, ◌<◌, ◌≡◌, arith, refl, List, [], ◌∷◌, ◌++◌, ap, ap₂, ◌∙◌, sym, get_or, set, length-set,
  get_or-set_ne, get_or_default, ℕ_discrete, ==_of_eq, ==_of_ne,
}
use modern.SsQueue.{SsQueue, next_index}
use modern.SsQueue.Ring.{window}
use modern.SsQueue.Threads.{
  Producer, Consumer, Threads, Turn, producer_turn, consumer_turn, deq_step, take_turn, run,
  swapped, holds,
}
use modern.SsQueue.Order.{IsRing, next_lem, rest-take, all-cons}
use modern.SsQueue.Interleaved.{
  waiting, all, rest, ProducerAt, ConsumerAt, pending, IsOrderedBy, IsOrdered, enq_step-IsOrdered,
  ++_assoc,
}

module _ (size : ℕ) where
  abbrev taken : SsQueue → ℕ → SsQueue
  taken q p = record q { rx_queue = set q.rx_queue q.rx_start p }

  taken-IsRing : (q : SsQueue) (p : ℕ) → IsRing size q → IsRing size (taken q p)
  taken-IsRing q p v = record {
    size_is = length-set q.rx_queue q.rx_start p ∙ v.size_is;
    small = v.small;
    start_in = v.start_in;
    end_in = v.end_in;
  }

  producer-taken :
      (pc : Producer) (q : SsQueue) (p : ℕ)
      → IsRing size q
      → 0 < waiting size q
      → ProducerAt size q pc
      → ProducerAt size (taken q p) pc
  unfolding ProducerAt
  producer-taken Producer.outside q p v some_wait at = refl
  producer-taken (Producer.tested y) q p v some_wait at = at
  producer-taken (swapped y) q p v some_wait (room, last) =
      (room, get_or-set_ne q.rx_queue p 0 (ground (arith, some_wait)) ∙ last)

  -- the slot that the consumer empties is the first that waits
  all-taken :
      (q : SsQueue) (p : ℕ)
      → IsRing size q
      → 0 < waiting size q
      → all size q ≡ get_or q.rx_queue q.rx_start p ∷ rest size (taken q p)
  all-taken q p v some_wait =
      all-cons size q v some_wait
      ∙ ap₂ ◌∷◌ (get_or_default q.rx_queue q.rx_start 0 p (omega (arith, v.start_in, v.size_is)))
          (sym (rest-take size q v p some_wait))

  abbrev moved_on : SsQueue → SsQueue
  moved_on q = record q { rx_start = next_index q q.rx_start }

  moved_on-IsRing : (q : SsQueue) → IsRing size q → IsRing size (moved_on q)
  moved_on-IsRing q v = record {
    size_is = v.size_is;
    small = v.small;
    start_in = rw (next_lem size q v q.rx_start v.start_in) (ground (arith, v.start_in));
    end_in = v.end_in;
  }

  one_less :
      (q : SsQueue)
      → IsRing size q
      → 0 < waiting size q
      → waiting size (moved_on q) ≡ waiting size q - 1
  one_less q v some_wait =
      rw (next_lem size q v q.rx_start v.start_in) (ground (arith, v.start_in, v.end_in, some_wait))

  all-moved_on :
      (q : SsQueue) → IsRing size q → 0 < waiting size q → all size (moved_on q) ≡ rest size q
  all-moved_on q v some_wait =
      ap₂ (window q.rx_queue size) (next_lem size q v q.rx_start v.start_in)
        (one_less q v some_wait)

  producer-moved_on :
      (pc : Producer) (q : SsQueue)
      → IsRing size q
      → 0 < waiting size q
      → ProducerAt size q pc
      → ProducerAt size (moved_on q) pc
  unfolding ProducerAt
  producer-moved_on Producer.outside q v some_wait at = refl
  producer-moved_on (Producer.tested y) q v some_wait at = omega (arith, one_less q v some_wait, at)
  producer-moved_on (swapped y) q v some_wait (room, last) =
      (omega (arith, one_less q v some_wait, room), last)

  deq_step-IsOrdered :
      (pc : Producer) (c : Consumer) (q : SsQueue) (sent received : List ℕ) (packet : ℕ)
      → IsOrderedBy size pc c q sent received
      → IsOrdered size (
          deq_step c packet
            (record { queue = q; producer = pc; consumer = c; sent = sent; received = received }))
  unfolding deq_step ConsumerAt pending
  deq_step-IsOrdered pc Consumer.outside q sent received packet o =
      elim (ℕ_discrete q.rx_start q.rx_end) [
        | yes empty ↦ rw (==_of_eq empty) o
        | no some_wait ↦ rw (==_of_ne some_wait) (record {
          ring = o.ring;
          producer_at = o.producer_at;
          consumer_at = ground (arith, o.ring.start_in, o.ring.end_in, some_wait);
          in_order = o.in_order;
        })
      ]
  deq_step-IsOrdered pc (Consumer.tested p) q sent received packet o = record {
    ring = taken-IsRing q p o.ring;
    producer_at = producer-taken pc q p o.ring o.consumer_at o.producer_at;
    consumer_at = o.consumer_at;
    in_order = o.in_order ∙ ap (received ++◌) (all-taken q p o.ring o.consumer_at);
  }
  deq_step-IsOrdered pc (holds x) q sent received packet o = record {
    ring = moved_on-IsRing q o.ring;
    producer_at = producer-moved_on pc q o.ring o.consumer_at o.producer_at;
    consumer_at = refl;
    in_order =
        o.in_order
        ∙ ap (λ ys. received ++ (x ∷ ys)) (sym (all-moved_on q o.ring o.consumer_at))
        ∙ sym (++_assoc received (x ∷ []) (all size (moved_on q)));
  }

  take_turn-IsOrdered : (t : Turn) (s : Threads) → IsOrdered size s → IsOrdered size (take_turn t s)
  unfolding take_turn
  take_turn-IsOrdered (producer_turn p) s o =
      enq_step-IsOrdered size s.producer s.consumer s.queue s.sent s.received p o
  take_turn-IsOrdered (consumer_turn p) s o =
      deq_step-IsOrdered s.producer s.consumer s.queue s.sent s.received p o

  pub run-IsOrdered :
      (turns : List Turn) (s : Threads) → IsOrdered size s → IsOrdered size (run turns s)
  unfolding run
  run-IsOrdered [] s o = o
  run-IsOrdered (t ∷ turns) s o = run-IsOrdered turns (take_turn t s) (take_turn-IsOrdered t s o)
