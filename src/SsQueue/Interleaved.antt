-- ===== src/SsQueue/Interleaved.antt =====
-- include/common/kssq.hpp: whatever the order of the two threads' steps, the queue is first in, first
-- out.
use modern.Base.{
  ℕ, zero, suc, ◌-◌, ◌<◌, ◌≡◌, ◌≢◌, arith, refl, List, [], ◌∷◌, ◌++◌, ap, ◌∙◌, sym, get_or, set,
  length-set, get_or-set_self, ℕ_discrete, ==_of_eq, ==_of_ne,
}
use modern.SsQueue.{SsQueue, next_index}
use modern.SsQueue.Ring.{turn, window}
use modern.SsQueue.Threads.{Producer, Consumer, Threads, enq_step, swapped, holds}
use modern.SsQueue.Order.{
  IsRing, between, next_lem, all-write, rest-write, all-publish, rest-publish,
}

pub ++_assoc : (xs ys zs : List ℕ) → (xs ++ ys) ++ zs ≡ xs ++ (ys ++ zs)
++_assoc [] ys zs = refl
++_assoc (x ∷ xs) ys zs = ap (x ∷◌) (++_assoc xs ys zs)

module _ (size : ℕ) where
  abbrev pub waiting : SsQueue → ℕ
  waiting q = between size q.rx_start q.rx_end

  abbrev pub all : SsQueue → List ℕ
  all q = window q.rx_queue size q.rx_start (waiting q)

  abbrev pub rest : SsQueue → List ℕ
  rest q = window q.rx_queue size (turn size q.rx_start 1) (waiting q - 1)

  -- What a thread in a call has found and done.
  unfoldable pub ProducerAt : SsQueue → Producer → Type 0
  ProducerAt q Producer.outside = zero ≡ zero
  ProducerAt q (Producer.tested p) = suc (waiting q) < size
  ProducerAt q (swapped p) = (suc (waiting q) < size) × (get_or q.rx_queue q.rx_end 0 ≡ p)

  unfoldable pub ConsumerAt : SsQueue → Consumer → Type 0
  ConsumerAt q Consumer.outside = zero ≡ zero
  ConsumerAt q (Consumer.tested p) = 0 < waiting q
  ConsumerAt q (holds x) = 0 < waiting q

  -- the pointers that are in and not out
  unfoldable pub pending : Consumer → SsQueue → List ℕ
  pending Consumer.outside q = all q
  pending (Consumer.tested p) q = all q
  pending (holds x) q = x ∷ rest q

  pub record IsOrderedBy (p : Producer) (c : Consumer) (q : SsQueue) (sent received : List ℕ)
      : Type 0 where
    pub ring : IsRing size q
    pub producer_at : ProducerAt q p
    pub consumer_at : ConsumerAt q c
    pub in_order : sent ≡ received ++ pending c q

  abbrev pub IsOrdered : Threads → Type 0
  IsOrdered s = IsOrderedBy s.producer s.consumer s.queue s.sent s.received

  abbrev written : SsQueue → ℕ → SsQueue
  written q p = record q { rx_queue = set q.rx_queue q.rx_end p }

  written-IsRing : (q : SsQueue) (p : ℕ) → IsRing size q → IsRing size (written q p)
  written-IsRing q p v = record {
    size_is = length-set q.rx_queue q.rx_end p ∙ v.size_is;
    small = v.small;
    start_in = v.start_in;
    end_in = v.end_in;
  }

  pending-written :
      (c : Consumer) (q : SsQueue) (p : ℕ)
      → IsRing size q
      → ConsumerAt q c
      → pending c (written q p) ≡ pending c q
  unfolding pending ConsumerAt
  pending-written Consumer.outside q p v at = all-write size q v p
  pending-written (Consumer.tested x) q p v at = all-write size q v p
  pending-written (holds x) q p v at = ap (x ∷◌) (rest-write size q v p at)

  consumer-written :
      (c : Consumer) (q : SsQueue) (p : ℕ) → ConsumerAt q c → ConsumerAt (written q p) c
  unfolding ConsumerAt
  consumer-written Consumer.outside q p at = at
  consumer-written (Consumer.tested x) q p at = at
  consumer-written (holds x) q p at = at

  producer-written :
      (q : SsQueue) (p : ℕ)
      → IsRing size q
      → suc (waiting q) < size
      → ProducerAt (written q p) (swapped p)
  unfolding ProducerAt
  producer-written q p v room =
      (room, get_or-set_self q.rx_queue q.rx_end p 0 (omega (arith, v.end_in, v.size_is)))

  abbrev published : SsQueue → SsQueue
  published q = record q { rx_end = next_index q q.rx_end }

  published-IsRing : (q : SsQueue) → IsRing size q → IsRing size (published q)
  published-IsRing q v = record {
    size_is = v.size_is;
    small = v.small;
    start_in = v.start_in;
    end_in = rw (next_lem size q v q.rx_end v.end_in) (ground (arith, v.end_in));
  }

  all-published :
      (q : SsQueue) (p : ℕ)
      → IsRing size q
      → ProducerAt q (swapped p)
      → all (published q) ≡ all q ++ (p ∷ [])
  unfolding ProducerAt
  all-published q p v (room, last) =
      rw (next_lem size q v q.rx_end v.end_in)
        (all-publish size q v room ∙ ap (λ x. all q ++ (x ∷ [])) last)

  pending-published :
      (c : Consumer) (q : SsQueue) (p : ℕ)
      → IsRing size q
      → ConsumerAt q c
      → ProducerAt q (swapped p)
      → pending c (published q) ≡ pending c q ++ (p ∷ [])
  unfolding pending ConsumerAt ProducerAt
  pending-published Consumer.outside q p v at w = all-published q p v w
  pending-published (Consumer.tested y) q p v at w = all-published q p v w
  pending-published (holds x) q p v at (room, last) =
      rw (next_lem size q v q.rx_end v.end_in)
        (ap (x ∷◌) (rest-publish size q v room at ∙ ap (λ y. rest q ++ (y ∷ [])) last))

  still_waiting :
      (q : SsQueue)
      → IsRing size q
      → suc (waiting q) < size
      → 0 < waiting q
      → 0 < waiting (published q)
  still_waiting q v room some_wait =
      rw (next_lem size q v q.rx_end v.end_in)
        (ground (arith, v.start_in, v.end_in, room, some_wait))

  consumer-published :
      (c : Consumer) (q : SsQueue)
      → IsRing size q
      → suc (waiting q) < size
      → ConsumerAt q c
      → ConsumerAt (published q) c
  unfolding ConsumerAt
  consumer-published Consumer.outside q v room at = refl
  consumer-published (Consumer.tested y) q v room at = still_waiting q v room at
  consumer-published (holds x) q v room at = still_waiting q v room at

  has_room :
      (q : SsQueue) → IsRing size q → next_index q q.rx_end ≢ q.rx_start → suc (waiting q) < size
  has_room q v ne = ground (arith, next_lem size q v q.rx_end v.end_in, v.start_in, v.end_in, ne)

  pub enq_step-IsOrdered :
      (pc : Producer) (c : Consumer) (q : SsQueue) (sent received : List ℕ) (packet : ℕ)
      → IsOrderedBy pc c q sent received
      → IsOrdered (
          enq_step pc packet
            (record { queue = q; producer = pc; consumer = c; sent = sent; received = received }))
  unfolding enq_step ProducerAt
  enq_step-IsOrdered Producer.outside c q sent received packet o =
      elim (ℕ_discrete (next_index q q.rx_end) q.rx_start) [
        | yes full ↦ rw (==_of_eq full) o
        | no room ↦ rw (==_of_ne room) (record {
          ring = o.ring;
          producer_at = has_room q o.ring room;
          consumer_at = o.consumer_at;
          in_order = o.in_order;
        })
      ]
  enq_step-IsOrdered (Producer.tested p) c q sent received packet o = record {
    ring = written-IsRing q p o.ring;
    producer_at = producer-written q p o.ring o.producer_at;
    consumer_at = consumer-written c q p o.consumer_at;
    in_order = o.in_order ∙ ap (received ++◌) (sym (pending-written c q p o.ring o.consumer_at));
  }
  enq_step-IsOrdered (swapped p) c q sent received packet o = record {
    ring = published-IsRing q o.ring;
    producer_at = refl;
    consumer_at = consumer-published c q o.ring o.producer_at.0 o.consumer_at;
    in_order =
        ap (◌++ (p ∷ [])) o.in_order
        ∙ ++_assoc received (pending c q) (p ∷ [])
        ∙ ap (received ++◌) (sym (pending-published c q p o.ring o.consumer_at o.producer_at));
  }
