-- ===== src/SsQueue/Concurrent.antt =====
-- include/common/kssq.hpp: the runs of two threads over a new queue.
use modern.Base.{ℕ, ◌<◌, ◌≡◌, arith, refl, List, [], ◌++◌, length}
use modern.Base.Bytes.{u64_mod}
use modern.SsQueue.{from_vec}
use modern.SsQueue.Threads.{Producer, Consumer, Threads, Turn, run}
use modern.SsQueue.Interleaved.{ProducerAt, ConsumerAt, pending, IsOrdered, waiting}
use modern.SsQueue.Linear.{run-IsOrdered}

-- two threads that have not begun, over a new queue
abbrev pub begin : List ℕ → Threads
begin slots = record {
  queue = from_vec slots;
  producer = Producer.outside;
  consumer = Consumer.outside;
  sent = [];
  received = [];
}

begin-IsOrdered :
    (slots : List ℕ)
    → 0 < length slots
    → length slots < u64_mod
    → IsOrdered (length slots) (begin slots)
unfolding from_vec pending ProducerAt ConsumerAt
begin-IsOrdered slots some_slots small = record {
  ring = record { size_is = refl; small = small; start_in = some_slots; end_in = some_slots };
  producer_at = refl;
  consumer_at = refl;
  in_order = refl;
}

-- Whatever the order of the two threads' steps and whatever pointers they bring, what the consumer
-- has received is the beginning of what the producer has sent, in the same order, and the rest is
-- still pending: in the slots from `rx_start_` to `rx_end_`, or in the consumer's hand. Nothing is
-- lost, doubled or reordered, and fewer pointers wait than there are slots.
pub run-pending :
    (slots : List ℕ) (turns : List Turn)
    → 0 < length slots
    → length slots < u64_mod
    → let s = run turns (begin slots) in
      (s.sent ≡ s.received ++ pending (length slots) s.consumer s.queue)
      × (waiting (length slots) s.queue < length slots)
run-pending slots turns some_slots small =
    let o =
      run-IsOrdered (length slots) turns (begin slots) (begin-IsOrdered slots some_slots small) in
    (o.in_order, ground (arith, o.ring.start_in, o.ring.end_in))
