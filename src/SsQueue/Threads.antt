-- ===== src/SsQueue/Threads.antt =====
-- include/common/kssq.hpp: the two threads of an `SSQueue` side by side. Each access to a member that
-- both threads use is a step of its own, and the steps of the two come in any order.
use modern.Base.{ℕ, List, [], ◌∷◌, ◌++◌, ◌==◌, if◌then◌else◌, get_or, set}
use modern.SsQueue.{SsQueue, next_index}

-- Where the producer is in `enq`: not in it, past the test for a full queue, or past the swap and
-- before `rx_end_` moves. `rx_end_`, and so `next`, is the producer's own.
pub data Producer : Type 0 where
  outside : Producer
  tested : ℕ → Producer
  swapped : ℕ → Producer

-- and the consumer in `deq`: after the swap it holds the pointer that comes out
pub data Consumer : Type 0 where
  outside : Consumer
  tested : ℕ → Consumer
  holds : ℕ → Consumer

-- The queue, the two threads, and what went in and came out so far, in order: a pointer is in when
-- `enq` has returned, and out when `deq` has.
pub record Threads : Type 0 where
  pub queue : SsQueue
  pub producer : Producer
  pub consumer : Consumer
  pub sent : List ℕ
  pub received : List ℕ

-- the next step of the producer, which calls `enq` on `packet` when it is not in a call
unfoldable pub enq_step : Producer → ℕ → Threads → Threads
enq_step outside packet s =
    if next_index s.queue s.queue.rx_end == s.queue.rx_start
    then s
    else record s { producer = tested packet }
enq_step (tested p) packet s = record s {
  queue = record s.queue { rx_queue = set s.queue.rx_queue s.queue.rx_end p };
  producer = swapped p;
}
enq_step (swapped p) packet s = record s {
  queue = record s.queue { rx_end = next_index s.queue s.queue.rx_end };
  producer = outside;
  sent = s.sent ++ (p ∷ []);
}

-- and of the consumer
unfoldable pub deq_step : Consumer → ℕ → Threads → Threads
deq_step outside packet s =
    if s.queue.rx_start == s.queue.rx_end then s else record s { consumer = tested packet }
deq_step (tested p) packet s = record s {
  queue = record s.queue { rx_queue = set s.queue.rx_queue s.queue.rx_start p };
  consumer = holds (get_or s.queue.rx_queue s.queue.rx_start p);
}
deq_step (holds x) packet s = record s {
  queue = record s.queue { rx_start = next_index s.queue s.queue.rx_start };
  consumer = outside;
  received = s.received ++ (x ∷ []);
}

-- whose turn it is, with the pointer of the call that it would start
pub data Turn : Type 0 where
  producer_turn : ℕ → Turn
  consumer_turn : ℕ → Turn

unfoldable pub take_turn : Turn → Threads → Threads
take_turn (producer_turn p) s = enq_step s.producer p s
take_turn (consumer_turn p) s = deq_step s.consumer p s

unfoldable pub run : List Turn → Threads → Threads
run [] s = s
run (t ∷ ts) s = run ts (take_turn t s)
