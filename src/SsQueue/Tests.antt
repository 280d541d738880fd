-- ===== src/SsQueue/Tests.antt =====
-- Runs of the queue, and its theorems at a ring of three slots.
use modern.Base.{List, false, ◌≡◌, ◌<◌, ◌++◌, refl, true, [], ◌∷◌, arith}
use modern.SsQueue.{SsQueue, from_vec, enq, next_index}
use modern.SsQueue.Ring.{IsValid, contents}
use modern.SsQueue.Threads.{Turn, producer_turn, consumer_turn, enq_step, deq_step, take_turn, run}
use modern.SsQueue.Interleaved.{pending, waiting}
use modern.SsQueue.Concurrent.{begin, run-pending}
use modern.SsQueue.Fifo.{fifo_enq, enq_refines}

-- 12 waits in the last slot; the next goes to the first
abbrev wrapped : SsQueue
wrapped = record { rx_queue = 10 ∷ 11 ∷ 12 ∷ []; rx_start = 2; rx_end = 0 }

wrapped-IsValid : IsValid wrapped
wrapped-IsValid = omega arith

enq-wrapped : (enq wrapped 7).0 ≡ true
unfolding enq next_index
enq-wrapped = refl

enq_refines_example :
    let (done, p, q') = enq wrapped 7 in
    ((done, contents q') ≡ fifo_enq 2 (12 ∷ []) 7)
    × (done ≡ false → (p ≡ 7) × (q' ≡ wrapped))
    × (done ≡ true → p ≡ 10)
enq_refines_example = enq_refines {q = wrapped} wrapped-IsValid 7

-- 1 goes in while the consumer looks at the empty queue, and 4 is tested while 1 comes out
abbrev turns : List Turn
turns =
    producer_turn 1
    ∷ consumer_turn 2
    ∷ producer_turn 3
    ∷ producer_turn 3
    ∷ consumer_turn 5
    ∷ producer_turn 4
    ∷ consumer_turn 6
    ∷ []

turns-received : (run turns (begin (10 ∷ 11 ∷ 12 ∷ []))).sent ≡ 1 ∷ []
unfolding run take_turn enq_step deq_step from_vec next_index
turns-received = refl

run-pending_example :
    let s = run turns (begin (10 ∷ 11 ∷ 12 ∷ [])) in
    (s.sent ≡ s.received ++ pending 3 s.consumer s.queue) × (waiting 3 s.queue < 3)
run-pending_example = run-pending (10 ∷ 11 ∷ 12 ∷ []) turns (omega arith) (omega arith)
