-- ===== src/SsQueue.antt =====
-- include/common/kssq.hpp: `SSQueue`, the queue of one producer and one consumer. Its slots and the
-- callers' packets are pointers, so an element is an address. Both operations swap: the caller's
-- pointer goes into the slot, and the slot's pointer comes out.
pub mod Ring
pub mod Fifo
pub mod Threads
pub mod Order
pub mod Interleaved
pub mod Linear
pub mod Concurrent
pub mod Slots
pub mod Pool
mod Tests
use modern.Base.{
  ℕ, ◌%◌, Bool, true, false, List, ◌==◌, if◌then◌else◌, length, get_or, set, replicate,
}
use modern.Base.Bytes.{add64}

pub record SsQueue : Type 0 where
  pub rx_queue : List ℕ
  pub rx_start : ℕ
  pub rx_end : ℕ

-- The constructor from a vector of pointers.
unfoldable pub from_vec : List ℕ → SsQueue
from_vec vec = record { rx_queue = vec; rx_start = 0; rx_end = 0 }

-- the index after `i`: `(i + 1) % rx_queue_.size()`
unfoldable pub next_index : SsQueue → ℕ → ℕ
next_index q i = add64 i 1 % length q.rx_queue

-- `std::swap(rx_queue_[i], packet)`: the new slots. The other half is `get_or`.
abbrev pub swap_in : SsQueue → ℕ → ℕ → List ℕ
swap_in q i packet = set q.rx_queue i packet

-- Whether it succeeded, the caller's pointer afterwards, and the queue.
unfoldable pub deq : SsQueue → ℕ → Bool × ℕ × SsQueue
deq q packet = if q.rx_start == q.rx_end then (false, packet, q) else (
  true,
  get_or q.rx_queue q.rx_start packet,
  record q { rx_queue = swap_in q q.rx_start packet; rx_start = next_index q q.rx_start },
)

unfoldable pub enq : SsQueue → ℕ → Bool × ℕ × SsQueue
enq q packet =
    let next = next_index q q.rx_end in
    if next == q.rx_start then (false, packet, q) else (
      true,
      get_or q.rx_queue q.rx_end packet,
      record q { rx_queue = swap_in q q.rx_end packet; rx_end = next },
    )
