-- ===== src/Rtl8139/Sender.antt =====
-- device/rtl8139.cpp: the way of a packet from `RTL8139Driver::TxEnqueue` over the queue and
-- `kthread_entry` to `tx_async`, with the interrupts of the card in between, step by step.
use modern.Base.{
  ℕ, ◌+◌, ◌-◌, ◌%◌, ◌/◌, ◌^◌, Bool, false, Option, some, none, ◌>>=◌, ◌>>◌, guard, List, [], ◌∷◌,
  ◌++◌, length, get_or, ltb, leb, ◌==◌, if◌then◌else◌,
}
use modern.Memory.{Memory}
use modern.Endian.{be16}
use modern.Buddy.Defs.{update}
use modern.SsQueue.{SsQueue, enq, deq}
use modern.Net.Address.{EthernetAddress}
use modern.Rtl8139.Tx.{Transmitter, tx_ready, tx_async, handle_tx}

-- `KEthernetPacket`: the size of the payload, and the bytes from `pkt_start` on
pub record KEthernetPacket : Type 0 where
  pub size : ℕ
  pub pkt_start : Memory

-- `L2MTU`, the room for the payload
abbrev pub l2_mtu : ℕ
l2_mtu = 1500

-- what `TxEnqueue` writes into its packet: both addresses, the protocol, the payload
unfoldable pub fill_packet :
    KEthernetPacket → EthernetAddress → EthernetAddress → ℕ → List ℕ → KEthernetPacket
fill_packet old dst src protocol payload = record {
  size = length payload;
  pkt_start = λ i.
      if ltb i 6
      then get_or dst i 0
      else if ltb i 12
      then get_or src (i - 6) 0
      else if i == 12
      then be16 protocol % 2 ^ 8
      else if i == 13
      then be16 protocol / 2 ^ 8 % 2 ^ 8
      else if ltb i (14 + length payload)
      then get_or payload (i - 14) 0
      else old.pkt_start i;
}

-- Where the thread is in its loop: before `deq`, polling `tx_ready`, before `tx_async`, polling
-- `tx_done_`, and before it clears `tx_done_`.
pub data Place : Type 0 where
  idle : Place
  waiting : Place
  sending : Place
  acking : Place
  acked : Place

-- The driver and its thread; `tx_packet` and `packet` are the pointers that they swap with the
-- queue. The packets taken by `TxEnqueue`, and those that the thread is done with, are recorded in
-- order, the latter with what `tx_async` answered.
pub record Driver : Type 0 where
  pub tx_queue : SsQueue
  pub tx_packet : ℕ
  pub packet : ℕ
  pub packets : ℕ → KEthernetPacket
  pub place : Place
  pub transmitter : Transmitter
  pub accepted : List KEthernetPacket
  pub finished : List (KEthernetPacket × Bool)

-- What can come next: a call of `TxEnqueue`, a step of the thread, a change of the status registers
-- by the card, and its interrupt after a frame.
pub data Event : Type 0 where
  enqueue : EthernetAddress → ℕ → List ℕ → Event
  thread : Event
  card : (ℕ → ℕ) → Event
  tx_ok : Event

-- What a store over part of the driver's object leaves, if there was one.
abbrev pub cleared_by : (ℕ → ℕ → Driver → Driver) → Option (ℕ × ℕ) → Driver → Driver
cleared_by clears none d = d
cleared_by clears (some (offset, n)) d = clears offset n d

-- `clears offset n` is the store of `n` bytes of 0 into the driver's object, `offset` bytes behind its
-- array of pointers `tx_buffer`; what lies there is the compiler's choice.
module _ (mac : EthernetAddress) (phy : ℕ → ℕ) (clears : ℕ → ℕ → Driver → Driver) where
  -- `none` is a payload that is longer than the packet: its size is not checked.
  unfoldable pub tx_enqueue : Driver → EthernetAddress → ℕ → List ℕ → Option (Bool × Driver)
  tx_enqueue d dst protocol payload = do
    guard (leb (length payload) l2_mtu)
    let filled = fill_packet (d.packets d.tx_packet) dst mac protocol payload
    let (ok, p, queue) = enq d.tx_queue d.tx_packet
    some (
      ok,
      record d {
        packets = update d.packets d.tx_packet filled;
        tx_queue = queue;
        tx_packet = p;
        accepted = if ok then d.accepted ++ (filled ∷ []) else d.accepted;
      },
    )

  -- One step of `kthread_entry`; a poll that fails stays where it is. The queue's operation is one
  -- step, as its own accesses are interleaved elsewhere. `none` is a failed assertion of `tx_async`.
  -- The padding of a short frame is cleared inside the driver's object.
  unfoldable pub thread_step : Place → Driver → Option Driver
  thread_step idle d =
      let (ok, p, queue) = deq d.tx_queue d.packet in
      some (record d { tx_queue = queue; packet = p; place = if ok then waiting else idle })
  thread_step waiting d =
      some (record d { place = if tx_ready d.transmitter then sending else waiting })
  thread_step sending d = do
    let p = d.packets d.packet
    sent ← tx_async d.transmitter p.pkt_start (phy d.packet) (14 + p.size)
    some (
        cleared_by clears sent.cleared (record d {
          transmitter = sent.transmitter;
          place = if sent.ok then acking else idle;
          finished = d.finished ++ ((p, sent.ok) ∷ []);
        }))
  thread_step acking d = some (record d { place = if d.transmitter.tx_done then acked else acking })
  thread_step acked d =
      some (record d { transmitter = record d.transmitter { tx_done = false }; place = idle })

  unfoldable pub step : Event → Driver → Option Driver
  unfolding tx_enqueue thread_step
  step (enqueue dst protocol payload) d = do (ok, d') ← tx_enqueue d dst protocol payload; some d'
  step thread d = thread_step d.place d
  step (card status) d =
      some (record d { transmitter = record d.transmitter { tx_status = status } })
  step tx_ok d = some (record d { transmitter = handle_tx d.transmitter })

  unfoldable pub run : List Event → Driver → Option Driver
  unfolding step
  run [] d = some d
  run (e ∷ es) d = do d' ← step e d; run es d'
