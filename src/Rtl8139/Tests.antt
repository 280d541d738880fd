-- ===== src/Rtl8139/Tests.antt =====
-- The network card at one packet.
use modern.Base.{
  ℕ, ◌≤◌, false, ◌++◌, ◌+◌, ◌-◌, ◌*◌, ◌%◌, ◌≡◌, ◌<◌, true, false, not, ◌||◌, some, List, [], ◌∷◌,
  ◌==◌, ltb, if◌then◌else◌, refl, ap, arith,
}
use modern.Base.{get_or-lt}
use modern.Memory.{Memory}
use modern.Net.Address.{EthernetAddress, is_broadcast, eth_ne}
use modern.Rtl8139.Rx.{
  Receiver, Received, no_packet, consume_rx, handle_rx, bytes_from, passed_up, dropped,
}
use modern.Rtl8139.Tx.{
  Transmitter, Sent, IsFrame, frame, frame-IsFrame, tx_async, tx_async_lem, tx_ready,
}
use modern.Rtl8139.Irq.{Nic, irq}
use modern.Rtl8139.Served.{IsServed, irq-IsServed}
use modern.SsQueue.{from_vec}
use modern.Rtl8139.Sender.{
  KEthernetPacket, fill_packet, Driver, Event, enqueue, thread, card, tx_ok, idle, run,
}
use modern.Rtl8139.InOrder.{IsInOrder, run-IsInOrder}
use modern.Rtl8139.Link.{Arrived, handle_rx-IsFrame}

abbrev receiver : Receiver
receiver = record {
  rx_offset = 0;
  current_address_of_packet_read = 0;
  mac = 0x52 ∷ 0x54 ∷ 0 ∷ 0x12 ∷ 0x34 ∷ 0x56 ∷ [];
}

-- a packet to everyone that `TxEnqueue` filled, over what the buffer held
abbrev everyone : EthernetAddress
everyone = 255 ∷ 255 ∷ 255 ∷ 255 ∷ 255 ∷ 255 ∷ []

abbrev held : KEthernetPacket
held = record { size = 0; pkt_start = λ i. 1 }

abbrev packet : Memory
packet = (fill_packet held everyone receiver.mac 0x806 (1 ∷ 2 ∷ 3 ∷ [])).pkt_start

abbrev old : Memory
old i = 9

abbrev transmitter : Transmitter
transmitter = record {
  tx_buffer = λ j. old;
  tx_buffer_index = 1;
  tx_done = false;
  tx_status = λ j. 8192;
}

packet_bytes : (i : ℕ) → packet i < 256
unfolding fill_packet
packet_bytes i =
    let dst = get_or-lt everyone i (
      omega arith,
      (omega arith, (omega arith, (omega arith, (omega arith, (omega arith, tt))))),
    ) in
    let src = get_or-lt receiver.mac (i - 6) (
      omega arith,
      (omega arith, (omega arith, (omega arith, (omega arith, (omega arith, tt))))),
    ) in
    let payload =
      get_or-lt (1 ∷ 2 ∷ 3 ∷ []) (i - 14) (omega arith, (omega arith, (omega arith, tt))) in
    ground (arith, dst, src, payload)

tx_async_lem_example :
    (s : Sent) × (tx_async transmitter packet 0x500_0000 42 ≡ some s)
    × (s.ok ≡ true)
    × IsFrame old packet (s.transmitter.tx_buffer 1) 42 60
    × (tx_ready s.transmitter ≡ false)
unfolding tx_ready
tx_async_lem_example =
    tx_async_lem transmitter packet 0x500_0000 42 refl (omega arith) (λ j i. omega arith)
      packet_bytes

abbrev sent : Memory
sent = frame old packet 17 60

-- the ring with a header for 64 bytes, and the frame
abbrev ring : Memory
ring i = if ltb i 4 then (if i == 2 then 64 else 0) else sent (i - 4)

ring-Arrived : Arrived ring 4 sent 0 64
ring-Arrived i h =
    let behind : ltb (4 + i) 4 ≡ false = ground arith in
    rw behind (ap sent {x = 4 + i - 4} {y = 0 + i} (omega arith))

sent-IsFrame : IsFrame old packet sent 17 60
sent-IsFrame = frame-IsFrame old packet 17 60 (omega arith) (λ i. omega arith) packet_bytes

abbrev arrived : Received
arrived =
    if is_broadcast everyone || not (eth_ne everyone receiver.mac)
    then passed_up (record {
      dst = everyone;
      src = receiver.mac;
      protocol = 0x806;
      payload = (1 ∷ 2 ∷ 3 ∷ []) ++ bytes_from old 17 43;
    })
    else dropped

handle_rx-IsFrame_example : handle_rx ring receiver ≡ some (arrived, consume_rx receiver 64)
handle_rx-IsFrame_example =
    handle_rx-IsFrame ring old sent receiver held everyone receiver.mac 0x806 (1 ∷ 2 ∷ 3 ∷ []) 60
      sent-IsFrame refl refl (omega arith) (omega arith) refl ring-Arrived

-- the ring with the frame alone
abbrev one_frame : Memory
one_frame i = if ltb i 68 then ring i else 0

one_frame-Arrived : Arrived one_frame 4 sent 0 64
one_frame-Arrived i h =
    let inside : ltb (4 + i) 68 ≡ true = ground arith in rw inside (ring-Arrived i h)

first_frame : handle_rx one_frame receiver ≡ some (arrived, consume_rx receiver 64)
first_frame =
    handle_rx-IsFrame one_frame old sent receiver held everyone receiver.mac 0x806 (1 ∷ 2 ∷ 3 ∷ [])
      60 sent-IsFrame refl refl (omega arith) (omega arith) refl one_frame-Arrived

then_nothing :
    handle_rx one_frame (consume_rx receiver 64) ≡ some (no_packet, consume_rx receiver 64)
unfolding handle_rx
then_nothing = refl

abbrev nic : Nic
nic = record { receiver = receiver; transmitter = transmitter; received = []; acks = [] }

-- a packet came, another was lost, and a frame went out
irq-IsServed_example :
    (n' : Nic) × (irq one_frame (λ k. 0x15) nic ≡ some (true, n'))
    × IsServed 0x15 arrived no_packet nic n'
irq-IsServed_example =
    irq-IsServed one_frame 0x15 nic arrived no_packet (consume_rx receiver 64)
      (consume_rx receiver 64) first_frame then_nothing (omega arith)

-- three slots, the driver's packet and the thread's
abbrev driver : Driver
driver = record {
  tx_queue = from_vec (1 ∷ 2 ∷ 3 ∷ []);
  tx_packet = 4;
  packet = 5;
  packets = λ i. record { size = 0; pkt_start = λ a. 0 };
  place = idle;
  transmitter = transmitter;
  accepted = [];
  finished = [];
}

driver-IsInOrder : IsInOrder 136 driver
unfolding from_vec
driver-IsInOrder = record {
  ring = record { start_in = omega arith; end_in = omega arith; small = omega arith };
  apart = record { distinct = (refl, (refl, (refl, (refl, tt)))); out = refl };
  long = tt;
  order = refl;
}

abbrev events : List Event
events =
    enqueue (1 ∷ []) 0x806 (7 ∷ 8 ∷ 9 ∷ [])
    ∷ thread
    ∷ enqueue (2 ∷ []) 0x806 (9 ∷ 8 ∷ 7 ∷ [])
    ∷ thread
    ∷ thread
    ∷ tx_ok
    ∷ thread
    ∷ thread
    ∷ card (λ j. 8192)
    ∷ thread
    ∷ []

-- the members behind `tx_buffer` end 136 bytes behind it, with the queue
abbrev clears : ℕ → ℕ → Driver → Driver
clears offset n d = if ltb offset 136 then record d { tx_queue = from_vec [] } else d

clears_outside : (offset n : ℕ) (d : Driver) → 136 ≤ offset → clears offset n d ≡ d
clears_outside offset n d far = let past : ltb offset 136 ≡ false = ground arith in rw past refl

run-IsInOrder_example :
    (d' : Driver) × (run receiver.mac (λ i. 0x500_0000 + 2048 * (i % 8)) clears events driver
      ≡ some d')
    × IsInOrder 136 d'
run-IsInOrder_example =
    run-IsInOrder receiver.mac (λ i. 0x500_0000 + 2048 * (i % 8)) clears 136 clears_outside events
      driver
      (
        (omega arith, omega arith),
        (tt, ((omega arith, omega arith), (tt, (tt, (tt, (tt, (tt, (tt, (tt, tt))))))))),
      )
      driver-IsInOrder (λ i. omega arith)
