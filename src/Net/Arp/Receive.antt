-- ===== src/Net/Arp/Receive.antt =====
-- From the interrupt handler to the thread: the packets that wait in the queue of `ArpDriver`.
use modern.Base.{
  ℕ, ◌≡◌, inl, inr, Bool, true, false, List, [], ◌∷◌, ◌++◌, map, ltb, ◌==◌, if◌then◌else◌,
  Bool-cases, length, ◌∙◌, ap, ap₂, arith, length-map,
}
use modern.SsQueue.{enq, next_index}
use modern.SsQueue.Ring.{IsValid, count, contents}
use modern.SsQueue.Fifo.{capacity, enq-IsValid, enq-contents}
use modern.Buddy.Ring.{Distinct}
use modern.SsQueue.Slots.{Distinct-swap_in, map-window, map-snoc}
use modern.Net.Address.{EthernetAddress, Ipv4Address, eth_lt, ip_lt}
use modern.Net.Map.{OrderedMap}
use modern.Net.Arp.{ArpPacket, ArpDriver, update, queue_up_mapping}

-- The specification: a bounded queue of packets.
abbrev pub packet_enq : ℕ → List ArpPacket → ArpPacket → Bool × List ArpPacket
packet_enq capacity xs x = if ltb (length xs) capacity then (true, xs ++ (x ∷ [])) else (false, xs)

module _ (eth : OrderedMap EthernetAddress Ipv4Address eth_lt)
    (ips : OrderedMap Ipv4Address EthernetAddress ip_lt) (driver_address : EthernetAddress) where
  -- The ring is valid, and the spare packet and the slots are different blocks of memory.
  pub record IsReceiving (d : ArpDriver eth ips driver_address) : Type 0 where
    pub ring : IsValid d.rx_queue
    pub distinct : Distinct (d.tmp_pkt ∷ d.rx_queue.rx_queue)

  -- the packets that wait, oldest first
  abbrev pub waiting : ArpDriver eth ips driver_address → List ArpPacket
  waiting d = map d.packets (contents d.rx_queue)

  module _ {d : ArpDriver eth ips driver_address} (packet : ArpPacket) (v : IsReceiving d) where
    queue_up-Distinct :
        Distinct ((enq d.rx_queue d.tmp_pkt).1 ∷ (enq d.rx_queue d.tmp_pkt).2.rx_queue)
    unfolding enq
    queue_up-Distinct =
        elim (Bool-cases (next_index d.rx_queue d.rx_queue.rx_end == d.rx_queue.rx_start)) [
          | inl full ↦ rw full v.distinct
          | inr room ↦
              rw room (Distinct-swap_in d.rx_queue.rx_queue d.rx_queue.rx_end d.tmp_pkt v.distinct)
        ]

    kept_packets : map (update d.packets d.tmp_pkt packet) (contents d.rx_queue) ≡ waiting d
    kept_packets =
        map-window d.packets d.rx_queue.rx_queue (length d.rx_queue.rx_queue) d.rx_queue.rx_start
          (count d.rx_queue) d.tmp_pkt packet (omega arith) v.ring.start_in v.distinct.0

    queue_up_waiting :
        (
          (queue_up_mapping eth ips driver_address d packet).0,
          waiting (queue_up_mapping eth ips driver_address d packet).1,
        )
        ≡ packet_enq (capacity d.rx_queue) (waiting d) packet
    unfolding queue_up_mapping
    queue_up_waiting =
        let e = enq-contents v.ring d.tmp_pkt in
        let long = length-map (contents d.rx_queue) d.packets in
        elim (Bool-cases (ltb (length (contents d.rx_queue)) (capacity d.rx_queue))) [
          | inl room ↦
              let e' = rw room at e in
              rw (long, room)
                (ap₂ {C = Bool × List ArpPacket} (λ b xs. (b, xs)) (ap (λ r. r.0) e')
                  (ap (map (update d.packets d.tmp_pkt packet)) (ap (λ r. r.1) e')
                    ∙ map-snoc d.packets (contents d.rx_queue) d.tmp_pkt packet
                    ∙ ap (λ xs. xs ++ (packet ∷ [])) kept_packets))
          | inr full ↦
              let e' = rw full at e in
              rw (long, full)
                (ap₂ {C = Bool × List ArpPacket} (λ b xs. (b, xs)) (ap (λ r. r.0) e')
                  (ap (map (update d.packets d.tmp_pkt packet)) (ap (λ r. r.1) e') ∙ kept_packets))
        ]

    -- `queue_up_mapping` is the bounded queue's: unless the ring is full it appends the packet behind
    -- those that wait, and otherwise it drops it; the packets that wait are not changed, and
    -- the spare packet and the slots stay different blocks.
    pub queue_up_mapping_lem :
        let (success, d') = queue_up_mapping eth ips driver_address d packet in
        ((success, waiting d') ≡ packet_enq (capacity d.rx_queue) (waiting d) packet)
        × IsReceiving d'
    unfolding queue_up_mapping
    queue_up_mapping_lem = (
      queue_up_waiting,
      record { ring = enq-IsValid d.tmp_pkt v.ring; distinct = queue_up-Distinct },
    )
