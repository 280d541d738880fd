-- ===== src/Rtl8139/InOrder.antt =====
-- The packets that `TxEnqueue` takes and those that the thread hands to the card.
use modern.Base.{
  ℕ, ◌+◌, ◌*◌, subst, ◌<◌, ◌≤◌, ◌≡◌, ◌≢◌, inl, inr, Option, true, false, none, some, List, [], ◌∷◌,
  ◌++◌, map, length, ltb, leb, ==_of_ne, if◌then◌else◌, Bool-cases, refl, sym, ap, ◌∙◌, arith,
}
use modern.Base.Bytes.{u32_mod}
use modern.Memory.{Memory}
use modern.Buddy.Defs.{update}
use modern.SsQueue.{enq, deq}
use modern.SsQueue.Ring.{IsValid, contents}
use modern.SsQueue.Fifo.{enq-IsValid, deq-IsValid}
use modern.SsQueue.Slots.{AreApart, AreApart-flip, enq-AreApart, deq-AreApart, map-enq, map-deq}
use modern.Net.Address.{EthernetAddress}
use modern.Rtl8139.Tx.{Transmitter, Sent, tx_ready, tx_async, sent_by, handle_tx}
use modern.Rtl8139.Hand.{
  in_hand, packet_of, hand_polled, hand_taken, hand_sent, hand_acked, cons_if, sent_order,
  accepted_if, AllLong, long_if, long_middle,
}
use modern.Rtl8139.Sender.{
  cleared_by, fill_packet, Place, idle, waiting, sending, acking, acked, Driver, thread_step, Event,
  enqueue, thread, card, tx_ok, step, run, l2_mtu,
}

-- The ring is valid, the pointers are different blocks of memory, and the packets that were taken are
-- those that the thread is done with, the one in its hand and those that wait, in this order. The store
-- behind the end of a short one of them does not reach `end`.
pub record IsInOrder (end : ℕ) (d : Driver) : Type 0 where
  pub ring : IsValid d.tx_queue
  pub apart : AreApart d.tx_queue.rx_queue d.tx_packet d.packet
  pub long : AllLong end d.accepted
  pub order :
      map packet_of d.finished
        ++ (in_hand d.place (d.packets d.packet) ++ map d.packets (contents d.tx_queue))
      ≡ d.accepted

cleared_behind :
    (t : Transmitter) (packet : Memory) (size offset n : ℕ)
    → (sent_by t packet size).cleared ≡ some (offset, n)
    → 8 * size ≤ offset
unfolding sent_by
cleared_behind t packet size offset n e = ground (arith, e)

le_trans : {a b c : ℕ} → a ≤ b → b ≤ c → a ≤ c
le_trans ab bc = omega arith

tx_async_runs :
    (t : Transmitter) (packet : Memory) (phy size : ℕ)
    → phy < u32_mod
    → (s : Sent) × (tx_async t packet phy size ≡ some s)
      × ((offset n : ℕ) → s.cleared ≡ some (offset, n) → 8 * size ≤ offset)
unfolding tx_async
tx_async_runs t packet phy size low =
    let below : ltb phy u32_mod ≡ true = ground arith in
    elim (Bool-cases (tx_ready t)) [
      | inl ready ↦ (sent_by t packet size, rw (ready, below) refl, cleared_behind t packet size)
      | inr busy ↦ (
        record { ok = false; transmitter = t; cleared = none },
        rw busy refl,
        λ offset n e. absurd (cc e),
      )
    ]

-- a payload that fits in a packet, and is long enough that the store behind the frame's end, if any,
-- is `end` bytes or more behind `tx_buffer`
abbrev pub IsFitting : ℕ → Event → Type 0
IsFitting end (enqueue dst protocol payload) =
    (length payload ≤ l2_mtu) × (end ≤ 8 * (14 + length payload))
IsFitting end thread = Unit
IsFitting end (card status) = Unit
IsFitting end tx_ok = Unit

abbrev pub All : (Event → Type 0) → List Event → Type 0
All P [] = Unit
All P (e ∷ es) = P e × All P es

module _ (mac : EthernetAddress) (phy : ℕ → ℕ) (clears : ℕ → ℕ → Driver → Driver) (end : ℕ)
    (outside : (offset n : ℕ) (d : Driver) → end ≤ offset → clears offset n d ≡ d) where
  cleared_outside :
      (c : Option (ℕ × ℕ)) (d : Driver)
      → ((offset n : ℕ) → c ≡ some (offset, n) → end ≤ offset)
      → cleared_by clears c d ≡ d
  cleared_outside none d far = refl
  cleared_outside (some (offset, n)) d far = outside offset n d (far offset n refl)

  enqueue-IsInOrder :
      (d : Driver) (dst : EthernetAddress) (protocol : ℕ) (payload : List ℕ)
      → IsInOrder end d
      → length payload ≤ l2_mtu
      → end ≤ 8 * (14 + length payload)
      → (d' : Driver) × (step mac phy clears (enqueue dst protocol payload) d ≡ some d')
        × IsInOrder end d'
  unfolding step
  enqueue-IsInOrder d dst protocol payload v short far =
      let fits : leb (length payload) l2_mtu ≡ true = ground arith in
      let filled = fill_packet (d.packets d.tx_packet) dst mac protocol payload in
      let q = d.tx_queue in
      let r = enq q d.tx_packet in
      let ne : d.packet ≢ d.tx_packet = ground (arith, v.apart.out) in
      let kept : update d.packets d.tx_packet filled d.packet ≡ d.packets d.packet =
        rw (==_of_ne ne) refl in
      let waits = map-enq q d.packets d.tx_packet filled v.ring v.apart.distinct.0 in
      (
        record d {
          packets = update d.packets d.tx_packet filled;
          tx_queue = r.2;
          tx_packet = r.1;
          accepted = if r.0 then d.accepted ++ (filled ∷ []) else d.accepted;
        },
        rw fits refl,
        record {
          ring = enq-IsValid d.tx_packet v.ring;
          apart = enq-AreApart q d.tx_packet d.packet v.apart;
          long = long_if end r.0 d.accepted filled v.long (unfold fill_packet in far);
          order =
              ap
                (λ h.
                  map packet_of d.finished
                  ++ (in_hand d.place h
                      ++ map (update d.packets d.tx_packet filled) (contents r.2)))
                kept
              ∙ ap (λ w. map packet_of d.finished ++ (in_hand d.place (d.packets d.packet) ++ w))
                  waits
              ∙ accepted_if r.0 (map packet_of d.finished) (in_hand d.place (d.packets d.packet))
                  (map d.packets (contents q)) d.accepted filled v.order;
        },
      )

  thread-IsInOrder :
      (place : Place) (d : Driver)
      → d.place ≡ place
      → IsInOrder end d
      → ((i : ℕ) → phy i < u32_mod)
      → (d' : Driver) × (thread_step mac phy clears place d ≡ some d') × IsInOrder end d'
  unfolding thread_step
  thread-IsInOrder idle d at v low =
      let q = d.tx_queue in
      let r = deq q d.packet in
      let l = map packet_of d.finished in
      let before : l ++ map d.packets (contents q) ≡ d.accepted = (rw at at v.order) in
      (
        record d { tx_queue = r.2; packet = r.1; place = if r.0 then waiting else idle },
        refl,
        record {
          ring = deq-IsValid d.packet v.ring;
          apart = AreApart-flip (deq-AreApart q d.packet d.tx_packet (AreApart-flip v.apart));
          long = v.long;
          order =
              ap (λ h. l ++ (h ++ map d.packets (contents r.2))) (hand_taken r.0 (d.packets r.1))
              ∙ ap (l ++◌) (cons_if r.0 (d.packets r.1) (map d.packets (contents r.2)))
              ∙ ap (l ++◌) (sym (map-deq q d.packets d.packet v.ring))
              ∙ before;
        },
      )
  thread-IsInOrder waiting d at v low =
      let before = rw at at v.order in
      (
        record d { place = if tx_ready d.transmitter then sending else waiting },
        refl,
        record {
          ring = v.ring;
          apart = v.apart;
          long = v.long;
          order =
              ap (λ h. map packet_of d.finished ++ (h ++ map d.packets (contents d.tx_queue)))
                (hand_polled (tx_ready d.transmitter) (d.packets d.packet))
              ∙ before;
        },
      )
  thread-IsInOrder sending d at v low =
      let p = d.packets d.packet in
      let (sent, runs, behind) =
        tx_async_runs d.transmitter p.pkt_start (phy d.packet) (14 + p.size) (low d.packet) in
      let before = rw at at v.order in
      let short : end ≤ 8 * (14 + p.size) =
        long_middle end (map packet_of d.finished) p (map d.packets (contents d.tx_queue))
          (subst (AllLong end) (sym before) v.long) in
      let same =
        cleared_outside sent.cleared
          (record d {
            transmitter = sent.transmitter;
            place = if sent.ok then acking else idle;
            finished = d.finished ++ ((p, sent.ok) ∷ []);
          })
          (λ offset n e. le_trans short (behind offset n e)) in
      (
        record d {
          transmitter = sent.transmitter;
          place = if sent.ok then acking else idle;
          finished = d.finished ++ ((p, sent.ok) ∷ []);
        },
        rw runs (ap some same),
        record {
          ring = v.ring;
          apart = v.apart;
          long = v.long;
          order =
              ap
                (λ h.
                  map packet_of (d.finished ++ ((p, sent.ok) ∷ []))
                  ++ (h ++ map d.packets (contents d.tx_queue)))
                (hand_sent sent.ok p)
              ∙ sent_order d.finished p sent.ok (map d.packets (contents d.tx_queue))
              ∙ before;
        },
      )
  thread-IsInOrder acking d at v low =
      let before = rw at at v.order in
      (
        record d { place = if d.transmitter.tx_done then acked else acking },
        refl,
        record {
          ring = v.ring;
          apart = v.apart;
          long = v.long;
          order =
              ap (λ h. map packet_of d.finished ++ (h ++ map d.packets (contents d.tx_queue)))
                (hand_acked d.transmitter.tx_done (d.packets d.packet))
              ∙ before;
        },
      )
  thread-IsInOrder acked d at v low = (
    record d { transmitter = record d.transmitter { tx_done = false }; place = idle },
    refl,
    record { ring = v.ring; apart = v.apart; long = v.long; order = rw at at v.order },
  )

  step-IsInOrder :
      (e : Event) (d : Driver)
      → IsFitting end e
      → IsInOrder end d
      → ((i : ℕ) → phy i < u32_mod)
      → (d' : Driver) × (step mac phy clears e d ≡ some d') × IsInOrder end d'
  unfolding step thread_step
  step-IsInOrder (enqueue dst protocol payload) d small v low =
      enqueue-IsInOrder d dst protocol payload v small.0 small.1
  step-IsInOrder thread d small v low = thread-IsInOrder d.place d refl v low
  step-IsInOrder (card status) d small v low = (
    record d { transmitter = record d.transmitter { tx_status = status } },
    refl,
    record { ring = v.ring; apart = v.apart; long = v.long; order = v.order },
  )
  step-IsInOrder tx_ok d small v low = (
    record d { transmitter = handle_tx d.transmitter },
    refl,
    record { ring = v.ring; apart = v.apart; long = v.long; order = v.order },
  )

  -- Whatever the order of the calls of `TxEnqueue`, the steps of the thread, the card's changes of its
  -- registers and its interrupts: while payloads fit in a packet and packets lie below 4 GiB, and the
  -- zeros that are stored behind a short frame's end, inside the driver's object, miss its members, no
  -- assertion fails. The packets that were taken are, in the order they came, those that the thread is
  -- done with, the one in its hand and those that wait, each with the bytes that it was given: on its
  -- way to `tx_async` no packet is lost, doubled or overwritten.
  pub run-IsInOrder :
      (es : List Event) (d : Driver)
      → All (IsFitting end) es
      → IsInOrder end d
      → ((i : ℕ) → phy i < u32_mod)
      → (d' : Driver) × (run mac phy clears es d ≡ some d') × IsInOrder end d'
  unfolding run
  run-IsInOrder [] d small v low = (d, refl, v)
  run-IsInOrder (e ∷ es) d small v low =
      let (d1, steps, v1) = step-IsInOrder e d small.0 v low in
      let (d', runs, v') = run-IsInOrder es d1 small.1 v1 low in (d', rw steps runs, v')
