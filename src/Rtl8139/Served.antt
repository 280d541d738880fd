-- ===== src/Rtl8139/Served.antt =====
-- What the interrupt routine leaves: packets received, frames sent, bits acknowledged.
use modern.Base.{
  ℕ, zero, suc, ◌≡◌, ◌≢◌, Bool, true, false, ◌&&◌, ◌||◌, some, List, [], ◌∷◌, ◌++◌, ==_of_ne,
  if◌then◌else◌, refl, sym, ap, ◌∙◌, arith,
}
use mathlib.Core.List.{append_assoc, append-nil}
use modern.Memory.{Memory}
use modern.Bits.{bit}
use modern.Rtl8139.Rx.{Receiver, Received, handle_rx}
use modern.Rtl8139.Tx.{handle_tx}
use modern.Rtl8139.Irq.{Nic, ack, on_rx, irq}

-- Bit `i` was written as a one.
abbrev pub is_acked : ℕ → List ℕ → Bool
is_acked i [] = false
is_acked i (v ∷ vs) = bit v i || is_acked i vs

-- the packets of one interrupt: one for each of the bits 0 and 4
abbrev pub served_packets : Bool → Bool → Received → Received → List Received
served_packets true true x1 x2 = x1 ∷ x2 ∷ []
served_packets true false x1 x2 = x1 ∷ []
served_packets false true x1 x2 = x1 ∷ []
served_packets false false x1 x2 = []

-- What one interrupt leaves, where the register shows `v` throughout and the ring gives `x1` and then
-- `x2`.
pub record IsServed (v : ℕ) (x1 x2 : Received) (n n' : Nic) : Type 0 where
  pub acks :
      (i : ℕ) → is_acked i n'.acks ≡ (is_acked i n.acks || (bit 0x51 i || (bit 0xe i && bit v i)))
  pub received : n'.received ≡ n.received ++ served_packets (bit v 0) (bit v 4) x1 x2
  pub sent : n'.transmitter ≡ (if bit v 2 then handle_tx n.transmitter else n.transmitter)

is_acked-append :
    (i : ℕ) (xs ys : List ℕ) → is_acked i (xs ++ ys) ≡ (is_acked i xs || is_acked i ys)
is_acked-append i [] ys = refl
is_acked-append i (x ∷ xs) ys = ground (arith, is_acked-append i xs ys)

-- what the reception of a packet changes
pub record IsRx (b : Bool) (v : ℕ) (x : Received) (r' : Receiver) (n n' : Nic) : Type 0 where
  pub acks : (i : ℕ) → is_acked i n'.acks ≡ (is_acked i n.acks || (b && bit v i))
  pub transmitter : n'.transmitter ≡ n.transmitter
  pub received : n'.received ≡ (if b then n.received ++ (x ∷ []) else n.received)
  pub receiver : n'.receiver ≡ (if b then r' else n.receiver)

on_rx-IsRx :
    (b : Bool) (v : ℕ) (n : Nic) (rx_buffer : Memory) (x : Received) (r' : Receiver)
    → handle_rx rx_buffer n.receiver ≡ some (x, r')
    → (n' : Nic) × (on_rx b v rx_buffer n ≡ some n') × IsRx b v x r' n n'
unfolding on_rx
on_rx-IsRx true v n rx_buffer x r' runs = (
  ack v (record n { receiver = r'; received = n.received ++ (x ∷ []) }),
  rw runs refl,
  record {
    acks = λ i. is_acked-append i n.acks (v ∷ []) ∙ ground arith;
    transmitter = refl;
    received = refl;
    receiver = refl;
  },
)
on_rx-IsRx false v n rx_buffer x r' runs = (
  n,
  refl,
  record { acks = λ i. ground arith; transmitter = refl; received = refl; receiver = refl },
)

-- what the second call of `handle_rx` finds
second_rx :
    (b : Bool) (rx_buffer : Memory) (x1 x2 : Received) (r r1 r2 : Receiver)
    → handle_rx rx_buffer r ≡ some (x1, r1)
    → handle_rx rx_buffer r1 ≡ some (x2, r2)
    → handle_rx rx_buffer (if b then r1 else r) ≡ some (if b then x2 else x1, if b then r2 else r1)
second_rx true rx_buffer x1 x2 r r1 r2 first next = next
second_rx false rx_buffer x1 x2 r r1 r2 first next = first

packets_of :
    (b c : Bool) (x1 x2 : Received) (xs : List Received)
    → (if c
        then (if b then xs ++ (x1 ∷ []) else xs) ++ ((if b then x2 else x1) ∷ [])
        else if b
        then xs ++ (x1 ∷ [])
        else xs)
      ≡ xs ++ served_packets b c x1 x2
packets_of true true x1 x2 xs = append_assoc xs (x1 ∷ []) (x2 ∷ [])
packets_of true false x1 x2 xs = refl
packets_of false true x1 x2 xs = refl
packets_of false false x1 x2 xs = sym (append-nil xs)

bit-zero : (i : ℕ) → bit 0 i ≡ false
bit-zero zero = refl
bit-zero (suc i) = bit-zero i

or_false : (b : Bool) → (b || false) ≡ b
or_false true = refl
or_false false = refl

-- the bits that the writes of one interrupt have together
served_bits :
    (a : Bool) (v i : ℕ)
    → ((((((a || (bit v 0 && bit 0x1 i)) || (bit v 1 && bit 0x2 i)) || (bit v 2 && bit 0x4 i))
            || (bit v 3 && bit 0x8 i))
          || (bit v 4 && bit 0x10 i))
        || bit 0x51 i)
      ≡ (a || (bit 0x51 i || (bit 0xe i && bit v i)))
served_bits a v zero = ground arith
served_bits a v (suc zero) = ground arith
served_bits a v (suc (suc zero)) = ground arith
served_bits a v (suc (suc (suc zero))) = ground arith
served_bits a v (suc (suc (suc (suc zero)))) = ground arith
served_bits a v (suc (suc (suc (suc (suc zero))))) = ground arith
served_bits a v (suc (suc (suc (suc (suc (suc zero)))))) = ground arith
served_bits a v (suc (suc (suc (suc (suc (suc (suc i))))))) = rw (bit-zero i) (ground arith)

ack_if :
    (b : Bool) (w i : ℕ) (n : Nic)
    → is_acked i (if b then ack w n else n).acks ≡ (is_acked i n.acks || (b && bit w i))
ack_if true w i n = is_acked-append i n.acks (w ∷ []) ∙ ground arith
ack_if false w i n = ground arith

-- the transmit step, as the routine writes it
abbrev on_tx : Bool → Nic → Nic
on_tx b n = if b then ack 0x4 (record n { transmitter = handle_tx n.transmitter }) else n

on_tx_acks :
    (b : Bool) (i : ℕ) (n : Nic)
    → is_acked i (on_tx b n).acks ≡ (is_acked i n.acks || (b && bit 0x4 i))
on_tx_acks true i n = is_acked-append i n.acks (0x4 ∷ []) ∙ ground arith
on_tx_acks false i n = ground arith

ack_transmitter :
    (b : Bool) (w : ℕ) (n : Nic) → (if b then ack w n else n).transmitter ≡ n.transmitter
ack_transmitter true w n = refl
ack_transmitter false w n = refl

on_tx_transmitter :
    (b : Bool) (n : Nic)
    → (on_tx b n).transmitter ≡ (if b then handle_tx n.transmitter else n.transmitter)
on_tx_transmitter true n = refl
on_tx_transmitter false n = refl

-- what the steps between the two receptions leave alone
between_received :
    (a b c : Bool) (n : Nic)
    → let n3 = on_tx b (if a then ack 0x2 n else n) in
      (if c then ack 0x8 n3 else n3).received ≡ n.received
between_received true true true n = refl
between_received true true false n = refl
between_received true false true n = refl
between_received true false false n = refl
between_received false true true n = refl
between_received false true false n = refl
between_received false false true n = refl
between_received false false false n = refl

between_receiver :
    (a b c : Bool) (n : Nic)
    → let n3 = on_tx b (if a then ack 0x2 n else n) in
      (if c then ack 0x8 n3 else n3).receiver ≡ n.receiver
between_receiver true true true n = refl
between_receiver true true false n = refl
between_receiver true false true n = refl
between_receiver true false false n = refl
between_receiver false true true n = refl
between_receiver false true false n = refl
between_receiver false false true n = refl
between_receiver false false false n = refl

-- One interrupt while the register shows `v`, not 0, throughout, and the ring holds two packets that
-- `handle_rx` can read: the routine answers that it was the card's, makes of the packets as many as
-- the bits 0 and 4 of `v` say, in their order, and steps the transmitter exactly if a frame went
-- out. It has written a one for exactly the bits 0, 4 and 6, whether they are set or not, and
-- for those of bits 1, 2 and 3 that are set; so bits 5, 13, 14 and 15, which it prints, stay pending.
pub irq-IsServed :
    (rx_buffer : Memory) (v : ℕ) (n : Nic) (x1 x2 : Received) (r1 r2 : Receiver)
    → handle_rx rx_buffer n.receiver ≡ some (x1, r1)
    → handle_rx rx_buffer r1 ≡ some (x2, r2)
    → v ≢ 0
    → (n' : Nic) × (irq rx_buffer (λ k. v) n ≡ some (true, n')) × IsServed v x1 x2 n n'
unfolding irq
irq-IsServed rx_buffer v n x1 x2 r1 r2 one two some_bit =
    let (n1, first, rx1) = on_rx-IsRx (bit v 0) 0x1 n rx_buffer x1 r1 one in
    let n2 = if bit v 1 then ack 0x2 n1 else n1 in
    let n3 = on_tx (bit v 2) n2 in
    let n4 = if bit v 3 then ack 0x8 n3 else n3 in
    let ring = between_receiver (bit v 1) (bit v 2) (bit v 3) n1 ∙ rx1.receiver in
    let x = if bit v 0 then x2 else x1 in
    let (n5, second, rx2) = on_rx-IsRx (bit v 4) 0x10 n4 rx_buffer x _ (
      ap (handle_rx rx_buffer) ring
      ∙ second_rx (bit v 0) rx_buffer x1 x2 n.receiver r1 r2 one two) in
    (
      ack 0x51 n5,
      rw (==_of_ne some_bit, first, second) refl,
      record {
        acks = λ i.
            is_acked-append i n5.acks (0x51 ∷ [])
            ∙ ap (λ b. is_acked i n5.acks || b) (or_false (bit 0x51 i))
            ∙ ap (λ a. a || bit 0x51 i)
                (rx2.acks i
                  ∙ ap (λ a. a || (bit v 4 && bit 0x10 i))
                      (ack_if (bit v 3) 0x8 i n3
                        ∙ ap (λ a. a || (bit v 3 && bit 0x8 i))
                            (on_tx_acks (bit v 2) i n2
                              ∙ ap (λ a. a || (bit v 2 && bit 0x4 i))
                                  (ack_if (bit v 1) 0x2 i n1
                                    ∙ ap (λ a. a || (bit v 1 && bit 0x2 i)) (rx1.acks i)))))
            ∙ served_bits (is_acked i n.acks) v i;
        received =
            rx2.received
            ∙ ap (λ xs. if bit v 4 then xs ++ (x ∷ []) else xs)
                (between_received (bit v 1) (bit v 2) (bit v 3) n1 ∙ rx1.received)
            ∙ packets_of (bit v 0) (bit v 4) x1 x2 n.received;
        sent =
            rx2.transmitter
            ∙ ack_transmitter (bit v 3) 0x8 n3
            ∙ on_tx_transmitter (bit v 2) n2
            ∙ ap (λ t. if bit v 2 then handle_tx t else t)
                (ack_transmitter (bit v 1) 0x2 n1 ∙ rx1.transmitter);
      },
    )
