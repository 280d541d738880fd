-- ===== src/Rtl8139/Link.antt =====
-- device/rtl8139.cpp: what `tx_async` hands to one card, `handle_rx` takes from another.
use modern.Base.{
  ℕ, List, [], ◌++◌, length, get_or, ltb, ◌==◌, true, false, zero, suc, ◌+◌, ◌-◌, ◌*◌, ◌/◌, ◌^◌,
  ◌≤◌, ◌<◌, ◌≡◌, not, ◌||◌, some, ◌∷◌, if◌then◌else◌, refl, arith, ap, ap₂, sym, ◌∙◌,
}
use modern.Memory.{Memory}
use modern.Endian.{be16, swap_endian16}
use modern.Net.Address.{EthernetAddress, is_broadcast, eth_ne}
use modern.Rtl8139.Crc.{crc32iso_hdlc, load32, crc32-same}
use modern.Rtl8139.Rx.{
  Receiver, Packet, passed_up, dropped, packet_at, bytes_from, consume_rx, handle_rx,
  handle_rx-intact,
}
use modern.Rtl8139.Tx.{IsFrame}
use modern.Rtl8139.Sender.{KEthernetPacket, fill_packet}

-- `n` bytes at `a` of one memory are those at `b` of another.
abbrev pub Arrived : Memory → ℕ → Memory → ℕ → ℕ → Type 0
Arrived mem a sent b n = (i : ℕ) → i < n → mem (a + i) ≡ sent (b + i)

bytes_from-same :
    (mem sent : Memory) (a b n : ℕ)
    → Arrived mem a sent b n
    → bytes_from mem a n ≡ bytes_from sent b n
bytes_from-same mem sent a b zero same = refl
bytes_from-same mem sent a b (suc n) same =
    ap₂ ◌∷◌ (ap mem {y = a + 0} (omega arith) ∙ same 0 (omega arith) ∙ ap sent (omega arith)) (
      bytes_from-same mem sent (a + 1) (b + 1) n (λ i h.
        ap mem {y = a + suc i} (omega arith) ∙ same (suc i) (omega arith) ∙ ap sent (omega arith)))

-- part of what arrived
part :
    (mem sent : Memory) (a b : ℕ) {n : ℕ} (k m : ℕ)
    → Arrived mem a sent b n
    → k + m ≤ n
    → Arrived mem (a + k) sent (b + k) m
part mem sent a b k m same room i h =
    ap mem {y = a + (k + i)} (omega arith) ∙ same (k + i) (omega arith) ∙ ap sent (omega arith)

packet_at-same :
    (mem sent : Memory) (a b n : ℕ)
    → 18 ≤ n
    → Arrived mem a sent b n
    → packet_at mem a n ≡ packet_at sent b n
packet_at-same mem sent a b n long same =
    let to = bytes_from-same mem sent a b 6 (λ i h. same i (omega arith)) in
    let from_ =
      bytes_from-same mem sent (a + 6) (b + 6) 6 (part mem sent a b 6 6 same (omega arith)) in
    let high = same 12 (omega arith) in
    let low = same 13 (omega arith) in
    let rest =
      bytes_from-same mem sent (a + 14) (b + 14) (n - 18)
        (part mem sent a b 14 (n - 18) same (omega arith)) in
    ap₂
      (λ d s. record {
        dst = d;
        src = s;
        protocol = be16 (mem (a + 12) + 2 ^ 8 * mem (a + 13));
        payload = bytes_from mem (a + 14) (n - 18);
      })
      to from_
    ∙ ap₂
        (λ h l. record {
          dst = bytes_from sent b 6;
          src = bytes_from sent (b + 6) 6;
          protocol = be16 (h + 2 ^ 8 * l);
          payload = bytes_from mem (a + 14) (n - 18);
        })
        high low
    ∙ ap
        (λ p. record {
          dst = bytes_from sent b 6;
          src = bytes_from sent (b + 6) 6;
          protocol = be16 (sent (b + 12) + 2 ^ 8 * sent (b + 13));
          payload = p;
        })
        rest

packet_eq :
    {d d' s s' body body' : List ℕ} {p p' : ℕ}
    → d ≡ d'
    → s ≡ s'
    → p ≡ p'
    → body ≡ body'
    → ◌≡◌ {A = Packet}
        (record { dst = d; src = s; protocol = p; payload = body })
        (record { dst = d'; src = s'; protocol = p'; payload = body' })
packet_eq ed es ep ebody i = record { dst = ed i; src = es i; protocol = ep i; payload = ebody i }

load32-same : (mem sent : Memory) (a b : ℕ) → Arrived mem a sent b 4 → load32 mem a ≡ load32 sent b
load32-same mem sent a b same =
    let e0 : mem a ≡ sent b =
      ap mem {y = a + 0} (omega arith) ∙ same 0 (omega arith) ∙ ap sent (omega arith) in
    rw (e0, same 1 (omega arith), same 2 (omega arith), same 3 (omega arith)) refl

handle_rx-packet_at :
    (rx_buffer old packet sent : Memory) (r : Receiver) (size padded : ℕ)
    → IsFrame old packet sent size padded
    → 14 ≤ padded
    → load32 rx_buffer r.rx_offset / 2 ^ 16 ≡ padded + 4
    → Arrived rx_buffer (r.rx_offset + 4) sent 0 (padded + 4)
    → let p = packet_at sent 0 (padded + 4) in
      handle_rx rx_buffer r
      ≡ some (
        (if is_broadcast p.dst || not (eth_ne p.dst r.mac) then passed_up p else dropped),
        consume_rx r (padded + 4),
      )
handle_rx-packet_at rx_buffer old packet sent r size padded f long header same =
    let a = r.rx_offset + 4 in
    let body : padded + 4 - 4 ≡ padded = omega arith in
    let tail : load32 rx_buffer (a + padded) ≡ load32 sent padded =
      load32-same rx_buffer sent (a + padded) (0 + padded)
        (part rx_buffer sent a 0 padded 4 same (omega arith))
      ∙ ap (load32 sent) (omega arith) in
    let crc : crc32iso_hdlc 0 rx_buffer a padded ≡ crc32iso_hdlc 0 sent 0 padded =
      crc32-same rx_buffer sent a 0 padded (λ i h. same i (omega arith)) in
    handle_rx-intact rx_buffer r (padded + 4) header (omega arith)
      (rw body (tail ∙ f.checksum ∙ sym crc))
    ∙ ap
        (λ p. some (
          (if is_broadcast p.dst || not (eth_ne p.dst r.mac) then passed_up p else dropped),
          consume_rx r (padded + 4),
        ))
        (packet_at-same rx_buffer sent a 0 (padded + 4) (omega arith) same)

bytes_from-list :
    (mem : Memory) (a : ℕ) (xs : List ℕ)
    → ((i : ℕ) → i < length xs → mem (a + i) ≡ get_or xs i 0)
    → bytes_from mem a (length xs) ≡ xs
bytes_from-list mem a [] same = refl
bytes_from-list mem a (x ∷ xs) same =
    ap₂ ◌∷◌ (ap mem {y = a + 0} (omega arith) ∙ same 0 (omega arith)) (
      bytes_from-list mem (a + 1) xs
        (λ i h. ap mem {y = a + suc i} (omega arith) ∙ same (suc i) (omega arith)))

bytes_from-append :
    (mem : Memory) (a m n : ℕ)
    → bytes_from mem a (m + n) ≡ bytes_from mem a m ++ bytes_from mem (a + m) n
bytes_from-append mem a zero n = ap₂ (bytes_from mem) {y = a + 0} (omega arith) (omega arith)
bytes_from-append mem a (suc m) n =
    ap (bytes_from mem a) {y = suc (m + n)} (omega arith)
    ∙ ap (λ r. mem a ∷ r)
        (bytes_from-append mem (a + 1) m n
          ∙ ap (λ b. bytes_from mem (a + 1) m ++ bytes_from mem b n) (omega arith))

-- what the frame of a packet that `TxEnqueue` filled holds
module _ (held : KEthernetPacket) (old sent : Memory) (dst src : EthernetAddress) (protocol : ℕ)
    (payload : List ℕ) (padded : ℕ)
    (f : IsFrame old
      (fill_packet held dst src protocol payload).pkt_start
      sent
      (14 + length payload)
      padded) where
  filled_dst : length dst ≡ 6 → bytes_from sent 0 6 ≡ dst
  unfolding fill_packet
  filled_dst six =
      ap (bytes_from sent 0) (sym six)
      ∙ bytes_from-list sent 0 dst (λ i h.
        let at : ltb i 6 ≡ true = ground arith in
        ap sent {y = i} (omega arith) ∙ f.body i (omega arith) ∙ rw at refl)

  filled_src : length src ≡ 6 → bytes_from sent 6 6 ≡ src
  unfolding fill_packet
  filled_src six =
      ap (bytes_from sent 6) (sym six)
      ∙ bytes_from-list sent 6 src (λ i h.
        let past : ltb (6 + i) 6 ≡ false = ground arith in
        let at : ltb (6 + i) 12 ≡ true = ground arith in
        f.body (6 + i) (omega arith) ∙ rw (past, at) (ap (λ k. get_or src k 0) (omega arith)))

  filled_protocol : protocol < 2 ^ 16 → be16 (sent 12 + 2 ^ 8 * sent 13) ≡ protocol
  unfolding fill_packet swap_endian16
  filled_protocol small =
      let low = f.body 12 (omega arith) in
      let high = f.body 13 (omega arith) in omega (arith, low, high)

  filled_payload : bytes_from sent 14 (length payload) ≡ payload
  unfolding fill_packet
  filled_payload = bytes_from-list sent 14 payload (λ i h.
      let past : ltb (14 + i) 6 ≡ false = ground arith in
      let past12 : ltb (14 + i) 12 ≡ false = ground arith in
      let not12 : (14 + i == 12) ≡ false = ground arith in
      let not13 : (14 + i == 13) ≡ false = ground arith in
      let at : ltb (14 + i) (14 + length payload) ≡ true = ground arith in
      f.body (14 + i) (omega arith)
      ∙ rw (past, past12, not12, not13, at) (ap (λ k. get_or payload k 0) (omega arith)))

  filled_pad :
      14 + length payload ≤ padded
      → bytes_from sent 14 (padded - 14)
        ≡ payload ++ bytes_from old (14 + length payload) (padded - (14 + length payload))
  filled_pad le =
      let n = length payload in
      ap (bytes_from sent 14) {y = n + (padded - (14 + n))} (omega arith)
      ∙ bytes_from-append sent 14 n (padded - (14 + n))
      ∙ ap₂ ◌++◌ filled_payload (
          bytes_from-same sent old (14 + n) (14 + n) (padded - (14 + n))
            (λ i h. f.pad (14 + n + i) (omega arith) (omega arith)))

  filled-packet_at :
      length dst ≡ 6
      → length src ≡ 6
      → protocol < 2 ^ 16
      → 14 + length payload ≤ padded
      → packet_at sent 0 (padded + 4) ≡ record {
        dst = dst;
        src = src;
        protocol = protocol;
        payload = payload ++ bytes_from old (14 + length payload) (padded - (14 + length payload));
      }
  filled-packet_at six six' small le =
      let body : padded + 4 - 18 ≡ padded - 14 = omega arith in
      packet_eq (filled_dst six) (filled_src six') (filled_protocol small)
        (ap (bytes_from sent 14) body ∙ filled_pad le)

-- A packet that `TxEnqueue` filled, in the frame that `tx_async` makes of it, whose bytes arrive in the
-- ring of a card behind a header with their number: it is not lost to the checksum. If its target is
-- everyone or the card, `handle_rx` passes up the addresses, the protocol and the payload that
-- `TxEnqueue` was given, with the padding that the buffer held behind it, and drops it otherwise.
pub handle_rx-IsFrame :
    (rx_buffer old sent : Memory) (r : Receiver) (held : KEthernetPacket)
    (dst src : EthernetAddress) (protocol : ℕ) (payload : List ℕ) (padded : ℕ)
    → IsFrame old
        (fill_packet held dst src protocol payload).pkt_start
        sent
        (14 + length payload)
        padded
    → length dst ≡ 6
    → length src ≡ 6
    → protocol < 2 ^ 16
    → 14 + length payload ≤ padded
    → load32 rx_buffer r.rx_offset / 2 ^ 16 ≡ padded + 4
    → Arrived rx_buffer (r.rx_offset + 4) sent 0 (padded + 4)
    → handle_rx rx_buffer r
      ≡ some (
        (if is_broadcast dst || not (eth_ne dst r.mac)
            then passed_up (record {
              dst = dst;
              src = src;
              protocol = protocol;
              payload =
                  payload ++ bytes_from old (14 + length payload) (padded - (14 + length payload));
            })
            else dropped),
        consume_rx r (padded + 4),
      )
handle_rx-IsFrame rx_buffer old sent r held dst src protocol payload padded f six six' small le
      header same =
    handle_rx-packet_at rx_buffer old (fill_packet held dst src protocol payload).pkt_start sent r
      (14 + length payload) padded f (omega arith) header same
    ∙ ap
        (λ p. some (
          (if is_broadcast p.dst || not (eth_ne p.dst r.mac) then passed_up p else dropped),
          consume_rx r (padded + 4),
        ))
        (filled-packet_at held old sent dst src protocol payload padded f six six' small le)
