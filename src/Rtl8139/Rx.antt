-- ===== src/Rtl8139/Rx.antt =====
-- device/rtl8139.cpp: `consume_rx` and `handle_rx`, over the memory that the card writes packets to.
use modern.Base.{
  ℕ, zero, suc, ◌+◌, ◌-◌, ◌*◌, ◌/◌, ◌%◌, ◌^◌, ◌≤◌, ◌<◌, ◌≡◌, Bool, true, false, not, ◌&&◌, ◌||◌,
  Option, some, List, [], ◌∷◌, ◌>>◌, guard, ◌==◌, ==_of_eq, if◌then◌else◌, leb, refl, arith,
}
use modern.Base.Bytes.{add64, u32_mod, u16_mod}
use modern.Memory.{Memory}
use modern.Endian.{be16}
use modern.Net.Address.{EthernetAddress, is_broadcast, eth_ne}
use modern.Rtl8139.Crc.{crc32iso_hdlc, load32}

-- the part of `Rtl8139Device` that receives, with the register that it writes
pub record Receiver : Type 0 where
  pub rx_offset : ℕ
  pub current_address_of_packet_read : ℕ
  pub mac : EthernetAddress

unfoldable pub consume_rx : Receiver → ℕ → Receiver
consume_rx r packet_size =
    let next = add64 (add64 (add64 r.rx_offset packet_size) 4) 3 / 4 * 4 % u32_mod in
    record r {
      rx_offset = next % 8192;
      current_address_of_packet_read = (next + (u32_mod - 16)) % u32_mod % u16_mod;
    }

-- the `n` bytes from address `a` on
abbrev pub bytes_from : Memory → ℕ → ℕ → List ℕ
bytes_from mem a zero = []
bytes_from mem a (suc n) = mem a ∷ bytes_from mem (a + 1) n

-- a packet as `RxUpper` is given it
pub record Packet : Type 0 where
  pub dst : EthernetAddress
  pub src : EthernetAddress
  pub protocol : ℕ
  pub payload : List ℕ

pub data Received : Type 0 where
  no_packet : Received
  dropped : Received
  passed_up : Packet → Received

-- the packet whose frame of `packet_size` bytes stands at `a`
abbrev pub packet_at : Memory → ℕ → ℕ → Packet
packet_at mem a packet_size = record {
  dst = bytes_from mem a 6;
  src = bytes_from mem (a + 6) 6;
  protocol = be16 (mem (a + 12) + 2 ^ 8 * mem (a + 13));
  payload = bytes_from mem (a + 14) (packet_size - 18);
}

-- `handle_rx`. `none` is a packet that is too short: the source then reads outside the buffer, or asks
-- for a vector of a size below 0.
unfoldable pub handle_rx : Memory → Receiver → Option (Received × Receiver)
unfolding consume_rx
handle_rx rx_buffer r =
    let packet_size = load32 rx_buffer r.rx_offset / 2 ^ 16 in
    let a = r.rx_offset + 4 in
    let stored_crc32 = load32 rx_buffer (a + (packet_size - 4)) in
    let packet = packet_at rx_buffer a packet_size in
    if packet_size == 0 then some (no_packet, r) else (do
      guard (leb 4 packet_size)
      if not (stored_crc32 == crc32iso_hdlc 0 rx_buffer a (packet_size - 4))
          then some (dropped, consume_rx r packet_size)
          else (do
            guard (leb 18 packet_size)
            if not (is_broadcast packet.dst) && eth_ne packet.dst r.mac
                then some (dropped, consume_rx r packet_size)
                else some (passed_up packet, consume_rx r packet_size)))

pub data Upper : Type 0 where
  to_arp : Upper
  to_ipv4 : Upper
  to_nobody : Upper

-- `RxUpper`: which driver is given the packet; `none` is the failed assertion that the driver is set.
unfoldable pub rx_upper : Bool → Bool → ℕ → Option Upper
rx_upper has_arp has_ipv4 protocol =
    if protocol == 0x806
    then (do guard has_arp; some to_arp)
    else if protocol == 0x800
    then (do guard has_ipv4; some to_ipv4)
    else some to_nobody

-- The read offset stays in the ring of 8 KiB and at a multiple of 4: it goes on by the header and the
-- packet, rounded up to 4 bytes, round the ring. The card's register is 16 behind it.
pub consume_rx_lem :
    (r : Receiver) (packet_size : ℕ)
    → r.rx_offset < 8192
    → r.rx_offset % 4 ≡ 0
    → packet_size < 2 ^ 16
    → let r' = consume_rx r packet_size in
      (r'.rx_offset < 8192)
      × (r'.rx_offset % 4 ≡ 0)
      × (r'.rx_offset ≡ (r.rx_offset + 4 + (packet_size + 3) / 4 * 4) % 8192)
      × ((r'.current_address_of_packet_read + 16) % 8192 ≡ r'.rx_offset)
unfolding consume_rx
consume_rx_lem r packet_size inside aligned small =
    (omega arith, omega arith, omega arith, omega arith)

-- A packet of 18 bytes or more whose checksum is right is taken off the ring; it is passed up if its
-- target is everyone or the card itself, and else dropped.
pub handle_rx-intact :
    (rx_buffer : Memory) (r : Receiver) (n : ℕ)
    → load32 rx_buffer r.rx_offset / 2 ^ 16 ≡ n
    → 18 ≤ n
    → load32 rx_buffer (r.rx_offset + 4 + (n - 4))
      ≡ crc32iso_hdlc 0 rx_buffer (r.rx_offset + 4) (n - 4)
    → let packet = packet_at rx_buffer (r.rx_offset + 4) n in
      handle_rx rx_buffer r
      ≡ some (
        (if is_broadcast packet.dst || not (eth_ne packet.dst r.mac)
            then passed_up packet
            else dropped),
        consume_rx r n,
      )
unfolding handle_rx
handle_rx-intact rx_buffer r n size long intact =
    let some_bytes : (n == 0) ≡ false = ground arith in
    let four : leb 4 n ≡ true = ground arith in
    let eighteen : leb 18 n ≡ true = ground arith in
    rw (size, some_bytes, four, eighteen, ==_of_eq intact)
      (choice (is_broadcast (bytes_from rx_buffer (r.rx_offset + 4) 6))
        (eth_ne (bytes_from rx_buffer (r.rx_offset + 4) 6) r.mac)
        (passed_up (packet_at rx_buffer (r.rx_offset + 4) n)) (consume_rx r n))
  where
    choice :
        (everyone other : Bool) (p : Received) (r' : Receiver)
        → ◌≡◌ {A = Option (Received × Receiver)}
            (if not everyone && other then some (dropped, r') else some (p, r'))
            (some ((if everyone || not other then p else dropped), r'))
    choice true other p r' = refl
    choice false true p r' = refl
    choice false false p r' = refl
