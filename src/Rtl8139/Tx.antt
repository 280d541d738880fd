-- ===== src/Rtl8139/Tx.antt =====
-- device/rtl8139.cpp: `tx_async`, `tx_ready` and `handle_tx`.
use modern.Base.{
  ℕ, ◌+◌, ◌-◌, ◌*◌, ◌%◌, ◌^◌, ◌≤◌, ◌<◌, ◌≡◌, inl, inr, Bool, true, false, not, Option, none, some,
  ◌>>◌, guard, ◌==◌, ==_of_eq, if◌then◌else◌, ltb, refl, arith, ◌∙◌, Bool-cases,
}
use modern.Base.Bytes.{add64, u32_mod}
use modern.Memory.{Memory}
use modern.Bits.{bit, bit_or, bit-bit_or}
use modern.Rtl8139.Crc.{crc32iso_hdlc, load32, store32, load32-store32, crc32-lt, crc32-same}

-- the part of `Rtl8139Device` that sends: the four buffers, and the status registers of the card
pub record Transmitter : Type 0 where
  pub tx_buffer : ℕ → Memory
  pub tx_buffer_index : ℕ
  pub tx_done : Bool
  pub tx_status : ℕ → ℕ

unfoldable pub tx_ready : Transmitter → Bool
tx_ready t = bit (t.tx_status t.tx_buffer_index) 13

unfoldable pub handle_tx : Transmitter → Transmitter
handle_tx t = record t { tx_buffer_index = (t.tx_buffer_index + 1) % 4; tx_done = true }

-- `status & ~(1<<13)`
abbrev pub clear_13 : ℕ → ℕ
clear_13 status = if bit status 13 then status - 2 ^ 13 else status

-- a packet copied over what a buffer held
abbrev pub copied : Memory → Memory → ℕ → Memory
copied old packet size i = if ltb i size then packet i else old i

-- the buffer with the packet and its checksum; `size` is the padded size
abbrev pub frame : Memory → Memory → ℕ → ℕ → Memory
frame old packet size padded =
    let body = copied old packet size in
    store32 body padded (crc32iso_hdlc 0 body 0 padded % u32_mod)

-- `size < 64 - 4` is made 60
abbrev pub padded_size : ℕ → ℕ
padded_size size = if ltb size 60 then 60 else size

-- What a call leaves: whether it sent, the transmitter, and the bytes that the `memset` clears, as an
-- offset from the array of pointers `tx_buffer` inside the driver's object, with their number.
pub record Sent : Type 0 where
  pub ok : Bool
  pub transmitter : Transmitter
  pub cleared : Option (ℕ × ℕ)

-- the buffer and the status of the turn after a packet is handed to the card
unfoldable pub sent_by : Transmitter → Memory → ℕ → Sent
unfolding bit_or
sent_by t packet size =
    let i = t.tx_buffer_index in
    let padded = padded_size size in
    record {
      ok = true;
      transmitter = record t {
        tx_buffer = λ j. if j == i then frame (t.tx_buffer i) packet size padded else t.tx_buffer j;
        tx_status = λ j.
            if j == i
            then bit_or 32 (clear_13 (t.tx_status i)) (add64 padded 4 % 2 ^ 12)
            else t.tx_status j;
      };
      cleared = if ltb size 60 then some (8 * (i + size), 60 - size) else none;
    }

-- `tx_async` of the `size` bytes of `packet`, which stand at the physical address `phy`; `none` is the
-- failed assertion. The buffer's capacity is not checked.
unfoldable pub tx_async : Transmitter → Memory → ℕ → ℕ → Option Sent
unfolding tx_ready sent_by
tx_async t packet phy size =
    if not (tx_ready t)
    then some (record { ok = false; transmitter = t; cleared = none })
    else (do guard (ltb phy u32_mod); some (sent_by t packet size))

-- what the buffer holds after a packet of `size` bytes went into it
pub record IsFrame (old packet sent : Memory) (size padded : ℕ) : Type 0 where
  pub body : (i : ℕ) → i < size → sent i ≡ packet i
  pub pad : (i : ℕ) → size ≤ i → i < padded → sent i ≡ old i
  pub checksum : load32 sent padded ≡ crc32iso_hdlc 0 sent 0 padded

pub frame-IsFrame :
    (old packet : Memory) (size padded : ℕ)
    → size ≤ padded
    → ((i : ℕ) → old i < 256)
    → ((i : ℕ) → packet i < 256)
    → IsFrame old packet (frame old packet size padded) size padded
frame-IsFrame old packet size padded le old_bytes bytes =
    let b : Memory = copied old packet size in
    let crc : ℕ = crc32iso_hdlc 0 b 0 padded in
    let small : crc < 2 ^ 32 = crc32-lt b 0 padded (λ i. elim (Bool-cases (ltb i size)) [
      | inl inside ↦ rw inside (bytes i)
      | inr outside ↦ rw outside (old_bytes i)
    ]) in
    let word : crc % u32_mod ≡ crc = omega (arith, small) in
    record {
      body = λ i h. ground arith;
      pad = λ i lo hi. ground arith;
      checksum =
          load32-store32 b padded (crc % u32_mod) (omega arith)
          ∙ word
          ∙ crc32-same b (frame old packet size padded) 0 0 padded (λ i h. ground arith);
    }

not_ready : (status n : ℕ) → n < 2 ^ 12 → bit (bit_or 32 (clear_13 status) n) 13 ≡ false
not_ready status n small =
    let low : bit n 13 ≡ false = ground arith in
    let cleared : bit (clear_13 status) 13 ≡ false = ground arith in
    bit-bit_or 32 (clear_13 status) n 13 (omega arith) ∙ rw (low, cleared) refl

-- While the card is ready, `tx_async` of a packet at an address below 4 GiB sends: the buffer of the
-- turn holds the packet, and behind it, padded to 60 bytes, the right checksum; the card's status says
-- that it is not ready again. The padding is not cleared: it is what the buffer held before.
pub tx_async_lem :
    (t : Transmitter) (packet : Memory) (phy size : ℕ)
    → tx_ready t ≡ true
    → phy < u32_mod
    → ((j i : ℕ) → t.tx_buffer j i < 256)
    → ((i : ℕ) → packet i < 256)
    → (s : Sent) × (tx_async t packet phy size ≡ some s)
      × (s.ok ≡ true)
      × IsFrame
          (t.tx_buffer t.tx_buffer_index)
          packet
          (s.transmitter.tx_buffer t.tx_buffer_index)
          size
          (padded_size size)
      × (tx_ready s.transmitter ≡ false)
unfolding tx_async sent_by
tx_async_lem t packet phy size ready low old_bytes bytes =
    let i = t.tx_buffer_index in
    let below : ltb phy u32_mod ≡ true = ground arith in
    let same : (i == i) ≡ true = ==_of_eq {a = i} refl in
    (
      sent_by t packet size,
      rw (ready, below) refl,
      refl,
      rw same (
          frame-IsFrame (t.tx_buffer i) packet size (padded_size size) (ground arith) (old_bytes i)
            bytes),
      rw same (not_ready (t.tx_status i) (add64 (padded_size size) 4 % 2 ^ 12) (omega arith)),
    )
