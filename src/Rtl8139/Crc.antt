-- ===== src/Rtl8139/Crc.antt =====
-- device/rtl8139.cpp: `crc32iso_hdlc`, and words of bytes.
use modern.Base.{
  ℕ, zero, suc, ◌+◌, ◌*◌, ◌/◌, ◌%◌, ◌^◌, ◌<◌, ◌≡◌, inl, inr, ◌==◌, if◌then◌else◌, refl, arith, ap,
  ◌∙◌, Bool-cases,
}
use modern.Base.Bytes.{u32_mod}
use modern.Memory.{Memory, store}
use modern.Bits.{bit_xor, bit_xor-lt}

-- a 64-bit `^`
abbrev xor64 : ℕ → ℕ → ℕ
xor64 = bit_xor 64

-- the rounds over the bits of a byte, `k` of them left
unfoldable pub crc_bits : ℕ → ℕ → ℕ
unfolding bit_xor
crc_bits zero crc = crc
crc_bits (suc k) crc = crc_bits k (if crc % 2 == 1 then xor64 (crc / 2) 0xedb8_8320 else crc / 2)

-- the rounds over the bytes from `mem data` on, `len` of them left
unfoldable pub crc_bytes : ℕ → Memory → ℕ → ℕ → ℕ
unfolding crc_bits
crc_bytes crc mem addr zero = crc
crc_bytes crc mem addr (suc len) = crc_bytes (crc_bits 8 (xor64 crc (mem addr))) mem (addr + 1) len

-- `crc32iso_hdlc` of memory that is there
unfoldable pub crc32iso_hdlc : ℕ → Memory → ℕ → ℕ → ℕ
unfolding crc_bytes
crc32iso_hdlc crc mem addr len = xor64 (crc_bytes (xor64 crc 0xffff_ffff) mem addr len) 0xffff_ffff

-- `*(u32*)p`: four bytes, the lowest first
abbrev pub load32 : Memory → ℕ → ℕ
load32 mem a = mem a + 2 ^ 8 * mem (a + 1) + 2 ^ 16 * mem (a + 2) + 2 ^ 24 * mem (a + 3)

abbrev pub store32 : Memory → ℕ → ℕ → Memory
store32 mem a v =
    store
      (store (store (store mem a (v % 2 ^ 8)) (a + 1) (v / 2 ^ 8 % 2 ^ 8)) (a + 2)
        (v / 2 ^ 16 % 2 ^ 8))
      (a + 3) (v / 2 ^ 24 % 2 ^ 8)

pub load32-store32 : (mem : Memory) (a v : ℕ) → v < u32_mod → load32 (store32 mem a v) a ≡ v
load32-store32 mem a v h = ground arith

crc_bits-lt : (k crc : ℕ) → crc < 2 ^ 32 → crc_bits k crc < 2 ^ 32
unfolding crc_bits
crc_bits-lt zero crc h = h
crc_bits-lt (suc k) crc h = elim (Bool-cases (crc % 2 == 1)) [
  | inl odd ↦ rw odd (
      crc_bits-lt k (bit_xor 64 (crc / 2) 0xedb8_8320)
        (bit_xor-lt 64 32 (crc / 2) 0xedb8_8320 (omega arith) (omega arith)))
  | inr even ↦ rw even (crc_bits-lt k (crc / 2) (omega arith))
]

crc_bytes-lt :
    (crc : ℕ) (mem : Memory) (a n : ℕ)
    → crc < 2 ^ 32
    → ((i : ℕ) → mem i < 256)
    → crc_bytes crc mem a n < 2 ^ 32
unfolding crc_bytes
crc_bytes-lt crc mem a zero h bytes = h
crc_bytes-lt crc mem a (suc n) h bytes =
    crc_bytes-lt (crc_bits 8 (bit_xor 64 crc (mem a))) mem (a + 1) n
      (crc_bits-lt 8 (bit_xor 64 crc (mem a))
        (bit_xor-lt 64 32 crc (mem a) h (omega (arith, bytes a))))
      bytes

-- The checksum of bytes is a word of 32 bits, although it is computed on 64.
pub crc32-lt : (mem : Memory) (a n : ℕ) → ((i : ℕ) → mem i < 256) → crc32iso_hdlc 0 mem a n < 2 ^ 32
unfolding crc32iso_hdlc
crc32-lt mem a n bytes =
    bit_xor-lt 64 32 (crc_bytes (bit_xor 64 0 0xffff_ffff) mem a n) 0xffff_ffff
      (crc_bytes-lt (bit_xor 64 0 0xffff_ffff) mem a n
        (bit_xor-lt 64 32 0 0xffff_ffff (omega arith) (omega arith)) bytes)
      (omega arith)

crc_bytes-same :
    (crc : ℕ) (mem mem' : Memory) (a b n : ℕ)
    → ((i : ℕ) → i < n → mem (a + i) ≡ mem' (b + i))
    → crc_bytes crc mem a n ≡ crc_bytes crc mem' b n
unfolding crc_bytes
crc_bytes-same crc mem mem' a b zero same = refl
crc_bytes-same crc mem mem' a b (suc n) same =
    let first : mem a ≡ mem' b =
      ap mem {y = a + 0} (omega arith) ∙ same 0 (omega arith) ∙ ap mem' (omega arith) in
    rw first (
      crc_bytes-same (crc_bits 8 (bit_xor 64 crc (mem' b))) mem mem' (a + 1) (b + 1) n (λ i h.
        ap mem {y = a + suc i} (omega arith) ∙ same (suc i) (omega arith) ∙ ap mem' (omega arith)))

-- The checksum is that of the bytes alone, wherever they stand.
pub crc32-same :
    (mem mem' : Memory) (a b n : ℕ)
    → ((i : ℕ) → i < n → mem (a + i) ≡ mem' (b + i))
    → crc32iso_hdlc 0 mem a n ≡ crc32iso_hdlc 0 mem' b n
unfolding crc32iso_hdlc
crc32-same mem mem' a b n same =
    ap (λ c. bit_xor 64 c 0xffff_ffff)
      (crc_bytes-same (bit_xor 64 0 0xffff_ffff) mem mem' a b n same)
