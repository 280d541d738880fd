-- ===== src/Ahci/Read.antt =====
-- device/ahci.cpp: `read` of sectors through a port, and `AHCIDevice::Read` of bytes.
use modern.Base.{
  ℕ, zero, suc, ◌+◌, ◌-◌, ◌*◌, ◌/◌, ◌%◌, ◌≤◌, ◌<◌, ◌≡◌, ◌⊎◌, inl, inr, Bool, true, false, not,
  Option, none, some, ◌||◌, ◌>>=◌, ltb, ◌&&◌, if◌then◌else◌, arith, ap, sym, ◌∙◌,
}
use modern.Base.Bytes.{add64, sub64, u32_mod, u64_mod}
use modern.Memory.{Memory, memcpy}
use modern.Memory.Copy.{moved, memcpy_lem}
use modern.Pages.{PageSource, kmalloc, kernel2phy}
use modern.Bits.{bit}
use modern.Mm.Walk.{identity_map_phy_end}
use modern.Ahci.Slots.{find_cmdslot}
use modern.Ahci.Command.{Command, read_command}

-- The registers of the port during one read: `sact` and `ci` before it, then the values that the
-- device shows the loops, by the number of the round, and `is` at the last look. The addresses are
-- those of the list of commands, `clb` and `clbu`, and by slot that of the command's table, `ctba`
-- and `ctbau`.
pub record PortReads : Type 0 where
  pub cmdheader_phy : ℕ
  pub cmdtbl_phy : ℕ → ℕ
  pub sact : ℕ
  pub ci : ℕ
  pub tfd : ℕ → ℕ
  pub ci_issued : ℕ → ℕ
  pub is_issued : ℕ → ℕ
  pub is_last : ℕ

-- `tfd & (ATA_DEV_BUSY | ATA_DEV_DRQ)`
abbrev pub is_busy : ℕ → Bool
is_busy tfd = bit tfd 7 || bit tfd 3

-- The wait before the command, from round `spin` on, `n` rounds left: whether the device got ready.
unfoldable pub wait_ready : ℕ → (ℕ → ℕ) → ℕ → Bool
wait_ready zero tfd spin = false
wait_ready (suc n) tfd spin =
    let rest = wait_ready n tfd (spin + 1) in if is_busy (tfd spin) then rest else true

-- The wait for completion from round `i` on: false on a task file error. It has no end of its own, so
-- it is on fuel, and `none` where the fuel ran out.
unfoldable pub wait_done : ℕ → PortReads → ℕ → ℕ → Option Bool
wait_done zero port slot i = none
wait_done (suc fuel) port slot i =
    let rest = wait_done fuel port slot (i + 1) in
    if not (bit (port.ci_issued i) slot)
    then some (not (bit port.is_last 30))
    else if bit (port.is_issued i) 30
    then some false
    else rest

-- The assertions on the addresses of the list and of the slot's table, that of `phy2virt` included
unfoldable pub is_mapped : PortReads → ℕ → Bool
is_mapped port slot =
    ltb port.cmdheader_phy identity_map_phy_end && ltb (port.cmdtbl_phy slot) identity_map_phy_end

-- The command is issued if the addresses are mapped and the device got ready.
unfoldable pub issue :
    Bool → Bool → Option Bool → ℕ → Command → Option (Bool × Option (ℕ × Command))
issue mapped ready done slot command =
    let issued = (do ok ← done; some (ok, some (slot, command))) in
    if mapped then if ready then issued else some (false, none) else none

-- `read`: whether it succeeded, with the slot and the command that were issued, if any. `none` is the
-- failed assertion on an address, or where the fuel ran out.
unfoldable pub read : ℕ → PortReads → ℕ → ℕ → ℕ → ℕ → Option (Bool × Option (ℕ × Command))
unfolding find_cmdslot read_command wait_ready wait_done is_mapped issue
read fuel port startl starth count buf_phy_addr = elim (find_cmdslot port.sact port.ci) [
  | none ↦ some (false, none)
  | some slot ↦
      let command = read_command startl starth count buf_phy_addr in
      issue (is_mapped port slot) (wait_ready 1000000 port.tfd 0) (wait_done fuel port slot 0) slot
        command
]

-- What `AHCIDevice::Read` computes before it reads.
pub record SectorRange : Type 0 where
  pub sector_start : ℕ
  pub sector_count : ℕ
  pub start_offset : ℕ

abbrev pub sector_size : ℕ
sector_size = 512

abbrev pub align_left : ℕ → ℕ → ℕ
align_left value alignment = value / alignment * alignment

-- `value + alignment - 1` wraps.
abbrev pub align_right : ℕ → ℕ → ℕ
align_right value alignment = add64 value (alignment - 1) / alignment * alignment

unfoldable pub sector_range : ℕ → ℕ → SectorRange
sector_range start size =
    let left = align_left start sector_size in
    let right = align_right (add64 start size) sector_size in
    record {
      sector_start = left / sector_size;
      sector_count = sub64 (right / sector_size) (left / sector_size);
      start_offset = sub64 start left;
    }

-- A reader of sectors: the two halves of the first sector's number, the count, the buffer's physical
-- address, and the memory before and after, by virtual address.
abbrev pub SectorReader : Type 0
SectorReader = ℕ → ℕ → ℕ → ℕ → Memory → Bool × Memory

module _ (src : PageSource) (reader : SectorReader) where
  open src use {State}

  -- `AHCIDevice::Read`: success, and the memory. The buffer is not freed.
  unfoldable pub device_read : ℕ → ℕ → ℕ → Memory → State → Option (Bool × Memory × State)
  unfolding sector_range
  device_read output start size mem s = do
    let range = sector_range start size
    let starth = range.sector_start / u32_mod % u32_mod
    let startl = range.sector_start % u32_mod
    (buf, s) ← kmalloc src size s
    let (ok, mem') = reader startl starth (range.sector_count % u32_mod) (kernel2phy buf) mem
    some (ok, memcpy mem' output (add64 buf range.start_offset) size, s)

-- The sectors of a range of bytes that does not wrap: the first one holds the first byte, the last one
-- the last, and the offset leads from the one to the other.
pub sector_range_lem :
    (start size : ℕ)
    → 0 < size
    → start + size + 511 < u64_mod
    → let r = sector_range start size in
      (r.sector_start * 512 + r.start_offset ≡ start)
      × (r.start_offset < 512)
      × (r.start_offset + size ≤ r.sector_count * 512)
      × (r.sector_count * 512 < r.start_offset + size + 512)
unfolding sector_range
sector_range_lem start size pos room = (omega arith, omega arith, omega arith, omega arith)

-- What `device_read` relies on, for up to 16 sectors: a read that succeeds leaves the bytes of the
-- disk in the buffer.
abbrev pub Reads : SectorReader → (ℕ → ℕ) → Type 0
Reads reader disk =
    (startl starth count buf : ℕ) (mem : Memory) (i : ℕ)
    → count ≤ 16
    → buf + 8192 < u64_mod
    → (reader startl starth count (kernel2phy buf) mem).0 ≡ true
    → i < count * 512
    → (reader startl starth count (kernel2phy buf) mem).1 (buf + i)
      ≡ disk ((startl + u32_mod * starth) * 512 + i)

moved_at :
    (mem : Memory) (dst from n i : ℕ) → i < n → moved mem dst from n (dst + i) ≡ mem (from + i)
moved_at mem dst from n i h = ground arith

-- the reader's answer for the sectors from the one of byte `start` to the one of the last byte, into
-- the buffer at `buf`
abbrev pub answer_for : SectorReader → ℕ → ℕ → ℕ → Memory → Bool
answer_for reader start size buf mem =
    (reader (start / 512 % u32_mod) (start / 512 / u32_mod) ((start % 512 + size + 511) / 512)
      (kernel2phy buf) mem).0

same_call :
    (reader : SectorReader) (buf : ℕ) (mem : Memory) {a a' b b' c c' : ℕ}
    → a ≡ a'
    → b ≡ b'
    → c ≡ c'
    → (reader a b c (kernel2phy buf) mem).0 ≡ (reader a' b' c' (kernel2phy buf) mem).0
same_call reader buf mem {a} {a'} {b} {b'} {c} ea eb ec =
    ap (λ x. (reader x b c (kernel2phy buf) mem).0) ea
    ∙ ap (λ x. (reader a' x c (kernel2phy buf) mem).0) eb
    ∙ ap (λ x. (reader a' b' x (kernel2phy buf) mem).0) ec

-- A read of bytes whose sectors are at most 16, into a target that does not overlap the buffer, with a
-- reader that is right for up to 16 sectors: it returns the reader's answer for exactly the sectors
-- that hold a byte of the range, and after a success byte `i` of the target is byte `start + i` of
-- the disk.
pub device_read_lem :
    (src : PageSource) (reader : SectorReader) (disk : ℕ → ℕ) (output start size buf i : ℕ)
    (mem : Memory) (s s' : src.State)
    → Reads reader disk
    → kmalloc src size s ≡ some (buf, s')
    → 0 < size
    → start % 512 + size ≤ 8192
    → start + size + 511 < u64_mod
    → buf + 8192 < u64_mod
    → (output ≤ buf) ⊎ (buf + 8192 ≤ output)
    → i < size
    → (mem' : Memory) × (device_read src reader output start size mem s
        ≡ some (answer_for reader start size buf mem, mem', s'))
      × (answer_for reader start size buf mem ≡ true → mem' (output + i) ≡ disk (start + i))
unfolding device_read
device_read_lem src reader disk output start size buf i mem s s' right got pos few room high apart
      h =
    let r = sector_range start size in
    let (at, off, fits, tight) = sector_range_lem start size pos room in
    let startl : ℕ = r.sector_start % u32_mod in
    let starth : ℕ = r.sector_start / u32_mod % u32_mod in
    let count : ℕ = r.sector_count % u32_mod in
    let low : r.start_offset ≡ start % 512 = omega (arith, at, off) in
    let out = reader startl starth count (kernel2phy buf) mem in
    let source : add64 buf r.start_offset ≡ buf + r.start_offset = omega (arith, off, high) in
    let low_half : start / 512 % u32_mod ≡ startl = omega (arith, at, off) in
    let high_half : start / 512 / u32_mod ≡ starth = omega (arith, at, off, room) in
    let sectors : (start % 512 + size + 511) / 512 ≡ count = omega (arith, low, fits, tight, few) in
    let same : answer_for reader start size buf mem ≡ out.0 =
      same_call reader buf mem low_half high_half sectors in
    (
      memcpy out.1 output (add64 buf r.start_offset) size,
      rw got (
          ap (λ ok. some (ok, memcpy out.1 output (add64 buf r.start_offset) size, s')) (sym same)),
      λ answered.
          let ok : out.0 ≡ true = sym same ∙ answered in
          rw source (
            memcpy_lem out.1 output (buf + r.start_offset) size (output + i) (elim apart [
              | inl before ↦ inl (omega (arith, before))
              | inr after ↦ inr (omega (arith, after, few, low))
            ])
            ∙ moved_at out.1 output (buf + r.start_offset) size i h
            ∙ ap out.1 {y = buf + (r.start_offset + i)} (omega arith)
            ∙ right startl starth count buf mem (r.start_offset + i)
                (omega (arith, fits, tight, few, low)) high ok
                (omega (arith, fits, tight, few, low, h))
            ∙ ap disk (omega (arith, at, off, room))),
    )
