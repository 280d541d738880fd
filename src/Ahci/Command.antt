-- ===== src/Ahci/Command.antt =====
-- device/ahci.cpp: the command that `read` builds, and what it tells the device to do.
use modern.Base.{
  ℕ, zero, suc, ◌+◌, ◌-◌, ◌*◌, ◌/◌, ◌%◌, ◌^◌, ◌≤◌, ◌<◌, ◌≡◌, List, [], ◌∷◌, length, refl, arith,
}
use modern.Base.Bytes.{add64, u32_mod, u16_mod, u64_mod}

-- `HBA_PRDT_ENTRY`: a region of the target, its length less 1 in 22 bits
pub record PrdtEntry : Type 0 where
  pub dba : ℕ
  pub dbau : ℕ
  pub dbc : ℕ
  pub i : ℕ

-- `FIS_REG_H2D`: the fields that the command sets, the others are 0
pub record FisRegH2d : Type 0 where
  pub fis_type : ℕ
  pub c : ℕ
  pub command : ℕ
  pub lba0 : ℕ
  pub lba1 : ℕ
  pub lba2 : ℕ
  pub device : ℕ
  pub lba3 : ℕ
  pub lba4 : ℕ
  pub lba5 : ℕ
  pub countl : ℕ
  pub counth : ℕ

-- what `read` writes into the command header of the slot and into its table
pub record Command : Type 0 where
  pub cfl : ℕ
  pub w : ℕ
  pub prdtl : ℕ
  pub prdt_entry : List PrdtEntry
  pub fis : FisRegH2d

abbrev pub fis_type_reg_h2d : ℕ
fis_type_reg_h2d = 0x27

abbrev pub ata_cmd_read_dma_ex : ℕ
ata_cmd_read_dma_ex = 0x25

-- `(u16)((count-1)>>4) + 1`
unfoldable pub prdt_length : ℕ → ℕ
prdt_length count = ((count + (u32_mod - 1)) % u32_mod / 16 % u16_mod + 1) % u16_mod

abbrev pub region : ℕ → ℕ → PrdtEntry
region addr dbc = record { dba = addr % u32_mod; dbau = addr / u32_mod; dbc = dbc % 2 ^ 22; i = 1 }

-- The rounds of the loop, `n` of them left, and the last entry; `count` goes down by 16 in each. The
-- other part is what `count` holds in the end.
unfoldable pub prdt_entries : ℕ → ℕ → ℕ → List PrdtEntry × ℕ
prdt_entries zero buf_phy_addr count =
    (region buf_phy_addr ((count * 512 % u32_mod + (u32_mod - 1)) % u32_mod) ∷ [], count)
prdt_entries (suc n) buf_phy_addr count =
    let (entries, left) =
      prdt_entries n (add64 buf_phy_addr 8192) ((count + (u32_mod - 16)) % u32_mod) in
    (region buf_phy_addr 8191 ∷ entries, left)

unfoldable pub read_fis : ℕ → ℕ → ℕ → FisRegH2d
read_fis startl starth count = record {
  fis_type = fis_type_reg_h2d;
  c = 1;
  command = ata_cmd_read_dma_ex;
  lba0 = startl % 256;
  lba1 = startl / 2 ^ 8 % 256;
  lba2 = startl / 2 ^ 16 % 256;
  device = 64;
  lba3 = startl / 2 ^ 24 % 256;
  lba4 = starth % 256;
  lba5 = starth / 2 ^ 8 % 256;
  countl = count % 256;
  counth = count / 2 ^ 8 % 256;
}

-- The command of `read`: the count in the FIS is the variable that the loop has counted down.
unfoldable pub read_command : ℕ → ℕ → ℕ → ℕ → Command
unfolding prdt_length prdt_entries read_fis
read_command startl starth count buf_phy_addr =
    let (entries, left) = prdt_entries (prdt_length count - 1) buf_phy_addr count in
    record {
      cfl = 5;
      w = 0;
      prdtl = prdt_length count;
      prdt_entry = entries;
      fis = read_fis startl starth left;
    }

-- The regions lie one behind the other from `addr` on, `n` bytes in all.
abbrev pub Covers : ℕ → ℕ → List PrdtEntry → Type 0
Covers addr n [] = n ≡ 0
Covers addr n (e ∷ es) =
    (e.dba + e.dbau * 2 ^ 32 ≡ addr)
    × (e.dbc + 1 ≤ n)
    × Covers (addr + (e.dbc + 1)) (n - (e.dbc + 1)) es

-- the sectors that the FIS asks for, where 0 stands for all 65536
abbrev pub sectors : FisRegH2d → ℕ
sectors f = f.countl + 256 * f.counth

-- the number of the first one
abbrev pub lba : FisRegH2d → ℕ
lba f =
    f.lba0 + 2 ^ 8 * f.lba1 + 2 ^ 16 * f.lba2 + 2 ^ 24 * f.lba3 + 2 ^ 32 * f.lba4 + 2 ^ 40 * f.lba5

prdt_entries-Covers :
    (n addr count : ℕ)
    → n * 16 < count
    → count ≤ n * 16 + 16
    → count < 2 ^ 23
    → addr + count * 512 < u64_mod
    → Covers addr (count * 512) (prdt_entries n addr count).0
unfolding prdt_entries
prdt_entries-Covers zero addr count lo hi small room = (omega arith, omega arith, omega arith)
prdt_entries-Covers (suc n) addr count lo hi small room =
    let next : add64 addr 8192 ≡ addr + 8192 = omega arith in
    let fewer : (count + (u32_mod - 16)) % u32_mod ≡ count - 16 = omega arith in
    let size : count * 512 - 8192 ≡ (count - 16) * 512 = omega arith in
    (
      omega arith,
      omega arith,
      rw (next, fewer, size)
          (prdt_entries-Covers n (addr + 8192) (count - 16) (omega arith) (omega arith)
            (omega arith) (omega arith)),
    )

prdt_entries-left :
    (n addr count : ℕ)
    → n * 16 < count
    → count < 2 ^ 23
    → ((prdt_entries n addr count).1 ≡ count - n * 16)
      × (length (prdt_entries n addr count).0 ≡ n + 1)
unfolding prdt_entries
prdt_entries-left zero addr count lo small = (omega arith, refl)
prdt_entries-left (suc n) addr count lo small =
    let fewer : (count + (u32_mod - 16)) % u32_mod ≡ count - 16 = omega arith in
    let (left, size) =
      prdt_entries-left n (add64 addr 8192) (count - 16) (omega arith) (omega arith) in
    rw fewer (omega (arith, left), omega (arith, size))

-- The region table of a read of `count` sectors, 0 < count ≤ 65536, covers exactly the count * 512
-- bytes from the buffer's address on, without a gap, in as many entries as the header says.
pub read_command-Covers :
    (startl starth count buf_phy_addr : ℕ)
    → 0 < count
    → count ≤ 65536
    → buf_phy_addr + count * 512 < u64_mod
    → Covers buf_phy_addr (count * 512) (read_command startl starth count buf_phy_addr).prdt_entry
      × (length (read_command startl starth count buf_phy_addr).prdt_entry
          ≡ (read_command startl starth count buf_phy_addr).prdtl)
unfolding read_command prdt_length
read_command-Covers startl starth count addr pos small room =
    let n : ℕ = prdt_length count - 1 in
    (
      prdt_entries-Covers n addr count (omega arith) (omega arith) (omega arith) room,
      omega (arith, (prdt_entries-left n addr count (omega arith) (omega arith)).1),
    )

-- The FIS of a read of `count` sectors, 0 < count ≤ 65536, names the first one in 48 bits, but asks
-- for (count - 1) % 16 + 1 sectors, those of the last region: from 17 on fewer than `count`.
pub read_command-count :
    (startl starth count buf_phy_addr : ℕ)
    → 0 < count
    → count ≤ 65536
    → startl < u32_mod
    → let f = (read_command startl starth count buf_phy_addr).fis in
      (sectors f ≡ (count + 15) % 16 + 1) × (lba f ≡ startl + 2 ^ 32 * (starth % u16_mod))
unfolding read_command prdt_length read_fis
read_command-count startl starth count addr pos small word =
    let n : ℕ = prdt_length count - 1 in
    let left = (prdt_entries-left n addr count (omega arith) (omega arith)).0 in
    (omega (arith, left), omega arith)
