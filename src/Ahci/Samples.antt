-- ===== src/Ahci/Samples.antt =====
-- A device that answers every read, for the tests.
use modern.Base.{ℕ, ◌+◌, ◌*◌, ◌≡◌, true, ◌-◌, if◌then◌else◌, refl, arith}
use modern.Base.Bytes.{add64, u32_mod}
use modern.Memory.Copy.{in_range}
use modern.Pages.{kernel2phy, kernel_start}
use modern.Ahci.Read.{SectorReader, Reads}
use modern.Ahci.Bytes.{Succeeds}

-- a device that copies the sectors
abbrev pub copying : (ℕ → ℕ) → SectorReader
copying disk startl starth count buf mem =
    let virt = add64 buf kernel_start in
    (
      true,
      λ a.
          if in_range virt (count * 512) a
          then disk ((startl + u32_mod * starth) * 512 + (a - virt))
          else mem a,
    )

pub copying-Reads : (disk : ℕ → ℕ) → Reads (copying disk) disk
copying-Reads disk startl starth count buf mem i few high ok h =
    let virt : add64 (kernel2phy buf) kernel_start ≡ buf = omega (arith, high) in
    rw virt (ground arith)

pub copying-Succeeds : (disk : ℕ → ℕ) → Succeeds (copying disk)
copying-Succeeds disk startl starth count buf mem = refl
