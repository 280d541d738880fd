-- ===== src/Loader/Mapped.antt =====
-- boot_loader.c and boot_page_table.c together: where the loaded kernel is when the loader jumps.
use modern.Base.{ℕ, ◌+◌, ◌*◌, ◌-◌, ◌<◌, ◌≡◌, ◌^◌, some, arith, ◌∙◌}
use modern.Pages.{kernel_start}
use modern.Mm.Image.{Entry, kernel_image_pages}
use modern.Mm.Walk.{Frames, walk}
use modern.Mm.Boot.{setup_kernel_image_page_table, place_boot, setup_kernel_image_page_table_walk}
use modern.Loader.{Elf64Phdr}
use modern.Loader.Placed.{IsFitting, target_of}

-- Byte `k` of a segment that fits in the 64 MiB of `efi_main` is, under the boot loader's page
-- table, at the virtual address that the segment is linked at.
pub load_kernel-walk :
    (r s size : ℕ) (firmware : Entry) (mem : Frames) (ph : Elf64Phdr) (k : ℕ)
    → r + 2051 < 2 ^ 40
    → s + kernel_image_pages < 2 ^ 40
    → IsFitting (kernel_image_pages * 4096) size ph
    → k < ph.p_memsz
    → walk
        (place_boot (setup_kernel_image_page_table (4096 * r) firmware (4096 * s)) r mem)
        r
        (ph.p_vaddr + k)
      ≡ some (target_of (4096 * s) ph + k)
load_kernel-walk r s size firmware mem ph k fits image_fits fit inside =
    let v = ph.p_vaddr - kernel_start + k in
    let below : v < kernel_image_pages * 4096 = omega (arith, fit.room) in
    let at : ph.p_vaddr + k ≡ kernel_start + v = omega (arith, fit.above) in
    rw at (
      setup_kernel_image_page_table_walk r s firmware mem v fits image_fits (omega arith)
      ∙ ground (arith, below))
