-- ===== src/Mm/Boot.antt =====
-- boot_page_table.c: `setup_kernel_image_page_table`, the table that the boot loader jumps with, and
-- how it agrees with the kernel's own.
use modern.Base.{
  ℕ, ◌+◌, ◌-◌, ◌*◌, ◌/◌, ◌%◌, ◌^◌, ◌<◌, ◌≡◌, ◌&&◌, arith, refl, ltb, leb, ◌==◌, if◌then◌else◌, some,
  none, ap, ◌∙◌, dec_lt, sym,
}
use modern.Pages.{kernel_start}
use modern.Mm.Image.{
  Entry, Table, zeroed, KernelImagePageTable, set_frame, for_entries, for_entries-in,
  for_entries-out, kernel_space_pages, kernel_image_pages, zeroed_image,
}
use modern.Mm.Walk.{Frames, next, walk, kernel_indices, image_frame, place, built, root_of}
use modern.Mm.Kernel.{setup_page_table_walk}

-- The boot loader's table has one table of `pdt` where the kernel's has four. The firmware maps
-- the boot loader to its physical addresses.
unfoldable pub boot_pdt_body : ℕ → ℕ → Entry → Entry
boot_pdt_body t_addr i e = set_frame ((t_addr + (3 * 4096 + 8 * (512 * i))) / 2 ^ 12) e

unfoldable pub boot_identity_entry : ℕ → Entry → Entry
boot_identity_entry i e = set_frame i e

unfoldable pub boot_image_entry : ℕ → ℕ → Entry → Entry
boot_image_entry kernel_phy_start i e = set_frame (kernel_phy_start / 4096 + i) e

-- `firmware` is the first entry of the table that cr3 names.
unfoldable pub setup_kernel_image_page_table : ℕ → Entry → ℕ → KernelImagePageTable
setup_kernel_image_page_table t_addr firmware kernel_phy_start = record {
  pml4t = λ j.
      if j == 0
      then firmware
      else if j == 256
      then set_frame ((t_addr + 4096) / 2 ^ 12) (zeroed_image.pml4t j)
      else zeroed_image.pml4t j;
  pdpt = λ j.
      if j == 0
      then set_frame ((t_addr + 2 * 4096) / 2 ^ 12) (zeroed_image.pdpt j)
      else zeroed_image.pdpt j;
  pdt = for_entries (boot_pdt_body t_addr) 0 512 zeroed_image.pdt;
  pt =
      for_entries (boot_image_entry kernel_phy_start) 0 kernel_image_pages
        (for_entries boot_identity_entry 0 kernel_space_pages zeroed_image.pt);
}

-- the bytes of the boot loader's `t` from frame `b` on, where `mem` is everything else
unfoldable pub place_boot : KernelImagePageTable → ℕ → Frames → Frames
place_boot t b mem f i =
    if f == b
    then t.pml4t i
    else if f == b + 1
    then t.pdpt i
    else if f == b + 2
    then t.pdt i
    else if leb (b + 3) f && ltb f (b + 2051)
    then t.pt (512 * (f - (b + 3)) + i)
    else mem f i

next-boot_frame :
    (r off k : ℕ) (e : Entry)
    → off ≡ 4096 * k
    → r + k < 2 ^ 40
    → next (set_frame ((4096 * r + off) / 2 ^ 12) e) ≡ some (r + k)
unfolding next set_frame
next-boot_frame r off k e at_k below = ap some (omega arith)

module _ (r s : ℕ) (firmware : Entry) (mem : Frames) where
  abbrev t : KernelImagePageTable
  t = setup_kernel_image_page_table (4096 * r) firmware (4096 * s)

  abbrev memory : Frames
  memory = place_boot t r mem

  boot_pml4t : r + 2051 < 2 ^ 40 → next (memory r 256) ≡ some (r + 1)
  unfolding place_boot setup_kernel_image_page_table
  boot_pml4t fits = (ap next (ground arith) ∙ next-boot_frame r 4096 1 zeroed refl (omega arith))

  boot_pdpt : r + 2051 < 2 ^ 40 → next (memory (r + 1) 0) ≡ some (r + 2)
  unfolding place_boot setup_kernel_image_page_table
  boot_pdpt fits =
      (ap next (ground arith) ∙ next-boot_frame r (2 * 4096) 2 zeroed refl (omega arith))

  boot_pdpt-above : (j : ℕ) → 0 < j → next (memory (r + 1) j) ≡ none
  unfolding place_boot setup_kernel_image_page_table next
  boot_pdpt-above j above = ground arith

  boot_pdt : (j : ℕ) → r + 2051 < 2 ^ 40 → j < 512 → next (memory (r + 2) j) ≡ some (r + (3 + j))
  unfolding place_boot setup_kernel_image_page_table boot_pdt_body
  boot_pdt j fits below =
      ap next (ground arith ∙ for_entries-in (boot_pdt_body (4096 * r)) 512 (λ _. zeroed) j below)
      ∙ next-boot_frame r (3 * 4096 + 8 * (512 * j)) (3 + j) zeroed (omega arith) (omega arith)

  place_boot-pt : (j i : ℕ) → j < 2048 → memory (r + (3 + j)) i ≡ t.pt (512 * j + i)
  unfolding place_boot
  place_boot-pt j i below = ground arith

  boot_image_lem :
      (i : ℕ) (e : Entry) → s + i < 2 ^ 40 → next (boot_image_entry (4096 * s) i e) ≡ some (s + i)
  unfolding boot_image_entry set_frame next
  boot_image_lem i e fits = ap some (omega arith)

  boot_identity_lem : (i : ℕ) (e : Entry) → i < 2 ^ 40 → next (boot_identity_entry i e) ≡ some i
  unfolding boot_identity_entry set_frame next
  boot_identity_lem i e fits = ap some (omega arith)

  abbrev identity_pt : Table
  identity_pt = for_entries boot_identity_entry 0 kernel_space_pages (λ _. zeroed)

  boot_pt :
      (i : ℕ)
      → s + kernel_image_pages < 2 ^ 40
      → i < kernel_space_pages
      → next (t.pt i) ≡ some (image_frame s i)
  unfolding setup_kernel_image_page_table
  boot_pt i fits below = elim (dec_lt i kernel_image_pages) [
    | yes inside ↦
        ap next
          (for_entries-in (boot_image_entry (4096 * s)) kernel_image_pages identity_pt i inside)
        ∙ boot_image_lem i (identity_pt i) (omega arith)
        ∙ ap some (ground arith)
    | no outside ↦
        ap next (
          for_entries-out (boot_image_entry (4096 * s)) kernel_image_pages identity_pt i
            (omega arith))
        ∙ ap next (for_entries-in boot_identity_entry kernel_space_pages (λ _. zeroed) i below)
        ∙ boot_identity_lem i zeroed (omega arith)
        ∙ ap some (ground arith)
  ]

  -- The boot loader's table maps the first GiB of the kernel's half, the first 64 MiB of it to the
  -- kernel's image and the rest to the same physical address, and nothing of the 511 GiB above.
  pub setup_kernel_image_page_table_walk :
      (v : ℕ)
      → r + 2051 < 2 ^ 40
      → s + kernel_image_pages < 2 ^ 40
      → v < 2 ^ 39
      → walk memory r (kernel_start + v) ≡ (
          if ltb v (2 ^ 30)
          then some (if ltb v (kernel_image_pages * 4096) then 4096 * s + v else v)
          else none)
  unfolding walk
  setup_kernel_image_page_table_walk v fits image_fits below =
      let (at_39, at_30, at_21, at_12, offset) = kernel_indices v below in
      rw (at_39, at_30, at_21, at_12, offset, boot_pml4t fits)
        (elim (dec_lt v (2 ^ 30)) [
          | yes inside ↦
              let first : v / 2 ^ 30 ≡ 0 = omega arith in
              rw
                (
                  first,
                  boot_pdpt fits,
                  boot_pdt (v / 2 ^ 21 % 512) fits (omega arith),
                  place_boot-pt (v / 2 ^ 21 % 512) (v / 2 ^ 12 % 512) (omega arith),
                  boot_pt (512 * (v / 2 ^ 21 % 512) + v / 2 ^ 12 % 512) image_fits (omega arith),
                )
                (ground arith)
          | no outside ↦ rw (boot_pdpt-above (v / 2 ^ 30) (omega arith)) (ground arith)
        ])

  -- The kernel's own table maps every address of the first GiB the way the boot loader's does, so
  -- the code that loads it goes on where it is.
  pub setup_page_table_in_kernel_space-boot :
      (q : ℕ) (other : Frames) (v : ℕ)
      → r + 2051 < 2 ^ 40
      → s + q + 2054 < 2 ^ 40
      → s + kernel_image_pages < 2 ^ 40
      → v < 2 ^ 30
      → walk (place (built q s) (s + q) other) (root_of q s) (kernel_start + v)
        ≡ walk memory r (kernel_start + v)
  setup_page_table_in_kernel_space-boot q other v fits fits_new image_fits below =
      setup_page_table_walk q s other v fits_new image_fits (omega arith)
      ∙ sym (setup_kernel_image_page_table_walk v fits image_fits (omega arith) ∙ ground arith)
