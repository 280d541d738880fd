-- ===== src/Mm/Kernel.antt =====
-- mm/mm.cpp: what an address of the kernel's half is mapped to under the page table that
-- `setup_page_table_in_kernel_space` builds.
use modern.Base.{
  ℕ, ◌+◌, ◌-◌, ◌*◌, ◌/◌, ◌%◌, ◌^◌, ◌<◌, ◌≤◌, ◌≡◌, arith, refl, ltb, true, if◌then◌else◌, some,
  ◌>>=◌, ap, ◌∙◌, dec_lt,
}
use modern.Pages.{kernel_start}
use modern.Mm.Image.{
  Entry, Table, zeroed, KernelImagePageTable, set_frame, for_entries, for_entries-in,
  for_entries-out, pdpt_bytes, pdt_bytes, pt_bytes, identity_entry, pdpt_body, pdt_body,
  image_entry, setup_page_table_in_kernel_space, new_cr3, kernel_space_pages, kernel_image_pages,
}
use modern.Mm.Walk.{
  Frames, place, next, walk, is_kernel, phy2virt, identity_map_phy_end, next-phy_frame, image_frame,
  built, root_of, kernel_indices, above_lem, pt_index_lem,
}

module _ (q s : ℕ) (mem : Frames) where
  abbrev t : KernelImagePageTable
  t = built q s

  abbrev root : ℕ
  root = root_of q s

  root_lem : s + q + 2054 < 2 ^ 40 → root ≡ s + q
  unfolding new_cr3
  root_lem fits = omega arith

  pml4t_lem : s + q + 2054 < 2 ^ 40 → next (t.pml4t 256) ≡ some (s + q + 1)
  unfolding setup_page_table_in_kernel_space
  pml4t_lem fits = next-phy_frame q s pdpt_bytes 1 zeroed refl (omega arith)

  pdpt_lem : (i : ℕ) → s + q + 2054 < 2 ^ 40 → i < 512 → next (t.pdpt i) ≡ some (s + q + (2 + i))
  unfolding setup_page_table_in_kernel_space pdpt_body
  pdpt_lem i fits below =
      ap next
        (for_entries-in (pdpt_body (kernel_start + 4096 * q) (4096 * s)) 512 (λ _. zeroed) i below)
      ∙ next-phy_frame q s (pdt_bytes + 8 * (i * 512)) (2 + i) zeroed (omega arith) (omega arith)

  pdt_lem : (i : ℕ) → s + q + 2054 < 2 ^ 40 → i < 2048 → next (t.pdt i) ≡ some (s + q + (6 + i))
  unfolding setup_page_table_in_kernel_space pdt_body
  pdt_lem i fits below =
      ap next
        (for_entries-in (pdt_body (kernel_start + 4096 * q) (4096 * s)) 2048 (λ _. zeroed) i below)
      ∙ next-phy_frame q s (pt_bytes + 8 * (i * 512)) (6 + i) zeroed (omega arith) (omega arith)

  abbrev identity_pt : Table
  identity_pt = for_entries identity_entry 0 kernel_space_pages (λ _. zeroed)

  image_entry_lem :
      (i : ℕ) (e : Entry) → s + i < 2 ^ 40 → next (image_entry (4096 * s) i e) ≡ some (s + i)
  unfolding image_entry set_frame next
  image_entry_lem i e fits = ap some (omega arith)

  identity_entry_lem : (i : ℕ) (e : Entry) → i < 2 ^ 40 → next (identity_entry i e) ≡ some i
  unfolding identity_entry set_frame next
  identity_entry_lem i e fits = ap some (omega arith)

  pt_lem :
      (i : ℕ)
      → s + kernel_image_pages < 2 ^ 40
      → i < kernel_space_pages
      → next (t.pt i) ≡ some (image_frame s i)
  unfolding setup_page_table_in_kernel_space
  pt_lem i fits below = elim (dec_lt i kernel_image_pages) [
    | yes inside ↦
        ap next (for_entries-in (image_entry (4096 * s)) kernel_image_pages identity_pt i inside)
        ∙ image_entry_lem i (identity_pt i) (omega arith)
        ∙ ap some (ground arith)
    | no outside ↦
        ap next
          (for_entries-out (image_entry (4096 * s)) kernel_image_pages identity_pt i (omega arith))
        ∙ ap next (for_entries-in identity_entry kernel_space_pages (λ _. zeroed) i below)
        ∙ identity_entry_lem i zeroed (omega arith)
        ∙ ap some (ground arith)
  ]

  -- the frames of `t` hold its tables
  place-pdpt : (i : ℕ) → place t (s + q) mem (s + q + 1) i ≡ t.pdpt i
  unfolding place
  place-pdpt i = ground arith

  place-pml4t : (i : ℕ) → place t (s + q) mem (s + q) i ≡ t.pml4t i
  unfolding place
  place-pml4t i = ground arith

  place-pdt : (j i : ℕ) → j < 4 → place t (s + q) mem (s + q + (2 + j)) i ≡ t.pdt (512 * j + i)
  unfolding place
  place-pdt j i below = ground arith

  place-pt : (j i : ℕ) → j < 2048 → place t (s + q) mem (s + q + (6 + j)) i ≡ t.pt (512 * j + i)
  unfolding place
  place-pt j i below = ground arith

  -- the first two levels of a walk in the kernel's half
  walk_upper :
      (v : ℕ)
      → s + q + 2054 < 2 ^ 40
      → v < 2 ^ 39
      → walk (place t (s + q) mem) root (kernel_start + v) ≡ (do
        l1 ← next (place t (s + q) mem (s + q + (2 + v / 2 ^ 30)) (v / 2 ^ 21 % 512))
        frame ← next (place t (s + q) mem l1 (v / 2 ^ 12 % 512))
        some (frame * 2 ^ 12 + v % 2 ^ 12))
  unfolding walk
  walk_upper v fits below =
      let (at_39, at_30, at_21, at_12, offset) = kernel_indices v below in
      rw
        (
          root_lem fits,
          at_39,
          at_30,
          at_21,
          at_12,
          offset,
          place-pml4t 256,
          pml4t_lem fits,
          place-pdpt (v / 2 ^ 30),
          pdpt_lem (v / 2 ^ 30) fits (omega arith),
        )
        refl

  -- The new page table maps the first 4 GiB of the kernel's half: the first 64 MiB of it to the
  -- kernel's image, and the rest to the physical address that the difference to `KERNEL_START` names.
  pub setup_page_table_walk :
      (v : ℕ)
      → s + q + 2054 < 2 ^ 40
      → s + kernel_image_pages < 2 ^ 40
      → v < 2 ^ 32
      → walk (place t (s + q) mem) root (kernel_start + v)
        ≡ some (if ltb v (kernel_image_pages * 4096) then 4096 * s + v else v)
  setup_page_table_walk v fits image_fits below =
      walk_upper v fits (omega arith)
      ∙ rw
          (
            place-pdt (v / 2 ^ 30) (v / 2 ^ 21 % 512) (omega arith),
            pdt_lem (512 * (v / 2 ^ 30) + v / 2 ^ 21 % 512) fits (omega arith),
            place-pt (512 * (v / 2 ^ 30) + v / 2 ^ 21 % 512) (v / 2 ^ 12 % 512) (omega arith),
            pt_lem (512 * (512 * (v / 2 ^ 30) + v / 2 ^ 21 % 512) + v / 2 ^ 12 % 512) image_fits
                (omega arith),
          )
          (ap some (ground arith))

  -- Above the first 4 GiB, the entries 4 to 511 of `pdpt` point behind `pdt`, into `pt`: the walk
  -- takes an entry of `pt` for an entry of a page directory, and what it reads as an entry of a
  -- page table is the contents of whatever frame that entry of `pt` maps.
  pub setup_page_table_walk_above :
      (v : ℕ)
      → s + q + 2054 < 2 ^ 40
      → s + kernel_image_pages < 2 ^ 40
      → 2 ^ 32 ≤ v
      → v < 2 ^ 39
      → walk (place t (s + q) mem) root (kernel_start + v) ≡ (do
        frame ← next (place t (s + q) mem (image_frame s (v / 2 ^ 21 - 2048)) (v / 2 ^ 12 % 512))
        some (frame * 2 ^ 12 + v % 2 ^ 12))
  setup_page_table_walk_above v fits image_fits above below =
      walk_upper v fits below
      ∙ rw
          (
            above_lem v s q above,
            place-pt (v / 2 ^ 30 - 4) (v / 2 ^ 21 % 512) (omega arith),
            pt_lem (512 * (v / 2 ^ 30 - 4) + v / 2 ^ 21 % 512) image_fits (omega arith),
            pt_index_lem v above,
          )
          refl

  -- The address that `phy2virt` gives for a physical address that the kernel's image does not hide
  -- is mapped to that physical address, and is one of the kernel's.
  pub phy2virt-walk :
      (phy : ℕ)
      → s + q + 2054 < 2 ^ 40
      → s + kernel_image_pages < 2 ^ 40
      → kernel_image_pages * 4096 ≤ phy
      → phy < identity_map_phy_end
      → (vaddr : ℕ) × (phy2virt phy ≡ some vaddr)
        × (is_kernel vaddr ≡ true)
        × (walk (place t (s + q) mem) root vaddr ≡ some phy)
  unfolding phy2virt is_kernel
  phy2virt-walk phy fits image_fits hidden below = (
    kernel_start + phy,
    ground arith,
    ground arith,
    setup_page_table_walk phy fits image_fits below ∙ ap some (ground arith),
  )
