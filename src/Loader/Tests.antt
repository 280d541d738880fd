-- ===== src/Loader/Tests.antt =====
-- A kernel's file of one segment: 8 bytes in memory, 4 of them in the file.
use modern.Base.{ℕ, ◌+◌, ◌≡◌, some, if◌then◌else◌, ◌==◌, refl, arith, inl, zero, suc, ◌<◌, ◌*◌, ◌≤◌}
use modern.Base.{ltb, leb, ◌&&◌, ◌-◌}
use modern.Memory.{Memory}
use modern.Loader.{load_kernel, Loaded, ehdr_at, phdr_at, read_field, has_magic}
use modern.Pages.{kernel_start}
use modern.Mm.Image.{zeroed}
use modern.Mm.Walk.{walk}
use modern.Mm.Boot.{setup_kernel_image_page_table, place_boot}
use modern.Loader.Mapped.{load_kernel-walk}
use modern.Loader.Placed.{IsKernelFile, load_kernel-placed, placed, kernel, header, IsFitting}

-- at 0x1000: the header, with one program header of 56 bytes at 64, whose segment is at 128
abbrev file_byte : ℕ → ℕ
file_byte o =
    if o == 0
    then 0x7f
    else if o == 1
    then 0x45
    else if o == 2
    then 0x4c
    else if o == 3
    then 0x46
    else if o == 29
    then 0x80
    else if o == 31
    then 0xff
    else if o == 30
    then 0xff
    else if o == 32
    then 64
    else if o == 54
    then 56
    else if o == 56
    then 1
    else if o == 64
    then 1
    else if o == 72
    then 128
    else if o == 85
    then 0x80
    else if o == 86
    then 0xff
    else if o == 87
    then 0xff
    else if o == 96
    then 4
    else if o == 104
    then 8
    else if leb 128 o && ltb o 136
    then o
    else 0

abbrev before : Memory
before = λ a. if leb 0x1000 a && ltb a 0x1100 then file_byte (a - 0x1000) else 0

only_segment :
    (i : ℕ) → i < 1 → IsFitting 0x400_0000 136 (header 0x20_0000 0x400_0000 0x1000 136 before i)
unfolding ehdr_at phdr_at read_field
only_segment zero below = record {
  above = omega arith;
  room = omega arith;
  grows = omega arith;
  in_file = omega arith;
}
only_segment (suc i) below = absurd (omega arith)

only_header :
    (i : ℕ)
    → i < 1
    → let h = kernel 0x20_0000 0x400_0000 0x1000 136 before in
      h.e_phoff + h.e_phentsize * i + 48 ≤ 136
unfolding ehdr_at read_field
only_header zero below = omega arith
only_header (suc i) below = absurd (omega arith)

is_file : IsKernelFile 0x20_0000 0x400_0000 0x1000 136 before
unfolding ehdr_at read_field has_magic
is_file = record {
  magic = refl;
  no_wrap = omega arith;
  apart = inl (omega arith);
  headers = λ i below. only_header i below;
  segments = λ i below load. only_segment i below;
}

load_kernel-placed_example :
    let h = kernel 0x20_0000 0x400_0000 0x1000 136 before in
    (loaded : Loaded) × (load_kernel 0x20_0000 0x400_0000 0x1000 before ≡ some loaded)
    × (loaded.entrypoint ≡ h.e_entry)
    × (loaded.kernel_physical_start ≡ 0x20_0000)
    × (loaded.kernel_physical_size ≡ 0x400_0000)
    × ((a : ℕ) → loaded.memory a ≡ placed 0x20_0000 0x400_0000 0x1000 136 before h.e_phnum a)
load_kernel-placed_example = load_kernel-placed 0x20_0000 0x400_0000 0x1000 136 before is_file

load_kernel-walk_example :
    walk
      (place_boot (setup_kernel_image_page_table 0x40_0000 zeroed 0x20_0000) 0x400 (λ f i. zeroed))
      0x400
      (kernel_start + 7)
    ≡ some 0x20_0007
unfolding ehdr_at phdr_at read_field
load_kernel-walk_example =
    load_kernel-walk 0x400 0x200 136 zeroed (λ f i. zeroed)
      (header 0x20_0000 0x400_0000 0x1000 136 before 0) 7 (omega arith) (omega arith)
      (only_segment 0 (omega arith)) (omega arith)
