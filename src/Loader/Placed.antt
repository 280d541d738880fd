-- ===== src/Loader/Placed.antt =====
-- boot_loader.c: the memory after `LoadKernel`.
use modern.Base.{
  ℕ, zero, suc, ◌+◌, ◌*◌, ◌-◌, ◌<◌, ◌≤◌, ◌≡◌, ◌⊎◌, inl, inr, Bool, true, false, ◌&&◌, ◌==◌, ltb,
  leb, if◌then◌else◌, some, refl, arith, ap, ◌∙◌, Bool-cases,
}
use modern.Base.Bytes.{add64, sub64, u64_mod}
use modern.Memory.{Memory}
use modern.Memory.Copy.{in_range}
use modern.Pages.{kernel_start}
use modern.Loader.{
  Elf64Ehdr, ehdr_at, Elf64Phdr, phdr_at, copy, load_section, load_sections, has_magic, Loaded,
  load_kernel,
}
use modern.Loader.Fields.{copy_lem, phdr_at-same}

-- whether a segment is one to load
abbrev pub loads : Elf64Phdr → Bool
loads ph = (ph.p_type == 1) && ltb 0 ph.p_memsz

-- A segment that fits: between `KERNEL_START` and the end of the room, no longer in the file than in
-- memory, and all of its bytes in memory are bytes of the file.
pub record IsFitting (max size : ℕ) (ph : Elf64Phdr) : Type 0 where
  pub above : kernel_start ≤ ph.p_vaddr
  pub room : ph.p_vaddr - kernel_start + ph.p_memsz ≤ max
  pub grows : ph.p_filesz ≤ ph.p_memsz
  pub in_file : ph.p_offset + ph.p_memsz ≤ size

-- where a segment goes
abbrev pub target_of : ℕ → Elf64Phdr → ℕ
target_of start ph = start + (ph.p_vaddr - kernel_start)

offset_lem :
    (start max size : ℕ) (ph : Elf64Phdr)
    → start + max < u64_mod
    → IsFitting max size ph
    → (sub64 ph.p_vaddr kernel_start ≡ ph.p_vaddr - kernel_start)
      × (add64 start (ph.p_vaddr - kernel_start) ≡ target_of start ph)
      × (ltb max (add64 (ph.p_vaddr - kernel_start) ph.p_memsz) ≡ false)
      × (leb ph.p_filesz ph.p_memsz ≡ true)
offset_lem start max size ph no_wrap fit = (
  omega (arith, fit.above, fit.room),
  omega (arith, fit.room),
  ground (arith, fit.room, fit.above),
  ground (arith, fit.grows),
)

-- one round, on a segment that fits
load_section_lem :
    (start max buffer size : ℕ) (ph : Elf64Phdr) (m : Memory)
    → start + max < u64_mod
    → loads ph ≡ true
    → IsFitting max size ph
    → load_section start max buffer ph m
      ≡ some (copy m (target_of start ph) (buffer + ph.p_offset) ph.p_memsz)
unfolding load_section
load_section_lem start max buffer size ph m no_wrap load fit =
    let (offset, target, within, grows) = offset_lem start max size ph no_wrap fit in
    rw (load, grows, offset, within, target) refl

load_section-skip :
    (start max buffer : ℕ) (ph : Elf64Phdr) (m : Memory)
    → loads ph ≡ false
    → load_section start max buffer ph m ≡ some m
unfolding load_section
load_section-skip start max buffer ph m skip = rw skip refl

module _ (start max buffer size : ℕ) (mem : Memory) where
  abbrev pub kernel : Elf64Ehdr
  kernel = ehdr_at mem buffer

  abbrev pub header : ℕ → Elf64Phdr
  header i = phdr_at mem (buffer + kernel.e_phoff + kernel.e_phentsize * i)

  -- What byte `a` is after the first `n` segments: the last of them that covers it wins, and its byte
  -- is the file's; a byte that none covers is as before.
  unfoldable pub placed : ℕ → ℕ → ℕ
  placed zero a = mem a
  placed (suc n) a =
      if loads (header n) && in_range (target_of start (header n)) (header n).p_memsz a
      then mem (buffer + (header n).p_offset + (a - target_of start (header n)))
      else placed n a

  -- A kernel's file of `size` bytes, apart from the room that the kernel is loaded to.
  pub record IsKernelFile : Type 0 where
    pub magic : has_magic mem buffer ≡ true
    pub no_wrap : start + max < u64_mod
    pub apart : (buffer + size ≤ start) ⊎ (start + max ≤ buffer)
    pub headers : (i : ℕ) → i < kernel.e_phnum → kernel.e_phoff + kernel.e_phentsize * i + 48 ≤ size
    pub segments :
        (i : ℕ) → i < kernel.e_phnum → loads (header i) ≡ true → IsFitting max size (header i)

  module _ (file : IsKernelFile) where
    -- No segment reaches the file.
    placed-file :
        (n b : ℕ) → n ≤ kernel.e_phnum → buffer ≤ b → b < buffer + size → placed n b ≡ mem b
    unfolding placed
    placed-file zero b within above below = refl
    placed-file (suc n) b within above below = elim (Bool-cases (loads (header n))) [
      | inr skip ↦ rw skip (placed-file n b (omega arith) above below)
      | inl load ↦
          let fit = file.segments n (omega arith) load in
          let out : in_range (target_of start (header n)) (header n).p_memsz b ≡ false =
            ground (arith, fit.room, fit.above, file.apart) in
          rw (load, out) (placed-file n b (omega arith) above below)
    ]

    placed-none : (b : ℕ) → mem b ≡ placed 0 b
    unfolding placed
    placed-none b = refl

    placed-next : (n b : ℕ) → placed (suc n) b ≡ placed (n + 1) b
    placed-next n b = ap (λ k. placed k b) (omega arith)

    header_lem :
        (i : ℕ) (m : Memory)
        → i < kernel.e_phnum
        → ((a : ℕ) → m a ≡ placed i a)
        → phdr_at m (buffer + kernel.e_phoff + kernel.e_phentsize * i) ≡ header i
    header_lem i m inside so_far =
        phdr_at-same mem m buffer (buffer + size) (buffer + kernel.e_phoff + kernel.e_phentsize * i)
          (λ b above below. so_far b ∙ placed-file i b (omega arith) above below) (omega arith)
          (omega (arith, file.headers i inside))

    copied_lem :
        (i a : ℕ) (m : Memory)
        → i < kernel.e_phnum
        → ((b : ℕ) → m b ≡ placed i b)
        → loads (header i) ≡ true
        → copy m (target_of start (header i)) (buffer + (header i).p_offset) (header i).p_memsz a
          ≡ placed (suc i) a
    unfolding placed
    copied_lem i a m inside so_far load =
        let fit = file.segments i inside load in
        copy_lem m (target_of start (header i)) (buffer + (header i).p_offset) (header i).p_memsz a
          (ground (arith, file.apart, fit.room, fit.above, fit.in_file))
        ∙ rw load (elim (Bool-cases (in_range (target_of start (header i)) (header i).p_memsz a)) [
          | inl covered ↦
              let from = buffer + (header i).p_offset + (a - target_of start (header i)) in
              rw covered (
                so_far from
                ∙ placed-file i from (omega arith) (omega arith)
                    (ground (arith, covered, fit.in_file)))
          | inr other ↦ rw other (so_far a)
        ])

    section_step :
        (i : ℕ) (m : Memory)
        → i < kernel.e_phnum
        → ((a : ℕ) → m a ≡ placed i a)
        → (m' : Memory) × (load_section start max buffer
              (phdr_at m (buffer + kernel.e_phoff + kernel.e_phentsize * i))
              m
            ≡ some m')
          × ((a : ℕ) → m' a ≡ placed (suc i) a)
    unfolding placed
    section_step i m inside so_far = elim (Bool-cases (loads (header i))) [
      | inr skip ↦ (
        m,
        rw (header_lem i m inside so_far) (load_section-skip start max buffer (header i) m skip),
        λ a. rw skip (so_far a),
      )
      | inl load ↦ (
        copy m (target_of start (header i)) (buffer + (header i).p_offset) (header i).p_memsz,
        rw (header_lem i m inside so_far) (
            load_section_lem start max buffer size (header i) m file.no_wrap load
              (file.segments i inside load)),
        λ a. copied_lem i a m inside so_far load,
      )
    ]

    -- the rounds from `i` on, when the segments before are in their places
    load_sections_lem :
        (n i : ℕ) (m : Memory)
        → i + n ≡ kernel.e_phnum
        → ((a : ℕ) → m a ≡ placed i a)
        → (m' : Memory) × (load_sections start max buffer kernel i n m ≡ some m')
          × ((a : ℕ) → m' a ≡ placed kernel.e_phnum a)
    unfolding load_sections
    load_sections_lem zero i m total so_far =
        (m, refl, λ a. so_far a ∙ ap (λ k. placed k a) (omega arith))
    load_sections_lem (suc n) i m total so_far =
        let (m1, first, after) = section_step i m (omega arith) so_far in
        let (m', rest, final) =
          load_sections_lem n (i + 1) m1 (omega arith) (λ a. after a ∙ placed-next i a) in
        (m', rw first rest, final)

    -- The loader takes every kernel's file whose segments fit, wherever its segments overlap or do
    -- not: it returns the file's entry point and the place of the kernel, and every byte of memory
    -- is that of the last segment that covers it, or as before. Of a segment all bytes that it has
    -- in memory are read from the file, those behind its size in the file included.
    pub load_kernel-placed :
        (loaded : Loaded) × (load_kernel start max buffer mem ≡ some loaded)
        × (loaded.entrypoint ≡ kernel.e_entry)
        × (loaded.kernel_physical_start ≡ start)
        × (loaded.kernel_physical_size ≡ max)
        × ((a : ℕ) → loaded.memory a ≡ placed kernel.e_phnum a)
    unfolding load_kernel
    load_kernel-placed =
        let (m', runs, final) =
          load_sections_lem kernel.e_phnum 0 mem (omega arith) (λ a. placed-none a) in
        (
          record {
            entrypoint = kernel.e_entry;
            memory = m';
            kernel_physical_start = start;
            kernel_physical_size = max;
          },
          rw (file.magic, runs) refl,
          refl,
          refl,
          refl,
          final,
        )
