-- ===== src/Process/Elf.antt =====
-- process.cpp: `load_elf_from_buffer`. The layout of the headers is that of the system's elf.h, so
-- they come as records; the file's bytes lie outside the image that is loaded.
use modern.Base.{
  ℕ, zero, suc, ◌+◌, ◌≤◌, ◌<◌, ◌≡◌, ◌⊎◌, inl, inr, Bool, true, false, not, ◌&&◌, Option, none, some,
  ◌>>=◌, ◌>>◌, >>=-eq-some, guard, ◌==◌, ltb, leb, if◌then◌else◌, refl, arith, ap, sym, ◌∙◌,
  Bool-cases,
}
use modern.Base.Bytes.{add64, u64_mod}
use modern.Memory.{Memory, memcpy}
use modern.Memory.Copy.{memcpy_lem}
use modern.Process.Defs.{user_image_start, user_image_size}

-- what the loader reads of the file's header
pub record Ehdr : Type 0 where
  pub magic : Bool
  pub e_phoff : ℕ
  pub e_phnum : ℕ
  pub e_entry : ℕ

-- and of a program header
pub record Phdr : Type 0 where
  pub p_type : ℕ
  pub p_offset : ℕ
  pub p_vaddr : ℕ
  pub p_filesz : ℕ
  pub p_memsz : ℕ

-- `PT_LOAD` of elf.h
abbrev pub pt_load : ℕ
pt_load = 1

-- One round of the loop; `none` is a failed assertion or the panic. The sum of the second assertion
-- wraps.
unfoldable pub load_segment : Memory → ℕ → Phdr → Option Memory
load_segment mem buffer phdr =
    let copy = (do
      guard (leb 0x10_0000 phdr.p_vaddr)
      guard (leb (add64 phdr.p_vaddr phdr.p_memsz) (user_image_start + user_image_size))
      guard (leb phdr.p_filesz phdr.p_memsz)
      some (memcpy mem phdr.p_vaddr (buffer + phdr.p_offset) phdr.p_filesz)) in
    if (phdr.p_type == pt_load) && ltb 0 phdr.p_memsz then copy else some mem

-- the rounds from `i` on, `n` of them left
unfoldable pub load_segments : Memory → ℕ → (ℕ → Phdr) → ℕ → ℕ → Option Memory
unfolding load_segment
load_segments mem buffer phdrs i zero = some mem
load_segments mem buffer phdrs i (suc n) = do
  mem ← load_segment mem buffer (phdrs i)
  load_segments mem buffer phdrs (i + 1) n

-- the entry point, and the memory
unfoldable pub load_elf_from_buffer : Memory → ℕ → Ehdr → (ℕ → Phdr) → Option (ℕ × Memory)
unfolding load_segments
load_elf_from_buffer mem buffer ehdr phdrs = do
  guard ehdr.magic
  guard (not (ehdr.e_phoff == 0))
  mem ← load_segments mem buffer phdrs 0 ehdr.e_phnum
  some (ehdr.e_entry, mem)

-- A segment whose end does not wrap, out of a file that lies behind the image.
pub record IsSegment (buffer : ℕ) (phdr : Phdr) : Type 0 where
  pub no_wrap : phdr.p_vaddr + phdr.p_memsz < u64_mod
  pub behind : user_image_start + user_image_size ≤ buffer

-- The bytes of memory outside the image.
abbrev pub Outside : ℕ → Type 0
Outside a = (a < user_image_start) ⊎ (user_image_start + user_image_size ≤ a)

copied-Outside :
    (mem : Memory) (dst src n a : ℕ)
    → user_image_start ≤ dst
    → dst + n ≤ user_image_start + user_image_size
    → user_image_start + user_image_size ≤ src
    → Outside a
    → memcpy mem dst src n a ≡ mem a
copied-Outside mem dst src n a lo hi behind out =
    memcpy_lem mem dst src n a (inl (omega arith)) ∙ ground arith

guarded :
    (c : Bool) (o : Option Memory) (mem' : Memory)
    → (guard c >> o) ≡ some mem'
    → (c ≡ true) × (o ≡ some mem')
guarded true o mem' h = (refl, h)
guarded false o mem' h = cc (h)

same_memory : (m mem' : Memory) (a : ℕ) → some m ≡ some mem' → mem' a ≡ m a
same_memory m mem' a h = let e : mem' ≡ m = cc (h) in ap (λ f. f a) e

load_segment-frame :
    (mem : Memory) (buffer : ℕ) (phdr : Phdr) (mem' : Memory) (a : ℕ)
    → IsSegment buffer phdr
    → Outside a
    → load_segment mem buffer phdr ≡ some mem'
    → mem' a ≡ mem a
unfolding load_segment
load_segment-frame mem buffer phdr mem' a seg out h =
    elim (Bool-cases ((phdr.p_type == pt_load) && ltb 0 phdr.p_memsz)) [
      | inr skip ↦ let h' = rw skip at h in same_memory mem mem' a h'
      | inl take_it ↦
          let h' = rw take_it at h in
          let (lo, h1) = guarded (leb 0x10_0000 phdr.p_vaddr) _ mem' h' in
          let (hi, h2) =
            guarded (leb (add64 phdr.p_vaddr phdr.p_memsz) (user_image_start + user_image_size)) _
              mem' h1 in
          let (fits, h3) = guarded (leb phdr.p_filesz phdr.p_memsz) _ mem' h2 in
          let sum : add64 phdr.p_vaddr phdr.p_memsz ≡ phdr.p_vaddr + phdr.p_memsz =
            omega (arith, seg.no_wrap) in
          let room : phdr.p_vaddr + phdr.p_filesz ≤ user_image_start + user_image_size =
            ground arith in
          same_memory (memcpy mem phdr.p_vaddr (buffer + phdr.p_offset) phdr.p_filesz) mem' a h3
          ∙ copied-Outside mem phdr.p_vaddr (buffer + phdr.p_offset) phdr.p_filesz a (ground arith)
              room (omega (arith, seg.behind)) out
    ]

load_segments-frame :
    (mem : Memory) (buffer : ℕ) (phdrs : ℕ → Phdr) (i n : ℕ) (mem' : Memory) (a : ℕ)
    → ((j : ℕ) → IsSegment buffer (phdrs j))
    → Outside a
    → load_segments mem buffer phdrs i n ≡ some mem'
    → mem' a ≡ mem a
unfolding load_segments
load_segments-frame mem buffer phdrs i zero mem' a segs out h = same_memory mem mem' a h
load_segments-frame mem buffer phdrs i (suc n) mem' a segs out h =
    let (m, first, rest) = >>=-eq-some (load_segment mem buffer (phdrs i)) _ h in
    load_segments-frame m buffer phdrs (i + 1) n mem' a segs out rest
    ∙ load_segment-frame mem buffer (phdrs i) m a (segs i) out first

-- A load that succeeds, of a file behind the image whose segments do not wrap, returns the file's
-- entry point and changes no byte outside the 8 MiB of the user image.
pub load_elf_from_buffer-frame :
    (mem : Memory) (buffer : ℕ) (ehdr : Ehdr) (phdrs : ℕ → Phdr) (entry : ℕ) (mem' : Memory) (a : ℕ)
    → ((j : ℕ) → IsSegment buffer (phdrs j))
    → Outside a
    → load_elf_from_buffer mem buffer ehdr phdrs ≡ some (entry, mem')
    → (entry ≡ ehdr.e_entry) × (mem' a ≡ mem a)
unfolding load_elf_from_buffer
load_elf_from_buffer-frame mem buffer ehdr phdrs entry mem' a segs out h =
    loaded ehdr.magic (not (ehdr.e_phoff == 0)) (load_segments mem buffer phdrs 0 ehdr.e_phnum) h
      (λ m. load_segments-frame mem buffer phdrs 0 ehdr.e_phnum m a segs out)
  where
    loaded :
        (c d : Bool) (o : Option Memory)
        → ◌≡◌ {A = Option (ℕ × Memory)}
            (do guard c; guard d; m ← o; some (ehdr.e_entry, m))
            (some (entry, mem'))
        → ((m : Memory) → o ≡ some m → m a ≡ mem a)
        → (entry ≡ ehdr.e_entry) × (mem' a ≡ mem a)
    loaded false d o h same = cc (h)
    loaded true false o h same = cc (h)
    loaded true true none h same = cc (h)
    loaded true true (some m) h same =
        let at : ehdr.e_entry ≡ entry = cc (h) in
        let e : mem' ≡ m = cc (h) in (sym at, ap (λ f. f a) e ∙ same m refl)
