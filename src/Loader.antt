-- ===== src/Loader.antt =====
-- boot_loader.c: `LoadKernel`, on memory as bytes, with the ELF headers of elf.h read from it. What
-- is printed is left out; `efi_assert` only prints.
pub mod Fields
pub mod Placed
pub mod Mapped
mod Tests
use modern.Base.{
  ℕ, zero, suc, ◌+◌, ◌*◌, ◌-◌, Bool, true, false, ◌&&◌, ◌==◌, ltb, leb, if◌then◌else◌, Option, some,
  none, ◌>>=◌,
}
use modern.Base.Bytes.{add64, sub64}
use modern.Memory.{Memory, store}
use modern.Pages.{kernel_start}

-- a little-endian field of `n` bytes
unfoldable pub read_field : Memory → ℕ → ℕ → ℕ
read_field mem a zero = 0
read_field mem a (suc n) = mem a + 256 * read_field mem (a + 1) n

-- the fields of `Elf64_Ehdr` that the loader reads, at their offsets
pub record Elf64Ehdr : Type 0 where
  pub e_entry : ℕ
  pub e_phoff : ℕ
  pub e_phentsize : ℕ
  pub e_phnum : ℕ

unfoldable pub ehdr_at : Memory → ℕ → Elf64Ehdr
ehdr_at mem a = record {
  e_entry = read_field mem (a + 24) 8;
  e_phoff = read_field mem (a + 32) 8;
  e_phentsize = read_field mem (a + 54) 2;
  e_phnum = read_field mem (a + 56) 2;
}

-- and those of `Elf64_Phdr`
pub record Elf64Phdr : Type 0 where
  pub p_type : ℕ
  pub p_offset : ℕ
  pub p_vaddr : ℕ
  pub p_filesz : ℕ
  pub p_memsz : ℕ

unfoldable pub phdr_at : Memory → ℕ → Elf64Phdr
phdr_at mem a = record {
  p_type = read_field mem a 4;
  p_offset = read_field mem (a + 8) 8;
  p_vaddr = read_field mem (a + 16) 8;
  p_filesz = read_field mem (a + 32) 8;
  p_memsz = read_field mem (a + 40) 8;
}

-- `copy`, from byte `i` on, `n` of them left
unfoldable pub copy_loop : Memory → ℕ → ℕ → ℕ → ℕ → Memory
copy_loop mem target src i zero = mem
copy_loop mem target src i (suc n) =
    copy_loop (store mem (target + i) (mem (src + i))) target src (i + 1) n

unfoldable pub copy : Memory → ℕ → ℕ → ℕ → Memory
copy mem target src size = copy_loop mem target src 0 size

-- One round of the loop over the program headers; `none` is `return 0`. The offset and its sum with
-- the size are `u64`.
unfoldable pub load_section : ℕ → ℕ → ℕ → Elf64Phdr → Memory → Option Memory
load_section phy_kernel_start kernel_max_size buffer phdr mem =
    let section_offset = sub64 phdr.p_vaddr kernel_start in
    let copied =
      copy mem (add64 phy_kernel_start section_offset) (buffer + phdr.p_offset) phdr.p_memsz in
    if (phdr.p_type == 1) && ltb 0 phdr.p_memsz
    then if leb phdr.p_filesz phdr.p_memsz
      then if ltb kernel_max_size (add64 section_offset phdr.p_memsz) then none else some copied
      else none
    else some mem

-- The rounds from `i` on, `n` of them left. A program header is read from memory in its round; the
-- fields of the file's header are read once.
unfoldable pub load_sections : ℕ → ℕ → ℕ → Elf64Ehdr → ℕ → ℕ → Memory → Option Memory
load_sections phy_kernel_start kernel_max_size buffer ehdr i zero mem = some mem
load_sections phy_kernel_start kernel_max_size buffer ehdr i (suc n) mem = do
  mem ←
      load_section phy_kernel_start kernel_max_size buffer
        (phdr_at mem (buffer + ehdr.e_phoff + ehdr.e_phentsize * i)) mem
  load_sections phy_kernel_start kernel_max_size buffer ehdr (i + 1) n mem

-- `"\\x7f" "ELF"`
unfoldable pub has_magic : Memory → ℕ → Bool
has_magic mem buffer =
    (mem buffer == 0x7f)
    && (mem (buffer + 1) == 0x45)
    && (mem (buffer + 2) == 0x4c)
    && (mem (buffer + 3) == 0x46)

-- the entry point, the memory, and the two fields of `efi_info` that are set
pub record Loaded : Type 0 where
  pub entrypoint : ℕ
  pub memory : Memory
  pub kernel_physical_start : ℕ
  pub kernel_physical_size : ℕ

unfoldable pub load_kernel : ℕ → ℕ → ℕ → Memory → Option Loaded
load_kernel phy_kernel_start kernel_max_size buffer mem =
    let ehdr = ehdr_at mem buffer in
    let sections = load_sections phy_kernel_start kernel_max_size buffer ehdr 0 ehdr.e_phnum mem in
    if has_magic mem buffer
    then (do
      memory ← sections
      some (record {
        entrypoint = ehdr.e_entry;
        memory = memory;
        kernel_physical_start = phy_kernel_start;
        kernel_physical_size = kernel_max_size;
      }))
    else none
