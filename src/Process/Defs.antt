-- ===== src/Process/Defs.antt =====
-- include/process.h: the constants, `Context` (the saved registers), the entries of the last-level
-- page table (include/cpu_defs.h) and `Process`, less its kernel stack, its name and the members
-- that only the boot code reads.
use modern.Base.{ℕ, ◌*◌, Bool}

abbrev pub page_size : ℕ
page_size = 4096

abbrev pub max_process : ℕ
max_process = 1024

abbrev pub user_stack_size : ℕ
user_stack_size = 1024 * 1024

abbrev pub user_image_start : ℕ
user_image_start = 1 * 1024 * 1024

abbrev pub user_image_size : ℕ
user_image_size = 8 * 1024 * 1024

abbrev pub user_brk_start : ℕ
user_brk_start = 16 * 1024 * 1024

abbrev pub user_brk_size : ℕ
user_brk_size = 16 * 1024 * 1024

pub record Context : Type 0 where
  pub ds : ℕ
  pub es : ℕ
  pub fs : ℕ
  pub gs : ℕ
  pub cr3 : ℕ
  pub r15 : ℕ
  pub r14 : ℕ
  pub r13 : ℕ
  pub r12 : ℕ
  pub r11 : ℕ
  pub r10 : ℕ
  pub r9 : ℕ
  pub r8 : ℕ
  pub rbp : ℕ
  pub rsi : ℕ
  pub rdi : ℕ
  pub rbx : ℕ
  pub rdx : ℕ
  pub rcx : ℕ
  pub rax : ℕ
  pub reserved1_0 : ℕ
  pub reserved1_1 : ℕ
  pub rip : ℕ
  pub cs : ℕ
  pub rflags : ℕ
  pub rsp : ℕ
  pub ss : ℕ

pub data ProcessState : Type 0 where
  wait running : ProcessState

-- The bits that the kernel sets: present, writable, user, and the 40 bits of the frame number.
pub record PageTableEntry : Type 0 where
  pub p : Bool
  pub rw_bit : Bool
  pub us : Bool
  pub base_addr : ℕ

-- One table of `PageTabletSructures`, by index.
abbrev pub PageTable : Type 0
PageTable = ℕ → PageTableEntry

pub record Process : Type 0 where
  pub id : ℕ
  pub state : ProcessState
  pub start_phy : ℕ
  pub pts_paddr : ℕ
  pub pml4t : PageTable
  pub pdpt : PageTable
  pub pdt : PageTable
  pub pt : PageTable
  pub context : Context
  pub user_image_phy_addr : ℕ
  pub user_stack_phy_addr : ℕ
  pub user_stack : ℕ
  pub brk_start : ℕ
  pub brk_end : ℕ
