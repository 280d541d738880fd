-- ===== src/Process/Samples.antt =====
-- Data for the tests: an allocator that never runs out, and a table of two processes.
use modern.Base.{
  ℕ, ◌+◌, ◌^◌, ◌≡◌, refl, none, some, ◌==◌, ==_of_eq, ==_of_ne, if◌then◌else◌, arith, ℕ_discrete,
  sym,
}
use modern.Pages.{PageSource, Answers}
use modern.Process.Defs.{Context, Process, wait}
use modern.Process.Table.{ProcessTable, Layout, zero_table}
use modern.Process.RoundRobin.{IsTable}

-- Its state is the next free address.
abbrev pub bump : PageSource
bump = record {
  State = ℕ;
  allocate_pages = λ i s. some (s, s + 2 ^ i);
  free_pages = λ addr s. some s;
}

abbrev pub bump_answers : Answers bump
bump_answers = record { Valid = λ s. Unit; answer = λ i s h v. (s, s + 2 ^ i, refl, tt) }

abbrev pub layout : Layout
layout = record {
  sizeof_process = 66048;
  kernel_stack_bottom = 65600;
  process_entrypoint = 0xffff_8000_0010_0000;
  kernel_pdpt = 0x7d36_d000;
}

-- the registers of a call with number `rax` and arguments `rdi`, `rsi` and `rdx`
abbrev pub registers : ℕ → ℕ → ℕ → ℕ → Context
registers rax rdi rsi rdx = record {
  ds = 0;
  es = 0;
  fs = 0;
  gs = 0;
  cr3 = 0;
  r15 = 0;
  r14 = 0;
  r13 = 0;
  r12 = 0;
  r11 = 0;
  r10 = 0;
  r9 = 0;
  r8 = 0;
  rbp = 0;
  rsi = rsi;
  rdi = rdi;
  rbx = 0;
  rdx = rdx;
  rcx = 0;
  rax = rax;
  reserved1_0 = 0;
  reserved1_1 = 0;
  rip = 0;
  cs = 0;
  rflags = 0;
  rsp = 0;
  ss = 0;
}

abbrev pub process_of : ℕ → Context → Process
process_of id c = record {
  id = id;
  state = wait;
  start_phy = 0;
  pts_paddr = 0;
  pml4t = zero_table;
  pdpt = zero_table;
  pdt = zero_table;
  pt = zero_table;
  context = c;
  user_image_phy_addr = 0;
  user_stack_phy_addr = 0;
  user_stack = 0;
  brk_start = 0x100_0000;
  brk_end = 0x200_0000;
}

abbrev pub idle : ℕ → Process
idle id = process_of id (registers 0 0 0 0)

abbrev pub two_processes : ProcessTable
two_processes = record {
  current_pid = 2;
  next_pid = 3;
  processes = λ i. if i == 1 then some (idle 1) else if i == 2 then some (idle 2) else none;
}

pub two_processes-IsTable : IsTable two_processes
two_processes-IsTable = record {
  current_pos = omega arith;
  current_lt = omega arith;
  filled = λ i lo hi. elim (ℕ_discrete i 1) [
    | yes e ↦ (idle 1, rw (==_of_eq e), sym e)
    | no ne ↦ let e : i ≡ 2 = omega arith in (idle 2, rw (==_of_ne ne, ==_of_eq e), sym e)
  ];
  vacant =
      λ i hi. rw (==_of_ne {a = i} {b = 1} (omega arith), ==_of_ne {a = i} {b = 2} (omega arith));
  others_wait = λ i p ne at. ground arith;
}
