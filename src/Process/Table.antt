-- ===== src/Process/Table.antt =====
-- process.cpp: the constructor of `Process`, the process table and `schedule`. The pages come from
-- the allocator; what the compiler and the linker lay down is taken as parameters.
use modern.Base.{
  ℕ, zero, suc, ◌+◌, ◌*◌, ◌/◌, ◌%◌, ◌^◌, Bool, true, false, Option, none, some, ◌>>=◌, ◌>>◌, guard,
  ◌==◌, ltb, if◌then◌else◌, ◌&&◌, not,
}
use modern.Base.Bytes.{add64}
use modern.Utils.{log2}
use modern.Pages.{PageSource, kernel_page_alloc, physical_page_alloc, kernel2phy}
use modern.Process.Defs.{
  max_process, page_size, user_stack_size, user_image_start, user_image_size, user_brk_start,
  user_brk_size, Context, wait, running, PageTableEntry, PageTable, Process,
}
use modern.Process.Paging.{map_user_addr}

abbrev pub kernel_code_selector : ℕ
kernel_code_selector = 16

abbrev pub kernel_data_selector : ℕ
kernel_data_selector = 24

-- `PageTabletSructures`: three tables of a page each, then 512 * 512 entries of 8 bytes.
abbrev pub pdpt_offset : ℕ
pdpt_offset = 4096

abbrev pub pdt_offset : ℕ
pdt_offset = 8192

abbrev pub pt_offset : ℕ
pt_offset = 12288

abbrev pub sizeof_pts : ℕ
sizeof_pts = 12288 + 512 * 512 * 8

-- What stands in no source file: the size of `Process`, where its kernel stack ends, the entry
-- point, and the frame of the kernel's page directory pointers.
pub record Layout : Type 0 where
  pub sizeof_process : ℕ
  pub kernel_stack_bottom : ℕ
  pub process_entrypoint : ℕ
  pub kernel_pdpt : ℕ

abbrev pub zero_table : PageTable
zero_table i = record { p = false; rw_bit = false; us = false; base_addr = 0 }

-- an entry that points to the table at a physical address
abbrev pub table_entry : Bool → ℕ → PageTableEntry
table_entry user addr = record {
  p = true;
  rw_bit = true;
  us = user;
  base_addr = addr / 2 ^ 12 % 2 ^ 40;
}

-- the three upper levels
unfoldable pub process_pml4t : ℕ → ℕ → PageTable
process_pml4t pts_paddr kernel_pdpt i =
    if i == 256
    then table_entry false kernel_pdpt
    else if i == 0
    then table_entry true (pts_paddr + pdpt_offset)
    else zero_table i

unfoldable pub process_pdpt : ℕ → PageTable
process_pdpt pts_paddr i =
    if i == 0 then table_entry true (pts_paddr + pdt_offset) else zero_table i

unfoldable pub process_pdt : ℕ → PageTable
process_pdt pts_paddr i =
    if ltb i 512 then table_entry true (pts_paddr + (pt_offset + i * 512 * 8)) else zero_table i

-- the registers that the constructor sets, over what the memory held
unfoldable pub initial_context : Context → ℕ → ℕ → ℕ → ℕ → Context
initial_context c pts_paddr stack entry this = record c {
  cr3 = pts_paddr;
  cs = kernel_code_selector;
  ds = kernel_data_selector;
  ss = kernel_data_selector;
  es = kernel_data_selector;
  fs = kernel_data_selector;
  gs = kernel_data_selector;
  rsp = stack;
  rip = entry;
  rflags = 0x200;
  rdi = this;
}

-- A slot holds the process that its pointer leads to, as long as the blocks of the processes are apart.
pub record ProcessTable : Type 0 where
  pub current_pid : ℕ
  pub next_pid : ℕ
  pub processes : ℕ → Option Process

abbrev pub set_slot : (ℕ → Option Process) → ℕ → Process → ℕ → Option Process
set_slot ps pid proc i = if i == pid then some proc else ps i

abbrev pub is_none {ℓ} : {A : Type ℓ} → Option A → Bool
is_none none = true
is_none (some a) = false

module _ (src : PageSource) (layout : Layout) where
  open src use {State}

  -- `Process::Process` after its allocations; `this` is the address that the object is built at,
  -- `garbage` what the registers' memory held.
  unfoldable pub built_process : Context → ℕ → ℕ → ℕ → ℕ → ℕ → ℕ → Process
  built_process garbage id start_phy this pts_paddr image stack =
      let stack_base : ℕ = 33 * 1024 * 1024 in
      let blank : Process = record {
        id = id;
        state = wait;
        start_phy = start_phy;
        pts_paddr = pts_paddr;
        pml4t = process_pml4t pts_paddr layout.kernel_pdpt;
        pdpt = process_pdpt pts_paddr;
        pdt = process_pdt pts_paddr;
        pt = zero_table;
        context =
            initial_context garbage pts_paddr (add64 this layout.kernel_stack_bottom)
              layout.process_entrypoint this;
        user_image_phy_addr = image;
        user_stack_phy_addr = stack;
        user_stack = stack_base;
        brk_start = user_brk_start;
        brk_end = user_brk_start + user_brk_size;
      } in
      let with_image = map_user_addr blank user_image_start image (user_image_size / page_size) in
      map_user_addr with_image stack_base stack (user_stack_size / page_size)

  -- `Process::Process`
  unfoldable pub new_process : Context → ℕ → ℕ → ℕ → State → Option (Process × State)
  unfolding built_process
  new_process garbage id start_phy this s = do
    (pts, s) ← kernel_page_alloc src (log2 sizeof_pts + 1) s
    (image, s) ← physical_page_alloc src (log2 user_image_size) s
    (stack, s) ← physical_page_alloc src (log2 user_stack_size) s
    some (built_process garbage id start_phy this (kernel2phy pts) image stack, s)

  -- `create_process`: the new pid with the table. `none` is the failed assertion, a panic of the
  -- allocator, or a pid behind the end of the array.
  unfoldable pub create_process : Context → ProcessTable → State → Option (ℕ × ProcessTable × State)
  create_process garbage t s = do
    let pid = t.next_pid
    let l = log2 layout.sizeof_process + 1
    (mem, s) ← kernel_page_alloc src (if ltb l 16 then 16 else l) s
    (proc, s) ← new_process garbage pid (kernel2phy mem) mem s
    guard (ltb pid max_process)
    guard (is_none (t.processes pid))
    some (pid, record t { next_pid = pid + 1; processes = set_slot t.processes pid proc }, s)

  -- `process_init`: the table is cleared and process 1 is made.
  unfoldable pub process_init : Context → State → Option (ℕ × ProcessTable × State)
  process_init garbage s =
      create_process garbage (record { current_pid = 1; next_pid = 1; processes = λ _. none }) s

-- the test on a slot: a process is there, its id is not 0, and it waits
unfoldable pub is_ready : Option Process → Bool
is_ready none = false
is_ready (some proc) = not (proc.id == 0) && elim proc.state [ wait ↦ true | running ↦ false ]

-- `current_pid == next_pid` starts again at 1
unfoldable pub next_slot : ProcessTable → ℕ
next_slot t = if t.current_pid == t.next_pid then 1 else t.current_pid + 1

-- The endless loop of `schedule` on fuel; `none` where the fuel ran out. The slot behind the last of a
-- full array is taken to be empty.
unfoldable pub schedule_loop : ℕ → ProcessTable → Option ProcessTable
schedule_loop zero t = none
schedule_loop (suc fuel) t =
    let pid = next_slot t in
    elim (t.processes pid) [
      | none ↦ schedule_loop fuel (record t { current_pid = pid })
      | some proc ↦
          let rest = schedule_loop fuel (record t { current_pid = pid }) in
          if is_ready (some proc)
          then some (record t {
            current_pid = pid;
            processes = set_slot t.processes pid (record proc { state = running });
          })
          else rest
    ]

-- `schedule`: the current process waits, and the loop picks the next. A round of all slots is
-- enough fuel. `none` is also the null pointer followed where the current slot is empty.
unfoldable pub schedule : ProcessTable → Option ProcessTable
schedule t = do
  proc ← t.processes t.current_pid
  let waiting = record t {
    processes = set_slot t.processes t.current_pid (record proc { state = wait });
  }
  schedule_loop (t.next_pid + 1) waiting
