-- ===== src/Syscall/Calls.antt =====
-- syscall.cpp over a process, its memory and the page allocator. An `int` is its bit pattern of 32
-- bits. The enumeration is that of kernel-abi/include/kernel-abi/syscall_nr.h.
use modern.Base.{
  ℕ, zero, suc, ◌+◌, ◌-◌, ◌*◌, ◌/◌, ◌%◌, ◌^◌, Option, none, some, List, [], ◌∷◌, ◌>>=◌, ltb, ◌==◌,
  if◌then◌else◌, ◌||◌,
}
use modern.Base.Bytes.{add64, u64_mod, u32_mod}
use modern.Pages.{PageSource, kmalloc, kernel2phy}
use modern.Process.Defs.{Process, page_size}
use modern.Process.Paging.{map_user_addr}

abbrev pub syscall_nr_max : ℕ
syscall_nr_max = 8

-- `return -1` from an `int` function
abbrev pub minus_one : ℕ
minus_one = u32_mod - 1

-- the conversion of an `int` to the `u64` of a register
abbrev pub sign_extend : ℕ → ℕ
sign_extend r = if ltb r (2 ^ 31) then r else u64_mod - u32_mod + r

-- the conversion of a `u64` to `int`
abbrev pub to_int : ℕ → ℕ
to_int x = x % u32_mod

-- the `n` bytes of memory from `addr` on
unfoldable pub bytes_at : (ℕ → ℕ) → ℕ → ℕ → List ℕ
bytes_at mem addr zero = []
bytes_at mem addr (suc n) = mem addr ∷ bytes_at mem (add64 addr 1) n

-- `sys_write` returns an `int`; the second part is what goes to the serial port behind the
-- process's name.
unfoldable pub sys_write : Process → (ℕ → ℕ) → ℕ × List ℕ
unfolding bytes_at
sys_write proc mem =
    let fd = to_int proc.context.rdi in
    let size = proc.context.rdx in
    if fd == 0
    then (to_int size, [])
    else if fd == 1 || fd == 2
    then (to_int size, bytes_at mem proc.context.rsi size)
    else (minus_one, [])

-- `(size + (PAGE_SIZE-1)) / PAGE_SIZE * PAGE_SIZE` on `size_t`
unfoldable pub page_align : ℕ → ℕ
page_align size = add64 size (page_size - 1) / page_size * page_size

-- What a call leaves: the value that it returns, the process, and the word that it stores at the
-- process's pointer, if any, as an address with its value. The pointer is not checked, so it can be
-- one into the process itself: the store is still to be made in memory.
pub record Effect : Type 0 where
  pub result : ℕ
  pub process : Process
  pub stored : Option (ℕ × ℕ)

abbrev pub just_returns : ℕ → Process → Effect
just_returns r proc = record { result = r; process = proc; stored = none }

-- `sys_anon_allocate` once it has its buffer.
unfoldable pub anon_map : Process → ℕ → ℕ → Effect
anon_map proc aligned_size buf_phy =
    let old = proc.brk_start in
    let moved = record proc { brk_start = add64 old aligned_size } in
    if ltb moved.brk_end moved.brk_start then just_returns minus_one moved else record {
      result = 0;
      process = map_user_addr moved old buf_phy (aligned_size / page_size);
      stored = some (proc.context.rsi, old);
    }

-- A system call returns, or it halts the machine.
pub data Outcome (A : Type 0) : Type 0 where
  returned : A → Outcome A
  halted : Outcome A

module _ (src : PageSource) where
  open src use {State}

  -- `none` is a panic of the allocator.
  unfoldable pub sys_anon_allocate : Process → State → Option (Effect × State)
  unfolding page_align anon_map
  sys_anon_allocate proc s = do
    let aligned_size = page_align proc.context.rdi
    (buf, s) ← kmalloc src aligned_size s
    some (anon_map proc aligned_size (kernel2phy buf), s)

  -- The table of member functions, by the number of the call; `none` is the null pointer at 0.
  unfoldable pub syscall_table : ℕ → Process → (ℕ → ℕ) → State → Option (Outcome (Effect × State))
  unfolding sys_write sys_anon_allocate
  syscall_table nr proc mem s =
      if nr == 0
      then none
      else if nr == 1
      then some (returned (just_returns minus_one proc, s))
      else if nr == 2
      then some (returned (just_returns (sys_write proc mem).0 proc, s))
      else if nr == 3
      then some (returned (just_returns minus_one proc, s))
      else if nr == 4
      then some (returned (just_returns minus_one proc, s))
      else if nr == 5
      then some halted
      else if nr == 6
      then some (returned (just_returns 0 proc, s))
      else if nr == 7
      then (do (e, s) ← sys_anon_allocate proc s; some (returned (e, s)))
      else none

  -- the result goes into the saved `rax` of the process
  abbrev pub set_rax : Effect → Effect
  set_rax e = record e {
    process = record (e.process) {
      context = record (e.process.context) { rax = sign_extend e.result };
    };
  }

  -- `handle_syscall`; `none` is a panic.
  unfoldable pub handle_syscall : Process → (ℕ → ℕ) → State → Option (Outcome (Effect × State))
  handle_syscall proc mem s =
      if proc.context.rax == 0
      then none
      else if ltb proc.context.rax syscall_nr_max
      then (do
        out ← syscall_table proc.context.rax proc mem s
        some (elim out [ returned (e, s') ↦ returned (set_rax e, s') | halted ↦ halted ]))
      else none
