-- ===== src/Syscall/Dispatch.antt =====
-- `handle_syscall` of syscall.cpp: which calls panic, what becomes of the registers, and what `write`
-- returns.
use modern.Base.{
  ℕ, ◌-◌, ◌^◌, ◌≤◌, ◌<◌, ◌≡◌, ◌≢◌, ◌⊎◌, ◌↔◌, inl, inr, Option, none, some, >>=-eq-some, ltb, ◌==◌,
  if◌then◌else◌, refl, arith, Bool-cases,
}
use modern.Base.Bytes.{add64, u64_mod}
use modern.Utils.{log2_ceil}
use modern.Pages.{kernel_start, PageSource, Answers, kmalloc, kernel_page_alloc, kernel2phy}
use modern.Process.Defs.{Process}
use modern.Process.Paging.{map_user_addr}
use modern.Syscall.Calls.{
  Effect, Outcome, returned, halted, just_returns, sys_write, sys_anon_allocate, anon_map,
  page_align, syscall_table, handle_syscall, set_rax, sign_extend, to_int,
}

pub kmalloc_answers :
    {src : PageSource} (total : Answers src) (size : ℕ) (s : src.State)
    → total.Valid s
    → (buf : ℕ) × (s' : src.State) × (kmalloc src size s ≡ some (buf, s'))
unfolding kmalloc kernel_page_alloc
kmalloc_answers total size s v =
    let l = log2_ceil size in
    let (addr, s', e, v') = total.answer (if ltb l 16 then 16 else l) s (ground arith) v in
    (add64 kernel_start addr, s', rw e)

sys_anon_allocate_answers :
    {src : PageSource} (total : Answers src) (proc : Process) (s : src.State)
    → total.Valid s
    → (r : Effect × src.State) × (sys_anon_allocate src proc s ≡ some r)
unfolding sys_anon_allocate
sys_anon_allocate_answers total proc s v =
    let (buf, s', e) = kmalloc_answers total (page_align proc.context.rdi) s v in
    ((anon_map proc (page_align proc.context.rdi) (kernel2phy buf), s'), rw e)

syscall_table_answers :
    {src : PageSource} (total : Answers src) (nr : ℕ) (proc : Process) (mem : ℕ → ℕ) (s : src.State)
    → total.Valid s
    → 0 < nr
    → nr < 8
    → syscall_table src nr proc mem s ≢ none
unfolding syscall_table
syscall_table_answers total nr proc mem s v lo hi h =
    let (r, e) = sys_anon_allocate_answers total proc s v in ground arith

-- With an allocator that answers, in a valid state, `handle_syscall` panics exactly for the number 0 and for the
-- numbers from `SYSCALL_NR_MAX` on.
pub handle_syscall_panics :
    {src : PageSource} (total : Answers src) (proc : Process) (mem : ℕ → ℕ) (s : src.State)
    → total.Valid s
    → (handle_syscall src proc mem s ≡ none) ↔ ((proc.context.rax ≡ 0) ⊎ (8 ≤ proc.context.rax))
unfolding handle_syscall
handle_syscall_panics {src} total proc mem s v = (
  λ h. ground (arith, syscall_table_answers total proc.context.rax proc mem s v),
  λ h. ground arith,
)

anon_map_frame :
    (proc : Process) (size buf : ℕ)
    → (anon_map proc size buf).stored ≡ none
    → let p = (anon_map proc size buf).process in
      (p.context ≡ proc.context)
      × (p.id ≡ proc.id)
      × (p.state ≡ proc.state)
      × (p.pml4t ≡ proc.pml4t)
      × (p.pdpt ≡ proc.pdpt)
      × (p.pdt ≡ proc.pdt)
      × (p.pt ≡ proc.pt)
unfolding anon_map map_user_addr
anon_map_frame proc size buf nothing = ground arith

sys_anon_allocate_frame :
    (src : PageSource) (proc : Process) (s : src.State) (e : Effect) (s' : src.State)
    → sys_anon_allocate src proc s ≡ some (e, s')
    → e.stored ≡ none
    → (e.process.context ≡ proc.context)
      × (e.process.id ≡ proc.id)
      × (e.process.state ≡ proc.state)
      × (e.process.pml4t ≡ proc.pml4t)
      × (e.process.pdpt ≡ proc.pdpt)
      × (e.process.pdt ≡ proc.pdt)
      × (e.process.pt ≡ proc.pt)
unfolding sys_anon_allocate
sys_anon_allocate_frame src proc s e s' h nothing =
    let ((buf, s1), e1, e2) = >>=-eq-some (kmalloc src (page_align proc.context.rdi) s) _ h in
    ground (arith, anon_map_frame proc (page_align proc.context.rdi) (kernel2phy buf))

syscall_table_frame :
    (src : PageSource) (nr : ℕ) (proc : Process) (mem : ℕ → ℕ) (s : src.State) (e : Effect)
    (s' : src.State)
    → syscall_table src nr proc mem s ≡ some (returned (e, s'))
    → e.stored ≡ none
    → (e.process.context ≡ proc.context)
      × (e.process.id ≡ proc.id)
      × (e.process.state ≡ proc.state)
      × (e.process.pml4t ≡ proc.pml4t)
      × (e.process.pdpt ≡ proc.pdpt)
      × (e.process.pdt ≡ proc.pdt)
      × (e.process.pt ≡ proc.pt)
unfolding syscall_table
syscall_table_frame src nr proc mem s e s' h nothing =
    ground (arith, sys_anon_allocate_frame src proc s e s')

-- What `handle_syscall` does with the outcome of a call.
set_rax_frame :
    (src : PageSource) (proc : Process) (mem : ℕ → ℕ) (s : src.State)
    (out : Outcome (Effect × src.State)) (e : Effect) (s' : src.State)
    → syscall_table src proc.context.rax proc mem s ≡ some out
    → ◌≡◌ {A = Option (Outcome (Effect × src.State))}
        (some (elim out [ returned (e, s') ↦ returned (set_rax src e, s') | halted ↦ halted ]))
        (some (returned (e, s')))
    → e.stored ≡ none
    → (e.process.context ≡ record (proc.context) { rax = sign_extend e.result })
      × (e.process.id ≡ proc.id)
      × (e.process.state ≡ proc.state)
      × (e.process.pml4t ≡ proc.pml4t)
      × (e.process.pdpt ≡ proc.pdpt)
      × (e.process.pdt ≡ proc.pdt)
      × (e.process.pt ≡ proc.pt)
set_rax_frame src proc mem s (returned (e1, s1)) e s' at h nothing =
    let e1_stored : e1.stored ≡ none = ground arith in
    let (c, i, st, p4, p3, p2, p1) =
      syscall_table_frame src proc.context.rax proc mem s e1 s1 at e1_stored in
    ground arith
set_rax_frame src proc mem s halted e s' at h nothing = cc

-- The only register that a system call changes, if it stores nothing at the process's pointer, is `rax`,
-- which holds the returned `int`, extended with its sign; the process's id, its state and all its
-- pages stay as they are.
pub handle_syscall_frame :
    (src : PageSource) (proc : Process) (mem : ℕ → ℕ) (s : src.State) (e : Effect) (s' : src.State)
    → handle_syscall src proc mem s ≡ some (returned (e, s'))
    → e.stored ≡ none
    → (e.process.context ≡ record (proc.context) { rax = sign_extend e.result })
      × (e.process.id ≡ proc.id)
      × (e.process.state ≡ proc.state)
      × (e.process.pml4t ≡ proc.pml4t)
      × (e.process.pdpt ≡ proc.pdpt)
      × (e.process.pdt ≡ proc.pdt)
      × (e.process.pt ≡ proc.pt)
unfolding handle_syscall
handle_syscall_frame src proc mem s e s' h nothing = elim (Bool-cases (proc.context.rax == 0)) [
  | inl null ↦ let h' = rw null at h in cc (h')
  | inr named ↦ elim (Bool-cases (ltb proc.context.rax 8)) [
    | inr high ↦ let h' = rw (named, high) at h in cc (h')
    | inl low ↦
        let h' = rw (named, low) at h in
        let (out, at, back) = >>=-eq-some (syscall_table src proc.context.rax proc mem s) _ h' in
        set_rax_frame src proc mem s out e s' at back nothing
  ]
]

-- `write` on descriptor 0, 1 or 2 returns the size where that is below 2 ^ 31, and -1 on every other
-- descriptor; nothing else of the process changes.
pub handle_syscall-write :
    (src : PageSource) (proc : Process) (mem : ℕ → ℕ) (s : src.State)
    → proc.context.rax ≡ 2
    → proc.context.rdx < 2 ^ 31
    → (e : Effect) × (handle_syscall src proc mem s ≡ some (returned (e, s)))
      × (e.process ≡ record proc {
        context = record (proc.context) {
          rax = if ltb (to_int proc.context.rdi) 3 then proc.context.rdx else u64_mod - 1;
        };
      })
unfolding handle_syscall syscall_table sys_write
handle_syscall-write src proc mem s nr small =
    (set_rax src (just_returns (sys_write proc mem).0 proc), rw nr refl, ground arith)
