-- ===== src/Process/Create.antt =====
-- `create_process`: it returns, gives the next pid, and keeps the table's invariant.
use modern.Base.{
  ℕ, lt→ltb, ◌+◌, ◌-◌, ◌*◌, ◌/◌, ◌%◌, ◌^◌, ◌<◌, ◌≡◌, some, ltb, ==_of_eq, ==_of_ne, if◌then◌else◌,
  refl, sym, ◌∙◌, arith, ℕ_discrete,
}
use modern.Base.Bytes.{add64}
use modern.Utils.{log2}
use modern.Pages.{
  kernel_start, PageSource, Answers, kernel_page_alloc, physical_page_alloc, kernel2phy,
}
use modern.Process.Defs.{wait, max_process, Process, Context, user_brk_start, user_brk_size}
use modern.Process.Paging.{map_user_addr, map_user_addr_lem, user_entry, in_run}
use modern.Process.Table.{
  ProcessTable, Layout, set_slot, zero_table, pdpt_offset, pdt_offset, pt_offset, process_pml4t,
  process_pdpt, process_pdt, built_process, new_process, create_process, sizeof_pts,
}
use modern.Process.RoundRobin.{IsTable}

-- what a new process is
pub record IsNew (id : ℕ) (proc : Process) : Type 0 where
  pub named : proc.id ≡ id
  pub waits : proc.state ≡ wait
  pub brk_lo : proc.brk_start ≡ user_brk_start
  pub brk_hi : proc.brk_end ≡ user_brk_start + user_brk_size

added-IsTable :
    {t : ProcessTable}
    → IsTable t
    → (proc : Process) → IsNew t.next_pid proc
    → IsTable
        (record t { next_pid = t.next_pid + 1; processes = set_slot t.processes t.next_pid proc })
added-IsTable {t} v proc fresh = record {
  current_pos = v.current_pos;
  current_lt = omega (arith, v.current_lt);
  filled = λ i lo hi. elim (ℕ_discrete i t.next_pid) [
    | yes here ↦ (proc, rw (==_of_eq here), fresh.named ∙ sym here)
    | no away ↦ rw (==_of_ne away) (v.filled i lo (omega (arith, away)))
  ];
  vacant = λ i hi. rw (==_of_ne {a = i} {b = t.next_pid} (omega arith)) (v.vacant i (omega arith));
  others_wait = λ i p ne got. ground (arith, v.others_wait i p ne, fresh.waits);
}

module _ {src : PageSource} (layout : Layout) (total : Answers src) where
  pub new_process_lem :
      (garbage : Context) (id start_phy this : ℕ) (s : src.State)
      → total.Valid s
      → (proc : Process) × (s' : src.State) × (new_process src layout garbage id start_phy this s
          ≡ some (proc, s'))
        × IsNew id proc
        × total.Valid s'
  unfolding new_process kernel_page_alloc physical_page_alloc log2 map_user_addr
  new_process_lem garbage id start_phy this s v =
      let (pts, s1, e1, v1) = total.answer 22 s (omega arith) v in
      let (image, s2, e2, v2) = total.answer 23 s1 (omega arith) v1 in
      let (stack, s3, e3, v3) = total.answer 20 s2 (omega arith) v2 in
      (
        built_process src layout garbage id start_phy this (kernel2phy (add64 kernel_start pts))
            image stack,
        s3,
        rw (e1, e2, e3),
        record { named = refl; waits = refl; brk_lo = refl; brk_hi = refl },
        v3,
      )

  -- On a table that meets the invariant, with a pid left in the array, and with an allocator that answers in its valid states,
  -- `create_process` returns the pid `next_pid` from such a state; the table then holds a new waiting
  -- process of that id and meets the invariant again, and the allocator's state is valid again.
  pub create_process_lem :
      (garbage : Context) {t : ProcessTable} (s : src.State)
      → total.Valid s
      → IsTable t
      → t.next_pid < max_process
      → (t' : ProcessTable) × (s' : src.State) × (create_process src layout garbage t s
          ≡ some (t.next_pid, t', s'))
        × (t'.next_pid ≡ t.next_pid + 1)
        × (t'.current_pid ≡ t.current_pid)
        × ((proc : Process) × (t'.processes t.next_pid ≡ some proc) × IsNew t.next_pid proc)
        × IsTable t'
        × total.Valid s'
  unfolding create_process kernel_page_alloc
  create_process_lem garbage {t} s ready v room =
      let l : ℕ = log2 layout.sizeof_process + 1 in
      let size : ℕ = if ltb l 16 then 16 else l in
      let (mem, s1, e1, ready1) = total.answer size s (ground arith) ready in
      let this : ℕ = add64 kernel_start mem in
      let (proc, s2, e2, fresh, ready2) =
        new_process_lem garbage t.next_pid (kernel2phy this) this s1 ready1 in
      (
        record t { next_pid = t.next_pid + 1; processes = set_slot t.processes t.next_pid proc },
        s2,
        rw (e1, e2, lt→ltb _ _ room, v.vacant t.next_pid (omega arith)),
        refl,
        refl,
        (proc, rw (==_of_eq {a = t.next_pid} refl), fresh),
        added-IsTable v proc fresh,
        ready2,
      )

-- The user memory of a new process: its image at 1 MiB (8 MiB of it) and its stack at 33 MiB (1 MiB
-- of it) lie in the two blocks that were allocated, page by page, and no other page is mapped.
pub built_process_pt :
    (src : PageSource) (layout : Layout) (garbage : Context)
    (id start_phy this pts image stack j : ℕ)
    → (built_process src layout garbage id start_phy this pts image stack).pt j ≡ (
        if in_run 8448 256 j
        then user_entry (stack / 2 ^ 12 + (j - 8448))
        else if in_run 256 2048 j
        then user_entry (image / 2 ^ 12 + (j - 256))
        else zero_table j)
unfolding built_process
built_process_pt src layout garbage id start_phy this pts image stack j = simp map_user_addr_lem

-- The upper levels of a new process lead to its own page table, if that lies in a page-aligned block
-- of the physical address space: the walk of the first 1 GiB finds the table of the page, at every
-- level present, writable and open to user code.
pub built_process_walk :
    (src : PageSource) (layout : Layout) (garbage : Context)
    (id start_phy this pts image stack i : ℕ)
    → pts % 4096 ≡ 0
    → pts + sizeof_pts < 2 ^ 52
    → i < 512
    → let proc = built_process src layout garbage id start_phy this pts image stack in
      (proc.pml4t 0 ≡ user_entry (proc.pml4t 0).base_addr)
      × ((proc.pml4t 0).base_addr * 4096 ≡ pts + pdpt_offset)
      × (proc.pdpt 0 ≡ user_entry (proc.pdpt 0).base_addr)
      × ((proc.pdpt 0).base_addr * 4096 ≡ pts + pdt_offset)
      × (proc.pdt i ≡ user_entry (proc.pdt i).base_addr)
      × ((proc.pdt i).base_addr * 4096 ≡ pts + pt_offset + i * 512 * 8)
unfolding built_process process_pml4t process_pdpt process_pdt map_user_addr
built_process_walk src layout garbage id start_phy this pts image stack i al small h = (
  ground arith,
  omega arith,
  ground arith,
  omega arith,
  rw (lt→ltb _ _ h) (ground arith),
  rw (lt→ltb _ _ h) (omega arith),
)
