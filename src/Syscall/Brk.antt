-- ===== src/Syscall/Brk.antt =====
-- `sys_anon_allocate` of syscall.cpp: the addresses that it hands out and the pages behind them.
use modern.Base.{
  ℕ, ◌+◌, ◌-◌, ◌*◌, ◌/◌, ◌%◌, ◌^◌, ◌≤◌, ◌<◌, ◌≡◌, true, false, none, some, ltb, leb, if◌then◌else◌,
  refl, ◌∙◌, ◌&&◌, arith,
}
use modern.Base.Bytes.{add64, u64_mod}
use modern.Process.Defs.{Process}
use modern.Process.Paging.{map_user_addr_lem, brk-map_user_addr, user_entry}
use modern.Syscall.Calls.{page_align, anon_map, minus_one}

-- `page_align` rounds up to whole pages, for every size that does not wrap.
pub page_align_bounds :
    (size : ℕ)
    → size + 4095 < u64_mod
    → (size ≤ page_align size) × (page_align size < size + 4096) × (page_align size % 4096 ≡ 0)
unfolding page_align
page_align_bounds size h = omega arith

-- A size within a page of 2 ^ 64 is rounded to 0.
pub page_align_wraps : (size : ℕ) → size < u64_mod → u64_mod ≤ size + 4095 → page_align size ≡ 0
unfolding page_align
page_align_wraps size h w = omega arith

-- A heap that starts at a page and whose end cannot wrap.
pub record IsBrk (proc : Process) : Type 0 where
  pub aligned : proc.brk_start % 4096 ≡ 0
  pub small : proc.brk_end < 2 ^ 32

-- A request of whole pages that fits below `brk_end` succeeds: it stores the old `brk_start`, moves
-- `brk_start` on by the size, and maps exactly the pages in between, to the frames of the buffer;
-- the heap stays aligned and within its end.
pub anon_map_fits :
    (proc : Process) (size buf j : ℕ)
    → IsBrk proc
    → size % 4096 ≡ 0
    → proc.brk_start + size ≤ proc.brk_end
    → let e = anon_map proc size buf in
      (e.result ≡ 0)
      × (e.stored ≡ some (proc.context.rsi, proc.brk_start))
      × (e.process.brk_start ≡ proc.brk_start + size)
      × (e.process.brk_start ≤ e.process.brk_end)
      × (e.process.pt j ≡ (
          if leb proc.brk_start (j * 4096) && ltb (j * 4096) (proc.brk_start + size)
          then user_entry (buf / 4096 + (j - proc.brk_start / 4096))
          else proc.pt j))
      × IsBrk e.process
unfolding anon_map
anon_map_fits proc size buf j v al fits =
    let sum : add64 proc.brk_start size ≡ proc.brk_start + size = omega (arith, v.small) in
    let open_end : ltb proc.brk_end (add64 proc.brk_start size) ≡ false = ground arith in
    let moved : Process = record proc { brk_start = add64 proc.brk_start size } in
    let (lo, hi) = brk-map_user_addr moved proc.brk_start buf (size / 4096) in
    rw open_end (
      refl,
      refl,
      lo ∙ sum,
      omega (arith, lo, hi, sum),
      map_user_addr_lem moved proc.brk_start buf (size / 4096) j ∙ ground (arith, v.aligned),
      record { aligned = omega (arith, lo, sum, v.aligned); small = omega (arith, hi, v.small) },
    )

-- A request that does not fit is refused with -1 and maps nothing, but it moves `brk_start` past
-- the end of the heap.
pub anon_map_refuses :
    (proc : Process) (size buf : ℕ)
    → proc.brk_start + size < u64_mod
    → proc.brk_end < proc.brk_start + size
    → let e = anon_map proc size buf in
      (e.result ≡ minus_one)
      × (e.stored ≡ none)
      × (e.process.pt ≡ proc.pt)
      × (e.process.brk_start ≡ proc.brk_start + size)
      × (e.process.brk_end ≡ proc.brk_end)
unfolding anon_map
anon_map_refuses proc size buf small over =
    let closed : ltb proc.brk_end (add64 proc.brk_start size) ≡ true = ground arith in
    rw closed (refl, refl, refl, omega arith, refl)

-- One refused request spoils the heap: after it every request is refused, also one that would have
-- fitted before, as long as the sums do not wrap.
pub anon_map_spoiled :
    (proc : Process) (size later buf buf' : ℕ)
    → proc.brk_start + size + later < u64_mod
    → proc.brk_end < proc.brk_start + size
    → (anon_map (anon_map proc size buf).process later buf').result ≡ minus_one
anon_map_spoiled proc size later buf buf' small over =
    let first = anon_map_refuses proc size buf (omega arith) over in
    (anon_map_refuses (anon_map proc size buf).process later buf' (omega (arith, first.3))
      (omega (arith, first.3, first.4))).0
