-- ===== src/Process/RoundRobin.antt =====
-- `schedule` is a round robin: its invariant, and which process it picks.
use modern.Base.{
  ℕ, suc, ◌+◌, ◌-◌, ◌≤◌, ◌<◌, ◌≡◌, ◌≢◌, true, none, some, ◌==◌, ==_of_eq, ==_of_ne, if◌then◌else◌,
  ap, refl, sym, ◌∙◌, arith, ℕ_discrete,
}
use modern.Process.Defs.{wait, running, Process}
use modern.Process.Table.{ProcessTable, set_slot, is_ready, next_slot, schedule_loop, schedule}

-- Slots 1 up to `next_pid` hold the processes of those ids, the others are empty, and no process
-- but the current one is marked as running.
pub record IsTable (t : ProcessTable) : Type 0 where
  pub current_pos : 0 < t.current_pid
  pub current_lt : t.current_pid < t.next_pid
  pub filled :
      (i : ℕ) → 0 < i → i < t.next_pid → (p : Process) × (t.processes i ≡ some p) × (p.id ≡ i)
  pub vacant : (i : ℕ) → t.next_pid ≤ i → t.processes i ≡ none
  pub others_wait :
      (i : ℕ) (p : Process) → i ≢ t.current_pid → t.processes i ≡ some p → p.state ≡ wait

-- the pid after the current one, round the table
abbrev pub successor : ProcessTable → ℕ
successor t = if (t.current_pid + 1) == t.next_pid then 1 else t.current_pid + 1

loop_ready :
    (fuel : ℕ) (t : ProcessTable) (pid : ℕ) (proc : Process)
    → next_slot t ≡ pid
    → t.processes pid ≡ some proc
    → is_ready (some proc) ≡ true
    → schedule_loop (suc fuel) t
      ≡ some (record t {
        current_pid = pid;
        processes = set_slot t.processes pid (record proc { state = running });
      })
unfolding schedule_loop
loop_ready fuel t pid proc e got r = rw (← e) (
    let got' : t.processes (next_slot t) ≡ some proc = rw (← e) at got in
    rw (got', schedule_loop) (rw r))

loop_vacant :
    (fuel : ℕ) (t : ProcessTable) (pid : ℕ)
    → next_slot t ≡ pid
    → t.processes pid ≡ none
    → schedule_loop (suc fuel) t ≡ schedule_loop fuel (record t { current_pid = pid })
unfolding schedule_loop
loop_vacant fuel t pid e got =
    rw (← e)
      (let got' : t.processes (next_slot t) ≡ none = rw (← e) at got in rw (got', schedule_loop))

ready_of_wait : (p : Process) → 0 < p.id → p.state ≡ wait → is_ready (some p) ≡ true
unfolding is_ready
ready_of_wait p h e = ground arith

-- The current process has been set to wait; every slot in use is ready then.
module _ {t : ProcessTable} (v : IsTable t) (p : Process)
    (e : t.processes t.current_pid ≡ some p) where
  waiting : ProcessTable
  waiting = record t { processes = set_slot t.processes t.current_pid (record p { state = wait }) }

  slot_ready :
      (i : ℕ)
      → 0 < i
      → i < t.next_pid
      → (q : Process) × (waiting.processes i ≡ some q) × (q.id ≡ i) × (q.state ≡ wait)
  unfolding waiting
  slot_ready i lo hi = elim (ℕ_discrete i t.current_pid) [
    | yes here ↦ (
      record p { state = wait },
      rw (==_of_eq here),
      (let (q, at, named) = v.filled i lo hi in ground (arith, ap t.processes here)),
      refl,
    )
    | no away ↦
        let (q, at, named) = v.filled i lo hi in
        (q, rw (==_of_ne away) at, named, v.others_wait i q away at)
  ]

  slot_vacant : waiting.processes t.next_pid ≡ none
  unfolding waiting
  slot_vacant =
      let away : t.next_pid ≢ t.current_pid = omega (arith, v.current_lt) in
      rw (==_of_ne away) (v.vacant t.next_pid (omega arith))

  -- what the loop leaves when it picks the process `q` of slot `pid`
  picked : ℕ → Process → ProcessTable
  picked pid q = record t {
    current_pid = pid;
    processes = set_slot waiting.processes pid (record q { state = running });
  }

  loop_picks :
      (q : Process)
      → waiting.processes (successor t) ≡ some q
      → is_ready (some q) ≡ true
      → schedule_loop (t.next_pid + 1) waiting ≡ some (picked (successor t) q)
  unfolding waiting picked next_slot
  loop_picks q at r = elim (ℕ_discrete (t.current_pid + 1) t.next_pid) [
    | yes last ↦
        let fuel : t.next_pid + 1 ≡ suc (suc (t.next_pid - 1)) = omega (arith, v.current_lt) in
        rw fuel (
          loop_vacant (suc (t.next_pid - 1)) waiting t.next_pid (ground (arith, v.current_lt))
            slot_vacant
          ∙ loop_ready (t.next_pid - 1) (record waiting { current_pid = t.next_pid }) (successor t)
              q (ground arith) at r)
    | no inside ↦
        let fuel : t.next_pid + 1 ≡ suc t.next_pid = omega arith in
        rw fuel (loop_ready t.next_pid waiting (successor t) q (ground (arith, v.current_lt)) at r)
  ]

  picked-IsTable :
      (q : Process)
      → waiting.processes (successor t) ≡ some q
      → q.id ≡ successor t
      → IsTable (picked (successor t) q)
  unfolding waiting picked
  picked-IsTable q at named = record {
    current_pos = ground arith;
    current_lt = ground (arith, v.current_lt);
    filled = λ i lo hi. elim (ℕ_discrete i (successor t)) [
      | yes here ↦ (record q { state = running }, rw (==_of_eq here), named ∙ sym here)
      | no away ↦
          let (r, got, r_named, waits) = slot_ready i lo hi in (r, rw (==_of_ne away) got, r_named)
    ];
    vacant = λ i hi.
        rw
          (
            ==_of_ne {a = i} {b = successor t} (ground (arith, v.current_lt)),
            ==_of_ne {a = i} {b = t.current_pid} (omega (arith, v.current_lt)),
          )
          (v.vacant i hi);
    others_wait = λ i r ne got. ground (arith, v.others_wait i r, ne);
  }

-- On a table that meets the invariant `schedule` returns: it picks the next pid round the table,
-- marks that process as running and keeps the invariant, so every other process waits.
pub schedule_lem :
    {t : ProcessTable}
    → IsTable t
    → (t' : ProcessTable) × (schedule t ≡ some t')
      × (t'.current_pid ≡ successor t)
      × (t'.next_pid ≡ t.next_pid)
      × IsTable t'
      × ((p : Process) × (t'.processes t'.current_pid ≡ some p) × (p.state ≡ running))
unfolding schedule waiting picked
schedule_lem {t} v =
    let (p, e, p_named) = v.filled t.current_pid v.current_pos v.current_lt in
    let (q, got, named, waits) =
      slot_ready v p e (successor t) (ground arith) (ground (arith, v.current_lt)) in
    (
      picked v p e (successor t) q,
      rw e (loop_picks v p e q got (ready_of_wait q (rw named (ground arith)) waits)),
      refl,
      refl,
      picked-IsTable v p e q got named,
      (record q { state = running }, rw (==_of_eq {a = successor t} refl), refl),
    )
