-- ===== src/Process/Fairness.antt =====
-- `schedule` called again and again: every process has its turn.
use modern.Base.{
  ℕ, zero, ltb, Bool-cases, subst, suc, ◌+◌, ◌-◌, ◌<◌, ◌≡◌, ◌⊎◌, inl, inr, true, false, Option,
  none, some, ◌>>=◌, if◌then◌else◌, refl, ◌∙◌, arith,
}
use modern.Process.Table.{ProcessTable, schedule}
use modern.Process.RoundRobin.{IsTable, successor, schedule_lem}

-- the scheduler called `n` times
unfoldable pub schedule_times : ℕ → ProcessTable → Option ProcessTable
schedule_times zero t = some t
schedule_times (suc n) t = schedule t >>= schedule_times n

>>=-assoc_at :
    (o : Option ProcessTable) (f g h : ProcessTable → Option ProcessTable)
    → ((u : ProcessTable) → h u ≡ (f u >>= g))
    → (o >>= h) ≡ (o >>= f >>= g)
>>=-assoc_at none f g h e = refl
>>=-assoc_at (some u) f g h e = e u

schedule_times-add :
    (m n : ℕ) (t : ProcessTable)
    → schedule_times (m + n) t ≡ (schedule_times m t >>= schedule_times n)
unfolding schedule_times
schedule_times-add zero n t = let e : zero + n ≡ n = omega arith in rw e
schedule_times-add (suc m) n t =
    let e : suc m + n ≡ suc (m + n) = omega arith in
    rw e (
      >>=-assoc_at (schedule t) (schedule_times m) (schedule_times n) (schedule_times (m + n))
        (schedule_times-add m n))

-- After `n` calls process `i` is the current one.
pub record Reaches (n : ℕ) (t : ProcessTable) (i : ℕ) : Type 0 where
  pub after : ProcessTable
  pub runs : schedule_times n t ≡ some after
  pub current : after.current_pid ≡ i
  pub size : after.next_pid ≡ t.next_pid
  pub valid : IsTable after

Reaches-trans :
    {m n i j : ℕ} {t : ProcessTable}
    → (r : Reaches m t i) → Reaches n r.after j
    → Reaches (m + n) t j
Reaches-trans {m} {n} {t} r s = record {
  after = s.after;
  runs = schedule_times-add m n t ∙ rw (r.runs) s.runs;
  current = s.current;
  size = s.size ∙ r.size;
  valid = s.valid;
}

Reaches-self : {t : ProcessTable} → IsTable t → Reaches 0 t t.current_pid
unfolding schedule_times
Reaches-self {t} v = record { after = t; runs = refl; current = refl; size = refl; valid = v }

Reaches-successor : {t : ProcessTable} → IsTable t → Reaches 1 t (successor t)
unfolding schedule_times
Reaches-successor {t} v =
    let (t', e, cur, size, v', runs) = schedule_lem v in
    record { after = t'; runs = rw e; current = cur; size = size; valid = v' }

-- Without a turn round the table, `n` calls go `n` pids on.
Reaches-ahead :
    (n : ℕ) {t : ProcessTable}
    → IsTable t
    → t.current_pid + n < t.next_pid
    → Reaches n t (t.current_pid + n)
Reaches-ahead zero {t} v h = subst (Reaches 0 t) (omega arith) (Reaches-self v)
Reaches-ahead (suc n) {t} v h =
    let r = Reaches-successor v in
    let e : r.after.current_pid ≡ t.current_pid + 1 = ground (arith, r.current) in
    subst (λ k. Reaches k t (t.current_pid + suc n)) {x = 1 + n} (omega arith)
      (Reaches-trans r (
        subst (Reaches n r.after) (omega (arith, e))
          (Reaches-ahead n r.valid (omega (arith, e, r.size)))))

-- how many calls it takes from the current process to process `i`
abbrev pub turns : ProcessTable → ℕ → ℕ
turns t i =
    if ltb t.current_pid i
    then i - t.current_pid
    else t.next_pid - 1 - t.current_pid + (1 + (i - 1))

-- No process starves: on a table that meets the invariant, every process in it becomes the current
-- one after at least one and at most as many calls of `schedule` as there are processes.
pub schedule_fair :
    {t : ProcessTable} (i : ℕ)
    → IsTable t
    → 0 < i
    → i < t.next_pid
    → (n : ℕ) × (0 < n) × (n < t.next_pid) × Reaches n t i
schedule_fair {t} i v lo hi =
    (turns t i, ground arith, ground (arith, v.current_lt), go (Bool-cases (ltb t.current_pid i)))
  where
    go : ((ltb t.current_pid i ≡ true) ⊎ (ltb t.current_pid i ≡ false)) → Reaches (turns t i) t i
    go (inl ahead) = rw ahead (
        subst (Reaches (i - t.current_pid) t) (ground arith)
          (Reaches-ahead (i - t.current_pid) v (ground arith)))
    go (inr behind) = rw behind (
        let r = Reaches-ahead (t.next_pid - 1 - t.current_pid) v (omega (arith, v.current_lt)) in
        let wrap = Reaches-successor r.valid in
        let at_one : wrap.after.current_pid ≡ 1 =
          ground (arith, wrap.current, r.current, r.size, v.current_lt) in
        Reaches-trans r (
          Reaches-trans wrap (
            subst (Reaches (i - 1) wrap.after) (omega (arith, at_one))
              (Reaches-ahead (i - 1) wrap.valid (omega (arith, at_one, wrap.size, r.size))))))
