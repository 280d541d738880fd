-- ===== src/Irq/Handlers.antt =====
-- irq.cpp: `Register` and `HandleInterrupt`. The handlers are functions that the source is given; what
-- they do to the rest of the system is a parameter.
use modern.Base.{
  ℕ, zero, suc, ◌+◌, ◌≤◌, ◌<◌, ◌≡◌, Bool, true, false, Option, none, some, List, [], ◌∷◌, ◌++◌,
  ◌>>=◌, ◌>>◌, guard, ◌==◌, ==_of_eq, ==_of_ne, ltb, leb, ◌&&◌, if◌then◌else◌, length,
  length-append, refl, sym, ap, ◌∙◌, arith, ℕ_discrete,
}
use modern.SmallVec.{SmallVec, empty, with_last, emplace_back}
use modern.SmallVec.Laws.{run, elements, elements-with_last, emplace_back_lem}

abbrev pub max_interrupts : ℕ
max_interrupts = 256

abbrev pub max_handlers_per_interrupt : ℕ
max_handlers_per_interrupt = 16

-- `IrqHandlerInfo`, without the registers
pub record IrqHandlerInfo : Type 0 where
  pub irq_num : ℕ
  pub error_code : ℕ
  pub pid : ℕ

-- interrupt `j` is one of the `n` from `first` on
abbrev pub in_turn : ℕ → ℕ → ℕ → Bool
in_turn first n j = leb first j && ltb j (first + n)

module _ {H : Type 0} where
  -- `Register` of one interrupt; `none` is an index outside the array, or a handler behind the room
  -- of its vector.
  unfoldable pub register : (ℕ → SmallVec H) → ℕ → H → Option (ℕ → SmallVec H)
  register interrupts id handler = do
    guard (ltb id max_interrupts)
    handlers ← emplace_back max_handlers_per_interrupt (interrupts id) handler
    some (λ i. if i == id then handlers else interrupts i)

  -- `Register` of a range: the rounds from `i` on, `n` of them left
  unfoldable pub register_range : (ℕ → SmallVec H) → ℕ → ℕ → ℕ → H → Option (ℕ → SmallVec H)
  unfolding register
  register_range interrupts start_id i zero handler = some interrupts
  register_range interrupts start_id i (suc n) handler = do
    interrupts ← register interrupts (start_id + i) handler
    register_range interrupts start_id (i + 1) n handler

  -- the handlers one after the other, on the state of the system
  abbrev pub run_all : {S : Type 0} → (H → IrqHandlerInfo → S → S) → IrqHandlerInfo → List H → S → S
  run_all act info [] s = s
  run_all act info (h ∷ hs) s = run_all act info hs (act h info s)

  -- `HandleInterrupt`; `none` is the halt on an interrupt that nobody handles.
  unfoldable pub handle_interrupt :
      {S : Type 0} → (H → IrqHandlerInfo → S → S) → (ℕ → SmallVec H) → IrqHandlerInfo → S → Option S
  handle_interrupt act interrupts info s =
      let handlers = interrupts info.irq_num in
      if empty handlers then none else some (run_all act info (elements handlers) s)

  length-run : (f : ℕ → H) (i n : ℕ) → length (run f i n) ≡ n
  length-run f i zero = refl
  length-run f i (suc n) = ap suc (length-run f (i + 1) n)

  run_all-snoc :
      {S : Type 0} (act : H → IrqHandlerInfo → S → S) (info : IrqHandlerInfo) (hs : List H) (h : H)
      (s : S)
      → run_all act info (hs ++ (h ∷ [])) s ≡ act h info (run_all act info hs s)
  run_all-snoc act info [] h s = refl
  run_all-snoc act info (g ∷ hs) h s = run_all-snoc act info hs h (act g info s)

  -- What `handle_interrupt` does is told by the list of the handlers alone.
  handle_interrupt-elements :
      {S : Type 0} (act : H → IrqHandlerInfo → S → S) (interrupts : ℕ → SmallVec H)
      (info : IrqHandlerInfo) (s : S) (hs : List H) (h : H)
      → elements (interrupts info.irq_num) ≡ hs ++ (h ∷ [])
      → handle_interrupt act interrupts info s ≡ some (act h info (run_all act info hs s))
  unfolding handle_interrupt empty
  handle_interrupt-elements act interrupts info s hs h e =
      let v = interrupts info.irq_num in
      let some_there : v.len ≡ length hs + 1 =
        sym (length-run v.buf 0 v.len) ∙ ap length e ∙ length-append hs (h ∷ []) in
      let full : (v.len == 0) ≡ false = ground (arith, some_there) in
      rw (full, e) (ap some (run_all-snoc act info hs h s))

  register_range_from :
      (interrupts : ℕ → SmallVec H) (start i n : ℕ) (handler : H)
      → start + i + n ≤ max_interrupts
      → ((j : ℕ)
          → start + i ≤ j
          → j < start + i + n
          → (interrupts j).len < max_handlers_per_interrupt)
      → (after : ℕ → SmallVec H) × (register_range interrupts start i n handler ≡ some after)
        × ((j : ℕ)
            → elements (after j) ≡ (
                if in_turn (start + i) n j
                then elements (interrupts j) ++ (handler ∷ [])
                else elements (interrupts j)))
  unfolding register_range register
  register_range_from interrupts start i zero handler room free = (
    interrupts,
    refl,
    λ j. let away : in_turn (start + i) 0 j ≡ false = ground arith in rw away refl,
  )
  register_range_from interrupts start i (suc n) handler room free =
      let id : ℕ = start + i in
      let first : ℕ → SmallVec H =
        λ k. if k == id then with_last (interrupts id) handler else interrupts k in
      let inside : ltb id max_interrupts ≡ true = ground arith in
      let still : (j : ℕ)
          → start + (i + 1) ≤ j
          → j < start + (i + 1) + n
          → (first j).len < max_handlers_per_interrupt =
        λ j lo hi.
          rw (==_of_ne {a = j} {b = id} (omega arith)) (free j (omega arith) (omega arith)) in
      let added =
        emplace_back_lem max_handlers_per_interrupt (interrupts id) handler
          (free id (omega arith) (omega arith)) in
      let (after, runs, each) =
        register_range_from first start (i + 1) n handler (omega arith) still in
      (
        after,
        rw (inside, added) runs,
        λ j. each j ∙ elim (ℕ_discrete j id) [
          | yes here ↦
              let later : in_turn (start + (i + 1)) n j ≡ false = ground arith in
              let now : in_turn id (suc n) j ≡ true = ground arith in
              rw (later, now, ==_of_eq here)
                (elements-with_last (interrupts id) handler
                  ∙ ap (λ k. elements (interrupts k) ++ (handler ∷ [])) (sym here))
          | no away ↦
              let same : in_turn (start + (i + 1)) n j ≡ in_turn id (suc n) j = ground arith in
              rw (same, ==_of_ne away) refl
        ],
      )

  -- `Register` of the `count` interrupts from `start` on, all in the array and with room for one more
  -- handler, succeeds: each of them has
  -- the handler behind those that it had, and every other interrupt has the handlers that it had.
  pub register_range_lem :
      (interrupts : ℕ → SmallVec H) (start count : ℕ) (handler : H)
      → start + count ≤ max_interrupts
      → ((j : ℕ) → start ≤ j → j < start + count → (interrupts j).len < max_handlers_per_interrupt)
      → (after : ℕ → SmallVec H) × (register_range interrupts start 0 count handler ≡ some after)
        × ((j : ℕ)
            → elements (after j) ≡ (
                if in_turn (start + 0) count j
                then elements (interrupts j) ++ (handler ∷ [])
                else elements (interrupts j)))
  register_range_lem interrupts start count handler room free =
      register_range_from interrupts start 0 count handler (omega arith)
        (λ j lo hi. free j (omega arith) (omega arith))

  -- An interrupt in a range that a handler was registered for, with room for it at each, does not halt the machine: the handlers
  -- that it had before run in their order, then the new one.
  pub handle_interrupt-register_range :
      {S : Type 0} (act : H → IrqHandlerInfo → S → S) (interrupts : ℕ → SmallVec H)
      (start count : ℕ) (handler : H) (info : IrqHandlerInfo) (s : S)
      → start + count ≤ max_interrupts
      → ((j : ℕ) → start ≤ j → j < start + count → (interrupts j).len < max_handlers_per_interrupt)
      → start ≤ info.irq_num
      → info.irq_num < start + count
      → (after : ℕ → SmallVec H) × (register_range interrupts start 0 count handler ≡ some after)
        × (handle_interrupt act after info s
            ≡ some (act handler info (run_all act info (elements (interrupts info.irq_num)) s)))
  handle_interrupt-register_range act interrupts start count handler info s room free lo hi =
      let (after, runs, each) = register_range_lem interrupts start count handler room free in
      let turn : in_turn (start + 0) count info.irq_num ≡ true = ground arith in
      (
        after,
        runs,
        handle_interrupt-elements act after info s (elements (interrupts info.irq_num)) handler
            (each info.irq_num ∙ rw turn refl),
      )
