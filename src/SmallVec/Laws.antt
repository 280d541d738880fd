-- ===== src/SmallVec/Laws.antt =====
-- What the operations of `SmallVec` do, against the list of its elements.
use modern.Base.{
  ℕ, zero, suc, ◌+◌, ◌-◌, ◌≤◌, ◌<◌, ◌≡◌, true, false, some, List, [], ◌∷◌, ◌++◌, ltb, leb, lt→ltb,
  if◌then◌else◌, refl, ap, ap₂, ◌∙◌, arith,
}
use modern.SmallVec.{
  SmallVec, put, with_last, emplace_back, push_back, pop_back, back, construct, resize, index_mut,
}

module _ {ℓ} {A : Type ℓ} where
  -- the `n` elements from index `i` on
  abbrev pub run : (ℕ → A) → ℕ → ℕ → List A
  run f i zero = []
  run f i (suc n) = f i ∷ run f (i + 1) n

  abbrev pub elements : SmallVec A → List A
  elements v = run v.buf 0 v.len

  run-snoc : (f : ℕ → A) (i n : ℕ) → run f i (suc n) ≡ run f i n ++ (f (i + n) ∷ [])
  run-snoc f i zero = ap (λ k. f k ∷ []) (omega arith)
  run-snoc f i (suc n) =
      ap (λ r. f i ∷ r)
        (run-snoc f (i + 1) n ∙ ap (λ k. run f (i + 1) n ++ (f k ∷ [])) (omega arith))

  run-eq :
      (f g : ℕ → A) (i n : ℕ) → ((j : ℕ) → i ≤ j → j < i + n → g j ≡ f j) → run g i n ≡ run f i n
  run-eq f g i zero same = refl
  run-eq f g i (suc n) same =
      ap₂ ◌∷◌ (same i (omega arith) (omega arith))
        (run-eq f g (i + 1) n (λ j lo hi. same j (omega arith) (omega arith)))

  run-put : (f : ℕ → A) (n : ℕ) (x : A) → run (put f n x) 0 n ≡ run f 0 n
  run-put f n x = run-eq f (put f n x) 0 n (λ j lo hi. ground arith)

  -- One element more is at the end.
  pub elements-with_last :
      (v : SmallVec A) (x : A) → elements (with_last v x) ≡ elements v ++ (x ∷ [])
  elements-with_last v x =
      ap (run (put v.buf v.len x) 0) {y = suc v.len} (omega arith)
      ∙ run-snoc (put v.buf v.len x) 0 v.len
      ∙ ap₂ (λ r y. r ++ (y ∷ [])) (run-put v.buf v.len x) (ground arith)

  -- While there is room, `emplace_back` succeeds.
  pub emplace_back_lem :
      (capacity : ℕ) (v : SmallVec A) (x : A)
      → v.len < capacity
      → emplace_back capacity v x ≡ some (with_last v x)
  unfolding emplace_back
  emplace_back_lem capacity v x room = rw (lt→ltb _ _ room) refl

  -- After `push_back` of an element, with room for it, `back` is that element and `pop_back` restores
  -- the elements.
  pub pop_back-push_back :
      (capacity : ℕ) (v : SmallVec A) (x : A)
      → v.len < capacity
      → (u w : SmallVec A) × (push_back capacity v x ≡ some u)
        × (back u ≡ some x)
        × (pop_back u ≡ some w)
        × (elements w ≡ elements v)
  unfolding push_back pop_back back
  pop_back-push_back capacity v x room = (
    with_last v x,
    record { buf = put v.buf v.len x; len = v.len },
    rw (lt→ltb _ _ room) refl,
    ground arith,
    ground arith,
    run-put v.buf v.len x,
  )

  construct_lem :
      (default : A) (f : ℕ → A) (i n j : ℕ)
      → construct default f i n j
        ≡ (if ltb j i then f j else if ltb j (i + n) then default else f j)
  unfolding construct
  construct_lem default f i zero j = ground arith
  construct_lem default f i (suc n) j =
      ground (arith, construct_lem default (put f i default) (i + 1) n j)

  -- `resize` to a size that is not smaller, inside the capacity, leaves the size and the elements as
  -- they are; the new elements are built beyond the end.
  pub resize_larger :
      (capacity : ℕ) (default : A) (v : SmallVec A) (n : ℕ)
      → v.len < n
      → n ≤ capacity
      → (w : SmallVec A) × (resize capacity default v n ≡ some w)
        × (w.len ≡ v.len)
        × (elements w ≡ elements v)
        × ((j : ℕ) → v.len ≤ j → j < n → w.buf j ≡ default)
  unfolding resize
  resize_larger capacity default v n h room =
      let kept : ltb n v.len ≡ false = ground arith in
      let grows : ltb v.len n ≡ true = ground arith in
      let fits : leb n capacity ≡ true = ground arith in
      (
        record v { buf = construct default v.buf v.len (n - v.len) },
        rw (kept, grows, fits) refl,
        refl,
        run-eq v.buf (construct default v.buf v.len (n - v.len)) 0 v.len (λ j lo hi.
            let before : ltb j v.len ≡ true = ground arith in
            construct_lem default v.buf v.len (n - v.len) j ∙ rw before),
        λ j lo hi.
            let after : ltb j v.len ≡ false = ground arith in
            let built : ltb j (v.len + (n - v.len)) ≡ true = ground arith in
            construct_lem default v.buf v.len (n - v.len) j ∙ rw (after, built),
      )

  -- The `operator[]` of a vector that may be changed ignores its index: it is the slot past the end.
  pub index_mut_lem :
      (capacity : ℕ) (v : SmallVec A) (i : ℕ)
      → v.len < capacity
      → index_mut capacity v i ≡ some (v.buf v.len)
  unfolding index_mut
  index_mut_lem capacity v i room = rw (lt→ltb _ _ room) refl
