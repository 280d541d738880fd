-- ===== src/Unwind/Frames.antt =====
-- common/unwind.cpp: when the walk ends, and what it reads.
use modern.Base.{
  ℕ, zero, suc, ◌+◌, ◌-◌, ◌≤◌, ◌<◌, ◌≡◌, ◌^◌, inl, inr, Bool, true, false, ◌&&◌, ◌==◌, leb, some,
  none, List, [], ◌∷◌, refl, arith, Bool-cases,
}
use modern.Base.Bytes.{add64}
use modern.Unwind.{StackRange, in_stack, valid_rbp, Frame, frame_at, iterate}

==_self : (n : ℕ) → (n == n) ≡ true
==_self n = ground arith

leb_holds : (a b : ℕ) → a ≤ b → leb a b ≡ true
leb_holds a b h = ground arith

-- A chain of frames, from a frame to the one that it links to.
abbrev pub linked : ℕ → List Frame → Bool
linked rbp [] = true
linked rbp (f ∷ fs) = (f.at == rbp) && linked f.prev_rbp fs

-- every frame was read at an address that the walk found valid
abbrev pub all_valid : (ℕ → Bool) → List Frame → Bool
all_valid valid [] = true
all_valid valid (f ∷ fs) = valid f.at && all_valid valid fs

-- An address within the last 15 bytes below 2 ^ 64 is taken for a frame of any stack that begins
-- below it and is not empty, since the sum with 16 wraps.
pub valid_rbp-wraps :
    (kthread : StackRange) (stacks : List StackRange) (rbp : ℕ)
    → 2 ^ 64 - 16 ≤ rbp
    → rbp < 2 ^ 64
    → kthread.0 ≤ rbp
    → 16 ≤ kthread.1
    → valid_rbp kthread stacks rbp ≡ true
unfolding valid_rbp in_stack
valid_rbp-wraps (start, end) stacks rbp high word above room =
    let lo = leb_holds start rbp above in
    let hi = leb_holds (add64 rbp 16) end (omega arith) in rw (lo, hi) refl

module _ (kthread : StackRange) (stacks : List StackRange) (mem : ℕ → ℕ)
    (callback : ℕ → ℕ → Bool) where
  abbrev valid : ℕ → Bool
  valid = valid_rbp kthread stacks

  -- what the links lead to from `rbp`, `k` of them followed
  abbrev pub nth_link : ℕ → ℕ → ℕ
  nth_link zero rbp = rbp
  nth_link (suc k) rbp = nth_link k (mem rbp)

  -- Along the links from `rbp`, as long as they lead to valid frames, each frame is above the one before.
  abbrev pub Climbs : ℕ → Type 0
  Climbs rbp =
      (k : ℕ)
      → ((j : ℕ) → j ≤ suc k → valid (nth_link j rbp) ≡ true)
      → nth_link k rbp < nth_link (suc k) rbp

  iterate_outside :
      (fuel rbp : ℕ) → 0 < fuel → valid rbp ≡ false → iterate valid mem callback fuel rbp ≡ some []
  unfolding iterate
  iterate_outside zero rbp pos outside = absurd (omega arith)
  iterate_outside (suc fuel) rbp pos outside = rw outside refl

  Climbs-mem : (rbp : ℕ) → valid rbp ≡ true → Climbs rbp → Climbs (mem rbp)
  Climbs-mem rbp inside up k good = up (suc k) (λ j h. below j h)
    where
      below : (j : ℕ) → j ≤ suc (suc k) → valid (nth_link j rbp) ≡ true
      below zero h = inside
      below (suc j) h = good j (omega arith)

  first_climb : (rbp : ℕ) → valid rbp ≡ true → valid (mem rbp) ≡ true → Climbs rbp → rbp < mem rbp
  first_climb rbp inside next up = up 0 (λ j h. below j h)
    where
      below : (j : ℕ) → j ≤ 1 → valid (nth_link j rbp) ≡ true
      below zero h = inside
      below (suc zero) h = next
      below (suc (suc j)) h = absurd (omega arith)

  -- Where the frames that the links lead to, up to the first link out of the stacks, are each above the
  -- one before, as those of a stack that grows down are, the walk ends, whatever the callback
  -- answers, within one round for each address from the first frame on and one more. It reads no
  -- frame that is not valid, and each frame but the first is the one that the frame before it links
  -- to.
  pub iterate_lem :
      (fuel rbp : ℕ)
      → Climbs rbp
      → ((r : ℕ) → mem r < 2 ^ 64)
      → rbp < 2 ^ 64
      → 2 ^ 64 < rbp + fuel
      → (frames : List Frame) × (iterate valid mem callback fuel rbp ≡ some frames)
        × (all_valid valid frames ≡ true)
        × (linked rbp frames ≡ true)
  unfolding iterate
  iterate_lem zero rbp up words word enough = absurd (omega arith)
  iterate_lem (suc fuel) rbp up words word enough = elim (Bool-cases (valid rbp)) [
    | inr outside ↦ ([], rw outside refl, refl, refl)
    | inl inside ↦ elim (Bool-cases (callback (mem rbp) (mem (rbp + 8)))) [
      | inr stops ↦
          (frame_at mem rbp ∷ [], rw (inside, stops) refl, rw inside refl, rw (==_self rbp) refl)
      | inl goes_on ↦ elim (Bool-cases (valid (mem rbp))) [
        | inr ends ↦ (
          frame_at mem rbp ∷ [],
          rw (inside, goes_on, iterate_outside fuel (mem rbp) (omega arith) ends) refl,
          rw inside refl,
          rw (==_self rbp) refl,
        )
        | inl next ↦
            let (frames, runs, good, chain) =
              iterate_lem fuel (mem rbp) (Climbs-mem rbp inside up) words (words rbp)
                (omega (arith, first_climb rbp inside next up)) in
            (
              frame_at mem rbp ∷ frames,
              rw (inside, goes_on, runs) refl,
              rw (inside, good) refl,
              rw (==_self rbp, chain) refl,
            )
      ]
    ]
  ]

  -- A valid frame that links to itself is read for ever by a callback that goes on.
  pub iterate-loop :
      (rbp fuel : ℕ)
      → valid rbp ≡ true
      → mem rbp ≡ rbp
      → callback rbp (mem (rbp + 8)) ≡ true
      → iterate valid mem callback fuel rbp ≡ none
  unfolding iterate
  iterate-loop rbp zero inside self goes_on = refl
  iterate-loop rbp (suc fuel) inside self goes_on =
      rw (inside, self, goes_on, iterate-loop rbp fuel inside self goes_on) refl
