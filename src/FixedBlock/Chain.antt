-- ===== src/FixedBlock/Chain.antt =====
-- The free list of a `FixedBlockAllocator` as a list of blocks.
use modern.Base.{
  ℕ, zero, suc, ◌+◌, ◌-◌, ◌≤◌, ◌<◌, ◌≡◌, ◌≢◌, false, Option, none, some, List, [], ◌∷◌, ◌==◌, ◌&&◌,
  leb, ltb, if◌then◌else◌, refl, sym, subst, ◌∙◌, ap, arith,
}
use modern.FixedBlock.{FixedBlock, set_next_ptr, link_blocks, new_fixed_block, allocate, free}
use modern.Buddy.Ring.{has, Distinct}

-- the links lead from `p` through `xs` and then to `z`
abbrev pub Links : (ℕ → Option ℕ) → ℕ → List ℕ → ℕ → Type 0
Links f p [] z = f p ≡ some z
Links f p (x ∷ xs) z = (f p ≡ some x) × Links f x xs z

-- The blocks `xs` are free, in this order, and `sentry` is the block behind them, which is never
-- handed out.
abbrev pub IsFreeList : FixedBlock → List ℕ → ℕ → Type 0
IsFreeList a [] sentry = (a.head ≡ some sentry) × (a.tail ≡ some sentry)
IsFreeList a (x ∷ xs) sentry =
    (a.head ≡ some x)
    × (a.tail ≡ some sentry)
    × Links a.next x xs sentry
    × (has sentry (x ∷ xs) ≡ false)
    × Distinct (x ∷ xs)

Links-set :
    (f : ℕ → Option ℕ) (p : ℕ) (xs : List ℕ) (z q : ℕ) (v : Option ℕ)
    → has q (p ∷ xs) ≡ false
    → Links f p xs z
    → Links (set_next_ptr f q v) p xs z
Links-set f p [] z q v out c = ground arith
Links-set f p (x ∷ xs) z q v out c =
    (ground (arith, c.0), Links-set f x xs z q v (ground arith) c.1)

-- With no block free `allocate` returns null and changes nothing.
pub allocate-nil :
    {a : FixedBlock} {sentry : ℕ} → IsFreeList a [] sentry → allocate a ≡ some (none, a)
unfolding allocate
allocate-nil v = rw (v.0, v.1, allocate) (ground arith)

-- Otherwise `allocate` returns the first free block, and the others stay free in their order.
pub allocate-cons :
    (a : FixedBlock) {x sentry : ℕ} (xs : List ℕ)
    → IsFreeList a (x ∷ xs) sentry
    → (a' : FixedBlock) × (allocate a ≡ some (some x, a')) × IsFreeList a' xs sentry
allocate-cons a {x} {sentry} xs v =
    (record a { next = set_next_ptr a.next x none; head = a.next x }, runs, rest xs v)
  where
    runs :
        allocate a ≡ some (some x, record a { next = set_next_ptr a.next x none; head = a.next x })
    runs =
        let apart : (x == sentry) ≡ false = ground (arith, v.3) in
        unfold allocate in rw (v.0, v.1, apart) refl

    rest :
        (xs : List ℕ)
        → IsFreeList a (x ∷ xs) sentry
        → IsFreeList (record a { next = set_next_ptr a.next x none; head = a.next x }) xs sentry
    rest [] w = (w.2, w.1)
    rest (y ∷ ys) w =
        (w.2.0, w.1, Links-set a.next y ys sentry x none (ground arith) w.2.1, ground arith, w.4.1)

-- `free` puts a block that is not free in front of the free ones, to be handed out next.
pub free-cons :
    (a : FixedBlock) {sentry : ℕ} (p : ℕ) (xs : List ℕ)
    → IsFreeList a xs sentry
    → has p xs ≡ false
    → p ≢ sentry
    → IsFreeList (free a p) (p ∷ xs) sentry
unfolding free
free-cons a {sentry} p [] v out ne = ground arith
free-cons a {sentry} p (x ∷ xs) v out ne = (
  refl,
  v.1,
  (ground (arith, v.0), Links-set a.next x xs sentry p a.head out v.2),
  ground arith,
  (out, v.4),
)

-- the `n` blocks from block `i` on
abbrev pub blocks_from : ℕ → ℕ → List ℕ
blocks_from i zero = []
blocks_from i (suc n) = i ∷ blocks_from (i + 1) n

has-blocks_from : (j i n : ℕ) → j < i → has j (blocks_from i n) ≡ false
has-blocks_from j i zero h = refl
has-blocks_from j i (suc n) h = ground (arith, has-blocks_from j (i + 1) n)

has-blocks_above : (j i n : ℕ) → i + n ≤ j → has j (blocks_from i n) ≡ false
has-blocks_above j i zero h = refl
has-blocks_above j i (suc n) h = ground (arith, has-blocks_above j (i + 1) n)

Distinct-blocks_from : (i n : ℕ) → Distinct (blocks_from i n)
Distinct-blocks_from i zero = tt
Distinct-blocks_from i (suc n) =
    (has-blocks_from i (i + 1) n (omega arith), Distinct-blocks_from (i + 1) n)

link_blocks_lem :
    (f : ℕ → Option ℕ) (i n j : ℕ)
    → link_blocks f (i + 1) n j ≡ (if leb i j && ltb j (i + n) then some (j + 1) else f j)
unfolding link_blocks
link_blocks_lem f i zero j = ground arith
link_blocks_lem f i (suc n) j =
    ground (arith, link_blocks_lem (set_next_ptr f (i + 1 - 1) (some (i + 1))) (i + 1) n j)

Links-blocks_from :
    (f : ℕ → Option ℕ) (i n : ℕ)
    → ((j : ℕ) → i ≤ j → j ≤ i + n → f j ≡ some (j + 1))
    → Links f i (blocks_from (i + 1) n) (i + n + 1)
Links-blocks_from f i zero h = h i (omega arith) (omega arith) ∙ ap some (omega arith)
Links-blocks_from f i (suc n) h = (
  h i (omega arith) (omega arith),
  subst (λ z. Links f (i + 1) (blocks_from (i + 1 + 1) n) z) (omega arith)
      (Links-blocks_from f (i + 1) n (λ j lo hi. h j (omega arith) (omega arith))),
)

-- A new allocator over a buffer of n + 2 blocks has all of them free but the last one.
pub new_fixed_block_lem :
    (garbage : ℕ → Option ℕ) (n : ℕ)
    → (a : FixedBlock) × (new_fixed_block garbage (n + 2) ≡ some a)
      × IsFreeList a (blocks_from 0 (n + 1)) (n + 1)
unfolding new_fixed_block
new_fixed_block_lem garbage n =
    let pos : ((n + 2) == 0) ≡ false = ground arith in
    let count : n + 1 ≡ suc n = omega arith in
    let last : n + 2 - 1 ≡ n + 1 = omega arith in
    (
      record { next = next; head = some 0; tail = some (n + 2 - 1) },
      rw pos refl,
      subst
          (λ k.
            IsFreeList (record { next = next; head = some 0; tail = some (n + 2 - 1) })
              (blocks_from 0 k) (n + 1))
          (sym count)
          (
            refl,
            ap some last,
            subst (λ z. Links next 0 (blocks_from 1 n) z) {x = 0 + n + 1} (omega arith)
                (Links-blocks_from next 0 n
                  (λ j lo hi. ground (arith, link_blocks_lem garbage 0 (n + 2 - 1) j))),
            has-blocks_above (n + 1) 0 (suc n) (omega arith),
            Distinct-blocks_from 0 (suc n),
          ),
    )
  where
    next : ℕ → Option ℕ
    next = set_next_ptr (link_blocks garbage 1 (n + 2 - 1)) (n + 2 - 1) none
