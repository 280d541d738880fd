-- ===== src/Buddy/Lists/Add.antt =====
-- `add_to_available_list` appends its block to the list of its size.
use modern.Base.{
  ℕ, ◌≤◌, ◌<◌, ◌≡◌, true, false, some, ==_of_eq, ==_of_ne, refl, ◌∙◌, ap, arith, List, [], ◌∷◌,
  ◌++◌, ℕ_discrete,
}
use modern.Base.Bytes.{add64}
use modern.Buddy.Defs.{Buddy, update, block_log2size, bucket_index}
use modern.Buddy.Ops.{set_next, set_prev, add_to_available_list}
use modern.Buddy.Ring.{has, has-append, last_of, IsRing, has-last, ne-last, prev-last}
use modern.Buddy.Ring.Add.{link_end, link_end-IsRing}
use modern.Buddy.Ring.Remove.{Distinct-swap}
use modern.Buddy.Lists.{IsList, IsFree, SameOutside, head_of, level_eq, IsList-other}

-- what the two branches leave
abbrev added : Buddy → ℕ → ℕ → List ℕ → Buddy
added b n l [] = record b {
  blocks = set_prev (set_next b.blocks n (some n)) n (some n);
  buckets = update b.buckets (bucket_index l) (record (b.buckets (bucket_index l)) {
    first_block = some n;
    available_blocks = add64 (b.buckets (bucket_index l)).available_blocks 1;
  });
}
added b n l (h ∷ xs) = record b {
  blocks = link_end b.blocks h (last_of h xs) n;
  buckets = update b.buckets (bucket_index l) (record (b.buckets (bucket_index l)) {
    available_blocks = add64 (b.buckets (bucket_index l)).available_blocks 1;
  });
}

module _ (b : Buddy) (n : ℕ) where
  abbrev size : ℕ
  size = block_log2size b n

  add_runs : (xs : List ℕ) → IsList b size xs → add_to_available_list b n ≡ some (added b n size xs)
  unfolding add_to_available_list
  add_runs [] v = rw (v.head, add_to_available_list)
  add_runs (h ∷ xs) v =
      rw (v.head, add_to_available_list) (rw (prev-last b.blocks h xs h v.ring, v.head))

  added-SameOutside :
      (xs : List ℕ)
      → IsList b size xs
      → SameOutside b (added b n size xs) size (λ i. has i (n ∷ xs))
  added-SameOutside [] v = record {
    start = refl;
    root = refl;
    room = refl;
    avail = λ i. ground arith;
    valid = λ i. ground arith;
    links = λ i out. ground arith;
    others = λ k ne. rw (==_of_ne ne);
  }
  added-SameOutside (h ∷ xs) v = record {
    start = refl;
    root = refl;
    room = refl;
    avail = λ i. ground arith;
    valid = λ i. ground arith;
    links = λ i out. ground (arith, has-last h xs, ne-last h xs i);
    others = λ k ne. rw (==_of_ne ne);
  }

  has-added : (xs : List ℕ) (i : ℕ) → has i (xs ++ (n ∷ [])) ≡ true → has i (n ∷ xs) ≡ true
  has-added xs i h = ground (arith, has-append i xs (n ∷ []))

  touched_size :
      (xs : List ℕ) → IsList b size xs → (i : ℕ) → has i (n ∷ xs) ≡ true → block_log2size b i ≡ size
  touched_size xs v i h = elim (ℕ_discrete i n) [
    | yes e ↦ ap (block_log2size b) e
    | no ne ↦ v.level i (ground arith)
  ]

  added-head :
      (xs : List ℕ)
      → IsList b size xs
      → ((added b n size xs).buckets (bucket_index size)).first_block ≡ head_of (xs ++ (n ∷ []))
  added-head [] v = rw (==_of_eq {a = bucket_index size} refl)
  added-head (h ∷ xs) v = rw (==_of_eq {a = bucket_index size} refl) v.head

  added-IsRing :
      (xs : List ℕ)
      → IsList b size xs
      → has n xs ≡ false
      → IsRing (added b n size xs).blocks (xs ++ (n ∷ []))
  added-IsRing [] v out = ground arith
  added-IsRing (h ∷ xs) v out = link_end-IsRing b.blocks h xs n v.ring v.distinct out

  added-IsList :
      (xs : List ℕ)
      → IsList b size xs
      → has n xs ≡ false
      → (b.blocks n).available ≡ true
      → n < b.max_blocks
      → IsList (added b n size xs) size (xs ++ (n ∷ []))
  added-IsList xs v out ready room =
      let same = added-SameOutside xs v in
      record {
        head = added-head xs v;
        ring = added-IsRing xs v out;
        distinct = Distinct-swap (n ∷ []) xs (out, v.distinct);
        level = λ i h.
            level_eq b (added b n size xs) i same.root ∙ touched_size xs v i (has-added xs i h);
        free = λ i h. same.avail i ∙ ready_of i (has-added xs i h);
        inside = λ i h. omega (arith, inside_of i (has-added xs i h), same.room);
      }
    where
      ready_of : (i : ℕ) → has i (n ∷ xs) ≡ true → (b.blocks i).available ≡ true
      ready_of i h = elim (ℕ_discrete i n) [ yes e ↦ rw e ready | no ne ↦ v.free i (ground arith) ]

      inside_of : (i : ℕ) → has i (n ∷ xs) ≡ true → i < b.max_blocks
      inside_of i h = elim (ℕ_discrete i n) [
        | yes e ↦ rw e room
        | no ne ↦ v.inside i (ground arith)
      ]

-- `add_to_available_list`, on an available block that is not in the list of its size, puts it at the
-- end of that list; every other list stays as it is.
pub add_to_available_list_lem :
    {b : Buddy} {free : ℕ → List ℕ} (n : ℕ)
    → IsFree b free
    → 16 ≤ block_log2size b n
    → block_log2size b n ≤ b.root_log2size
    → has n (free (block_log2size b n)) ≡ false
    → (b.blocks n).available ≡ true
    → n < b.max_blocks
    → let l = block_log2size b n in
      (b' : Buddy) × (add_to_available_list b n ≡ some b')
      × SameOutside b b' l (λ i. has i (n ∷ free l))
      × IsFree b' (update free l (free l ++ (n ∷ [])))
add_to_available_list_lem {b} {free} n v lo hi out ready room =
    let l = block_log2size b n in
    let at = v l lo hi in
    let same = added-SameOutside b n (free l) at in
    (
      added b n l (free l),
      add_runs b n (free l) at,
      same,
      λ m hm hm'. elim (ℕ_discrete m l) [
        | yes e ↦ rw (==_of_eq e, e) (added-IsList b n (free l) at out ready room)
        | no ne ↦ rw (==_of_ne ne) (
            IsList-other same (touched_size b n (free l) at) m (free m) hm lo ne
              (v m hm (omega (arith, hm', same.root))))
      ],
    )
