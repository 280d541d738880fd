-- ===== src/Buddy/Lists/Remove.antt =====
-- `remove_from_available_list` takes its block out of the list of its size.
use modern.Base.{
  ℕ, ◌≤◌, ◌≡◌, ◌≢◌, true, false, Option, none, some, ==_of_eq, ==_of_ne, refl, subst, ◌∙◌, arith,
  List, [], ◌∷◌, ◌++◌, ℕ_discrete,
}
use modern.Buddy.Defs.{Block, Buddy, update, block_log2size, bucket_index}
use modern.Buddy.Ops.{unlink, remove_from_available_list}
use modern.Buddy.Ring.{
  has, has-append, Distinct, last_of, Chain, IsRing, has-last, prev-last, Chain-split,
}
use modern.Buddy.Ring.Remove.{unlink-IsRing}
use modern.Buddy.Lists.{IsList, IsFree, SameOutside, head_of, level_eq, IsList-other}

abbrev first_of : List ℕ → ℕ → ℕ
first_of [] z = z
first_of (x ∷ xs) z = x

next-first :
    (bl : ℕ → Block) (a : ℕ) (xs : List ℕ) (z : ℕ)
    → Chain bl a xs z
    → (bl a).next ≡ some (first_of xs z)
next-first bl a [] z c = c.0
next-first bl a (x ∷ xs) z c = c.0

has-first :
    (xs : List ℕ) (z : ℕ) (ys : List ℕ)
    → has z ys ≡ true
    → ((i : ℕ) → has i xs ≡ true → has i ys ≡ true)
    → has (first_of xs z) ys ≡ true
has-first [] z ys h sub = h
has-first (x ∷ xs) z ys h sub = sub x (ground arith)

-- In a ring the links of a block lead to blocks of the ring.
links_of :
    (bl : ℕ → Block) (pre : List ℕ) (n : ℕ) (post : List ℕ)
    → IsRing bl (pre ++ (n ∷ post))
    → (p q : ℕ) × ((bl n).prev ≡ some p)
      × ((bl n).next ≡ some q)
      × (has p (pre ++ (n ∷ post)) ≡ true)
      × (has q (pre ++ (n ∷ post)) ≡ true)
links_of bl [] n post c = (
  last_of n post,
  first_of post n,
  prev-last bl n post n c,
  next-first bl n post n c,
  has-last n post,
  has-first post n (n ∷ post) (ground arith) (λ i h. ground arith),
)
links_of bl (x ∷ xs) n post c =
    let (l, r) = Chain-split bl x xs n post x c in
    (
      last_of x xs,
      first_of post x,
      prev-last bl x xs n l,
      next-first bl n post x r,
      ground (arith, has-last x xs, has-append (last_of x xs) xs (n ∷ post)),
      has-first post x (x ∷ xs ++ (n ∷ post)) (ground arith)
          (λ i h. ground (arith, has-append i xs (n ∷ post))),
    )

pub Distinct-drop :
    (pre : List ℕ) (n : ℕ) (post : List ℕ)
    → Distinct (pre ++ (n ∷ post))
    → Distinct (pre ++ post) × (has n (pre ++ post) ≡ false)
Distinct-drop [] n post d = (d.1, d.0)
Distinct-drop (x ∷ pre) n post d =
    let (rest, out) = Distinct-drop pre n post d.1 in
    (
      (ground (arith, has-append x pre (n ∷ post), has-append x pre post), rest),
      ground (arith, has-append x pre (n ∷ post)),
    )

unlink_avail :
    (bl : ℕ → Block) (p q : Option ℕ) (i : ℕ)
    → ((unlink bl p q i).available ≡ (bl i).available) × ((unlink bl p q i).valid ≡ (bl i).valid)
unfolding unlink
unlink_avail bl none none i = (refl, refl)
unlink_avail bl (some p) none i = ground arith
unlink_avail bl none (some q) i = ground arith
unlink_avail bl (some p) (some q) i = ground arith

removed-head :
    (b : Buddy) (n : ℕ) (pre post : List ℕ)
    → IsList b (block_log2size b n) (pre ++ (n ∷ post))
    → ((remove_from_available_list b n).buckets (bucket_index (block_log2size b n))).first_block
      ≡ head_of (pre ++ post)
unfolding remove_from_available_list
removed-head b n [] [] v = rw (
  ==_of_eq {a = bucket_index (block_log2size b n)} refl,
  v.head,
  ==_of_eq {a = n} refl,
  v.ring.0,
  ==_of_eq {a = n} refl,
)
removed-head b n [] (r ∷ rs) v =
    let ne : r ≢ n = ground (arith, v.distinct) in
    rw (
      ==_of_eq {a = bucket_index (block_log2size b n)} refl,
      v.head,
      ==_of_eq {a = n} refl,
      v.ring.0,
      ==_of_ne ne,
    )
removed-head b n (x ∷ xs) post v =
    let ne : x ≢ n = ground (arith, v.distinct, has-append x xs (n ∷ post)) in
    rw (==_of_eq {a = bucket_index (block_log2size b n)} refl, v.head, ==_of_ne ne)

module _ (b : Buddy) (n : ℕ) (pre post : List ℕ) where
  abbrev size : ℕ
  size = block_log2size b n

  removed-SameOutside :
      IsList b size (pre ++ (n ∷ post))
      → SameOutside b (remove_from_available_list b n) size (λ i. has i (pre ++ (n ∷ post)))
  unfolding remove_from_available_list
  removed-SameOutside v =
      let (p, q, at_prev, at_next, p_in, q_in) = links_of b.blocks pre n post v.ring in
      record {
        start = refl;
        root = refl;
        room = refl;
        avail = λ i. (unlink_avail b.blocks (b.blocks n).prev (b.blocks n).next i).0;
        valid = λ i. (unlink_avail b.blocks (b.blocks n).prev (b.blocks n).next i).1;
        links = λ i out. rw (at_prev, at_next) (ground arith);
        others = λ k ne. rw (==_of_ne ne);
      }

  removed-IsList :
      IsList b size (pre ++ (n ∷ post)) → IsList (remove_from_available_list b n) size (pre ++ post)
  unfolding remove_from_available_list
  removed-IsList v =
      let same = removed-SameOutside v in
      record {
        head = removed-head b n pre post v;
        ring = unlink-IsRing b.blocks pre n post v.ring v.distinct;
        distinct = (Distinct-drop pre n post v.distinct).0;
        level =
            λ i h. level_eq b (remove_from_available_list b n) i same.root ∙ v.level i (member i h);
        free = λ i h. same.avail i ∙ v.free i (member i h);
        inside = λ i h. omega (arith, v.inside i (member i h), same.room);
      }
    where
      member : (i : ℕ) → has i (pre ++ post) ≡ true → has i (pre ++ (n ∷ post)) ≡ true
      member i h = ground (arith, has-append i pre post, has-append i pre (n ∷ post))

-- `remove_from_available_list`, on a block of the list of its size, takes exactly that block out of
-- the list and keeps the order of the others; every other list stays as it is.
pub remove_from_available_list_lem :
    {b : Buddy} {free : ℕ → List ℕ} (n : ℕ) (pre post : List ℕ)
    → IsFree b free
    → 16 ≤ block_log2size b n
    → block_log2size b n ≤ b.root_log2size
    → free (block_log2size b n) ≡ pre ++ (n ∷ post)
    → let l = block_log2size b n in
      let b' = remove_from_available_list b n in
      SameOutside b b' l (λ i. has i (free l)) × IsFree b' (update free l (pre ++ post))
remove_from_available_list_lem {b} {free} n pre post v lo hi e =
    let l = block_log2size b n in
    let at : IsList b l (pre ++ (n ∷ post)) = subst (IsList b l) e (v l lo hi) in
    let same = removed-SameOutside b n pre post at in
    (
      rw e same,
      λ m hm hm'. elim (ℕ_discrete m l) [
        | yes here ↦ rw (==_of_eq here, here) (removed-IsList b n pre post at)
        | no ne ↦ rw (==_of_ne ne) (
            IsList-other same at.level m (free m) hm lo ne (v m hm (omega (arith, hm', same.root))))
      ],
    )
