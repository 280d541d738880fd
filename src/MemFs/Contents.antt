-- ===== src/MemFs/Contents.antt =====
-- include/fs/mem_fs_node.hpp: what `Read` and `Write` of `MemFsFileNode` do to the bytes of a file.
use modern.Base.{
  ℕ, zero, suc, ◌+◌, ◌-◌, ◌≤◌, ◌<◌, ◌≡◌, ◌⊎◌, inl, inr, true, false, none, some, List, [], ◌∷◌,
  ◌++◌, ltb, if◌then◌else◌, length, take, drop, replicate, min, length-append, length-take,
  length-replicate, get_or, Bool-cases, refl, arith, ap, ◌∙◌,
}
use modern.Base.Bytes.{add64, u64_mod}
use modern.MemFs.File.{MemFsFileNode, read_bytes, write_bytes, resized, resize, size, read, write}

read_bytes_lem :
    (xs : List ℕ) (offset n : ℕ)
    → offset + n ≤ length xs
    → read_bytes xs offset n ≡ some (take n (drop offset xs))
unfolding read_bytes
read_bytes_lem xs offset zero h = refl
read_bytes_lem [] offset (suc n) h = absurd (omega arith)
read_bytes_lem (x ∷ xs) zero (suc n) h = rw (read_bytes_lem xs zero n (omega arith)) refl
read_bytes_lem (x ∷ xs) (suc offset) (suc n) h = read_bytes_lem xs offset (suc n) (omega arith)

-- what a write inside the vector leaves: the bytes, and the others as they were
record Written (xs : List ℕ) (offset : ℕ) (ys xs' : List ℕ) : Type 0 where
  pub runs : write_bytes xs offset ys ≡ some xs'
  pub same_size : length xs' ≡ length xs
  pub reads : read_bytes xs' offset (length ys) ≡ some ys
  pub others : (j : ℕ) → (j < offset) ⊎ (offset + length ys ≤ j) → get_or xs' j 0 ≡ get_or xs j 0

-- bytes `offset` to `offset + n` apart, the two lists agree
abbrev Same : List ℕ → List ℕ → ℕ → ℕ → Type 0
Same xs xs' offset n = (j : ℕ) → (j < offset) ⊎ (offset + n ≤ j) → get_or xs' j 0 ≡ get_or xs j 0

Same-behind :
    (x y : ℕ) (xs xs' : List ℕ) (offset n : ℕ) → Same xs xs' 0 n → Same (x ∷ xs) (y ∷ xs') 0 (suc n)
Same-behind x y xs xs' offset n same zero away = absurd (ground arith)
Same-behind x y xs xs' offset n same (suc j) away = same j (inr (ground arith))

Same-around :
    (x : ℕ) (xs xs' : List ℕ) (offset n : ℕ)
    → Same xs xs' offset n
    → Same (x ∷ xs) (x ∷ xs') (suc offset) n
Same-around x xs xs' offset n same zero away = refl
Same-around x xs xs' offset n same (suc j) (inl before) = same j (inl (omega arith))
Same-around x xs xs' offset n same (suc j) (inr after) = same j (inr (omega arith))

write_bytes_lem :
    (xs : List ℕ) (offset : ℕ) (ys : List ℕ)
    → offset + length ys ≤ length xs
    → (xs' : List ℕ) × Written xs offset ys xs'
unfolding write_bytes read_bytes
write_bytes_lem xs offset [] h =
    (xs, record { runs = refl; same_size = refl; reads = refl; others = λ j away. refl })
write_bytes_lem [] offset (y ∷ ys) h = absurd (omega arith)
write_bytes_lem (x ∷ xs) zero (y ∷ ys) h =
    let (xs', w) = write_bytes_lem xs zero ys (omega arith) in
    (
      y ∷ xs',
      record {
        runs = rw (w.runs) refl;
        same_size = ap suc w.same_size;
        reads = rw (w.reads) refl;
        others = Same-behind x y xs xs' 0 (length ys) w.others;
      },
    )
write_bytes_lem (x ∷ xs) (suc offset) (y ∷ ys) h =
    let (xs', w) = write_bytes_lem xs offset (y ∷ ys) (omega arith) in
    (
      x ∷ xs',
      record {
        runs = rw (w.runs) refl;
        same_size = ap suc w.same_size;
        reads = w.reads;
        others = Same-around x xs xs' offset (suc (length ys)) w.others;
      },
    )

write_bytes_over :
    (xs : List ℕ) (offset : ℕ) (ys : List ℕ)
    → 0 < length ys
    → length xs < offset + length ys
    → write_bytes xs offset ys ≡ none
unfolding write_bytes
write_bytes_over xs offset [] pos h = absurd (omega arith)
write_bytes_over [] offset (y ∷ ys) pos h = refl
write_bytes_over (x ∷ xs) zero (y ∷ []) pos h = absurd (omega arith)
write_bytes_over (x ∷ xs) zero (y ∷ z ∷ ys) pos h =
    rw (write_bytes_over xs zero (z ∷ ys) (omega arith) (omega arith)) refl
write_bytes_over (x ∷ xs) (suc offset) (y ∷ ys) pos h =
    rw (write_bytes_over xs offset (y ∷ ys) pos (omega arith)) refl

pub length-resized : (xs : List ℕ) (n : ℕ) → length (resized xs n) ≡ n
length-resized xs n = omega (
  arith,
  length-append (take n xs) (replicate (n - length xs) 0),
  length-take n xs,
  length-replicate {A = ℕ} (n - length xs) 0,
)

write_behind :
    (f : MemFsFileNode) (buffer : List ℕ) (offset : ℕ) {m : ℕ} {xs' : List ℕ}
    → size f < offset
    → add64 offset (length buffer) ≡ m
    → write_bytes (resized f.bytes m) offset buffer ≡ some xs'
    → write f buffer offset ≡ some (length buffer, record { bytes = xs' })
unfolding write resize
write_behind f buffer offset behind sum runs =
    let grows : ltb (size f) offset ≡ true = ground arith in rw (grows, sum, runs) refl

write_within :
    (f : MemFsFileNode) (buffer : List ℕ) (offset : ℕ) {xs' : List ℕ}
    → offset ≤ size f
    → write_bytes f.bytes offset buffer ≡ some xs'
    → write f buffer offset ≡ some (length buffer, record { bytes = xs' })
unfolding write
write_within f buffer offset within runs =
    let stays : ltb (size f) offset ≡ false = ground arith in rw (stays, runs) refl

reads_back :
    (xs' ys : List ℕ) (offset n : ℕ)
    → 0 < n
    → offset + n < u64_mod
    → offset + n ≤ length xs'
    → read_bytes xs' offset n ≡ some ys
    → read (record { bytes = xs' }) n offset ≡ some (n, ys)
unfolding read
reads_back xs' ys offset n pos small room reads =
    let sum : add64 offset n ≡ offset + n = omega arith in
    let inside : ltb offset (length xs') ≡ true = ground arith in
    let fits : ltb (length xs') (offset + n) ≡ false = ground arith in
    rw (inside, sum, fits, reads) refl

get_or-take :
    (m : ℕ) (xs ys : List ℕ) (j : ℕ)
    → j < m
    → j < length xs
    → get_or (take m xs ++ ys) j 0 ≡ get_or xs j 0
get_or-take zero xs ys j lt inside = absurd (omega arith)
get_or-take (suc m) [] ys j lt inside = absurd (omega arith)
get_or-take (suc m) (x ∷ xs) ys zero lt inside = refl
get_or-take (suc m) (x ∷ xs) ys (suc j) lt inside =
    get_or-take m xs ys j (omega arith) (omega arith)

-- A write of n bytes, n > 0, inside the file or behind its end succeeds, and a read of them at the
-- same offset returns them. A write behind the end makes the file as long as needed, inside the size
-- stays; the other bytes that the file had keep their values.
pub read-write :
    (f : MemFsFileNode) (buffer : List ℕ) (offset : ℕ)
    → 0 < length buffer
    → offset + length buffer < u64_mod
    → (size f < offset) ⊎ (offset + length buffer ≤ size f)
    → (f' : MemFsFileNode) × (write f buffer offset ≡ some (length buffer, f'))
      × (read f' (length buffer) offset ≡ some (length buffer, buffer))
      × (size f' ≡ (if ltb (size f) offset then offset + length buffer else size f))
      × ((j : ℕ)
          → j < size f
          → (j < offset) ⊎ (offset + length buffer ≤ j)
          → get_or f'.bytes j 0 ≡ get_or f.bytes j 0)
read-write f buffer offset pos small (inl behind) =
    let n : ℕ = length buffer in
    let longer = length-resized f.bytes (offset + n) in
    let grows : ltb (size f) offset ≡ true = ground arith in
    let (xs', w) =
      write_bytes_lem (resized f.bytes (offset + n)) offset buffer (omega (arith, longer)) in
    (
      record { bytes = xs' },
      write_behind f buffer offset {m = offset + n} behind (omega arith) w.runs,
      reads_back xs' buffer offset n pos small (omega (arith, w.same_size, longer)) w.reads,
      rw grows (w.same_size ∙ longer),
      λ j inside away.
          w.others j away
          ∙ get_or-take (offset + n) f.bytes (replicate (offset + n - size f) 0) j (omega arith)
              inside,
    )
read-write f buffer offset pos small (inr within) =
    let stays : ltb (size f) offset ≡ false = ground arith in
    let (xs', w) = write_bytes_lem f.bytes offset buffer within in
    (
      record { bytes = xs' },
      write_within f buffer offset (omega arith) w.runs,
      reads_back xs' buffer offset (length buffer) pos small (omega (arith, w.same_size)) w.reads,
      rw stays (w.same_size),
      λ j inside away. w.others j away,
    )

-- A write that starts inside the file or at its end and goes past the end is not made room for: it
-- would store bytes outside the vector.
pub write_past_end :
    (f : MemFsFileNode) (buffer : List ℕ) (offset : ℕ)
    → 0 < length buffer
    → offset ≤ size f
    → size f < offset + length buffer
    → write f buffer offset ≡ none
unfolding write
write_past_end f buffer offset pos inside over =
    let stays : ltb (size f) offset ≡ false = ground arith in
    rw (stays, write_bytes_over f.bytes offset buffer pos over) refl

-- `Read` inside the file returns what stands there: the bytes asked for, or all to the end of the file
-- if there are fewer.
pub read_clips :
    (f : MemFsFileNode) (n offset : ℕ)
    → offset < size f
    → offset + n < u64_mod
    → read f n offset
      ≡ some (min n (size f - offset), take (min n (size f - offset)) (drop offset f.bytes))
unfolding read
read_clips f n offset inside small =
    let sum : add64 offset n ≡ offset + n = omega arith in
    let here : ltb offset (size f) ≡ true = ground arith in
    elim (Bool-cases (ltb (size f) (offset + n))) [
      | inl over ↦
          let least : min n (size f - offset) ≡ size f - offset = ground arith in
          rw (here, sum, over, least, read_bytes_lem f.bytes offset (size f - offset) (omega arith))
            refl
      | inr fits ↦
          let least : min n (size f - offset) ≡ n = ground arith in
          rw (here, sum, fits, least, read_bytes_lem f.bytes offset n (ground arith)) refl
    ]
