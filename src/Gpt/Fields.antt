-- ===== src/Gpt/Fields.antt =====
-- What is read of a copy is what is read of the original.
use modern.Base.{ℕ, zero, suc, ◌+◌, ◌*◌, ◌<◌, ◌≤◌, ◌≡◌, refl, arith, ap, ap₂, ◌∙◌, ◌∷◌}
use modern.Memory.{Memory, memcmp_loop, memcmp}
use modern.Loader.{read_field}
use modern.Rtl8139.Rx.{bytes_from}
use modern.Gpt.{header_at, partition_at}

-- The `n` bytes at `a` are those of the other memory at `b`.
abbrev pub IsCopy : Memory → ℕ → Memory → ℕ → ℕ → Type 0
IsCopy mem a disk b n = (i : ℕ) → i < n → mem (a + i) ≡ disk (b + i)

later :
    (mem disk : Memory) (a b k n : ℕ)
    → IsCopy mem a disk b (k + n)
    → IsCopy mem (a + k) disk (b + k) n
later mem disk a b k n c i h =
    ap mem {x = a + k + i} {y = a + (k + i)} (omega arith)
    ∙ c (k + i) (omega arith)
    ∙ ap disk {x = b + (k + i)} {y = b + k + i} (omega arith)

head_copy : (mem disk : Memory) (a b n : ℕ) → IsCopy mem a disk b (suc n) → mem a ≡ disk b
head_copy mem disk a b n c =
    ap mem {x = a} {y = a + 0} (omega arith)
    ∙ c 0 (omega arith)
    ∙ ap disk {x = b + 0} {y = b} (omega arith)

shorter : (mem disk : Memory) (a b n m : ℕ) → m ≤ n → IsCopy mem a disk b n → IsCopy mem a disk b m
shorter mem disk a b n m le c i h = c i (omega arith)

pub read_field-copy :
    (n : ℕ) (mem disk : Memory) (a b : ℕ)
    → IsCopy mem a disk b n
    → read_field mem a n ≡ read_field disk b n
unfolding read_field
read_field-copy zero mem disk a b c = refl
read_field-copy (suc n) mem disk a b c =
    ap₂ (λ low rest. low + 256 * rest) (head_copy mem disk a b n c)
      (read_field-copy n mem disk (a + 1) (b + 1)
        (later mem disk a b 1 n (λ i h. c i (omega arith))))

bytes_from-copy :
    (n : ℕ) (mem disk : Memory) (a b : ℕ)
    → IsCopy mem a disk b n
    → bytes_from mem a n ≡ bytes_from disk b n
bytes_from-copy zero mem disk a b c = refl
bytes_from-copy (suc n) mem disk a b c =
    ap₂ (λ x xs. x ∷ xs) (head_copy mem disk a b n c)
      (bytes_from-copy n mem disk (a + 1) (b + 1)
        (later mem disk a b 1 n (λ i h. c i (omega arith))))

-- a field at offset `k`
field_at :
    (mem disk : Memory) (a b size k n : ℕ)
    → k + n ≤ size
    → IsCopy mem a disk b size
    → read_field mem (a + k) n ≡ read_field disk (b + k) n
field_at mem disk a b size k n le c =
    read_field-copy n mem disk (a + k) (b + k)
      (later mem disk a b k n (shorter mem disk a b size (k + n) le c))

pub partition_at-copy :
    (mem disk : Memory) (a b size : ℕ)
    → 48 ≤ size
    → IsCopy mem a disk b size
    → partition_at mem a size ≡ partition_at disk b size
unfolding partition_at
partition_at-copy mem disk a b size le c =
    rw
      (
        read_field-copy 16 mem disk a b (shorter mem disk a b size 16 (omega arith) c),
        field_at mem disk a b size 32 8 (omega arith) c,
        field_at mem disk a b size 40 8 (omega arith) c,
        bytes_from-copy size mem disk a b c,
      )
      refl

pub header_at-copy :
    (mem disk : Memory) (a b : ℕ) → IsCopy mem a disk b 512 → header_at mem a ≡ header_at disk b
unfolding header_at
header_at-copy mem disk a b c =
    rw
      (
        field_at mem disk a b 512 72 8 (omega arith) c,
        field_at mem disk a b 512 80 4 (omega arith) c,
        field_at mem disk a b 512 84 4 (omega arith) c,
      )
      refl

memcmp_loop-same :
    (f g h : ℕ → ℕ) (i n : ℕ)
    → ((j : ℕ) → i ≤ j → j < i + n → f j ≡ g j)
    → memcmp_loop f h i n ≡ memcmp_loop g h i n
unfolding memcmp_loop
memcmp_loop-same f g h i zero same = refl
memcmp_loop-same f g h i (suc n) same =
    rw
      (
        same i (omega arith) (omega arith),
        memcmp_loop-same f g h (i + 1) n (λ j lo hi. same j (omega arith) (omega arith)),
      )
      refl

pub memcmp-same :
    (f g h : ℕ → ℕ) (n : ℕ) → ((j : ℕ) → j < n → f j ≡ g j) → memcmp f h n ≡ memcmp g h n
unfolding memcmp
memcmp-same f g h n same = memcmp_loop-same f g h 0 n (λ j lo hi. same j (omega arith))
