-- ===== src/MemFs/File.antt =====
-- include/fs/mem_fs_node.hpp: `MemFsFileNode`. An access outside the vector of the file's bytes is
-- undefined in the source; it comes out as `none`, like a failed assertion.
use modern.Base.{
  ℕ, zero, suc, ◌-◌, Option, none, some, List, [], ◌∷◌, ◌++◌, ◌>>=◌, ◌>>◌, guard, ltb,
  if◌then◌else◌, length, take, replicate,
}
use modern.Base.Bytes.{add64}

pub record MemFsFileNode : Type 0 where
  pub bytes : List ℕ

-- `memcpy` out of the vector: `n` bytes from `offset` on
unfoldable pub read_bytes : List ℕ → ℕ → ℕ → Option (List ℕ)
read_bytes xs offset zero = some []
read_bytes [] offset (suc n) = none
read_bytes (x ∷ xs) zero (suc n) = do rest ← read_bytes xs zero n; some (x ∷ rest)
read_bytes (x ∷ xs) (suc offset) (suc n) = read_bytes xs offset (suc n)

-- `memcpy` into the vector, from `offset` on
unfoldable pub write_bytes : List ℕ → ℕ → List ℕ → Option (List ℕ)
write_bytes xs offset [] = some xs
write_bytes [] offset (y ∷ ys) = none
write_bytes (x ∷ xs) zero (y ∷ ys) = do rest ← write_bytes xs zero ys; some (y ∷ rest)
write_bytes (x ∷ xs) (suc offset) (y ∷ ys) = do
  rest ← write_bytes xs offset (y ∷ ys)
  some (x ∷ rest)

-- `std::vector<char>::resize`
abbrev pub resized : List ℕ → ℕ → List ℕ
resized xs n = take n xs ++ replicate (n - length xs) 0

unfoldable pub resize : MemFsFileNode → ℕ → MemFsFileNode
resize f new_size = record { bytes = resized f.bytes new_size }

abbrev pub size : MemFsFileNode → ℕ
size f = length f.bytes

-- `Read`: the number it returns, and the bytes that it leaves in the buffer.
unfoldable pub read : MemFsFileNode → ℕ → ℕ → Option (ℕ × List ℕ)
unfolding read_bytes
read f n offset = do
  guard (ltb offset (size f))
  let read_size = if ltb (size f) (add64 offset n) then size f - offset else n
  out ← read_bytes f.bytes offset read_size
  some (read_size, out)

-- `Write`: the number it returns, and the file.
unfoldable pub write : MemFsFileNode → List ℕ → ℕ → Option (ℕ × MemFsFileNode)
unfolding resize write_bytes
write f buffer offset = do
  let n = length buffer
  let f = if ltb (size f) offset then resize f (add64 offset n) else f
  written ← write_bytes f.bytes offset buffer
  some (n, record { bytes = written })
