-- ===== src/MemFs/Tests.antt =====
-- The file system at small inputs.
use modern.Base.{
  ◌<◌, ◌≤◌, ◌⊎◌, get_or, ℕ, ◌+◌, ◌≡◌, none, some, [], ◌∷◌, ◌==◌, ltb, if◌then◌else◌, inl, arith,
}
use modern.Net.Map.{OrderedMap, list_map}
use modern.MemFs.File.{MemFsFileNode, size, read, write}
use modern.MemFs.Contents.{read-write}
use modern.MemFs.Dir.{MemFs, dir}

abbrev abc : MemFsFileNode
abc = record { bytes = 97 ∷ 98 ∷ 99 ∷ [] }

read-write_example :
    (f' : MemFsFileNode) × (write abc (1 ∷ 2 ∷ []) 5 ≡ some (2, f'))
    × (read f' 2 5 ≡ some (2, 1 ∷ 2 ∷ []))
    × (size f' ≡ (if ltb (size abc) 5 then 5 + 2 else size abc))
    × ((j : ℕ) → j < 3 → (j < 5) ⊎ (5 + 2 ≤ j) → get_or f'.bytes j 0 ≡ get_or abc.bytes j 0)
read-write_example = read-write abc (1 ∷ 2 ∷ []) 5 (omega arith) (omega arith) (inl (omega arith))

abbrev names : OrderedMap ℕ ℕ ltb
names = list_map ltb

-- only the root directory
abbrev root_only : MemFs ℕ ltb names
root_only = record { nodes = λ i. if i == 0 then some (dir []) else none; next = 1 }
