-- ===== src/Memory/Tests.antt =====
-- The memory routines at small inputs.
use modern.Base.{ℕ, ◌≡◌, if◌then◌else◌, ◌==◌, refl}
use modern.Memory.{Memory, memmove}

-- each byte holds its address
abbrev ramp : Memory
ramp a = a

-- "ab", then zeros
abbrev word : ℕ → ℕ
word i = if i == 0 then 97 else if i == 1 then 98 else 0

memmove-overlap : memmove ramp 12 10 4 14 ≡ 12
unfolding memmove
memmove-overlap = refl
