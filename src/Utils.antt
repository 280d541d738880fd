-- ===== src/Utils.antt =====
-- include/lib/utils.h: the two integer logarithms.
pub mod Log2
use modern.Base.{ℕ, zero, suc, ◌+◌, ◌-◌, ◌/◌, ◌%◌, ◌≡◌, Bool, true, false, ltb, if◌then◌else◌, ◌==◌}

-- The loop of `log2` on fuel; each round is `n >>= 1; ret++`, and the test is `n > 0`.
unfoldable pub log2_loop : ℕ → ℕ → ℕ → ℕ
log2_loop zero n ret = ret
log2_loop (suc k) n ret =
    let rest = log2_loop k (n / 2) (ret + 1) in if ltb 0 (n / 2) then rest else ret + 1

-- A `u64` has 64 bits, so 64 rounds are enough.
unfoldable pub log2 : ℕ → ℕ
unfolding log2_loop
log2 n = log2_loop 64 n 0 - 1

-- The loop of `log2_ceil`: it also counts the ones.
unfoldable pub log2_ceil_loop : ℕ → ℕ → ℕ → ℕ → ℕ
log2_ceil_loop zero n ones ret = if ltb 1 ones then ret else ret - 1
log2_ceil_loop (suc k) n ones ret =
    let ones' : ℕ = if n % 2 == 0 then ones else ones + 1 in
    let rest = log2_ceil_loop k (n / 2) ones' (ret + 1) in
    if ltb 0 (n / 2) then rest else if ltb 1 ones' then ret + 1 else ret + 1 - 1

unfoldable pub log2_ceil : ℕ → ℕ
unfolding log2_ceil_loop
log2_ceil n = log2_ceil_loop 64 n 0 0
