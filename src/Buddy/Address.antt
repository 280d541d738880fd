-- ===== src/Buddy/Address.antt =====
-- The physical addresses of `BuddyAllocator`: freeing finds the block again, and where blocks lie.
use modern.Base.{
  ℕ, zero, suc, ◌+◌, ◌-◌, ◌*◌, ◌/◌, ◌%◌, ◌^◌, ◌≤◌, ◌<◌, ◌≡◌, Option, some, ◌>>=◌, refl, subst,
  arith,
}
use native.Mathlib.Nat.{pow-le-pow_right}
use modern.Base.Bytes.{add64, sub64, u64_mod}
use modern.Utils.{log2}
use modern.Buddy.Defs.{
  Block, Buddy, new_buddy, get_left, get_right, block_log2size, get_block_phy_addr, block_size,
}
use modern.Buddy.Ops.{allocate_pages}

-- The index that `free_pages` computes from the address of a block is that block's.
pub free-get_block_phy_addr :
    (b : Buddy) (i : ℕ)
    → b.phy_start + i * block_size < u64_mod
    → (sub64 (get_block_phy_addr b i) b.phy_start / block_size ≡ i)
      × (sub64 (get_block_phy_addr b i) b.phy_start % block_size ≡ 0)
unfolding get_block_phy_addr
free-get_block_phy_addr b i h = omega arith

-- The memory of `size` bytes at `a` and of `size'` bytes at `a'` have a byte in common.
abbrev pub Overlap : ℕ → ℕ → ℕ → ℕ → Type 0
Overlap a size a' size' = (a < a' + size') × (a' < a + size)

-- the addresses of two blocks of 2 ^ r bytes, asked for one after the other
unfoldable pub allocate_two : ℕ → Buddy → Option (ℕ × ℕ)
unfolding allocate_pages
allocate_two r b = do (p, b1) ← allocate_pages r b; (q, b2) ← allocate_pages r b1; some (p, q)

-- one evaluation for each of the sizes from 128 KiB to 2 GiB
halves_lem :
    (addr : ℕ) (base : ℕ → Block) (k : ℕ)
    → k < 15
    → allocate_two (17 + k) (new_buddy addr (17 + k + 1) base 65536)
      ≡ some (add64 addr (1 * block_size), add64 addr (2 * block_size))
unfolding allocate_two new_buddy get_left get_right block_log2size get_block_phy_addr log2
halves_lem addr base zero h = refl
halves_lem addr base (suc zero) h = refl
halves_lem addr base (suc (suc zero)) h = refl
halves_lem addr base (suc (suc (suc zero))) h = refl
halves_lem addr base (suc (suc (suc (suc zero)))) h = refl
halves_lem addr base (suc (suc (suc (suc (suc zero))))) h = refl
halves_lem addr base (suc (suc (suc (suc (suc (suc zero)))))) h = refl
halves_lem addr base (suc (suc (suc (suc (suc (suc (suc zero))))))) h = refl
halves_lem addr base (suc (suc (suc (suc (suc (suc (suc (suc zero)))))))) h = refl
halves_lem addr base (suc (suc (suc (suc (suc (suc (suc (suc (suc zero))))))))) h = refl
halves_lem addr base (suc (suc (suc (suc (suc (suc (suc (suc (suc (suc zero)))))))))) h = refl
halves_lem addr base (suc (suc (suc (suc (suc (suc (suc (suc (suc (suc (suc zero))))))))))) h = refl
halves_lem addr base (suc (suc (suc (suc (suc (suc (suc (suc (suc (suc (suc (suc zero))))))))))))
      h =
    refl
halves_lem addr base
      (suc (suc (suc (suc (suc (suc (suc (suc (suc (suc (suc (suc (suc zero))))))))))))) h =
    refl
halves_lem addr base
      (suc (suc (suc (suc (suc (suc (suc (suc (suc (suc (suc (suc (suc (suc zero)))))))))))))) h =
    refl
halves_lem addr base
      (suc (suc (suc (suc (suc (suc (suc (suc (suc (suc (suc (suc (suc (suc (suc k)))))))))))))))
      h =
    absurd (omega arith)

-- A fresh allocator of 2 ^ (r + 1) bytes, 16 < r < 32, that is asked twice for half of its memory
-- grants both requests, and the two ranges of 2 ^ r bytes overlap.
pub allocate_two-Overlap :
    (addr r : ℕ) (base : ℕ → Block)
    → 16 < r
    → r < 32
    → addr + 2 ^ 32 < u64_mod
    → (p q : ℕ) × (allocate_two r (new_buddy addr (r + 1) base 65536) ≡ some (p, q))
      × Overlap p (2 ^ r) q (2 ^ r)
allocate_two-Overlap addr r base lo hi small =
    let e : 17 + (r - 17) ≡ r = omega arith in
    let big : 2 ^ 17 ≤ 2 ^ r = pow-le-pow_right (omega arith) lo in
    (
      add64 addr (1 * block_size),
      add64 addr (2 * block_size),
      subst
          (λ n.
            allocate_two n (new_buddy addr (n + 1) base 65536)
            ≡ some (add64 addr (1 * block_size), add64 addr (2 * block_size)))
          e (halves_lem addr base (r - 17) (omega arith)),
      (omega (arith, big), omega (arith, big)),
    )
