-- ===== src/Regions/Choice.antt =====
-- Which memory the allocator is given.
use modern.Base.{
  ℕ, zero, suc, ◌+◌, ◌≤◌, ◌<◌, ◌≡◌, lt→ltb, some, List, [], ◌∷◌, refl, arith, >>=-eq-some,
}
use modern.Utils.{log2}
use modern.SmallVec.{SmallVec, emplace_back, push_back, index_mut}
use modern.Regions.{
  PageRegion, Descriptor, dump_region, dump_efi_info, largest_region, page_range, max_regions,
  identity_map_phy_start,
}

-- The slots past the end are as the static memory is at boot.
pub record IsFresh (v : SmallVec PageRegion) : Type 0 where
  pub blank : (j : ℕ) → v.len ≤ j → (v.buf j).size ≡ 0

dump_region-IsFresh :
    (start size : ℕ) (md : Descriptor) {v w : SmallVec PageRegion}
    → IsFresh v
    → dump_region start size md v ≡ some w
    → IsFresh w
unfolding dump_region emplace_back push_back
dump_region-IsFresh start size md {v} fresh h = record {
  blank = λ j past. ground (arith, fresh.blank j);
}

dump_efi_info-IsFresh :
    (start size : ℕ) (mds : List Descriptor) {v w : SmallVec PageRegion}
    → IsFresh v
    → dump_efi_info start size mds v ≡ some w
    → IsFresh w
unfolding dump_efi_info
dump_efi_info-IsFresh start size [] fresh h = ground arith
dump_efi_info-IsFresh start size (md ∷ mds) {v} fresh h =
    let (u, first, rest) = >>=-eq-some (dump_region start size md v) _ h in
    dump_efi_info-IsFresh start size mds (dump_region-IsFresh start size md fresh first) rest

-- Every read of the loop is of the slot past the end, which has no pages.
largest_region-blank :
    (v : SmallVec PageRegion) (i n : ℕ)
    → v.len < max_regions
    → (v.buf v.len).size ≡ 0
    → largest_region v i n 0 0 ≡ some (0, 0)
unfolding largest_region index_mut
largest_region-blank v i zero room h = refl
largest_region-blank v i (suc n) room h =
    rw (lt→ltb _ _ room, h) (largest_region-blank v (i + 1) n room h)

page_range-blank :
    (v : SmallVec PageRegion)
    → v.len < max_regions
    → (v.buf v.len).size ≡ 0
    → page_range v ≡ some (identity_map_phy_start, 30)
unfolding page_range log2
page_range-blank v room h = rw (largest_region-blank v 0 v.len room h) refl

-- Whatever regions the firmware reports, as long as fewer than 1024 are recorded, the allocator is
-- given the same range: 1 GiB from 64 MiB on.
pub page_range_constant :
    (start size : ℕ) (mds : List Descriptor) {v w : SmallVec PageRegion}
    → IsFresh v
    → dump_efi_info start size mds v ≡ some w
    → w.len < max_regions
    → page_range w ≡ some (identity_map_phy_start, 30)
page_range_constant start size mds {w} fresh h room =
    let fresh' = dump_efi_info-IsFresh start size mds fresh h in
    page_range-blank w room (fresh'.blank w.len (omega arith))
