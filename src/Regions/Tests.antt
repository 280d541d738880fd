-- ===== src/Regions/Tests.antt =====
-- The choice at small inputs.
use modern.Base.{◌*◌, ◌≡◌, some, arith, List, [], ◌∷◌, refl}
use modern.SmallVec.{SmallVec, with_last, emplace_back, push_back}
use modern.Regions.{PageRegion, Descriptor, dump_efi_info, page_range, identity_map_phy_start}
use modern.Regions.Choice.{page_range_constant}

abbrev blank : PageRegion
blank = record { type = 0; phy_start = 0; virt_start = 0; size = 0; attr = 0 }

abbrev at_boot : SmallVec PageRegion
at_boot = record { buf = λ i. blank; len = 0 }

-- 16 MiB at 128 MiB is all the free memory that the firmware reports
abbrev small_machine : List Descriptor
small_machine =
    record { type = 7; physical_start = 0x800_0000; number_of_pages = 4096; attribute = 15 } ∷ []

abbrev dumped : SmallVec PageRegion
dumped =
    with_last
      (with_last at_boot (record {
        type = 7;
        phy_start = 0x800_0000;
        virt_start = 0;
        size = 4096 * 4096;
        attr = 15;
      }))
      (record { type = 7; phy_start = 0x800_0000; virt_start = 0; size = 4096; attr = 15 })

page_range_constant_example : page_range dumped ≡ some (identity_map_phy_start, 30)
unfolding dump_efi_info emplace_back push_back
page_range_constant_example =
    page_range_constant 0x400_0000 0x100_0000 small_machine {v = at_boot} {w = dumped}
      (record { blank = λ j past. refl }) refl (omega arith)
