-- ===== src/Unwind/Tests.antt =====
-- A stack of a page in a memory of bytes: the frame at 0x1e00 links to the one at 0x1f00, which is the
-- last.
use modern.Base.{
  ℕ, suc, zero, ◌≡◌, ◌<◌, ◌^◌, true, if◌then◌else◌, ◌==◌, some, List, [], arith, refl,
}
use modern.Loader.{read_field}
use modern.Unwind.{StackRange, valid_rbp, in_stack, in_stacks, Frame, iterate}
use modern.Unwind.Frames.{iterate_lem, all_valid, linked, Climbs}

abbrev stack : StackRange
stack = (0x1000, 0x2000)

abbrev bytes : ℕ → ℕ
bytes a = if a == 0x1e01 then 0x1f else 0

abbrev words : ℕ → ℕ
words a = read_field bytes a 8

last_link : words 0x1f00 ≡ 0
unfolding read_field
last_link = refl

links_up : Climbs stack [] words (λ p r. true) 0x1e00
unfolding valid_rbp in_stack in_stacks read_field
links_up zero good = omega arith
links_up (suc k) good = absurd (ground (arith, good 2 (omega arith)))

small_words : (a : ℕ) → words a < 2 ^ 64
unfolding read_field
small_words a = ground arith

iterate_lem_example :
    (frames : List Frame) × (iterate (valid_rbp stack []) words (λ p r. true) (2 ^ 64) 0x1e00
      ≡ some frames)
    × (all_valid (valid_rbp stack []) frames ≡ true)
    × (linked 0x1e00 frames ≡ true)
iterate_lem_example =
    iterate_lem stack [] words (λ p r. true) (2 ^ 64) 0x1e00 links_up small_words (omega arith)
      (omega arith)
