-- ===== src/Irq/Vectors.antt =====
-- irq.cpp: which entry point each gate of `setup_idt` leads to.
use modern.Base.{
  all_below, all_below_lem, ℕ, ◌+◌, ◌*◌, ◌%◌, ◌^◌, ◌<◌, ◌≡◌, Bool, true, false, Option, none, some,
  List, [], ◌∷◌, ◌++◌, ◌==◌, ◌&&◌, ◌||◌, leb, if◌then◌else◌, refl, sym, ap, ◌∙◌, not, ==_of_eq,
  ==_of_ne, ℕ_discrete, arith,
}
use modern.Irq.Gates.{
  InterruptDescriptor, EntryPoints, Line, exception_lines, device_lines, set_gate, set_lines,
  set_idt_offset, default_gate, setup_idt, long_interrupt_gate,
}

-- the address that the processor reads out of a gate
abbrev pub offset : InterruptDescriptor → ℕ
offset g = g.offset_lo16 + 2 ^ 16 * g.offset_mid16 + 2 ^ 32 * g.offset_hi32

-- the last line about gate `j`: its entry point and mode, or what went before
abbrev pub last_line : List Line → ℕ → Option (ℕ × Bool) → Option (ℕ × Bool)
last_line [] j o = o
last_line ((i, nr, user) ∷ lines) j o = last_line lines j (if j == i then some (nr, user) else o)

abbrev pub from_line : EntryPoints → InterruptDescriptor → Option (ℕ × Bool) → InterruptDescriptor
from_line entries gate none = gate
from_line entries gate (some (nr, user)) = set_idt_offset gate (entries.entry nr) user

-- A gate that is set again forgets its first entry point.
set_again :
    (entries : EntryPoints) (gate : InterruptDescriptor) (o : Option (ℕ × Bool)) (ptr : ℕ)
    (user : Bool)
    → set_idt_offset (from_line entries gate o) ptr user ≡ set_idt_offset gate ptr user
unfolding set_idt_offset
set_again entries gate none ptr user = refl
set_again entries gate (some (nr, u)) ptr user = refl

set_lines_lem :
    (entries : EntryPoints) (gate : InterruptDescriptor) (lines : List Line)
    (idt : ℕ → InterruptDescriptor) (j : ℕ) (o : Option (ℕ × Bool))
    → idt j ≡ from_line entries gate o
    → set_lines entries lines idt j ≡ from_line entries gate (last_line lines j o)
unfolding set_lines
set_lines_lem entries gate [] idt j o e = e
set_lines_lem entries gate ((i, nr, user) ∷ lines) idt j o e =
    set_lines_lem entries gate lines
      (set_gate idt i (set_idt_offset (idt i) (entries.entry nr) user)) j
      (if j == i then some (nr, user) else o)
      (elim (ℕ_discrete j i) [
        | yes here ↦ rw (==_of_eq here) (
            ap (λ g. set_idt_offset g (entries.entry nr) user) (ap idt (sym here) ∙ e)
            ∙ set_again entries gate o (entries.entry nr) user)
        | no away ↦ rw (==_of_ne away) e
      ])

-- the gates that are given an entry point of their own
abbrev pub is_listed : ℕ → Bool
is_listed j =
    leb j 8
    || (leb 10 j && leb j 14)
    || j == 32
    || j == 37
    || j == 42
    || (leb 0x40 j && leb j 0x54)
    || j == 0x56
    || j == 0x57

-- the line that decides gate `j`: five of them have the entry point of the next vector
abbrev pub expected_line : ℕ → Option (ℕ × Bool)
expected_line j =
    if is_listed j
    then some (if leb 0x50 j && leb j 0x54 then j + 1 else j, j == 3 || j == 42)
    else none

abbrev same_bool : Bool → Bool → Bool
same_bool true b = b
same_bool false b = not b

abbrev same_line : Option (ℕ × Bool) → Option (ℕ × Bool) → Bool
same_line none none = true
same_line none (some b) = false
same_line (some a) none = false
same_line (some (a, u)) (some (b, v)) = (a == b) && same_bool u v

same_line_lem : (a b : Option (ℕ × Bool)) → same_line a b ≡ true → a ≡ b
same_line_lem none none h = refl
same_line_lem none (some b) h = absurd (ground arith)
same_line_lem (some a) none h = absurd (ground arith)
same_line_lem (some (a, true)) (some (b, true)) h = ap (λ x. some (x, true)) (ground arith)
same_line_lem (some (a, false)) (some (b, false)) h = ap (λ x. some (x, false)) (ground arith)
same_line_lem (some (a, true)) (some (b, false)) h = absurd (ground arith)
same_line_lem (some (a, false)) (some (b, true)) h = absurd (ground arith)

abbrev agrees : ℕ → Bool
agrees j = same_line (last_line (exception_lines ++ device_lines) j none) (expected_line j)

all_agree : all_below 256 agrees ≡ true
all_agree = refl

-- the entry point of gate `j`
abbrev pub entry_of : EntryPoints → ℕ → ℕ
entry_of entries j =
    if is_listed j
    then entries.entry (if leb 0x50 j && leb j 0x54 then j + 1 else j)
    else entries.default_handler

setup_idt-from_line :
    (entries : EntryPoints) (selector j : ℕ)
    → j < 256
    → setup_idt entries selector j
      ≡ from_line entries (default_gate entries selector) (expected_line j)
unfolding setup_idt
setup_idt-from_line entries selector j lt =
    set_lines_lem entries (default_gate entries selector) (exception_lines ++ device_lines)
      (λ i. default_gate entries selector) j none refl
    ∙ ap (from_line entries (default_gate entries selector))
        (same_line_lem _ _ (all_below_lem 256 agrees j all_agree lt))

-- what a gate holds
pub record IsGate (g : InterruptDescriptor) (selector ptr dpl : ℕ) : Type 0 where
  pub segment : g.selector ≡ selector
  pub present : g.p ≡ 1
  pub kind : g.type ≡ long_interrupt_gate
  pub target : offset g ≡ ptr % 2 ^ 64
  pub privilege : g.dpl ≡ dpl

line-IsGate :
    (entries : EntryPoints) (selector j : ℕ) (b : Bool)
    → is_listed j ≡ b
    → IsGate
        (from_line entries (default_gate entries selector) (expected_line j))
        selector
        (entry_of entries j)
        (if j == 3 || j == 42 then 3 else 0)
unfolding set_idt_offset default_gate
line-IsGate entries selector j true listed =
    rw listed (record {
      segment = refl;
      present = refl;
      kind = refl;
      target = omega arith;
      privilege = refl;
    })
line-IsGate entries selector j false default = rw default (record {
  segment = refl;
  present = refl;
  kind = refl;
  target = omega arith;
  privilege = ground arith;
})

-- Each of the 256 gates is a present interrupt gate of the segment, and only those of the breakpoint
-- (3) and of the system calls (42) are open to user code. The gates of the exceptions, the timer and
-- the devices lead to their own entry points, but 0x50 to 0x54 lead to that of the next vector and
-- 0x55 to the default one, like every gate that is not listed.
pub setup_idt-IsGate :
    (entries : EntryPoints) (selector j : ℕ)
    → j < 256
    → IsGate
        (setup_idt entries selector j)
        selector
        (entry_of entries j)
        (if j == 3 || j == 42 then 3 else 0)
setup_idt-IsGate entries selector j lt =
    rw (setup_idt-from_line entries selector j lt)
      (line-IsGate entries selector j (is_listed j) refl)
