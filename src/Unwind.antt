-- ===== src/Unwind.antt =====
-- common/unwind.cpp: the walk over the frames of a stack, on memory as words of 64 bits.
pub mod Frames
mod Tests
use modern.Base.{
  ℕ, zero, suc, ◌+◌, Bool, true, false, ◌&&◌, ◌||◌, leb, if◌then◌else◌, Option, some, none, ◌>>=◌,
  List, [], ◌∷◌,
}
use modern.Base.Bytes.{add64}

-- a stack: its first address and the one behind it
abbrev pub StackRange : Type 0
StackRange = ℕ × ℕ

-- `start <= rbp && rbp + 16 <= end`, where the sum wraps
unfoldable pub in_stack : ℕ → StackRange → Bool
in_stack rbp (start, end) = leb start rbp && leb (add64 rbp 16) end

-- the loop over `valid_stacks`
unfoldable pub in_stacks : ℕ → List StackRange → Bool
in_stacks rbp [] = false
in_stacks rbp (s ∷ stacks) = if in_stack rbp s then true else in_stacks rbp stacks

unfoldable pub valid_rbp : StackRange → List StackRange → ℕ → Bool
valid_rbp kthread stacks rbp = if in_stack rbp kthread then true else in_stacks rbp stacks

-- A frame as the callback gets it, with the address that it was read at.
pub record Frame : Type 0 where
  pub at : ℕ
  pub prev_rbp : ℕ
  pub ret_addr : ℕ

abbrev pub frame_at : (ℕ → ℕ) → ℕ → Frame
frame_at mem rbp = record { at = rbp; prev_rbp = mem rbp; ret_addr = mem (rbp + 8) }

-- `Iterate`: the frames that the callback was called with; `none` where the fuel runs out.
unfoldable pub iterate : (ℕ → Bool) → (ℕ → ℕ) → (ℕ → ℕ → Bool) → ℕ → ℕ → Option (List Frame)
iterate valid mem callback zero rbp = none
iterate valid mem callback (suc fuel) rbp =
    let rest = iterate valid mem callback fuel (mem rbp) in
    if valid rbp
    then if callback (mem rbp) (mem (rbp + 8))
      then (do frames ← rest; some (frame_at mem rbp ∷ frames))
      else some (frame_at mem rbp ∷ [])
    else some []
