-- ===== src/SmallVec.antt =====
-- include/common/small_vec.hpp: `SmallVec<T, N>`, a vector in a buffer of its own, with what stands in
-- each slot, also in those beyond the size. The source does not check the capacity `N`: behind the
-- buffer it writes and reads `size_`, and then what follows the object; `none` is such an access.
-- A destructor leaves the slot's bytes.
pub mod Laws
mod Tests
use modern.Base.{ℕ, ◌+◌, ◌-◌, zero, suc, Bool, Option, none, some, ◌==◌, ltb, leb, if◌then◌else◌}

pub record SmallVec {ℓ} (A : Type ℓ) : Type ℓ where
  pub buf : ℕ → A
  pub len : ℕ

module _ {ℓ} {A : Type ℓ} where
  -- `new(&get_buf(i)) T(…)`, and an assignment to a slot
  abbrev pub put : (ℕ → A) → ℕ → A → ℕ → A
  put f i v j = if j == i then v else f j

  abbrev pub size : SmallVec A → ℕ
  size v = v.len

  unfoldable pub empty : SmallVec A → Bool
  empty v = v.len == 0

  -- one element more
  abbrev pub with_last : SmallVec A → A → SmallVec A
  with_last v x = record { buf = put v.buf v.len x; len = v.len + 1 }

  unfoldable pub emplace_back : ℕ → SmallVec A → A → Option (SmallVec A)
  emplace_back capacity v x = if ltb v.len capacity then some (with_last v x) else none

  unfoldable pub push_back : ℕ → SmallVec A → A → Option (SmallVec A)
  push_back capacity v x = if ltb v.len capacity then some (with_last v x) else none

  -- `none` is the failed assertion.
  unfoldable pub pop_back : SmallVec A → Option (SmallVec A)
  pop_back v = if v.len == 0 then none else some (record v { len = v.len - 1 })

  unfoldable pub back : SmallVec A → Option A
  back v = if v.len == 0 then none else some (v.buf (v.len - 1))

  -- `n` new elements from index `i` on
  unfoldable pub construct : A → (ℕ → A) → ℕ → ℕ → ℕ → A
  construct default f i zero = f
  construct default f i (suc n) = construct default (put f i default) (i + 1) n

  -- A smaller size is stored; for a larger one the new elements are built, and the size stays.
  unfoldable pub resize : ℕ → A → SmallVec A → ℕ → Option (SmallVec A)
  unfolding construct
  resize capacity default v new_size =
      if ltb new_size v.len
      then some (record v { len = new_size })
      else if ltb v.len new_size
      then if leb new_size capacity
        then some (record v { buf = construct default v.buf v.len (new_size - v.len) })
        else none
      else some v

  -- `operator[]` on a vector that may be changed
  unfoldable pub index_mut : ℕ → SmallVec A → ℕ → Option A
  index_mut capacity v offset = if ltb v.len capacity then some (v.buf v.len) else none

  -- `operator[]` on a constant vector
  unfoldable pub index : ℕ → SmallVec A → ℕ → Option A
  index capacity v offset = if ltb offset capacity then some (v.buf offset) else none
