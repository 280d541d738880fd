-- ===== src/Net/Map.antt =====
-- `std::map` of the C++ library, over the order that the program gives it: a parameter. The laws are
-- documented: `m[k] = v` sets the value of the one key that is equivalent to `k`, where neither is
-- less than the other, and `find` looks for that key.
use modern.Base.{Bool, Option, none, some, List, [], ◌∷◌, ◌≡◌, refl, if◌then◌else◌}
use modern.Net.Address.{equivalent}

pub record OrderedMap (K V : Type 0) (lt : K → K → Bool) : Type 1 where
  pub Table : Type 0
  pub empty : Table
  pub find : K → Table → Option V
  pub assign : K → V → Table → Table
  pub find-empty : (k : K) → find k empty ≡ none
  pub find-assign :
      (k j : K) (v : V) (m : Table)
      → find j (assign k v m) ≡ (if equivalent lt k j then some v else find j m)

module _ {K V : Type 0} (lt : K → K → Bool) where
  abbrev pub list_find : K → List (K × V) → Option V
  list_find j [] = none
  list_find j ((k, v) ∷ m) = if equivalent lt k j then some v else list_find j m

  -- An association list, newest first, is such a map.
  abbrev pub list_map : OrderedMap K V lt
  list_map = record {
    Table = List (K × V);
    empty = [];
    find = list_find;
    assign = λ k v m. (k, v) ∷ m;
    find-empty = λ k. refl;
    find-assign = λ k j v m. refl;
  }
