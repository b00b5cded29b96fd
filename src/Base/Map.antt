-- ===== src/Base/Map.antt =====
-- A Go map as a list of entries, and a Go `map[K]struct{}` as a list of keys.
-- The order of the list is never observed but through a `range` loop (Broker/Range.antt).
pub mod Laws
pub mod Members
pub mod Perms
use mathlib.Core.Path.{◌≡◌}
use mathlib.Core.Bool.{Bool, false, ◌||◌}
use mathlib.Core.Option.{Option, none, some}
use mathlib.Core.List.{List, [], ◌∷◌}
use native.Mathlib.Omega.{arith}
use golang_mq.Base.Tests.{Eq, ◌==◌, if◌then◌else◌}

abbrev pub Map : Type 0 → Type 0 → Type 0
Map K V = List (K × V)

module _ {K V : Type 0} where
  abbrev pub keys : Map K V → List K
  keys [] = []
  keys ((k, v) ∷ m) = k ∷ keys m

  abbrev pub values : Map K V → List V
  values [] = []
  values ((k, v) ∷ m) = v ∷ values m

module _ {K : Type 0} ⦃e : Eq K⦄ where
  -- _, ok := s[k]
  unfoldable pub member : K → List K → Bool
  member k [] = false
  member k (j ∷ s) = j == k || member k s

  -- delete(s, k)
  unfoldable pub remove : K → List K → List K
  remove k [] = []
  remove k (j ∷ s) = let rest = remove k s in if j == k then rest else j ∷ rest

  -- s[k] = struct{}{}
  unfoldable pub add : K → List K → List K
  unfolding remove
  add k s = k ∷ remove k s

  module _ {V : Type 0} where
    -- m[k]
    unfoldable pub lookup : K → Map K V → Option V
    lookup k [] = none
    lookup k ((j, v) ∷ m) = if j == k then some v else lookup k m

    -- delete(m, k)
    unfoldable pub delete : K → Map K V → Map K V
    delete k [] = []
    delete k ((j, v) ∷ m) = let rest = delete k m in if j == k then rest else (j, v) ∷ rest

    -- m[k] = v
    unfoldable pub insert : K → V → Map K V → Map K V
    unfolding delete
    insert k v m = (k, v) ∷ delete k m

    -- No key has two entries, which is so for every map.
    unfoldable pub IsDistinct : Map K V → Type 0
    IsDistinct [] = Unit
    IsDistinct ((k, v) ∷ m) = (lookup k m ≡ none) × IsDistinct m

    pub lookup-delete :
        (k j : K) (m : Map K V) → lookup j (delete k m) ≡ (if k == j then none else lookup j m)
    unfolding lookup delete
    lookup-delete k j [] = ground arith
    lookup-delete k j ((i, v) ∷ m) =
        ground (arith, lookup-delete k j m, e.beq_iff i k, e.beq_iff i j, e.beq_iff k j)

    pub lookup-insert :
        (k j : K) (v : V) (m : Map K V)
        → lookup j (insert k v m) ≡ (if k == j then some v else lookup j m)
    unfolding insert lookup
    lookup-insert k j v m = ground (arith, lookup-delete k j m)
