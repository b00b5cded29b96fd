-- ===== src/Broker/Range.antt =====
-- The order in which a `range` loop visits the entries of a map, which the language leaves open.
use golang_mq.Base.{List, Perm}
use mathlib.Core.List.Perm

-- Each list of entries is visited in some order. What is proved holds for every such order.
pub record Range : Type 1 where
  pub visit : (A : Type 0) → List A → List A
  pub visit-perm : (A : Type 0) (xs : List A) → Perm (visit A xs) xs

-- An order that can be run: that of the list.
abbrev pub in_order : Range
in_order = record { visit = λ A xs. xs; visit-perm = λ A xs. Perm.refl xs }
