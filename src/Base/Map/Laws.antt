-- ===== src/Base/Map/Laws.antt =====
-- Laws of maps: which entries an insertion and a deletion leave, and the multiset of values.
use mathlib.Core.Path.{◌≡◌, refl, ap}
use mathlib.Core.Bool.{true, false}
use mathlib.Core.Option.{none, some}
use mathlib.Core.List.{List, [], ◌∷◌, Perm}
use mathlib.Core.List.Perm
use mathlib.Core.Logic.{inl, inr}
use Prim.Native.Nat.{suc}
use native.Mathlib.Omega.{arith}
use golang_mq.Base.Tests.{Eq, ◌==◌, Bool-cases}
use golang_mq.Base.Lists.{length}
use golang_mq.Base.Map.{
  Map, keys, values, member, remove, add, lookup, delete, insert, IsDistinct, lookup-delete,
}

module _ {K : Type 0} ⦃e : Eq K⦄ where
  pub beq_refl : (k : K) → (k == k) ≡ true
  beq_refl k = (e.beq_iff k k).1 refl

  pub member-remove : (k : K) (s : List K) → member k (remove k s) ≡ false
  unfolding member remove
  member-remove k [] = refl
  member-remove k (j ∷ s) = ground (arith, member-remove k s)

  pub member-remove_ne :
      (k j : K) (s : List K) → (k == j) ≡ false → member j (remove k s) ≡ member j s
  unfolding member remove
  member-remove_ne k j [] h = refl
  member-remove_ne k j (i ∷ s) h =
      ground (arith, member-remove_ne k j s h, e.beq_iff i k, e.beq_iff i j, e.beq_iff k j)

  pub remove-absent : (k : K) (s : List K) → member k s ≡ false → remove k s ≡ s
  unfolding member remove
  remove-absent k [] h = refl
  remove-absent k (j ∷ s) h = ground (arith, remove-absent k s)

  pub remove-add : (k : K) (s : List K) → member k s ≡ false → remove k (add k s) ≡ s
  unfolding add
  remove-add k s h = rw (beq_refl k, remove-absent k s h) (remove-absent k s h)

  module _ {V : Type 0} where
    pub delete_absent : (k : K) (m : Map K V) → lookup k m ≡ none → delete k m ≡ m
    unfolding lookup delete
    delete_absent k [] h = refl
    delete_absent k ((j, v) ∷ m) h = ground (arith, delete_absent k m)

    pub delete-insert :
        (k : K) (v : V) (m : Map K V) → lookup k m ≡ none → delete k (insert k v m) ≡ m
    unfolding insert
    delete-insert k v m h = rw (beq_refl k, delete_absent k m h) (delete_absent k m h)

    pub delete-IsDistinct : (k : K) (m : Map K V) → IsDistinct m → IsDistinct (delete k m)
    unfolding IsDistinct delete
    delete-IsDistinct k [] d = tt
    delete-IsDistinct k ((j, v) ∷ m) d =
        ground (arith, delete-IsDistinct k m d.1, lookup-delete k j m)

    pub insert-IsDistinct : (k : K) (v : V) (m : Map K V) → IsDistinct m → IsDistinct (insert k v m)
    unfolding IsDistinct insert
    insert-IsDistinct k v m d =
        (ground (arith, lookup-delete k k m, beq_refl k), delete-IsDistinct k m d)

    pub keys-delete : (k : K) (m : Map K V) → keys (delete k m) ≡ remove k (keys m)
    unfolding delete remove
    keys-delete k [] = refl
    keys-delete k ((j, v) ∷ m) = ground (arith, keys-delete k m)

    pub keys-insert : (k : K) (v : V) (m : Map K V) → keys (insert k v m) ≡ add k (keys m)
    unfolding insert add
    keys-insert k v m = ap (◌∷◌ k) (keys-delete k m)

    -- A key is found exactly when it is among the keys.
    pub member-keys : (k : K) (m : Map K V) {v : V} → lookup k m ≡ some v → member k (keys m) ≡ true
    unfolding lookup member
    member-keys k [] h = cc
    member-keys k ((j, w) ∷ m) {v} h = ground (arith, member-keys k m {v = v})

    pub lookup_of_member :
        (k : K) (m : Map K V) → member k (keys m) ≡ true → (v : V) × (lookup k m ≡ some v)
    unfolding lookup member
    lookup_of_member k [] h = cc
    lookup_of_member k ((j, w) ∷ m) h = elim (Bool-cases (j == k)) [
      | inl here ↦ (w, ground arith)
      | inr there ↦ let (v, p) = lookup_of_member k m (ground arith) in (v, ground arith)
    ]

    -- The values of a map are the one of a key, and the others.
    pub values-delete-perm :
        (k : K) (m : Map K V) {v : V}
        → IsDistinct m
        → lookup k m ≡ some v
        → Perm (values m) (v ∷ values (delete k m))
    unfolding IsDistinct lookup delete
    values-delete-perm k [] d h = cc
    values-delete-perm k ((j, w) ∷ m) {v} d h = elim (Bool-cases (j == k)) [
      | inl here ↦ rw here (
          rw (delete_absent k m (ground (arith, e.beq_iff j k)))
            (Perm.cons' (ground arith) Perm.rfl))
      | inr there ↦ rw there (
          Perm.trans (Perm.cons w (values-delete-perm k m d.1 (ground arith)))
            (Perm.swap v w (values (delete k m))))
    ]

    pub length-delete :
        (k : K) (m : Map K V) {v : V}
        → IsDistinct m
        → lookup k m ≡ some v
        → length m ≡ suc (length (delete k m))
    unfolding IsDistinct lookup delete
    length-delete k [] d h = cc
    length-delete k ((j, w) ∷ m) {v} d h =
        ground (arith, delete_absent k m, e.beq_iff j k, length-delete k m {v = v} d.1)

    pub not_member_of_none : (k : K) (m : Map K V) → lookup k m ≡ none → member k (keys m) ≡ false
    not_member_of_none k m h = elim (Bool-cases (member k (keys m))) [
      | inl there ↦ let (v, p) = lookup_of_member k m there in cc (h, p)
      | inr absent ↦ absent
    ]
