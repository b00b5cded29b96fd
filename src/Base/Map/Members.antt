-- ===== src/Base/Map/Members.antt =====
-- Membership in a set of keys, and in the entries of a map, against the library's `Mem`.
use mathlib.Core.Path.{◌≡◌, sym}
use mathlib.Core.Bool.{true, Bool-discrete}
use mathlib.Core.HLevel.{hedberg}
use mathlib.Core.List.{
  List, [], ◌∷◌, Perm, Mem, mem-cons, not-mem-nil, mem-cons_self, mem-cons_of_mem,
}
use mathlib.Core.List.Perm
use mathlib.Core.Logic.Or
use mathlib.Core.Logic.{inl, inr}
use native.Mathlib.Omega.{arith}
use golang_mq.Base.Tests.{Eq, ◌==◌, Bool-cases}
use golang_mq.Base.Map.{member}

module _ {K : Type 0} ⦃e : Eq K⦄ where
  pub mem_of_member : (k : K) (s : List K) → member k s ≡ true → Mem k s
  unfolding member
  mem_of_member k [] h = cc
  mem_of_member k (j ∷ s) h = elim (Bool-cases (j == k)) [
    | inl here ↦ rw ((e.beq_iff j k).0 here) mem-cons_self
    | inr there ↦ mem-cons_of_mem j (mem_of_member k s (ground arith))
  ]

  pub member_of_mem : (k : K) (s : List K) → Mem k s → member k s ≡ true
  unfolding member
  member_of_mem k [] m = absurd (not-mem-nil m)
  member_of_mem k (j ∷ s) m =
      Or.elim (hedberg Bool-discrete _ _) (mem-cons.0 m) (λ p. ground (arith, e.beq_iff j k))
        (λ p. ground (arith, member_of_mem k s p))

  pub member-perm : (k : K) {s t : List K} → Perm s t → member k s ≡ member k t
  member-perm k {s} {t} p = elim (Bool-cases (member k s)) [
    | inl a ↦ rw a (sym (member_of_mem k t ((Perm.mem_iff p).0 (mem_of_member k s a))))
    | inr a ↦ elim (Bool-cases (member k t)) [
      | inl b ↦ ground (arith, member_of_mem k s ((Perm.mem_iff p).1 (mem_of_member k t b)))
      | inr b ↦ rw (a, b)
    ]
  ]
