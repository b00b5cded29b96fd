-- ===== src/Base/Search.antt =====
-- The loop over the keys of a set that returns at the first key to pass a test.
use Prim.Native.Nat.{ℕ}
use mathlib.Core.Path.{◌≡◌}
use mathlib.Core.Bool.{Bool, true, false}
use mathlib.Core.Option.{Option, none, some}
use mathlib.Core.List.{List, [], ◌∷◌}
use mathlib.Core.Logic.{inl, inr}
use native.Mathlib.Omega.{arith}
use golang_mq.Base.Tests.{nat_beq, nat_beq_iff, nat_eq, if◌then◌else◌, Bool-cases}
use golang_mq.Base.Map.{member}

unfoldable pub find_first : (ℕ → Bool) → List ℕ → Option ℕ
find_first test [] = none
find_first test (k ∷ ks) = if test k then some k else find_first test ks

module _ (test : ℕ → Bool) where
  pub find_first-some :
      (ks : List ℕ) {k : ℕ} → find_first test ks ≡ some k → (member k ks ≡ true) × (test k ≡ true)
  unfolding find_first member
  find_first-some [] h = cc
  find_first-some (j ∷ ks) {k} h = elim (Bool-cases (test j)) [
    | inl hit ↦ let e : j ≡ k = ground arith in (ground (arith, nat_beq_iff j k), rw e at hit)
    | inr miss ↦ let (p, q) = find_first-some ks {k = k} (ground arith) in (ground arith, q)
  ]

  pub find_first-none :
      (ks : List ℕ) → find_first test ks ≡ none → (k : ℕ) → member k ks ≡ true → test k ≡ false
  unfolding find_first member
  find_first-none [] h k m = cc
  find_first-none (j ∷ ks) h k m = elim (Bool-cases (nat_beq j k)) [
    | inl here ↦ rw (← (nat_beq_iff j k).0 here) (ground arith)
    | inr there ↦ find_first-none ks (ground arith) k (ground arith)
  ]
