-- ===== src/Base/Map/Perms.antt =====
-- What does not depend on the order of a list: its length, the members, the values of a map.
use mathlib.Core.Path.{◌≡◌, refl, ap, ◌∙◌}
use mathlib.Core.Logic.{∥∥₁_elim}
use mathlib.Core.Bool.{false}
use mathlib.Core.List.{List, [], ◌∷◌, map, Perm, Permᴰ}
use mathlib.Core.List.Perm
use native.Mathlib.Nat.{ℕ_set}
use native.Mathlib.Omega.{arith}
use golang_mq.Base.Tests.{Eq}
use golang_mq.Base.Lists.{length}
use golang_mq.Base.Map.{Map, values, member}
use golang_mq.Base.Map.Laws.{beq_refl}

module _ {A : Type 0} where
  length-permᴰ : {xs ys : List A} → Permᴰ xs ys → length xs ≡ length ys
  length-permᴰ Permᴰ.nil = refl
  length-permᴰ (Permᴰ.cons e p) = omega (arith, length-permᴰ p)
  length-permᴰ (Permᴰ.swap e f) = refl
  length-permᴰ (Permᴰ.trans p q) = length-permᴰ p ∙ length-permᴰ q

  pub length-perm : {xs ys : List A} → Perm xs ys → length xs ≡ length ys
  length-perm p = ∥∥₁_elim p (ℕ_set _ _) length-permᴰ

module _ {K V : Type 0} where
  values-map : (m : Map K V) → values m ≡ map (λ e. e.1) m
  values-map [] = refl
  values-map ((k, v) ∷ m) = ap (◌∷◌ v) (values-map m)

  pub values-perm : {m n : Map K V} → Perm m n → Perm (values m) (values n)
  values-perm {m} {n} p = rw (values-map m, values-map n) (Perm.map (λ e. e.1) p)

  pub length-values : (m : Map K V) → length (values m) ≡ length m
  length-values [] = refl
  length-values ((k, v) ∷ m) = omega (arith, length-values m)

-- A list that has no member is empty.
pub nil_of_no_member :
    {K : Type 0} ⦃e : Eq K⦄ (s : List K) → ((k : K) → member k s ≡ false) → s ≡ []
unfolding member
nil_of_no_member [] h = refl
nil_of_no_member (k ∷ s) h = ground (arith, h k, beq_refl k)
