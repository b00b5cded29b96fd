-- ===== src/Bench/Float.antt =====
-- What internal/bench/metrics.go, csv.go and engine.go do with a `float64`. The number format is a
-- parameter: the operations are an interface, with the laws of IEEE 754 that proofs use.
pub mod Hundredths
use golang_mq.Base.{
  ℕ, zero, suc, ◌+◌, ◌-◌, ◌*◌, ◌/◌, ◌≤◌, ◌<◌, ◌^◌, ◌≡◌, refl, Bool, true, false, not, ◌&&◌, ◌||◌,
  ltb, leb, arith, if◌then◌else◌, Bool-cases,
}
use golang_mq.Base.Int.{ℤ, pos, negsuc}

-- `ceil_int x` is int(math.Ceil(x)), and `is_nan x` is x != x.
pub record Float (F : Type 0) : Type 0 where
  pub of_int : ℤ → F
  pub lt : F → F → Bool
  pub is_nan : F → Bool
  pub plus : F → F → F
  pub times : F → F → F
  pub over : F → F → F
  pub ceil_int : F → ℤ

-- a - b for machine integers that do not overflow
unfoldable pub difference : ℕ → ℕ → ℤ
difference a b = if leb b a then pos (a - b) else negsuc (b - a - 1)

module _ {F : Type 0} ⦃f : Float F⦄ where
  -- float64(n)
  abbrev pub of_nat : ℕ → F
  of_nat n = f.of_int (pos n)

  abbrev pub nought : F
  nought = of_nat 0

  -- The order of sort.Float64s: a NaN stands before all else.
  unfoldable pub before : F → F → Bool
  before x y = f.lt x y || (f.is_nan x && not (f.is_nan y))

  infix 4 ◌≼◌
  abbrev pub ◌≼◌ : F → F → Type 0
  x ≼ y = f.lt y x ≡ false

  abbrev pub IsNumber : F → Type 0
  IsNumber x = f.is_nan x ≡ false

  -- int(math.Ceil(p / 100 * float64(n))), the position of a percentile, counted from 1
  unfoldable pub rank : F → ℕ → ℤ
  rank p n = f.ceil_int (f.times (f.over p (of_nat 100)) (of_nat n))

-- x <= y on signed integers
unfoldable pub IsAtMost : ℤ → ℤ → Type 0
IsAtMost (pos a) (pos b) = a ≤ b
IsAtMost (negsuc a) (pos b) = Unit
IsAtMost (pos a) (negsuc b) = ⊥
IsAtMost (negsuc a) (negsuc b) = b ≤ a

-- Comparison is a total preorder of the values that are no NaN, and rounding keeps the order of
-- percentiles of one slice.
pub record IsIeee (F : Type 0) ⦃f : Float F⦄ : Type 0 where
  pub lt_asymm : (x y : F) → f.lt x y ≡ true → f.lt y x ≡ false
  pub le_trans : (x y z : F) → IsNumber y → x ≼ y → y ≼ z → x ≼ z
  pub rank_mono :
      (p q n : ℕ)
      → p ≤ q
      → q ≤ 100
      → n < 2 ^ 63
      → IsAtMost (rank {F = F} (of_nat p) n) (rank {F = F} (of_nat q) n)
