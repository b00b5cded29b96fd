-- ===== src/Bench/Float/Hundredths.antt =====
-- The laws of the float64 of internal/bench can be met: whole hundredths, none of them below 0.
use native.Mathlib.Nat.{mul-le-mul}
use golang_mq.Base.{ℕ, ◌+◌, ◌*◌, ◌/◌, ◌≤◌, false, ltb, arith}
use golang_mq.Base.Int.{ℤ, pos, negsuc}
use golang_mq.Bench.Float.{Float, rank, IsAtMost, IsIeee}

abbrev of_hundredths : ℤ → ℕ
of_hundredths (pos n) = n * 100
of_hundredths (negsuc n) = 0

instance abbrev pub hundredths : Float ℕ
hundredths = record {
  of_int = of_hundredths;
  lt = ltb;
  is_nan = λ x. false;
  plus = λ a b. a + b;
  times = λ a b. a * b / 100;
  over = λ a b. a * 100 / b;
  ceil_int = λ a. pos ((a + 99) / 100);
}

pub hundredths-IsIeee : IsIeee ℕ
unfolding rank IsAtMost
hundredths-IsIeee = record {
  lt_asymm = λ x y h. ground arith;
  le_trans = λ x y z number h g. ground arith;
  rank_mono = λ p q n order top bound.
      let parts : p * 100 * 100 / 10000 ≤ q * 100 * 100 / 10000 = omega arith in
      let same : n * 100 ≤ n * 100 = omega arith in
      let whole = mul-le-mul parts same in omega (arith, whole);
}
