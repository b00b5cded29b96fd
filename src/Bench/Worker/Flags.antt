-- ===== src/Bench/Worker/Flags.antt =====
-- The flags of the messages that were seen: `seen` of internal/bench/worker.go.
use golang_mq.Base.{
  ℕ, zero, suc, ◌≤◌, ◌<◌, ◌≡◌, refl, Bool, true, false, List, [], ◌∷◌, length, arith, if◌then◌else◌,
}
use mathlib.Core.Bool.{true≢false}
use golang_mq.Bench.Counters.{repeat}
use golang_mq.Bench.Worker.{seen_at, mark}

unfoldable pub count_true : List Bool → ℕ
count_true [] = 0
count_true (b ∷ bs) = let n = count_true bs in if b then suc n else n

pub none_seen : (i n : ℕ) → seen_at i (repeat n false) ≡ false
unfolding seen_at repeat
none_seen i zero = refl
none_seen zero (suc n) = refl
none_seen (suc i) (suc n) = none_seen i n

pub none_true : (n : ℕ) → count_true (repeat n false) ≡ 0
unfolding count_true repeat
none_true zero = refl
none_true (suc n) = none_true n

pub length-mark : (i : ℕ) (bs : List Bool) → length (mark i bs) ≡ length bs
unfolding mark
length-mark i [] = refl
length-mark zero (b ∷ bs) = refl
length-mark (suc i) (b ∷ bs) = rw (length-mark i bs) refl

-- Marking a message counts it, unless it was seen.
pub count_true-mark :
    (i : ℕ) (bs : List Bool)
    → i < length bs
    → count_true (mark i bs) ≡ (if seen_at i bs then count_true bs else suc (count_true bs))
unfolding count_true mark seen_at
count_true-mark i [] h = absurd (omega arith)
count_true-mark zero (true ∷ bs) h = refl
count_true-mark zero (false ∷ bs) h = refl
count_true-mark (suc i) (true ∷ bs) h = rw (count_true-mark i bs (omega arith)) (ground arith)
count_true-mark (suc i) (false ∷ bs) h = count_true-mark i bs (omega arith)

pub seen_at-mark-others : (i j : ℕ) (bs : List Bool) → i < j → seen_at j (mark i bs) ≡ seen_at j bs
unfolding mark seen_at
seen_at-mark-others i j [] h = refl
seen_at-mark-others i zero (b ∷ bs) h = absurd (omega arith)
seen_at-mark-others zero (suc j) (b ∷ bs) h = refl
seen_at-mark-others (suc i) (suc j) (b ∷ bs) h = seen_at-mark-others i j bs (omega arith)

pub count_true-length : (bs : List Bool) → count_true bs ≤ length bs
unfolding count_true
count_true-length [] = omega arith
count_true-length (true ∷ bs) = omega (arith, count_true-length bs)
count_true-length (false ∷ bs) = omega (arith, count_true-length bs)

-- No more messages were seen than there are numbers below `n`, if none above is.
at_most : (n : ℕ) (bs : List Bool) → ((i : ℕ) → n ≤ i → seen_at i bs ≡ false) → count_true bs ≤ n
unfolding count_true seen_at
at_most n [] above = omega arith
at_most zero (true ∷ bs) above = absurd (true≢false (above 0 (omega arith)))
at_most zero (false ∷ bs) above = at_most zero bs λ i h. above (suc i) (omega arith)
at_most (suc n) (true ∷ bs) above = omega (arith, at_most n bs λ i h. above (suc i) (omega arith))
at_most (suc n) (false ∷ bs) above = omega (arith, at_most n bs λ i h. above (suc i) (omega arith))

-- If as many messages were seen as were given out, and none other, then each of them was seen.
pub all_seen :
    (n : ℕ) (bs : List Bool)
    → ((i : ℕ) → n ≤ i → seen_at i bs ≡ false)
    → n ≤ count_true bs
    → (i : ℕ) → i < n
    → seen_at i bs ≡ true
unfolding count_true seen_at
all_seen n [] above many i small = absurd (omega arith)
all_seen zero (b ∷ bs) above many i small = absurd (omega arith)
all_seen (suc n) (true ∷ bs) above many zero small = refl
all_seen (suc n) (true ∷ bs) above many (suc i) small =
    all_seen n bs (λ j h. above (suc j) (omega arith)) (omega arith) i (omega arith)
all_seen (suc n) (false ∷ bs) above many i small =
    let most = at_most n bs λ j h. above (suc j) (omega arith) in absurd (omega (arith, most))
