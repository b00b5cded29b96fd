-- ===== src/Bench/Latency/Order.antt =====
-- The order of the samples that percentile of internal/bench/metrics.go reads.
use golang_mq.Base.{
  ℕ, zero, suc, ◌≤◌, ◌<◌, ◌≡◌, refl, sym, ◌∙◌, true, false, not, ◌&&◌, List, [], ◌∷◌, inl, inr, All,
  length, ltb, arith, Bool-cases,
}
use golang_mq.Bench.Float.{Float, before, ◌≼◌, IsNumber, IsIeee}
use golang_mq.Bench.Latency.{nth, are_sorted, insert, sort, sorted_samples}

pub All-map {ℓ κ κ'} :
    {A : Type ℓ} {P : A → Type κ} {Q : A → Type κ'}
    → ((x : A) → P x → Q x)
    → (xs : List A) → All P xs
    → All Q xs
All-map g [] h = tt
All-map g (x ∷ xs) h = (g x h.0, All-map g xs h.1)

module _ {F : Type 0} ⦃f : Float F⦄ where
  -- Each element is at most each later one.
  unfoldable pub IsSorted : List F → Type 0
  IsSorted [] = Unit
  IsSorted (x ∷ xs) = All (λ y. x ≼ y) xs × IsSorted xs

  -- Between numbers the order of the sort is that of `<`.
  before-lt : (x y : F) → IsNumber x → before x y ≡ f.lt x y
  unfolding before
  before-lt x y number = ground arith

  pub insert-All {ℓ} : (P : F → Type ℓ) (x : F) (xs : List F) → P x → All P xs → All P (insert x xs)
  unfolding insert
  insert-All P x [] px pxs = (px, pxs)
  insert-All P x (y ∷ ys) px pxs = elim (Bool-cases (before y x)) [
    | inl e ↦ rw e (pxs.0, insert-All P x ys px pxs.1)
    | inr e ↦ rw e (px, pxs)
  ]

  sort-All {ℓ} : (P : F → Type ℓ) (xs : List F) → All P xs → All P (sort xs)
  unfolding sort
  sort-All P [] h = h
  sort-All P (x ∷ xs) h = insert-All P x (sort xs) h.0 (sort-All P xs h.1)

  pub sorted_samples-All {ℓ} : (P : F → Type ℓ) (xs : List F) → All P xs → All P (sorted_samples xs)
  unfolding sorted_samples
  sorted_samples-All P xs h = elim (Bool-cases (ltb 1 (length xs) && not (are_sorted xs))) [
    | inl e ↦ rw e (sort-All P xs h)
    | inr e ↦ rw e h
  ]

  length-insert : (x : F) (ys : List F) → length (insert x ys) ≡ suc (length ys)
  unfolding insert
  length-insert x [] = refl
  length-insert x (y ∷ ys) = elim (Bool-cases (before y x)) [
    | inl e ↦ rw (e, length-insert x ys) refl
    | inr e ↦ rw e refl
  ]

  length-sort : (ys : List F) → length (sort ys) ≡ length ys
  unfolding sort
  length-sort [] = refl
  length-sort (y ∷ ys) = rw (length-insert y (sort ys), length-sort ys) refl

  pub length-sorted_samples : (xs : List F) → length (sorted_samples xs) ≡ length xs
  unfolding sorted_samples
  length-sorted_samples xs = elim (Bool-cases (ltb 1 (length xs) && not (are_sorted xs))) [
    | inl e ↦ rw e (length-sort xs)
    | inr e ↦ rw e refl
  ]

  pub nth-All {ℓ} : (P : F → Type ℓ) (i : ℕ) (xs : List F) → i < length xs → All P xs → P (nth i xs)
  unfolding nth
  nth-All P i [] bound h = absurd (omega arith)
  nth-All P zero (x ∷ xs) bound h = h.0
  nth-All P (suc i) (x ∷ xs) bound h = nth-All P i xs (omega arith) h.1

  module _ (laws : IsIeee F) where
    pub le_refl : (x : F) → x ≼ x
    le_refl x = elim (Bool-cases (f.lt x x)) [ inl e ↦ laws.lt_asymm x x e | inr e ↦ e ]

    from_least :
        (x y : F) (ys : List F) → IsNumber y → x ≼ y → All (λ z. y ≼ z) ys → All (λ z. x ≼ z) ys
    from_least x y ys number e = All-map (λ z h. laws.le_trans x y z number e h) ys

    insert-IsSorted :
        (x : F) (xs : List F) → IsNumber x → All IsNumber xs → IsSorted xs → IsSorted (insert x xs)
    unfolding insert IsSorted
    insert-IsSorted x [] nx nxs h = (tt, tt)
    insert-IsSorted x (y ∷ ys) nx nxs h = elim (Bool-cases (before y x)) [
      | inl e ↦
          let y_le_x = laws.lt_asymm y x (sym (before-lt y x nxs.0) ∙ e) in
          rw e (insert-All (λ z. y ≼ z) x ys y_le_x h.0, insert-IsSorted x ys nx nxs.1 h.1)
      | inr e ↦
          let x_le_y = sym (before-lt y x nxs.0) ∙ e in
          rw e ((x_le_y, from_least x y ys nxs.0 x_le_y h.0), h)
    ]

    sort-IsSorted : (xs : List F) → All IsNumber xs → IsSorted (sort xs)
    unfolding sort IsSorted
    sort-IsSorted [] numbers = tt
    sort-IsSorted (x ∷ xs) numbers =
        insert-IsSorted x (sort xs) numbers.0 (sort-All IsNumber xs numbers.1)
          (sort-IsSorted xs numbers.1)

    are_sorted-IsSorted : (xs : List F) → All IsNumber xs → are_sorted xs ≡ true → IsSorted xs
    unfolding are_sorted IsSorted
    are_sorted-IsSorted [] numbers h = tt
    are_sorted-IsSorted (x ∷ []) numbers h = (tt, tt)
    are_sorted-IsSorted (x ∷ y ∷ ys) numbers h =
        let later : IsSorted (y ∷ ys) = are_sorted-IsSorted (y ∷ ys) numbers.1 (ground arith) in
        let x_le_y : x ≼ y = sym (before-lt y x numbers.1.0) ∙ ground arith in
        ((x_le_y, from_least x y ys numbers.1.0 x_le_y later.0), later)

    in_order :
        (xs : List F)
        → All IsNumber xs
        → (ltb 1 (length xs) && not (are_sorted xs)) ≡ false
        → IsSorted xs
    unfolding IsSorted
    in_order [] numbers e = tt
    in_order (x ∷ []) numbers e = (tt, tt)
    in_order (x ∷ y ∷ ys) numbers e = are_sorted-IsSorted (x ∷ y ∷ ys) numbers (ground arith)

    pub sorted_samples-IsSorted : (xs : List F) → All IsNumber xs → IsSorted (sorted_samples xs)
    unfolding sorted_samples
    sorted_samples-IsSorted xs numbers =
        elim (Bool-cases (ltb 1 (length xs) && not (are_sorted xs))) [
          | inl e ↦ rw e (sort-IsSorted xs numbers)
          | inr e ↦ rw e (in_order xs numbers e)
        ]

    pub nth-le : (i j : ℕ) (xs : List F) → IsSorted xs → i ≤ j → j < length xs → nth i xs ≼ nth j xs
    unfolding nth IsSorted
    nth-le i j [] h order bound = absurd (omega arith)
    nth-le zero zero (x ∷ xs) h order bound = le_refl x
    nth-le zero (suc j) (x ∷ xs) h order bound = nth-All (λ y. x ≼ y) j xs (omega arith) h.0
    nth-le (suc i) zero (x ∷ xs) h order bound = absurd (omega arith)
    nth-le (suc i) (suc j) (x ∷ xs) h order bound = nth-le i j xs h.1 (omega arith) (omega arith)
