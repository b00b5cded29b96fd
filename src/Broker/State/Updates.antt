-- ===== src/Broker/State/Updates.antt =====
-- A write to one address of the heap, read back.
use golang_mq.Base.{ℕ, ◌≡◌, refl, true, false, nat_beq, nat_beq_iff, inl, inr, Bool-cases}
use golang_mq.Broker.State.{update}

pub nat_beq_refl : (i : ℕ) → nat_beq i i ≡ true
nat_beq_refl i = (nat_beq_iff i i).1 refl

module _ {ℓ} {A : Type ℓ} where
  pub update_self : (i : ℕ) (a : A) (f : ℕ → A) → update i a f i ≡ a
  update_self i a f = rw (nat_beq_refl i)

  pub update_ne : (i j : ℕ) (a : A) (f : ℕ → A) → nat_beq i j ≡ false → update i a f j ≡ f j
  update_ne i j a f h = rw h

  -- What holds of the new object and of all old ones holds everywhere.
  pub update_all {κ} :
      (P : A → Type κ) (i : ℕ) (a : A) (f : ℕ → A)
      → P a
      → ((j : ℕ) → P (f j))
      → (j : ℕ) → P (update i a f j)
  update_all P i a f new old j = elim (Bool-cases (nat_beq i j)) [
    | inl e ↦ rw e new
    | inr e ↦ rw e (old j)
  ]
