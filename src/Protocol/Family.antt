-- ===== src/Protocol/Family.antt =====
-- Weights of a family indexed by threads, summed below a bound.
use os_study.Prelude.{
  ℕ, zero, suc, ◌+◌, ◌≤◌, ◌<◌, ◌≡◌, ◌≢◌, refl, arith, ◌==◌, if◌then◌else◌, Bool-cases, inl, inr,
}

abbrev pub set_at {ℓ} : {A : Type ℓ} → ℕ → A → (ℕ → A) → ℕ → A
set_at i a f j = if i == j then a else f j

module _ {ℓ} {A : Type ℓ} (weight : A → ℕ) where
  unfoldable pub sum_below : ℕ → (ℕ → A) → ℕ
  sum_below zero f = 0
  sum_below (suc n) f = weight (f n) + sum_below n f

  sum_below-set_high :
      (n i : ℕ) (a : A) (f : ℕ → A) → n ≤ i → sum_below n (set_at i a f) ≡ sum_below n f
  unfolding sum_below
  sum_below-set_high zero i a f h = refl
  sum_below-set_high (suc n) i a f h = ground (arith, sum_below-set_high n i a f)

  pub sum_below-set_at :
      (n i : ℕ) (a : A) (f : ℕ → A)
      → i < n
      → sum_below n (set_at i a f) + weight (f i) ≡ sum_below n f + weight a
  unfolding sum_below
  sum_below-set_at zero i a f h = absurd (omega arith)
  sum_below-set_at (suc n) i a f h = elim (Bool-cases (i == n)) [
    | inl last ↦ ground (arith, sum_below-set_high n i a f)
    | inr below ↦ ground (arith, sum_below-set_at n i a f)
  ]

  pub weight-le-sum : (n i : ℕ) (f : ℕ → A) → i < n → weight (f i) ≤ sum_below n f
  unfolding sum_below
  weight-le-sum zero i f h = absurd (omega arith)
  weight-le-sum (suc n) i f h = elim (Bool-cases (i == n)) [
    | inl last ↦ ground arith
    | inr below ↦ ground (arith, weight-le-sum n i f)
  ]

  -- Two members weigh no more than all.
  pub two-le-sum :
      (n i j : ℕ) (f : ℕ → A) → i < n → j < n → i ≢ j → weight (f i) + weight (f j) ≤ sum_below n f
  unfolding sum_below
  two-le-sum zero i j f hi hj ne = absurd (omega arith)
  two-le-sum (suc n) i j f hi hj ne = elim (Bool-cases (i == n)) [
    | inl last ↦ ground (arith, weight-le-sum n j f)
    | inr below ↦ elim (Bool-cases (j == n)) [
      | inl last ↦ ground (arith, weight-le-sum n i f)
      | inr low ↦ ground (arith, two-le-sum n i j f)
    ]
  ]

  pub sum_below-const : (n : ℕ) (a : A) → weight a ≡ 0 → sum_below n (λ _. a) ≡ 0
  unfolding sum_below
  sum_below-const zero a e = refl
  sum_below-const (suc n) a e = omega (arith, sum_below-const n a e)

  pub sum_below-eq_zero :
      (n : ℕ) (f : ℕ → A) → ((i : ℕ) → i < n → weight (f i) ≡ 0) → sum_below n f ≡ 0
  unfolding sum_below
  sum_below-eq_zero zero f h = refl
  sum_below-eq_zero (suc n) f h =
      omega (arith, h n (omega arith), sum_below-eq_zero n f (λ i lt. h i (omega arith)))

pub sum_below-le {ℓ} :
    {A : Type ℓ} (v w : A → ℕ)
    → ((a : A) → v a ≤ w a)
    → (n : ℕ) (f : ℕ → A) → sum_below v n f ≤ sum_below w n f
unfolding sum_below
sum_below-le v w h zero f = omega arith
sum_below-le v w h (suc n) f = omega (arith, h (f n), sum_below-le v w h n f)
