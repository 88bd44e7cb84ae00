-- ===== src/Shared/Families.antt =====
-- Families indexed by native numbers: a change at one index, and how many of the first members hold.
use Prim.Native.Nat.{ℕ, zero, suc, ◌+◌, ◌*◌, ◌≤◌, ◌<◌}
use mathlib.Core.Path.{◌≡◌, refl}
use mathlib.Core.Logic.{◌≢◌, inl, inr}
use mathlib.Core.Bool.{Bool, false}
use native.Mathlib.Omega.{arith}
use undergraduate_project.Shared.Tests.{◌==◌, if◌then◌else◌, Bool-cases}

abbrev pub update {ℓ} : {A : Type ℓ} → (ℕ → A) → ℕ → A → ℕ → A
update f i a j = if j == i then a else f j

module _ {ℓ} {A : Type ℓ} (weight : A → ℕ) where
  -- The weights of the members below `n`.
  abbrev pub sum_below : ℕ → (ℕ → A) → ℕ
  sum_below zero f = 0
  sum_below (suc n) f = sum_below n f + weight (f n)

  sum_below_outside :
      (n : ℕ) (f : ℕ → A) (i : ℕ) (a : A) → n ≤ i → sum_below n (update f i a) ≡ sum_below n f
  sum_below_outside zero f i a h = refl
  sum_below_outside (suc n) f i a h = ground (arith, sum_below_outside n f i a)

  -- A change of one member changes the sum by the difference of its weights.
  pub sum_below-update :
      (n i : ℕ) (f : ℕ → A) (a : A)
      → i < n
      → sum_below n (update f i a) + weight (f i) ≡ sum_below n f + weight a
  sum_below-update zero i f a h = absurd (omega arith)
  sum_below-update (suc n) i f a h = elim (Bool-cases (n == i)) [
    | inl last ↦ ground (arith, sum_below_outside n f i a)
    | inr below ↦ ground (arith, sum_below-update n i f a)
  ]

  pub sum_below-le :
      (n bound : ℕ) (f : ℕ → A)
      → ((i : ℕ) → i < n → weight (f i) ≤ bound)
      → sum_below n f ≤ n * bound
  sum_below-le zero bound f h = omega arith
  sum_below-le (suc n) bound f h =
      grind (arith, h n, sum_below-le n bound f (λ i below. h i (omega arith)))

module _ {ℓ} {A : Type ℓ} (test : A → Bool) where
  abbrev pub one_if : A → ℕ
  one_if a = if test a then 1 else 0

  -- How many of the members below `n` pass the test.
  abbrev pub count_below : ℕ → (ℕ → A) → ℕ
  count_below = sum_below one_if

  pub count_below-le : (n : ℕ) (f : ℕ → A) → count_below n f ≤ n
  count_below-le zero f = omega arith
  count_below-le (suc n) f = ground (arith, count_below-le n f)

  pub count_below-update :
      (n : ℕ) (f : ℕ → A) (i : ℕ) (a : A)
      → i < n
      → count_below n (update f i a) + one_if (f i) ≡ count_below n f + one_if a
  count_below-update n f i a h = sum_below-update one_if n i f a h

  pub count_below_one :
      (n : ℕ) (f : ℕ → A) (i : ℕ) → i < n → test (f i) ≡ false → count_below n f + 1 ≤ n
  count_below_one zero f i h e = absurd (omega arith)
  count_below_one (suc n) f i h e = elim (Bool-cases (n == i)) [
    | inl last ↦ ground (arith, count_below-le n f)
    | inr below ↦ ground (arith, count_below_one n f i)
  ]

  pub count_below_two :
      (n : ℕ) (f : ℕ → A) (i j : ℕ)
      → i < n
      → j < n
      → i ≢ j
      → test (f i) ≡ false
      → test (f j) ≡ false
      → count_below n f + 2 ≤ n
  count_below_two zero f i j hi hj ne ei ej = absurd (omega arith)
  count_below_two (suc n) f i j hi hj ne ei ej = elim (Bool-cases (n == i)) [
    | inl last ↦ ground (arith, count_below_one n f j)
    | inr below ↦ elim (Bool-cases (n == j)) [
      | inl final ↦ ground (arith, count_below_one n f i)
      | inr under ↦ ground (arith, count_below_two n f i j)
    ]
  ]
