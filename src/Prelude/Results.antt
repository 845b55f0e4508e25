-- ===== src/Prelude/Results.antt =====
-- A value or a Go error, and the outcome of a call.
use mathlib.Core.Path.{◌≡◌, refl}
use mathlib.Core.Logic.{◌⊎◌, inl, inr}
use mathlib.Core.Option.{some}

pub data Result {ℓ} (X A : Type ℓ) : Type ℓ where
  ok : A → Result X A
  err : X → Result X A

-- A call that returns, or that ends in a Go panic.
pub data Run {ℓ} (A : Type ℓ) : Type ℓ where
  returned : A → Run A
  panicked : Run A

module _ {ℓ} {A : Type ℓ} where
  pub Run-cases : (r : Run A) → (r ≡ panicked) ⊎ ((a : A) × (r ≡ returned a))
  Run-cases panicked = inl refl
  Run-cases (returned a) = inr (a, refl)

  pub returned≢panicked : {a : A} → returned a ≡ panicked → ⊥
  returned≢panicked h = cc

  pub returned-injective : {a b : A} → returned a ≡ returned b → a ≡ b
  returned-injective h = cc

  pub Result-cases :
      {X : Type ℓ} (r : Result X A) → ((x : X) × (r ≡ err x)) ⊎ ((a : A) × (r ≡ ok a))
  Result-cases (ok a) = inr (a, refl)
  Result-cases (err x) = inl (x, refl)

  pub ok-injective : {X : Type ℓ} {a b : A} → ◌≡◌ {A = Result X A} (ok a) (ok b) → a ≡ b
  ok-injective h = cc

  pub some-injective : {a b : A} → some a ≡ some b → a ≡ b
  some-injective h = cc

  pub err-injective : {X : Type ℓ} {x y : X} → ◌≡◌ {A = Result X A} (err x) (err y) → x ≡ y
  err-injective h = cc
