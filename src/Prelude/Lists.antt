-- ===== src/Prelude/Lists.antt =====
-- Slices: lists measured by native numbers.
use Prim.Native.Nat.{ℕ, zero, suc, ◌+◌}
use mathlib.Core.Logic.{inl, inr}
use mathlib.Core.Option.{Option, none, some}
use leng.Prelude.Tests.{if◌then◌else◌, Option-cases}
use mathlib.Core.Path.{◌≡◌, refl, ap}
use mathlib.Core.Bool.{Bool, false, ◌||◌}
use mathlib.Core.List.{List, [], ◌∷◌, ◌++◌, map}
use native.Mathlib.Omega.{arith}

module _ {ℓ} {A : Type ℓ} where
  abbrev pub length : List A → ℕ
  length [] = 0
  length (x ∷ xs) = suc (length xs)

  -- slices.ContainsFunc
  abbrev pub any : (A → Bool) → List A → Bool
  any p [] = false
  any p (x ∷ xs) = p x || any p xs

  -- A predicate on every item.
  abbrev pub All {κ} : (A → Type κ) → List A → Type κ
  All P [] = Unit
  All P (x ∷ xs) = P x × All P xs

module _ {ℓ} {A : Type ℓ} where
  pub length-append : (xs ys : List A) → length (xs ++ ys) ≡ length xs + length ys
  length-append [] ys = omega arith
  length-append (x ∷ xs) ys = omega (arith, length-append xs ys)

  pub length-map {κ} : {B : Type κ} (f : A → B) (xs : List A) → length (map f xs) ≡ length xs
  length-map f [] = refl
  length-map f (x ∷ xs) = ap suc (length-map f xs)

module _ {ℓ} {A : Type ℓ} where
  -- The item at an index, and the others.
  unfoldable pub take_out : ℕ → List A → Option (A × List A)
  take_out n [] = none
  take_out zero (x ∷ l) = some (x, l)
  take_out (suc n) (x ∷ l) = elim (take_out n l) [ none ↦ none | some r ↦ some (r.0, x ∷ r.1) ]

  -- How many items meet a test.
  abbrev pub count : (A → Bool) → List A → ℕ
  count p [] = 0
  count p (x ∷ l) = let rest = count p l in if p x then suc rest else rest

  pub count-append : (p : A → Bool) (l k : List A) → count p (l ++ k) ≡ count p l + count p k
  count-append p [] k = omega arith
  count-append p (x ∷ l) k = ground (arith, count-append p l k)

  pub count-take_out :
      (p : A → Bool) (n : ℕ) (l : List A) (x : A) (rest : List A)
      → take_out n l ≡ some (x, rest)
      → count p l ≡ (if p x then suc (count p rest) else count p rest)
  unfolding take_out
  count-take_out p n [] x rest h = cc
  count-take_out p zero (y ∷ l) x rest h = ground (arith, h)
  count-take_out p (suc n) (y ∷ l) x rest h = elim (Option-cases (take_out n l)) [
    | inl e ↦ ground (arith, h, e)
    | inr ((x', rest'), e) ↦ ground (arith, h, e, count-take_out p n l x' rest' e)
  ]

  pub length-take_out :
      (n : ℕ) (l : List A) (x : A) (rest : List A)
      → take_out n l ≡ some (x, rest)
      → length l ≡ suc (length rest)
  unfolding take_out
  length-take_out n [] x rest h = cc
  length-take_out zero (y ∷ l) x rest h = ground (arith, h)
  length-take_out (suc n) (y ∷ l) x rest h = elim (Option-cases (take_out n l)) [
    | inl e ↦ ground (arith, h, e)
    | inr ((x', rest'), e) ↦ ground (arith, h, e, length-take_out n l x' rest' e)
  ]
