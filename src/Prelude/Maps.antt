-- ===== src/Prelude/Maps.antt =====
-- Go's maps: association lists. A write to a key that is present stays in its place, and a new key
-- goes to the end. Go leaves the order of a `range` open, so a theorem about one holds for every
-- order.
use Prim.Native.Nat.{suc}
use mathlib.Core.Path.{◌≡◌, refl}
use mathlib.Core.Bool.{Bool, true, false, ◌||◌}
use mathlib.Core.Option.{Option, none, some}
use mathlib.Core.List.{List, [], ◌∷◌}
use native.Mathlib.Omega.{arith}
use leng.Prelude.Tests.{Comparable, ◌==◌, eq_iff, if◌then◌else◌}
use leng.Prelude.Lists.{length}

abbrev pub GoMap {ℓ} : Type ℓ → Type ℓ → Type ℓ
GoMap K V = List (K × V)

module _ {ℓ} {K V : Type ℓ} ⦃comparable : Comparable K⦄ where
  -- v, ok := m[k]
  unfoldable pub lookup : K → GoMap K V → Option V
  lookup k [] = none
  lookup k ((j, v) ∷ m) = if j == k then some v else lookup k m

  -- _, ok := m[k]
  unfoldable pub has : K → GoMap K V → Bool
  has k [] = false
  has k ((j, v) ∷ m) = j == k || has k m

  -- m[k] = v
  unfoldable pub put : K → V → GoMap K V → GoMap K V
  put k v [] = (k, v) ∷ []
  put k v ((j, w) ∷ m) = if j == k then (j, v) ∷ m else (j, w) ∷ put k v m

  -- delete(m, k)
  unfoldable pub delete : K → GoMap K V → GoMap K V
  delete k [] = []
  delete k ((j, w) ∷ m) = if j == k then m else (j, w) ∷ delete k m

  -- No key stands twice.
  abbrev pub Distinct : GoMap K V → Type ℓ
  Distinct [] = Unit
  Distinct ((j, w) ∷ m) = (has j m ≡ false) × Distinct m

  pub lookup-put :
      (k j : K) (v : V) (m : GoMap K V)
      → lookup j (put k v m) ≡ (if k == j then some v else lookup j m)
  unfolding lookup put
  lookup-put k j v [] = refl
  lookup-put k j v ((i, w) ∷ m) =
      ground (arith, eq_iff k j, eq_iff i k, eq_iff i j, lookup-put k j v m)

  pub has-put : (k j : K) (v : V) (m : GoMap K V) → has j (put k v m) ≡ (k == j || has j m)
  unfolding has put
  has-put k j v [] = refl
  has-put k j v ((i, w) ∷ m) = ground (arith, eq_iff k j, eq_iff i k, eq_iff i j, has-put k j v m)

  pub has-delete-false : (k j : K) (m : GoMap K V) → has j m ≡ false → has j (delete k m) ≡ false
  unfolding has delete
  has-delete-false k j [] h = refl
  has-delete-false k j ((i, w) ∷ m) h = ground (arith, has-delete-false k j m)

  pub has-lookup :
      (k : K) (m : GoMap K V) → has k m ≡ (elim (lookup k m) [ none ↦ false | some v ↦ true ])
  unfolding has lookup
  has-lookup k [] = refl
  has-lookup k ((i, w) ∷ m) = ground (arith, has-lookup k m)

  pub lookup-delete :
      (k j : K) (m : GoMap K V)
      → Distinct m
      → lookup j (delete k m) ≡ (if k == j then none else lookup j m)
  unfolding lookup delete
  lookup-delete k j [] d = ground arith
  lookup-delete k j ((i, w) ∷ m) d =
      ground (arith, eq_iff k j, eq_iff i k, eq_iff i j, lookup-delete k j m d.1, has-lookup i m)

  pub put-Distinct : (k : K) (v : V) (m : GoMap K V) → Distinct m → Distinct (put k v m)
  unfolding put has
  put-Distinct k v [] d = (refl, tt)
  put-Distinct k v ((i, w) ∷ m) d =
      ground (arith, eq_iff i k, eq_iff k i, has-put k i v m, put-Distinct k v m d.1)

  pub delete-Distinct : (k : K) (m : GoMap K V) → Distinct m → Distinct (delete k m)
  unfolding delete
  delete-Distinct k [] d = d
  delete-Distinct k ((i, w) ∷ m) d = ground (arith, has-delete-false k i m, delete-Distinct k m d.1)

  pub length-put :
      (k : K) (v : V) (m : GoMap K V)
      → length (put k v m) ≡ (if has k m then length m else suc (length m))
  unfolding put has
  length-put k v [] = refl
  length-put k v ((i, w) ∷ m) = ground (arith, length-put k v m)

  pub length-delete :
      (k : K) (m : GoMap K V)
      → length m ≡ (if has k m then suc (length (delete k m)) else length (delete k m))
  unfolding delete has
  length-delete k [] = refl
  length-delete k ((i, w) ∷ m) = ground (arith, length-delete k m)
