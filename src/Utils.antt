-- ===== src/Utils.antt =====
-- utils.go: the difference and the equality of two slices. A map of seen items is their list.
use leng.Prelude.{
  ◌≡◌, refl, ap, ap₂, ◌↔◌, inl, inr, Bool, true, false, not, ◌&&◌, ◌||◌, List, [], ◌∷◌, arith,
  nat_beq, if◌then◌else◌, Bool-cases, ◌==◌, eq_iff, Comparable, Run, returned, panicked, length,
  any, GoMap, has, put, has-put, comparable_text,
}

module _ {T : Type 0} ⦃comparable : Comparable T⦄ where
  -- m[item] = true for the items of b
  unfoldable pub mark : List T → GoMap T Bool → GoMap T Bool
  mark [] m = m
  mark (item ∷ b) m = mark b (put item true m)

  unfoldable pub unmarked : GoMap T Bool → List T → List T
  unmarked m [] = []
  unmarked m (item ∷ a) = let rest = unmarked m a in if has item m then rest else item ∷ rest

  unfoldable pub difference : List T → List T → List T
  difference a b = unmarked (mark b []) a

  -- The loop over the indices of two slices of one length; an index beyond `b` panics.
  unfoldable pub same_items : List T → List T → Run Bool
  same_items [] b = returned true
  same_items (x ∷ a) [] = panicked
  same_items (x ∷ a) (y ∷ b) = let rest = same_items a b in if x == y then rest else returned false

  unfoldable pub test_eq : List T → List T → Run Bool
  test_eq a b = if nat_beq (length a) (length b) then same_items a b else returned false

  -- Whether an item is in a slice.
  abbrev pub holds : T → List T → Bool
  holds x l = any (λ y. y == x) l

  has-mark : (x : T) (b : List T) (m : GoMap T Bool) → has x (mark b m) ≡ (holds x b || has x m)
  unfolding mark
  has-mark x [] m = refl
  has-mark x (y ∷ b) m = ground (arith, has-mark x b (put y true m), has-put y x true m)

  holds-unmarked :
      (x : T) (m : GoMap T Bool) (a : List T)
      → holds x (unmarked m a) ≡ (holds x a && not (has x m))
  unfolding unmarked
  holds-unmarked x m [] = refl
  holds-unmarked x m (y ∷ a) = ground (arith, eq_iff y x, holds-unmarked x m a)

  has_nothing : (x : T) → has {V = Bool} x [] ≡ false
  unfolding has
  has_nothing x = refl

  -- An item is in the difference of two slices exactly when it is in the first and not in the
  -- second.
  holds-difference :
      (x : T) (a b : List T) → holds x (difference a b) ≡ (holds x a && not (holds x b))
  unfolding difference
  holds-difference x a b =
      ground (arith, holds-unmarked x (mark b []) a, has-mark x b [], has_nothing x)

  cons-injective : {x y : T} {a b : List T} → x ∷ a ≡ y ∷ b → a ≡ b
  cons-injective h = cc

  cons-head : {x y : T} {a b : List T} → x ∷ a ≡ y ∷ b → x ≡ y
  cons-head h = cc

  same_items_step :
      (x y : T) (a b : List T) (r : Bool)
      → same_items a b ≡ returned r
      → (r ≡ true) ↔ (a ≡ b)
      → (r' : Bool) × (same_items (x ∷ a) (y ∷ b) ≡ returned r') × ((r' ≡ true) ↔ (x ∷ a ≡ y ∷ b))
  unfolding same_items
  same_items_step x y a b r p q = elim (Bool-cases (x == y)) [
    | inl h ↦ (r, rw h p, (λ t. ap₂ ◌∷◌ ((eq_iff x y).0 h) (q.0 t), λ t. q.1 (cons-injective t)))
    | inr h ↦ (false, rw h refl, (λ t. cc, λ t. ground (arith, h, eq_iff x y, cons-head t)))
  ]

  same_items_lem :
      (a b : List T)
      → length a ≡ length b
      → (r : Bool) × (same_items a b ≡ returned r) × ((r ≡ true) ↔ (a ≡ b))
  unfolding same_items
  same_items_lem [] [] e = (true, refl, (λ h. refl, λ h. refl))
  same_items_lem [] (y ∷ b) e = ground arith
  same_items_lem (x ∷ a) [] e = ground arith
  same_items_lem (x ∷ a) (y ∷ b) e =
      let (r, p, q) = same_items_lem a b (omega (arith, e)) in same_items_step x y a b r p q

  -- The comparison of two slices never panics, and answers whether they are equal.
  test_eq_lem : (a b : List T) → (r : Bool) × (test_eq a b ≡ returned r) × ((r ≡ true) ↔ (a ≡ b))
  unfolding test_eq
  test_eq_lem a b = elim (Bool-cases (nat_beq (length a) (length b))) [
    | inl h ↦ rw h (same_items_lem a b (ground (arith, h)))
    | inr h ↦ (false, rw h refl, (λ t. cc, λ t. ground (arith, h, ap length t)))
  ]
