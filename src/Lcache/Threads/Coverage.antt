-- ===== src/Lcache/Threads/Coverage.antt =====
-- The keys that are in a response cache or may yet come in, while calls of `Set` run side by side
-- (lcache/cache.go).
use mathlib.Core.Path.{subst}
use leng.Prelude.{
  ℕ, zero, suc, ◌+◌, ◌≤◌, ◌≡◌, refl, sym, ap, ◌∙◌, inl, inr, true, false, ◌||◌, Option, some, List,
  [], ◌∷◌, ◌++◌, arith, Option-cases, ◌==◌, eq_iff, eq_refl, some-injective, length, All,
  length-append, take_out, count, incr, leb_ℤ, ℤ, pos, negsuc, GoMap, has, delete, Distinct,
  length-delete, Text, comparable_text, to_lower,
}
use leng.Lcache
use leng.Lcache.{Entry, LEntry, LengCache}
use leng.Lcache.Threads.{
  Thread, is_setting, full_test, exists_test, clock_read, swap, count_up, load, expiry_test,
  load_and_delete, count_down, finished,
}
use leng.Lcache.Threads.Counting.{plus, owes_up, owes_down, tally, IsCounted}

-- Keys, as a map of nothing.
abbrev pub Keys : Type 0
Keys = GoMap Text (Unit {0})

marks : {V : Type 0} → GoMap Text V → Keys
marks [] = []
marks ((k, v) ∷ m) = (k, tt) ∷ marks m

module _ {V : Type 0} where
  has-marks : (k : Text) (m : GoMap Text V) → has k (marks m) ≡ has k m
  unfolding marks has
  has-marks k [] = refl
  has-marks k ((j, v) ∷ m) = ap (λ b. j == k || b) (has-marks k m)

  length-marks : (m : GoMap Text V) → length (marks m) ≡ length m
  unfolding marks
  length-marks [] = refl
  length-marks ((j, v) ∷ m) = ap suc (length-marks m)

has-append : (k : Text) (a b : Keys) → has k (a ++ b) ≡ (has k a || has k b)
unfolding has
has-append k [] b = refl
has-append k ((j, v) ∷ a) b = ground (arith, has-append k a b)

has-delete : (k j : Text) (m : Keys) → (k == j) ≡ false → has j (delete k m) ≡ has j m
unfolding has delete
has-delete k j [] h = refl
has-delete k j ((i, v) ∷ m) h =
    ground (arith, has-delete k j m h, eq_iff i k, eq_iff i j, eq_iff k j)

-- A map whose keys stand in a list has no more keys than that.
pub covered_length :
    {V : Type 0} (m : GoMap Text V) (l : Keys)
    → Distinct m
    → ((k : Text) → has k m ≡ true → has k l ≡ true)
    → length m ≤ length l
unfolding has
covered_length [] l d h = omega arith
covered_length ((k, v) ∷ m) l d h =
    let here : has k l ≡ true = h k (ground (arith, eq_refl k)) in
    let rest = covered_length m (delete k l) d.1 (λ j e.
      let apart : (k == j) ≡ false = ground (arith, eq_iff k j, d.0, e) in
      rw (has-delete k j l apart) (h j (ground (arith, e)))) in
    ground (arith, here, rest, length-delete k l)

module _ {A : Type 0} where
  pub All-take_out :
      (P : A → Type 0) (i : ℕ) (l : List A) (x : A) (rest : List A)
      → take_out i l ≡ some (x, rest)
      → All P l
      → All P (x ∷ rest)
  unfolding take_out
  All-take_out P i [] x rest h a = cc
  All-take_out P zero (y ∷ l) x rest h a =
      subst (λ (r : A × List A). P r.0 × All P r.1) (some-injective h) a
  All-take_out P (suc i) (y ∷ l) x rest h a = elim (Option-cases (take_out i l)) [
    | inl e ↦ ground (arith, h, e)
    | inr ((x', rest'), e) ↦
        let b = All-take_out P i l x' rest' e a.1 in
        let q : ◌≡◌ {A = Option (A × List A)} (some (x', y ∷ rest')) (some (x, rest)) =
          rw (sym h, e) refl in
        subst (λ (r : A × List A). P r.0 × All P r.1) (some-injective q) (b.0, (a.0, b.1))
  ]

  pub All-behind : (P : A → Type 0) (l : List A) (x : A) → All P (x ∷ l) → All P (l ++ x ∷ [])
  All-behind P [] x a = a
  All-behind P (y ∷ l) x a = (a.1.0, All-behind P l x (a.0, a.1.1))

module _ {E : Type 0} where
  -- The key of a call of `Set` that is past its tests and has not swapped yet is among the keys.
  abbrev pub Covers : Keys → Thread E → Type 0
  Covers l (clock_read key v) = has (to_lower key) l ≡ true
  Covers l (swap key e) = has (to_lower key) l ≡ true
  Covers l _ = Unit

  passed : List (Thread E) → Keys
  passed [] = []
  passed (clock_read key v ∷ ts) = (to_lower key, tt) ∷ passed ts
  passed (swap key e ∷ ts) = (to_lower key, tt) ∷ passed ts
  passed (_ ∷ ts) = passed ts

  passed_few : (ts : List (Thread E)) → length (passed ts) + count owes_up ts ≤ count is_setting ts
  unfolding passed
  passed_few [] = omega arith
  passed_few (full_test key v ∷ ts) = omega (arith, passed_few ts)
  passed_few (exists_test key v ∷ ts) = omega (arith, passed_few ts)
  passed_few (clock_read key v ∷ ts) = omega (arith, passed_few ts)
  passed_few (swap key e ∷ ts) = omega (arith, passed_few ts)
  passed_few (count_up ∷ ts) = omega (arith, passed_few ts)
  passed_few (load key ∷ ts) = passed_few ts
  passed_few (expiry_test k e ∷ ts) = passed_few ts
  passed_few (load_and_delete k o ∷ ts) = passed_few ts
  passed_few (count_down o ∷ ts) = passed_few ts
  passed_few (finished o ∷ ts) = passed_few ts

  passed-Covers :
      (ts : List (Thread E)) (l : Keys)
      → ((k : Text) → has k (passed ts) ≡ true → has k l ≡ true)
      → All (Covers l) ts
  unfolding passed has
  passed-Covers [] l h = tt
  passed-Covers (full_test key v ∷ ts) l h = (tt, passed-Covers ts l h)
  passed-Covers (exists_test key v ∷ ts) l h = (tt, passed-Covers ts l h)
  passed-Covers (clock_read key v ∷ ts) l h = (
    h _ (ground (arith, eq_refl (to_lower key))),
    passed-Covers ts l (λ k e. h k (ground (arith, e))),
  )
  passed-Covers (swap key e ∷ ts) l h = (
    h _ (ground (arith, eq_refl (to_lower key))),
    passed-Covers ts l (λ k e. h k (ground (arith, e))),
  )
  passed-Covers (count_up ∷ ts) l h = (tt, passed-Covers ts l h)
  passed-Covers (load key ∷ ts) l h = (tt, passed-Covers ts l h)
  passed-Covers (expiry_test k e ∷ ts) l h = (tt, passed-Covers ts l h)
  passed-Covers (load_and_delete k o ∷ ts) l h = (tt, passed-Covers ts l h)
  passed-Covers (count_down o ∷ ts) l h = (tt, passed-Covers ts l h)
  passed-Covers (finished o ∷ ts) l h = (tt, passed-Covers ts l h)

  -- Few keys are in the map or may yet come in.
  pub record IsCovered (n m : ℕ) (c : LengCache E) (ts : List (Thread E)) : Type 0 where
    pub bound : c.max_size ≡ pos (suc m)
    pub keys : Keys
    pub short : length keys ≤ m + n
    pub entries : (k : Text) → has k c.backend ≡ true → has k keys ≡ true
    pub coming : All (Covers keys) ts
    pub few : count is_setting ts ≤ n

  -- A step by which no other key comes into question.
  pub quiet :
      {n m : ℕ} (t t' : Thread E) (rest : List (Thread E)) (c c' : LengCache E)
      (v : IsCovered n m c (t ∷ rest))
      → c'.max_size ≡ c.max_size
      → ((k : Text) → has k c'.backend ≡ true → has k v.keys ≡ true)
      → Covers v.keys t'
      → tally is_setting t' (count is_setting rest) ≤ tally is_setting t (count is_setting rest)
      → IsCovered n m c' (t' ∷ rest)
  quiet t t' rest c c' v b e h f = record {
    bound = b ∙ v.bound;
    keys = v.keys;
    short = v.short;
    entries = e;
    coming = (h, v.coming.1);
    few = omega (arith, f, v.few);
  }

below_suc :
    (i : ℤ) (bound : ℕ) → leb_ℤ (pos bound) i ≡ false → leb_ℤ (pos (suc bound)) (incr i) ≡ false
below_suc (pos n) bound f = ground (arith, f)
below_suc (negsuc zero) bound f = ground arith
below_suc (negsuc (suc n)) bound f = ground arith

-- The counter is below the bound if `Full` says no.
below :
    (up : ℕ) (i : ℤ) (bound x : ℕ)
    → plus i up ≡ pos x
    → leb_ℤ (pos bound) i ≡ false
    → x + 1 ≤ bound + up
below zero i bound x e f = ground (arith, e, f)
below (suc up) i bound x e f =
    omega (arith, below up (incr i) (suc bound) x e (below_suc i bound f))

module _ {E : Type 0} where
  -- `Full` said no: the keys of the map and of the calls that may swap are counted anew.
  pub passes :
      {n m : ℕ} (key : Text) (x : E) (rest : List (Thread E)) (c : LengCache E)
      → IsCovered n m c (full_test key x ∷ rest)
      → IsCounted c (count owes_up rest) (count owes_down rest)
      → Lcache.full c ≡ false
      → IsCovered n m c (clock_read key x ∷ rest)
  unfolding passed has
  passes {n} {m} key x rest c v w open_ =
      let new = (to_lower key, tt) ∷ passed rest in
      let room : leb_ℤ (pos (suc m)) c.size ≡ false =
        unfold Lcache.full in ground (arith, open_, v.bound) in
      record {
        bound = v.bound;
        keys = marks c.backend ++ new;
        short = omega (
          arith,
          length-append (marks c.backend) new,
          length-marks c.backend,
          passed_few rest,
          v.few,
          below (count owes_up rest) c.size (suc m) _ w.counted room,
        );
        entries =
            λ k h. ground (arith, has-append k (marks c.backend) new, has-marks k c.backend, h);
        coming =
            passed-Covers (clock_read key x ∷ rest) (marks c.backend ++ new)
              (λ k h. ground (arith, has-append k (marks c.backend) new, h));
        few = v.few;
      }
