-- ===== src/Lcache/Validity.antt =====
-- The invariant of the response cache (lcache/cache.go).
use leng.Prelude.{
  ℕ, ◌+◌, ◌≡◌, refl, ◌≢◌, inl, inr, true, false, not, ◌&&◌, Option, none, some, arith, ltb,
  Bool-cases, Option-cases, eq_iff, length, is_positive, leb_ℤ, ℤ, pos, negsuc, lookup, has, put,
  Distinct, lookup-put, has-put, has-delete-false, has-lookup, lookup-delete, put-Distinct,
  delete-Distinct, length-put, length-delete, Text, comparable_text, to_lower, to_lower_idem,
}
use leng.Lcache
use leng.Lcache.{Entry, LEntry, LengCache}

pub record IsValid {E : Type 0} (c : LengCache E) : Type 0 where
  -- a map has a key once
  pub distinct : Distinct c.backend
  -- the counter is the number of entries
  pub counted : c.size ≡ pos (length c.backend)
  -- a bound that is set is kept
  pub bounded : is_positive c.max_size ≡ true → leb_ℤ (pos (length c.backend)) c.max_size ≡ true
  -- keys are stored in lower case
  pub lowered : (k : Text) → has k c.backend ≡ true → to_lower k ≡ k
  -- no entry is nil
  pub present : (k : Text) (e : LEntry E) → lookup k c.backend ≡ some e → e.underlying ≢ none

module _ {E : Type 0} where
  pub new_generic-IsValid : (max_size : ℤ) → IsValid (Lcache.new_generic {E = E} max_size)
  unfolding Lcache.new_generic has lookup
  new_generic-IsValid (pos n) = record {
    distinct = tt;
    counted = refl;
    bounded = λ h. ground arith;
    lowered = λ k h. ground arith;
    present = λ k e h. ground arith;
  }
  new_generic-IsValid (negsuc n) = record {
    distinct = tt;
    counted = refl;
    bounded = λ h. ground arith;
    lowered = λ k h. ground arith;
    present = λ k e h. ground arith;
  }

  pub remove-IsValid : (key : Text) (c : LengCache E) → IsValid c → IsValid (Lcache.remove key c)
  unfolding Lcache.remove
  remove-IsValid key c v = elim (Bool-cases (has key c.backend)) [
    | inl here ↦
        rw (here, Lcache.remove)
          (record {
            distinct = delete-Distinct key c.backend v.distinct;
            counted = ground (arith, v.counted, length-delete key c.backend);
            bounded = λ h. ground (arith, v.bounded h, length-delete key c.backend);
            lowered = λ k h. ground (
              arith,
              v.lowered k,
              has-delete-false key k c.backend,
              Bool-cases (has k c.backend),
            );
            present =
                λ k e h. ground (arith, v.present k e, lookup-delete key k c.backend v.distinct);
          })
    | inr gone ↦ rw (gone, Lcache.remove) v
  ]

-- A write to a key keeps the map's part of the invariant.
module _ {E : Type 0} where
  put-lowered :
      (key : Text) (e : LEntry E) (c : LengCache E) (k : Text)
      → IsValid c
      → to_lower key ≡ key
      → has k (put key e c.backend) ≡ true
      → to_lower k ≡ k
  put-lowered key e c k v low h = elim (Bool-cases (has k c.backend)) [
    | inl old ↦ v.lowered k old
    | inr new ↦ ground (arith, has-put key k e c.backend, eq_iff key k)
  ]

  put-present :
      (key : Text) (e : LEntry E) (c : LengCache E) (k : Text) (e' : LEntry E)
      → IsValid c
      → e.underlying ≢ none
      → lookup k (put key e c.backend) ≡ some e'
      → e'.underlying ≢ none
  put-present key e c k e' v solid h = ground (arith, lookup-put key k e c.backend, v.present k e')

  refresh-IsValid :
      (key : Text) (e : LEntry E) (c : LengCache E)
      → IsValid c
      → has key c.backend ≡ true
      → e.underlying ≢ none
      → IsValid (record c { backend = put key e c.backend })
  refresh-IsValid key e c v here solid = record {
    distinct = put-Distinct key e c.backend v.distinct;
    counted = ground (arith, v.counted, length-put key e c.backend);
    bounded = λ h. ground (arith, v.bounded h, length-put key e c.backend);
    lowered = λ k h. put-lowered key e c k v (v.lowered key here) h;
    present = λ k e' h. put-present key e c k e' v solid h;
  }

module _ {E : Type 0} ⦃en : Entry E⦄ where
  read_fresh-IsValid :
      (key : Text) (now : ℕ) (e : LEntry E) (c : LengCache E)
      → IsValid c
      → has key c.backend ≡ true
      → IsValid (Lcache.read_fresh key now e c).1
  unfolding Lcache.read_fresh
  read_fresh-IsValid key now e c v here = elim (Option-cases e.underlying) [
    | inl nil ↦ rw (nil, Lcache.read_fresh) v
    | inr (x, solid) ↦ rw (solid, Lcache.read_fresh) (refresh-IsValid key _ c v here (λ p. cc))
  ]

  -- Reading keeps the invariant.
  pub get-IsValid :
      (key : Text) (now : ℕ) (c : LengCache E) → IsValid c → IsValid (Lcache.get key now c).1
  unfolding Lcache.get Lcache.read_found
  get-IsValid key now c v = elim (Option-cases (lookup (to_lower key) c.backend)) [
    | inl miss ↦ rw (miss, Lcache.read_found) v
    | inr (e, hit) ↦ elim (Bool-cases (ltb e.expires_at now)) [
      | inl late ↦ rw (hit, Lcache.read_found) (rw late (remove-IsValid (to_lower key) c v))
      | inr fresh ↦
          rw (hit, Lcache.read_found)
            (rw fresh (
              read_fresh-IsValid (to_lower key) now e c v
                (ground (arith, has-lookup (to_lower key) c.backend))))
    ]
  ]

  store-IsValid :
      (key : Text) (x : E) (now : ℕ) (c : LengCache E)
      → IsValid c
      → to_lower key ≡ key
      → (Lcache.full c && not (Lcache.exists key c)) ≡ false
      → IsValid (Lcache.store key x now c)
  unfolding Lcache.store Lcache.full Lcache.exists
  store-IsValid key x now c v low room =
      let e : LEntry E = record { underlying = some x; expires_at = now + Lcache.min_ttl_for x } in
      record {
        distinct = put-Distinct key e c.backend v.distinct;
        counted = ground (arith, v.counted, length-put key e c.backend);
        bounded = λ h. ground (arith, v.bounded h, v.counted, length-put key e c.backend);
        lowered = λ k h. put-lowered key e c k v low h;
        present = λ k e' h. put-present key e c k e' v (λ p. cc) h;
      }

  -- Writing keeps the invariant, whether the write is refused or not.
  pub set-IsValid :
      (key : Text) (entry : Option E) (now : ℕ) (c : LengCache E)
      → IsValid c
      → IsValid (Lcache.set key entry now c).1
  unfolding Lcache.set
  set-IsValid key none now c v = remove-IsValid key c v
  set-IsValid key (some x) now c v =
      elim (Bool-cases (Lcache.full c && not (Lcache.exists (to_lower key) c))) [
        | inl refused ↦ rw refused v
        | inr room ↦ rw room (store-IsValid (to_lower key) x now c v (to_lower_idem key) room)
      ]
