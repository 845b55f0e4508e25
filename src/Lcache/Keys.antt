-- ===== src/Lcache/Keys.antt =====
-- Which keys an operation touches, and which writes are refused (lcache/cache.go).
use leng.Prelude.{
  ℕ, ◌+◌, ◌≡◌, refl, ap, ◌∙◌, ◌≢◌, ◌↔◌, inl, inr, true, Option, none, some, arith, Option-cases,
  eq_iff, ok, err, length, is_positive, leb_ℤ, pos, lookup, lookup-put, has-lookup, lookup-delete,
  Text, comparable_text, to_lower, to_lower_idem,
}
use leng.Lcache
use leng.Lcache.{Entry, LEntry, LengCache}
use leng.Lcache.Errors.{cache_is_full}
use leng.Lcache.Validity.{IsValid}

raw_ne : (key j : Text) → to_lower key ≢ to_lower j → key ≢ to_lower j
raw_ne key j h e = h (ap to_lower e ∙ to_lower_idem j)

module _ {E : Type 0} ⦃en : Entry E⦄ where
  -- The entry that a read of the key finds.
  abbrev pub entry_of : Text → LengCache E → Option (LEntry E)
  entry_of key c = lookup (to_lower key) c.backend

  lookup-remove_ne :
      (key j : Text) (c : LengCache E)
      → IsValid c
      → key ≢ j
      → lookup j (Lcache.remove key c).backend ≡ lookup j c.backend
  unfolding Lcache.remove
  lookup-remove_ne key j c v h =
      ground (arith, lookup-delete key j c.backend v.distinct, eq_iff key j)

  -- A write, accepted or refused, leaves the entries of all other keys alone, where keys that
  -- differ in case only are one.
  entry_of-set_ne :
      (key j : Text) (entry : Option E) (now : ℕ) (c : LengCache E)
      → IsValid c
      → to_lower key ≢ to_lower j
      → entry_of j (Lcache.set key entry now c).1 ≡ entry_of j c
  unfolding Lcache.set Lcache.store
  entry_of-set_ne key j none now c v h = lookup-remove_ne key (to_lower j) c v (raw_ne key j h)
  entry_of-set_ne key j (some x) now c v h = ground (
    arith,
    lookup-put (to_lower key) (to_lower j)
        (record { underlying = some x; expires_at = now + Lcache.min_ttl_for x }) c.backend,
    eq_iff (to_lower key) (to_lower j),
  )

  read_fresh_ne :
      (key j : Text) (now : ℕ) (e : LEntry E) (c : LengCache E)
      → key ≢ j
      → lookup j (Lcache.read_fresh key now e c).1.backend ≡ lookup j c.backend
  unfolding Lcache.read_fresh
  read_fresh_ne key j now e c h = elim (Option-cases e.underlying) [
    | inl nil ↦ rw (nil, Lcache.read_fresh)
    | inr (x, solid) ↦ rw (solid, Lcache.read_fresh) (rw lookup-put (ground (arith, eq_iff key j)))
  ]

  read_found_ne :
      (key j : Text) (now : ℕ) (o : Option (LEntry E)) (c : LengCache E)
      → IsValid c
      → key ≢ j
      → lookup j (Lcache.read_found key now o c).1.backend ≡ lookup j c.backend
  unfolding Lcache.read_found
  read_found_ne key j now none c v h = refl
  read_found_ne key j now (some e) c v h =
      ground (arith, read_fresh_ne key j now e c h, lookup-remove_ne key j c v h)

  -- So does a read.
  entry_of-get_ne :
      (key j : Text) (now : ℕ) (c : LengCache E)
      → IsValid c
      → to_lower key ≢ to_lower j
      → entry_of j (Lcache.get key now c).1 ≡ entry_of j c
  unfolding Lcache.get
  entry_of-get_ne key j now c v h = read_found_ne (to_lower key) (to_lower j) now _ c v h

  -- A write of an entry is refused exactly when the cache has a bound, holds that many entries or
  -- more, and the key is new; a refused write changes nothing.
  set_refused_iff :
      (key : Text) (x : E) (now : ℕ) (c : LengCache E)
      → IsValid c
      → ((Lcache.set key (some x) now c).0 ≡ err cache_is_full) ↔ (
          (is_positive c.max_size ≡ true)
          × (leb_ℤ c.max_size (pos (length c.backend)) ≡ true)
          × (entry_of key c ≡ none))
  unfolding Lcache.set Lcache.full Lcache.exists
  set_refused_iff key x now c v = (
    λ h. ground (arith, v.counted, to_lower_idem key, has-lookup (to_lower key) c.backend),
    λ h. ground (arith, v.counted, to_lower_idem key, has-lookup (to_lower key) c.backend),
  )

  -- `Remove` does not lower its key, so a key that is not in lower case is never removed: neither
  -- by `Remove` nor by a `Set` with a nil entry, which report no error.
  set_nil_misses :
      (key : Text) (now : ℕ) (c : LengCache E)
      → IsValid c
      → to_lower key ≢ key
      → (Lcache.remove key c ≡ c) × (Lcache.set key none now c ≡ (ok tt, c))
  unfolding Lcache.set Lcache.remove
  set_nil_misses key now c v h = (ground (arith, v.lowered key), ground (arith, v.lowered key))
