-- ===== src/Lcache/Polling.antt =====
-- One `Get` after another (lcache/cache.go).
use leng.Prelude.{
  ℕ, ◌-◌, ◌≡◌, refl, sym, ap, ◌∙◌, Option, none, some, List, [], ◌∷◌, map, arith, eq_refl, ok, err,
  lookup, put, lookup-put, has-lookup, lookup-delete, Text, comparable_text, to_lower,
}
use leng.Dns.{Rr, with_ttl}
use leng.Lcache
use leng.Lcache.{Entry, LEntry, LengCache}
use leng.Lcache.Errors.{key_not_found, key_expired}
use leng.Lcache.Validity.{IsValid}

map-with_ttl : (m n : ℕ) (l : List Rr) → map (with_ttl m) (map (with_ttl n) l) ≡ map (with_ttl m) l
map-with_ttl m n [] = refl
map-with_ttl m n (r ∷ l) = ap (◌∷◌ (with_ttl m r)) (map-with_ttl m n l)

module _ {E : Type 0} ⦃en : Entry E⦄ where
  -- The entry with the TTLs that a read at `now` leaves in it.
  touched : LEntry E → E → ℕ → LEntry E
  touched e v now = record e {
    underlying =
        some
          (en.with_rrs v (map (with_ttl (Lcache.whole_seconds (e.expires_at - now))) (en.rrs v)));
  }

  read_fresh-touched :
      (key : Text) (t1 t2 : ℕ) (e : LEntry E) (v : E) (c c' : LengCache E)
      → e.underlying ≡ some v
      → (Lcache.read_fresh key t2 (touched e v t1) c).0 ≡ (Lcache.read_fresh key t2 e c').0
  unfolding Lcache.read_fresh touched
  read_fresh-touched key t1 t2 e v c c' h =
      rw (h, en.rrs-with_rrs, en.with_rrs-with_rrs, map-with_ttl) refl

  read_found-touched :
      (key : Text) (t1 t2 : ℕ) (e : LEntry E) (v : E) (c c' : LengCache E)
      → e.underlying ≡ some v
      → (Lcache.read_found key t2 (some (touched e v t1)) c).0
        ≡ (Lcache.read_found key t2 (some e) c').0
  unfolding Lcache.read_found touched
  read_found-touched key t1 t2 e v c c' h = ground (arith, read_fresh-touched key t1 t2 e v c c' h)

  -- What a successful read found and left behind.
  get_hit :
      (key : Text) (now : ℕ) (c : LengCache E) {v' : E}
      → (Lcache.get key now c).0 ≡ ok v'
      → (e : LEntry E) × (v : E) × (lookup (to_lower key) c.backend ≡ some e)
        × (e.underlying ≡ some v)
        × ((Lcache.get key now c).1.backend ≡ put (to_lower key) (touched e v now) c.backend)
  unfolding Lcache.get Lcache.read_found Lcache.read_fresh touched
  get_hit key now c h = ground arith

  get-found :
      (key : Text) (now : ℕ) (c : LengCache E) (o : Option (LEntry E))
      → lookup (to_lower key) c.backend ≡ o
      → (Lcache.get key now c).0 ≡ (Lcache.read_found (to_lower key) now o c).0
  unfolding Lcache.get
  get-found key now c o h = rw h

  -- Reading does not postpone expiry: after a read that found the entry, a later read answers what
  -- it would have answered had the first not been made.
  get-get :
      (key : Text) (t1 t2 : ℕ) (c : LengCache E) {v' : E}
      → (Lcache.get key t1 c).0 ≡ ok v'
      → (Lcache.get key t2 (Lcache.get key t1 c).1).0 ≡ (Lcache.get key t2 c).0
  get-get key t1 t2 c h =
      let (e, v, found, solid, left) = get_hit key t1 c h in
      get-found key t2 (Lcache.get key t1 c).1 (some (touched e v t1))
        (rw (left, lookup-put, eq_refl) refl)
      ∙ read_found-touched (to_lower key) t1 t2 e v _ c solid
      ∙ sym (get-found key t2 c (some e) found)

  get_expired :
      (key : Text) (now : ℕ) (c : LengCache E)
      → (Lcache.get key now c).0 ≡ err (key_expired (to_lower key))
      → (Lcache.get key now c).1 ≡ Lcache.remove (to_lower key) c
  unfolding Lcache.get Lcache.read_found Lcache.read_fresh
  get_expired key now c h = ground arith

  lookup-remove_self :
      (key : Text) (c : LengCache E) → IsValid c → lookup key (Lcache.remove key c).backend ≡ none
  unfolding Lcache.remove
  lookup-remove_self key c v =
      ground
        (arith, lookup-delete key key c.backend v.distinct, eq_refl key, has-lookup key c.backend)

  -- A read that reports an expired key has removed it: until the next write the key is not found.
  get-get_expired :
      (key : Text) (t1 t2 : ℕ) (c : LengCache E)
      → IsValid c
      → (Lcache.get key t1 c).0 ≡ err (key_expired (to_lower key))
      → (Lcache.get key t2 (Lcache.get key t1 c).1).0 ≡ err (key_not_found (to_lower key))
  get-get_expired key t1 t2 c v h =
      get-found key t2 (Lcache.get key t1 c).1 none
        (rw (get_expired key t1 c h) (lookup-remove_self (to_lower key) c v))
      ∙ unfold Lcache.read_found in refl
