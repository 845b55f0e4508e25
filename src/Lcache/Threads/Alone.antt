-- ===== src/Lcache/Threads/Alone.antt =====
-- A call of a response cache that no other call comes between (lcache/cache.go).
use leng.Prelude.{
  ℕ, zero, suc, ◌-◌, ◌≡◌, refl, inl, inr, Bool, true, false, not, ◌&&◌, Option, none, some, map,
  arith, ltb, if◌then◌else◌, Bool-cases, Option-cases, eq_iff, Result, ok, err, lookup, has,
  has-put, has-lookup, Text, comparable_text, to_lower,
}
use leng.Lcache
use leng.Lcache.{Entry, LEntry, LengCache}
use leng.Dns.{with_ttl}
use leng.Lcache.Errors.{key_expired, CacheError, cache_is_full}
use leng.Lcache.Threads
use leng.Lcache.Threads.{
  load, expiry_test, was_removed, was_got, Outcome, was_set, Call, Thread, full_test, exists_test,
  clock_read, load_and_delete, finished,
}

module _ {E : Type 0} ⦃en : Entry E⦄ where
  -- A call as one operation.
  unfoldable pub atomic : Call E → ℕ → LengCache E → Outcome E × LengCache E
  atomic (Threads.get key) now c = let (r, c') = Lcache.get key now c in (was_got r, c')
  atomic (Threads.set key o) now c = let (r, c') = Lcache.set key o now c in (was_set r, c')
  atomic (Threads.remove key) now c = (was_removed, Lcache.remove key c)

  -- Steps of one call in a row.
  unfoldable pub steps : ℕ → ℕ → Thread E × LengCache E → Thread E × LengCache E
  steps now zero r = r
  steps now (suc n) (t, c) = steps now n (Threads.advance now t c)

  finished_stays :
      (now n : ℕ) (o : Outcome E) (c : LengCache E) → steps now n (finished o, c) ≡ (finished o, c)
  unfolding steps Threads.advance
  finished_stays now zero o c = refl
  finished_stays now (suc n) o c = finished_stays now n o c

  steps-store :
      (now n : ℕ) (key : Text) (v : E) (c : LengCache E)
      → steps now (suc (suc (suc n))) (clock_read key v, c)
        ≡ (finished (was_set (ok tt)), Lcache.store (to_lower key) v now c)
  unfolding steps Threads.advance Lcache.store
  steps-store now n key v c = elim (Bool-cases (has (to_lower key) c.backend)) [
    | inl old ↦ rw (old, Threads.advance) (finished_stays now (suc n) _ _)
    | inr new ↦ rw (new, Threads.advance) (finished_stays now n _ _)
  ]

  steps-remove :
      (now n : ℕ) (k : Text) (o : Outcome E) (c : LengCache E)
      → steps now (suc (suc n)) (load_and_delete k o, c) ≡ (finished o, Lcache.remove k c)
  unfolding steps Threads.advance Lcache.remove
  steps-remove now n k o c = elim (Bool-cases (has k c.backend)) [
    | inl here ↦ rw (here, Threads.advance) (finished_stays now n _ _)
    | inr gone ↦ rw (gone, Threads.advance) (finished_stays now (suc n) _ _)
  ]

  -- The end of a `Set` that is refused or not.
  abbrev ended : Bool → ℕ → Text → E → LengCache E → Thread E × LengCache E
  ended refused now key v c =
      let r : Result CacheError (Unit {0}) × LengCache E =
        if refused then (err cache_is_full, c) else (ok tt, Lcache.store (to_lower key) v now c) in
      (finished (was_set r.0), r.1)

  steps-tested :
      (exists : Bool) (now : ℕ) (key : Text) (v : E) (c : LengCache E)
      → steps now 3 (if exists then clock_read key v else finished (was_set (err cache_is_full)), c)
        ≡ ended (not exists) now key v c
  steps-tested true now key v c = steps-store now 0 key v c
  steps-tested false now key v c = finished_stays now 3 _ c

  steps-full_test :
      (full : Bool) (now : ℕ) (key : Text) (v : E) (c : LengCache E)
      → steps now 4 (if full then exists_test key v else clock_read key v, c)
        ≡ ended (full && not (Lcache.exists (to_lower key) c)) now key v c
  unfolding steps Threads.advance
  steps-full_test true now key v c = steps-tested (Lcache.exists (to_lower key) c) now key v c
  steps-full_test false now key v c = steps-store now 1 key v c

  steps-set :
      (now : ℕ) (key : Text) (o : Option E) (c : LengCache E)
      → steps now 5 (Threads.begin (Threads.set key o), c)
        ≡ (finished (was_set (Lcache.set key o now c).0), (Lcache.set key o now c).1)
  unfolding steps Threads.advance Threads.begin Lcache.set
  steps-set now key none c = steps-remove now 3 key _ c
  steps-set now key (some v) c = steps-full_test (Lcache.full c) now key v c

  -- What a call that ran alone and the call as one operation leave of a key.
  abbrev Agrees : Text → Thread E × LengCache E → Outcome E × LengCache E → Type 0
  Agrees k r o =
      (r.0 ≡ finished o.0) × (has k r.1.backend ≡ has k o.1.backend) × (r.1.size ≡ o.1.size)

  read_fresh-Agrees :
      (now : ℕ) (key k : Text) (e : LEntry E) (c : LengCache E)
      → has key c.backend ≡ true
      → Agrees k
          (finished (was_got (Threads.read_entry key now e)), c)
          (was_got (Lcache.read_fresh key now e c).0, (Lcache.read_fresh key now e c).1)
  unfolding Threads.read_entry Lcache.read_fresh
  read_fresh-Agrees now key k e c here = elim (Option-cases e.underlying) [
    | inl nil ↦ rw (nil, Threads.read_entry, Lcache.read_fresh) (refl, refl, refl)
    | inr (x, solid) ↦
        rw (solid, Threads.read_entry, Lcache.read_fresh)
          (
            refl,
            ground (
              arith,
              here,
              has-put key k
                  (record e {
                    underlying = some (
                        en.with_rrs x
                          (map (with_ttl (Lcache.whole_seconds (e.expires_at - now))) (en.rrs x)));
                  })
                  c.backend,
              eq_iff key k,
            ),
            refl,
          )
  ]

  Agrees-refl :
      (k : Text) (r : Thread E × LengCache E) (o : Outcome E × LengCache E)
      → r ≡ (finished o.0, o.1)
      → Agrees k r o
  Agrees-refl k r o e = rw e (refl, refl, refl)

  -- A read of an entry that was found.
  abbrev gives : Result CacheError E × LengCache E → Outcome E × LengCache E
  gives r = (was_got r.0, r.1)

  steps-expiry_test :
      (late : Bool) (now : ℕ) (key k : Text) (e : LEntry E) (c : LengCache E)
      → has key c.backend ≡ true
      → Agrees k
          (steps now 3 (
            if late
                then load_and_delete key (was_got (err (key_expired key)))
                else finished (was_got (Threads.read_entry key now e)),
            c,
          ))
          (gives (
            if late
            then (err (key_expired key), Lcache.remove key c)
            else Lcache.read_fresh key now e c))
  steps-expiry_test true now key k e c here = Agrees-refl k _ _ (steps-remove now 1 key _ c)
  steps-expiry_test false now key k e c here =
      rw (finished_stays now 3 (was_got (Threads.read_entry key now e)) c)
        (read_fresh-Agrees now key k e c here)

  steps-loaded :
      (now : ℕ) (key k : Text) (o : Option (LEntry E)) (c : LengCache E)
      → lookup key c.backend ≡ o
      → Agrees k (steps now 4 (Threads.loaded key o, c)) (gives (Lcache.read_found key now o c))
  unfolding Threads.loaded Lcache.read_found steps Threads.advance
  steps-loaded now key k none c h = Agrees-refl k _ _ (finished_stays now 3 _ c)
  steps-loaded now key k (some e) c h =
      steps-expiry_test (ltb e.expires_at now) now key k e c
        (ground (arith, has-lookup key c.backend, h))

  -- A call that no other call comes between has ended after five steps: it returns what the call
  -- returns as one operation, and leaves the same counter, and each key where that leaves it.
  steps-begin :
      (o : Call E) (now : ℕ) (c : LengCache E) (k : Text)
      → ((steps now 5 (Threads.begin o, c)).0 ≡ finished (atomic o now c).0)
        × (has k (steps now 5 (Threads.begin o, c)).1.backend ≡ has k (atomic o now c).1.backend)
        × ((steps now 5 (Threads.begin o, c)).1.size ≡ (atomic o now c).1.size)
  unfolding atomic
  steps-begin (Threads.get key) now c k =
      unfold steps in
      unfold Threads.advance in
      unfold Threads.begin in
      unfold Lcache.get in
      steps-loaded now (to_lower key) k (lookup (to_lower key) c.backend) c refl
  steps-begin (Threads.set key o) now c k = Agrees-refl k _ _ (steps-set now key o c)
  steps-begin (Threads.remove key) now c k =
      unfold Threads.begin in Agrees-refl k _ _ (steps-remove now 3 key _ c)
