-- ===== src/Lcache/Freshness.antt =====
-- What `Get` returns after `Set`, and when (lcache/cache.go): time to live and expiry.
use leng.Prelude.{
  ℕ, ◌+◌, ◌-◌, ◌*◌, ◌/◌, ◌≤◌, ◌≡◌, refl, sym, ◌∙◌, ◌⊎◌, inl, inr, true, some, List, [], ◌∷◌, map,
  arith, ltb, nat_beq, if◌then◌else◌, Bool-cases, eq_refl, Result, ok, err, any, All, lookup-put,
  Text, comparable_text, to_lower,
}
use leng.Dns.{Rr, with_ttl}
use leng.Lcache
use leng.Lcache.{Entry, LEntry, LengCache, second, max_uint32}
use leng.Lcache.Errors.{CacheError, key_expired}

min_ttl_from-le : (acc : ℕ) (l : List Rr) → Lcache.min_ttl_from acc l ≤ acc
unfolding Lcache.min_ttl_from
min_ttl_from-le acc [] = omega arith
min_ttl_from-le acc (r ∷ l) = ground (arith, min_ttl_from-le acc l, min_ttl_from-le r.ttl l)

min_ttl_from-le-All :
    (acc m : ℕ) (l : List Rr) → m ≤ Lcache.min_ttl_from acc l → All (λ r. m ≤ r.ttl) l
unfolding Lcache.min_ttl_from
min_ttl_from-le-All acc m [] h = tt
min_ttl_from-le-All acc m (r ∷ l) h =
    let least : ℕ = if ltb r.ttl acc then r.ttl else acc in
    (ground (arith, min_ttl_from-le least l), min_ttl_from-le-All least m l h)

min_ttl_from-attained :
    (acc : ℕ) (l : List Rr)
    → (any (λ r. nat_beq r.ttl (Lcache.min_ttl_from acc l)) l ≡ true)
      ⊎ (Lcache.min_ttl_from acc l ≡ acc)
unfolding Lcache.min_ttl_from
min_ttl_from-attained acc [] = inr refl
min_ttl_from-attained acc (r ∷ l) =
    elim (min_ttl_from-attained (if ltb r.ttl acc then r.ttl else acc) l) [
      | inl h ↦ inl (ground (arith, h))
      | inr h ↦ elim (Bool-cases (ltb r.ttl acc)) [
        | inl less ↦ inl (ground (arith, h, less))
        | inr not_less ↦ inr (ground (arith, h, not_less))
      ]
    ]

-- A TTL that is at most that of every record, and that of one of them unless it is the largest.
abbrev pub IsLeast : ℕ → List Rr → Type 0
IsLeast ttl l =
    All (λ r. ttl ≤ r.ttl) l × ((any (λ r. nat_beq r.ttl ttl) l ≡ true) ⊎ (ttl ≡ max_uint32))

All-with_ttl : (n : ℕ) (l : List Rr) → All (λ r. r.ttl ≡ n) (map (with_ttl n) l)
All-with_ttl n [] = tt
All-with_ttl n (r ∷ l) = (refl, All-with_ttl n l)

module _ {E : Type 0} ⦃en : Entry E⦄ where
  -- The answers with the time that is left written into each.
  abbrev pub aged : E → ℕ → E
  aged v left = en.with_rrs v (map (with_ttl (Lcache.whole_seconds left)) (en.rrs v))

  -- What a `Get` of an entry that was stored as `v` and expires at `deadline` answers.
  abbrev pub answer_at : Text → E → ℕ → ℕ → Result CacheError E
  answer_at key v deadline now =
      if ltb deadline now then err (key_expired key) else ok (aged v (deadline - now))

  read_found-answer :
      (key : Text) (v : E) (deadline now : ℕ) (c : LengCache E)
      → (Lcache.read_found key now
          (some (record { underlying = some v; expires_at = deadline }))
          c).0
        ≡ answer_at key v deadline now
  unfolding Lcache.read_found Lcache.read_fresh
  read_found-answer key v deadline now c = ground arith

  set_accepted :
      (key : Text) (v : E) (t : ℕ) (c : LengCache E)
      → (Lcache.set key (some v) t c).0 ≡ ok tt
      → (Lcache.set key (some v) t c).1 ≡ Lcache.store (to_lower key) v t c
  unfolding Lcache.set
  set_accepted key v t c h = ground arith

  get-store :
      (key : Text) (v : E) (t now : ℕ) (c : LengCache E)
      → (Lcache.get key now (Lcache.store (to_lower key) v t c)).0
        ≡ answer_at (to_lower key) v (t + Lcache.min_ttl_for v) now
  unfolding Lcache.get Lcache.store
  get-store key v t now c =
      rw (lookup-put, eq_refl) (read_found-answer (to_lower key) v (t + Lcache.min_ttl_for v) now _)

  pub get-set_deadline :
      (key key' : Text) (v : E) (t now : ℕ) (c : LengCache E)
      → to_lower key' ≡ to_lower key
      → (Lcache.set key (some v) t c).0 ≡ ok tt
      → (Lcache.get key' now (Lcache.set key (some v) t c).1).0
        ≡ answer_at (to_lower key) v (t + Lcache.min_ttl_for v) now
  get-set_deadline key key' v t now c same accepted =
      rw (set_accepted key v t c accepted, ← same) (get-store key' v t now c)

  -- After an accepted `Set`, a `Get` of the key in any case answers the entry until the smallest
  -- TTL of its answers has passed, with the whole seconds that are left as the TTL of each answer,
  -- and reports the key as expired from then on. The smallest TTL is at most that of every answer,
  -- and that of one of them unless it is 2 ^ 32 - 1.
  pub get-set :
      (key key' : Text) (v : E) (t now : ℕ) (c : LengCache E)
      → to_lower key' ≡ to_lower key
      → (Lcache.set key (some v) t c).0 ≡ ok tt
      → (ttl : ℕ) × IsLeast ttl (en.rrs v)
        × ((Lcache.get key' now (Lcache.set key (some v) t c).1).0
            ≡ answer_at (to_lower key) v (t + ttl * second) now)
  unfolding Lcache.min_ttl_for
  get-set key key' v t now c same accepted = (
    Lcache.min_ttl_from max_uint32 (en.rrs v),
    (
      min_ttl_from-le-All max_uint32 _ (en.rrs v) (omega arith),
      min_ttl_from-attained max_uint32 (en.rrs v),
    ),
    get-set_deadline key key' v t now c same accepted,
  )

  min_ttl-lt : (v : E) → Lcache.min_ttl_from max_uint32 (en.rrs v) ≤ max_uint32
  min_ttl-lt v = min_ttl_from-le max_uint32 (en.rrs v)

  -- Between the write and the expiry nothing wraps around in the 32 bits of a TTL.
  whole_seconds-exact :
      (v : E) (t now : ℕ)
      → t ≤ now
      → Lcache.whole_seconds (t + Lcache.min_ttl_for v - now)
        ≡ (t + Lcache.min_ttl_for v - now) / second
  unfolding Lcache.whole_seconds Lcache.min_ttl_for
  whole_seconds-exact v t now h = omega (arith, min_ttl-lt v)

  left-le-All :
      (v : E) (t now : ℕ)
      → t ≤ now
      → All (λ r. (t + Lcache.min_ttl_for v - now) / second ≤ r.ttl) (en.rrs v)
  unfolding Lcache.min_ttl_for
  left-le-All v t now h =
      min_ttl_from-le-All max_uint32 ((t + Lcache.min_ttl_for v - now) / second) (en.rrs v)
        (omega arith)

  answer_at-fresh :
      (key : Text) (v v' : E) (deadline now : ℕ)
      → answer_at key v deadline now ≡ ok v'
      → v' ≡ aged v (deadline - now)
  answer_at-fresh key v v' deadline now h = ground arith

  -- An entry that `Get` answers carries on every answer the whole seconds that are left until the
  -- entry expires, which is at most the TTL that any of its answers had when it was stored.
  pub get-set_ttl :
      (key key' : Text) (v v' : E) (t now : ℕ) (c : LengCache E)
      → to_lower key' ≡ to_lower key
      → t ≤ now
      → (Lcache.set key (some v) t c).0 ≡ ok tt
      → (Lcache.get key' now (Lcache.set key (some v) t c).1).0 ≡ ok v'
      → All (λ r. r.ttl ≡ (t + Lcache.min_ttl_for v - now) / second) (en.rrs v')
        × All (λ r. (t + Lcache.min_ttl_for v - now) / second ≤ r.ttl) (en.rrs v)
  get-set_ttl key key' v v' t now c same later accepted answered = (
    rw
        (
          answer_at-fresh (to_lower key) v v' _ now
              (sym (get-set_deadline key key' v t now c same accepted) ∙ answered),
          en.rrs-with_rrs,
          whole_seconds-exact v t now later,
        )
        (All-with_ttl _ _),
    left-le-All v t now later,
  )
