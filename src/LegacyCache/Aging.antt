-- ===== src/LegacyCache/Aging.antt =====
-- How the TTLs of a cached message run down (cache.go, Get).
use leng.Prelude.{
  ℕ, ◌+◌, ◌-◌, ◌%◌, ◌^◌, ◌≤◌, ◌<◌, ◌≡◌, refl, sym, ap, ap₂, ◌∙◌, inl, inr, Bool, true, false, some,
  List, [], ◌∷◌, map, arith, ltb, if◌then◌else◌, Bool-cases, eq_refl, Result, ok, err, All, lookup,
  lookup-put, Text, comparable_text, to_lower,
}
use leng.Dns.{Rr, Msg, with_ttl}
use leng.LegacyCache
use leng.LegacyCache.{
  MemoryCache, Mesg, CacheError, key_expired, new_mesg, truncated, age_record, any_expired,
}

-- Every TTL fits a uint32.
abbrev pub Fits : List Rr → Type 0
Fits = All (λ rr. rr.ttl < 4294967296)

-- The answers with `n` off every TTL.
unfoldable pub less : ℕ → List Rr → List Rr
less n = map (λ rr. with_ttl (rr.ttl - n) rr)

age_record-less :
    (n : ℕ) (rr : Rr)
    → rr.ttl < 4294967296
    → ltb rr.ttl n ≡ false
    → age_record n rr ≡ with_ttl (rr.ttl - n) rr
unfolding age_record
age_record-less n rr h e = ap (λ t. with_ttl t rr) (ground arith)

-- Where nothing is expired no TTL wraps around.
age-less :
    (n : ℕ) (l : List Rr) → Fits l → any_expired n l ≡ false → map (age_record n) l ≡ less n l
unfolding any_expired less
age-less n [] f e = refl
age-less n (rr ∷ l) f e =
    ap₂ ◌∷◌ (age_record-less n rr f.0 (ground (arith, e))) (age-less n l f.1 (ground (arith, e)))

less_add : (a b : ℕ) (l : List Rr) → less b (less a l) ≡ less (a + b) l
unfolding less
less_add a b [] = refl
less_add a b (rr ∷ l) = ap₂ ◌∷◌ (ap (λ t. with_ttl t rr) (omega arith)) (less_add a b l)

any_expired-less :
    (a b : ℕ) (l : List Rr)
    → any_expired a l ≡ false
    → any_expired b (less a l) ≡ any_expired (a + b) l
unfolding less any_expired
any_expired-less a b [] e = refl
any_expired-less a b (rr ∷ l) e = ground (arith, any_expired-less a b l)

any_expired-more : (a b : ℕ) (l : List Rr) → any_expired a l ≡ true → any_expired (a + b) l ≡ true
unfolding any_expired
any_expired-more a b [] e = cc
any_expired-more a b (rr ∷ l) e = ground (arith, any_expired-more a b l)

-- What a read of a message answers `n` seconds after it was stored.
unfoldable pub answer_at : ℕ → Text → Msg → Bool → Result CacheError (Msg × Bool)
answer_at n key msg blocked =
    if any_expired n msg.answer
    then err (key_expired key)
    else ok (record msg { answer = less n msg.answer }, blocked)

truncated_mono : (s t : ℕ) → s ≤ t → truncated s ≤ truncated t
unfolding truncated
truncated_mono s t h = omega arith

-- The cache holds a message under the key, in lower case, of the given second.
abbrev pub Holds : Text → Msg → Bool → ℕ → MemoryCache → Type 0
Holds key msg blocked s c =
    lookup (to_lower key) c.backend
    ≡ some (record { msg = some msg; blocked = blocked; last_update_time = s })

read_mesg-too_old :
    (now s : ℕ) (msg : Msg) (blocked : Bool)
    → now - s < 4294967296
    → any_expired (now - s) msg.answer ≡ true
    → LegacyCache.read_mesg now (record { msg = some msg; blocked = blocked; last_update_time = s })
      ≡ LegacyCache.too_old
unfolding LegacyCache.read_mesg LegacyCache.read_msg
read_mesg-too_old now s msg blocked h e =
    let same : (now - s) % 2 ^ 32 ≡ now - s = omega arith in rw (same, e) refl

read_mesg-aged :
    (now s : ℕ) (msg : Msg) (blocked : Bool)
    → now - s < 4294967296
    → Fits msg.answer
    → any_expired (now - s) msg.answer ≡ false
    → LegacyCache.read_mesg now (record { msg = some msg; blocked = blocked; last_update_time = s })
      ≡ LegacyCache.aged
          (record msg { answer = less (now - s) msg.answer })
          (record {
            msg = some (record msg { answer = less (now - s) msg.answer });
            blocked = blocked;
            last_update_time = now;
          })
unfolding LegacyCache.read_mesg LegacyCache.read_msg
read_mesg-aged now s msg blocked h f e =
    let same : (now - s) % 2 ^ 32 ≡ now - s = omega arith in
    rw (same, e, age-less (now - s) msg.answer f e) refl

set-Holds :
    (key : Text) (msg : Msg) (blocked : Bool) (t : ℕ) (c c' : MemoryCache)
    → LegacyCache.set key (some msg) blocked t c ≡ (ok tt, c')
    → Holds key msg blocked (truncated t) c'
unfolding LegacyCache.set
set-Holds key msg blocked t c c' e = ground (
  arith,
  e,
  lookup-put (to_lower key) (to_lower key) (new_mesg (some msg) blocked t) c.backend,
  eq_refl (to_lower key),
)

get-Holds :
    (key : Text) (msg : Msg) (blocked : Bool) (s t : ℕ) (c : MemoryCache)
    → Holds key msg blocked s c
    → truncated t - s < 4294967296
    → Fits msg.answer
    → (LegacyCache.get key t c).0 ≡ answer_at (truncated t - s) (to_lower key) msg blocked
unfolding LegacyCache.get LegacyCache.get_found LegacyCache.finish_get answer_at
get-Holds key msg blocked s t c p h f =
    elim (Bool-cases (any_expired (truncated t - s) msg.answer)) [
      | inl e ↦ rw (p, read_mesg-too_old (truncated t) s msg blocked h e, e) refl
      | inr e ↦ rw (p, read_mesg-aged (truncated t) s msg blocked h f e, e) refl
    ]

get-Holds_next :
    (key : Text) (msg : Msg) (blocked : Bool) (s t : ℕ) (c : MemoryCache)
    → Holds key msg blocked s c
    → truncated t - s < 4294967296
    → Fits msg.answer
    → any_expired (truncated t - s) msg.answer ≡ false
    → Holds key
        (record msg { answer = less (truncated t - s) msg.answer })
        blocked
        (truncated t)
        (LegacyCache.get key t c).1
unfolding LegacyCache.get LegacyCache.get_found LegacyCache.finish_get
get-Holds_next key msg blocked s t c p h f e =
    rw (p, read_mesg-aged (truncated t) s msg blocked h f e)
      (lookup-put (to_lower key) (to_lower key) _ c.backend ∙ rw (eq_refl (to_lower key)) refl)

less-Fits : (n : ℕ) (l : List Rr) → Fits l → Fits (less n l)
unfolding less
less-Fits n [] f = tt
less-Fits n (rr ∷ l) f = (omega (arith, f.0), less-Fits n l f.1)

answer_at-less :
    (a b : ℕ) (key : Text) (msg : Msg) (blocked : Bool)
    → any_expired a msg.answer ≡ false
    → answer_at b key (record msg { answer = less a msg.answer }) blocked
      ≡ answer_at (a + b) key msg blocked
unfolding answer_at
answer_at-less a b key msg blocked e =
    rw (any_expired-less a b msg.answer e, less_add a b msg.answer) refl

-- After an accepted Set of a message, Get of the key answers it, with the whole seconds that have
-- passed off every TTL, none of which wraps around; once they are more than some TTL it reports
-- that the key is expired. The TTLs and the seconds are below 2 ^ 32.
memory_get-set :
    (key : Text) (msg : Msg) (blocked : Bool) (s t : ℕ) (c c' : MemoryCache)
    → Fits msg.answer
    → truncated t - truncated s < 4294967296
    → LegacyCache.set key (some msg) blocked s c ≡ (ok tt, c')
    → (LegacyCache.get key t c').0
      ≡ answer_at (truncated t - truncated s) (to_lower key) msg blocked
memory_get-set key msg blocked s t c c' f h e =
    get-Holds key msg blocked (truncated s) t c' (set-Holds key msg blocked s c c' e) h f

-- A read in between, at which the message is not expired, does not change what a later read
-- answers.
memory_get-get :
    (key : Text) (msg : Msg) (blocked : Bool) (s t u : ℕ) (c c' : MemoryCache)
    → Fits msg.answer
    → s ≤ t
    → t ≤ u
    → truncated u - truncated s < 4294967296
    → LegacyCache.set key (some msg) blocked s c ≡ (ok tt, c')
    → any_expired (truncated t - truncated s) msg.answer ≡ false
    → (LegacyCache.get key u (LegacyCache.get key t c').1).0 ≡ (LegacyCache.get key u c').0
memory_get-get key msg blocked s t u c c' f h k w e n =
    let a = truncated_mono s t h in
    let b = truncated_mono t u k in
    let held = set-Holds key msg blocked s c c' e in
    let first : ℕ = truncated t - truncated s in
    let sum : first + (truncated u - truncated t) ≡ truncated u - truncated s =
      omega (arith, a, b) in
    get-Holds key (record msg { answer = less first msg.answer }) blocked (truncated t) u _
      (get-Holds_next key msg blocked (truncated s) t c' held (omega (arith, a, b)) f n)
      (omega (arith, a, b)) (less-Fits first msg.answer f)
    ∙ answer_at-less first (truncated u - truncated t) (to_lower key) msg blocked n
    ∙ ap (λ d. answer_at d (to_lower key) msg blocked) sum
    ∙ sym (get-Holds key msg blocked (truncated s) u c' held w f)
