-- ===== src/Lcache.antt =====
-- The response cache of the package lcache (lcache/cache.go, default.go, errors.go), one operation
-- after another. The wall clock is an argument, in nanoseconds. `sync.Map` and `atomic.Int64` are
-- a map and a number. An answer whose TTL is written through a shared pointer is written in the
-- stored entry, which is what `Get` returns. Logging is left out.
pub mod Errors
pub mod Validity
pub mod Freshness
pub mod Polling
pub mod Keys
pub mod Threads
use leng.Prelude.{
  ℕ, ◌+◌, ◌-◌, ◌*◌, ◌/◌, ◌%◌, ◌^◌, ◌≡◌, refl, Bool, not, ◌&&◌, Option, none, some, List, [], ◌∷◌,
  map, ltb, if◌then◌else◌, Result, ok, err, incr, decr, is_positive, leb_ℤ, ℤ, pos, GoMap, lookup,
  has, put, delete, Text, comparable_text, to_lower,
}
use leng.Dns.{Rr, Msg, with_ttl}
use Errors.{CacheError, key_not_found, key_expired, cache_is_full}

-- `Entry`, with the write through the pointers that `RRs` returns.
pub record Entry (E : Type 0) : Type 0 where
  pub rrs : E → List Rr
  pub with_rrs : E → List Rr → E
  pub rrs-with_rrs : (e : E) (l : List Rr) → rrs (with_rrs e l) ≡ l
  pub with_rrs-with_rrs : (e : E) (l l' : List Rr) → with_rrs (with_rrs e l) l' ≡ with_rrs e l'

-- `DefaultEntry`: a message, whose answers count.
pub record DefaultEntry : Type 0 where
  pub msg : Msg

instance abbrev pub default_entry : Entry DefaultEntry
default_entry = record {
  rrs = λ e. e.msg.answer;
  with_rrs = λ e l. record { msg = record e.msg { answer = l } };
  rrs-with_rrs = λ e l. refl;
  with_rrs-with_rrs = λ e l l'. refl;
}

-- `lEntry`; the pointer may be nil.
pub record LEntry (E : Type 0) : Type 0 where
  pub underlying : Option E
  pub expires_at : ℕ

pub record LengCache (E : Type 0) : Type 0 where
  pub backend : GoMap Text (LEntry E)
  pub size : ℤ
  pub max_size : ℤ

-- time.Second
abbrev pub second : ℕ
second = 1000000000

abbrev pub max_uint32 : ℕ
max_uint32 = 4294967295

module _ {E : Type 0} where
  unfoldable pub new_generic : ℤ → LengCache E
  new_generic max_size = record { backend = []; size = pos 0; max_size = max_size }

  unfoldable pub remove : Text → LengCache E → LengCache E
  remove key c =
      if has key c.backend
      then record c { backend = delete key c.backend; size = decr c.size }
      else c

  unfoldable pub exists : Text → LengCache E → Bool
  exists key c = has (to_lower key) c.backend

  unfoldable pub full : LengCache E → Bool
  full c = is_positive c.max_size && leb_ℤ c.max_size c.size

  -- `Length`
  unfoldable pub len : LengCache E → ℤ
  len c = c.size

-- `uint32(d.Truncate(time.Second).Seconds())` of a duration that is not negative
unfoldable pub whole_seconds : ℕ → ℕ
whole_seconds d = d / second % 2 ^ 32

-- The loop of `minTtlFor`.
unfoldable pub min_ttl_from : ℕ → List Rr → ℕ
min_ttl_from min_ttl [] = min_ttl
min_ttl_from min_ttl (answer ∷ rest) =
    min_ttl_from (if ltb answer.ttl min_ttl then answer.ttl else min_ttl) rest

module _ {E : Type 0} ⦃en : Entry E⦄ where
  unfoldable pub min_ttl_for : E → ℕ
  min_ttl_for entry = min_ttl_from max_uint32 (en.rrs entry) * second

  -- `get` after a fresh entry is found: the TTL is written into every answer.
  unfoldable pub read_fresh : Text → ℕ → LEntry E → LengCache E → Result CacheError E × LengCache E
  read_fresh key now e c = elim e.underlying [
    | none ↦ (err (key_not_found key), c)
    | some v ↦
        let v' = en.with_rrs v (map (with_ttl (whole_seconds (e.expires_at - now))) (en.rrs v)) in
        (ok v', record c { backend = put key (record e { underlying = some v' }) c.backend })
  ]

  unfoldable pub read_found :
      Text → ℕ → Option (LEntry E) → LengCache E → Result CacheError E × LengCache E
  read_found key now none c = (err (key_not_found key), c)
  read_found key now (some e) c =
      if ltb e.expires_at now then (err (key_expired key), remove key c) else read_fresh key now e c

  unfoldable pub get : Text → ℕ → LengCache E → Result CacheError E × LengCache E
  get key now c = let k = to_lower key in read_found k now (lookup k c.backend) c

  -- `Set` past the test for a nil entry; `loaded` says whether `Swap` found the key.
  unfoldable pub store : Text → E → ℕ → LengCache E → LengCache E
  store key v now c =
      let e : LEntry E = record { underlying = some v; expires_at = now + min_ttl_for v } in
      record c {
        backend = put key e c.backend;
        size = if has key c.backend then c.size else incr c.size;
      }

  unfoldable pub set :
      Text → Option E → ℕ → LengCache E → Result CacheError (Unit {0}) × LengCache E
  set key none now c = (ok tt, remove key c)
  set key (some v) now c =
      if full c && not (exists (to_lower key) c)
      then (err cache_is_full, c)
      else (ok tt, store (to_lower key) v now c)
