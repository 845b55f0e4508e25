-- ===== src/Lcache/Threads.antt =====
-- Calls of a response cache that run side by side (lcache/cache.go). Each access to the `sync.Map`, to
-- the `atomic.Int64` or to the clock is one step, and the calls take their steps in any order. The
-- TTLs that `Get` writes are in what it returns; the map's own copy of the answers is not followed,
-- since no key and no expiry depends on it.
pub mod Counting
pub mod Coverage
pub mod Bound
pub mod Alone
use leng.Prelude.{
  ℕ, ◌+◌, ◌-◌, ◌≤◌, Bool, true, false, Option, none, some, List, [], ◌∷◌, ◌++◌, map, ltb,
  if◌then◌else◌, Result, ok, err, take_out, count, incr, decr, ℤ, lookup, has, put, delete, Text,
  comparable_text, to_lower,
}
use leng.Lcache
use leng.Lcache.{Entry, LEntry, LengCache}
use leng.Lcache.Errors.{CacheError, key_not_found, key_expired, cache_is_full}
use leng.Dns.{with_ttl}

-- What a call returns.
pub data Outcome (E : Type 0) : Type 0 where
  was_got : Result CacheError E → Outcome E
  was_set : Result CacheError (Unit {0}) → Outcome E
  was_removed : Outcome E

-- Where a call is: before the access of the name. `Set` tests `Full`, then `Exists`, reads the clock,
-- swaps and adds 1; `Get` loads and reads the clock; a removal deletes and adds -1.
pub data Thread (E : Type 0) : Type 0 where
  full_test exists_test clock_read : Text → E → Thread E
  swap : Text → LEntry E → Thread E
  count_up : Thread E
  load : Text → Thread E
  expiry_test : Text → LEntry E → Thread E
  load_and_delete : Text → Outcome E → Thread E
  count_down : Outcome E → Thread E
  finished : Outcome E → Thread E

pub data Call (E : Type 0) : Type 0 where
  get : Text → Call E
  set : Text → Option E → Call E
  remove : Text → Call E

module _ {E : Type 0} where
  unfoldable pub begin : Call E → Thread E
  begin (get key) = load key
  begin (set key none) = load_and_delete key (was_set (ok tt))
  begin (set key (some v)) = full_test key v
  begin (remove key) = load_and_delete key was_removed

module _ {E : Type 0} ⦃en : Entry E⦄ where
  -- `Get` after a fresh entry is found.
  unfoldable pub read_entry : Text → ℕ → LEntry E → Result CacheError E
  read_entry k now e = elim e.underlying [
    | none ↦ err (key_not_found k)
    | some v ↦
        ok (en.with_rrs v (map (with_ttl (Lcache.whole_seconds (e.expires_at - now))) (en.rrs v)))
  ]

  unfoldable pub loaded : Text → Option (LEntry E) → Thread E
  loaded k none = finished (was_got (err (key_not_found k)))
  loaded k (some e) = expiry_test k e

  -- One step of a call.
  unfoldable pub advance : ℕ → Thread E → LengCache E → Thread E × LengCache E
  advance now (full_test key v) c =
      (if Lcache.full c then exists_test key v else clock_read key v, c)
  advance now (exists_test key v) c = (
    if Lcache.exists (to_lower key) c
        then clock_read key v
        else finished (was_set (err cache_is_full)),
    c,
  )
  advance now (clock_read key v) c =
      (swap key (record { underlying = some v; expires_at = now + Lcache.min_ttl_for v }), c)
  advance now (swap key e) c = (
    if has (to_lower key) c.backend then finished (was_set (ok tt)) else count_up,
    record c { backend = put (to_lower key) e c.backend },
  )
  advance now count_up c = (finished (was_set (ok tt)), record c { size = incr c.size })
  advance now (load key) c = (loaded (to_lower key) (lookup (to_lower key) c.backend), c)
  advance now (expiry_test k e) c = (
    if ltb e.expires_at now
        then load_and_delete k (was_got (err (key_expired k)))
        else finished (was_got (read_entry k now e)),
    c,
  )
  advance now (load_and_delete k o) c =
      if has k c.backend
      then (count_down o, record c { backend = delete k c.backend })
      else (finished o, c)
  advance now (count_down o) c = (finished o, record c { size = decr c.size })
  advance now (finished o) c = (finished o, c)

-- A cache and the calls under way, those at their end among them.
pub record Calls (E : Type 0) : Type 0 where
  pub cache : LengCache E
  pub threads : List (Thread E)

-- A call of `Set` that has not come to its end.
abbrev pub is_setting : {E : Type 0} → Thread E → Bool
is_setting (full_test key v) = true
is_setting (exists_test key v) = true
is_setting (clock_read key v) = true
is_setting (swap key e) = true
is_setting count_up = true
is_setting _ = false

module _ {E : Type 0} ⦃en : Entry E⦄ where
  unfoldable pub advance_one : ℕ → Option (Thread E × List (Thread E)) → Calls E → Calls E
  advance_one now none s = s
  advance_one now (some (t, rest)) s =
      let (t', c) = advance now t s.cache in record { cache = c; threads = rest ++ t' ∷ [] }

  -- Steps with at most `n` calls of `Set` under way at once, by a clock that may show anything.
  pub data Step (n : ℕ) : Calls E → Calls E → Type 0 where
    call :
        (o : Call E) (s : Calls E)
        → count is_setting (s.threads ++ begin o ∷ []) ≤ n
        → Step n s (record s { threads = s.threads ++ begin o ∷ [] })
    progress : (i now : ℕ) (s : Calls E) → Step n s (advance_one now (take_out i s.threads) s)

  pub data Reach (n : ℕ) (start : Calls E) : Calls E → Type 0 where
    here : Reach n start start
    next : {s t : Calls E} → Reach n start s → Step n s t → Reach n start t

abbrev pub new_calls : {E : Type 0} → ℤ → Calls E
new_calls max_size = record { cache = Lcache.new_generic max_size; threads = [] }
