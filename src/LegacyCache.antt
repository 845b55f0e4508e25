-- ===== src/LegacyCache.antt =====
-- The two caches of cache.go that stand behind its interface `Cache`: MemoryCache and lengCache. A
-- message is a value; its pointer may be nil. Times are nanoseconds that do not run backwards.
pub mod Aging
pub mod Bound
use leng.Prelude.{
  ℕ, ◌+◌, ◌-◌, ◌/◌, ◌%◌, ◌^◌, Bool, false, not, ◌&&◌, Option, none, some, List, [], map, ltb,
  nat_beq, if◌then◌else◌, Result, ok, err, Run, returned, panicked, length, any, decr, is_positive,
  leb_ℤ, ℤ, pos, negsuc, GoMap, lookup, has, put, delete, Text, comparable_text, to_lower,
}
use leng.Dns.{Rr, Msg, with_ttl}
use leng.Lcache.{second}

pub data CacheError : Type 0 where
  key_not_found key_expired : Text → CacheError
  cache_is_full : CacheError

-- `Mesg`, with the second of the last update.
pub record Mesg : Type 0 where
  pub msg : Option Msg
  pub blocked : Bool
  pub last_update_time : ℕ

pub record MemoryCache : Type 0 where
  pub backend : GoMap Text Mesg
  pub maxcount : ℤ

pub record LengCache : Type 0 where
  pub backend : GoMap Text Mesg
  pub size : ℤ
  pub is_full : Bool
  pub max_size : ℤ

-- WallClock.Now().Truncate(time.Second)
unfoldable pub truncated : ℕ → ℕ
truncated now = now / second

-- answer.Header().Ttl -= elapsed, on uint32
unfoldable pub age_record : ℕ → Rr → Rr
age_record elapsed rr = with_ttl ((rr.ttl + 2 ^ 32 - elapsed) % 2 ^ 32) rr

-- elapsed > answer.Header().Ttl for one of the answers
unfoldable pub any_expired : ℕ → List Rr → Bool
any_expired elapsed answers = any (λ rr. ltb rr.ttl elapsed) answers

-- What both `Get` find at a key: no message, one that is too old, or one that is aged.
pub data Finding : Type 0 where
  nil_message too_old : Finding
  aged : Msg → Mesg → Finding

unfoldable pub read_msg : ℕ → Mesg → Option Msg → Finding
read_msg now mesg none = nil_message
read_msg now mesg (some msg) =
    let elapsed = (now - mesg.last_update_time) % 2 ^ 32 in
    let msg' : Msg = record msg { answer = map (age_record elapsed) msg.answer } in
    if any_expired elapsed msg.answer
    then too_old
    else aged msg' (record mesg { msg = some msg'; last_update_time = now })

unfoldable pub read_mesg : ℕ → Mesg → Finding
read_mesg now mesg = read_msg now mesg mesg.msg

-- &Mesg{msg, blocked, WallClock.Now().Truncate(time.Second)}
abbrev pub new_mesg : Option Msg → Bool → ℕ → Mesg
new_mesg msg blocked now = record { msg = msg; blocked = blocked; last_update_time = truncated now }

-- utils.go, `makeCache`
unfoldable pub make_cache : MemoryCache
make_cache = record { backend = []; maxcount = pos 0 }

unfoldable pub remove : Text → MemoryCache → MemoryCache
remove key c = record c { backend = delete (to_lower key) c.backend }

unfoldable pub exists : Text → MemoryCache → Bool
exists key c = has (to_lower key) c.backend

-- `Length`
unfoldable pub len : MemoryCache → ℤ
len c = pos (length c.backend)

abbrev pub is_zero : ℤ → Bool
is_zero (pos n) = nat_beq n 0
is_zero (negsuc n) = false

unfoldable pub full : MemoryCache → Bool
full c = not (is_zero c.maxcount) && leb_ℤ c.maxcount (len c)

unfoldable pub finish_get :
    Text → Finding → MemoryCache → Result CacheError (Msg × Bool) × MemoryCache
finish_get key nil_message c = (err (key_not_found key), remove key c)
finish_get key too_old c = (err (key_expired key), remove key c)
finish_get key (aged msg mesg) c =
    (ok (msg, mesg.blocked), record c { backend = put key mesg c.backend })

unfoldable pub get_found :
    Text → ℕ → Option Mesg → MemoryCache → Result CacheError (Msg × Bool) × MemoryCache
get_found key now none c = (err (key_not_found key), c)
get_found key now (some mesg) c = finish_get key (read_mesg (truncated now) mesg) c

unfoldable pub get : Text → ℕ → MemoryCache → Result CacheError (Msg × Bool) × MemoryCache
get key now c = let k = to_lower key in get_found k now (lookup k c.backend) c

unfoldable pub set :
    Text → Option Msg → Bool → ℕ → MemoryCache → Result CacheError (Unit {0}) × MemoryCache
set key msg blocked now c =
    let k = to_lower key in
    if full c && not (exists k c)
    then (err cache_is_full, c)
    else (ok tt, record c { backend = put k (new_mesg msg blocked now) c.backend })

-- a < b
unfoldable pub ltb_ℤ : ℤ → ℤ → Bool
ltb_ℤ a b = not (leb_ℤ b a)

-- The methods of lengCache, which the source names as those of MemoryCache.
unfoldable pub new_cache : ℤ → LengCache
new_cache max_size = record { backend = []; size = pos 0; is_full = false; max_size = max_size }

-- `LoadAndDelete`, and the size if the key was there
unfoldable pub leng_remove : Text → LengCache → LengCache
leng_remove key c =
    if has key c.backend
    then record c {
      backend = delete key c.backend;
      size = decr c.size;
      is_full = if ltb_ℤ (decr c.size) c.max_size then false else c.is_full;
    }
    else c

unfoldable pub leng_exists : Text → LengCache → Bool
leng_exists key c = has key c.backend

-- `Length`, which sets the flag
unfoldable pub leng_len : LengCache → ℤ × LengCache
leng_len c = (c.size, record c { is_full = ltb_ℤ c.max_size c.size })

unfoldable pub leng_full : LengCache → Bool
leng_full c = is_positive c.max_size && c.is_full

unfoldable pub leng_finish_get :
    Text → Finding → LengCache → Result CacheError (Msg × Bool) × LengCache
leng_finish_get key nil_message c = (err (key_not_found key), leng_remove key c)
leng_finish_get key too_old c = (err (key_expired key), leng_remove key c)
leng_finish_get key (aged msg mesg) c =
    (ok (msg, mesg.blocked), record c { backend = put key mesg c.backend })

-- A missing key is a nil interface, which is no *Mesg.
unfoldable pub leng_get_found :
    Text → ℕ → Option Mesg → LengCache → Run (Result CacheError (Msg × Bool)) × LengCache
leng_get_found key now none c = (panicked, c)
leng_get_found key now (some mesg) c =
    let r = leng_finish_get key (read_mesg (truncated now) mesg) c in (returned r.0, r.1)

unfoldable pub leng_get : Text → ℕ → LengCache → Run (Result CacheError (Msg × Bool)) × LengCache
leng_get key now c = let k = to_lower key in leng_get_found k now (lookup k c.backend) c

unfoldable pub leng_set :
    Text → Option Msg → Bool → ℕ → LengCache → Result CacheError (Unit {0}) × LengCache
leng_set key msg blocked now c =
    let k = to_lower key in
    if leng_full c && not (leng_exists k c)
    then (err cache_is_full, c)
    else (ok tt, record c { backend = put k (new_mesg msg blocked now) c.backend })
