-- ===== src/Tests/LcacheTests.antt =====
-- The response cache at concrete inputs: an entry with TTL 10 that is stored at second 1.
use leng.Prelude.{
  ℕ, ◌+◌, ◌-◌, ◌*◌, ◌/◌, ◌≤◌, ◌≡◌, refl, some, [], ◌∷◌, arith, err, All, pos, lookup, has, put,
  delete, Text, bytes, text_beq, comparable_text, lower_byte, to_lower,
}
use leng.Dns.{new_msg}
use leng.Lcache
use leng.Lcache.{LengCache, DefaultEntry, default_entry, second}
use leng.Lcache.Errors.{cache_is_full}
use leng.Lcache.Freshness.{IsLeast, get-set, get-set_ttl, aged, answer_at}
use leng.Tests.World.{an_rr}

program : Unit {0}
unfolding Lcache.new_generic Lcache.get Lcache.read_found Lcache.read_fresh Lcache.whole_seconds
    Lcache.set Lcache.store Lcache.full Lcache.exists Lcache.remove Lcache.min_ttl_for
    Lcache.min_ttl_from lookup has put delete to_lower lower_byte text_beq
program = tt

abbrev entry : DefaultEntry
entry = record { msg = record new_msg { answer = an_rr ∷ [] } }

abbrev key : Text
key = bytes "www"

abbrev upper_key : Text
upper_key = bytes "WWW"

abbrev none_yet : LengCache DefaultEntry
none_yet = Lcache.new_generic (pos 1)

abbrev stored : LengCache DefaultEntry
stored = (Lcache.set key (some entry) second none_yet).1

get-set_example :
    (ttl : ℕ) × IsLeast ttl (default_entry.rrs entry)
    × ((Lcache.get upper_key (4 * second) stored).0
        ≡ answer_at (to_lower key) entry (second + ttl * second) (4 * second))
unfolding program
get-set_example = get-set key upper_key entry second (4 * second) none_yet refl refl

get-set_ttl_example :
    All
      (λ r. r.ttl ≡ (second + Lcache.min_ttl_for entry - 4 * second) / second)
      (default_entry.rrs (aged entry (7 * second)))
    × All
        (λ r. (second + Lcache.min_ttl_for entry - 4 * second) / second ≤ r.ttl)
        (default_entry.rrs entry)
unfolding program
get-set_ttl_example =
    get-set_ttl key upper_key entry (aged entry (7 * second)) second (4 * second) none_yet refl
      (omega arith) refl refl

-- The cache of one entry is full.
set_refused : (Lcache.set (bytes "ftp") (some entry) second stored).0 ≡ err cache_is_full
unfolding program
set_refused = refl
