-- ===== src/Tests/CallsTests.antt =====
-- Calls of a response cache side by side, at concrete inputs.
use leng.Prelude.{
  ℕ, ◌+◌, ◌*◌, ◌≤◌, ◌≡◌, refl, false, some, List, [], ◌∷◌, ◌++◌, arith, ok, err, length, take_out,
  count, pos, lookup, has, put, delete, bytes, text_beq, comparable_text, lower_byte, to_lower,
}
use leng.Dns.{new_msg}
use leng.Lcache
use leng.Lcache.{LengCache, DefaultEntry, default_entry, second}
use leng.Lcache.Errors.{key_expired}
use leng.Lcache.Threads
use leng.Lcache.Threads.{
  was_got, was_set, finished, Outcome, Call, Calls, Thread, Reach, new_calls, is_setting,
}
use leng.Lcache.Threads.Counting.{plus, owes_up, owes_down, calls_counted}
use leng.Lcache.Threads.Bound.{calls_bounded}
use leng.Lcache.Threads.Alone
use leng.Lcache.Threads.Alone.{atomic}
use leng.Tests.World.{an_rr}

program : Unit {0}
unfolding Threads.begin Threads.advance Threads.advance_one Threads.loaded Threads.read_entry
    Lcache.set Lcache.store Lcache.new_generic Lcache.full Lcache.exists Lcache.min_ttl_for
    Lcache.min_ttl_from Lcache.whole_seconds lookup has put delete take_out to_lower lower_byte
    text_beq Alone.steps Alone.atomic
program = tt

-- Calls and steps of them in a row, at a time.
abbrev play : ℕ → List ℕ → Calls DefaultEntry → Calls DefaultEntry
play now [] s = s
play now (i ∷ is) s = play now is (Threads.advance_one now (take_out i s.threads) s)

abbrev calling : Call DefaultEntry → Calls DefaultEntry → Calls DefaultEntry
calling o s = record s { threads = s.threads ++ Threads.begin o ∷ [] }

played :
    {n : ℕ} {start : Calls DefaultEntry} (now : ℕ) (is : List ℕ) (s : Calls DefaultEntry)
    → Reach n start s
    → Reach n start (play now is s)
played now [] s r = r
played now (i ∷ is) s r = played now is _ (Threads.next r (Threads.progress i now s))

abbrev entry : DefaultEntry
entry = record { msg = record new_msg { answer = record an_rr { ttl = 10 } ∷ [] } }

-- Two calls of `Set` into an empty cache of one entry.
abbrev both : Calls DefaultEntry
both =
    calling (Threads.set (bytes "b") (some entry))
      (calling (Threads.set (bytes "a") (some entry)) (new_calls (pos 1)))

-- Both test `Full` before either swaps.
abbrev overfull : Calls DefaultEntry
overfull = play second (0 ∷ 0 ∷ 0 ∷ 0 ∷ 0 ∷ 0 ∷ []) both

reach_overfull : Reach 2 (new_calls (pos 1)) overfull
unfolding program
reach_overfull = played second (0 ∷ 0 ∷ 0 ∷ 0 ∷ 0 ∷ 0 ∷ []) both (
    Threads.next
      (Threads.next Threads.here
        (Threads.call (Threads.set (bytes "a") (some entry)) _ (omega arith)))
      (Threads.call (Threads.set (bytes "b") (some entry)) _ (omega arith)))

-- It holds one entry more than its bound.
overfull_holds : length overfull.cache.backend ≡ 2
unfolding program
overfull_holds = refl

calls_bounded_example : length overfull.cache.backend ≤ 0 + 2
calls_bounded_example = calls_bounded 2 0 overfull reach_overfull

calls_counted_example :
    plus overfull.cache.size (count owes_up overfull.threads)
    ≡ pos (length overfull.cache.backend + count owes_down overfull.threads)
calls_counted_example = calls_counted 2 (pos 1) overfull reach_overfull

-- An entry that expires at second 11, and a `Get` at second 20 that has found it expired.
abbrev expired : Calls DefaultEntry
expired = play (20 * second) (0 ∷ 0 ∷ []) (
    calling (Threads.get (bytes "a")) (record {
      cache = (atomic (Threads.set (bytes "a") (some entry)) second both.cache).1;
      threads = [];
    }))

-- A `Set` of a fresh entry comes to its end before that `Get` removes the key.
abbrev refreshed : Calls DefaultEntry
refreshed =
    play (20 * second) (1 ∷ 1 ∷ 1 ∷ 1 ∷ 0 ∷ [])
      (calling (Threads.set (bytes "a") (some entry)) expired)

-- The fresh entry is gone, though the `Set` reported success.
fresh_lost :
    (has (bytes "a") refreshed.cache.backend ≡ false)
    × (take_out 0 refreshed.threads
        ≡ some (
          finished (was_set (ok tt)),
          Threads.count_down (was_got (err (key_expired (bytes "a")))) ∷ [],
        ))
unfolding program
fresh_lost = (refl, refl)
