-- ===== src/Tests/UpstreamTests.antt =====
-- The older caches and the upstream servers at concrete inputs.
use leng.Prelude.{
  ◌≡◌, refl, false, none, some, List, [], ◌∷◌, ◌++◌, if◌then◌else◌, ◌==◌, Result, ok, returned,
  panicked, take_out, pos, lookup, has, put, Text, bytes, join, text_beq, comparable_text,
  lower_byte, to_lower,
}
use leng.Dns.{Msg, new_msg}
use leng.LegacyCache
use leng.LegacyCache.{MemoryCache, make_cache, truncated, any_expired, new_mesg}
use leng.LegacyCache.Aging.{answer_at, less}
use leng.LegacyCache.Bound.{Op, run_op, run_ops, leng_set_never_refused}
use leng.Resolver
use leng.Resolver.{Network, ResolvError, Event, is_usable, client_net}
use leng.Resolver.Waiting.{useful, usable}
use leng.Resolver.Schedules.{Answered, Failed, look_up_answer, look_up_error}
use leng.Resolver.Returning.{Settles, lookup_returns}
use leng.Tests.World.{an_rr, a_question}

program : Unit {0}
unfolding Resolver.look_up Resolver.lookup_questions Resolver.ask_servers Resolver.try_doh
    LegacyCache.get LegacyCache.get_found LegacyCache.finish_get LegacyCache.set LegacyCache.full
    LegacyCache.len LegacyCache.exists make_cache truncated any_expired answer_at less lookup has
    put to_lower lower_byte text_beq LegacyCache.read_mesg LegacyCache.read_msg
    LegacyCache.age_record run_op run_ops LegacyCache.new_cache LegacyCache.leng_set
    LegacyCache.leng_full Resolver.run_events Resolver.run_event Resolver.step Resolver.start_one
    Resolver.finish_one Resolver.receive_one Resolver.end_empty Resolver.offer take_out is_usable
    client_net useful usable
program = tt

abbrev stored : Msg
stored = record new_msg { answer = an_rr ∷ [] }

abbrev filled : MemoryCache
filled = record {
  backend = (bytes "k", new_mesg (some stored) false 3000000000) ∷ [];
  maxcount = pos 0;
}

abbrev ops : List Op
ops =
    LegacyCache.Bound.call_set (bytes "a") none false 0
    ∷ LegacyCache.Bound.call_set (bytes "b") none false 0
    ∷ LegacyCache.Bound.call_length
    ∷ []

leng_set_never_refused_example :
    (LegacyCache.leng_full (run_ops ops (LegacyCache.new_cache (pos 1))) ≡ false)
    × ((LegacyCache.leng_set
          (bytes "c")
          none
          false
          0
          (run_ops ops (LegacyCache.new_cache (pos 1)))).0
        ≡ ok tt)
leng_set_never_refused_example = leng_set_never_refused ops (pos 1) (bytes "c") none false 0

-- One server fails, one answers SERVFAIL, every other answers `stored`.
abbrev network : Network
network = record {
  exchange = λ net req server.
      if server == bytes "down"
      then none
      else if server == bytes "sick"
      then some (record new_msg { rcode = 2 })
      else some stored;
  pack = λ m. some [];
  unpack = λ t. none;
  post = λ url mime body. none;
}

abbrev a_message : Msg
a_message = record new_msg { question = a_question ∷ [] }

abbrev servers : List Text
servers = bytes "sick" ∷ bytes "fine" ∷ []

abbrev bad_servers : List Text
bad_servers = bytes "sick" ∷ bytes "down" ∷ []

look_up_answer_example : Answered network (bytes "udp") a_message servers [] a_question.name stored
unfolding program
look_up_answer_example =
    look_up_answer network (bytes "udp") a_message servers (pos 200) []
      (Resolver.start
        ∷ Resolver.start
        ∷ Resolver.finish 1
        ∷ Resolver.finish 0
        ∷ Resolver.give_up
        ∷ [])
      a_question [] stored refl refl

look_up_error_example :
    Failed network
      (bytes "udp")
      a_message
      bad_servers
      []
      a_question.name
      (record { qname = a_question.name; net = bytes "udp"; nameservers = bad_servers })
      (bytes "down")
unfolding program
look_up_error_example =
    look_up_error network (bytes "udp") a_message bad_servers (pos 200) []
      (Resolver.start
        ∷ Resolver.finish 0
        ∷ Resolver.start
        ∷ Resolver.finish 0
        ∷ Resolver.give_up
        ∷ [])
      a_question []
      (record { qname = a_question.name; net = bytes "udp"; nameservers = bad_servers })
      (bytes "down") refl refl refl

lookup_returns_example :
    (fs : List Event) × (r : Result ResolvError Msg) × (Resolver.look_up network
        (bytes "udp")
        a_message
        (pos 200)
        servers
        []
        ((Resolver.start ∷ Resolver.finish 0 ∷ []) ++ fs)
      ≡ returned (some r))
    × Settles network (bytes "udp") a_message servers [] a_question.name r
lookup_returns_example =
    lookup_returns network (bytes "udp") a_message servers (pos 200) []
      (Resolver.start ∷ Resolver.finish 0 ∷ []) a_question [] refl refl

-- An interval of 0 ends in a panic where the servers are to be asked.
no_interval : Resolver.look_up network (bytes "udp") a_message (pos 0) servers [] [] ≡ panicked
unfolding program
no_interval = refl

error_printed :
    Resolver.error_text (record {
      qname = bytes "a.test.";
      net = bytes "udp";
      nameservers = bytes "1.1.1.1:53" ∷ bytes "1.0.0.1:53" ∷ [];
    })
    ≡ bytes "a.test. resolv failed on 1.1.1.1:53; 1.0.0.1:53 (udp)"
unfolding Resolver.error_text join
error_printed = refl
