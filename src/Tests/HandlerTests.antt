-- ===== src/Tests/HandlerTests.antt =====
-- The event loop at concrete inputs: a.test. is an alias of b.test., which no upstream server
-- knows, and ads.test. is blocked. The clock is the world, and a lookup takes a second.
use leng.Prelude.{
  ℕ, ◌+◌, ◌*◌, ◌≡◌, refl, true, false, Option, none, some, List, [], ◌∷◌, arith, if◌then◌else◌,
  ◌==◌, returned, panicked, lookup, has, put, delete, Text, bytes, text_beq, comparable_text,
  lower_byte, to_lower, has_prefix, contains_any,
}
use leng.Dns.{Rr, RData, Msg, Question, new_msg, class_inet, type_a, type_cname}
use leng.Lcache
use leng.Lcache.{LengCache, DefaultEntry, default_entry, second, max_uint32}
use leng.BlockCache
use leng.BlockCache.{Matchers, empty}
use leng.Handler
use leng.Handler.{Env, EventLoop, Response, Net, Addr, failed}
use leng.Handler.Answers.{Reaches}
use leng.Handler.Caching.{IsCacheable, key_of}
use leng.Handler.Failures.{failure_sticks}
use leng.Handler.Follow.Replies.{Replied, do_request_reply}
use leng.Handler.Follow.Panics.{do_request_panics}
use leng.Lcache.Errors.{key_not_found}
use leng.Handler.Follow
use leng.Handler.Follow.{failure_reply}
use leng.Handler.Reach
use leng.Handler.Reach.{Reach, Step}
use leng.Tests.World.{test_dns, host, an_rr, config}

abbrev pub alias_rr : Rr
alias_rr = record an_rr { rrtype = type_cname; rdata = RData.cname (bytes "b.test.") }

abbrev pub answer_to : List Question → Option Msg
answer_to [] = none
answer_to (q ∷ qs) =
    if q.name == host then some (record new_msg { answer = alias_rr ∷ []; rcode = 3 }) else none

abbrev pub env : Env ℕ
env = record {
  dns = test_dns;
  matchers = record { compile = λ s. none; glob = λ p s. false };
  md5_hex = λ s. s;
  parse_ip = λ s. s;
  now = λ w. w;
  lookup_upstream = λ net req c w. (answer_to req.question, w + second);
}

program : Unit {0}
unfolding Lcache.new_generic Lcache.get Lcache.read_found Lcache.read_fresh Lcache.whole_seconds
    Lcache.set Lcache.store Lcache.full Lcache.exists Lcache.remove Lcache.min_ttl_for
    Lcache.min_ttl_from lookup has put delete to_lower lower_byte text_beq BlockCache.set
    BlockCache.exists BlockCache.scan_special has_prefix contains_any Handler.question_string
    Handler.is_ip_query Handler.drop_last Handler.un_fqdn Handler.remote_ip Handler.print_question
    Handler.key_gen Handler.null_record Handler.blocked_response_for Handler.reply_with
    Handler.cache_failure Handler.finish Handler.after_lookup Handler.ask Handler.retry_truncated
    Handler.ask_upstream Handler.from_neg_cache Handler.from_cache Handler.consult_caches
    Handler.unless_cached Handler.answer_unblocked Handler.is_blocked Handler.answer_question
    Handler.answer_questions Handler.after_custom Handler.response_for_remote Handler.response_for
    Follow.cname_targets Follow.can_follow Follow.continue Follow.answers_of Follow.add_followed
    Follow.follow_targets Follow.follow_cnames Follow.follow Follow.reply Follow.do_request
    Reach.new_event_loop Reach.run_spawned
program = tt

abbrev pub start : EventLoop ℕ
start =
    Reach.new_event_loop config (BlockCache.set env.matchers (bytes "ads.test") true empty)
      (λ req. returned none) true 0

abbrev pub remote : Addr
remote = Addr.udp_addr (1 ∷ [])

abbrev pub question_for : Text → Question
question_for name = record { name = name; qtype = type_a; qclass = class_inet }

abbrev pub request_for : Text → Msg
request_for name = record new_msg { id = 9; question = question_for name ∷ [] }

reaches :
    (name : Text) (h : EventLoop ℕ)
    → h.custom_dns (request_for name) ≡ returned none
    → Reaches env Net.udp (request_for name) remote h (question_for name)
unfolding Handler.remote_ip
reaches name h none_found = record {
  address = (1 ∷ [], refl);
  not_custom = none_found;
  asked = ([], refl);
}

-- The first request for a.test., and the write that it left.
abbrev asked : EventLoop ℕ
asked = (Handler.response_for env Net.udp (request_for host) remote start).1

abbrev written : EventLoop ℕ
written = Reach.run_spawned env asked.spawned asked

cacheable : IsCacheable env Net.udp (request_for host) remote written (question_for host)
unfolding program
cacheable = record { reaches = reaches host written refl; unblocked = refl; ip = refl }

-- b.test. fails at the upstream servers, and then fails from the negative cache.
abbrev lost_name : Text
lost_name = bytes "b.test."

abbrev lost : EventLoop ℕ
lost = (Handler.response_for env Net.udp (request_for lost_name) remote start).1

IsCacheable-lost :
    (h : EventLoop ℕ)
    → h.custom_dns (request_for lost_name) ≡ returned none
    → Handler.is_blocked env (question_for lost_name) h ≡ false
    → IsCacheable env Net.udp (request_for lost_name) remote h (question_for lost_name)
unfolding Handler.is_ip_query
IsCacheable-lost h none_found free = record {
  reaches = reaches lost_name h none_found;
  unblocked = free;
  ip = refl;
}

-- A hundred years later.
abbrev later : EventLoop ℕ
later = record lost { world = 3155760000 * second }

failure_sticks_example :
    ((Handler.response_for env Net.udp (request_for lost_name) remote later).0
      ≡ returned (failed env true))
    × ((Handler.response_for env Net.udp (request_for lost_name) remote later).1.world
        ≡ later.world)
unfolding program
failure_sticks_example =
    failure_sticks env Net.udp Net.udp (request_for lost_name) (request_for lost_name) remote remote
      start later (question_for lost_name) (question_for lost_name)
      (key_not_found (key_of env (question_for lost_name))) (IsCacheable-lost start refl refl) refl
      refl refl (omega arith) (IsCacheable-lost later refl refl) refl refl

do_request_reply_example :
    (r : Response) × ((Handler.response_for env Net.udp (request_for lost_name) remote start).0
      ≡ returned r)
    × Replied env r.success (request_for lost_name) r (failure_reply env (request_for lost_name))
unfolding program
do_request_reply_example =
    do_request_reply env Net.udp (request_for lost_name) (failure_reply env (request_for lost_name))
      remote start refl

-- Following a.test. to b.test., which fails, is the end of the process.
do_request_panics_example :
    (Follow.do_request env Net.udp (request_for host) remote start).0 ≡ panicked
unfolding program
do_request_panics_example =
    do_request_panics env Net.udp (request_for host)
      (record new_msg {
        id = 9;
        response = true;
        question = question_for host ∷ [];
        answer = alias_rr ∷ [];
      })
      remote start asked (Handler.response_for env Net.udp (request_for lost_name) remote asked).1
      (question_for host) []
      (record {
        resp = some (record new_msg {
          id = 9;
          response = true;
          question = question_for host ∷ [];
          answer = alias_rr ∷ [];
        });
        success = true;
        blocked = false;
        cached = false;
      })
      (failed env false) lost_name [] 11 refl refl refl refl refl refl refl refl
