-- ===== src/Tests/ThreadsTests.antt =====
-- Requests side by side, at concrete inputs: those of HandlerTests.
use leng.Prelude.{
  ◌≡◌, refl, [], ◌∷◌, has, put, bytes, text_beq, comparable_text, lower_byte, to_lower, has_prefix,
  contains_any,
}
use leng.Dns.{Msg, rcode_success}
use leng.BlockCache
use leng.BlockCache.{empty}
use leng.Handler
use leng.Handler.{EventLoop, Net, Response}
use leng.Handler.Reach
use leng.Handler.Threads
use leng.Handler.Threads.Blocked.{after, do_request_listed}
use leng.Handler.Follow.Blocked.{null_answer}
use leng.Tests.HandlerTests.{env, start, remote, request_for, question_for}
use leng.Tests.World.{config, test_dns_laws}

program : Unit {0}
unfolding Handler.is_ip_query Handler.remote_ip BlockCache.exists BlockCache.set
    BlockCache.scan_special has put to_lower lower_byte text_beq has_prefix contains_any
    Handler.print_question Handler.un_fqdn Handler.drop_last Reach.new_event_loop
program = tt

-- The time at a step is the number of steps before it.
do_request_listed_example :
    (m : Msg) × (after env
        (Threads.do_request env config Net.udp (request_for (bytes "ADS.test.")) remote)
        (λ i. record start { world = i })
        2
      ≡ Threads.done m)
    × (m.id ≡ 9)
    × (m.rcode ≡ rcode_success)
    × (m.answer ≡ null_answer env config (question_for (bytes "ADS.test.")))
unfolding program
do_request_listed_example =
    do_request_listed env test_dns_laws config Net.udp (request_for (bytes "ADS.test.")) remote
      (1 ∷ []) (question_for (bytes "ADS.test.")) [] (λ i. record start { world = i }) refl refl
      refl refl refl refl
