-- ===== src/Tests/QueryTests.antt =====
-- A DNS-over-HTTPS request on its whole way, with the event loop of HandlerTests. The wire format of
-- a query is its name, and that of a reply its id.
use leng.Prelude.{
  ◌≡◌, refl, true, false, none, some, List, [], ◌∷◌, has, put, bytes, text_beq, comparable_text,
  lower_byte, to_lower, has_prefix, contains_any,
}
use leng.Dns.{Msg, Question, new_msg, rcode_success}
use leng.BlockCache
use leng.Doh
use leng.Doh.{Codec, Request, content_type, mime_type_doh}
use leng.Doh.Replies.{new_writer, on_the_wire}
use leng.Doh.Query
use leng.Doh.Query.{HttpMux, serve_query_blocked}
use leng.Handler
use leng.Handler.{Addr, Net}
use leng.Handler.Answers.{Reaches, blocked_reply}
use leng.Handler.Follow.Blocked.{null_answer}
use leng.Handler.Reach
use leng.Tests.HandlerTests.{env, start, question_for, request_for}
use leng.Tests.World.{test_dns_laws}

program : Unit {0}
unfolding Handler.is_ip_query Handler.remote_ip BlockCache.exists BlockCache.set
    BlockCache.scan_special has put to_lower lower_byte text_beq has_prefix contains_any
    Handler.is_blocked Handler.print_question Handler.un_fqdn Handler.drop_last Reach.new_event_loop
    Doh.request_to_msg Doh.get_request_to_msg Doh.one_value Doh.base64_to_msg
program = tt

abbrev codec : Codec
codec = record {
  unpack = λ t. some (request_for t);
  pack = λ m. some (m.id ∷ []);
  decode_base64 = λ t. some t;
  can_write = true;
  error_text = λ r. bytes "bad";
}

abbrev mux : HttpMux
mux = record {
  routes = λ m. elim m.question [ [] ↦ false | q ∷ qs ↦ true ];
  refusal = λ m. record new_msg { id = m.id; rcode = 5 };
}

mux_routes :
    (m : Msg) (q : Question) (qs : List Question) → m.question ≡ q ∷ qs → mux.routes m ≡ true
mux_routes m q qs h = rw h refl

abbrev query : Request
query = record {
  path = bytes "/dns-query";
  method = bytes "GET";
  dns_values = some (bytes "ADS.test." ∷ []);
  body = none;
}

abbrev client : Addr
client = Addr.tcp_addr (1 ∷ [])

query-Reaches :
    Reaches env Net.http
      (request_for (bytes "ADS.test."))
      client
      start
      (question_for (bytes "ADS.test."))
unfolding program
query-Reaches = record { address = (1 ∷ [], refl); not_custom = refl; asked = ([], refl) }

abbrev reply : Msg
reply =
    blocked_reply env start.config (request_for (bytes "ADS.test."))
      (question_for (bytes "ADS.test."))

serve_query_blocked_example :
    (on_the_wire
        (Query.serve_query env codec mux (bytes "600") client true query new_writer start).0
      ≡ some ((200, (content_type, mime_type_doh) ∷ []), 9 ∷ []))
    × ((Query.serve_query env codec mux (bytes "600") client true query new_writer start).1 ≡ start)
    × (reply.id ≡ 9)
    × (reply.rcode ≡ rcode_success)
    × (reply.answer ≡ null_answer env start.config (question_for (bytes "ADS.test.")))
unfolding program
serve_query_blocked_example =
    serve_query_blocked env codec mux (bytes "600") client test_dns_laws mux_routes query
      (request_for (bytes "ADS.test.")) start (question_for (bytes "ADS.test.")) (9 ∷ []) refl refl
      refl refl query-Reaches refl
