-- ===== src/Tests/DohTests.antt =====
-- DNS over HTTPS at concrete requests.
use leng.Prelude.{
  ◌≡◌, refl, true, none, some, [], ◌∷◌, returned, pos, Text, bytes, text_beq, comparable_text,
}
use leng.Dns.{new_msg}
use leng.Doh
use leng.Doh.{Codec, Request, hangs, content_type, mime_type_doh}
use leng.Doh.Listening
use leng.Tls
use leng.Doh.Replies.{new_writer, on_the_wire, serve_http_answer}

program : Unit {0}
unfolding Listening.new_server_https Listening.listen Listening.listen_and_serve Doh.serve_http
    Doh.serve_msg Doh.after_handler Doh.finish_http Doh.write_all Doh.request_to_msg
    Doh.get_request_to_msg Doh.post_request_to_msg Doh.one_value Doh.base64_to_msg text_beq
program = tt

-- The wire format is the id.
abbrev codec : Codec
codec = record {
  unpack = λ t. elim t [ [] ↦ none | n ∷ rest ↦ some (record new_msg { id = n }) ];
  pack = λ m. some (m.id ∷ []);
  decode_base64 = λ t. some t;
  can_write = true;
  error_text = λ r. bytes "bad";
}

abbrev request : Request
request = record {
  path = bytes "/dns-query";
  method = bytes "GET";
  dns_values = some ((7 ∷ []) ∷ []);
  body = none;
}

abbrev tls_config : Tls.Config
tls_config = record {
  certificates = [];
  root_cas = none;
  min_version = 0;
  max_version = 0;
  cipher_suites = [];
}

abbrev age : Text
age = bytes "max-age=600"

serve_http_answer_example :
    on_the_wire (Doh.serve_http codec age (λ m. m ∷ []) request new_writer)
    ≡ some ((200, (content_type, mime_type_doh) ∷ []), 7 ∷ [])
unfolding program
serve_http_answer_example =
    serve_http_answer codec age (λ m. m ∷ []) request (record new_msg { id = 7 })
      (record new_msg { id = 7 }) (7 ∷ []) refl refl refl refl refl

-- A request whose handler writes nothing is never answered, not even with an error.
unanswered : Doh.serve_http codec age (λ m. []) request new_writer ≡ hangs
unfolding program
unanswered = refl

-- A TLS configuration that is given is not used.
plain_despite_tls :
    Listening.listen_and_serve
      (Listening.new_server_https (bytes ":8053") (pos 5) 600 (some tls_config))
    ≡ returned (Listening.plain_http (bytes ":8053"))
unfolding program
plain_despite_tls = refl
