-- ===== src/Doh/Replies.antt =====
-- What a client of the DNS-over-HTTPS server gets (doh.go).
use leng.Prelude.{
  ℕ, ◌≡◌, refl, true, Option, none, some, List, [], ◌∷◌, ◌++◌, ◌==◌, GoMap, put, Text, bytes,
  comparable_text,
}
use leng.Dns.{Msg}
use leng.Doh
use leng.Doh.{Codec, Request, HttpWriter, Served, path_doh, content_type, mime_type_doh, plain_text}

-- A response of which nothing is set or sent.
abbrev pub new_writer : HttpWriter
new_writer = record { headers = []; sent = none; body = [] }

-- The status, the headers and the body that the client gets; `none` where it gets no response.
abbrev pub on_the_wire : Served → Option ((ℕ × GoMap Text Text) × Text)
on_the_wire (Doh.served w) = elim w.sent [ none ↦ none | some s ↦ some (s, w.body) ]
on_the_wire Doh.hangs = none
on_the_wire Doh.crashes = none

module _ (codec : Codec) (age : Text) (handler : Msg → List Msg) (req : Request) where
  -- A request that is decoded and whose handler writes one message, which is packed and can be
  -- written, is answered with status 200 and the packed message. The headers sent are the content
  -- type alone: the Cache-Control header is set too late.
  pub serve_http_answer :
      (m reply : Msg) (buf : Text)
      → (req.path == path_doh) ≡ true
      → Doh.request_to_msg codec req ≡ some m
      → handler m ≡ reply ∷ []
      → codec.pack reply ≡ some buf
      → codec.can_write ≡ true
      → on_the_wire (Doh.serve_http codec age handler req new_writer)
        ≡ some ((200, (content_type, mime_type_doh) ∷ []), buf)
  unfolding Doh.serve_http Doh.serve_msg Doh.after_handler Doh.finish_http Doh.write_all
      Doh.complete Doh.write_msg Doh.write_packed Doh.send_header put
  serve_http_answer m reply buf p d h k w = rw (p, d, h, k, w) refl

  -- A request for the path that is not decoded is answered with status 400 and no message, whatever
  -- the handler would write.
  serve_http_bad_request :
      (req.path == path_doh) ≡ true
      → Doh.request_to_msg codec req ≡ none
      → on_the_wire (Doh.serve_http codec age handler req new_writer)
        ≡ some ((400, (content_type, plain_text) ∷ []), codec.error_text req ++ bytes "\n")
  unfolding Doh.serve_http Doh.serve_msg Doh.send_header put
  serve_http_bad_request p d = rw (p, d) refl

  -- A handler that writes two messages or more for a decoded request ends in a panic, by a send on
  -- the closed channel.
  serve_http_crashes :
      (m a b : Msg) (ms : List Msg)
      → (req.path == path_doh) ≡ true
      → Doh.request_to_msg codec req ≡ some m
      → handler m ≡ a ∷ b ∷ ms
      → Doh.serve_http codec age handler req new_writer ≡ Doh.crashes
  unfolding Doh.serve_http Doh.serve_msg Doh.after_handler Doh.write_all Doh.complete
  serve_http_crashes m a b ms p d h = rw (p, d, h) refl
