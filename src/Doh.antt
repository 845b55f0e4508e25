-- ===== src/Doh.antt =====
-- doh.go: DNS over HTTPS as a server. What package dns and encoding/base64 decode and encode, and
-- the messages that the DNS handler writes for a request, are parameters. Metrics, logs and the
-- configuration of net/http are left out.
pub mod Replies
pub mod Listening
pub mod Query
use leng.Prelude.{
  ℕ, Bool, true, false, not, Option, none, some, List, [], ◌∷◌, ◌++◌, if◌then◌else◌, ◌==◌, Run,
  returned, panicked, GoMap, put, Text, bytes, comparable_text,
}
use leng.Dns.{Msg}

-- *http.Request: `dns_values` is `values["dns"]`, and a body may fail to be read.
pub record Request : Type 0 where
  pub path : Text
  pub method : Text
  pub dns_values : Option (List Text)
  pub body : Option Text

-- dns.Msg.Unpack and Pack, base64.RawURLEncoding, and whether the connection takes what is written
pub record Codec : Type 0 where
  pub unpack : Text → Option Msg
  pub pack : Msg → Option Text
  pub decode_base64 : Text → Option Text
  pub can_write : Bool
  -- The text of the error of `requestToMsg`.
  pub error_text : Request → Text

-- http.ResponseWriter: the headers set so far, and the status and headers that were sent.
pub record HttpWriter : Type 0 where
  pub headers : GoMap Text Text
  pub sent : Option (ℕ × GoMap Text Text)
  pub body : Text

-- What is sent cannot be changed.
unfoldable pub send_header : ℕ → Option (ℕ × GoMap Text Text) → HttpWriter → HttpWriter
send_header status (some s) w = w
send_header status none w = record w { sent = some (status, w.headers) }

abbrev pub write_header : ℕ → HttpWriter → HttpWriter
write_header status w = send_header status w.sent w

-- `Write`, with the status 200 where none was sent
abbrev pub write_bytes : Text → HttpWriter → HttpWriter
write_bytes b w = let w' = write_header 200 w in record w' { body = w'.body ++ b }

abbrev pub set_header : Text → Text → HttpWriter → HttpWriter
set_header key value w = record w { headers = put key value w.headers }

abbrev pub content_type : Text
content_type = bytes "Content-Type"

abbrev pub cache_control : Text
cache_control = bytes "Cache-Control"

abbrev pub plain_text : Text
plain_text = bytes "text/plain; charset=utf-8"

-- http.Error
abbrev pub http_error : Text → ℕ → HttpWriter → HttpWriter
http_error text status w =
    write_bytes (text ++ bytes "\n") (write_header status (set_header content_type plain_text w))

abbrev pub mime_type_doh : Text
mime_type_doh = bytes "application/dns-message"

abbrev pub path_doh : Text
path_doh = bytes "/dns-query"

-- The channel `completed`, of capacity 1: nothing sent, or sent and closed.
pub data Completion : Type 0 where
  pending completed : Completion

pub record DohResponseWriter : Type 0 where
  pub msg : Option Msg
  pub delegate : HttpWriter
  pub failed : Bool
  pub completion : Completion

-- How a call of `ServeHTTP` ends: `hangs` where nothing is ever sent to `completed`.
pub data Served : Type 0 where
  served : HttpWriter → Served
  hangs crashes : Served

module _ (codec : Codec) where
  unfoldable pub base64_to_msg : Text → Option Msg
  base64_to_msg b64 = elim (codec.decode_base64 b64) [ none ↦ none | some buf ↦ codec.unpack buf ]

  unfoldable pub one_value : List Text → Option Msg
  one_value [] = none
  one_value (b64 ∷ []) = base64_to_msg b64
  one_value (b64 ∷ b64' ∷ rest) = none

  unfoldable pub get_request_to_msg : Request → Option Msg
  get_request_to_msg req = elim req.dns_values [ none ↦ none | some values ↦ one_value values ]

  unfoldable pub post_request_to_msg : Request → Option Msg
  post_request_to_msg req = elim req.body [ none ↦ none | some buf ↦ codec.unpack buf ]

  unfoldable pub request_to_msg : Request → Option Msg
  request_to_msg req =
      if req.method == bytes "GET"
      then get_request_to_msg req
      else if req.method == bytes "POST"
      then post_request_to_msg req
      else none

  unfoldable pub handle_err : DohResponseWriter → DohResponseWriter
  handle_err w = record w {
    delegate = http_error (bytes "No response") 500 w.delegate;
    failed = true;
  }

  unfoldable pub write_packed : Option Text → DohResponseWriter → DohResponseWriter
  write_packed none w = handle_err w
  write_packed (some buf) w =
      let d = set_header content_type mime_type_doh w.delegate in
      if codec.can_write
      then record w { delegate = write_bytes buf d }
      else handle_err (record w { delegate = d })

  -- `WriteMsg` up to its deferred function
  unfoldable pub write_msg : Msg → DohResponseWriter → DohResponseWriter
  write_msg m w = write_packed (codec.pack m) (record w { msg = some m })

  -- The deferred send and close: a send on a closed channel panics.
  unfoldable pub complete : Completion → DohResponseWriter → Run DohResponseWriter
  complete pending w = returned (record w { completion = completed })
  complete completed w = panicked

  -- The messages that the handler writes, one after another.
  unfoldable pub write_all : List Msg → DohResponseWriter → Run DohResponseWriter
  write_all [] w = returned w
  write_all (m ∷ ms) w = elim (complete w.completion (write_msg m w)) [
    | panicked ↦ panicked
    | returned w' ↦ write_all ms w'
  ]

  -- `ServeHTTP` after the handler: the wait, and the age in the headers.
  unfoldable pub finish_http : Text → Completion → DohResponseWriter → Served
  finish_http age pending w = hangs
  finish_http age completed w =
      if w.failed then served w.delegate else served (set_header cache_control age w.delegate)

  unfoldable pub after_handler : Text → Run DohResponseWriter → Served
  after_handler age panicked = crashes
  after_handler age (returned w) = finish_http age w.completion w

  unfoldable pub serve_msg : Text → (Msg → List Msg) → Request → Option Msg → HttpWriter → Served
  serve_msg age handler req none w = served (http_error (codec.error_text req) 400 w)
  serve_msg age handler req (some m) w = after_handler age (
      write_all (handler m)
        (record { msg = none; delegate = w; failed = false; completion = pending }))

  -- `age` is the text of max-age.
  unfoldable pub serve_http : Text → (Msg → List Msg) → Request → HttpWriter → Served
  serve_http age handler req w =
      if not (req.path == path_doh)
      then served (http_error (bytes "") 404 w)
      else serve_msg age handler req (request_to_msg req) w
