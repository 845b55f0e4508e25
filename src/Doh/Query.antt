-- ===== src/Doh/Query.antt =====
-- A DNS-over-HTTPS request on its whole way: ServeHTTP of doh.go, DoHTTP, `do` and doRequest of
-- handler.go, and back through WriteReplyMsg to the response writer.
use leng.Prelude.{
  ◌≡◌, refl, ap, ◌∙◌, Bool, true, false, not, Option, none, some, List, [], ◌∷◌, if◌then◌else◌,
  ◌==◌, Run, returned, panicked, put, Text, comparable_text,
}
use leng.Dns.{Msg, Question, DnsLaws, rcode_success}
use leng.Doh
use leng.Doh.{Codec, Request, HttpWriter, Served, path_doh, content_type, mime_type_doh}
use leng.Doh.Replies.{new_writer, on_the_wire}
use leng.Handler
use leng.Handler.{Env, EventLoop, Response, Net, Addr}
use leng.Handler.Answers.{Reaches, blocked_reply}
use leng.Handler.Follow
use leng.Handler.Follow.Blocked.{null_answer, do_request_blocked}

-- A dns.ServeMux with a handler for the pattern ".": whether it finds that for a message, and what it
-- answers where it finds none.
pub record HttpMux : Type 0 where
  pub routes : Msg → Bool
  pub refusal : Msg → Msg

module _ {W : Type 0} (env : Env W) (codec : Codec) (mux : HttpMux) (age : Text)
    (remote : Addr) where
  open env use {dns}

  -- The pattern "." matches every name that is asked for.
  abbrev pub RoutesRoot : Type 0
  RoutesRoot =
      (m : Msg) (q : Question) (qs : List Question) → m.question ≡ q ∷ qs → mux.routes m ≡ true

  -- doRequest writes one message. A panic in its goroutine is the end of the process.
  unfoldable pub write_reply :
      Request → Msg → HttpWriter → Run Msg × EventLoop W → Served × EventLoop W
  write_reply req m w (panicked, h) = (Doh.crashes, h)
  write_reply req m w (returned reply, h) =
      (Doh.serve_msg codec age (λ m. reply ∷ []) req (some m) w, h)

  -- `DoHTTP`: a loop that is not active drops the request.
  unfoldable pub do_http : Bool → Request → Msg → HttpWriter → EventLoop W → Served × EventLoop W
  do_http false req m w h = (Doh.serve_msg codec age (λ m. []) req (some m) w, h)
  do_http true req m w h = write_reply req m w (Follow.do_request env Net.http m remote h)

  -- The mux finds DoHTTP, or refuses the message.
  unfoldable pub through_mux :
      Bool → Request → Msg → HttpWriter → EventLoop W → Served × EventLoop W
  through_mux active req m w h =
      if mux.routes m
      then do_http active req m w h
      else (Doh.serve_msg codec age (λ m. mux.refusal m ∷ []) req (some m) w, h)

  unfoldable pub serve_decoded :
      Bool → Request → Option Msg → HttpWriter → EventLoop W → Served × EventLoop W
  serve_decoded active req none w h = (Doh.serve_msg codec age (λ m. []) req none w, h)
  serve_decoded active req (some m) w h = through_mux active req m w h

  -- `ServeHTTP`, with whether the event loop is active.
  unfoldable pub serve_query : Bool → Request → HttpWriter → EventLoop W → Served × EventLoop W
  serve_query active req w h =
      if not (req.path == path_doh)
      then (Doh.serve_http codec age (λ m. []) req w, h)
      else serve_decoded active req (Doh.request_to_msg codec req) w h

  serve_reply :
      (req : Request) (m reply : Msg) (buf : Text)
      → codec.pack reply ≡ some buf
      → codec.can_write ≡ true
      → on_the_wire (Doh.serve_msg codec age (λ m. reply ∷ []) req (some m) new_writer)
        ≡ some ((200, (content_type, mime_type_doh) ∷ []), buf)
  unfolding Doh.serve_msg Doh.after_handler Doh.finish_http Doh.write_all Doh.complete Doh.write_msg
      Doh.write_packed Doh.send_header put
  serve_reply req m reply buf k w = rw (k, w) refl

  serve_known :
      (req : Request) (m : Msg) (h : EventLoop W)
      → (req.path == path_doh) ≡ true
      → Doh.request_to_msg codec req ≡ some m
      → mux.routes m ≡ true
      → serve_query true req new_writer h
        ≡ write_reply req m new_writer (Follow.do_request env Net.http m remote h)
  unfolding serve_query serve_decoded through_mux do_http
  serve_known req m h p d k =
      ap
        (λ b.
          if not b
          then (Doh.serve_http codec age (λ m. []) req new_writer, h)
          else serve_decoded true req (Doh.request_to_msg codec req) new_writer h)
        p
      ∙ ap (λ o. serve_decoded true req o new_writer h) d
      ∙ ap
          (λ b.
            if b
            then do_http true req m new_writer h
            else (Doh.serve_msg codec age (λ m. mux.refusal m ∷ []) req (some m) new_writer, h))
          k

  -- While the event loop is active, a DNS-over-HTTPS request that is decoded to an address query
  -- for a blocked name, which no custom record answers, is answered over HTTP with status 200, the
  -- content type of DNS messages and the packed reply, if that reply can be packed and written: it
  -- has the query's id and the code NOERROR, and holds the configured null address, or no record if
  -- NXDOMAIN is configured. The event loop stays as it is.
  pub serve_query_blocked :
      (laws : DnsLaws dns) (root : RoutesRoot) (req : Request) (m : Msg) (h : EventLoop W)
      (q : Question) (buf : Text)
      → codec.can_write ≡ true
      → codec.pack (blocked_reply env h.config m q) ≡ some buf
      → (req.path == path_doh) ≡ true
      → Doh.request_to_msg codec req ≡ some m
      → Reaches env Net.http m remote h q
      → Handler.is_blocked env q h ≡ true
      → (on_the_wire (serve_query true req new_writer h).0
          ≡ some ((200, (content_type, mime_type_doh) ∷ []), buf))
        × ((serve_query true req new_writer h).1 ≡ h)
        × ((blocked_reply env h.config m q).id ≡ m.id)
        × ((blocked_reply env h.config m q).rcode ≡ rcode_success)
        × ((blocked_reply env h.config m q).answer ≡ null_answer env h.config q)
  unfolding write_reply
  serve_query_blocked laws root req m h q buf w k p d r hit =
      let (e, i, c, a) = do_request_blocked env laws Net.http m remote h q r hit in
      let whole =
        serve_known req m h p d (root m q r.asked.0 r.asked.1)
        ∙ ap (write_reply req m new_writer) e in
      (
        ap (λ s. on_the_wire s.0) whole
            ∙ serve_reply req m (blocked_reply env h.config m q) buf k w,
        ap (λ s. s.1) whole,
        i,
        c,
        a,
      )
