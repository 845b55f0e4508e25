-- ===== src/Resolver.antt =====
-- resolver.go: a question to the upstream servers. The goroutines of `Lookup` finish, and its
-- ticker ticks, in an order that is an argument: a list of events, of which those that cannot
-- happen in the state at hand have no effect. What a server answers, and DNS over HTTPS as far as
-- net/http carries it out, are parameters. Logs and metrics are left out.
pub mod Waiting
pub mod Schedules
pub mod Returning
use leng.Prelude.{
  ℕ, Bool, not, ◌&&◌, Option, none, some, List, [], ◌∷◌, ◌++◌, nat_beq, if◌then◌else◌, ◌==◌, Result,
  ok, err, Run, returned, panicked, length, take_out, is_positive, ℤ, Text, bytes, join,
  comparable_text,
}
use leng.Dns.{Msg, Question, rcode_success, rcode_server_failure}

-- `upstreamAnswer`
pub record UpstreamAnswer : Type 0 where
  pub answer : Msg
  pub nameserver : Text

-- `ResolvError`
pub record ResolvError : Type 0 where
  pub qname : Text
  pub net : Text
  pub nameservers : List Text

-- `Error`
unfoldable pub error_text : ResolvError → Text
error_text e =
    e.qname
    ++ bytes " resolv failed on "
    ++ join e.nameservers (bytes "; ")
    ++ bytes " ("
    ++ e.net
    ++ bytes ")"

-- The response to a POST.
pub record HttpResponse : Type 0 where
  pub status_code : ℕ
  pub content_type : Text
  pub body : Option Text

-- dns.Client.Exchange by network and server, which answers a message where it gives no error; the
-- wire format of package dns; and http.Client.Post.
pub record Network : Type 0 where
  pub exchange : Text → Msg → Text → Option Msg
  pub pack : Msg → Option Text
  pub unpack : Text → Option Msg
  pub post : Text → Text → Text → Option HttpResponse

-- http.StatusOK
abbrev pub status_ok : ℕ
status_ok = 200

abbrev pub dns_message : Text
dns_message = bytes "application/dns-message"

abbrev pub or_fail :
    {A B : Type 0} → ResolvError → Option A → (A → Result ResolvError B) → Result ResolvError B
or_fail e none f = err e
or_fail e (some a) f = f a

-- if net == "http" { clientNet = "tcp" }
unfoldable pub client_net : Text → Text
client_net net = if net == bytes "http" then bytes "tcp" else net

-- What a goroutine does with an answer: one with SERVFAIL is dropped.
unfoldable pub is_usable : Msg → Bool
is_usable r = not (not (nat_beq r.rcode rcode_success) && nat_beq r.rcode rcode_server_failure)

-- A lookup that is under way: the servers not yet asked, those asked that have not finished, the
-- channel `res`, which holds one answer, and the answer that `Lookup` returned.
pub record Lookup : Type 0 where
  pub waiting : List Text
  pub running : List Text
  pub res : Option UpstreamAnswer
  pub outcome : Option (Result ResolvError Msg)

-- `start` asks the next server, `finish` lets the running server at an index end, `receive` takes
-- what the channel holds, and `give_up` is the end of the call after wg.Wait(). A tick of the ticker
-- is what lets the next `start` happen.
pub data Event : Type 0 where
  start receive give_up : Event
  finish : ℕ → Event

module _ (u : Network) where
  -- `L`: the answer goes into the channel unless that is full.
  unfoldable pub offer : Text → Option Msg → Option UpstreamAnswer → Option UpstreamAnswer
  offer server none res = res
  offer server (some r) (some first) = some first
  offer server (some r) none =
      if is_usable r then some (record { answer = r; nameserver = server }) else none

  unfoldable pub finish_one : Text → Msg → Option (Text × List Text) → Lookup → Lookup
  finish_one net req none s = s
  finish_one net req (some (server, rest)) s = record s {
    running = rest;
    res = offer server (u.exchange (client_net net) req server) s.res;
  }

  unfoldable pub start_one : List Text → Lookup → Lookup
  start_one [] s = s
  start_one (server ∷ waiting) s = record s {
    waiting = waiting;
    running = s.running ++ server ∷ [];
  }

  unfoldable pub receive_one : Option UpstreamAnswer → Lookup → Lookup
  receive_one none s = s
  receive_one (some r) s = record s { res = none; outcome = some (ok r.answer) }

  abbrev pub is_done : Lookup → Bool
  is_done s = nat_beq (length s.waiting) 0 && nat_beq (length s.running) 0

  unfoldable pub end_empty : ResolvError → Option UpstreamAnswer → Lookup → Lookup
  end_empty e (some r) s = receive_one (some r) s
  end_empty e none s = record s { outcome = some (err e) }

  unfoldable pub run_event : Text → Msg → ResolvError → Event → Lookup → Lookup
  run_event net req e start s = start_one s.waiting s
  run_event net req e (finish n) s = finish_one net req (take_out n s.running) s
  run_event net req e receive s = receive_one s.res s
  run_event net req e give_up s = if is_done s then end_empty e s.res s else s

  -- After the call has returned nothing counts.
  unfoldable pub step :
      Text → Msg → ResolvError → Event → Option (Result ResolvError Msg) → Lookup → Lookup
  step net req e event (some r) s = s
  step net req e event none s = run_event net req e event s

  unfoldable pub run_events : Text → Msg → ResolvError → List Event → Lookup → Lookup
  run_events net req e [] s = s
  run_events net req e (event ∷ events) s =
      run_events net req e events (step net req e event s.outcome s)

  abbrev pub new_lookup : List Text → Lookup
  new_lookup servers = record { waiting = servers; running = []; res = none; outcome = none }

  abbrev pub read_body : ResolvError → HttpResponse → Result ResolvError Msg
  read_body e resp = or_fail e resp.body (λ packet. or_fail e (u.unpack packet) (λ msg. ok msg))

  -- The response of the DoH server.
  unfoldable pub check_response : ResolvError → HttpResponse → Result ResolvError Msg
  check_response e resp =
      if not (nat_beq resp.status_code status_ok)
      then err e
      else if not (resp.content_type == dns_message)
      then err e
      else read_body e resp

  -- `DoHLookup` past the name of the question
  unfoldable pub doh_request : Text → Text → Msg → Result ResolvError Msg
  doh_request url qname req =
      let e : ResolvError = record { qname = qname; net = bytes "HTTPS"; nameservers = url ∷ [] } in
      or_fail e (u.pack req) (λ wire. or_fail e (u.post url dns_message wire) (check_response e))

  -- Whether DoH answers: `none` leads on to the servers.
  unfoldable pub try_doh : Text → Text → Msg → Option Msg
  try_doh doh qname req =
      if nat_beq (length doh) 0
      then none
      else elim (doh_request doh qname req) [ ok msg ↦ some msg | err e ↦ none ]

  -- The error where no server gives an answer.
  abbrev pub all_failed : Text → Text → List Text → ResolvError
  all_failed net qname servers = record { qname = qname; net = net; nameservers = servers }

  -- time.NewTicker panics if the interval is not positive.
  unfoldable pub ask_servers :
      Text
      → Msg
      → ℤ
      → Text
      → List Text
      → List Event
      → Option Msg
      → Run (Option (Result ResolvError Msg))
  ask_servers net req interval qname servers events (some msg) = returned (some (ok msg))
  ask_servers net req interval qname servers events none =
      if is_positive interval
      then returned
          (run_events net req (all_failed net qname servers) events (new_lookup servers)).outcome
      else panicked

  -- `Lookup`; `none` stands for a call that has not returned when the events end. A message
  -- without a question panics.
  unfoldable pub lookup_questions :
      Text
      → Msg
      → ℤ
      → List Text
      → Text
      → List Event
      → List Question
      → Run (Option (Result ResolvError Msg))
  lookup_questions net req interval servers doh events [] = panicked
  lookup_questions net req interval servers doh events (q ∷ qs) =
      ask_servers net req interval q.name servers events (try_doh doh q.name req)

  unfoldable pub look_up :
      Text → Msg → ℤ → List Text → Text → List Event → Run (Option (Result ResolvError Msg))
  look_up net req interval servers doh events =
      lookup_questions net req interval servers doh events req.question
