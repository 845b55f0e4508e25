-- ===== src/Handler/Follow.antt =====
-- `doRequest` and `canFollow` of handler.go: the reply to one request, with the targets of CNAME
-- records followed. What is written to the client is the result; a nil dereference is a panic.
pub mod Replies
pub mod Panics
pub mod Blocked
use leng.Prelude.{
  ℕ, zero, suc, Bool, true, false, not, ◌&&◌, ◌||◌, Option, none, some, List, [], ◌∷◌, ◌++◌,
  nat_beq, if◌then◌else◌, ◌==◌, Run, returned, panicked, length, any, Text, comparable_text,
}
use leng.Dns.{
  Rr, Msg, Question, RData, new_msg, type_a, type_aaaa, type_cname, rcode_server_failure,
}
use leng.Handler
use leng.Handler.{Env, EventLoop, Response, Net, Addr}

abbrev pub is_a : Rr → Bool
is_a rr = nat_beq rr.rrtype type_a || nat_beq rr.rrtype type_aaaa

abbrev pub is_cname : Rr → Bool
is_cname rr = nat_beq rr.rrtype type_cname

-- rr.(*dns.CNAME)
abbrev pub as_cname : RData → List Text
as_cname (RData.cname target) = target ∷ []
as_cname _ = []

-- The targets of the CNAME records among the answers.
unfoldable pub cname_targets : List Rr → List Text
cname_targets [] = []
cname_targets (rr ∷ rest) = (if is_cname rr then as_cname rr.rdata else []) ++ cname_targets rest

unfoldable pub can_follow : Question → Msg → List Text × Bool
can_follow q resp = if nat_beq q.qtype type_cname then ([], false) else (
  cname_targets resp.answer,
  (not (any is_a resp.answer) && any is_cname resp.answer)
      && not (nat_beq (length (cname_targets resp.answer)) 0),
)

-- The state of the event loop is carried along; a panic ends the call.
abbrev pub Act : Type 0 → Type 0 → Type 0
Act W A = EventLoop W → Run A × EventLoop W

module _ {W A B : Type 0} where
  unfoldable pub continue : Run A × EventLoop W → (A → Act W B) → Run B × EventLoop W
  continue (panicked, h) f = (panicked, h)
  continue (returned a, h) f = f a h

  infixl 5 ◌>>=◌
  abbrev pub ◌>>=◌ : Act W A → (A → Act W B) → Act W B
  ◌>>=◌ m f h = continue (m h) f

abbrev pub pure : {W A : Type 0} → A → Act W A
pure a h = (returned a, h)

abbrev pub panic : {W A : Type 0} → Act W A
panic h = (panicked, h)

-- `followed.Answer`, where `followed` may be nil
unfoldable pub answers_of : {W : Type 0} → Option Msg → Act W (List Rr)
answers_of none h = (panicked, h)
answers_of (some m) h = (returned m.answer, h)

module _ {W : Type 0} (env : Env W) where
  open env use {dns}

  -- The loop over the answers of a followed target.
  unfoldable pub add_followed : Bool → List Rr → List Rr → List Rr
  add_followed found_ok answers [] = answers
  add_followed found_ok answers (f ∷ rest) =
      add_followed found_ok
        (if found_ok && not (any (λ rr. dns.rr_string rr == dns.rr_string f) answers)
          then answers ++ f ∷ []
          else answers)
        rest

  unfoldable pub follow_targets : Net → Question → Addr → List Text → List Rr → Act W (List Rr)
  follow_targets net q remote [] answers = pure answers
  follow_targets net q remote (target ∷ targets) answers = do
    r ← Handler.response_for env net (dns.set_question new_msg target q.qtype) remote
    found ← answers_of r.resp
    follow_targets net q remote targets (add_followed r.success answers found)

  -- The loop over the depth, with the rounds that are left.
  unfoldable pub follow_cnames : ℕ → Net → Question → Addr → Msg → Act W Msg
  follow_cnames zero net q remote resp = pure resp
  follow_cnames (suc rounds) net q remote resp = elim (can_follow q resp).1 [
    | false ↦ pure resp
    | true ↦ do
      answers ← follow_targets net q remote (can_follow q resp).0 resp.answer
      follow_cnames rounds net q remote (record resp { answer = answers })
  ]

  abbrev pub failure_reply : Msg → Msg
  failure_reply req = dns.set_rcode (dns.set_reply new_msg req) req rcode_server_failure

  -- req.Question[0] is read only where the depth allows a round.
  unfoldable pub follow : ℕ → Net → Msg → List Question → Addr → Msg → Act W Msg
  follow zero net req questions remote resp = pure resp
  follow (suc rounds) net req [] remote resp = panic
  follow (suc rounds) net req (q ∷ qs) remote resp = follow_cnames (suc rounds) net q remote resp

  unfoldable pub reply : Net → Msg → Addr → Response → Act W Msg
  reply net req remote r h =
      if r.success
      then elim r.resp [
        | none ↦ (panicked, h)
        | some resp ↦ follow h.config.follow_cname_depth net req req.question remote resp h
      ]
      else (returned (failure_reply req), h)

  unfoldable pub do_request : Net → Msg → Addr → Act W Msg
  do_request net req remote = do r ← Handler.response_for env net req remote; reply net req remote r
