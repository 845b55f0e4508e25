-- ===== src/Handler/Threads.antt =====
-- Requests that run side by side (handler.go: responseFor, doRequest and canFollow in the goroutines of
-- the error group). A request is a process: each access to what the event loop shares with other
-- requests is one step. The block list has a lock of its own. A call of a response cache takes the steps
-- that Lcache/Threads gives it. The configuration does not change.
pub mod Blocked
use leng.Prelude.{
  ℕ, zero, suc, Bool, true, false, not, ◌&&◌, Option, none, some, List, [], ◌∷◌, ◌++◌, nat_beq,
  if◌then◌else◌, ok, Run, returned, panicked, length, Text, comparable_text,
}
use leng.Dns.{Rr, Msg, Question, new_msg}
use leng.Lcache.Threads as Calls
use leng.Lcache.Threads.{Thread, Outcome}
use leng.Lcache.{DefaultEntry, default_entry}
use leng.BlockCache
use leng.Config.{Config}
use leng.Handler
use leng.Handler.{Env, EventLoop, Response, Net, Addr, IpQuery, is_ip}
use leng.Handler.Follow
use leng.Handler.Follow.{Act}

-- What is left of a request: its next access and how it goes on with the answer of that.
pub data Proc (A : Type 0) : Type 0 where
  done : A → Proc A
  crash : Proc A
  ask_custom : Msg → (Option Msg → Proc A) → Proc A
  exists : Text → (Bool → Proc A) → Proc A
  cache_step neg_step : Thread DefaultEntry → (Outcome DefaultEntry → Proc A) → Proc A
  lookup : Net → Msg → (Option Msg → Proc A) → Proc A
  spawn : Text → Msg → Proc A → Proc A

module _ {A B : Type 0} where
  unfoldable pub bind : Proc A → (A → Proc B) → Proc B
  bind (done a) f = f a
  bind crash f = crash
  bind (ask_custom m k) f = ask_custom m (λ x. bind (k x) f)
  bind (exists n k) f = exists n (λ x. bind (k x) f)
  bind (cache_step t k) f = cache_step t (λ x. bind (k x) f)
  bind (neg_step t k) f = neg_step t (λ x. bind (k x) f)
  bind (lookup net m k) f = lookup net m (λ x. bind (k x) f)
  bind (spawn n m k) f = spawn n m (bind k f)

module _ {A : Type 0} where
  unfoldable pub after_resolve : Run (Option Msg) → (Option Msg → Proc A) → Proc A
  after_resolve panicked k = crash
  after_resolve (returned x) k = k x

  -- A call of the positive or the negative cache goes on, or has returned.
  unfoldable pub resume_cache : Thread DefaultEntry → (Outcome DefaultEntry → Proc A) → Proc A
  resume_cache (Calls.finished o) k = k o
  resume_cache t k = cache_step t k

  unfoldable pub resume_neg : Thread DefaultEntry → (Outcome DefaultEntry → Proc A) → Proc A
  resume_neg (Calls.finished o) k = k o
  resume_neg t k = neg_step t k

  abbrev pub neg_set : Text → Proc A → Proc A
  neg_set key p = neg_step (Calls.begin (Calls.set key (some (record { msg = new_msg })))) (λ o. p)

module _ {W : Type 0} (env : Env W) where
  open env use {dns, matchers, now}

  -- lengActive and the block list
  unfoldable pub is_listed : Text → EventLoop W → Bool
  is_listed name h = h.leng_active && BlockCache.exists matchers name h.block_cache

  unfoldable pub leave_write : Text → Msg → EventLoop W → EventLoop W
  leave_write key m h = record h { spawned = h.spawned ++ (key, m) ∷ [] }

  module _ {A : Type 0} where
    -- One step of a request.
    unfoldable pub advance : Proc A → EventLoop W → Proc A × EventLoop W
    advance (done a) h = (done a, h)
    advance crash h = (crash, h)
    advance (ask_custom m k) h = (after_resolve (h.custom_dns m) k, h)
    advance (exists n k) h = (k (is_listed n h), h)
    advance (cache_step t k) h =
        let (t', c) = Calls.advance (now h.world) t h.cache in
        (resume_cache t' k, record h { cache = c })
    advance (neg_step t k) h =
        let (t', c) = Calls.advance (now h.world) t h.neg_cache in
        (resume_neg t' k, record h { neg_cache = c })
    advance (lookup net m k) h = let (x, h') = Handler.ask env net m h in (k x, h')
    advance (spawn n m k) h = (k, leave_write n m h)

  -- `responseFor`, from the upstream answer back to its start
  unfoldable pub after_lookup : Text → IpQuery → Msg → Option Msg → Proc Response
  after_lookup key ip req none = neg_set key (done (Handler.failed env false))
  after_lookup key ip req (some resp) =
      let r = done (Handler.reply_with env req resp false false) in
      if is_ip ip && not (nat_beq (length resp.answer) 0) then spawn key resp r else r

  unfoldable pub retry_truncated : Text → IpQuery → Net → Msg → Option Msg → Proc Response
  retry_truncated key ip Net.udp req (some resp) =
      if resp.truncated
      then lookup Net.tcp req (after_lookup key ip req)
      else after_lookup key ip req (some resp)
  retry_truncated key ip net req answer = after_lookup key ip req answer

  unfoldable pub ask_upstream : Text → IpQuery → Net → Msg → Proc Response
  ask_upstream key ip net req = lookup net req (retry_truncated key ip net req)

  unfoldable pub from_neg_cache : Text → IpQuery → Net → Msg → Outcome DefaultEntry → Proc Response
  from_neg_cache key ip net req (Calls.was_got (ok entry)) = done (Handler.failed env true)
  from_neg_cache key ip net req _ = ask_upstream key ip net req

  unfoldable pub from_cache : Text → IpQuery → Net → Msg → Outcome DefaultEntry → Proc Response
  from_cache key ip net req (Calls.was_got (ok entry)) =
      done (Handler.reply_with env req (record entry.msg { id = req.id }) false true)
  from_cache key ip net req _ =
      neg_step (Calls.begin (Calls.get key)) (from_neg_cache key ip net req)

  unfoldable pub answer_unblocked : Text → IpQuery → Net → Msg → Proc Response
  answer_unblocked key ip net req =
      if is_ip ip
      then cache_step (Calls.begin (Calls.get key)) (from_cache key ip net req)
      else ask_upstream key ip net req

  unfoldable pub if_listed : Config → Net → Msg → Question → Bool → Proc Response
  if_listed config net req q true = done (
      Handler.reply_with env req
        (Handler.blocked_response_for env config req q (Handler.is_ip_query q)) true false)
  if_listed config net req q false =
      answer_unblocked (Handler.key_gen env (Handler.print_question env q)) (Handler.is_ip_query q)
        net req

  unfoldable pub answer_questions : Config → Net → Msg → List Question → Proc Response
  answer_questions config net req [] = done (Handler.failed env false)
  answer_questions config net req (q ∷ qs) =
      if is_ip (Handler.is_ip_query q)
      then exists (Handler.print_question env q).qname (if_listed config net req q)
      else if_listed config net req q false

  unfoldable pub after_custom : Config → Net → Msg → Option Msg → Proc Response
  after_custom config net req (some custom) =
      done (record { resp = some custom; success = true; blocked = false; cached = true })
  after_custom config net req none = answer_questions config net req req.question

  unfoldable pub response_for_remote : Config → Net → Msg → Run (List ℕ) → Proc Response
  response_for_remote config net req panicked = crash
  response_for_remote config net req (returned ip) = ask_custom req (after_custom config net req)

  unfoldable pub response_for : Config → Net → Msg → Addr → Proc Response
  response_for config net req remote =
      response_for_remote config net req (Handler.remote_ip net remote)

  -- `doRequest`
  unfoldable pub answers_of : Option Msg → Proc (List Rr)
  answers_of none = crash
  answers_of (some m) = done m.answer

  unfoldable pub follow_targets :
      Config → Net → Question → Addr → List Text → List Rr → Proc (List Rr)
  follow_targets config net q remote [] answers = done answers
  follow_targets config net q remote (target ∷ targets) answers =
      bind (response_for config net (dns.set_question new_msg target q.qtype) remote) λ r.
        bind (answers_of r.resp) λ found.
          follow_targets config net q remote targets
            (Follow.add_followed env r.success answers found)

  unfoldable pub follow_cnames : Config → ℕ → Net → Question → Addr → Msg → Proc Msg
  follow_cnames config zero net q remote resp = done resp
  follow_cnames config (suc rounds) net q remote resp = elim (Follow.can_follow q resp).1 [
    | false ↦ done resp
    | true ↦
        bind (follow_targets config net q remote (Follow.can_follow q resp).0 resp.answer)
          λ answers. follow_cnames config rounds net q remote (record resp { answer = answers })
  ]

  unfoldable pub follow : Config → ℕ → Net → Msg → List Question → Addr → Msg → Proc Msg
  follow config zero net req qs remote resp = done resp
  follow config (suc rounds) net req [] remote resp = crash
  follow config (suc rounds) net req (q ∷ qs) remote resp =
      follow_cnames config (suc rounds) net q remote resp

  unfoldable pub follow_resp : Config → Net → Msg → Addr → Option Msg → Proc Msg
  follow_resp config net req remote none = crash
  follow_resp config net req remote (some resp) =
      follow config config.follow_cname_depth net req req.question remote resp

  unfoldable pub reply : Config → Net → Msg → Addr → Response → Proc Msg
  reply config net req remote r =
      if r.success
      then follow_resp config net req remote r.resp
      else done (Follow.failure_reply env req)

  unfoldable pub do_request : Config → Net → Msg → Addr → Proc Msg
  do_request config net req remote =
      bind (response_for config net req remote) (reply config net req remote)
