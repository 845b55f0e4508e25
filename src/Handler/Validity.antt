-- ===== src/Handler/Validity.antt =====
-- A request keeps both caches valid, on every path (handler.go).
use leng.Prelude.{
  ℕ, zero, suc, inl, inr, not, ◌&&◌, Option, none, some, List, [], ◌∷◌, nat_beq, Bool-cases,
  Option-cases, Result, ok, err, Run, returned, panicked, length, Text, comparable_text,
}
use leng.Dns.{Rr, Msg, Question, new_msg}
use leng.Lcache.{DefaultEntry, default_entry}
use leng.Lcache.Errors.{CacheError}
use leng.Lcache.Validity.{IsValid, get-IsValid, set-IsValid}
use leng.Handler
use leng.Handler.{Env, EventLoop, Response, Net, Addr, IpQuery, is_ip}
use leng.Handler.Follow
use leng.Handler.Follow.{Act}

-- Both caches keep their invariant.
pub record CachesValid {W : Type 0} (h : EventLoop W) : Type 0 where
  pub cache : IsValid h.cache
  pub neg_cache : IsValid h.neg_cache

module _ {W : Type 0} (env : Env W) where
  open env use {dns, now}

  after_lookup-CachesValid :
      (key : Text) (ip : IpQuery) (req : Msg) (answer : Option Msg) (h : EventLoop W)
      → CachesValid h
      → CachesValid (Handler.after_lookup env key ip req answer h).1
  unfolding Handler.after_lookup Handler.cache_failure Handler.finish
  after_lookup-CachesValid key ip req none h v = record {
    cache = v.cache;
    neg_cache = set-IsValid key _ (now h.world) h.neg_cache v.neg_cache;
  }
  after_lookup-CachesValid key ip req (some resp) h v =
      elim (Bool-cases (is_ip ip && not (nat_beq (length resp.answer) 0))) [
        | inl kept ↦ rw kept (record { cache = v.cache; neg_cache = v.neg_cache })
        | inr empty ↦ rw empty v
      ]

  retry_truncated-CachesValid :
      (net : Net) (req : Msg) (answer : Option Msg) (h : EventLoop W)
      → CachesValid h
      → CachesValid (Handler.retry_truncated env net req answer h).1
  unfolding Handler.retry_truncated Handler.ask
  retry_truncated-CachesValid Net.udp req (some resp) h v = elim (Bool-cases resp.truncated) [
    | inl again ↦ rw again (record { cache = v.cache; neg_cache = v.neg_cache })
    | inr once ↦ rw once v
  ]
  retry_truncated-CachesValid Net.udp req none h v = v
  retry_truncated-CachesValid Net.tcp req answer h v = v
  retry_truncated-CachesValid Net.http req answer h v = v

  ask_upstream-CachesValid :
      (key : Text) (ip : IpQuery) (net : Net) (req : Msg) (h : EventLoop W)
      → CachesValid h
      → CachesValid (Handler.ask_upstream env key ip net req h).1
  unfolding Handler.ask_upstream Handler.ask
  ask_upstream-CachesValid key ip net req h v = after_lookup-CachesValid key ip req _ _ (
      retry_truncated-CachesValid net req _ _ (record { cache = v.cache; neg_cache = v.neg_cache }))

  neg_missed-CachesValid :
      (key : Text) (ip : IpQuery) (net : Net) (req : Msg) (n : Result CacheError DefaultEntry)
      (h : EventLoop W)
      → CachesValid h
      → CachesValid (Handler.unless_cached env key ip net req (Handler.from_neg_cache env n, h)).1
  unfolding Handler.unless_cached Handler.from_neg_cache
  neg_missed-CachesValid key ip net req (ok entry) h v = v
  neg_missed-CachesValid key ip net req (err e) h v = ask_upstream-CachesValid key ip net req h v

  missed-CachesValid :
      (key : Text) (ip : IpQuery) (net : Net) (req : Msg) (r : Result CacheError DefaultEntry)
      (h : EventLoop W)
      → CachesValid h
      → CachesValid
          (Handler.unless_cached env key ip net req (Handler.from_cache env key req r h)).1
  unfolding Handler.from_cache
  missed-CachesValid key ip net req (ok entry) h v = unfold Handler.unless_cached in v
  missed-CachesValid key ip net req (err e) h v =
      neg_missed-CachesValid key ip net req _ _ (record {
        cache = v.cache;
        neg_cache = get-IsValid key (now h.world) h.neg_cache v.neg_cache;
      })

  answer_unblocked-CachesValid :
      (key : Text) (ip : IpQuery) (net : Net) (req : Msg) (h : EventLoop W)
      → CachesValid h
      → CachesValid (Handler.answer_unblocked env key ip net req h).1
  unfolding Handler.answer_unblocked Handler.consult_caches
  answer_unblocked-CachesValid key IpQuery.not_ip_query net req h v =
      ask_upstream-CachesValid key _ net req h v
  answer_unblocked-CachesValid key ip net req h v =
      missed-CachesValid key _ net req _ _
        (record { cache = get-IsValid key (now h.world) h.cache v.cache; neg_cache = v.neg_cache })

  answer_questions-CachesValid :
      (net : Net) (req : Msg) (qs : List Question) (h : EventLoop W)
      → CachesValid h
      → CachesValid (Handler.answer_questions env net req qs h).1
  unfolding Handler.answer_questions Handler.answer_question
  answer_questions-CachesValid net req [] h v = v
  answer_questions-CachesValid net req (q ∷ qs) h v =
      elim (Bool-cases (Handler.is_blocked env q h)) [
        | inl hit ↦ rw hit v
        | inr free ↦ rw free (answer_unblocked-CachesValid _ _ net req h v)
      ]

  after_custom-CachesValid :
      (net : Net) (req : Msg) (custom : Run (Option Msg)) (h : EventLoop W)
      → CachesValid h
      → CachesValid (Handler.after_custom env net req custom h).1
  unfolding Handler.after_custom
  after_custom-CachesValid net req panicked h v = v
  after_custom-CachesValid net req (returned (some custom)) h v = v
  after_custom-CachesValid net req (returned none) h v =
      answer_questions-CachesValid net req req.question h v

  response_for_remote-CachesValid :
      (net : Net) (req : Msg) (ip : Run (List ℕ)) (h : EventLoop W)
      → CachesValid h
      → CachesValid (Handler.response_for_remote env net req ip h).1
  unfolding Handler.response_for_remote
  response_for_remote-CachesValid net req panicked h v = v
  response_for_remote-CachesValid net req (returned ip) h v =
      after_custom-CachesValid net req (h.custom_dns req) h v

  pub response_for-CachesValid :
      (net : Net) (req : Msg) (remote : Addr) (h : EventLoop W)
      → CachesValid h
      → CachesValid (Handler.response_for env net req remote h).1
  unfolding Handler.response_for
  response_for-CachesValid net req remote h v =
      response_for_remote-CachesValid net req (Handler.remote_ip net remote) h v

  continue-CachesValid :
      {A B : Type 0} (r : Run A × EventLoop W) (f : A → Act W B)
      → CachesValid r.1
      → ((a : A) (h : EventLoop W) → CachesValid h → CachesValid (f a h).1)
      → CachesValid (Follow.continue r f).1
  unfolding Follow.continue
  continue-CachesValid (panicked, h) f v k = v
  continue-CachesValid (returned a, h) f v k = k a h v

  answers_of-CachesValid :
      (o : Option Msg) (h : EventLoop W) → CachesValid h → CachesValid (Follow.answers_of o h).1
  unfolding Follow.answers_of
  answers_of-CachesValid none h v = v
  answers_of-CachesValid (some m) h v = v

  follow_targets-CachesValid :
      (net : Net) (q : Question) (remote : Addr) (targets : List Text) (answers : List Rr)
      (h : EventLoop W)
      → CachesValid h
      → CachesValid (Follow.follow_targets env net q remote targets answers h).1
  unfolding Follow.follow_targets
  follow_targets-CachesValid net q remote [] answers h v = v
  follow_targets-CachesValid net q remote (t ∷ targets) answers h v =
      continue-CachesValid
        (Handler.response_for env net (dns.set_question new_msg t q.qtype) remote h) _
        (response_for-CachesValid net _ remote h v)
        (λ r h1 v1.
          continue-CachesValid (Follow.answers_of r.resp h1) _ (answers_of-CachesValid r.resp h1 v1)
            (λ found h2 v2. follow_targets-CachesValid net q remote targets _ h2 v2))

  follow_cnames-CachesValid :
      (rounds : ℕ) (net : Net) (q : Question) (remote : Addr) (resp : Msg) (h : EventLoop W)
      → CachesValid h
      → CachesValid (Follow.follow_cnames env rounds net q remote resp h).1
  unfolding Follow.follow_cnames
  follow_cnames-CachesValid zero net q remote resp h v = v
  follow_cnames-CachesValid (suc rounds) net q remote resp h v =
      elim (Bool-cases (Follow.can_follow q resp).1) [
        | inr stop ↦ rw (stop, Follow.follow_cnames) v
        | inl go ↦
            rw (go, Follow.follow_cnames)
              (continue-CachesValid
                (Follow.follow_targets env net q remote (Follow.can_follow q resp).0 resp.answer h)
                _ (follow_targets-CachesValid net q remote _ resp.answer h v)
                (λ answers h1 v1. follow_cnames-CachesValid rounds net q remote _ h1 v1))
      ]

  follow-CachesValid :
      (rounds : ℕ) (net : Net) (req : Msg) (qs : List Question) (remote : Addr) (resp : Msg)
      (h : EventLoop W)
      → CachesValid h
      → CachesValid (Follow.follow env rounds net req qs remote resp h).1
  unfolding Follow.follow
  follow-CachesValid zero net req qs remote resp h v = v
  follow-CachesValid (suc rounds) net req [] remote resp h v = v
  follow-CachesValid (suc rounds) net req (q ∷ qs) remote resp h v =
      follow_cnames-CachesValid (suc rounds) net q remote resp h v

  reply-CachesValid :
      (net : Net) (req : Msg) (remote : Addr) (r : Response) (h : EventLoop W)
      → CachesValid h
      → CachesValid (Follow.reply env net req remote r h).1
  unfolding Follow.reply
  reply-CachesValid net req remote r h v = elim (Bool-cases r.success) [
    | inr lost ↦ rw lost v
    | inl won ↦ elim (Option-cases r.resp) [
      | inl nil ↦ rw won (rw (nil, Follow.reply) v)
      | inr (resp, held) ↦
          rw won
            (rw (held, Follow.reply) (follow-CachesValid _ net req req.question remote resp h v))
    ]
  ]

  -- A whole request, with all that it follows, keeps both caches valid.
  pub do_request-CachesValid :
      (net : Net) (req : Msg) (remote : Addr) (h : EventLoop W)
      → CachesValid h
      → CachesValid (Follow.do_request env net req remote h).1
  unfolding Follow.do_request
  do_request-CachesValid net req remote h v =
      continue-CachesValid (Handler.response_for env net req remote h) _
        (response_for-CachesValid net req remote h v)
        (λ r h1 v1. reply-CachesValid net req remote r h1 v1)
