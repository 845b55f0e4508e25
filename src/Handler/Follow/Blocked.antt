-- ===== src/Handler/Follow/Blocked.antt =====
-- What `doRequest` writes for a blocked name (handler.go).
use leng.Prelude.{
  ℕ, zero, suc, ◌≡◌, refl, ap, ◌∙◌, Bool, true, false, not, ◌&&◌, some, List, [], ◌∷◌, arith,
  if◌then◌else◌, returned, any, comparable_text,
}
use leng.Dns.{Rr, Msg, Question, DnsLaws, rcode_success}
use leng.Config.{Config}
use leng.Handler
use leng.Handler.{Env, EventLoop, Response, Net, Addr, IpQuery}
use leng.Handler.Answers.{Reaches, blocked_reply, response_for_blocked}
use leng.Handler.Follow
use leng.Handler.Follow.{is_a, is_cname}
use leng.Handler.Follow.Replies.{>>=-step, follow_cnames_stop}

module _ {W : Type 0} (env : Env W) where
  open env use {dns}

  -- The records of a blocked answer.
  abbrev pub null_answer : Config → Question → List Rr
  null_answer config q =
      if config.blocking.nxdomain
      then []
      else Handler.null_record env config q (Handler.is_ip_query q)

  null_record_quiet :
      (config : Config) (q : Question) (ip : IpQuery)
      → (not (any is_a (Handler.null_record env config q ip))
          && any is_cname (Handler.null_record env config q ip))
        ≡ false
  unfolding Handler.null_record
  null_record_quiet config q IpQuery.not_ip_query = refl
  null_record_quiet config q IpQuery.ip4_query = refl
  null_record_quiet config q IpQuery.ip6_query = refl

  if_quiet :
      (nx : Bool) (l : List Rr)
      → (not (any is_a l) && any is_cname l) ≡ false
      → (not (any is_a (if nx then [] else l)) && any is_cname (if nx then [] else l)) ≡ false
  if_quiet true l h = refl
  if_quiet false l h = h

  pub null_answer_quiet :
      (config : Config) (q : Question)
      → (not (any is_a (null_answer config q)) && any is_cname (null_answer config q)) ≡ false
  null_answer_quiet config q =
      if_quiet config.blocking.nxdomain _ (null_record_quiet config q (Handler.is_ip_query q))

  pub can_follow_quiet :
      (q : Question) (m : Msg)
      → (not (any is_a m.answer) && any is_cname m.answer) ≡ false
      → (Follow.can_follow q m).1 ≡ false
  unfolding Follow.can_follow
  can_follow_quiet q m h = ground (arith, h)

  follow_stop :
      (rounds : ℕ) (net : Net) (req : Msg) (q : Question) (qs : List Question) (remote : Addr)
      (m : Msg) (h : EventLoop W)
      → (Follow.can_follow q m).1 ≡ false
      → Follow.follow env rounds net req (q ∷ qs) remote m h ≡ (returned m, h)
  unfolding Follow.follow
  follow_stop zero net req q qs remote m h s = refl
  follow_stop (suc rounds) net req q qs remote m h s =
      follow_cnames_stop env (suc rounds) net q remote m h s

  reply_resp :
      (net : Net) (req : Msg) (remote : Addr) (m : Msg) (blocked cached : Bool) (h : EventLoop W)
      → Follow.reply env net req remote
          (record { resp = some m; success = true; blocked = blocked; cached = cached })
          h
        ≡ Follow.follow env h.config.follow_cname_depth net req req.question remote m h
  unfolding Follow.reply
  reply_resp net req remote m blocked cached h = refl

  -- An address query for a blocked name, which no custom record answers, is replied to at once, and
  -- the state stays as it is: the reply has the request's id and the code NOERROR, and holds the
  -- configured null address, or no record if NXDOMAIN is configured. No CNAME is followed.
  pub do_request_blocked :
      (laws : DnsLaws dns) (net : Net) (req : Msg) (remote : Addr) (h : EventLoop W) (q : Question)
      → Reaches env net req remote h q
      → Handler.is_blocked env q h ≡ true
      → (Follow.do_request env net req remote h ≡ (returned (blocked_reply env h.config req q), h))
        × ((blocked_reply env h.config req q).id ≡ req.id)
        × ((blocked_reply env h.config req q).rcode ≡ rcode_success)
        × ((blocked_reply env h.config req q).answer ≡ null_answer h.config q)
  unfolding Follow.do_request
  do_request_blocked laws net req remote h q r hit =
      let m = blocked_reply env h.config req q in
      let (e, i, c, a) = response_for_blocked env laws net req remote h q r hit in
      let (qs, s) = r.asked in
      let quiet =
        can_follow_quiet q m
          (ap (λ l. not (any is_a l) && any is_cname l) a ∙ null_answer_quiet h.config q) in
      (
        >>=-step (Handler.response_for env net req remote) (Follow.reply env net req remote) h h _ e
            ∙ reply_resp net req remote m true false h
            ∙ ap (λ l. Follow.follow env h.config.follow_cname_depth net req l remote m h) s
            ∙ follow_stop h.config.follow_cname_depth net req q qs remote m h quiet,
        i,
        c,
        a,
      )
