-- ===== src/Handler/Answers.antt =====
-- What `responseFor` answers, path by path (handler.go).
use leng.Prelude.{
  ℕ, ◌≡◌, refl, ap, ◌∙◌, true, false, none, some, List, [], ◌∷◌, arith, if◌then◌else◌, returned,
  comparable_text,
}
use leng.Dns.{Msg, Question, DnsLaws, new_msg, rcode_name_error, rcode_success}
use leng.Config.{Config}
use leng.Lcache.{default_entry}
use leng.Handler
use leng.Handler.{Env, EventLoop, Response, Net, Addr, IpQuery, is_ip}

module _ {W : Type 0} (env : Env W) where
  open env use {dns}

  -- A request with a valid remote address that no custom record answers.
  pub record Reaches (net : Net) (req : Msg) (remote : Addr) (h : EventLoop W) (q : Question)
      : Type 0 where
    pub address : (ip : List ℕ) × (Handler.remote_ip net remote ≡ returned ip)
    pub not_custom : h.custom_dns req ≡ returned none
    pub asked : (qs : List Question) × (req.question ≡ q ∷ qs)

  response_for_not_custom :
      (net : Net) (req : Msg) (remote : Addr) (h : EventLoop W) (ip : List ℕ)
      → Handler.remote_ip net remote ≡ returned ip
      → h.custom_dns req ≡ returned none
      → Handler.response_for env net req remote h ≡ (
        returned (Handler.answer_questions env net req req.question h).0,
        (Handler.answer_questions env net req req.question h).1,
      )
  unfolding Handler.response_for Handler.response_for_remote Handler.after_custom
  response_for_not_custom net req remote h ip address none_found =
      rw (address, Handler.response_for_remote) (rw (none_found, Handler.after_custom) refl)

  first_question :
      (net : Net) (req : Msg) (h : EventLoop W) (q : Question) (qs : List Question)
      → req.question ≡ q ∷ qs
      → Handler.answer_questions env net req req.question h
        ≡ Handler.answer_question env net req q h
  unfolding Handler.answer_questions
  first_question net req h q qs asked = ap (λ l. Handler.answer_questions env net req l h) asked

  -- Such a request is answered by its first question.
  pub response_for-question :
      (net : Net) (req : Msg) (remote : Addr) (h : EventLoop W) (q : Question)
      → Reaches net req remote h q
      → Handler.response_for env net req remote h ≡ (
        returned (Handler.answer_question env net req q h).0,
        (Handler.answer_question env net req q h).1,
      )
  response_for-question net req remote h q r =
      response_for_not_custom net req remote h r.address.0 r.address.1 r.not_custom
      ∙ ap (λ a. (returned a.0, a.1)) (first_question net req h q r.asked.0 r.asked.1)

  -- The custom records come before the block list, the caches and the upstream servers: a message
  -- that they answer is returned as it is, and nothing changes.
  response_for_custom :
      (net : Net) (req custom : Msg) (remote : Addr) (h : EventLoop W) (ip : List ℕ)
      → Handler.remote_ip net remote ≡ returned ip
      → h.custom_dns req ≡ returned (some custom)
      → Handler.response_for env net req remote h ≡ (
        returned (record { resp = some custom; success = true; blocked = false; cached = true }),
        h,
      )
  unfolding Handler.response_for Handler.response_for_remote Handler.after_custom
  response_for_custom net req custom remote h ip address answered =
      rw (address, Handler.response_for_remote) (rw (answered, Handler.after_custom) refl)

  pub blocked_response_for-answer :
      (laws : DnsLaws dns) (config : Config) (req : Msg) (q : Question)
      → (Handler.blocked_response_for env config req q (Handler.is_ip_query q)).answer ≡ (
          if config.blocking.nxdomain
          then []
          else Handler.null_record env config q (Handler.is_ip_query q))
  unfolding Handler.blocked_response_for
  blocked_response_for-answer laws config req q =
      ground (arith, laws.rcode_answer new_msg req rcode_name_error)

  -- The reply to a blocked query.
  abbrev pub blocked_reply : Config → Msg → Question → Msg
  blocked_reply config req q =
      dns.set_reply (Handler.blocked_response_for env config req q (Handler.is_ip_query q)) req

  -- An address query for a blocked name is answered without the caches or the upstream servers, and
  -- changes nothing: the reply holds the configured null address, or no record if NXDOMAIN is
  -- configured. In both cases its response code is NOERROR: `SetReply` writes over NXDOMAIN.
  pub response_for_blocked :
      (laws : DnsLaws dns) (net : Net) (req : Msg) (remote : Addr) (h : EventLoop W) (q : Question)
      → Reaches net req remote h q
      → Handler.is_blocked env q h ≡ true
      → (Handler.response_for env net req remote h ≡ (
        returned (record {
          resp = some (blocked_reply h.config req q);
          success = true;
          blocked = true;
          cached = false;
        }),
        h,
      ))
        × ((blocked_reply h.config req q).id ≡ req.id)
        × ((blocked_reply h.config req q).rcode ≡ rcode_success)
        × ((blocked_reply h.config req q).answer ≡ (
            if h.config.blocking.nxdomain
            then []
            else Handler.null_record env h.config q (Handler.is_ip_query q)))
  unfolding Handler.answer_question Handler.reply_with
  response_for_blocked laws net req remote h q r hit = (
    response_for-question net req remote h q r ∙ rw hit refl,
    laws.reply_id _ _,
    laws.reply_rcode _ _,
    laws.reply_answer _ _ ∙ blocked_response_for-answer laws h.config req q,
  )
