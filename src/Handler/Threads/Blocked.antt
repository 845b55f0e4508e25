-- ===== src/Handler/Threads/Blocked.antt =====
-- A blocked name among other requests (handler.go: responseFor, doRequest).
use leng.Prelude.{
  ℕ, zero, suc, ◌≡◌, refl, ap, ◌∙◌, Bool, true, false, not, ◌&&◌, Option, none, some, List, ◌∷◌,
  arith, if◌then◌else◌, Run, returned, panicked, any, comparable_text,
}
use leng.Dns.{Msg, Question, DnsLaws, rcode_success}
use leng.BlockCache
use leng.Config.{Config}
use leng.Handler
use leng.Handler.{Env, EventLoop, Response, Net, Addr, is_ip}
use leng.Handler.Answers.{blocked_response_for-answer}
use leng.Handler.Follow
use leng.Handler.Follow.{is_a, is_cname}
use leng.Handler.Follow.Blocked.{null_answer, null_answer_quiet, can_follow_quiet}
use leng.Handler.Threads
use leng.Handler.Threads.{Proc, bind}
use leng.Lcache.Threads as Calls
use leng.Lcache.Threads.{Thread, Outcome}
use leng.Lcache.{DefaultEntry, default_entry}

-- The states that the request finds before its steps.
abbrev pub Found : Type 0 → Type 0
Found W = ℕ → EventLoop W

module _ {W : Type 0} (env : Env W) where
  open env use {dns, matchers}

  module _ {A : Type 0} where
    -- What is left of a request after some of its steps.
    unfoldable pub after : Proc A → Found W → ℕ → Proc A
    after p f zero = p
    after p f (suc n) = after (Threads.advance env p (f 0)).0 (λ i. f (suc i)) n

    -- It has given its reply, or has panicked.
    abbrev pub is_ended : Proc A → Bool
    is_ended (Threads.done a) = true
    is_ended Threads.crash = true
    is_ended _ = false

  after_two :
      {A : Type 0} (p q r : Proc A) (f : Found W)
      → (Threads.advance env p (f 0)).0 ≡ q
      → (Threads.advance env q (f 1)).0 ≡ r
      → after p f 2 ≡ r
  unfolding after
  after_two p q r f a b = ap (λ x. (Threads.advance env x (f 1)).0) a ∙ b

  starts :
      (config : Config) (net : Net) (req : Msg) (remote : Addr) (ip : List ℕ)
      → Handler.remote_ip net remote ≡ returned ip
      → Threads.response_for env config net req remote
        ≡ Threads.ask_custom req (Threads.after_custom env config net req)
  unfolding Threads.response_for Threads.response_for_remote
  starts config net req remote ip r = ap (Threads.response_for_remote env config net req) r

  asked :
      (config : Config) (net : Net) (req : Msg) (q : Question) (qs : List Question)
      (h : EventLoop W)
      → h.custom_dns req ≡ returned none
      → req.question ≡ q ∷ qs
      → is_ip (Handler.is_ip_query q) ≡ true
      → (Threads.advance env (Threads.ask_custom req (Threads.after_custom env config net req)) h).0
        ≡ Threads.exists
            (Handler.print_question env q).qname
            (Threads.if_listed env config net req q)
  unfolding Threads.advance Threads.after_resolve Threads.after_custom Threads.answer_questions
  asked config net req q qs h c s i =
      ap (λ o. Threads.after_resolve o (Threads.after_custom env config net req)) c
      ∙ ap (Threads.answer_questions env config net req) s
      ∙ ap
          (λ b.
            if b
            then Threads.exists (Handler.print_question env q).qname
                (Threads.if_listed env config net req q)
            else Threads.if_listed env config net req q false)
          i

  told :
      (config : Config) (net : Net) (req : Msg) (q : Question) (h : EventLoop W)
      → h.leng_active ≡ true
      → BlockCache.exists matchers (Handler.print_question env q).qname h.block_cache ≡ true
      → (Threads.advance env
          (Threads.exists
            (Handler.print_question env q).qname
            (Threads.if_listed env config net req q))
          h).0
        ≡ Threads.if_listed env config net req q true
  unfolding Threads.advance Threads.is_listed
  told config net req q h a b = ap (Threads.if_listed env config net req q) (ground (arith, a, b))

  bind-after_resolve :
      {A B : Type 0} (o : Run (Option Msg)) (k : Option Msg → Proc A) (g : A → Proc B)
      → Threads.after_resolve o (λ x. bind (k x) g) ≡ bind (Threads.after_resolve o k) g
  unfolding Threads.after_resolve bind
  bind-after_resolve panicked k g = refl
  bind-after_resolve (returned x) k g = refl

  bind-resume_cache :
      {A B : Type 0} (t : Thread DefaultEntry) (k : Outcome DefaultEntry → Proc A) (g : A → Proc B)
      → Threads.resume_cache t (λ x. bind (k x) g) ≡ bind (Threads.resume_cache t k) g
  unfolding Threads.resume_cache bind
  bind-resume_cache (Calls.full_test key v) k g = refl
  bind-resume_cache (Calls.exists_test key v) k g = refl
  bind-resume_cache (Calls.clock_read key v) k g = refl
  bind-resume_cache (Calls.swap key e) k g = refl
  bind-resume_cache Calls.count_up k g = refl
  bind-resume_cache (Calls.load key) k g = refl
  bind-resume_cache (Calls.expiry_test key e) k g = refl
  bind-resume_cache (Calls.load_and_delete key o) k g = refl
  bind-resume_cache (Calls.count_down o) k g = refl
  bind-resume_cache (Calls.finished o) k g = refl

  bind-resume_neg :
      {A B : Type 0} (t : Thread DefaultEntry) (k : Outcome DefaultEntry → Proc A) (g : A → Proc B)
      → Threads.resume_neg t (λ x. bind (k x) g) ≡ bind (Threads.resume_neg t k) g
  unfolding Threads.resume_neg bind
  bind-resume_neg (Calls.full_test key v) k g = refl
  bind-resume_neg (Calls.exists_test key v) k g = refl
  bind-resume_neg (Calls.clock_read key v) k g = refl
  bind-resume_neg (Calls.swap key e) k g = refl
  bind-resume_neg Calls.count_up k g = refl
  bind-resume_neg (Calls.load key) k g = refl
  bind-resume_neg (Calls.expiry_test key e) k g = refl
  bind-resume_neg (Calls.load_and_delete key o) k g = refl
  bind-resume_neg (Calls.count_down o) k g = refl
  bind-resume_neg (Calls.finished o) k g = refl

  advance-bind :
      {A B : Type 0} (p : Proc A) (g : A → Proc B) (h : EventLoop W)
      → is_ended p ≡ false
      → (Threads.advance env (bind p g) h).0 ≡ bind (Threads.advance env p h).0 g
  unfolding Threads.advance bind
  advance-bind (Threads.done a) g h e = cc
  advance-bind Threads.crash g h e = refl
  advance-bind (Threads.ask_custom m k) g h e = bind-after_resolve (h.custom_dns m) k g
  advance-bind (Threads.exists n k) g h e = refl
  advance-bind (Threads.cache_step t k) g h e = bind-resume_cache _ k g
  advance-bind (Threads.neg_step t k) g h e = bind-resume_neg _ k g
  advance-bind (Threads.lookup net m k) g h e = refl
  advance-bind (Threads.spawn n m k) g h e = refl

  follow_stop :
      (config : Config) (rounds : ℕ) (net : Net) (req : Msg) (q : Question) (qs : List Question)
      (remote : Addr) (m : Msg)
      → (Follow.can_follow q m).1 ≡ false
      → Threads.follow env config rounds net req (q ∷ qs) remote m ≡ Threads.done m
  unfolding Threads.follow Threads.follow_cnames
  follow_stop config zero net req q qs remote m stop = refl
  follow_stop config (suc rounds) net req q qs remote m stop = rw (stop, Threads.follow_cnames) refl

  reply_resp :
      (config : Config) (net : Net) (req : Msg) (remote : Addr) (m : Msg) (blocked cached : Bool)
      → Threads.reply env config net req remote
          (record { resp = some m; success = true; blocked = blocked; cached = cached })
        ≡ Threads.follow env config config.follow_cname_depth net req req.question remote m
  unfolding Threads.reply Threads.follow_resp
  reply_resp config net req remote m blocked cached = refl

  -- What is left of a request once its name was found on the list.
  listed_reply :
      {B : Type 0} (config : Config) (net : Net) (req : Msg) (q : Question) (remote : Addr)
      (g : Response → Proc B)
      → bind (Threads.if_listed env config net req q true) g
        ≡ g (record {
          resp = some (
              dns.set_reply
                (Handler.blocked_response_for env config req q (Handler.is_ip_query q))
                req);
          success = true;
          blocked = true;
          cached = false;
        })
  unfolding bind Threads.if_listed Handler.reply_with
  listed_reply config net req q remote g = refl

  -- An address query that the custom records do not answer when they are asked, for a name that is
  -- blocked when the block list is asked, is replied to after two steps, whatever happens to the rest
  -- of the shared state meanwhile, so neither a cache nor an upstream server is asked: the reply has
  -- the request's id and the code NOERROR, and holds the configured null address, or no record if
  -- NXDOMAIN is configured.
  pub do_request_listed :
      (laws : DnsLaws dns) (config : Config) (net : Net) (req : Msg) (remote : Addr) (ip : List ℕ)
      (q : Question) (qs : List Question) (f : Found W)
      → Handler.remote_ip net remote ≡ returned ip
      → req.question ≡ q ∷ qs
      → is_ip (Handler.is_ip_query q) ≡ true
      → (f 0).custom_dns req ≡ returned none
      → (f 1).leng_active ≡ true
      → BlockCache.exists matchers (Handler.print_question env q).qname (f 1).block_cache ≡ true
      → (m : Msg) × (after (Threads.do_request env config net req remote) f 2 ≡ Threads.done m)
        × (m.id ≡ req.id)
        × (m.rcode ≡ rcode_success)
        × (m.answer ≡ null_answer env config q)
  unfolding Threads.do_request
  do_request_listed laws config net req remote ip q qs f r s i c a b =
      let m : Msg =
        dns.set_reply (Handler.blocked_response_for env config req q (Handler.is_ip_query q)) req in
      let e = laws.reply_answer _ _ ∙ blocked_response_for-answer env laws config req q in
      let g = Threads.reply env config net req remote in
      let quiet =
        can_follow_quiet env q m
          (ap (λ l. not (any is_a l) && any is_cname l) e ∙ null_answer_quiet env config q) in
      (
        m,
        ap (λ p. after (bind p g) f 2) (starts config net req remote ip r)
            ∙ after_two (bind (Threads.ask_custom req (Threads.after_custom env config net req)) g)
                _ _ f
                (advance-bind (Threads.ask_custom req (Threads.after_custom env config net req)) g
                    (f 0) refl
                  ∙ ap (λ p. bind p g) (asked config net req q qs (f 0) c s i))
                (advance-bind
                    (Threads.exists (Handler.print_question env q).qname
                      (Threads.if_listed env config net req q))
                    g (f 1) refl
                  ∙ ap (λ p. bind p g) (told config net req q (f 1) a b))
            ∙ listed_reply config net req q remote g
            ∙ reply_resp config net req remote m true false
            ∙ ap (λ l. Threads.follow env config config.follow_cname_depth net req l remote m) s
            ∙ follow_stop config config.follow_cname_depth net req q qs remote m quiet,
        laws.reply_id _ _,
        laws.reply_rcode _ _,
        e,
      )
