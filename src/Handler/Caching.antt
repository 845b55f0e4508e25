-- ===== src/Handler/Caching.antt =====
-- How `responseFor` uses the two caches (handler.go).
use leng.Prelude.{◌≡◌, refl, ◌∙◌, true, false, some, ok, err, returned, Text, comparable_text}
use leng.Dns.{Msg, Question, DnsLaws}
use leng.Lcache
use leng.Lcache.{LengCache, DefaultEntry, default_entry}
use leng.Lcache.Errors.{CacheError}
use leng.Handler
use leng.Handler.{Env, EventLoop, Response, Net, Addr, IpQuery, is_ip, failed}
use leng.Handler.Answers.{Reaches, response_for-question}

module _ {W : Type 0} (env : Env W) where
  open env use {dns, now}

  abbrev pub key_of : Question → Text
  key_of q = Handler.key_gen env (Handler.print_question env q)

  -- An address query that reaches the caches.
  pub record IsCacheable (net : Net) (req : Msg) (remote : Addr) (h : EventLoop W) (q : Question)
      : Type 0 where
    pub reaches : Reaches env net req remote h q
    pub unblocked : Handler.is_blocked env q h ≡ false
    pub ip : is_ip (Handler.is_ip_query q) ≡ true

  pub response_for-unblocked :
      (net : Net) (req : Msg) (remote : Addr) (h : EventLoop W) (q : Question)
      → Reaches env net req remote h q
      → Handler.is_blocked env q h ≡ false
      → Handler.response_for env net req remote h ≡ (
        returned (Handler.answer_unblocked env (key_of q) (Handler.is_ip_query q) net req h).0,
        (Handler.answer_unblocked env (key_of q) (Handler.is_ip_query q) net req h).1,
      )
  unfolding Handler.answer_question
  response_for-unblocked net req remote h q r free =
      response_for-question env net req remote h q r ∙ rw free refl

  -- Where the positive cache holds a fresh entry, that entry is the answer: nobody is asked, and the
  -- reply carries the id of the request that asks, not that of the one that was cached.
  response_for_cached :
      (laws : DnsLaws dns) (net : Net) (req : Msg) (remote : Addr) (h : EventLoop W) (q : Question)
      (entry : DefaultEntry)
      → IsCacheable net req remote h q
      → (Lcache.get (key_of q) (now h.world) h.cache).0 ≡ ok entry
      → (m : Msg) × (Handler.response_for env net req remote h ≡ (
        returned (record { resp = some m; success = true; blocked = false; cached = true }),
        record h { cache = (Lcache.get (key_of q) (now h.world) h.cache).1 },
      ))
        × (m.id ≡ req.id)
        × (m.answer ≡ entry.msg.answer)
  unfolding Handler.answer_unblocked Handler.consult_caches Handler.from_cache Handler.unless_cached
      Handler.reply_with
  response_for_cached laws net req remote h q entry c hit = (
    dns.set_reply (record entry.msg { id = req.id }) req,
    response_for-unblocked net req remote h q c.reaches c.unblocked
        ∙ rw c.ip (rw (hit, Handler.from_cache) refl),
    laws.reply_id _ _,
    laws.reply_answer _ _,
  )

  -- Where only the negative cache holds a fresh entry the request fails, and nobody is asked.
  pub response_for_neg_cached :
      (net : Net) (req : Msg) (remote : Addr) (h : EventLoop W) (q : Question) (e : CacheError)
      (entry : DefaultEntry)
      → IsCacheable net req remote h q
      → (Lcache.get (key_of q) (now h.world) h.cache).0 ≡ err e
      → (Lcache.get (key_of q) (now h.world) h.neg_cache).0 ≡ ok entry
      → Handler.response_for env net req remote h ≡ (
        returned (failed env true),
        record h {
          cache = (Lcache.get (key_of q) (now h.world) h.cache).1;
          neg_cache = (Lcache.get (key_of q) (now h.world) h.neg_cache).1;
        },
      )
  unfolding Handler.answer_unblocked Handler.consult_caches Handler.from_cache Handler.unless_cached
      Handler.from_neg_cache
  response_for_neg_cached net req remote h q e entry c miss hit =
      response_for-unblocked net req remote h q c.reaches c.unblocked
      ∙ rw c.ip (rw (miss, Handler.from_cache) (rw (hit, Handler.from_neg_cache) refl))

  -- Where neither does, the upstream servers are asked.
  pub response_for_missed :
      (net : Net) (req : Msg) (remote : Addr) (h : EventLoop W) (q : Question) (e e' : CacheError)
      → IsCacheable net req remote h q
      → (Lcache.get (key_of q) (now h.world) h.cache).0 ≡ err e
      → (Lcache.get (key_of q) (now h.world) h.neg_cache).0 ≡ err e'
      → (r : Response × EventLoop W) × (r
          ≡ Handler.ask_upstream env (key_of q) (Handler.is_ip_query q) net req (record h {
            cache = (Lcache.get (key_of q) (now h.world) h.cache).1;
            neg_cache = (Lcache.get (key_of q) (now h.world) h.neg_cache).1;
          }))
        × (Handler.response_for env net req remote h ≡ (returned r.0, r.1))
  unfolding Handler.answer_unblocked Handler.consult_caches Handler.from_cache Handler.unless_cached
      Handler.from_neg_cache
  response_for_missed net req remote h q e e' c miss miss' = (
    _,
    refl,
    response_for-unblocked net req remote h q c.reaches c.unblocked
        ∙ rw c.ip (rw (miss, Handler.from_cache) (rw (miss', Handler.from_neg_cache) refl)),
  )
