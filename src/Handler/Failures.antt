-- ===== src/Handler/Failures.antt =====
-- How long a failed lookup stays failed (handler.go, with lcache/cache.go).
use leng.Prelude.{
  ℕ, ◌+◌, ◌*◌, ◌≤◌, ◌≡◌, refl, sym, ap, ◌∙◌, true, false, Option, none, some, arith,
  returned-injective, Result, ok, err, returned, is_positive, Text, comparable_text, to_lower,
}
use leng.Dns.{Msg, Question, new_msg}
use leng.Lcache
use leng.Lcache.{LengCache, LEntry, DefaultEntry, default_entry, second, max_uint32}
use leng.Lcache.Errors.{CacheError}
use leng.Lcache.Freshness.{get-set_deadline}
use leng.Handler
use leng.Handler.{Env, EventLoop, Response, Net, Addr, IpQuery, is_ip, failed}
use leng.Handler.Caching.{key_of, IsCacheable, response_for-unblocked, response_for_neg_cached}

-- `&lcache.DefaultEntry{}`
abbrev pub empty_entry : DefaultEntry
empty_entry = record { msg = new_msg }

-- `Get` and `Set` leave the bound alone.
get-max_size :
    (key : Text) (t : ℕ) (c : LengCache DefaultEntry) → (Lcache.get key t c).1.max_size ≡ c.max_size
unfolding Lcache.get Lcache.read_found Lcache.read_fresh Lcache.remove
get-max_size key t c = ground arith

-- An empty entry has no answer whose TTL bounds it, and is fresh for 2^32 - 1 seconds.
get-set_empty :
    (key key' : Text) (t t' : ℕ) (c : LengCache DefaultEntry)
    → is_positive c.max_size ≡ false
    → to_lower key' ≡ to_lower key
    → t' ≤ t + max_uint32 * second
    → (entry : DefaultEntry) × ((Lcache.get key' t' (Lcache.set key (some empty_entry) t c).1).0
        ≡ ok entry)
unfolding Lcache.min_ttl_for Lcache.min_ttl_from
get-set_empty key key' t t' c unbounded same soon = (
  empty_entry,
  get-set_deadline key key' empty_entry t t' c same
        (unfold Lcache.set Lcache.full in rw unbounded refl)
      ∙ ground arith,
)

module _ {W : Type 0} (env : Env W) where
  open env use {now}

  -- A negative cache into which the failure of a key was just written.
  pub record HasFailure (key : Text) (before after : EventLoop W) : Type 0 where
    pub cache : LengCache DefaultEntry
    pub written : after.neg_cache ≡ (Lcache.set key (some empty_entry) (now after.world) cache).1
    pub bound : cache.max_size ≡ before.neg_cache.max_size

  cache_failure-HasFailure :
      (key : Text) (h : EventLoop W) → HasFailure key h (Handler.cache_failure env key h)
  unfolding Handler.cache_failure
  cache_failure-HasFailure key h = record { cache = h.neg_cache; written = refl; bound = refl }

  after_lookup-failed :
      (key : Text) (ip : IpQuery) (req : Msg) (answer : Option Msg) (h : EventLoop W)
      → (Handler.after_lookup env key ip req answer h).0 ≡ failed env false
      → HasFailure key h (Handler.after_lookup env key ip req answer h).1
  unfolding Handler.after_lookup Handler.finish Handler.reply_with
  after_lookup-failed key ip req none h e = cache_failure-HasFailure key h
  after_lookup-failed key ip req (some resp) h e = cc

  retry_truncated-neg_cache :
      (net : Net) (req : Msg) (answer : Option Msg) (h : EventLoop W)
      → (Handler.retry_truncated env net req answer h).1.neg_cache ≡ h.neg_cache
  unfolding Handler.retry_truncated Handler.ask
  retry_truncated-neg_cache Net.udp req (some resp) h = ground arith
  retry_truncated-neg_cache Net.udp req none h = refl
  retry_truncated-neg_cache Net.tcp req answer h = refl
  retry_truncated-neg_cache Net.http req answer h = refl

  -- The state of the negative cache before the write does not matter but for its bound.
  rebase :
      (key : Text) (h h' after : EventLoop W)
      → h'.neg_cache.max_size ≡ h.neg_cache.max_size
      → HasFailure key h' after
      → HasFailure key h after
  rebase key h h' after e f = record { cache = f.cache; written = f.written; bound = f.bound ∙ e }

  ask_upstream-failed :
      (key : Text) (ip : IpQuery) (net : Net) (req : Msg) (h : EventLoop W)
      → (Handler.ask_upstream env key ip net req h).0 ≡ failed env false
      → HasFailure key h (Handler.ask_upstream env key ip net req h).1
  unfolding Handler.ask_upstream Handler.ask
  ask_upstream-failed key ip net req h e =
      rebase key h _ _
        (ap (λ (c : LengCache DefaultEntry). c.max_size) (retry_truncated-neg_cache net req _ _))
        (after_lookup-failed key ip req _ _ e)

  neg_missed-failed :
      (key : Text) (ip : IpQuery) (net : Net) (req : Msg) (n : Result CacheError DefaultEntry)
      (h : EventLoop W)
      → (Handler.unless_cached env key ip net req (Handler.from_neg_cache env n, h)).0
        ≡ failed env false
      → HasFailure key h
          (Handler.unless_cached env key ip net req (Handler.from_neg_cache env n, h)).1
  unfolding Handler.unless_cached Handler.from_neg_cache
  neg_missed-failed key ip net req (ok entry) h e = cc
  neg_missed-failed key ip net req (err x) h e = ask_upstream-failed key ip net req h e

  missed-failed :
      (key : Text) (ip : IpQuery) (net : Net) (req : Msg) (r : Result CacheError DefaultEntry)
      (h : EventLoop W)
      → (Handler.unless_cached env key ip net req (Handler.from_cache env key req r h)).0
        ≡ failed env false
      → HasFailure key h
          (Handler.unless_cached env key ip net req (Handler.from_cache env key req r h)).1
  unfolding Handler.from_cache
  missed-failed key ip net req (ok entry) h e =
      absurd (unfold Handler.unless_cached Handler.reply_with in cc)
  missed-failed key ip net req (err x) h e =
      rebase key h _ _ (get-max_size key (now h.world) h.neg_cache)
        (neg_missed-failed key ip net req _ _ e)

  answer_unblocked-failed :
      (key : Text) (ip : IpQuery) (net : Net) (req : Msg) (h : EventLoop W)
      → is_ip ip ≡ true
      → (Handler.answer_unblocked env key ip net req h).0 ≡ failed env false
      → HasFailure key h (Handler.answer_unblocked env key ip net req h).1
  unfolding Handler.answer_unblocked Handler.consult_caches
  answer_unblocked-failed key IpQuery.not_ip_query net req h yes_ip e = cc
  answer_unblocked-failed key IpQuery.ip4_query net req h yes_ip e =
      rebase key h _ _ refl (missed-failed key _ net req _ _ e)
  answer_unblocked-failed key IpQuery.ip6_query net req h yes_ip e =
      rebase key h _ _ refl (missed-failed key _ net req _ _ e)

  failure_found :
      (key key' : Text) (t' : ℕ) (h after h' : EventLoop W)
      → HasFailure key h after
      → is_positive h.neg_cache.max_size ≡ false
      → h'.neg_cache ≡ after.neg_cache
      → to_lower key' ≡ to_lower key
      → t' ≤ now after.world + max_uint32 * second
      → (entry : DefaultEntry) × ((Lcache.get key' t' h'.neg_cache).0 ≡ ok entry)
  failure_found key key' t' h after h' f unbounded kept same soon =
      let (entry, hit) =
        get-set_empty key key' (now after.world) t' f.cache (rw f.bound unbounded) same soon in
      (entry, ap (λ c. (Lcache.get key' t' c).0) (kept ∙ f.written) ∙ hit)

  failed_first :
      (net : Net) (req : Msg) (remote : Addr) (h : EventLoop W) (q : Question)
      → IsCacheable env net req remote h q
      → (Handler.response_for env net req remote h).0 ≡ returned (failed env false)
      → HasFailure (key_of env q) h (Handler.response_for env net req remote h).1
  failed_first net req remote h q c lost =
      let answer = response_for-unblocked env net req remote h q c.reaches c.unblocked in
      rw answer (
        answer_unblocked-failed (key_of env q) _ net req h c.ip
          (returned-injective (sym (ap (λ p. p.0) answer) ∙ lost)))

  -- With unbounded caches (the default), an address query that reached the upstream servers and
  -- failed makes every query with the same key fail for the next 2^32 - 1 seconds, about 136 years:
  -- as long as the negative cache is left alone and the positive cache does not hold the key, nobody
  -- is asked again.
  pub failure_sticks :
      (net net' : Net) (req req' : Msg) (remote remote' : Addr) (h h' : EventLoop W)
      (q q' : Question) (e : CacheError)
      → IsCacheable env net req remote h q
      → is_positive h.neg_cache.max_size ≡ false
      → (Handler.response_for env net req remote h).0 ≡ returned (failed env false)
      → h'.neg_cache ≡ (Handler.response_for env net req remote h).1.neg_cache
      → now h'.world ≤ now (Handler.response_for env net req remote h).1.world + max_uint32 * second
      → IsCacheable env net' req' remote' h' q'
      → key_of env q' ≡ key_of env q
      → (Lcache.get (key_of env q') (now h'.world) h'.cache).0 ≡ err e
      → ((Handler.response_for env net' req' remote' h').0 ≡ returned (failed env true))
        × ((Handler.response_for env net' req' remote' h').1.world ≡ h'.world)
  failure_sticks net net' req req' remote remote' h h' q q' e c unbounded lost kept soon c' same
        miss =
      let (entry, hit) =
        failure_found (key_of env q) (key_of env q') (now h'.world) h _ h'
          (failed_first net req remote h q c lost) unbounded kept (ap to_lower same) soon in
      let answer = response_for_neg_cached env net' req' remote' h' q' e entry c' miss hit in
      (ap (λ p. p.0) answer, ap (λ p. p.1.world) answer)
