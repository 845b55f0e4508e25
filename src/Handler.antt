-- ===== src/Handler.antt =====
-- The event loop of handler.go: how one request is answered from the custom records, the block
-- list, the two caches and the upstream servers, and how CNAME records are followed. A request is
-- one call; the caches' writes that the code leaves to a goroutine are kept in `spawned` until a
-- step of the loop performs them. Logging and metrics are left out.
pub mod Follow
pub mod Answers
pub mod Caching
pub mod Failures
pub mod Validity
pub mod Reach
pub mod Threads
use leng.Prelude.{
  ℕ, Bool, true, false, not, ◌&&◌, Option, none, some, List, [], ◌∷◌, ◌++◌, nat_beq, if◌then◌else◌,
  Result, ok, err, Run, returned, panicked, length, Text, bytes, comparable_text,
}
use leng.Dns.{
  Rr, Msg, Question, DnsLib, RData, new_msg, type_a, type_aaaa, class_inet, rcode_name_error,
}
use leng.Lcache
use leng.Lcache.{LengCache, DefaultEntry, default_entry}
use leng.Lcache.Errors.{CacheError}
use leng.BlockCache
use leng.BlockCache.{MemoryBlockCache, Matchers}
use leng.Config.{Config}

-- The transport a request came by.
pub data Net : Type 0 where
  udp tcp http : Net

-- net.Addr: *net.TCPAddr or *net.UDPAddr
pub data Addr : Type 0 where
  tcp_addr : List ℕ → Addr
  udp_addr : List ℕ → Addr

pub data IpQuery : Type 0 where
  not_ip_query ip4_query ip6_query : IpQuery

-- The printed question, from which the caches' keys are made.
pub record PrintedQuestion : Type 0 where
  pub qname : Text
  pub qtype : Text
  pub qclass : Text

unfoldable pub question_string : PrintedQuestion → Text
question_string q = q.qname ++ bytes " " ++ q.qclass ++ bytes " " ++ q.qtype

-- What the handler calls outside: package dns, the matchers of the block list, the hex digest of
-- `KeyGen`, net.ParseIP, the wall clock and the upstream lookup, the
-- last of which may change the world.
pub record Env (W : Type 0) : Type 0 where
  pub dns : DnsLib
  pub matchers : Matchers
  pub md5_hex : Text → Text
  pub parse_ip : Text → List ℕ
  pub now : W → ℕ
  pub lookup_upstream : Net → Msg → Config → W → Option Msg × W

pub record EventLoop (W : Type 0) : Type 0 where
  pub cache : LengCache DefaultEntry
  pub neg_cache : LengCache DefaultEntry
  pub leng_active : Bool
  pub config : Config
  pub block_cache : MemoryBlockCache
  -- `customDns.Resolve`
  pub custom_dns : Msg → Run (Option Msg)
  pub spawned : List (Text × Msg)
  pub world : W

-- The four results of `responseFor`.
pub record Response : Type 0 where
  pub resp : Option Msg
  pub success : Bool
  pub blocked : Bool
  pub cached : Bool

unfoldable pub is_ip_query : Question → IpQuery
is_ip_query q =
    if not (nat_beq q.qclass class_inet)
    then not_ip_query
    else if nat_beq q.qtype type_a
    then ip4_query
    else if nat_beq q.qtype type_aaaa
    then ip6_query
    else not_ip_query

abbrev pub is_ip : IpQuery → Bool
is_ip not_ip_query = false
is_ip _ = true

-- s[:len(s)-1]
unfoldable pub drop_last : Text → Text
drop_last [] = []
drop_last (c ∷ []) = []
drop_last (c ∷ c' ∷ s) = c ∷ drop_last (c' ∷ s)

unfoldable pub un_fqdn : DnsLib → Text → Text
un_fqdn d s = if d.is_fqdn s then drop_last s else s

-- `remote`: the type assertion on the remote address.
unfoldable pub remote_ip : Net → Addr → Run (List ℕ)
remote_ip udp (udp_addr ip) = returned ip
remote_ip udp (tcp_addr ip) = panicked
remote_ip net (tcp_addr ip) = returned ip
remote_ip net (udp_addr ip) = panicked

module _ {W : Type 0} (env : Env W) where
  open env use {dns, matchers, md5_hex, parse_ip, now, lookup_upstream}

  unfoldable pub print_question : Question → PrintedQuestion
  print_question q = record {
    qname = un_fqdn dns q.name;
    qtype = dns.type_to_string q.qtype;
    qclass = dns.class_to_string q.qclass;
  }

  -- cache.go, `KeyGen`
  unfoldable pub key_gen : PrintedQuestion → Text
  key_gen q = md5_hex (question_string q)

  -- The record of a blocked answer.
  unfoldable pub null_record : Config → Question → IpQuery → List Rr
  null_record config q not_ip_query = []
  null_record config q ip4_query =
      record {
        name = q.name;
        rrtype = type_a;
        class = class_inet;
        ttl = config.ttl;
        rdata = RData.a (parse_ip config.blocking.nullroute);
      }
      ∷ []
  null_record config q ip6_query =
      record {
        name = q.name;
        rrtype = type_aaaa;
        class = class_inet;
        ttl = config.ttl;
        rdata = RData.aaaa (parse_ip config.blocking.nullroutev6);
      }
      ∷ []

  unfoldable pub blocked_response_for : Config → Msg → Question → IpQuery → Msg
  blocked_response_for config req q ip_query =
      if config.blocking.nxdomain
      then dns.set_rcode new_msg req rcode_name_error
      else record new_msg { answer = null_record config q ip_query }

  -- The deferred `resp.SetReply(req)`.
  unfoldable pub reply_with : Msg → Msg → Bool → Bool → Response
  reply_with req msg blocked cached = record {
    resp = some (dns.set_reply msg req);
    success = true;
    blocked = blocked;
    cached = cached;
  }

  abbrev pub failed : Bool → Response
  failed blocked = record { resp = none; success = false; blocked = blocked; cached = false }

  -- h.negCache.Set(key, &lcache.DefaultEntry{}), whose error is only logged
  unfoldable pub cache_failure : Text → EventLoop W → EventLoop W
  cache_failure key h = record h {
    neg_cache = (Lcache.set key (some (record { msg = new_msg })) (now h.world) h.neg_cache).1;
  }

  -- The end of `responseFor`: the answer is left to a goroutine to cache.
  unfoldable pub finish : Text → IpQuery → Msg → Msg → EventLoop W → Response × EventLoop W
  finish key ip_query req resp h = (
    reply_with req resp false false,
    if is_ip ip_query && not (nat_beq (length resp.answer) 0)
        then record h { spawned = h.spawned ++ (key, resp) ∷ [] }
        else h,
  )

  unfoldable pub after_lookup :
      Text → IpQuery → Msg → Option Msg → EventLoop W → Response × EventLoop W
  after_lookup key ip_query req none h = (failed false, cache_failure key h)
  after_lookup key ip_query req (some resp) h = finish key ip_query req resp h

  -- h.resolver.Lookup
  unfoldable pub ask : Net → Msg → EventLoop W → Option Msg × EventLoop W
  ask net req h =
      let (answer, w) = lookup_upstream net req h.config h.world in (answer, record h { world = w })

  -- A truncated answer over UDP is asked for once more over TCP.
  unfoldable pub retry_truncated : Net → Msg → Option Msg → EventLoop W → Option Msg × EventLoop W
  retry_truncated udp req (some resp) h = if resp.truncated then ask tcp req h else (some resp, h)
  retry_truncated net req answer h = (answer, h)

  unfoldable pub ask_upstream : Text → IpQuery → Net → Msg → EventLoop W → Response × EventLoop W
  ask_upstream key ip_query net req h =
      let (first, h1) = ask net req h in
      let (answer, h2) = retry_truncated net req first h1 in after_lookup key ip_query req answer h2

  -- The lookups in the two caches; `none` means that neither answers.
  unfoldable pub from_neg_cache : Result CacheError DefaultEntry → Option Response
  from_neg_cache (err e) = none
  from_neg_cache (ok entry) = some (failed true)

  unfoldable pub from_cache :
      Text → Msg → Result CacheError DefaultEntry → EventLoop W → Option Response × EventLoop W
  from_cache key req (ok entry) h =
      (some (reply_with req (record entry.msg { id = req.id }) false true), h)
  from_cache key req (err e) h =
      let (entry, neg) = Lcache.get key (now h.world) h.neg_cache in
      (from_neg_cache entry, record h { neg_cache = neg })

  unfoldable pub consult_caches : Text → Msg → EventLoop W → Option Response × EventLoop W
  consult_caches key req h =
      let (entry, cache) = Lcache.get key (now h.world) h.cache in
      from_cache key req entry (record h { cache = cache })

  -- `responseFor` for a question that is not blocked.
  unfoldable pub unless_cached :
      Text → IpQuery → Net → Msg → Option Response × EventLoop W → Response × EventLoop W
  unless_cached key ip_query net req (some r, h) = (r, h)
  unless_cached key ip_query net req (none, h) = ask_upstream key ip_query net req h

  unfoldable pub answer_unblocked :
      Text → IpQuery → Net → Msg → EventLoop W → Response × EventLoop W
  answer_unblocked key ip_query net req h =
      if is_ip ip_query
      then unless_cached key ip_query net req (consult_caches key req h)
      else ask_upstream key ip_query net req h

  unfoldable pub is_blocked : Question → EventLoop W → Bool
  is_blocked q h =
      is_ip (is_ip_query q)
      && h.leng_active
      && BlockCache.exists matchers (print_question q).qname h.block_cache

  unfoldable pub answer_question : Net → Msg → Question → EventLoop W → Response × EventLoop W
  answer_question net req q h =
      if is_blocked q h
      then (reply_with req (blocked_response_for h.config req q (is_ip_query q)) true false, h)
      else answer_unblocked (key_gen (print_question q)) (is_ip_query q) net req h

  unfoldable pub answer_questions : Net → Msg → List Question → EventLoop W → Response × EventLoop W
  answer_questions net req [] h = (failed false, h)
  answer_questions net req (q ∷ qs) h = answer_question net req q h

  -- The custom records come first.
  unfoldable pub after_custom :
      Net → Msg → Run (Option Msg) → EventLoop W → Run Response × EventLoop W
  after_custom net req panicked h = (panicked, h)
  after_custom net req (returned (some custom)) h =
      (returned (record { resp = some custom; success = true; blocked = false; cached = true }), h)
  after_custom net req (returned none) h =
      let (r, h') = answer_questions net req req.question h in (returned r, h')

  unfoldable pub response_for_remote :
      Net → Msg → Run (List ℕ) → EventLoop W → Run Response × EventLoop W
  response_for_remote net req panicked h = (panicked, h)
  response_for_remote net req (returned ip) h = after_custom net req (h.custom_dns req) h

  unfoldable pub response_for : Net → Msg → Addr → EventLoop W → Run Response × EventLoop W
  response_for net req remote h = response_for_remote net req (remote_ip net remote) h
