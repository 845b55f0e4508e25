-- ===== src/Handler/Reach.antt =====
-- The event loop as a step relation: requests, the writes that requests left to goroutines, the
-- passing of time, and a reload of the custom records (handler.go, server.go), in any order.
use leng.Prelude.{Bool, Option, some, List, [], ◌∷◌, Run, Text, comparable_text}
use leng.Dns.{Msg}
use leng.Lcache
use leng.Lcache.{LengCache, DefaultEntry, default_entry}
use leng.Lcache.Validity.{set-IsValid, new_generic-IsValid}
use leng.Handler.{Env, EventLoop, Net, Addr}
use leng.Handler.Follow
use leng.Handler.Follow.{Act}
use leng.Config.{Config}
use leng.BlockCache.{MemoryBlockCache}
use leng.Handler.Validity.{CachesValid, do_request-CachesValid}

-- `NewEventLoop`
unfoldable pub new_event_loop :
    {W : Type 0} → Config → MemoryBlockCache → (Msg → Run (Option Msg)) → Bool → W → EventLoop W
new_event_loop config block_cache custom_dns leng_active w = record {
  cache = Lcache.new_generic config.upstream.maxcount;
  neg_cache = Lcache.new_generic config.upstream.maxcount;
  leng_active = leng_active;
  config = config;
  block_cache = block_cache;
  custom_dns = custom_dns;
  spawned = [];
  world = w;
}

module _ {W : Type 0} (env : Env W) where
  open env use {dns, now}

  -- The goroutine that `responseFor` starts, run on the first write that waits.
  unfoldable pub run_spawned : List (Text × Msg) → EventLoop W → EventLoop W
  run_spawned [] h = h
  run_spawned ((key, resp) ∷ rest) h = record h {
    spawned = rest;
    cache = (Lcache.set key (some (record { msg = resp })) (now h.world) h.cache).1;
  }

  pub data Step : EventLoop W → EventLoop W → Type 0 where
    request :
        (net : Net) (req : Msg) (remote : Addr) (h : EventLoop W)
        → Step h (Follow.do_request env net req remote h).1
    write : (h : EventLoop W) → Step h (run_spawned h.spawned h)
    pass : (w : W) (h : EventLoop W) → Step h (record h { world = w })
    reload_config :
        (c : Msg → Run (Option Msg)) (h : EventLoop W) → Step h (record h { custom_dns = c })

  pub data Reach (start : EventLoop W) : EventLoop W → Type 0 where
    here : Reach start start
    next : {h h' : EventLoop W} → Reach start h → Step h h' → Reach start h'

  run_spawned-CachesValid :
      (l : List (Text × Msg)) (h : EventLoop W) → CachesValid h → CachesValid (run_spawned l h)
  unfolding run_spawned
  run_spawned-CachesValid [] h v = v
  run_spawned-CachesValid ((key, resp) ∷ rest) h v = record {
    cache = set-IsValid key _ (now h.world) h.cache v.cache;
    neg_cache = v.neg_cache;
  }

  Step-CachesValid : {h h' : EventLoop W} → Step h h' → CachesValid h → CachesValid h'
  Step-CachesValid (request net req remote h) v = do_request-CachesValid env net req remote h v
  Step-CachesValid (write h) v = run_spawned-CachesValid h.spawned h v
  Step-CachesValid (pass w h) v = record { cache = v.cache; neg_cache = v.neg_cache }
  Step-CachesValid (reload_config c h) v = record { cache = v.cache; neg_cache = v.neg_cache }

  pub new_event_loop-CachesValid :
      (config : Config) (b : MemoryBlockCache) (c : Msg → Run (Option Msg)) (active : Bool) (w : W)
      → CachesValid (new_event_loop config b c active w)
  unfolding new_event_loop
  new_event_loop-CachesValid config b c active w = record {
    cache = new_generic-IsValid config.upstream.maxcount;
    neg_cache = new_generic-IsValid config.upstream.maxcount;
  }

  Reach-valid : {s h : EventLoop W} → CachesValid s → Reach s h → CachesValid h
  Reach-valid v here = v
  Reach-valid v (next r st) = Step-CachesValid st (Reach-valid v r)

  -- In every state that requests, their delayed writes, time and reloads lead to from a new event
  -- loop, in any order, both caches count their entries exactly, hold none twice, keep to their
  -- bound and hold no nil entry.
  Reach-CachesValid :
      (config : Config) (b : MemoryBlockCache) (c : Msg → Run (Option Msg)) (active : Bool) (w : W)
      {h : EventLoop W}
      → Reach (new_event_loop config b c active w) h
      → CachesValid h
  Reach-CachesValid config b c active w r =
      Reach-valid (new_event_loop-CachesValid config b c active w) r
