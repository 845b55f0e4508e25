-- ===== src/Main/Turns.antt =====
-- What holds of the program between two turns of its loop (main.go, server.go).
use leng.Prelude.{
  ◌≡◌, refl, sym, ap, ◌∙◌, inl, inr, true, false, Option, none, some, arith, Bool-cases, Result, ok,
  err, Run, returned, panicked, comparable_text,
}
use leng.Dns.{Msg}
use leng.Config.{Config}
use leng.BlockCache.{MemoryBlockCache}
use leng.Updater
use leng.Updater.{Globals, UpdateError}
use leng.Handler.{EventLoop}
use leng.Handler.Reach.{new_event_loop}
use leng.Server
use leng.Server.{Server}
use leng.Main
use leng.Main.{
  Setting, Program, Outcome, goes_on, fatal, crashed, exited, Turn, interrupt, hangup, user_signal,
  reload, new_server,
}

pub goes_on-injective : {A : Type 0} {a b : A} → goes_on a ≡ goes_on b → a ≡ b
goes_on-injective h = cc

module _ {W M : Type 0} (x : Setting W M) (config : Config) where
  -- The event loop answers with the configuration of the start and the block list that the API reads
  -- and changes, its channel is open, and the custom records of the start can be read.
  pub record IsCoherent (p : Program W) : Type 0 where
    pub same_config : p.config ≡ config
    pub api_list : p.api ≡ some p.block_cache
    pub loop :
        (h : EventLoop W) × (p.server.event_loop ≡ some h)
        × (h.block_cache ≡ p.block_cache)
        × (h.config ≡ config)
    pub channel_open : p.server.loop_closed ≡ false
    pub records_read :
        (custom : Msg → Run (Option Msg)) × (Server.resolver_of x.records_lib
            config.custom_dns_records
          ≡ returned custom)

  -- The program just after a reload: the event loop is a new one, made from the configuration of the
  -- start and the new block list.
  pub record IsReloaded (p : Program W) : Type 0 where
    pub same_config : p.config ≡ config
    pub api_list : p.api ≡ some p.block_cache
    pub channel_open : p.server.loop_closed ≡ false
    pub new_loop :
        (custom : Msg → Run (Option Msg)) × (Server.resolver_of x.records_lib
            config.custom_dns_records
          ≡ returned custom)
        × (p.server.event_loop
            ≡ some (new_event_loop config p.block_cache custom p.leng_active p.world))

  pub IsReloaded-IsCoherent : (p : Program W) → IsReloaded p → IsCoherent p
  unfolding new_event_loop
  IsReloaded-IsCoherent p r =
      let (custom, q, e) = r.new_loop in
      record {
        same_config = r.same_config;
        api_list = r.api_list;
        loop = (new_event_loop config p.block_cache custom p.leng_active p.world, e, refl, refl);
        channel_open = r.channel_open;
        records_read = (custom, q);
      }

  start_api-IsReloaded :
      (b : MemoryBlockCache) (s : Server W) (p q : Program W) (custom : Msg → Run (Option Msg))
      → p.config ≡ config
      → Server.resolver_of x.records_lib config.custom_dns_records ≡ returned custom
      → s.event_loop ≡ some (new_event_loop p.config b custom p.leng_active p.world)
      → s.loop_closed ≡ false
      → Main.start_api x b s p ≡ goes_on q
      → IsReloaded q
  unfolding Main.start_api
  start_api-IsReloaded b s p q custom c k e o r = elim (Bool-cases (x.can_listen p.config.api)) [
    | inl l ↦
        let made : goes_on (record p { block_cache = b; server = s; api = some b }) ≡ goes_on q =
          rw (sym r, l) refl in
        rw (sym (goes_on-injective made)) (record {
          same_config = c;
          api_list = refl;
          channel_open = o;
          new_loop =
              (custom, k, e ∙ ap (λ d. some (new_event_loop d b custom p.leng_active p.world)) c);
        })
    | inr l ↦ ground (arith, r, l)
  ]

  after_run-IsReloaded :
      (b : MemoryBlockCache) (custom : Run (Msg → Run (Option Msg))) (s : Server W)
      (p q : Program W)
      → p.config ≡ config
      → Server.resolver_of x.records_lib config.custom_dns_records ≡ custom
      → Main.after_run x b
          (Server.run_with x.records_lib p.config b p.leng_active p.world custom s)
          p
        ≡ goes_on q
      → IsReloaded q
  unfolding Main.after_run Server.run_with
  after_run-IsReloaded b panicked s p q c k r = cc
  after_run-IsReloaded b (returned custom) s p q c k r =
      start_api-IsReloaded b _ p q custom c k refl refl r

  after_stop-IsReloaded :
      (b : MemoryBlockCache) (r : Run (Server W)) (p q : Program W)
      → p.config ≡ config
      → Main.after_stop x b r p ≡ goes_on q
      → IsReloaded q
  unfolding Main.after_stop Server.run
  after_stop-IsReloaded b panicked p q c h = cc
  after_stop-IsReloaded b (returned s) p q c h =
      after_run-IsReloaded b (Server.resolver_of x.records_lib p.config.custom_dns_records) s
        (record p { api = none }) q c
        (ap (λ (d : Config). Server.resolver_of x.records_lib d.custom_dns_records) (sym c)) h

  pub after_update-IsReloaded :
      (r : Result UpdateError MemoryBlockCache × Globals × W) (p q : Program W)
      → p.config ≡ config
      → Main.after_update x r p ≡ goes_on q
      → IsReloaded q
  unfolding Main.after_update
  after_update-IsReloaded (err e, g, w) p q c h = elim (Bool-cases (Updater.is_panic e)) [
    | inl l ↦ ground (arith, h, l)
    | inr l ↦ ground (arith, h, l)
  ]
  after_update-IsReloaded (ok b, g, w) p q c h =
      after_stop-IsReloaded b (Server.stop x.records_lib p.server)
        (record p { globals = g; world = w }) q c h

  -- The list, the globals and the world that a reload leaves.
  abbrev Leaves : MemoryBlockCache → Program W → Program W → Type 0
  Leaves b p q = (q.block_cache ≡ b) × (q.globals ≡ p.globals) × (q.world ≡ p.world)

  start_api-Leaves :
      (b : MemoryBlockCache) (s : Server W) (p q : Program W)
      → Main.start_api x b s p ≡ goes_on q
      → Leaves b p q
  unfolding Main.start_api
  start_api-Leaves b s p q r = elim (Bool-cases (x.can_listen p.config.api)) [
    | inl l ↦
        let made : goes_on (record p { block_cache = b; server = s; api = some b }) ≡ goes_on q =
          rw (sym r, l) refl in
        rw (sym (goes_on-injective made)) (refl, refl, refl)
    | inr l ↦ ground (arith, r, l)
  ]

  after_run-Leaves :
      (b : MemoryBlockCache) (s : Run (Server W)) (p q : Program W)
      → Main.after_run x b s p ≡ goes_on q
      → Leaves b p q
  unfolding Main.after_run
  after_run-Leaves b panicked p q h = cc
  after_run-Leaves b (returned s) p q h = start_api-Leaves b s p q h

  after_stop-Leaves :
      (b : MemoryBlockCache) (s : Run (Server W)) (p q : Program W)
      → Main.after_stop x b s p ≡ goes_on q
      → Leaves b p q
  unfolding Main.after_stop
  after_stop-Leaves b panicked p q h = cc
  after_stop-Leaves b (returned s) p q h = after_run-Leaves b _ (record p { api = none }) q h

  after_update-list :
      (r : Result UpdateError MemoryBlockCache × Globals × W) (p q : Program W)
      → Main.after_update x r p ≡ goes_on q
      → r ≡ (ok q.block_cache, q.globals, q.world)
  unfolding Main.after_update
  after_update-list (err e, g, w) p q h = elim (Bool-cases (Updater.is_panic e)) [
    | inl l ↦ ground (arith, h, l)
    | inr l ↦ ground (arith, h, l)
  ]
  after_update-list (ok b, g, w) p q h =
      let (l, k, v) =
        after_stop-Leaves b (Server.stop x.records_lib p.server)
          (record p { globals = g; world = w }) q h in
      rw (l, k, v) refl

  -- A reload of the block list that succeeds leaves the list that the update has built, the counts
  -- and the world that the update left, and a new event loop with that list, the configuration and
  -- the custom records of the start, and empty caches; the API has the same list.
  pub reload-IsReloaded :
      (p q : Program W)
      → p.config ≡ config
      → Main.turn x reload p ≡ goes_on q
      → IsReloaded q
        × (Updater.perform_update x.os x.matchers p.config true p.globals p.world
            ≡ (ok q.block_cache, q.globals, q.world))
  unfolding Main.turn Main.reload_block_cache
  reload-IsReloaded p q c h = (after_update-IsReloaded _ p q c h, after_update-list _ p q h)
