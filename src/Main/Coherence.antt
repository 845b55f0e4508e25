-- ===== src/Main/Coherence.antt =====
-- The program stays coherent along its loop, and what can end it (main.go, server.go).
use leng.Prelude.{
  ◌≡◌, refl, sym, ap, ◌∙◌, ◌≢◌, ◌⊎◌, inl, inr, Bool, true, false, Option, none, some, List, [], ◌∷◌,
  arith, if◌then◌else◌, Bool-cases, some-injective, Result, ok, err, Run, returned, panicked,
  comparable_text,
}
use leng.Dns.{Msg}
use leng.Config.{Config}
use leng.Config.Loading
use leng.Config.Loading.{LoadError}
use leng.BlockCache.{MemoryBlockCache}
use leng.Updater
use leng.Updater.{Globals, UpdateError}
use leng.Logger.Files.{LoggingState, Handles}
use leng.Handler.{EventLoop}
use leng.Server
use leng.Server.{Server}
use leng.Main
use leng.Main.{
  Setting, Program, Outcome, goes_on, fatal, crashed, exited, Turn, interrupt, hangup, user_signal,
  reload, new_server, loaded,
}
use leng.Main.Turns.{
  IsCoherent, IsReloaded-IsCoherent, reload-IsReloaded, after_update-IsReloaded, goes_on-injective,
}

module _ {W M : Type 0} (x : Setting W M) (config : Config) where
  set_custom-IsCoherent :
      (r : Run (Msg → Run (Option Msg))) (loop : Option (EventLoop W)) (p q : Program W)
      → p.server.event_loop ≡ loop
      → IsCoherent x config p
      → Main.with_server x (Server.set_custom x.records_lib r loop p.server) p ≡ goes_on q
      → IsCoherent x config q
  unfolding Server.set_custom
  set_custom-IsCoherent panicked loop p q e c h = cc
  set_custom-IsCoherent (returned custom) none p q e c h = cc
  set_custom-IsCoherent (returned custom) (some l) p q e c h =
      let (k, a, b, d) = c.loop in
      let same : k ≡ l = some-injective (sym a ∙ e) in
      rw (sym (goes_on-injective h)) (record {
        same_config = c.same_config;
        api_list = c.api_list;
        loop = (
          record l { custom_dns = custom },
          refl,
          ap (λ (m : EventLoop W). m.block_cache) (sym same) ∙ b,
          ap (λ (m : EventLoop W). m.config) (sym same) ∙ d,
        );
        channel_open = c.channel_open;
        records_read = c.records_read;
      })

  reload_config-IsCoherent :
      (o : Option Config) (p q : Program W)
      → IsCoherent x config p
      → Main.with_server x (Server.reload_config x.records_lib o p.server) p ≡ goes_on q
      → IsCoherent x config q
  unfolding Server.reload_config
  reload_config-IsCoherent none p q c h = cc
  reload_config-IsCoherent (some d) p q c h =
      set_custom-IsCoherent (Server.resolver_of x.records_lib d.custom_dns_records)
        p.server.event_loop p q refl c h

  turn-IsCoherent :
      (t : Turn) (p q : Program W)
      → IsCoherent x config p
      → Main.turn x t p ≡ goes_on q
      → IsCoherent x config q
  unfolding Main.turn Main.reload_config_from_file
  turn-IsCoherent interrupt p q c h = cc
  turn-IsCoherent hangup p q c h = rw (sym (goes_on-injective h)) (record {
    same_config = c.same_config;
    api_list = c.api_list;
    loop = c.loop;
    channel_open = c.channel_open;
    records_read = c.records_read;
  })
  turn-IsCoherent user_signal p q c h = reload_config-IsCoherent _ p q c h
  turn-IsCoherent reload p q c h =
      IsReloaded-IsCoherent x config q (reload-IsReloaded x config p q c.same_config h).0

  then_turns-IsCoherent :
      (o : Outcome (Program W)) (f : Program W → Outcome (Program W)) (q : Program W)
      → ((p : Program W) → o ≡ goes_on p → IsCoherent x config p)
      → ((p : Program W) → IsCoherent x config p → f p ≡ goes_on q → IsCoherent x config q)
      → Main.then_turns x o f ≡ goes_on q
      → IsCoherent x config q
  unfolding Main.then_turns
  then_turns-IsCoherent (goes_on p) f q a b h = b p (a p refl) h
  then_turns-IsCoherent fatal f q a b h = cc
  then_turns-IsCoherent crashed f q a b h = cc
  then_turns-IsCoherent exited f q a b h = cc

  turns-IsCoherent :
      (ts : List Turn) (p q : Program W)
      → IsCoherent x config p
      → Main.turns x ts p ≡ goes_on q
      → IsCoherent x config q
  unfolding Main.turns
  turns-IsCoherent [] p q c h = rw (sym (goes_on-injective h)) c
  turns-IsCoherent (t ∷ ts) p q c h =
      then_turns-IsCoherent (Main.turn x t p) (Main.turns x ts) q (λ r e. turn-IsCoherent t p r c e)
        (λ r d e. turns-IsCoherent ts r q d e) h

  after_first_run-IsCoherent :
      (r : Run (Server W)) (p q : Program W)
      → p.config ≡ config
      → Main.after_first_run x r p ≡ goes_on q
      → IsCoherent x config q
  unfolding Main.after_first_run Main.reload_block_cache
  after_first_run-IsCoherent panicked p q c h = cc
  after_first_run-IsCoherent (returned s) p q c h =
      IsReloaded-IsCoherent x config q
        (after_update-IsReloaded x config _ (record p { server = s }) q c h)

  start_api≢crashed :
      (b : MemoryBlockCache) (s : Server W) (p : Program W) → Main.start_api x b s p ≢ crashed
  unfolding Main.start_api
  start_api≢crashed b s p h = elim (Bool-cases (x.can_listen p.config.api)) [
    | inl l ↦ ground (arith, h, l)
    | inr l ↦ ground (arith, h, l)
  ]

  after_run≢crashed :
      (b : MemoryBlockCache) (r : Run (Msg → Run (Option Msg))) (s : Server W) (p : Program W)
      (custom : Msg → Run (Option Msg))
      → r ≡ returned custom
      → Main.after_run x b (Server.run_with x.records_lib p.config b p.leng_active p.world r s) p
        ≢ crashed
  unfolding Main.after_run Server.run_with
  after_run≢crashed b panicked s p custom e h = cc
  after_run≢crashed b (returned k) s p custom e h = start_api≢crashed b _ p h

  after_stop≢crashed :
      (b : MemoryBlockCache) (r : Run (Server W)) (s : Server W) (p : Program W)
      (custom : Msg → Run (Option Msg))
      → r ≡ returned s
      → Server.resolver_of x.records_lib p.config.custom_dns_records ≡ returned custom
      → Main.after_stop x b r p ≢ crashed
  unfolding Main.after_stop Server.run
  after_stop≢crashed b panicked s p custom e k h = cc
  after_stop≢crashed b (returned t) s p custom e k h =
      after_run≢crashed b (Server.resolver_of x.records_lib p.config.custom_dns_records) t
        (record p { api = none }) custom k h

  -- `Stop` does not panic where the channel is open.
  stop_returns :
      (s : Server W) (h : EventLoop W)
      → s.event_loop ≡ some h
      → s.loop_closed ≡ false
      → (t : Server W) × (Server.stop x.records_lib s ≡ returned t)
  unfolding Server.stop Server.stop_loop
  stop_returns s h e o =
      let t : Server W = record s {
        loop_closed = true;
        udp_started = false;
        tcp_started = false;
        http_started = false;
      } in
      let open_loop : Server.stop_loop x.records_lib (some h) s
          ≡ returned (record s { loop_closed = true }) =
        rw o refl in
      (
        t,
        ap (λ l. Server.shut_down x.records_lib (Server.stop_loop x.records_lib l s)) e
            ∙ ap (Server.shut_down x.records_lib) open_loop,
      )

  -- The update itself panics.
  abbrev pub Panics : Result UpdateError MemoryBlockCache → Type 0
  Panics r = (e : UpdateError) × (r ≡ err e) × (Updater.is_panic e ≡ true)

  fatal_or_Panics :
      (b : Bool) (e : UpdateError)
      → Updater.is_panic e ≡ b
      → (◌≢◌ {A = Outcome (Program W)} (if b then crashed else fatal) crashed) ⊎ Panics (err e)
  fatal_or_Panics true e h = inr (e, refl, h)
  fatal_or_Panics false e h = inl (λ q. cc)

  after_update_crashes :
      (r : Result UpdateError MemoryBlockCache × Globals × W) (p : Program W)
      → IsCoherent x config p
      → (Main.after_update x r p ≢ crashed) ⊎ Panics r.0
  unfolding Main.after_update
  after_update_crashes (err e, g, w) p c = fatal_or_Panics (Updater.is_panic e) e refl
  after_update_crashes (ok b, g, w) p c =
      let (l, e, same_list, same_config) = c.loop in
      let (t, s) = stop_returns p.server l e c.channel_open in
      let (custom, k) = c.records_read in
      inl (
        after_stop≢crashed b (Server.stop x.records_lib p.server) t
          (record p { globals = g; world = w }) custom s
          (ap (λ (d : Config). Server.resolver_of x.records_lib d.custom_dns_records) c.same_config
            ∙ k))

  reload_crashes :
      (p : Program W)
      → IsCoherent x config p
      → (Main.turn x reload p ≢ crashed)
        ⊎ Panics (Updater.perform_update x.os x.matchers p.config true p.globals p.world).0
  unfolding Main.turn Main.reload_block_cache
  reload_crashes p c = after_update_crashes _ p c

  -- After a start that succeeds and any turns of the loop, as long as the program goes on, it is
  -- coherent, and a reload of the block list does not end in a panic, neither by a second close of the
  -- channel nor by the custom records, unless the update of the list itself panics.
  pub start-turns-IsCoherent :
      (g : Globals) (logging : LoggingState) (handles : Handles) (w : W) (ts : List Turn)
      (p q : Program W)
      → Main.start x config g logging handles w ≡ goes_on p
      → Main.turns x ts p ≡ goes_on q
      → IsCoherent x config q
        × ((Main.turn x reload q ≢ crashed)
            ⊎ Panics (Updater.perform_update x.os x.matchers q.config true q.globals q.world).0)
  unfolding Main.start
  start-turns-IsCoherent g logging handles w ts p q s h =
      let c = turns-IsCoherent ts p q (after_first_run-IsCoherent _ _ p refl s) h in
      (c, reload_crashes q c)

  -- If the configuration file cannot be loaded when the user signal arrives, the program ends in a
  -- panic.
  user_signal_crashes :
      (p : Program W) (e : LoadError)
      → Loading.load_config x.toml (x.config_files p.world) x.tls_lib x.config_path ≡ err e
      → Main.turn x user_signal p ≡ crashed
  unfolding Main.turn Main.reload_config_from_file Server.reload_config
  user_signal_crashes p e h = rw h refl
