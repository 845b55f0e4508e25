-- ===== src/Server.antt =====
-- server.go: the server around the event loop. A listener is whether it was started; what the
-- sockets do, and the errors of their shutdown, which are only logged, are left out. The custom
-- records are built with the parameters of Records.
use leng.Prelude.{
  Bool, true, false, Option, none, some, List, if◌then◌else◌, Run, returned, panicked, Text,
  comparable_text,
}
use leng.Dns.{Msg, DnsLib}
use leng.Config.{Config}
use leng.BlockCache.{MemoryBlockCache}
use leng.Records
use leng.Records.{NewRr, MuxLib, CustomDnsRecords}
use leng.Handler.{EventLoop}
use leng.Handler.Reach.{new_event_loop}

pub record Server (W : Type 0) : Type 0 where
  pub event_loop : Option (EventLoop W)
  -- whether the channel of the event loop is closed
  pub loop_closed : Bool
  pub udp_started : Bool
  pub tcp_started : Bool
  pub http_started : Bool

-- dns.NewRR and the mux
pub record RecordsLib (M : Type 0) : Type 0 where
  pub dns : DnsLib
  pub new_rr : NewRr
  pub mux : MuxLib M

module _ {M : Type 0} (lib : RecordsLib M) where
  unfoldable pub as_resolver : Run (List CustomDnsRecords) → Run (Msg → Run (Option Msg))
  as_resolver panicked = panicked
  as_resolver (returned records) =
      returned
        (Records.resolve lib.mux (Records.new_custom_records_resolver lib.dns lib.mux records))

  -- NewCustomRecordsResolver(NewCustomDNSRecordsFromText(texts))
  unfoldable pub resolver_of : List Text → Run (Msg → Run (Option Msg))
  resolver_of texts = as_resolver (Records.new_custom_dns_records_from_text lib.new_rr texts)

  module _ {W : Type 0} where
    -- `Run` with the custom records that the new event loop is made with.
    unfoldable pub run_with :
        Config
        → MemoryBlockCache
        → Bool
        → W
        → Run (Msg → Run (Option Msg))
        → Server W
        → Run (Server W)
    run_with config block_cache active w panicked s = panicked
    run_with config block_cache active w (returned custom) s = returned (record s {
      event_loop = some (new_event_loop config block_cache custom active w);
      loop_closed = false;
      udp_started = true;
      tcp_started = true;
      http_started = if config.dns_over_http_server.enabled then true else s.http_started;
    })

    -- `Run`
    unfoldable pub run : Config → MemoryBlockCache → Bool → W → Server W → Run (Server W)
    run config block_cache active w s =
        run_with config block_cache active w (resolver_of config.custom_dns_records) s

    -- `Stop`: a channel that is closed already panics.
    unfoldable pub stop_loop : Option (EventLoop W) → Server W → Run (Server W)
    stop_loop none s = returned s
    stop_loop (some h) s =
        if s.loop_closed then panicked else returned (record s { loop_closed = true })

    abbrev pub shut_down : Run (Server W) → Run (Server W)
    shut_down panicked = panicked
    shut_down (returned s) =
        returned (record s { udp_started = false; tcp_started = false; http_started = false })

    unfoldable pub stop : Server W → Run (Server W)
    stop s = shut_down (stop_loop s.event_loop s)

    unfoldable pub set_custom :
        Run (Msg → Run (Option Msg)) → Option (EventLoop W) → Server W → Run (Server W)
    set_custom panicked loop s = panicked
    set_custom (returned custom) none s = panicked
    set_custom (returned custom) (some h) s =
        returned (record s { event_loop = some (record h { custom_dns = custom }) })

    -- `ReloadConfig`, of a pointer that may be nil
    unfoldable pub reload_config : Option Config → Server W → Run (Server W)
    reload_config none s = panicked
    reload_config (some config) s =
        set_custom (resolver_of config.custom_dns_records) s.event_loop s
