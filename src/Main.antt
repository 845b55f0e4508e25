-- ===== src/Main.antt =====
-- main.go: how the program starts, and its loop over signals and requests for a new block list. A
-- step is one turn of the loop. The metrics and the activation goroutine, which only answers that
-- the program quits, are left out.
pub mod Turns
pub mod Coherence
pub mod Exit
use leng.Prelude.{
  Bool, true, false, Option, none, some, List, [], ◌∷◌, if◌then◌else◌, Result, ok, err, Run,
  returned, panicked, Text, comparable_text,
}
use leng.Config.{Config}
use leng.Config.Loading
use leng.Config.Loading.{Toml, ConfigFiles, LoadError}
use leng.Tls.{TlsLib}
use leng.BlockCache
use leng.BlockCache.{MemoryBlockCache, Matchers}
use leng.Updater
use leng.Updater.{Os, Globals, UpdateError}
use leng.Logger.Files
use leng.Logger.Files.{Disk, LoggingState, Handles}
use leng.Server
use leng.Server.{Server, RecordsLib}

-- What the program is given: files, network, parsers, and whether the address of the API can be
-- listened on.
pub record Setting (W M : Type 0) : Type 0 where
  pub os : Os W
  pub matchers : Matchers
  pub records_lib : RecordsLib M
  pub toml : Toml
  pub config_files : W → ConfigFiles
  pub tls_lib : TlsLib
  pub config_path : Text
  pub can_listen : Text → Bool
  pub log_disk : Disk

-- The variables of `main`. `api` is the block list that the running API server reads and changes.
pub record Program (W : Type 0) : Type 0 where
  pub config : Config
  pub block_cache : MemoryBlockCache
  pub server : Server W
  pub api : Option MemoryBlockCache
  pub globals : Globals
  pub logging : LoggingState
  pub handles : Handles
  pub leng_active : Bool
  pub world : W

-- The program goes on, ends by logger.Fatal, by a panic, or as it was asked to.
pub data Outcome (A : Type 0) : Type 0 where
  goes_on : A → Outcome A
  fatal crashed exited : Outcome A

pub data Turn : Type 0 where
  interrupt hangup user_signal reload : Turn

abbrev pub new_server : {W : Type 0} → Server W
new_server = record {
  event_loop = none;
  loop_closed = false;
  udp_started = false;
  tcp_started = false;
  http_started = false;
}

module _ {W M : Type 0} (x : Setting W M) where
  -- `StartAPIServer` and the end of `reloadBlockCache`
  unfoldable pub start_api : MemoryBlockCache → Server W → Program W → Outcome (Program W)
  start_api block_cache server p =
      if x.can_listen p.config.api
      then goes_on (record p { block_cache = block_cache; server = server; api = some block_cache })
      else fatal

  -- server.Run, after server.Stop
  unfoldable pub after_run : MemoryBlockCache → Run (Server W) → Program W → Outcome (Program W)
  after_run block_cache panicked p = crashed
  after_run block_cache (returned s) p = start_api block_cache s p

  unfoldable pub after_stop : MemoryBlockCache → Run (Server W) → Program W → Outcome (Program W)
  after_stop block_cache panicked p = crashed
  after_stop block_cache (returned s) p =
      after_run block_cache (Server.run x.records_lib p.config block_cache p.leng_active p.world s)
        (record p { api = none })

  unfoldable pub after_update :
      Result UpdateError MemoryBlockCache × Globals × W → Program W → Outcome (Program W)
  after_update (err e, g, w) p = if Updater.is_panic e then crashed else fatal
  after_update (ok block_cache, g, w) p =
      after_stop block_cache (Server.stop x.records_lib p.server)
        (record p { globals = g; world = w })

  -- `reloadBlockCache`
  unfoldable pub reload_block_cache : Program W → Outcome (Program W)
  reload_block_cache p =
      after_update (Updater.perform_update x.os x.matchers p.config true p.globals p.world) p

  abbrev pub loaded : Result LoadError Config → Option Config
  loaded (err e) = none
  loaded (ok c) = some c

  abbrev pub with_server : Run (Server W) → Program W → Outcome (Program W)
  with_server panicked p = crashed
  with_server (returned s) p = goes_on (record p { server = s })

  -- `reloadConfigFromFile`: an error is logged, and the nil configuration is reloaded.
  unfoldable pub reload_config_from_file : Program W → Outcome (Program W)
  reload_config_from_file p =
      with_server
        (Server.reload_config x.records_lib
          (loaded (Loading.load_config x.toml (x.config_files p.world) x.tls_lib x.config_path))
          p.server)
        p

  -- One turn of the loop.
  unfoldable pub turn : Turn → Program W → Outcome (Program W)
  turn interrupt p = exited
  turn hangup p = goes_on (record p { handles = (Files.reopen x.log_disk p.logging p.handles).1 })
  turn user_signal p = reload_config_from_file p
  turn reload p = reload_block_cache p

  unfoldable pub then_turns :
      Outcome (Program W) → (Program W → Outcome (Program W)) → Outcome (Program W)
  then_turns (goes_on p) f = f p
  then_turns fatal f = fatal
  then_turns crashed f = crashed
  then_turns exited f = exited

  unfoldable pub turns : List Turn → Program W → Outcome (Program W)
  turns [] p = goes_on p
  turns (t ∷ ts) p = then_turns (turn t p) (turns ts)

  -- The start: the server runs with an empty block list, and the lists are loaded.
  unfoldable pub after_first_run : Run (Server W) → Program W → Outcome (Program W)
  after_first_run panicked p = crashed
  after_first_run (returned s) p = reload_block_cache (record p { server = s })

  unfoldable pub start : Config → Globals → LoggingState → Handles → W → Outcome (Program W)
  start config g logging handles w =
      let p : Program W = record {
        config = config;
        block_cache = BlockCache.empty;
        server = new_server;
        api = none;
        globals = g;
        logging = logging;
        handles = handles;
        leng_active = true;
        world = w;
      } in
      after_first_run (Server.run x.records_lib config BlockCache.empty true w new_server) p
