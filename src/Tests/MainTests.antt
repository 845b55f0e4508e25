-- ===== src/Tests/MainTests.antt =====
-- The program with a small disk, and its loop, at concrete turns.
use leng.Prelude.{
  ℕ, ◌+◌, ◌≡◌, refl, sym, ◌≢◌, ◌⊎◌, true, false, none, some, List, [], ◌∷◌, ltb, if◌then◌else◌,
  ok-injective, ok, err, Text, bytes, text_beq, comparable_text,
}
use leng.Config.{Config}
use leng.Config.Defaults.{default_settings}
use leng.Config.Loading
use leng.Config.Loading.{Toml, ConfigFiles, IsLoaded, load_config-IsLoaded}
use leng.Tls.{TlsLib}
use leng.BlockCache.{empty}
use leng.Updater
use leng.Updater.{Os, Globals}
use leng.Records
use leng.Logger.{no_config}
use leng.Logger.Files
use leng.Logger.Files.{Handles, LoggingState}
use leng.Handler.Reach.{new_event_loop}
use leng.Lcache
use leng.Server
use leng.Server.{RecordsLib}
use leng.Main
use leng.Main.{Setting, Program, Outcome, goes_on, crashed, reload, hangup, user_signal}
use leng.Main.Exit
use leng.Main.Exit.{Threads, Reach, here, next, new_threads, threads_exit}
use leng.Main.Turns.{IsCoherent, IsReloaded, reload-IsReloaded}
use leng.Main.Coherence.{start-turns-IsCoherent, Panics}
use leng.Tests.World.{config, test_dns, test_mux}

program : Unit {0}
unfolding Main.start Main.after_first_run Main.reload_block_cache Main.after_update Main.after_stop
    Main.after_run Main.start_api Main.turn Main.turns Main.then_turns Main.reload_config_from_file
    Server.run Server.run_with Server.stop Server.stop_loop Server.resolver_of Server.as_resolver
    Server.reload_config Server.set_custom Updater.perform_update Updater.update
    Updater.update_lists Updater.ensure_store Updater.load_sources Updater.update_block_cache
    Updater.with_store Updater.fetch_sources Updater.fetched Updater.allow Updater.block
    Loading.load_config Loading.after_open Loading.after_decode Loading.set_parsed_tls
    Loading.parsed_config Loading.name_version Loading.parse_default_config
    Records.new_custom_dns_records_from_text Records.group_records Records.new_custom_dns_records
    new_event_loop Lcache.new_generic Files.reopen Files.reopen_with Files.create_file_loggers
    Files.create_from Files.created Files.not_opened Files.can_log Files.clean_up text_beq
program = tt

abbrev os : Os ℕ
os = record {
  clean = λ p. p;
  is_missing = λ p w. true;
  mkdir = λ p w. some (w + 1);
  create = λ p w. some (w + 1);
  http_get = λ uri w. (none, w);
  copy = λ body file w. some (w + 1);
  eval_symlinks = λ p w. p;
  walk = λ p w. [];
  open_file = λ p w. none;
  url_host = λ uri. some uri;
  print_int = λ n. n ∷ [];
}

-- A text is decoded to the default configuration, unless it is empty.
abbrev toml : Toml
toml = record {
  unmarshal = λ text. default_settings;
  decode = λ text c. elim text [
    | [] ↦ err (record { message = bytes "empty"; position = none })
    | b ∷ s ↦ ok (record c { version = [] })
  ];
  print_int = λ n. n ∷ [];
}

-- The file is there, and is empty from the third instant on.
abbrev config_files : ℕ → ConfigFiles
config_files w = record {
  is_missing = λ p. false;
  open_text = λ p. some (if ltb w 3 then bytes "x" else []);
  clean = λ p. p;
}

abbrev tls_lib : TlsLib
tls_lib = record { load_key_pair = λ c k. none; read_file = λ p. none; certs_from_pem = λ p. none }

abbrev setting : Setting ℕ (List (Text × Records.Handler))
setting = record {
  os = os;
  matchers = record { compile = λ s. none; glob = λ p s. true };
  records_lib = record { dns = test_dns; new_rr = λ t. err []; mux = test_mux };
  toml = toml;
  config_files = config_files;
  tls_lib = tls_lib;
  config_path = bytes "leng.toml";
  can_listen = λ a. true;
  log_disk = record { is_missing = λ a n. true; can_create = λ a. true; can_open = λ a. true };
}

toml_keeps_tls :
    (text : Text) (c c' : Config)
    → toml.decode text c ≡ ok c'
    → c'.dns_over_http_server.tls ≡ c.dns_over_http_server.tls
toml_keeps_tls [] c c' h = cc
toml_keeps_tls (b ∷ text) c c' h = rw (sym (ok-injective h)) refl

load_config-IsLoaded_example : IsLoaded (record default_settings { version = bytes "none" })
unfolding program
load_config-IsLoaded_example =
    load_config-IsLoaded toml (config_files 0) tls_lib (bytes "leng.toml")
      (record default_settings { version = bytes "none" }) toml_keeps_tls refl refl

abbrev logging : LoggingState
logging = record { file_backends = []; std_backends = []; files = []; config = no_config }

abbrev handles : Handles
handles = record { next = 0; opened = [] }

abbrev globals : Globals
globals = record { times_seen = []; whitelist = [] }

-- The program that goes on, or the one given.
abbrev program_of : Program ℕ → Outcome (Program ℕ) → Program ℕ
program_of p (goes_on q) = q
program_of p _ = p

abbrev before : Program ℕ
before = record {
  config = config;
  block_cache = empty;
  server = Main.new_server;
  api = none;
  globals = globals;
  logging = logging;
  handles = handles;
  leng_active = true;
  world = 0;
}

abbrev started : Program ℕ
started = program_of before (Main.start setting config globals logging handles 0)

abbrev later : Program ℕ
later = program_of before (Main.turns setting (user_signal ∷ hangup ∷ reload ∷ reload ∷ []) started)

start-turns-IsCoherent_example :
    IsCoherent setting config later
    × ((Main.turn setting reload later ≢ crashed)
        ⊎ Panics setting config
            (Updater.perform_update os setting.matchers later.config true later.globals
              later.world).0)
unfolding program
start-turns-IsCoherent_example =
    start-turns-IsCoherent setting config globals logging handles 0
      (user_signal ∷ hangup ∷ reload ∷ reload ∷ []) started later refl refl

reload-IsReloaded_example :
    IsReloaded setting config (program_of before (Main.turn setting reload started))
    × (Updater.perform_update os setting.matchers started.config true started.globals started.world
        ≡ (
          ok (program_of before (Main.turn setting reload started)).block_cache,
          (program_of before (Main.turn setting reload started)).globals,
          (program_of before (Main.turn setting reload started)).world,
        ))
unfolding program
reload-IsReloaded_example =
    reload-IsReloaded setting config started (program_of before (Main.turn setting reload started))
      refl refl

-- `main` after an interrupt.
abbrev leaving : Threads
leaving = record {
  main_at = Exit.quitting;
  activation_at = Exit.waiting;
  metrics_cancelled = false;
}

leaving-Reach : Reach new_threads leaving
unfolding new_threads
leaving-Reach =
    next (next (next here (Exit.hand_over false)) (Exit.loaded Exit.waiting false))
      (Exit.interrupt Exit.waiting false)

threads_exit_example :
    (t : Threads) × Reach leaving t
    × (t.main_at ≡ Exit.exited)
    × (t.activation_at ≡ Exit.ended)
    × (t.metrics_cancelled ≡ true)
    × (leaving.activation_at ≡ Exit.waiting)
    × (leaving.metrics_cancelled ≡ false)
threads_exit_example = threads_exit leaving leaving-Reach refl

-- The message with the place of the mistake.
error_placed :
    Loading.contextualised_parsing_error_from toml
      (config_files 0)
      tls_lib
      (record { message = bytes "bad"; position = some (bytes "1| x", 49, 50) })
    ≡ bytes "could not load config:bad\n1| x\nerror occurred at row 1 column 2\n"
unfolding Loading.contextualised_parsing_error_from Loading.place_text
error_placed = refl
