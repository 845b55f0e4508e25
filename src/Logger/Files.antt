-- ===== src/Logger/Files.antt =====
-- The log files and the backends of logger.go. An open file is a handle, the number of the call that
-- opened it; which files are there, and can be opened, is a parameter. The formats of the lines are left
-- out.
use leng.Prelude.{
  ℕ, ◌+◌, Bool, not, ◌&&◌, ◌||◌, List, [], ◌∷◌, ◌++◌, nat_beq, if◌then◌else◌, Result, ok, err, Run,
  returned, panicked, any, Text, comparable_text,
}
use leng.Logger
use leng.Logger.{Level, FileConfig, BoolConfig, LogConfig, LogError}

-- The handles that are open, and the next one.
pub record Handles : Type 0 where
  pub next : ℕ
  pub opened : List ℕ

pub data Backend : Type 0 where
  file_backend : ℕ → Level → Backend
  stderr_backend syslog_backend : Level → Backend

pub record LoggingState : Type 0 where
  pub file_backends : List Backend
  pub std_backends : List Backend
  pub files : List ℕ
  pub config : LogConfig

pub data FileError : Type 0 where
  file_not_opened : Text → FileError
  already_closed : ℕ → FileError

-- os.IsNotExist of os.Stat, when that many files have been opened, and whether os.Create and os.OpenFile
-- succeed
pub record Disk : Type 0 where
  pub is_missing : Text → ℕ → Bool
  pub can_create : Text → Bool
  pub can_open : Text → Bool

-- A file is opened.
abbrev pub open_handle : Handles → Handles
open_handle w = record { next = w.next + 1; opened = w.next ∷ w.opened }

-- Close: a file that is not open is an error.
unfoldable pub without : ℕ → List ℕ → List ℕ
without h [] = []
without h (k ∷ l) = let rest = without h l in if nat_beq k h then rest else k ∷ rest

unfoldable pub is_open : ℕ → Handles → Bool
is_open h w = any (λ k. nat_beq k h) w.opened

unfoldable pub close : ℕ → Handles → Handles
close h w = record w { opened = without h w.opened }

-- The loop that closes the files opened so far, up to the first that cannot be closed.
unfoldable pub close_all : List ℕ → Handles → Handles
close_all [] w = w
close_all (h ∷ hs) w = let rest = close_all hs (close h w) in if is_open h w then rest else w

-- `createFileLogger`, where the file can be opened
abbrev pub new_backend : FileConfig → Handles → Backend
new_backend f w = file_backend w.next f.level

-- What `createFileLoggers` returns besides the files that are open.
pub record FileLoggers : Type 0 where
  pub backends : List Backend
  pub open_files : List ℕ

-- The two appends.
abbrev pub with_file : FileConfig → Handles → FileLoggers → FileLoggers
with_file f w made = record {
  backends = made.backends ++ new_backend f w ∷ [];
  open_files = made.open_files ++ w.next ∷ [];
}

module _ (disk : Disk) where
  open disk use {is_missing, can_create, can_open}

  -- os.Create of `createLogFile`, whose handle is dropped
  unfoldable pub created : Text → Handles → Handles
  created name w = if is_missing name w.next then open_handle w else w

  -- The handles where `createLogFile` fails.
  unfoldable pub not_opened : Text → Handles → Handles
  not_opened name w = if is_missing name w.next && not (can_create name) then w else created name w

  -- Whether `createLogFile` gives a file.
  unfoldable pub can_log : Text → Handles → Bool
  can_log name w = (not (is_missing name w.next) || can_create name) && can_open name

  -- The loop of `createFileLoggers`, with what it has made so far.
  unfoldable pub create_from :
      List FileConfig → FileLoggers → Handles → Result FileError FileLoggers × Handles
  create_from [] made w = (ok made, w)
  create_from (f ∷ files) made w =
      let w' = created f.name w in
      let rest = create_from files (with_file f w' made) (open_handle w') in
      if can_log f.name w
      then rest
      else (err (file_not_opened f.name), close_all made.open_files (not_opened f.name w))

  unfoldable pub create_file_loggers :
      List FileConfig → Handles → Result FileError FileLoggers × Handles
  create_file_loggers files w = create_from files (record { backends = []; open_files = [] }) w

  abbrev pub std_if : (Level → Backend) → BoolConfig → List Backend
  std_if b c = if c.enabled then b c.level ∷ [] else []

  -- `loggerInit` past the parse; `syslog` is whether a connection to syslog can be made. The last
  -- part is what logging.SetBackend is called with.
  unfoldable pub init_std :
      Bool
      → LogConfig
      → Result FileError FileLoggers × Handles
      → Run (Result FileError (LoggingState × List Backend)) × Handles
  init_std syslog c (err e, w) = (returned (err e), w)
  init_std syslog c (ok made, w) =
      let std = std_if stderr_backend c.stderr ++ std_if syslog_backend c.syslog in
      if c.syslog.enabled && not syslog then (panicked, w) else (
        returned (
            ok (
              record {
                file_backends = made.backends;
                std_backends = std;
                files = made.open_files;
                config = c;
              },
              std ++ made.backends,
            )),
        w,
      )

  unfoldable pub init_parsed :
      Bool
      → Result LogError LogConfig
      → Handles
      → Run (Result FileError (LoggingState × List Backend)) × Handles
  init_parsed syslog (err e) w = (panicked, w)
  init_parsed syslog (ok c) w = init_std syslog c (create_file_loggers c.files w)

  -- `loggerInit`
  unfoldable pub logger_init :
      Bool → Text → Handles → Run (Result FileError (LoggingState × List Backend)) × Handles
  logger_init syslog cfg w = init_parsed syslog (Logger.parse_log_config cfg) w

  -- `cleanUp`, which only logs the files that are closed already
  unfoldable pub clean_up : List ℕ → Handles → Handles
  clean_up [] w = w
  clean_up (h ∷ files) w = clean_up files (close h w)

  unfoldable pub reopen_with :
      LoggingState
      → Result FileError FileLoggers × Handles
      → Result FileError (List Backend) × Handles
  reopen_with s (err e, w) = (err e, w)
  reopen_with s (ok made, w) = (ok (s.std_backends ++ made.backends), clean_up s.files w)

  -- `reopen`, whose receiver is a copy: the state of the caller stays as it was. The backends are
  -- those of logging.SetBackend.
  unfoldable pub reopen : LoggingState → Handles → Result FileError (List Backend) × Handles
  reopen s w = reopen_with s (create_file_loggers s.config.files w)
