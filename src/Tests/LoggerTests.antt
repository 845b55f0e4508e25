-- ===== src/Tests/LoggerTests.antt =====
-- Log configurations and log files at concrete inputs.
use leng.Prelude.{◌≡◌, refl, true, List, [], ◌∷◌, ◌==◌, ok, err, bytes, text_beq, comparable_text}
use leng.Logger
use leng.Logger.{FileConfig, LogConfig, no_config}
use leng.Logger.Printing.{LogOption, apply_options, parse-print_options, with_queries, with_debug}
use leng.Logger.Files
use leng.Logger.Files.{Disk, Handles, LoggingState}
use leng.Logger.Leaks.{unknown, reopens}
use leng.Tls
use leng.Tls.{TlsLib}

program : Unit {0}
unfolding Files.create_file_loggers Files.create_from Files.created Files.not_opened Files.can_log
    Files.close_all Files.close Files.without Files.is_open Files.reopen Files.reopen_with
    Files.clean_up reopens text_beq Tls.new_tls_config Tls.with_cert Tls.with_roots Tls.load_roots
    Tls.set_tls_defaults Logger.parse_log_level Logger.atoi Logger.unsigned Logger.digits
    Logger.to_int Logger.level_of
program = tt

abbrev options : List LogOption
options = LogOption.syslog with_queries ∷ LogOption.stderr with_debug ∷ []

parse-print_options_example :
    Logger.parse_log_config (bytes "file:leng.log@2,syslog@1,stderr@2")
    ≡ ok (apply_options (LogOption.file (bytes "leng.log") with_debug ∷ options) no_config)
parse-print_options_example =
    parse-print_options (LogOption.file (bytes "leng.log") with_debug) options
      ((refl, refl, refl), (tt, (tt, tt)))

bad_level : Logger.parse_log_level (bytes "-1") ≡ err (Logger.not_a_valid_value (bytes "-1"))
unfolding program
bad_level = refl

-- The log file "a" has always been moved away, and the file "b" cannot be created.
abbrev disk : Disk
disk = record { is_missing = λ f n. true; can_create = λ f. f == bytes "a"; can_open = λ f. true }

abbrev a_file : FileConfig
a_file = record { name = bytes "a"; level = Logger.info }

abbrev handles : Handles
handles = record { next = 4; opened = 3 ∷ [] }

abbrev logging : LoggingState
logging = record {
  file_backends = [];
  std_backends = [];
  files = 3 ∷ [];
  config = record no_config { files = a_file ∷ [] };
}

-- Two rotations of one missing file leave four files open that the state does not know.
four_leak : unknown disk logging (reopens disk 2 logging handles) ≡ 4
unfolding program
four_leak = refl
