-- ===== src/Logger/Printing.antt =====
-- A log configuration that is written as documented is read back (logger.go, config.go).
use leng.Prelude.{
  ℕ, ◌≡◌, refl, Bool, true, false, not, some, List, [], ◌∷◌, ◌++◌, arith, nat_beq, ok, length, any,
  All, Text, bytes, comparable_text,
}
use leng.Logger
use leng.Logger.{Level, warning, info, debug, FileConfig, LogConfig, LogError, no_config}

-- The log levels 0, 1 and 2 of the documentation.
pub data Verbosity : Type 0 where
  errors_only with_queries with_debug : Verbosity

abbrev pub level_for : Verbosity → Level
level_for errors_only = warning
level_for with_queries = info
level_for with_debug = debug

abbrev pub digit_for : Verbosity → ℕ
digit_for errors_only = b'0'
digit_for with_queries = b'1'
digit_for with_debug = b'2'

-- file:<filename>@<loglevel>, stderr@<loglevel> and syslog@<loglevel>
pub data LogOption : Type 0 where
  file : Text → Verbosity → LogOption
  stderr syslog : Verbosity → LogOption

abbrev pub print_option : LogOption → Text
print_option (file name v) = bytes "file:" ++ name ++ b'@' ∷ digit_for v ∷ []
print_option (stderr v) = bytes "stderr@" ++ digit_for v ∷ []
print_option (syslog v) = bytes "syslog@" ++ digit_for v ∷ []

-- A comma separated list of options.
abbrev pub print_options : LogOption → List LogOption → Text
print_options o [] = print_option o
print_options o (o' ∷ os) = print_option o ++ b',' ∷ print_options o' os

-- What an option sets.
abbrev pub apply_option : LogOption → LogConfig → LogConfig
apply_option (file name v) c = record c {
  files = c.files ++ record { name = name; level = level_for v } ∷ [];
}
apply_option (stderr v) c = record c { stderr = record { enabled = true; level = level_for v } }
apply_option (syslog v) c = record c { syslog = record { enabled = true; level = level_for v } }

abbrev pub apply_options : List LogOption → LogConfig → LogConfig
apply_options [] c = c
apply_options (o ∷ os) c = apply_options os (apply_option o c)

abbrev pub lacks : ℕ → Text → Bool
lacks c s = not (any (nat_beq c) s)

-- The name of a file is not empty, and holds neither an @ nor a comma.
abbrev pub CanPrint : LogOption → Type 0
CanPrint (file name v) =
    (nat_beq (length name) 0 ≡ false) × (lacks b'@' name ≡ true) × (lacks b',' name ≡ true)
CanPrint _ = Unit

up_to_at-append :
    (name rest : Text)
    → lacks b'@' name ≡ true
    → Logger.up_to_at (name ++ b'@' ∷ rest) ≡ some (name, rest)
unfolding Logger.up_to_at Logger.cons_to
up_to_at-append [] rest h = refl
up_to_at-append (c ∷ name) rest h =
    rw (up_to_at-append name rest (ground (arith, h))) (ground (arith, h))

add_part-option :
    (o : LogOption) (c : LogConfig)
    → CanPrint o
    → Logger.add_part (print_option o) (Logger.find_file (print_option o)) c ≡ ok (apply_option o c)
unfolding Logger.add_part Logger.find_file Logger.file_at Logger.after_prefix Logger.file_parts
    Logger.non_blank Logger.parse_log_level Logger.atoi Logger.unsigned Logger.digits Logger.to_int
    Logger.level_of Logger.add_std Logger.find_bool Logger.bool_at Logger.level_part Logger.set_std
    Logger.up_to_at Logger.cons_to
add_part-option (stderr errors_only) c p = refl
add_part-option (stderr with_queries) c p = refl
add_part-option (stderr with_debug) c p = refl
add_part-option (syslog errors_only) c p = refl
add_part-option (syslog with_queries) c p = refl
add_part-option (syslog with_debug) c p = refl
add_part-option (file name errors_only) c p =
    rw (up_to_at-append name (b'0' ∷ []) p.1, Logger.file_parts, p.0) refl
add_part-option (file name with_queries) c p =
    rw (up_to_at-append name (b'1' ∷ []) p.1, Logger.file_parts, p.0) refl
add_part-option (file name with_debug) c p =
    rw (up_to_at-append name (b'2' ∷ []) p.1, Logger.file_parts, p.0) refl

split_comma-append :
    (w s : Text)
    → lacks b',' w ≡ true
    → Logger.split_comma (w ++ b',' ∷ s) ≡ (w, (Logger.split_comma s).0 ∷ (Logger.split_comma s).1)
unfolding Logger.split_comma
split_comma-append [] s h = refl
split_comma-append (c ∷ w) s h = rw (split_comma-append w s (ground (arith, h))) (ground (arith, h))

split_comma_one : (w : Text) → lacks b',' w ≡ true → Logger.split_comma w ≡ (w, [])
unfolding Logger.split_comma
split_comma_one [] h = refl
split_comma_one (c ∷ w) h = rw (split_comma_one w (ground (arith, h))) (ground (arith, h))

lacks-append : (c : ℕ) (s t : Text) → lacks c s ≡ true → lacks c t ≡ true → lacks c (s ++ t) ≡ true
lacks-append c [] t h k = k
lacks-append c (d ∷ s) t h k = ground (arith, h, lacks-append c s t (ground (arith, h)) k)

no_comma : (o : LogOption) → CanPrint o → lacks b',' (print_option o) ≡ true
no_comma (stderr errors_only) p = refl
no_comma (stderr with_queries) p = refl
no_comma (stderr with_debug) p = refl
no_comma (syslog errors_only) p = refl
no_comma (syslog with_queries) p = refl
no_comma (syslog with_debug) p = refl
no_comma (file name errors_only) p = lacks-append b',' name _ p.2 refl
no_comma (file name with_queries) p = lacks-append b',' name _ p.2 refl
no_comma (file name with_debug) p = lacks-append b',' name _ p.2 refl

parse_options :
    (o : LogOption) (os : List LogOption) (c : LogConfig)
    → All CanPrint (o ∷ os)
    → Logger.parse_parts
        ((Logger.split_comma (print_options o os)).0 ∷ (Logger.split_comma (print_options o os)).1)
        c
      ≡ ok (apply_options (o ∷ os) c)
unfolding Logger.parse_parts
parse_options o [] c p =
    rw (split_comma_one (print_option o) (no_comma o p.0), add_part-option o c p.0) refl
parse_options o (o' ∷ os) c p =
    rw
      (
        split_comma-append (print_option o) (print_options o' os) (no_comma o p.0),
        add_part-option o c p.0,
      )
      (parse_options o' os (apply_option o c) p.1)

-- A comma separated list of options, in which the name of a file is not empty and holds neither an
-- @ nor a comma, is parsed to the configuration that the options set, one after another.
pub parse-print_options :
    (o : LogOption) (os : List LogOption)
    → All CanPrint (o ∷ os)
    → Logger.parse_log_config (print_options o os) ≡ ok (apply_options (o ∷ os) no_config)
unfolding Logger.parse_log_config
parse-print_options o os p = parse_options o os no_config p
