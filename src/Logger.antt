-- ===== src/Logger.antt =====
-- logger.go: the log configuration. The two regular expressions are written out as matchers: each
-- tries the positions of a text from the left, and every part of them matches in one way only.
pub mod Files
pub mod Printing
pub mod Leaks
use leng.Prelude.{
  ℕ, zero, suc, ◌+◌, ◌-◌, ◌*◌, ◌^◌, Bool, true, false, ◌&&◌, ◌||◌, Option, none, some, List, [],
  ◌∷◌, ◌++◌, ltb, leb, nat_beq, if◌then◌else◌, Result, ok, err, length, ℤ, pos, negsuc, Text, bytes,
  comparable_text,
}

-- The levels of go-logging that the program sets.
pub data Level : Type 0 where
  critical warning info debug : Level

pub record FileConfig : Type 0 where
  pub name : Text
  pub level : Level

pub record BoolConfig : Type 0 where
  pub enabled : Bool
  pub level : Level

pub record LogConfig : Type 0 where
  pub files : List FileConfig
  pub syslog : BoolConfig
  pub stderr : BoolConfig

pub data LogError : Type 0 where
  not_an_integer not_a_valid_value unknown_fragment : Text → LogError

-- The zero value
abbrev pub no_config : LogConfig
no_config = record {
  files = [];
  syslog = record { enabled = false; level = critical };
  stderr = record { enabled = false; level = critical };
}

abbrev pub is_digit : ℕ → Bool
is_digit c = leb b'0' c && leb c b'9'

-- The value of decimal digits, behind the value read so far.
unfoldable pub digits : ℕ → Text → Option ℕ
digits n [] = some n
digits n (c ∷ s) = let rest = digits (n * 10 + (c - b'0')) s in if is_digit c then rest else none

unfoldable pub unsigned : Text → Option ℕ
unsigned [] = none
unsigned (c ∷ s) = digits 0 (c ∷ s)

-- An int64: -n for `true`
unfoldable pub to_int : Bool → Option ℕ → Option ℤ
to_int negative none = none
to_int true (some zero) = some (pos 0)
to_int true (some (suc n)) = if ltb n (2 ^ 63) then some (negsuc n) else none
to_int false (some n) = if ltb n (2 ^ 63) then some (pos n) else none

-- strconv.Atoi
unfoldable pub atoi : Text → Option ℤ
atoi [] = none
atoi (c ∷ s) =
    if nat_beq c b'-'
    then to_int true (unsigned s)
    else to_int false (unsigned (if nat_beq c b'+' then s else c ∷ s))

unfoldable pub level_of : Text → Option ℤ → Result LogError Level
level_of text none = err (not_an_integer text)
level_of text (some (pos zero)) = ok warning
level_of text (some (pos (suc zero))) = ok info
level_of text (some (pos (suc (suc zero)))) = ok debug
level_of text (some (pos (suc (suc (suc n))))) = err (not_a_valid_value text)
level_of text (some (negsuc n)) = err (not_a_valid_value text)

unfoldable pub parse_log_level : Text → Result LogError Level
parse_log_level text = level_of text (atoi text)

-- What follows a prefix.
unfoldable pub after_prefix : Text → Text → Option Text
after_prefix [] s = some s
after_prefix (c ∷ p) [] = none
after_prefix (c ∷ p) (d ∷ s) = let rest = after_prefix p s in if nat_beq c d then rest else none

-- [^@]*@, with what follows
unfoldable pub cons_to : ℕ → Option (Text × Text) → Option (Text × Text)
cons_to c none = none
cons_to c (some (s, rest)) = some (c ∷ s, rest)

unfoldable pub up_to_at : Text → Option (Text × Text)
up_to_at [] = none
up_to_at (c ∷ s) = let r = up_to_at s in if nat_beq c b'@' then some ([], s) else cons_to c r

-- \s of a regular expression
abbrev pub is_blank : ℕ → Bool
is_blank c = (leb 9 c && leb c 10) || (leb 12 c && leb c 13) || nat_beq c 32

-- \S*
unfoldable pub non_blank : Text → Text
non_blank [] = []
non_blank (c ∷ s) = let rest = non_blank s in if is_blank c then [] else c ∷ rest

-- `[^@]+@\S+` of which the name and the rest are found
unfoldable pub file_parts : Option (Text × Text) → Option (Text × Text)
file_parts none = none
file_parts (some (name, rest)) =
    if nat_beq (length name) 0 || nat_beq (length (non_blank rest)) 0
    then none
    else some (name, non_blank rest)

abbrev pub bind_option : {A B : Type 0} → Option A → (A → Option B) → Option B
bind_option none f = none
bind_option (some a) f = f a

abbrev pub or_else : {A : Type 0} → Option A → Option A → Option A
or_else none o = o
or_else (some a) o = some a

-- file:([^@]+)@(\S+) at the start of a text, and anywhere in it
unfoldable pub file_at : Text → Option (Text × Text)
file_at s = bind_option (after_prefix (bytes "file:") s) (λ r. file_parts (up_to_at r))

unfoldable pub find_file : Text → Option (Text × Text)
find_file [] = none
find_file (c ∷ s) = or_else (file_at (c ∷ s)) (find_file s)

pub data StdBackend : Type 0 where
  to_syslog to_stderr : StdBackend

unfoldable pub level_part : StdBackend → Text → Option (StdBackend × Text)
level_part b rest = if nat_beq (length (non_blank rest)) 0 then none else some (b, non_blank rest)

-- (syslog|stderr)@(\S+) at the start of a text, and anywhere in it
unfoldable pub bool_at : Text → Option (StdBackend × Text)
bool_at s =
    or_else (bind_option (after_prefix (bytes "syslog@") s) (level_part to_syslog))
      (bind_option (after_prefix (bytes "stderr@") s) (level_part to_stderr))

unfoldable pub find_bool : Text → Option (StdBackend × Text)
find_bool [] = none
find_bool (c ∷ s) = or_else (bool_at (c ∷ s)) (find_bool s)

abbrev pub with_level : Result LogError Level → (Level → LogConfig) → Result LogError LogConfig
with_level (err e) f = err e
with_level (ok l) f = ok (f l)

unfoldable pub set_std : StdBackend → LogConfig → Level → LogConfig
set_std to_syslog c l = record c { syslog = record { enabled = true; level = l } }
set_std to_stderr c l = record c { stderr = record { enabled = true; level = l } }

unfoldable pub add_std : Text → Option (StdBackend × Text) → LogConfig → Result LogError LogConfig
add_std part none c = err (unknown_fragment part)
add_std part (some (b, level)) c = with_level (parse_log_level level) (set_std b c)

unfoldable pub add_part : Text → Option (Text × Text) → LogConfig → Result LogError LogConfig
add_part part (some (name, level)) c =
    with_level (parse_log_level level)
      (λ l. record c { files = c.files ++ record { name = name; level = l } ∷ [] })
add_part part none c = add_std part (find_bool part) c

abbrev pub then_parse :
    Result LogError LogConfig → (LogConfig → Result LogError LogConfig) → Result LogError LogConfig
then_parse (err e) f = err e
then_parse (ok c) f = f c

-- The loop over the parts.
unfoldable pub parse_parts : List Text → LogConfig → Result LogError LogConfig
parse_parts [] c = ok c
parse_parts (part ∷ parts) c = then_parse (add_part part (find_file part) c) (parse_parts parts)

-- strings.Split by a comma: the first part and the others
unfoldable pub split_comma : Text → Text × List Text
split_comma [] = ([], [])
split_comma (c ∷ s) =
    let r = split_comma s in if nat_beq c b',' then ([], r.0 ∷ r.1) else (c ∷ r.0, r.1)

unfoldable pub parse_log_config : Text → Result LogError LogConfig
parse_log_config s = parse_parts ((split_comma s).0 ∷ (split_comma s).1) no_config
