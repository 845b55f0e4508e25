-- ===== src/Config/Loading.antt =====
-- How the configuration is loaded (config.go). The parser of TOML is a parameter, as are the files.
use leng.Prelude.{
  ℕ, ◌≡◌, refl, sym, ap, ◌∙◌, inl, inr, Bool, false, not, ◌&&◌, Option, none, some, [], ◌++◌, arith,
  nat_beq, if◌then◌else◌, Bool-cases, ◌==◌, eq_iff, ok-injective, Result, ok, err, length, Text,
  bytes, comparable_text,
}
use leng.Config.{Config, TlsConfig}
use leng.Config.Defaults
use leng.Tls
use leng.Tls.{TlsLib, TlsError}

-- An error of the decoder: its text and, if it is a *toml.DecodeError, its other text, row and column.
pub record DecodeFailure : Type 0 where
  pub message : Text
  pub position : Option (Text × ℕ × ℕ)

-- go-toml: `unmarshal` reads a text, which is taken to be well formed, into a configuration of which
-- nothing is set, and `decode` sets in a configuration what a text says. `print_int` is how package
-- fmt prints an int.
pub record Toml : Type 0 where
  pub unmarshal : Text → Config
  pub decode : Text → Config → Result DecodeFailure Config
  pub print_int : ℕ → Text

-- os.Stat and os.Open with the text of the file
pub record ConfigFiles : Type 0 where
  pub is_missing : Text → Bool
  pub open_text : Text → Option Text
  pub clean : Text → Text

pub data LoadError : Type 0 where
  not_decoded : Text → LoadError
  tls_not_loaded : TlsError → LoadError

-- `ConfigVersion`
abbrev pub config_version : Text
config_version = bytes "1.6.0"

-- `parsedConfig`
unfoldable pub parsed_config : TlsLib → TlsConfig → Result TlsError (Option Tls.Config)
parsed_config lib c =
    if not c.enabled
    then ok none
    else elim (Tls.new_tls_config lib c.cert_path c.key_path c.ca_path) [
      | err e ↦ err e
      | ok t ↦ ok (some t)
    ]

-- A file without a version is said to have the version "none".
unfoldable pub name_version : Config → Config
name_version c = record c {
  version =
      if not (c.version == config_version) && nat_beq (length c.version) 0
      then bytes "none"
      else c.version;
}

unfoldable pub set_parsed_tls :
    Config → Result TlsError (Option Tls.Config) → Result LoadError Config
set_parsed_tls c (err e) = err (tls_not_loaded e)
set_parsed_tls c (ok t) = ok (
    name_version
      (record c { dns_over_http_server = record c.dns_over_http_server { parsed_tls = t } }))

untouched :
    (c : Config)
    → (name_version c).dns_over_http_server.parsed_tls ≡ c.dns_over_http_server.parsed_tls
unfolding name_version
untouched c = refl

named : (c : Config) → nat_beq (length (name_version c).version) 0 ≡ false
unfolding name_version
named c = ground (arith, eq_iff c.version config_version)

-- A configuration that `LoadConfig` may return: it has a version and no TLS.
abbrev pub IsLoaded : Config → Type 0
IsLoaded c = (nat_beq (length c.version) 0 ≡ false) × (c.dns_over_http_server.parsed_tls ≡ none)

module _ (toml : Toml) (files : ConfigFiles) (lib : TlsLib) where
  -- `parseDefaultConfig`
  unfoldable pub parse_default_config : Config
  parse_default_config = record (toml.unmarshal Defaults.default_config) {
    version = config_version;
  }

  -- The lines about the place of a *toml.DecodeError.
  unfoldable pub place_text : Option (Text × ℕ × ℕ) → Text
  place_text none = []
  place_text (some (text, row, column)) =
      bytes "\n"
      ++ text
      ++ bytes "\n"
      ++ bytes "error occurred at row "
      ++ toml.print_int row
      ++ bytes " column "
      ++ toml.print_int column
      ++ bytes "\n"

  -- `contextualisedParsingErrorFrom`
  unfoldable pub contextualised_parsing_error_from : DecodeFailure → Text
  contextualised_parsing_error_from e =
      bytes "could not load config:" ++ e.message ++ place_text e.position

  unfoldable pub after_decode : Result DecodeFailure Config → Result LoadError Config
  after_decode (err e) = err (not_decoded (contextualised_parsing_error_from e))
  after_decode (ok c) = set_parsed_tls c (parsed_config lib c.dns_over_http_server.tls)

  unfoldable pub after_open : Option Text → Result LoadError Config
  after_open none = ok parse_default_config
  after_open (some text) = after_decode (toml.decode text parse_default_config)

  unfoldable pub load_config : Text → Result LoadError Config
  load_config path =
      if files.is_missing path
      then ok parse_default_config
      else after_open (files.open_text (files.clean path))

  -- `TlsConfig` has no exported field, and go-toml sets exported fields only.
  abbrev pub KeepsTls : Type 0
  KeepsTls =
      (text : Text) (c c' : Config)
      → toml.decode text c ≡ ok c'
      → c'.dns_over_http_server.tls ≡ c.dns_over_http_server.tls

  -- The text of the default configuration is read as TOML has it.
  abbrev pub ReadsDefaults : Type 0
  ReadsDefaults = toml.unmarshal Defaults.default_config ≡ Defaults.default_settings

  set_parsed_tls-IsLoaded :
      (c c' : Config)
      → c.dns_over_http_server.tls.enabled ≡ false
      → set_parsed_tls c (parsed_config lib c.dns_over_http_server.tls) ≡ ok c'
      → IsLoaded c'
  unfolding set_parsed_tls parsed_config
  set_parsed_tls-IsLoaded c c' e h =
      let d : Config = record c {
        dns_over_http_server = record c.dns_over_http_server { parsed_tls = none };
      } in
      let off : parsed_config lib c.dns_over_http_server.tls ≡ ok none = rw e refl in
      let q : name_version d ≡ c' = ok-injective (ap (set_parsed_tls c) (sym off) ∙ h) in
      rw (sym q) (named d, untouched d)

  default-IsLoaded : ReadsDefaults → IsLoaded parse_default_config
  unfolding parse_default_config
  default-IsLoaded d = (refl, ap (λ (c : Config). c.dns_over_http_server.parsed_tls) d)

  after_decode-IsLoaded :
      (o : Result DecodeFailure Config) (c : Config)
      → ((d : Config) → o ≡ ok d → d.dns_over_http_server.tls.enabled ≡ false)
      → after_decode o ≡ ok c
      → IsLoaded c
  unfolding after_decode
  after_decode-IsLoaded (err e) c k h = cc
  after_decode-IsLoaded (ok d) c k h = set_parsed_tls-IsLoaded d c (k d refl) h

  after_open-IsLoaded :
      (o : Option Text) (c : Config) → KeepsTls → ReadsDefaults → after_open o ≡ ok c → IsLoaded c
  unfolding after_open parse_default_config
  after_open-IsLoaded none c k r h = rw (sym (ok-injective h)) (default-IsLoaded r)
  after_open-IsLoaded (some text) c k r h =
      after_decode-IsLoaded (toml.decode text parse_default_config) c
        (λ d q.
          ap (λ (t : TlsConfig). t.enabled)
            (k text parse_default_config d q ∙ ap (λ (x : Config). x.dns_over_http_server.tls) r))
        h

  -- If the parser reads the default text as TOML has it and leaves `TlsConfig` alone, every
  -- configuration that is loaded has a version and no TLS configuration, whatever the file says.
  pub load_config-IsLoaded :
      (path : Text) (c : Config) → KeepsTls → ReadsDefaults → load_config path ≡ ok c → IsLoaded c
  unfolding load_config
  load_config-IsLoaded path c k r h = elim (Bool-cases (files.is_missing path)) [
    | inl m ↦
        let q : ◌≡◌ {A = Result LoadError Config} (ok parse_default_config) (ok c) =
          rw (sym h, m) refl in
        rw (sym (ok-injective q)) (default-IsLoaded r)
    | inr m ↦ after_open-IsLoaded (files.open_text (files.clean path)) c k r (rw (sym h, m) refl)
  ]

  -- Where there is no file, or it cannot be opened, the settings are those of the default text.
  load_config_default :
      (path : Text)
      → ReadsDefaults
      → files.open_text (files.clean path) ≡ none
      → load_config path ≡ ok (record Defaults.default_settings { version = config_version })
  unfolding load_config after_open parse_default_config
  load_config_default path r h = elim (Bool-cases (files.is_missing path)) [
    | inl m ↦ rw (m, r) refl
    | inr m ↦ rw (m, h, r) refl
  ]
