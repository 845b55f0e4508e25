-- ===== src/Config.antt =====
-- The configuration record of config.go. Durations are numbers in the unit that the code gives them.
pub mod Defaults
pub mod Loading
use leng.Tls
use leng.Prelude.{ℕ, Bool, Option, List, ℤ, Text, comparable_text}

pub record Blocking : Type 0 where
  pub sources : List Text
  pub sources_store : Text
  pub source_dirs : List Text
  pub blocklist : List Text
  pub whitelist : List Text
  pub nxdomain : Bool
  pub nullroute : Text
  pub nullroutev6 : Text

pub record Upstream : Type 0 where
  pub doh : Text
  pub nameservers : List Text
  pub timeout_s : ℤ
  pub expire : ℕ
  pub maxcount : ℤ

pub record Metrics : Type 0 where
  pub enabled : Bool
  pub path : Text
  pub high_cardinality_enabled : Bool
  pub reset_period_minutes : ℤ
  pub histograms_enabled : Bool

pub record TlsConfig : Type 0 where
  pub cert_path : Text
  pub key_path : Text
  pub ca_path : Text
  pub enabled : Bool

pub record DnsOverHttpServer : Type 0 where
  pub enabled : Bool
  pub bind : Text
  pub timeout_ms : ℤ
  pub tls : TlsConfig
  -- `parsedTls`, a pointer
  pub parsed_tls : Option Tls.Config

pub record Config : Type 0 where
  pub version : Text
  pub log_config : Text
  pub bind : Text
  pub api : Text
  pub interval : ℤ
  pub timeout : ℤ
  pub question_cache_cap : ℤ
  pub ttl : ℕ
  pub custom_dns_records : List Text
  pub api_debug : Bool
  pub blocking : Blocking
  pub upstream : Upstream
  pub metrics : Metrics
  pub dns_over_http_server : DnsOverHttpServer
  pub follow_cname_depth : ℕ
