-- ===== src/Doh/Listening.antt =====
-- The DNS-over-HTTPS server around ServeHTTP (doh.go: NewServerHTTPS, ListenAndServe, Stop and
-- Shutdown; server.go: startHttp). Of net/http: ListenAndServe serves plain HTTP at the address, and
-- a server that is shut down serves no more. The handler is that of Doh.
use leng.Prelude.{
  ℕ, Bool, true, false, Option, none, some, if◌then◌else◌, Run, returned, panicked, ℤ, Text,
  comparable_text,
}
use leng.Tls

-- http.Server: `tls_config` is nil unless it is set.
pub record HttpServer : Type 0 where
  pub read_timeout : ℤ
  pub write_timeout : ℤ
  pub addr : Text
  pub tls_config : Option Tls.Config
  pub is_shut_down : Bool

-- `https_server` may be nil.
pub record ServerHttps : Type 0 where
  pub https_server : Option HttpServer
  pub tls_config : Option Tls.Config
  pub bind : Text
  pub ttl : ℕ

-- `NewServerHTTPS`, which never fails. It sets the protocols of the TLS configuration that it is
-- given, which nothing reads, and keeps it nowhere.
unfoldable pub new_server_https : Text → ℤ → ℕ → Option Tls.Config → ServerHttps
new_server_https bind timeout ttl tls = record {
  https_server = some (record {
    read_timeout = timeout;
    write_timeout = timeout;
    addr = bind;
    tls_config = none;
    is_shut_down = false;
  });
  tls_config = none;
  bind = bind;
  ttl = ttl;
}

-- How a server is listened on: plain HTTP, or the error of a server that is shut down.
pub data Listening : Type 0 where
  plain_http : Text → Listening
  server_closed : Listening

unfoldable pub listen : HttpServer → Listening
listen h = if h.is_shut_down then server_closed else plain_http h.addr

-- `ListenAndServe`, which panics on a nil server.
unfoldable pub listen_and_serve : ServerHttps → Run Listening
listen_and_serve s = elim s.https_server [ none ↦ panicked | some h ↦ returned (listen h) ]

-- `Shutdown`, and `Stop`, which does the same and returns nil
unfoldable pub shutdown : ServerHttps → ServerHttps
shutdown s = elim s.https_server [
  | none ↦ s
  | some h ↦ record s { https_server = some (record h { is_shut_down = true }) }
]
