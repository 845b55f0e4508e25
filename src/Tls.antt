-- ===== src/Tls.antt =====
-- tls/tls.go: the TLS configuration of the DNS-over-HTTPS server. The packages crypto/tls, crypto/x509
-- and os are parameters; a certificate and a pool are their bytes.
use leng.Prelude.{
  ℕ, ◌≡◌, refl, sym, ◌↔◌, Option, none, some, List, [], ◌∷◌, arith, ok-injective, Result, ok, err,
  length, Text, comparable_text,
}

pub record Config : Type 0 where
  pub certificates : List Text
  -- nil where the system's authorities are meant
  pub root_cas : Option Text
  pub min_version : ℕ
  pub max_version : ℕ
  pub cipher_suites : List ℕ

abbrev pub version_tls12 : ℕ
version_tls12 = 0x0303

abbrev pub version_tls13 : ℕ
version_tls13 = 0x0304

-- tls.LoadX509KeyPair, os.ReadFile of a cleaned path, and AppendCertsFromPEM on an empty pool
pub record TlsLib : Type 0 where
  pub load_key_pair : Text → Text → Option Text
  pub read_file : Text → Option Text
  pub certs_from_pem : Text → Option Text

pub data TlsError : Type 0 where
  cert_not_loaded file_not_read roots_not_read : TlsError

-- The suites TLS_ECDHE_*, by their numbers.
abbrev pub ecdsa_aes_256 : ℕ
ecdsa_aes_256 = 0xc02c

abbrev pub rsa_aes_256 : ℕ
rsa_aes_256 = 0xc030

abbrev pub ecdsa_chacha20 : ℕ
ecdsa_chacha20 = 0xcca9

abbrev pub rsa_chacha20 : ℕ
rsa_chacha20 = 0xcca8

abbrev pub ecdsa_aes_128 : ℕ
ecdsa_aes_128 = 0xc02b

abbrev pub rsa_aes_128 : ℕ
rsa_aes_128 = 0xc02f

abbrev pub suites : List ℕ
suites =
    ecdsa_aes_256 ∷ rsa_aes_256 ∷ ecdsa_chacha20 ∷ rsa_chacha20 ∷ ecdsa_aes_128 ∷ rsa_aes_128
    ∷ ecdsa_aes_256 ∷ rsa_aes_256 ∷ rsa_aes_128 ∷ []

-- `setTLSDefaults`
unfoldable pub set_tls_defaults : Config → Config
set_tls_defaults c = record c {
  min_version = version_tls12;
  max_version = version_tls13;
  cipher_suites = suites;
}

module _ (lib : TlsLib) where
  unfoldable pub parsed_roots : Option Text → Result TlsError (Option Text)
  parsed_roots none = err roots_not_read
  parsed_roots (some pool) = ok (some pool)

  unfoldable pub read_roots : Option Text → Result TlsError (Option Text)
  read_roots none = err file_not_read
  read_roots (some pem) = parsed_roots (lib.certs_from_pem pem)

  unfoldable pub load_roots : Text → Result TlsError (Option Text)
  load_roots [] = ok none
  load_roots (c ∷ path) = read_roots (lib.read_file (c ∷ path))

  unfoldable pub with_roots : Text → Result TlsError (Option Text) → Result TlsError Config
  with_roots cert (err e) = err e
  with_roots cert (ok roots) = ok (
      set_tls_defaults (record {
        certificates = cert ∷ [];
        root_cas = roots;
        min_version = version_tls12;
        max_version = 0;
        cipher_suites = [];
      }))

  unfoldable pub with_cert : Text → Option Text → Result TlsError Config
  with_cert ca_path none = err cert_not_loaded
  with_cert ca_path (some cert) = with_roots cert (load_roots ca_path)

  unfoldable pub new_tls_config : Text → Text → Text → Result TlsError Config
  new_tls_config cert_path key_path ca_path =
      with_cert ca_path (lib.load_key_pair cert_path key_path)

  parsed_roots-some :
      (o roots : Option Text) → parsed_roots o ≡ ok roots → (pool : Text) × (roots ≡ some pool)
  unfolding parsed_roots
  parsed_roots-some none roots h = cc
  parsed_roots-some (some pool) roots h = (pool, sym (ok-injective h))

  read_roots-some :
      (o roots : Option Text) → read_roots o ≡ ok roots → (pool : Text) × (roots ≡ some pool)
  unfolding read_roots
  read_roots-some none roots h = cc
  read_roots-some (some pem) roots h = parsed_roots-some (lib.certs_from_pem pem) roots h

  load_roots_given :
      (ca_path : Text) (roots : Option Text)
      → load_roots ca_path ≡ ok roots
      → (roots ≡ none) ↔ (ca_path ≡ [])
  unfolding load_roots
  load_roots_given [] roots h = (λ e. refl, λ e. sym (ok-injective h))
  load_roots_given (c ∷ path) roots h =
      let (pool, e) = read_roots-some (lib.read_file (c ∷ path)) roots h in
      (λ n. ground (arith, n, e), λ n. cc)

  with_roots_ok :
      (cert : Text) (r : Result TlsError (Option Text)) (c : Config)
      → with_roots cert r ≡ ok c
      → (r ≡ ok c.root_cas)
        × (c.min_version ≡ version_tls12)
        × (c.max_version ≡ version_tls13)
        × (length c.certificates ≡ 1)
  unfolding with_roots set_tls_defaults
  with_roots_ok cert (err e) c h = cc
  with_roots_ok cert (ok roots) c h = rw (sym (ok-injective h)) (refl, refl, refl, refl)

  with_cert_ok :
      (ca_path : Text) (cert : Option Text) (c : Config)
      → with_cert ca_path cert ≡ ok c
      → (c.min_version ≡ version_tls12)
        × (c.max_version ≡ version_tls13)
        × (length c.certificates ≡ 1)
        × ((c.root_cas ≡ none) ↔ (ca_path ≡ []))
  unfolding with_cert
  with_cert_ok ca_path none c h = cc
  with_cert_ok ca_path (some cert) c h =
      let (r, low, high, one) = with_roots_ok cert (load_roots ca_path) c h in
      (low, high, one, load_roots_given ca_path c.root_cas r)

  -- A TLS configuration that is made asks for TLS 1.2 or 1.3, holds one certificate, and relies on
  -- the authorities of the system exactly if no file of authorities is named.
  new_tls_config_ok :
      (cert_path key_path ca_path : Text) (c : Config)
      → new_tls_config cert_path key_path ca_path ≡ ok c
      → (c.min_version ≡ version_tls12)
        × (c.max_version ≡ version_tls13)
        × (length c.certificates ≡ 1)
        × ((c.root_cas ≡ none) ↔ (ca_path ≡ []))
  unfolding new_tls_config
  new_tls_config_ok cert_path key_path ca_path c h =
      with_cert_ok ca_path (lib.load_key_pair cert_path key_path) c h
