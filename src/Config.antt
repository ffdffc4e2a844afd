-- ===== src/Config.antt =====
-- backend/internal/config/config.go: what is read from the environment at start-up. net/url, net/mail and
-- net/netip are parameters, and so is lower-casing.
pub mod Integer
pub mod Settings
pub mod Valid
pub mod Secrets
pub mod Tests
use project_management.Config.Settings.{
  Config, ConfigLibrary, Env, LogLevel, Lookup, Setting, Smtp, Url, bad_proxy, check_base_url,
  check_secret_url, env_of, invalid, missing, read_credentials, read_database_max_conns, read_env,
  read_log_level, read_max_request_bytes, read_port, required, unparsed_base_url, value, ◌⊗◌,
}
use project_management.Identity.Password.Reading.{split_at}
use project_management.Identity.Text.{trim_space}
use project_management.Mail.{Address}
use project_management.Prelude.Outcome.{ok, err, panic}
use project_management.Prelude.{
  ℕ, Option, none, some, List, [], ◌∷◌, Bytes, codes, bytes_eq, if◌then◌else◌,
}

module _ {Addr Prefix : Type 0} (lib : ConfigLibrary Addr Prefix) where
  unfoldable pub parse_base_url : (raw : Bytes) → Env → Setting Url
  unfolding check_base_url
  parse_base_url raw env = elim (lib.parse_url raw) [
    | none ↦ err (unparsed_base_url raw ∷ [])
    | some u ↦ check_base_url raw env u
  ]

  unfoldable pub read_base_url : (raw : Bytes) → Env → Setting Url
  unfolding parse_base_url
  read_base_url raw env =
      if bytes_eq raw [] then err (missing (codes "APP_BASE_URL") ∷ []) else parse_base_url raw env

  -- `validateDatabaseURL`.
  unfoldable pub read_database_url : (raw : Bytes) → Setting Bytes
  unfolding check_secret_url
  read_database_url raw =
      if bytes_eq raw []
      then err (missing (codes "DATABASE_URL") ∷ [])
      else check_secret_url (codes "DATABASE_URL") (codes "postgres") (codes "postgresql")
          (codes "expected a postgres:// URL")
          (codes "expected the postgres:// or postgresql:// scheme") raw (lib.parse_url raw)

  -- `validateRedisURL`.
  unfoldable pub read_redis_url : (raw : Bytes) → Setting Bytes
  unfolding check_secret_url
  read_redis_url raw =
      if bytes_eq raw []
      then err (missing (codes "REDIS_URL") ∷ [])
      else check_secret_url (codes "REDIS_URL") (codes "redis") (codes "rediss")
          (codes "expected a redis:// URL") (codes "expected the redis:// or rediss:// scheme") raw
          (lib.parse_url raw)

  unfoldable pub read_from : (raw : Bytes) → Setting Address
  read_from raw =
      if bytes_eq raw []
      then err (missing (codes "SMTP_FROM") ∷ [])
      else elim (lib.parse_mail_address raw) [
        | none ↦ err (invalid (codes "SMTP_FROM") raw (codes "expected an e-mail address") ∷ [])
        | some from ↦ ok from
      ]

  abbrev pub smtp_of : ((Bytes × ℕ) × Address) × (Bytes × Bytes) → Smtp
  smtp_of (((host, port), from), (username, password)) = record {
    host = host;
    port = port;
    from = from;
    username = username;
    password = password;
  }

  abbrev pub mapped : {A B : Type 0} → (A → B) → Setting A → Setting B
  mapped f (ok a) = ok (f a)
  mapped f (err p) = err p
  mapped f panic = panic

  unfoldable pub load_smtp : Lookup → Env → Setting Smtp
  unfolding read_port read_from value
  load_smtp lookup env = mapped smtp_of (
      required (codes "SMTP_HOST") (value lookup (codes "SMTP_HOST") [])
      ⊗ read_port (value lookup (codes "SMTP_PORT") (codes "587"))
      ⊗ read_from (value lookup (codes "SMTP_FROM") [])
      ⊗ read_credentials env (value lookup (codes "SMTP_USERNAME") [])
          (value lookup (codes "SMTP_PASSWORD") []))

  -- One entry of TRUSTED_PROXIES: a range, or an address as the range of it alone.
  unfoldable pub read_proxy : (entry : Bytes) → Option Prefix
  read_proxy entry = elim (lib.parse_prefix entry) [
    | some p ↦ some p
    | none ↦ elim (lib.parse_addr entry) [ none ↦ none | some a ↦ some (lib.host_prefix a) ]
  ]

  abbrev pub with_proxy :
      Option Prefix → (entry : Bytes) → Setting (List Prefix) → Setting (List Prefix)
  with_proxy none entry rest = err (bad_proxy entry ∷ [])
  with_proxy (some p) entry rest = mapped (λ ps. p ∷ ps) rest

  -- The loop of `parseTrustedProxies`, over the parts between the commas.
  unfoldable pub read_proxies : List Bytes → Setting (List Prefix)
  unfolding read_proxy
  read_proxies [] = ok []
  read_proxies (part ∷ parts) =
      let rest = read_proxies parts in
      let entry = trim_space part in
      if bytes_eq entry [] then rest else with_proxy (read_proxy entry) entry rest

  unfoldable pub parse_trusted_proxies : (raw : Bytes) → Setting (List Prefix)
  unfolding read_proxies
  parse_trusted_proxies raw =
      if bytes_eq (trim_space raw) [] then ok [] else read_proxies (split_at b',' raw)

  -- The settings in the order in which `Load` reads them, APP_ENV first.
  abbrev pub config_of :
      Env
      → (((((((Url × LogLevel) × ℕ) × Bytes) × Bytes) × Smtp) × List Prefix) × ℕ)
      → (http_addr : Bytes) → Config Prefix
  config_of env (((((((url, level), bytes), database), redis), smtp), trusted), conns) http_addr =
      record {
        env = env;
        base_url = url;
        http_addr = http_addr;
        log_level = level;
        max_request_bytes = bytes;
        database_url = database;
        database_max_conns = conns;
        redis_url = redis;
        trusted_proxies = trusted;
        smtp = smtp;
      }

  -- The settings that depend on the environment as it was read, or that stand after it.
  unfoldable pub load_rest :
      Lookup
      → Env
      → Setting (((((((Url × LogLevel) × ℕ) × Bytes) × Bytes) × Smtp) × List Prefix) × ℕ)
  unfolding read_base_url read_log_level read_max_request_bytes read_database_url read_redis_url
      load_smtp parse_trusted_proxies read_database_max_conns value
  load_rest lookup env =
      read_base_url (value lookup (codes "APP_BASE_URL") []) env
      ⊗ read_log_level (lib.to_lower (value lookup (codes "LOG_LEVEL") (codes "info")))
      ⊗ read_max_request_bytes (value lookup (codes "MAX_REQUEST_BYTES") (codes "1048576"))
      ⊗ read_database_url (value lookup (codes "DATABASE_URL") [])
      ⊗ read_redis_url (value lookup (codes "REDIS_URL") [])
      ⊗ load_smtp lookup env
      ⊗ parse_trusted_proxies (value lookup (codes "TRUSTED_PROXIES") [])
      ⊗ read_database_max_conns (value lookup (codes "DATABASE_MAX_CONNS") (codes "20"))

  abbrev pub finished :
      (http_addr : Bytes)
      → Env × (((((((Url × LogLevel) × ℕ) × Bytes) × Bytes) × Smtp) × List Prefix) × ℕ)
      → Config Prefix
  finished http_addr (env, rest) = config_of env rest http_addr

  unfoldable pub load : Lookup → Setting (Config Prefix)
  unfolding read_env load_rest value
  load lookup =
      let env = read_env (value lookup (codes "APP_ENV") []) in
      mapped (finished (value lookup (codes "HTTP_ADDR") (codes ":8080")))
        (env ⊗ load_rest lookup (env_of env))
