-- ===== src/Config/Settings.antt =====
-- backend/internal/config/config.go: the types of a configuration, and each setting read from its text. A
-- problem is told with what its text names.
use mathlib.Core.Bool.{xor}
use project_management.Config.Integer.{ℤ, pos, negsuc, parse_int}
use project_management.Identity.Text.{trim_space}
use project_management.Mail.{Address}
use project_management.Prelude.Outcome.{Outcome, ok, err, panic}
use project_management.Prelude.{
  ℕ, Bool, true, false, not, ◌&&◌, ◌||◌, Option, none, some, List, [], ◌∷◌, ◌++◌, Bytes, codes,
  bytes_eq, ltb, ◌==◌, if◌then◌else◌,
}

-- `Env`, whose zero value is the empty string.
pub data Env : Type 0 where
  unset local production : Env

pub data LogLevel : Type 0 where
  debug info warn error : LogLevel

-- What is read of net/url's `URL`.
pub record Url : Type 0 where
  pub scheme : Bytes
  pub host : Bytes
  pub path : Bytes

pub data Problem : Type 0 where
  missing : (key : Bytes) → Problem
  invalid : (key got want : Bytes) → Problem
  invalid_secret : (key want : Bytes) → Problem
  -- APP_BASE_URL is invalid, with the error of the parser
  unparsed_base_url : (raw : Bytes) → Problem
  -- SMTP_USERNAME and SMTP_PASSWORD come together
  credentials_apart : Problem
  -- TRUSTED_PROXIES: an entry that is neither a range nor an address
  bad_proxy : (entry : Bytes) → Problem

pub record Smtp : Type 0 where
  pub host : Bytes
  pub port : ℕ
  pub from : Address
  pub username : Bytes
  pub password : Bytes

pub record Config (Prefix : Type 0) : Type 0 where
  pub env : Env
  pub base_url : Url
  pub http_addr : Bytes
  pub log_level : LogLevel
  pub max_request_bytes : ℕ
  pub database_url : Bytes
  pub database_max_conns : ℕ
  pub redis_url : Bytes
  pub trusted_proxies : List Prefix
  pub smtp : Smtp

pub record ConfigLibrary (Addr Prefix : Type 0) : Type 0 where
  pub parse_url : Bytes → Option Url
  pub parse_mail_address : Bytes → Option Address
  pub to_lower : Bytes → Bytes
  pub parse_prefix : Bytes → Option Prefix
  pub parse_addr : Bytes → Option Addr
  -- `netip.PrefixFrom(addr, addr.BitLen())`
  pub host_prefix : Addr → Prefix

abbrev pub Lookup : Type 0
Lookup = Bytes → Option Bytes

abbrev pub max_database_max_conns : ℕ
max_database_max_conns = 1000

-- A setting is what it becomes, or the problems with it; what is not set stays at Go's zero value, and is
-- read by nobody when there is a problem.
abbrev pub Setting : Type 0 → Type 0
Setting = Outcome (List Problem)

abbrev pub or_fallback : (fallback : Bytes) → Option Bytes → Bytes
or_fallback fallback none = fallback
or_fallback fallback (some v) =
    let trimmed = trim_space v in if bytes_eq trimmed [] then fallback else trimmed

-- `value`.
unfoldable pub value : Lookup → (key fallback : Bytes) → Bytes
value lookup key fallback = or_fallback fallback (lookup key)

unfoldable pub read_env : Bytes → Setting Env
read_env raw =
    if bytes_eq raw (codes "local")
    then ok local
    else if bytes_eq raw (codes "production")
    then ok production
    else if bytes_eq raw []
    then err (missing (codes "APP_ENV") ∷ [])
    else err (invalid (codes "APP_ENV") raw (codes "expected local or production") ∷ [])

-- `cfg.Env` as the later checks see it.
abbrev pub env_of : Setting Env → Env
env_of (ok env) = env
env_of s = unset

abbrev pub is_production : Env → Bool
is_production production = true
is_production e = false

-- `parseBaseURL`, of a URL that parsed.
unfoldable pub check_base_url : (raw : Bytes) → Env → Url → Setting Url
check_base_url raw env u =
    if bytes_eq u.host []
      || not (bytes_eq u.scheme (codes "http") || bytes_eq u.scheme (codes "https"))
    then err
        (invalid (codes "APP_BASE_URL") raw (codes "expected an absolute http or https URL") ∷ [])
    else if not (bytes_eq u.path []) && not (bytes_eq u.path (codes "/"))
    then err (invalid (codes "APP_BASE_URL") raw (codes "expected an origin without a path") ∷ [])
    else if is_production env && not (bytes_eq u.scheme (codes "https"))
    then err (
        invalid (codes "APP_BASE_URL") raw (codes "expected https when APP_ENV is production") ∷ [])
    else ok (record u { path = [] })

unfoldable pub read_log_level : Bytes → Setting LogLevel
read_log_level raw =
    if bytes_eq raw (codes "debug")
    then ok debug
    else if bytes_eq raw (codes "info")
    then ok info
    else if bytes_eq raw (codes "warn")
    then ok warn
    else if bytes_eq raw (codes "error")
    then ok error
    else err (invalid (codes "LOG_LEVEL") raw (codes "expected debug, info, warn or error") ∷ [])

-- A positive integer up to a bound; `parsed` is none where the parser fails.
abbrev pub within : (bound : ℕ) → List Problem → Option ℤ → Setting ℕ
within bound problems none = err problems
within bound problems (some (negsuc n)) = err problems
within bound problems (some (pos n)) = if n == 0 || ltb bound n then err problems else ok n

abbrev pub int64_max : ℕ
int64_max = 9223372036854775807

abbrev pub int32_max : ℕ
int32_max = 2147483647

unfoldable pub read_max_request_bytes : Bytes → Setting ℕ
read_max_request_bytes raw =
    within int64_max
      (invalid (codes "MAX_REQUEST_BYTES") raw (codes "expected a positive integer") ∷ [])
      (parse_int int64_max raw)

unfoldable pub read_database_max_conns : Bytes → Setting ℕ
read_database_max_conns raw =
    within max_database_max_conns
      (invalid (codes "DATABASE_MAX_CONNS") raw (codes "expected an integer between 1 and 1000")
        ∷ [])
      (parse_int int32_max raw)

unfoldable pub read_port : Bytes → Setting ℕ
read_port raw =
    within 65535
      (invalid (codes "SMTP_PORT") raw (codes "expected a port between 1 and 65535") ∷ [])
      (parse_int int64_max raw)

-- A URL that may carry a password is told by its variable alone.
unfoldable pub check_secret_url :
    (key scheme other want_url want_scheme : Bytes) → (raw : Bytes) → Option Url → Setting Bytes
check_secret_url key scheme other want_url want_scheme raw none =
    err (invalid_secret key want_url ∷ [])
check_secret_url key scheme other want_url want_scheme raw (some u) =
    if not (bytes_eq u.scheme scheme) && not (bytes_eq u.scheme other)
    then err (invalid_secret key want_scheme ∷ [])
    else if bytes_eq u.host []
    then err (invalid_secret key (codes "expected a host") ∷ [])
    else ok raw

-- The first check is of the pair in every environment.
abbrev pub read_credentials : Env → (username password : Bytes) → Setting (Bytes × Bytes)
read_credentials env username password =
    if xor (bytes_eq username []) (bytes_eq password [])
    then err (credentials_apart ∷ [])
    else if bytes_eq username [] && is_production env
    then err (missing (codes "SMTP_USERNAME") ∷ missing (codes "SMTP_PASSWORD") ∷ [])
    else ok (username, password)

abbrev pub required : (key : Bytes) → Bytes → Setting Bytes
required key raw = if bytes_eq raw [] then err (missing key ∷ []) else ok raw

-- The problems of both.
infixl 6 ◌⊗◌
abbrev pub ◌⊗◌ : {A B : Type 0} → Setting A → Setting B → Setting (A × B)
ok a ⊗ ok b = ok (a, b)
ok a ⊗ err q = err q
ok a ⊗ panic = panic
err p ⊗ ok b = err p
err p ⊗ err q = err (p ++ q)
err p ⊗ panic = panic
panic ⊗ y = panic
