-- ===== src/Config/Tests.antt =====
-- The theorems on the configuration at concrete environments. A URL is read off its text.
use mathlib.Core.Bool.{xor}
use project_management.Config.Integer.{parse_int}
use project_management.Config.Secrets.{Agree, SameProblems, load_hides}
use project_management.Config.Valid.{IsValid, load-IsValid}
use project_management.Config.{load, parse_trusted_proxies, load_rest}
use project_management.Config.Settings.{
  production, info, Url, Config, ConfigLibrary, Lookup, value, read_env,
}
use project_management.Identity.Password.Reading.{split_at}
use project_management.Identity.Text.{trim_space}
use project_management.Prelude.Outcome.{ok}
use project_management.Prelude.{
  none, some, [], ◌∷◌, Bytes, codes, bytes_eq, ◌≡◌, refl, arith, if◌then◌else◌, Bool-cases, inl,
  inr,
}

abbrev url_of : (scheme : Bytes) → Url
url_of scheme = record { scheme = scheme; host = codes "h"; path = [] }

abbrev pub texts : ConfigLibrary Bytes Bytes
texts = record {
  parse_url = λ raw. some (
      url_of (
        if bytes_eq raw (codes "pg")
        then codes "postgres"
        else if bytes_eq raw (codes "rd")
        then codes "redis"
        else codes "https"));
  parse_mail_address = λ raw. some (record { name = []; address = raw });
  to_lower = λ raw. raw;
  parse_prefix = λ raw. none;
  parse_addr = λ raw. some raw;
  host_prefix = λ addr. addr;
}

abbrev pub settings : (password : Bytes) → Lookup
settings password key =
    if bytes_eq key (codes "SMTP_PASSWORD")
    then some password
    else if bytes_eq key (codes "APP_ENV")
    then some (codes "production")
    else if bytes_eq key (codes "APP_BASE_URL")
    then some (codes "site")
    else if bytes_eq key (codes "DATABASE_URL")
    then some (codes "pg")
    else if bytes_eq key (codes "REDIS_URL")
    then some (codes "rd")
    else if bytes_eq key (codes "SMTP_HOST")
    then some (codes "mx")
    else if bytes_eq key (codes "SMTP_FROM")
    then some (codes "n@x.y")
    else if bytes_eq key (codes "SMTP_USERNAME")
    then some (codes "u")
    else if bytes_eq key (codes "TRUSTED_PROXIES")
    then some (codes "10.0.0.1, 10.0.0.2")
    else none

abbrev pub loaded : Config Bytes
loaded = record {
  env = production;
  base_url = url_of (codes "https");
  http_addr = codes ":8080";
  log_level = info;
  max_request_bytes = 1048576;
  database_url = codes "pg";
  database_max_conns = 20;
  redis_url = codes "rd";
  trusted_proxies = codes "10.0.0.1" ∷ codes "10.0.0.2" ∷ [];
  smtp = record {
    host = codes "mx";
    port = 587;
    from = record { name = []; address = codes "n@x.y" };
    username = codes "u";
    password = codes "p";
  };
}

pub load_runs : load texts (settings (codes "p")) ≡ ok loaded
unfolding load value trim_space bytes_eq xor parse_int parse_trusted_proxies split_at read_env
    load_rest
load_runs = refl

load-IsValid_example : IsValid texts loaded
load-IsValid_example = load-IsValid texts (settings (codes "p")) loaded load_runs

-- An environment with a port that is none.
abbrev broken : (password : Bytes) → Lookup
broken password key =
    if bytes_eq key (codes "SMTP_PORT") then some (codes "0") else settings password key

broken-Agree : Agree (broken (codes "p")) (broken (codes "q"))
broken-Agree key open_key = elim (Bool-cases (bytes_eq key (codes "SMTP_PASSWORD"))) [
  | inl secret ↦ absurd (ground arith)
  | inr other ↦ rw other refl
]

load_hides_example :
    SameProblems (load texts (broken (codes "p"))) (load texts (broken (codes "q")))
unfolding value trim_space bytes_eq
load_hides_example =
    load_hides texts (broken (codes "p")) (broken (codes "q")) broken-Agree refl refl (refl, refl)
      (refl, refl)
