-- ===== src/Config/Valid.antt =====
-- What a configuration that loads is known to be.
use mathlib.Core.Bool.{xor}
use project_management.Config.Integer.{ℤ, pos, negsuc, parse_int}
use project_management.Config.{
  parse_base_url, read_base_url, read_database_url, read_redis_url, mapped, smtp_of, load_smtp,
  finished, load_rest, load,
}
use project_management.Config.Settings.{
  Env, unset, local, production, Url, Problem, Smtp, Config, ConfigLibrary, Lookup,
  max_database_max_conns, Setting, value, read_env, env_of, is_production, check_base_url, within,
  int64_max, int32_max, invalid, read_max_request_bytes, read_database_max_conns, read_port,
  check_secret_url, read_credentials, required, ◌⊗◌,
}
use project_management.Prelude.Outcome.{ok, err, panic}
use project_management.Prelude.{
  ℕ, ◌≤◌, ◌<◌, Bool, true, false, not, ◌&&◌, ◌||◌, Option, none, some, List, [], ◌∷◌, Bytes, codes,
  bytes_eq, bytes_eq_iff, ◌≡◌, ◌≢◌, ◌↔◌, ◌⊎◌, inl, inr, refl, sym, subst, ap, ◌∙◌, arith,
  Bool-cases, Option-cases,
}

pub ⊗-inv :
    {A B : Type 0} (x : Setting A) (y : Setting B) (a : A) (b : B)
    → x ⊗ y ≡ ok (a, b)
    → (x ≡ ok a) × (y ≡ ok b)
⊗-inv (ok a) (ok b) c d e = (cc, cc)
⊗-inv (ok a) (err q) c d e = absurd (cc)
⊗-inv (ok a) panic c d e = absurd (cc)
⊗-inv (err p) (ok b) c d e = absurd (cc)
⊗-inv (err p) (err q) c d e = absurd (cc)
⊗-inv (err p) panic c d e = absurd (cc)
⊗-inv panic y c d e = absurd (cc)

within-ok :
    (bound n : ℕ) (problems : List Problem) (parsed : Option ℤ)
    → within bound problems parsed ≡ ok n
    → (0 < n) × (n ≤ bound)
within-ok bound n problems none e = absurd (cc)
within-ok bound n problems (some (negsuc m)) e = absurd (cc)
within-ok bound n problems (some (pos m)) e = ground arith

not_empty : (s : Bytes) → bytes_eq s [] ≡ false → s ≢ []
not_empty s e q = cc (e, (bytes_eq_iff s []).1 q)

read_port-range : (raw : Bytes) (n : ℕ) → read_port raw ≡ ok n → (0 < n) × (n ≤ 65535)
unfolding read_port
read_port-range raw n e =
    within-ok 65535 n
      (invalid (codes "SMTP_PORT") raw (codes "expected a port between 1 and 65535") ∷ [])
      (parse_int int64_max raw) e

read_max_request_bytes-range :
    (raw : Bytes) (n : ℕ) → read_max_request_bytes raw ≡ ok n → (0 < n) × (n ≤ int64_max)
unfolding read_max_request_bytes
read_max_request_bytes-range raw n e =
    within-ok int64_max n
      (invalid (codes "MAX_REQUEST_BYTES") raw (codes "expected a positive integer") ∷ [])
      (parse_int int64_max raw) e

read_database_max_conns-range :
    (raw : Bytes) (n : ℕ)
    → read_database_max_conns raw ≡ ok n
    → (0 < n) × (n ≤ max_database_max_conns)
unfolding read_database_max_conns
read_database_max_conns-range raw n e =
    within-ok max_database_max_conns n
      (invalid (codes "DATABASE_MAX_CONNS") raw (codes "expected an integer between 1 and 1000")
        ∷ [])
      (parse_int int32_max raw) e

-- The URL has one of two schemes and a host.
abbrev pub Reaches : (scheme other : Bytes) → Url → Type 0
Reaches scheme other u = ((u.scheme ≡ scheme) ⊎ (u.scheme ≡ other)) × (u.host ≢ [])

check_secret_url-Reaches :
    (key scheme other want_url want_scheme raw text : Bytes) (parsed : Option Url)
    → check_secret_url key scheme other want_url want_scheme raw parsed ≡ ok text
    → (text ≡ raw) × ((u : Url) × (parsed ≡ some u) × Reaches scheme other u)
unfolding check_secret_url
check_secret_url-Reaches key scheme other want_url want_scheme raw text none e = absurd (cc)
check_secret_url-Reaches key scheme other want_url want_scheme raw text (some u) e =
    elim (Bool-cases (bytes_eq u.host [])) [
      | inl hostless ↦ absurd (ground arith)
      | inr hosted ↦ elim (Bool-cases (bytes_eq u.scheme scheme)) [
        | inl first ↦ (
          ground arith,
          (u, refl, (inl ((bytes_eq_iff u.scheme scheme).0 first), not_empty u.host hosted)),
        )
        | inr not_first ↦ elim (Bool-cases (bytes_eq u.scheme other)) [
          | inl second ↦ (
            ground arith,
            (u, refl, (inr ((bytes_eq_iff u.scheme other).0 second), not_empty u.host hosted)),
          )
          | inr neither ↦ absurd (ground arith)
        ]
      ]
    ]

check_base_url-ok :
    (raw : Bytes) (env : Env) (u v : Url)
    → check_base_url raw env u ≡ ok v
    → (v.path ≡ [])
      × Reaches (codes "http") (codes "https") v
      × (is_production env ≡ true → v.scheme ≡ codes "https")
unfolding check_base_url
check_base_url-ok raw env u v e =
    elim (Bool-cases (
      bytes_eq u.host []
      || not (bytes_eq u.scheme (codes "http") || bytes_eq u.scheme (codes "https")))) [
        | inl unfit ↦ absurd (err_ne_ok (rw (unfit, check_base_url) at e))
        | inr fit ↦
            elim (Bool-cases (not (bytes_eq u.path []) && not (bytes_eq u.path (codes "/")))) [
              | inl deep ↦ absurd (err_ne_ok (rw (fit, deep, check_base_url) at e))
              | inr flat ↦
                  elim (Bool-cases (is_production env && not (bytes_eq u.scheme (codes "https")))) [
                    | inl plain ↦ absurd (err_ne_ok (rw (fit, flat, plain, check_base_url) at e))
                    | inr sealed ↦
                        let same : v ≡ record u { path = [] } =
                          ok_same (rw (fit, flat, sealed, check_base_url) at e) in
                        (
                          ap (λ (x : Url). x.path) same,
                          rw same (
                            web_scheme u (or_false _ _ fit).1,
                            not_empty u.host (or_false _ _ fit).0,
                          ),
                          λ live.
                              ap (λ (x : Url). x.scheme) same
                              ∙ (bytes_eq_iff u.scheme (codes "https")).0 (needed _ _ live sealed),
                        )
                  ]
            ]
      ]
  where
    err_ne_ok : {p : List Problem} → ◌≢◌ {A = Setting Url} (err p) (ok v)
    err_ne_ok q = cc

    ok_same : {w : Url} → ◌≡◌ {A = Setting Url} (ok w) (ok v) → v ≡ w
    ok_same q = cc

    or_false : (a b : Bool) → (a || b) ≡ false → (a ≡ false) × (b ≡ false)
    or_false true b q = absurd (cc)
    or_false false b q = (refl, q)

    web_scheme :
        (w : Url)
        → not (bytes_eq w.scheme (codes "http") || bytes_eq w.scheme (codes "https")) ≡ false
        → (w.scheme ≡ codes "http") ⊎ (w.scheme ≡ codes "https")
    web_scheme w q = elim (Bool-cases (bytes_eq w.scheme (codes "http"))) [
      | inl plain ↦ inl ((bytes_eq_iff w.scheme (codes "http")).0 plain)
      | inr other ↦ inr ((bytes_eq_iff w.scheme (codes "https")).0 (ground arith))
    ]

    needed : (a b : Bool) → a ≡ true → (a && not b) ≡ false → b ≡ true
    needed true true q r = refl
    needed true false q r = cc
    needed false b q r = cc

read_credentials-ok :
    (env : Env) (username password u p : Bytes)
    → read_credentials env username password ≡ ok (u, p)
    → ((u ≡ []) ↔ (p ≡ [])) × (is_production env ≡ true → u ≢ [])
unfolding bytes_eq xor
read_credentials-ok unset [] [] u p e = ((λ q. cc, λ q. cc), λ q. cc)
read_credentials-ok local [] [] u p e = ((λ q. cc, λ q. cc), λ q. cc)
read_credentials-ok production [] [] u p e = absurd (cc)
read_credentials-ok env [] (x ∷ xs) u p e = absurd (cc)
read_credentials-ok env (x ∷ xs) [] u p e = absurd (cc)
read_credentials-ok env (x ∷ xs) (y ∷ ys) u p e = ((λ q. cc, λ q. cc), λ live q. cc)

required-given : (key raw text : Bytes) → required key raw ≡ ok text → text ≢ []
unfolding bytes_eq
required-given key [] text e = absurd (cc)
required-given key (c ∷ cs) text e = λ q. cc

module _ {Addr Prefix : Type 0} (lib : ConfigLibrary Addr Prefix) where
  -- A configuration that the server can run with.
  pub record IsValid (c : Config Prefix) : Type 0 where
    pub environment : (c.env ≡ local) ⊎ (c.env ≡ production)
    pub origin : (c.base_url.path ≡ []) × Reaches (codes "http") (codes "https") c.base_url
    pub https : is_production c.env ≡ true → c.base_url.scheme ≡ codes "https"
    pub body_limit : (0 < c.max_request_bytes) × (c.max_request_bytes ≤ 9223372036854775807)
    pub connections : (0 < c.database_max_conns) × (c.database_max_conns ≤ 1000)
    pub database :
        (u : Url) × (lib.parse_url c.database_url ≡ some u)
        × Reaches (codes "postgres") (codes "postgresql") u
    pub redis :
        (u : Url) × (lib.parse_url c.redis_url ≡ some u)
        × Reaches (codes "redis") (codes "rediss") u
    pub mail_host : c.smtp.host ≢ []
    pub mail_port : (0 < c.smtp.port) × (c.smtp.port ≤ 65535)
    pub credentials : (c.smtp.username ≡ []) ↔ (c.smtp.password ≡ [])
    pub signed_in_mail : is_production c.env ≡ true → c.smtp.username ≢ []

  mapped-inv :
      {A B : Type 0} (f : A → B) (x : Setting A) (b : B)
      → mapped lib f x ≡ ok b
      → (a : A) × (x ≡ ok a) × (f a ≡ b)
  mapped-inv f (ok a) b e = (a, refl, cc)
  mapped-inv f (err p) b e = absurd (cc)
  mapped-inv f panic b e = absurd (cc)

  read_env-set :
      (raw : Bytes) (env : Env) → read_env raw ≡ ok env → (env ≡ local) ⊎ (env ≡ production)
  unfolding read_env
  read_env-set raw env e = elim (Bool-cases (bytes_eq raw (codes "local"))) [
    | inl at_home ↦ inl (ground arith)
    | inr elsewhere ↦ elim (Bool-cases (bytes_eq raw (codes "production"))) [
      | inl live ↦ inr (ground arith)
      | inr other ↦ elim (Bool-cases (bytes_eq raw [])) [
        | inl nothing ↦ absurd (ground arith)
        | inr something ↦ absurd (ground arith)
      ]
    ]
  ]

  read_database_url-Reaches :
      (raw text : Bytes)
      → read_database_url lib raw ≡ ok text
      → (u : Url) × (lib.parse_url text ≡ some u)
        × Reaches (codes "postgres") (codes "postgresql") u
  unfolding read_database_url
  read_database_url-Reaches raw text e = elim (Bool-cases (bytes_eq raw [])) [
    | inl nothing ↦ absurd (ground arith)
    | inr something ↦
        let (same, (u, parsed, reaches)) =
          check_secret_url-Reaches _ _ _ _ _ raw text (lib.parse_url raw) (rw something at e) in
        (u, rw same parsed, reaches)
  ]

  read_redis_url-Reaches :
      (raw text : Bytes)
      → read_redis_url lib raw ≡ ok text
      → (u : Url) × (lib.parse_url text ≡ some u) × Reaches (codes "redis") (codes "rediss") u
  unfolding read_redis_url
  read_redis_url-Reaches raw text e = elim (Bool-cases (bytes_eq raw [])) [
    | inl nothing ↦ absurd (ground arith)
    | inr something ↦
        let (same, (u, parsed, reaches)) =
          check_secret_url-Reaches _ _ _ _ _ raw text (lib.parse_url raw) (rw something at e) in
        (u, rw same parsed, reaches)
  ]

  read_base_url-ok :
      (raw : Bytes) (env : Env) (v : Url)
      → read_base_url lib raw env ≡ ok v
      → (v.path ≡ [])
        × Reaches (codes "http") (codes "https") v
        × (is_production env ≡ true → v.scheme ≡ codes "https")
  unfolding read_base_url parse_base_url
  read_base_url-ok raw env v e = elim (Bool-cases (bytes_eq raw [])) [
    | inl nothing ↦ absurd (ground arith)
    | inr something ↦ elim (Option-cases (lib.parse_url raw)) [
      | inl unparsed ↦ absurd (ground arith)
      | inr (u, parsed) ↦ check_base_url-ok raw env u v (ground arith)
    ]
  ]

  -- The mail settings.
  load_smtp-ok :
      (lookup : Lookup) (env : Env) (m : Smtp)
      → load_smtp lib lookup env ≡ ok m
      → (m.host ≢ [])
        × ((0 < m.port) × (m.port ≤ 65535))
        × ((m.username ≡ []) ↔ (m.password ≡ []))
        × (is_production env ≡ true → m.username ≢ [])
  unfolding load_smtp
  load_smtp-ok lookup env m e =
      let ((((host, port), from), (username, password)), read, same) =
        mapped-inv (smtp_of lib) _ m e in
      let (three, credentials) = ⊗-inv _ _ ((host, port), from) (username, password) read in
      let (two, sender) = ⊗-inv _ _ (host, port) from three in
      let (named, numbered) = ⊗-inv _ _ host port two in
      let (paired, live) = read_credentials-ok env _ _ username password credentials in
      rw (sym same) (required-given _ _ host named, read_port-range _ port numbered, paired, live)

  -- What loads is valid: its environment is one of the two, its origin is http
  -- or https with a host and no path, and https in production; a body is limited to a positive int64,
  -- there are 1 to 1000 connections and a port between 1 and 65535; the URLs of the two stores parse to
  -- a host behind one of their schemes; and the mail has a host, and credentials that come together and
  -- are there in production.
  pub load-IsValid : (lookup : Lookup) (c : Config Prefix) → load lib lookup ≡ ok c → IsValid c
  unfolding load load_rest
  load-IsValid lookup c e =
      let (
        (env, (((((((url, level), bytes), database), redis), smtp), trusted), conns)),
        read,
        same,
      ) =
        mapped-inv (finished lib _) _ c e in
      let (first, others) = ⊗-inv _ _ env _ read in
      let as_read : env_of (read_env (value lookup (codes "APP_ENV") [])) ≡ env = ap env_of first in
      let (p7, conns_read) = ⊗-inv _ _ _ conns others in
      let (p6, trusted_read) = ⊗-inv _ _ _ trusted p7 in
      let (p5, smtp_read) = ⊗-inv _ _ _ smtp p6 in
      let (p4, redis_read) = ⊗-inv _ _ _ redis p5 in
      let (p3, database_read) = ⊗-inv _ _ _ database p4 in
      let (p2, bytes_read) = ⊗-inv _ _ _ bytes p3 in
      let (url_read, level_read) = ⊗-inv _ _ url level p2 in
      let (flat, hosted, secure) = read_base_url-ok _ env url (rw as_read at url_read) in
      let (mail_host, mail_port, paired, live) =
        load_smtp-ok lookup env smtp (rw as_read at smtp_read) in
      subst IsValid same (record {
        environment = read_env-set _ env first;
        origin = (flat, hosted);
        https = secure;
        body_limit = read_max_request_bytes-range _ bytes bytes_read;
        connections = read_database_max_conns-range _ conns conns_read;
        database = read_database_url-Reaches _ database database_read;
        redis = read_redis_url-Reaches _ redis redis_read;
        mail_host = mail_host;
        mail_port = mail_port;
        credentials = paired;
        signed_in_mail = live;
      })
