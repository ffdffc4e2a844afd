-- ===== src/Config/Secrets.antt =====
-- What the problems of a configuration do not tell.
use mathlib.Core.Bool.{xor}
use project_management.Config.{
  read_database_url, read_redis_url, mapped, load_smtp, load_rest, load, read_from, read_base_url,
  parse_trusted_proxies,
}
use project_management.Config.Settings.{
  Env, ConfigLibrary, Lookup, Setting, or_fallback, value, read_env, env_of, is_production,
  check_secret_url, read_credentials, ◌⊗◌, required, read_port, read_log_level,
  read_max_request_bytes, read_database_max_conns, Url,
}
use project_management.Prelude.Outcome.{ok, err, panic}
use project_management.Prelude.{
  Bool, true, false, not, ◌&&◌, ◌||◌, Option, none, some, [], Bytes, codes, bytes_eq, ◌≡◌, refl, ap,
  subst, arith, if◌then◌else◌,
}

-- Both load, or both are refused with the same problems.
abbrev pub SameProblems : {A B : Type 0} → Setting A → Setting B → Type 0
SameProblems (ok a) (ok b) = Unit {0}
SameProblems (ok a) (err q) = ⊥
SameProblems (ok a) panic = ⊥
SameProblems (err p) (ok b) = ⊥
SameProblems (err p) (err q) = p ≡ q
SameProblems (err p) panic = ⊥
SameProblems panic (ok b) = ⊥
SameProblems panic (err q) = ⊥
SameProblems panic panic = Unit {0}

same_refl : {A : Type 0} (x : Setting A) → SameProblems x x
same_refl (ok a) = tt
same_refl (err p) = refl
same_refl panic = tt

same_of : {A : Type 0} (x y : Setting A) → x ≡ y → SameProblems x y
same_of x y e = subst (SameProblems x) e (same_refl x)

both :
    {A B C D : Type 0} (x : Setting A) (x' : Setting C) (y : Setting B) (y' : Setting D)
    → SameProblems x x'
    → SameProblems y y'
    → SameProblems (x ⊗ y) (x' ⊗ y')
both (ok a) (ok c) (ok b) (ok d) p q = tt
both (ok a) (ok c) (err b) (err d) p q = q
both (ok a) (ok c) panic panic p q = tt
both (err a) (err c) (ok b) (ok d) p q = p
both (err a) (err c) (err b) (err d) p q = cc
both (err a) (err c) panic panic p q = tt
both panic panic y y' p q = tt
both x x' y y' p q = absurd (ground arith)

either :
    {A B : Type 0} (b : Bool) (x x' : Setting A) (y y' : Setting B)
    → SameProblems x y
    → SameProblems x' y'
    → SameProblems (if b then x else x') (if b then y else y')
either true x x' y y' p q = p
either false x x' y y' p q = q

check_secret_url-same :
    (key scheme other want_url want_scheme raw raw2 : Bytes) (parsed : Option Url)
    → SameProblems
        (check_secret_url key scheme other want_url want_scheme raw parsed)
        (check_secret_url key scheme other want_url want_scheme raw2 parsed)
unfolding check_secret_url
check_secret_url-same key scheme other want_url want_scheme raw raw2 none = refl
check_secret_url-same key scheme other want_url want_scheme raw raw2 (some u) =
    either (not (bytes_eq u.scheme scheme) && not (bytes_eq u.scheme other)) _ _ _ _ refl
      (either (bytes_eq u.host []) _ _ _ _ refl tt)

read_credentials-same :
    (env : Env) (username password password2 : Bytes)
    → bytes_eq password [] ≡ false
    → bytes_eq password2 [] ≡ false
    → SameProblems
        (read_credentials env username password)
        (read_credentials env username password2)
read_credentials-same env username password password2 h k =
    rw (h, k)
      (either (xor (bytes_eq username []) false) _ _ _ _ refl
        (either (bytes_eq username [] && is_production env) _ _ _ _ refl tt))

module _ {Addr Prefix : Type 0} (lib : ConfigLibrary Addr Prefix) where
  mapped-same :
      {A B C D : Type 0} (f : A → B) (g : C → D) (x : Setting A) (y : Setting C)
      → SameProblems x y
      → SameProblems (mapped lib f x) (mapped lib g y)
  mapped-same f g (ok a) (ok b) p = tt
  mapped-same f g (err a) (err b) p = p
  mapped-same f g panic panic p = tt
  mapped-same f g x y p = absurd (ground arith)

  -- Two URLs that are written alike but for what the parser keeps apart from scheme, host and path.
  abbrev pub SameUrl : (raw raw2 : Bytes) → Type 0
  SameUrl raw raw2 = (bytes_eq raw [] ≡ bytes_eq raw2 []) × (lib.parse_url raw ≡ lib.parse_url raw2)

  read_database_url-same :
      (raw raw2 : Bytes)
      → SameUrl raw raw2
      → SameProblems (read_database_url lib raw) (read_database_url lib raw2)
  unfolding read_database_url
  read_database_url-same raw raw2 (blank, parsed) =
      rw (blank, parsed)
        (either (bytes_eq raw2 []) _ _ _ _ refl
          (check_secret_url-same _ _ _ _ _ raw raw2 (lib.parse_url raw2)))

  read_redis_url-same :
      (raw raw2 : Bytes)
      → SameUrl raw raw2
      → SameProblems (read_redis_url lib raw) (read_redis_url lib raw2)
  unfolding read_redis_url
  read_redis_url-same raw raw2 (blank, parsed) =
      rw (blank, parsed)
        (either (bytes_eq raw2 []) _ _ _ _ refl
          (check_secret_url-same _ _ _ _ _ raw raw2 (lib.parse_url raw2)))

abbrev pub is_secret : (key : Bytes) → Bool
is_secret key =
    bytes_eq key (codes "DATABASE_URL")
    || bytes_eq key (codes "REDIS_URL")
    || bytes_eq key (codes "SMTP_PASSWORD")

-- The environments agree on what is no secret.
abbrev pub Agree : Lookup → Lookup → Type 0
Agree one two = (key : Bytes) → is_secret key ≡ false → one key ≡ two key

agreed :
    (one two : Lookup)
    → Agree one two
    → (key fallback : Bytes) → is_secret key ≡ false
    → value one key fallback ≡ value two key fallback
unfolding value
agreed one two agree key fallback h = ap (or_fallback fallback) (agree key h)

module _ {Addr Prefix : Type 0} (lib : ConfigLibrary Addr Prefix) where
  load_smtp-same :
      (one two : Lookup) (env : Env)
      → Agree one two
      → bytes_eq (value one (codes "SMTP_PASSWORD") []) [] ≡ false
      → bytes_eq (value two (codes "SMTP_PASSWORD") []) [] ≡ false
      → SameProblems (load_smtp lib one env) (load_smtp lib two env)
  unfolding load_smtp bytes_eq
  load_smtp-same one two env agree password password2 =
      let same = agreed one two agree in
      mapped-same lib _ _ _ _ (
        both _ _ _ _
          (both _ _ _ _
            (both _ _ _ _
              (same_of _ _ (ap (required (codes "SMTP_HOST")) (same (codes "SMTP_HOST") [] refl)))
              (same_of _ _ (ap read_port (same (codes "SMTP_PORT") (codes "587") refl))))
            (same_of _ _ (ap (read_from lib) (same (codes "SMTP_FROM") [] refl))))
          (subst
            (λ (name : Bytes).
              SameProblems
                (read_credentials env (value one (codes "SMTP_USERNAME") [])
                  (value one (codes "SMTP_PASSWORD") []))
                (read_credentials env name (value two (codes "SMTP_PASSWORD") [])))
            (same (codes "SMTP_USERNAME") [] refl)
            (read_credentials-same env _ _ _ password password2)))

  load_rest-same :
      (one two : Lookup) (env : Env)
      → Agree one two
      → bytes_eq (value one (codes "SMTP_PASSWORD") []) [] ≡ false
      → bytes_eq (value two (codes "SMTP_PASSWORD") []) [] ≡ false
      → SameUrl lib (value one (codes "DATABASE_URL") []) (value two (codes "DATABASE_URL") [])
      → SameUrl lib (value one (codes "REDIS_URL") []) (value two (codes "REDIS_URL") [])
      → SameProblems (load_rest lib one env) (load_rest lib two env)
  unfolding load_rest bytes_eq
  load_rest-same one two env agree password password2 database redis =
      let same = agreed one two agree in
      both _ _ _ _
        (both _ _ _ _
          (both _ _ _ _
            (both _ _ _ _
              (both _ _ _ _
                (both _ _ _ _
                  (both _ _ _ _
                    (same_of _ _ (
                      ap (λ (raw : Bytes). read_base_url lib raw env)
                        (same (codes "APP_BASE_URL") [] refl)))
                    (same_of _ _ (
                      ap (λ (raw : Bytes). read_log_level (lib.to_lower raw))
                        (same (codes "LOG_LEVEL") (codes "info") refl))))
                  (same_of _ _ (
                    ap read_max_request_bytes
                      (same (codes "MAX_REQUEST_BYTES") (codes "1048576") refl))))
                (read_database_url-same lib _ _ database))
              (read_redis_url-same lib _ _ redis))
            (load_smtp-same one two env agree password password2))
          (same_of _ _ (ap (parse_trusted_proxies lib) (same (codes "TRUSTED_PROXIES") [] refl))))
        (same_of _ _
          (ap read_database_max_conns (same (codes "DATABASE_MAX_CONNS") (codes "20") refl)))

  -- What the problems say does not depend on the secrets: for two environments that agree on all other
  -- variables, both with a mail password that is not blank, and with URLs of the database and of Redis
  -- of which the parser reports the same scheme, host and path, both load or both are refused with
  -- the same problems.
  pub load_hides :
      (one two : Lookup)
      → Agree one two
      → bytes_eq (value one (codes "SMTP_PASSWORD") []) [] ≡ false
      → bytes_eq (value two (codes "SMTP_PASSWORD") []) [] ≡ false
      → SameUrl lib (value one (codes "DATABASE_URL") []) (value two (codes "DATABASE_URL") [])
      → SameUrl lib (value one (codes "REDIS_URL") []) (value two (codes "REDIS_URL") [])
      → SameProblems (load lib one) (load lib two)
  unfolding load bytes_eq
  load_hides one two agree password password2 database redis =
      let same = agreed one two agree in
      let env = ap read_env (same (codes "APP_ENV") [] refl) in
      mapped-same lib _ _ _ _ (
        both _ _ _ _ (same_of _ _ env) (
          subst
            (λ (x : Setting Env).
              SameProblems (load_rest lib one (env_of (read_env (value one (codes "APP_ENV") []))))
                (load_rest lib two (env_of x)))
            env (load_rest-same one two _ agree password password2 database redis)))
