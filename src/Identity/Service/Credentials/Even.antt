-- ===== src/Identity/Service/Credentials/Even.antt =====
-- Signing in: a password that was set lets its owner in, and a wrong one is answered as an address that
-- nobody has.
use project_management.Identity.Base64.{AreBytes}
use project_management.Identity.Failure.{Failure, Result, invalid_credentials}
use project_management.Identity.Password.{
  PasswordCrypto, key_length, max_password_length, hash_password,
}
use project_management.Identity.Password.Reading.{
  Scanner, Run, salt_length, verify_stored, verify_password, needs_rehash,
}
use project_management.Identity.Password.RoundTrip.{
  Scans, Sized, encode_now, decode-encode_now, verify_password-hash_password,
}
use project_management.Identity.Service.Credentials.{
  Call, Checked, rehash, authenticate_checked, authenticate_found, authenticate,
}
use project_management.Identity.Service.Invitations as Invitations
use project_management.Identity.Service.Invitations.{User, user_of, accept}
use project_management.Identity.Service.Invitations.Accepting.{account_of}
use project_management.Identity.Service.Invitations.SingleUse.{accept_effect}
use project_management.Identity.Store.Users.{has_email, get_user_by_email_row}
use project_management.Identity.Tables.{UserRow, Tables, get_user_by_email, find_row}
use project_management.Prelude.Outcome.{ok, err, panic}
use project_management.Prelude.{
  ℕ, ◌≤◌, false, none, some, List, ◌∷◌, Bytes, length, ◌≡◌, inl, inr, refl, sym, ap, ◌∙◌, arith,
  Bool-cases, bytes_eq_iff, ltb,
}

-- A salt and a key of the sizes that the application writes.
pub record IsWritten (salt key : Bytes) : Type 0 where
  pub salt_bytes : AreBytes salt
  pub key_bytes : AreBytes key
  pub salt_size : salt_length ≤ length salt
  pub key_size : length key ≡ key_length

-- A refusal, after some runs.
abbrev pub refused : List Run → Checked
refused runs = record { answer = err invalid_credentials; runs = runs }

module _ (crypto : PasswordCrypto) (scanner : Scanner) (cpus : ℕ) where
  -- With the account found: a password whose check succeeds on a hash of today's cost signs in.
  pub authenticate-right :
      (lower : Bytes → Bytes) (decoy : Bytes) (c : Call) (email password : Bytes) (t : Tables)
      (row : UserRow)
      → c.fails get_user_by_email ≡ false
      → find_row (has_email lower email) t.users ≡ some row
      → (verify_password crypto scanner cpus row.password_hash password).0 ≡ ok tt
      → needs_rehash crypto scanner cpus row.password_hash ≡ false
      → ((authenticate crypto scanner cpus lower decoy c email password t).0.answer
          ≡ ok (user_of row))
        × ((authenticate crypto scanner cpus lower decoy c email password t).1 ≡ t)
  unfolding authenticate authenticate_found authenticate_checked rehash get_user_by_email_row
  authenticate-right lower decoy c email password t row up found verified current =
      rw (up, found) (go (verify_password crypto scanner cpus row.password_hash password) verified)
    where
      go :
          (v : Result (Unit {0}) × List Run)
          → v.0 ≡ ok tt
          → ((authenticate_checked crypto scanner cpus c row password v t).0.answer
              ≡ ok (user_of row))
            × ((authenticate_checked crypto scanner cpus c row password v t).1 ≡ t)
      go (ok u, runs) e = (refl, rw current refl)
      go (err f, runs) e = absurd (ground arith)
      go (panic, runs) e = absurd (ground arith)

  -- A password whose check fails is refused, and so is an address that nobody has.
  pub authenticate-wrong :
      (lower : Bytes → Bytes) (decoy : Bytes) (c : Call) (email password : Bytes) (t : Tables)
      (row : UserRow)
      → c.fails get_user_by_email ≡ false
      → find_row (has_email lower email) t.users ≡ some row
      → (f : Failure) → (verify_password crypto scanner cpus row.password_hash password).0 ≡ err f
      → authenticate crypto scanner cpus lower decoy c email password t ≡ (
        record {
          answer = err invalid_credentials;
          runs = (verify_password crypto scanner cpus row.password_hash password).1;
        },
        t,
      )
  unfolding authenticate authenticate_found authenticate_checked get_user_by_email_row
  authenticate-wrong lower decoy c email password t row up found f wrong =
      rw (up, found) (go (verify_password crypto scanner cpus row.password_hash password) wrong)
    where
      go :
          (v : Result (Unit {0}) × List Run)
          → v.0 ≡ err f
          → authenticate_checked crypto scanner cpus c row password v t
            ≡ (record { answer = err invalid_credentials; runs = v.1 }, t)
      go (ok u, runs) e = absurd (ground arith)
      go (err g, runs) e = refl
      go (panic, runs) e = absurd (ground arith)

  pub authenticate-nobody :
      (lower : Bytes → Bytes) (decoy : Bytes) (c : Call) (email password : Bytes) (t : Tables)
      → c.fails get_user_by_email ≡ false
      → find_row (has_email lower email) t.users ≡ none
      → authenticate crypto scanner cpus lower decoy c email password t ≡ (
        record {
          answer = err invalid_credentials;
          runs = (verify_password crypto scanner cpus decoy password).1;
        },
        t,
      )
  unfolding authenticate authenticate_found get_user_by_email_row
  authenticate-nobody lower decoy c email password t up nobody = rw (up, nobody) refl

  module _ (scans : Scans crypto scanner) (running : 1 ≤ cpus) where
    -- A check against a hash of today's cost runs Argon2 the same way, whatever the hash.
    runs_even :
        (salt salt2 key key2 attempt : Bytes)
        → IsWritten salt key
        → IsWritten salt2 key2
        → (verify_password crypto scanner cpus (encode_now crypto salt key) attempt).1
          ≡ (verify_password crypto scanner cpus (encode_now crypto salt2 key2) attempt).1
    unfolding verify_password verify_stored
    runs_even salt salt2 key key2 attempt w w2 =
        rw
          (
            decode-encode_now crypto scanner cpus scans running salt key w.salt_bytes w.key_bytes
                w.salt_size w.key_size,
            decode-encode_now crypto scanner cpus scans running salt2 key2 w2.salt_bytes
                w2.key_bytes w2.salt_size w2.key_size,
            w.key_size,
            w2.key_size,
          )
          (elim (Bool-cases (ltb max_password_length (length (crypto.nfkc attempt)))) [
            | inl y ↦ rw y refl
            | inr n ↦ rw n refl
          ])

    -- An address that nobody has and a wrong password are told apart neither by the answer nor by
    -- the work: where the account's hash and the decoy are of today's cost and the look-up does
    -- not fail, both answers are ErrInvalidCredentials, both take the same runs of Argon2, and no
    -- table changes. The conditions on Argon2, `Sscanf` and the processors are those of the round
    -- trip of a password.
    pub authenticate_even :
        (lower : Bytes → Bytes) (decoy_salt decoy_key salt key : Bytes) (c : Call)
        (email password : Bytes) (t t2 : Tables) (row : UserRow) (f : Failure)
        → IsWritten decoy_salt decoy_key
        → IsWritten salt key
        → c.fails get_user_by_email ≡ false
        → find_row (has_email lower email) t.users ≡ none
        → find_row (has_email lower email) t2.users ≡ some row
        → row.password_hash ≡ encode_now crypto salt key
        → (verify_password crypto scanner cpus row.password_hash password).0 ≡ err f
        → let decoy = encode_now crypto decoy_salt decoy_key in
          let one = authenticate crypto scanner cpus lower decoy c email password t in
          let two = authenticate crypto scanner cpus lower decoy c email password t2 in
          (one.0 ≡ two.0) × (one.1 ≡ t) × (two.1 ≡ t2)
    authenticate_even lower decoy_salt decoy_key salt key c email password t t2 row f w w2 up nobody
          found hash wrong =
        let decoy = encode_now crypto decoy_salt decoy_key in
        let one = authenticate-nobody lower decoy c email password t up nobody in
        let two = authenticate-wrong lower decoy c email password t2 row up found f wrong in
        let runs : (verify_password crypto scanner cpus row.password_hash password).1
            ≡ (verify_password crypto scanner cpus decoy password).1 =
          rw hash (runs_even salt decoy_salt key decoy_key password w2 w) in
        (
          ap (λ (p : Checked × Tables). p.0) one
              ∙ ap refused (sym runs)
              ∙ sym (ap (λ (p : Checked × Tables). p.0) two),
          ap (λ (p : Checked × Tables). p.1) one,
          ap (λ (p : Checked × Tables). p.1) two,
        )

    found_first :
        (lower : Bytes → Bytes) (email : Bytes) (account : UserRow) (us : List UserRow)
        (t' : Tables)
        → t'.users ≡ account ∷ us
        → account.email ≡ email
        → account.deleted_at ≡ none
        → find_row (has_email lower email) t'.users ≡ some account
    unfolding find_row
    found_first lower email account us t' after same live =
        rw after (rw (same, live, (bytes_eq_iff (lower email) (lower email)).1 refl) refl)

    -- Whoever accepts an invitation can sign in: after an `Accept` that succeeded, with a salt of
    -- at least 16 bytes, the address of its answer and the password that was chosen authenticate
    -- as the new account, whatever the decoy, and no table changes, if the look-up does not fail.
    -- The conditions on Argon2, `Sscanf` and the processors are those of the round trip of a
    -- password.
    pub accept-authenticate :
        (lower sha256 : Bytes → Bytes)
        → Sized crypto
        → (a : Invitations.Call) (token name password : Bytes) (t t' : Tables) (u : User)
          (salt : Bytes)
        → a.salt_read ≡ some salt
        → AreBytes salt
        → salt_length ≤ length salt
        → accept lower sha256 crypto a token name password t ≡ (ok u, t')
        → (decoy : Bytes) (c : Call) → c.fails get_user_by_email ≡ false
        → ((authenticate crypto scanner cpus lower decoy c u.email password t').0.answer ≡ ok u)
          × ((authenticate crypto scanner cpus lower decoy c u.email password t').1 ≡ t')
    unfolding user_of
    accept-authenticate lower sha256 sized a token name password t t' u salt read hs enough e decoy
          c up =
        let (
          digest, full_name, hash, row, read_token, trimmed, hashed, found, unused, in_time, free,
          users_after, answer, sessions_after, resets_after,
        ) =
          accept_effect lower sha256 crypto a token name password t t' u e in
        let account = account_of a row full_name hash in
        let email : u.email ≡ row.email = ap (λ (x : User). x.email) answer in
        let written : hash_password crypto (some salt) password ≡ ok hash = rw (sym read) hashed in
        let (right, current, others) =
          verify_password-hash_password crypto scanner cpus scans running sized salt password hash
            hs enough written in
        let first : find_row (has_email lower u.email) t'.users ≡ some account =
          found_first lower u.email account t.users t' users_after (sym email) refl in
        let (told, kept) =
          authenticate-right lower decoy c u.email password t' account up first right current in
        (told ∙ ap ok (sym answer), kept)
