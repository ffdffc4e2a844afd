-- ===== src/Identity/Service/Credentials/Sound.antt =====
-- Who signs in: a live account of the address, with a password whose key is the stored one.
use project_management.Identity.Failure.{Result}
use project_management.Identity.Password.{
  PasswordCrypto, hash_password, max_password_length, key_length,
}
use project_management.Identity.Password.Reading.{
  Scanner, Stored, Run, decode, verify_stored, verify_decoded, verify_password, needs_rehash,
}
use project_management.Identity.Service.Credentials.{
  Call, store_rehash, rehash, authenticate_checked, authenticate_found, authenticate,
}
use project_management.Identity.Service.Invitations.{User, user_of}
use project_management.Identity.Service.Sessions.Joined.{find_row_passes}
use project_management.Identity.Store.Users.{
  is_live, has_email, get_user_by_email_row, update_user_password_hash_rows,
}
use project_management.Identity.Tables.{
  UserRow, Tables, get_user_by_email, update_user_password_hash, find_row,
}
use project_management.Prelude.Outcome.{ok, err, panic}
use project_management.Prelude.{
  ℕ, true, ◌||◌, ◌/◌, ◌*◌, none, some, List, Bytes, length, ltb, bytes_eq, bytes_eq_iff, ◌≡◌, inl,
  inr, refl, ap, arith, Bool-cases, Option-cases,
}

module _ (crypto : PasswordCrypto) (scanner : Scanner) (cpus : ℕ) where
  -- The stored hash reads as costs, a salt and a key, and Argon2 makes this key of the password.
  abbrev pub IsPassword : (password encoded : Bytes) → Type 0
  IsPassword password encoded =
      (stored : Stored) × (decode crypto scanner cpus encoded ≡ ok stored)
      × (crypto.id_key (crypto.nfkc password) stored.salt stored.passes stored.memory_kib
            stored.threads (length stored.key)
          ≡ stored.key)

  key_of :
      (password : Bytes) (stored : Stored)
      → (verify_stored crypto scanner cpus stored password).0 ≡ ok tt
      → crypto.id_key
          (crypto.nfkc password)
          stored.salt
          stored.passes
          stored.memory_kib
          stored.threads
          (length stored.key)
        ≡ stored.key
  unfolding verify_stored
  key_of password stored e =
      elim (Bool-cases (ltb max_password_length (length (crypto.nfkc password)))) [
        | inl long ↦ absurd (ground arith)
        | inr short ↦
            elim (Bool-cases (
              ltb (length stored.key) (key_length / 2)
              || ltb (key_length * 2) (length stored.key))) [
                | inl odd ↦ absurd (ground arith)
                | inr fine ↦
                    elim (Bool-cases (
                      bytes_eq
                        (crypto.id_key (crypto.nfkc password) stored.salt stored.passes
                          stored.memory_kib stored.threads (length stored.key))
                        stored.key)) [
                          | inl same ↦ (bytes_eq_iff _ _).0 same
                          | inr other ↦ absurd (ground arith)
                        ]
              ]
      ]

  verified :
      (encoded password : Bytes)
      → (verify_password crypto scanner cpus encoded password).0 ≡ ok tt
      → IsPassword password encoded
  unfolding verify_password verify_stored
  verified encoded password e = go (decode crypto scanner cpus encoded) refl e
    where
      go :
          (d : Result Stored)
          → decode crypto scanner cpus encoded ≡ d
          → (verify_decoded crypto scanner cpus d password).0 ≡ ok tt
          → IsPassword password encoded
      go (ok stored) p f = (stored, p, key_of password stored f)
      go (err x) p f = absurd (cc)
      go panic p f = absurd (cc)

  -- Writing the hash again touches no session.
  rehash-sessions :
      (c : Call) (user_id current_hash password : Bytes) (t : Tables)
      → (rehash crypto scanner cpus c user_id current_hash password t).sessions ≡ t.sessions
  unfolding rehash update_user_password_hash_rows
  rehash-sessions c user_id current_hash password t =
      elim (Bool-cases (needs_rehash crypto scanner cpus current_hash)) [
        | inr current ↦ rw current refl
        | inl old ↦ rw old (stored (hash_password crypto c.salt_read password))
      ]
    where
      stored :
          (h : Result Bytes)
          → (store_rehash crypto scanner cpus c user_id current_hash h t).sessions ≡ t.sessions
      stored (ok updated) = elim (Bool-cases (c.fails update_user_password_hash)) [
        | inl lost ↦ simp (store_rehash, lost) refl
        | inr kept ↦ simp (store_rehash, kept) refl
      ]
      stored (err x) = refl
      stored panic = refl

  -- The account that is answered.
  abbrev pub IsOwner : (lower : Bytes → Bytes) → (email password : Bytes) → Tables → User → Type 0
  IsOwner lower email password t user =
      (row : UserRow) × (find_row (has_email lower email) t.users ≡ some row)
      × (row.deleted_at ≡ none)
      × (lower row.email ≡ lower email)
      × IsPassword password row.password_hash
      × (user ≡ user_of row)

  pub authenticate-IsOwner :
      (lower : Bytes → Bytes) (decoy : Bytes) (c : Call) (email password : Bytes) (t : Tables)
      (user : User)
      → (authenticate crypto scanner cpus lower decoy c email password t).0.answer ≡ ok user
      → IsOwner lower email password t user
        × ((authenticate crypto scanner cpus lower decoy c email password t).1.sessions
            ≡ t.sessions)
  unfolding authenticate authenticate_found authenticate_checked get_user_by_email_row
  authenticate-IsOwner lower decoy c email password t user e =
      elim (Bool-cases (c.fails get_user_by_email)) [
        | inl lost ↦ absurd (ground arith)
        | inr up ↦ elim (Option-cases (find_row (has_email lower email) t.users)) [
          | inl missing ↦ absurd (ground arith)
          | inr (row, found) ↦
              let (owner, kept) =
                go row found (verify_password crypto scanner cpus row.password_hash password) refl
                  (rw (up, found) at e) in
              (owner, rw (up, found) kept)
        ]
      ]
    where
      user_same : (a b : User) → ◌≡◌ {A = Result User} (ok a) (ok b) → b ≡ a
      user_same a b q = cc

      not_deleted : (row : UserRow) → is_live row ≡ true → row.deleted_at ≡ none
      not_deleted row live = elim (Option-cases row.deleted_at) [
        | inl kept ↦ kept
        | inr (at, gone) ↦ absurd (ground arith)
      ]

      go :
          (row : UserRow)
          → find_row (has_email lower email) t.users ≡ some row
          → (v : Result (Unit {0}) × List Run)
          → verify_password crypto scanner cpus row.password_hash password ≡ v
          → (authenticate_checked crypto scanner cpus c row password v t).0.answer ≡ ok user
          → IsOwner lower email password t user
            × ((authenticate_checked crypto scanner cpus c row password v t).1.sessions
                ≡ t.sessions)
      go row found (ok u, runs) p f =
          let passes = find_row_passes (has_email lower email) t.users row found in
          (
            (
              row,
              found,
              not_deleted row (ground arith),
              (bytes_eq_iff (lower row.email) (lower email)).0 (ground arith),
              verified row.password_hash password
                  (ap (λ (x : Result (Unit {0}) × List Run). x.0) p),
              user_same (user_of row) user f,
            ),
            rehash-sessions c row.id row.password_hash password t,
          )
      go row found (err x, runs) p f = absurd (ground arith)
      go row found (panic, runs) p f = absurd (ground arith)
