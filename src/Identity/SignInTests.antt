-- ===== src/Identity/SignInTests.antt =====
-- The theorems on passwords and signing in at concrete inputs. The stand-in for Argon2 gives zeros.
use project_management.Identity.Store.Users.{create_user_row}
use project_management.Identity.Invitation.{is_usable}
use project_management.Identity.Store.Invitations.{get_invitation_row, accept_invitation_rows}
use project_management.Identity.Tables.{in_tx, count_rows}
use project_management.Identity.Text.{trim_space}
use project_management.Identity.Service.Guards.{normalize_name}
use project_management.Identity.Token.{invitation_token_digest}
use project_management.Prelude.{bytes_eq}
use project_management.Identity.Password.{encode, decimal, base64_std}
use project_management.Identity.Password.Reading.{decode, base64_std_decode, verify_stored}
use project_management.Identity.Utf8.{rune_count}
use project_management.Identity.Base64.{AreBytes, encode as base64_url, decode as base64_url_decode}
use project_management.Identity.Failure.{password_mismatch}
use project_management.Identity.Fixtures.{sha256, token, user, tables, calm}
use project_management.Identity.InvitationTests.{same, call, invited_tables, name}
use project_management.Identity.Password.{PasswordCrypto, hash_password}
use project_management.Identity.Password.Reading.{Scanner, verify_password, needs_rehash}
use project_management.Identity.Password.RoundTrip.{
  Scans, Sized, encode_now, key_now, verify_password-hash_password,
}
use project_management.Identity.Service.Credentials.{Call, authenticate}
use project_management.Identity.Service.Credentials.Even.{authenticate_even, accept-authenticate}
use project_management.Identity.Service.Invitations as Invitations
use project_management.Identity.Service.Invitations.{User, accept}
use project_management.Identity.Store.Users.{has_email}
use project_management.Identity.Tables.{UserRow, Tables, find_row}
use project_management.Prelude.Outcome.{ok, err}
use project_management.Prelude.{
  ℕ, zero, suc, false, none, some, [], ◌∷◌, Bytes, codes, length, replicate, ◌≡◌, refl, arith,
}

-- Zeros, as many as asked.
length-replicate : (n : ℕ) → length {A = ℕ} (replicate n 0) ≡ n
length-replicate zero = refl
length-replicate (suc n) = omega (arith, length-replicate n)

replicate-AreBytes : (n : ℕ) → AreBytes (replicate n 0)
replicate-AreBytes zero = tt
replicate-AreBytes (suc n) = (omega arith, replicate-AreBytes n)

abbrev pub zeros : PasswordCrypto
zeros = record {
  nfkc = λ plain. plain;
  version = 19;
  id_key = λ plain salt time memory threads width. replicate width 0;
}

zeros-Sized : Sized zeros
zeros-Sized = record {
  size_asked = λ plain salt passes memory_kib threads size. length-replicate size;
  bytes_given = λ plain salt passes memory_kib threads size. replicate-AreBytes size;
}

abbrev pub scanner : Scanner
scanner = record { version = λ field. some 19; costs = λ field. some (19456, (2, 1)) }

zeros-Scans : Scans zeros scanner
zeros-Scans = record { version_read = refl; costs_read = refl }

abbrev pub salt : Bytes
salt = replicate 16 0

abbrev pub password : Bytes
password = codes "correct horse"

abbrev pub hash : Bytes
hash = encode_now zeros salt (replicate 32 0)

hash_runs : hash_password zeros (some salt) password ≡ ok hash
unfolding hash_password rune_count
hash_runs = refl

verify_password-hash_password_example :
    ((verify_password zeros scanner 1 hash password).0 ≡ ok tt)
    × (needs_rehash zeros scanner 1 hash ≡ false)
    × ((attempt : Bytes)
        → (verify_password zeros scanner 1 hash attempt).0 ≡ ok tt
        → key_now zeros attempt salt ≡ key_now zeros password salt)
verify_password-hash_password_example =
    verify_password-hash_password zeros scanner 1 zeros-Scans (omega arith) zeros-Sized salt
      password hash (replicate-AreBytes 16) (omega arith) hash_runs

abbrev pub sign_in : Call
sign_in = record { fails = calm; salt_read = some salt; db_now = 20 }

-- The account of the fixtures, with a hash of some other key.
abbrev other_hash : Bytes
other_hash = encode_now zeros salt (replicate 32 1)

abbrev owner : UserRow
owner = record user { password_hash = other_hash }

abbrev owner_tables : Tables
owner_tables = record tables { users = owner ∷ [] }

abbrev tables_without : Tables
tables_without = record tables { users = [] }

ones-AreBytes : AreBytes (replicate 32 1)
ones-AreBytes = ground arith

owner_found : find_row (has_email same (codes "a@b.c")) owner_tables.users ≡ some owner
unfolding find_row bytes_eq
owner_found = refl

nobody_found : find_row (has_email same (codes "a@b.c")) tables_without.users ≡ none
unfolding find_row
nobody_found = refl

wrong_runs : (verify_password zeros scanner 1 other_hash password).0 ≡ err password_mismatch
unfolding verify_password decode encode decimal base64_std base64_url bytes_eq base64_std_decode
    base64_url_decode verify_stored
wrong_runs = refl

authenticate_even_example :
    let one =
      authenticate zeros scanner 1 same hash sign_in (codes "a@b.c") password tables_without in
    let two =
      authenticate zeros scanner 1 same hash sign_in (codes "a@b.c") password owner_tables in
    (one.0 ≡ two.0) × (one.1 ≡ tables_without) × (two.1 ≡ owner_tables)
authenticate_even_example =
    authenticate_even zeros scanner 1 zeros-Scans (omega arith) same salt (replicate 32 0) salt
      (replicate 32 1) sign_in (codes "a@b.c") password tables_without owner_tables owner
      password_mismatch
      (record {
        salt_bytes = replicate-AreBytes 16;
        key_bytes = replicate-AreBytes 32;
        salt_size = omega arith;
        key_size = refl;
      })
      (record {
        salt_bytes = replicate-AreBytes 16;
        key_bytes = ones-AreBytes;
        salt_size = omega arith;
        key_size = refl;
      })
      refl nobody_found owner_found refl wrong_runs

abbrev invited_call : Invitations.Call
invited_call = record call { salt_read = some salt }

abbrev accepted_tables : Tables
accepted_tables = (accept same sha256 zeros invited_call token name password invited_tables).1

abbrev account : User
account = record {
  id = codes "n1";
  email = codes "b@b.c";
  name = codes "Budi";
  timezone = codes "Asia/Jakarta";
  role = codes "member";
}

accept_runs :
    accept same sha256 zeros invited_call token name password invited_tables
    ≡ (ok account, accepted_tables)
unfolding accept base64_url bytes_eq invitation_token_digest base64_url_decode normalize_name
    trim_space rune_count hash_password in_tx get_invitation_row find_row is_usable
    accept_invitation_rows count_rows create_user_row
accept_runs = refl

accept-authenticate_example :
    ((authenticate zeros scanner 1 same hash sign_in account.email password
        accepted_tables).0.answer
      ≡ ok account)
    × ((authenticate zeros scanner 1 same hash sign_in account.email password accepted_tables).1
        ≡ accepted_tables)
accept-authenticate_example =
    accept-authenticate zeros scanner 1 zeros-Scans (omega arith) same sha256 zeros-Sized
      invited_call token name password invited_tables accepted_tables account salt refl
      (replicate-AreBytes 16) (omega arith) accept_runs hash sign_in refl
