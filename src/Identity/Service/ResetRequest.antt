-- ===== src/Identity/Service/ResetRequest.antt =====
-- backend/internal/modules/identity/service/passwordreset.go, `Request`: a link is sent to the account
-- behind an address, and everybody is told the same. The limiter is an interface, over a state of its
-- own. Logging is left out; what a call finds around it is as for invitations.
pub mod Uniform
pub mod Superseding
use project_management.Identity.Failure.{Failure, Result, is_no_rows}
use project_management.Mail.{Message}
use project_management.Identity.Password.{decimal}
use project_management.Identity.PasswordReset.{password_reset_window, new_password_reset_expiry}
use project_management.Identity.Service.Guards.{normalize_email}
use project_management.Identity.Service.Invitations.{Call, lines, drawn}
use project_management.Identity.Service.LoginGuard.{
  Answer, account_key, retry_after_unavailable, minute,
}
use project_management.Identity.Store.Resets.{
  create_password_reset_row, expire_open_password_resets_rows,
}
use project_management.Identity.Store.Users.{get_user_by_email_row}
use project_management.Identity.Tables.{UserRow, Tables, M, ◌>>=◌, return, fail, lift, in_tx}
use project_management.Identity.Token.{new_opaque_token}
use project_management.Prelude.Outcome.{Outcome, ok, err, panic}
use project_management.Prelude.{
  ℕ, ◌/◌, Bool, not, Option, none, some, [], ◌∷◌, ◌++◌, Bytes, codes, bytes_eq, if◌then◌else◌,
}

-- The interface, over the state of the limiter's store.
pub record Limiter (S : Type 0) : Type 0 where
  pub allow : Bytes → S → Answer × S

-- No error, ErrTooManyAttempts with the wait, or another error.
pub data Told : Type 0 where
  accepted crashed : Told
  too_many_attempts : (retry_after : ℕ) → Told
  refused : Failure → Told

-- The answer, and the message that was handed to the mail server.
pub record Requested : Type 0 where
  pub told : Told
  pub sent : Option Message

pub message : (join_path : Bytes → Bytes → Bytes) → (address token : Bytes) → Message
unfolding lines decimal
message join_path address token = record {
  to = address;
  subject = codes "Atur ulang sandi Project Management";
  text = lines (
      codes "Halo,"
      ∷ []
      ∷ codes
          "Ada yang meminta pengaturan ulang sandi untuk akun ini. Buka tautan di bawah untuk memilih sandi baru:"
      ∷ []
      ∷ join_path (codes "reset-password") token
      ∷ []
      ∷ (codes "Tautan ini berlaku "
          ++ (decimal 10 (password_reset_window / minute)
              ++ codes " menit dan hanya bisa dipakai sekali."))
      ∷ codes "Setelah sandi diganti, semua perangkat yang sedang masuk akan dikeluarkan."
      ∷ []
      ∷ (codes "Kalau Anda tidak meminta ini, abaikan saja pesannya "
          ++ (0xE2 ∷ 0x80 ∷ 0x94 ∷ codes " sandi Anda tidak berubah."))
      ∷ []);
}

-- `allowed`: the wait that refuses, or nothing. It fails closed.
pub refusal : Answer → Option ℕ
refusal a = elim a.failed [
  | some e ↦ some retry_after_unavailable
  | none ↦ if not a.room then some a.wait else none
]

-- With the account found: any open link is superseded, and the address is the account's own.
pub record_reset : Call → (digest : Bytes) → UserRow → M Bytes
record_reset c digest user = do
  superseded ← expire_open_password_resets_rows c.fails c.db_now user.id
  row ←
      create_password_reset_row c.fails c.new_id c.db_now user.id digest
        (new_password_reset_expiry c.clock)
  return user.email

-- No account is no error, and sends to nobody.
pub request_found : Call → (digest : Bytes) → Result UserRow × Tables → Result Bytes × Tables
unfolding record_reset
request_found c digest (ok user, t) = record_reset c digest user t
request_found c digest (err e, t) = (if is_no_rows e then ok [] else err e, t)
request_found c digest (panic, t) = (panic, t)

module _ (lower : Bytes → Bytes) where
  -- The function that runs in the transaction.
  pub request_body : Call → (address digest : Bytes) → M Bytes
  unfolding request_found
  request_body c address digest t =
      request_found c digest (get_user_by_email_row lower c.fails address t)

-- After the transaction: a failure of the mail server is logged and not told.
pub mailed :
    (join_path : Bytes → Bytes → Bytes)
    → (token : Bytes) → Result Bytes × Tables
    → Requested × Tables
unfolding message
mailed join_path token (ok send_to, t) = (
  record {
    told = accepted;
    sent = if bytes_eq send_to [] then none else some (message join_path send_to token);
  },
  t,
)
mailed join_path token (err e, t) = (record { told = refused e; sent = none }, t)
mailed join_path token (panic, t) = (record { told = crashed; sent = none }, t)

module _ (lower sha256 fold : Bytes → Bytes) (parse_address : Bytes → Option Bytes)
    (join_path : Bytes → Bytes → Bytes) where
  -- With the address and the limiter passed: a token is drawn and recorded.
  pub request_drawn :
      Call → (address : Bytes) → Result (Bytes × Bytes) → Tables → Requested × Tables
  unfolding mailed request_body
  request_drawn c address (ok (token, digest)) t =
      mailed join_path token (in_tx c.fails (request_body lower c address digest) t)
  request_drawn c address (err e) t = (record { told = refused e; sent = none }, t)
  request_drawn c address panic t = (record { told = crashed; sent = none }, t)

  pub request_allowed : Call → (address : Bytes) → Option ℕ → Tables → Requested × Tables
  unfolding request_drawn drawn
  request_allowed c address (some wait) t =
      (record { told = too_many_attempts wait; sent = none }, t)
  request_allowed c address none t =
      request_drawn c address (drawn (new_opaque_token sha256 c.raw_read)) t

  module _ {S : Type 0} (limiter : Limiter S) where
    pub request_at : Call → Result Bytes → S → Tables → Requested × (S × Tables)
    unfolding request_allowed refusal
    request_at c (ok address) s t =
        let (a, s') = limiter.allow (account_key sha256 fold address) s in
        let (r, t') = request_allowed c address (refusal a) t in (r, (s', t'))
    request_at c (err e) s t = (record { told = refused e; sent = none }, (s, t))
    request_at c panic s t = (record { told = crashed; sent = none }, (s, t))

    unfoldable pub request : Call → (email : Bytes) → S → Tables → Requested × (S × Tables)
    unfolding request_at
    request c email = request_at c (normalize_email parse_address email)
