-- ===== src/Identity/Failure.antt =====
-- The values of Go's `error` in the identity module: its sentinels, and what the database reports.
-- Wrapping by `%w` keeps the sentinel, which is all that `errors.Is` reads; the text is not kept.
use project_management.Prelude.Outcome.{Outcome, ok, err, panic}
use project_management.Prelude.{Bool, true, false}

pub data Failure : Type 0 where
  -- pgx.ErrNoRows, the unique violation 23505, and any other failure of a statement
  no_rows unique_violation statement_failed : Failure
  -- rand.Read
  random_failed : Failure
  -- the mail server
  send_failed : Failure
  password_too_long password_too_short : Failure
  password_mismatch hash_unreadable invalid_credentials : Failure
  too_many_attempts : Failure
  unauthenticated session_not_found not_a_uuid : Failure
  invalid_email invalid_name role_not_invitable email_taken invitation_not_usable undeliverable :
      Failure
  password_reset_not_usable : Failure

abbrev pub Result : Type 0 → Type 0
Result = Outcome Failure

-- `errors.Is(err, pgx.ErrNoRows)`.
abbrev pub is_no_rows : Failure → Bool
is_no_rows no_rows = true
is_no_rows _ = false

-- `isUniqueViolation`.
abbrev pub is_unique_violation : Failure → Bool
is_unique_violation unique_violation = true
is_unique_violation _ = false

-- A failure of one kind replaced by another.
abbrev pub rescue {ℓ} :
    {A : Type ℓ} → (Failure → Bool) → Failure → Outcome Failure A → Outcome Failure A
rescue caught by (ok a) = ok a
rescue caught by (err e) = err (elim (caught e) [ true ↦ by | false ↦ e ])
rescue caught by panic = panic
