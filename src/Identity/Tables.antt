-- ===== src/Identity/Tables.antt =====
-- The tables of backend/db/migrations that the identity module uses, the monad of its statements,
-- and the transaction of cmd/api/main.go.
use project_management.Identity.Failure.{Failure, Result, statement_failed, no_rows}
use project_management.Identity.Window.{Time}
use project_management.Prelude.Outcome.{Outcome, ok, err, panic}
use project_management.Prelude.{
  ℕ, suc, Bool, Option, none, some, List, [], ◌∷◌, Bytes, if◌then◌else◌,
}

pub record UserRow : Type 0 where
  pub id : Bytes
  pub email : Bytes
  pub name : Bytes
  pub password_hash : Bytes
  pub timezone : Bytes
  pub role : Bytes
  pub created_at : Time
  pub updated_at : Time
  pub deleted_at : Option Time

pub record SessionRow : Type 0 where
  pub id : Bytes
  pub user_id : Bytes
  pub token_hash : Bytes
  pub user_agent : Bytes
  pub created_at : Time
  pub last_seen_at : Time
  pub expires_at : Time

pub record InvitationRow : Type 0 where
  pub id : Bytes
  pub email : Bytes
  pub token_hash : Bytes
  pub invited_by : Bytes
  pub role : Bytes
  pub expires_at : Time
  pub accepted_at : Option Time
  pub created_at : Time

pub record ResetRow : Type 0 where
  pub id : Bytes
  pub user_id : Bytes
  pub token_hash : Bytes
  pub expires_at : Time
  pub used_at : Option Time
  pub created_at : Time

pub record Tables : Type 0 where
  pub users : List UserRow
  pub sessions : List SessionRow
  pub invitations : List InvitationRow
  pub resets : List ResetRow

-- The names of the statements.
pub data Statement : Type 0 where
  begin commit : Statement
  get_user_by_email create_user update_user_password_hash set_user_password_hash : Statement
  get_user_by_id list_users soft_delete_user : Statement
  create_session get_session_by_token_hash touch_session delete_session_by_token_hash : Statement
  list_sessions_by_user delete_session_for_user delete_other_sessions_for_user : Statement
  delete_all_sessions_for_user : Statement
  create_invitation get_invitation_by_token_hash accept_invitation expire_open_invitations :
      Statement
  create_password_reset get_password_reset_by_token_hash use_password_reset : Statement
  expire_open_password_resets : Statement

-- Which statements fail in one call of a service.
abbrev pub Fails : Type 0
Fails = Statement → Bool

abbrev pub M : Type 0 → Type 0
M A = Tables → Result A × Tables

abbrev pub then_run : {A B : Type 0} → Result A × Tables → (A → M B) → Result B × Tables
then_run (ok a, t) f = f a t
then_run (err e, t) f = (err e, t)
then_run (panic, t) f = (panic, t)

infixl 5 ◌>>=◌
abbrev pub ◌>>=◌ : {A B : Type 0} → M A → (A → M B) → M B
◌>>=◌ m f t = then_run (m t) f

abbrev pub return : {A : Type 0} → A → M A
return a t = (ok a, t)

abbrev pub fail : {A : Type 0} → Failure → M A
fail e t = (err e, t)

-- A value computed outside the database.
abbrev pub lift : {A : Type 0} → Result A → M A
lift r t = (r, t)

-- The error of a statement, looked at.
abbrev pub with_error : {A : Type 0} → (Result A → Result A) → M A → M A
with_error f m t = let (r, t') = m t in (f r, t')

-- A statement that reads or writes, unless it fails.
abbrev pub statement : {A : Type 0} → Fails → Statement → M A → M A
statement fails s m t = if fails s then (err statement_failed, t) else m t

-- `inTx`: what `fn` did is kept only if it returns no error and the commit succeeds.
abbrev pub finish_tx : {A : Type 0} → Fails → Tables → Result A × Tables → Result A × Tables
finish_tx fails before (ok a, t) =
    if fails commit then (err statement_failed, before) else (ok a, t)
finish_tx fails before (err e, t) = (err e, before)
finish_tx fails before (panic, t) = (panic, before)

unfoldable pub in_tx : {A : Type 0} → Fails → M A → M A
in_tx fails fn t = if fails begin then (err statement_failed, t) else finish_tx fails t (fn t)

-- `:one`: the first row, or pgx.ErrNoRows.
abbrev pub one {ℓ} : {A : Type ℓ} → Option A → Outcome Failure A
one none = err no_rows
one (some a) = ok a

-- WHERE, UPDATE … WHERE with its row count, and DELETE … WHERE.
module _ {A : Type 0} where
  unfoldable pub find_row : (A → Bool) → List A → Option A
  find_row p [] = none
  find_row p (x ∷ xs) = if p x then some x else find_row p xs

  unfoldable pub count_rows : (A → Bool) → List A → ℕ
  count_rows p [] = 0
  count_rows p (x ∷ xs) = let n = count_rows p xs in if p x then suc n else n

  unfoldable pub update_rows : (A → Bool) → (A → A) → List A → List A
  update_rows p f [] = []
  update_rows p f (x ∷ xs) = (if p x then f x else x) ∷ update_rows p f xs

  unfoldable pub delete_rows : (A → Bool) → List A → List A
  delete_rows p [] = []
  delete_rows p (x ∷ xs) = let rest = delete_rows p xs in if p x then rest else x ∷ rest
