-- ===== src/Identity/Handler/PasswordResets/SignedOut.antt =====
-- Following a reset link signs the account out everywhere.
use project_management.Httpx.Errors.{FieldError, status_of}
use project_management.Identity.Failure.{Failure, Result, password_reset_not_usable}
use project_management.Identity.Handler.PasswordResets.{
  Parts, write_confirm_error, confirmed_reply, confirm_checked, confirm_reset,
}
use project_management.Identity.Handler.Reply.{cleared, Reply, required}
use project_management.Identity.Service.Reset.{Surroundings, confirm}
use project_management.Identity.Service.Reset.SingleUse.{confirm_effect}
use project_management.Identity.Service.Sessions as Sessions
use project_management.Identity.Service.Sessions.{Authenticated}
use project_management.Identity.Service.Sessions.Joined.{join_All}
use project_management.Identity.Service.Sessions.Lifecycle.{authenticate_sound}
use project_management.Identity.Store.Resets.{has_token}
use project_management.Identity.Store.Sessions as Stored
use project_management.Identity.Store.Sessions.{live_owner, join_users_live}
use project_management.Identity.Store.Users.{has_id, with_password}
use project_management.Identity.Password.{hash_password}
use project_management.Identity.Tables.{ResetRow, Tables, find_row, update_rows}
use project_management.Identity.Token.{password_reset_token_digest}
use project_management.Prelude.Outcome.{ok, err, panic}
use project_management.Prelude.{
  All, Option, none, some, List, [], ◌∷◌, Bytes, codes, ◌≡◌, ◌≢◌, refl, sym, ap, ◌∙◌, arith,
}

refused_status : (f : Failure) → (write_confirm_error f).status ≢ 204
unfolding write_confirm_error status_of
refused_status password_reset_not_usable = omega arith
refused_status f = omega arith

module _ {S : Type 0} (parts : Parts S) where
  confirm_inv :
      (call : Surroundings) (body : Option (Bytes × Bytes)) (t t' : Tables) (r : Reply)
      → confirm_reset parts call body t ≡ (r, t')
      → r.status ≡ 204
      → (token password : Bytes) × (body ≡ some (token, password))
        × (confirm parts.sha256 parts.crypto call token password t ≡ (ok tt, t'))
        × (r.cookie ≡ cleared)
  unfolding confirm_reset confirm_checked confirmed_reply status_of
  confirm_inv call none t t' r e s = absurd (ground arith)
  confirm_inv call (some (token, password)) t t' r e s =
      checked (required (codes "token") token (required (codes "password") password [])) e
    where
      answered :
          (x : Result (Unit {0}) × Tables)
          → confirm parts.sha256 parts.crypto call token password t ≡ x
          → confirmed_reply x ≡ (r, t')
          → (confirm parts.sha256 parts.crypto call token password t ≡ (ok tt, t'))
            × (r.cookie ≡ cleared)
      answered (ok u, v) p f = (
        p ∙ ap (λ (y : Reply × Tables). (ok tt, y.1)) f,
        sym (ap (λ (y : Reply × Tables). y.0.cookie) f),
      )
      answered (err x, v) p f =
          absurd (refused_status x (ap (λ (y : Reply × Tables). y.0.status) f ∙ s))
      answered (panic, v) p f = absurd (ground arith)

      checked :
          (ds : List FieldError)
          → confirm_checked parts call token password ds t ≡ (r, t')
          → (x y : Bytes) × (◌≡◌ {A = Option (Bytes × Bytes)}
              (some (token, password))
              (some (x, y)))
            × (confirm parts.sha256 parts.crypto call x y t ≡ (ok tt, t'))
            × (r.cookie ≡ cleared)
      checked (d ∷ ds) f = absurd (ground arith)
      checked [] f =
          let (runs, gone) =
            answered (confirm parts.sha256 parts.crypto call token password t) refl f in
          (token, password, refl, runs, gone)

  -- If a reset link is followed with the answer 204, its token led to a reset row whose account has now
  -- the hash of the password that was sent, if it is live; the answer clears the cookie; and no token
  -- whatever, old or not, is signed in as that account in the tables that are left.
  pub confirm_signs_out :
      (call : Surroundings) (body : Option (Bytes × Bytes)) (t t' : Tables) (r : Reply)
      → confirm_reset parts call body t ≡ (r, t')
      → r.status ≡ 204
      → (token password digest hash : Bytes) × (row : ResetRow) × (body ≡ some (token, password))
        × (password_reset_token_digest parts.sha256 token ≡ ok digest)
        × (find_row (has_token digest) t.resets ≡ some row)
        × (hash_password parts.crypto call.salt_read password ≡ ok hash)
        × (t'.users ≡ update_rows (has_id row.user_id) (with_password call.db_now hash) t.users)
        × (r.cookie ≡ cleared)
        × ((later : Sessions.Call) (any : Bytes) (a : Authenticated) (t'' : Tables)
            → Sessions.authenticate parts.sha256 later any t' ≡ (ok a, t'')
            → a.user_id ≢ row.user_id)
  confirm_signs_out call body t t' r e s =
      let (token, password, sent, runs, gone) = confirm_inv call body t t' r e s in
      let (
        digest, hash, row, read_token, hashed, found, unused, in_time, users_after, sessions_after,
        none_left, invitations_after,
      ) =
        confirm_effect parts.sha256 parts.crypto call token password t t' runs in
      (
        token,
        password,
        digest,
        hash,
        row,
        sent,
        read_token,
        found,
        hashed,
        users_after,
        gone,
        λ later any a t'' f. signed_out row.user_id none_left later any a t'' f,
      )
    where
      signed_out :
          (user_id : Bytes)
          → All (λ x. x.user_id ≢ user_id) t'.sessions
          → (later : Sessions.Call) (any : Bytes) (a : Authenticated) (t'' : Tables)
          → Sessions.authenticate parts.sha256 later any t' ≡ (ok a, t'')
          → a.user_id ≢ user_id
      signed_out user_id none_left later any a t'' f same =
          let (d, row, u, read, joined, live, early, identity) =
            authenticate_sound parts.sha256 later any t' a t'' f in
          join_All (λ x. x.user_id ≢ user_id) t'.users t'.sessions (Stored.has_token d) row u
            none_left joined (sym (ap (λ (x : Authenticated). x.user_id) identity) ∙ same)
