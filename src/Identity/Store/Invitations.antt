-- ===== src/Identity/Store/Invitations.antt =====
-- repository/invitations.sql.go. `lower` of SQL is a parameter, as for users.
use project_management.Identity.Failure.{unique_violation}
use project_management.Identity.Tables.{
  InvitationRow, Fails, create_invitation, get_invitation_by_token_hash, accept_invitation,
  expire_open_invitations, M, statement, one, find_row, count_rows, update_rows,
}
use project_management.Identity.Window.{Time, is_set}
use project_management.Prelude.Outcome.{ok, err}
use project_management.Prelude.{ℕ, Bool, not, ◌&&◌, none, some, ◌∷◌, Bytes, bytes_eq, ltb}

-- accepted_at IS NULL AND expires_at > now().
abbrev pub is_open : Time → InvitationRow → Bool
is_open now r = not (is_set r.accepted_at) && ltb now r.expires_at

abbrev pub has_token : Bytes → InvitationRow → Bool
has_token token_hash r = bytes_eq r.token_hash token_hash

unfoldable pub create_invitation_row :
    Fails
    → (id : Bytes) → (now : Time) → (email token_hash invited_by role : Bytes) → (expires_at : Time)
    → M InvitationRow
create_invitation_row fails id now email token_hash invited_by role expires_at =
    statement fails create_invitation λ t. elim (find_row (has_token token_hash) t.invitations) [
      | some r ↦ (err unique_violation, t)
      | none ↦
          let r : InvitationRow = record {
            id = id;
            email = email;
            token_hash = token_hash;
            invited_by = invited_by;
            role = role;
            expires_at = expires_at;
            accepted_at = none;
            created_at = now;
          } in
          (ok r, record t { invitations = r ∷ t.invitations })
    ]

unfoldable pub get_invitation_row : Fails → Bytes → M InvitationRow
get_invitation_row fails token_hash =
    statement fails get_invitation_by_token_hash
      λ t. (one (find_row (has_token token_hash) t.invitations), t)

abbrev pub is_open_id : Time → Bytes → InvitationRow → Bool
is_open_id now id r = bytes_eq r.id id && is_open now r

abbrev pub accepted : Time → InvitationRow → InvitationRow
accepted now r = record r { accepted_at = some now }

unfoldable pub accept_invitation_rows : Fails → Time → Bytes → M ℕ
accept_invitation_rows fails now id = statement fails accept_invitation λ t. (
  ok (count_rows (is_open_id now id) t.invitations),
  record t { invitations = update_rows (is_open_id now id) (accepted now) t.invitations },
)

abbrev pub is_for : (Bytes → Bytes) → Bytes → InvitationRow → Bool
is_for lower email r = bytes_eq (lower r.email) (lower email)

abbrev pub expired_at : Time → InvitationRow → InvitationRow
expired_at now r = record r { expires_at = now }

unfoldable pub expire_open_invitations_rows : (Bytes → Bytes) → Fails → Time → Bytes → M ℕ
expire_open_invitations_rows lower fails now email = statement fails expire_open_invitations λ t.
    let p = λ (r : InvitationRow). is_for lower email r && is_open now r in
    (
      ok (count_rows p t.invitations),
      record t { invitations = update_rows p (expired_at now) t.invitations },
    )
