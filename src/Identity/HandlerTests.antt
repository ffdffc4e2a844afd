-- ===== src/Identity/HandlerTests.antt =====
-- The theorems on the endpoints of invitations, resets and sessions at concrete requests.
use project_management.Identity.Base64.{encode, decode}
use project_management.Identity.Fixtures.{
  sha256, crypto, raw, token, session, tables, calm, raw-AreBytes,
}
use project_management.Identity.Handler.Invitations as Invitations
use project_management.Identity.Handler.Invitations.{
  Acceptance, accept_invitation, accept_checked, accepted_reply, create_invitation, may_invite,
}
use project_management.Identity.Handler.Invitations.Welcome.{accept_signs_in}
use project_management.Identity.Handler.PasswordResets as Resets
use project_management.Identity.Handler.PasswordResets.{
  request_reset, confirm_reset, confirm_checked, confirmed_reply,
}
use project_management.Identity.Handler.PasswordResets.SignedOut.{confirm_signs_out}
use project_management.Identity.Handler.PasswordResets.Uniform.{request_reset_uniform}
use project_management.Identity.Handler.Reply.{issued, cleared, account, sessions, Reply}
use project_management.Identity.Handler.Sessions.{
  require_session, with_caller, tables_alone, list_sessions, revoke_session, revoke_other_sessions,
}
use project_management.Identity.Handler.Sessions.Own.{
  SessionsKept, SignedInAs, looked_up, own_sessions_shown, others_sessions_untouched,
}
use project_management.Identity.InvitationTests.{
  same, call, name, password, invited_tables, parse, join, limiter, new_call, other_tables,
  fresh_token,
}
use project_management.Identity.Invitation.{is_usable}
use project_management.Identity.Password.{hash_password}
use project_management.Identity.PasswordReset as PasswordReset
use project_management.Identity.Service.Guards.{normalize_name}
use project_management.Identity.Service.Invitations.{User, accept, user_of}
use project_management.Identity.Service.Reset.{Surroundings, confirm}
use project_management.Identity.Service.Sessions as Sessions
use project_management.Identity.Service.Sessions.{
  summary, Authenticated, SessionSummary, issue, authenticate, list, session_of,
}
use project_management.Identity.Service.Sessions.Lifecycle.{IsSignedIn}
use project_management.Identity.Session.{
  is_expired, needs_renewal, renewed_expiry, new_session_expiry, session_idle_window,
}
use project_management.Identity.Store.Invitations.{get_invitation_row, accept_invitation_rows}
use project_management.Identity.Store.Resets.{
  has_token, get_password_reset_row, use_password_reset_rows,
}
use project_management.Identity.Store.Sessions.{
  select_shown, create_session_row, delete_all_sessions_for_user_rows, get_session_row,
  touch_session_rows, list_sessions_by_user_rows,
}
use project_management.Identity.Store.Users.{
  create_user_row, set_user_password_hash_row, has_id, with_password,
}
use project_management.Identity.Tables.{
  ResetRow, SessionRow, Tables, find_row, in_tx, count_rows, update_rows,
}
use project_management.Identity.Text.{trim_space}
use project_management.Identity.Token.{
  session_token_digest, new_opaque_token, invitation_token_digest, password_reset_token_digest,
}
use project_management.Identity.Utf8.{rune_count, to_valid_utf8}
use project_management.Prelude.Outcome.{ok}
use project_management.Prelude.{
  ℕ, ◌+◌, true, false, Option, some, [], ◌∷◌, List, map, Bytes, codes, bytes_eq, ◌≡◌, ◌≢◌, ◌⊎◌,
  refl, ◌&&◌, ◌<◌, All, ltb, Bool, arith,
}

abbrev pub parts : Invitations.Parts
parts = record {
  sha256 = sha256;
  lower = same;
  crypto = crypto;
  parse_address = parse;
  join_path = join;
}

abbrev pub issuing : Sessions.Call
issuing = record { fails = calm; raw_read = some raw; new_id = codes "s2"; clock = 12; db_now = 13 }

abbrev pub acceptance : Acceptance
acceptance = record { token = token; name = name; password = password }

abbrev welcomed : Reply × Tables
welcomed = accept_invitation parts call issuing (some acceptance) (codes "curl") invited_tables

cookie_set : welcomed.0.cookie ≡ issued token (12 + session_idle_window)
unfolding accept_invitation bytes_eq encode accept invitation_token_digest decode normalize_name
    trim_space rune_count hash_password in_tx get_invitation_row find_row is_usable
    accept_invitation_rows count_rows create_user_row issue new_opaque_token
    Sessions.clean_user_agent session_of new_session_expiry create_session_row update_rows
    to_valid_utf8 user_of
cookie_set = refl

accept_signs_in_example :
    (u : User) × (session_id : Bytes) × (welcomed.0.status ≡ 201)
    × (welcomed.0.body ≡ account u)
    × ((authenticate sha256 issuing token welcomed.1).0
        ≡ ok (record {
          session_id = session_id;
          user_id = u.id;
          email = u.email;
          name = u.name;
          timezone = u.timezone;
          role = u.role;
        }))
accept_signs_in_example =
    accept_signs_in parts call issuing issuing acceptance (codes "curl") raw token
      (12 + session_idle_window) invited_tables welcomed.1 welcomed.0 refl refl raw-AreBytes refl
      cookie_set refl (omega arith)

abbrev pub resetting : Resets.Parts ℕ
resetting = record {
  sha256 = sha256;
  fold = same;
  lower = same;
  crypto = crypto;
  parse_address = parse;
  join_path = join;
  limiter = limiter;
}

request_reset_uniform_example :
    let one = request_reset resetting new_call (some (codes "a@b.c")) 0 tables in
    let two = request_reset resetting new_call (some (codes "a@b.c")) 0 other_tables in
    (one.0 ≡ two.0) × (one.1.0 ≡ two.1.0)
request_reset_uniform_example =
    request_reset_uniform resetting new_call (some (codes "a@b.c")) 0 tables other_tables
      (λ st. refl) fresh_token fresh_token

abbrev pub around : Surroundings
around = record {
  fails = calm;
  salt_read = some (codes "0123456789abcdef");
  clock = 10;
  db_now = 11;
}

abbrev confirmed : Reply × Tables
confirmed = confirm_reset resetting around (some (token, password)) tables

confirmed_status : confirmed.0.status ≡ 204
unfolding confirm_reset bytes_eq encode confirm password_reset_token_digest decode hash_password
    rune_count in_tx get_password_reset_row find_row PasswordReset.is_usable use_password_reset_rows
    count_rows set_user_password_hash_row update_rows delete_all_sessions_for_user_rows
confirmed_status = refl

confirm_signs_out_example :
    (sent secret digest hash : Bytes) × (row : ResetRow) × (◌≡◌ {A = Option (Bytes × Bytes)}
      (some (token, password))
      (some (sent, secret)))
    × (password_reset_token_digest sha256 sent ≡ ok digest)
    × (find_row (has_token digest) tables.resets ≡ some row)
    × (hash_password crypto around.salt_read secret ≡ ok hash)
    × (confirmed.1.users
        ≡ update_rows (has_id row.user_id) (with_password around.db_now hash) tables.users)
    × (confirmed.0.cookie ≡ cleared)
    × ((later : Sessions.Call) (any : Bytes) (a : Authenticated) (t'' : Tables)
        → authenticate sha256 later any confirmed.1 ≡ (ok a, t'')
        → a.user_id ≢ row.user_id)
confirm_signs_out_example =
    confirm_signs_out resetting around (some (token, password)) tables confirmed.1 confirmed.0 refl
      confirmed_status

abbrev pub signed_in_tables : Tables
signed_in_tables = record tables {
  sessions =
      record session { id = codes "s9"; token_hash = raw; last_seen_at = 5 } ∷ tables.sessions;
}

abbrev shown : Reply × Tables
shown =
    require_session tables_alone sha256 issuing (list_sessions issuing) (some token)
      signed_in_tables

abbrev is_uuid : Bytes → Bool
is_uuid text = true

others_sessions_untouched_example :
    (SessionsKept sha256 issuing
        (codes "u2")
        (looked_up sha256 issuing (some token) signed_in_tables)
        (require_session tables_alone sha256 issuing
          (revoke_session is_uuid issuing (codes "s1"))
          (some token)
          signed_in_tables).1
      ⊎ SignedInAs sha256 issuing (codes "u2") (some token) signed_in_tables)
    × (SessionsKept sha256 issuing
          (codes "u2")
          (looked_up sha256 issuing (some token) signed_in_tables)
          (require_session tables_alone sha256 issuing
            (revoke_other_sessions is_uuid issuing)
            (some token)
            signed_in_tables).1
        ⊎ SignedInAs sha256 issuing (codes "u2") (some token) signed_in_tables)
others_sessions_untouched_example =
    others_sessions_untouched sha256 issuing is_uuid issuing (codes "u2") (codes "s1") (some token)
      signed_in_tables

abbrev listing : List SessionSummary
listing =
    record {
      id = codes "s9";
      user_agent = [];
      created_at = 0;
      last_seen_at = 13;
      expires_at = 12 + session_idle_window;
      current = true;
    }
    ∷ record {
      id = codes "s1";
      user_agent = [];
      created_at = 0;
      last_seen_at = 0;
      expires_at = 100;
      current = false;
    }
    ∷ []

-- The reply shows both.
shown_runs : shown.0.body ≡ sessions listing
unfolding require_session with_caller bytes_eq encode authenticate decode get_session_row find_row
    list_sessions list session_token_digest is_expired needs_renewal renewed_expiry
    touch_session_rows list_sessions_by_user_rows select_shown update_rows
shown_runs = refl

own_sessions_shown_example :
    (sent : Bytes) × (who : Authenticated) × (rows : List SessionRow) × (◌≡◌ {A = Option Bytes}
      (some token)
      (some sent))
    × IsSignedIn sha256 issuing sent signed_in_tables who
    × (listing ≡ map (summary who.session_id) rows)
    × All (λ s. (s.user_id ≡ who.user_id) × (issuing.db_now < s.expires_at)) rows
    × ((q : SessionRow → Bool)
        → count_rows q rows
          ≡ count_rows
              (λ s. (bytes_eq s.user_id who.user_id && ltb issuing.db_now s.expires_at) && q s)
              shown.1.sessions)
own_sessions_shown_example =
    own_sessions_shown sha256 issuing issuing (some token) signed_in_tables shown.1 shown.0 listing
      refl shown_runs
