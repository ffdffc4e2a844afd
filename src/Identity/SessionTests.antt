-- ===== src/Identity/SessionTests.antt =====
-- The theorems on sessions at concrete inputs.
use project_management.Identity.Store.Sessions.{list_sessions_by_user_rows, select_shown}
use project_management.Identity.Store.Sessions.{delete_session_by_token_hash_rows}
use project_management.Identity.Session.{needs_renewal}
use project_management.Identity.Store.Sessions.{get_session_row}
use project_management.Identity.Store.Sessions.{create_session_row}
use project_management.Identity.Base64.{encode, decode}
use project_management.Identity.Session.{
  Session, session_idle_window, new_session_expiry, is_expired,
}
use project_management.Identity.Tables.{Tables, find_row, count_rows, update_rows, delete_rows}
use project_management.Identity.Store.Users.{soft_delete_user_rows}
use project_management.Identity.Service.Sessions.Reached.{
  Reached, start, issued as after_issue, used,
}
use project_management.Identity.Service.Sessions.Recent.{authenticate-IsRecent}
use project_management.Identity.Service.Sessions.Windows.{idle, absolute}
use project_management.Identity.Store.Sessions.{has_token, join_users_live, touch_session_rows}
use project_management.Identity.Session.{renewed_expiry}
use project_management.Identity.Tables.{UserRow, SessionRow}
use project_management.Identity.Window.{hour}
use project_management.Prelude.{Bytes, true, ◌<◌, ◌*◌}
use project_management.Identity.Service.Sessions.Masked.{IsOutOfReach, soft_delete_ends}
use project_management.Identity.Token.{new_opaque_token, session_token_digest}
use project_management.Prelude.Outcome.{ok}
use project_management.Prelude.{◌+◌, some, [], ◌∷◌, codes, bytes_eq, ◌≡◌, ◌≢◌, refl, arith}
use project_management.Identity.Fixtures.{
  sha256, raw, token, user, session, tables, calm, raw-AreBytes,
}
use project_management.Identity.Service.Sessions.Lifecycle.{
  IsSignedIn, authenticate_sound, revoke_ends, issue-authenticate,
}
use project_management.Identity.Service.Sessions.{
  Call, Authenticated, SessionSummary, issue, authenticate, revoke, summary, list,
}
use project_management.Prelude.{List, map}
use project_management.Identity.Store.Sessions.{live_owner}

abbrev call : Call
call = record { fails = calm; raw_read = some raw; new_id = codes "s2"; clock = 10; db_now = 11 }

abbrev later : Call
later = record call { clock = 12; db_now = 13 }

abbrev issued : Session
issued = record {
  id = codes "s2";
  user_id = codes "u1";
  created_at = 11;
  last_seen_at = 11;
  expires_at = 10 + session_idle_window;
}

abbrev signed_in_tables : Tables
signed_in_tables = (issue sha256 call (codes "u1") (codes "curl") tables).1

issue_runs :
    issue sha256 call (codes "u1") (codes "curl") tables ≡ (ok (token, issued), signed_in_tables)
unfolding issue new_opaque_token create_session_row find_row bytes_eq new_session_expiry
issue_runs = refl

owner_live : find_row (live_owner (codes "u1")) tables.users ≡ some user
unfolding find_row bytes_eq
owner_live = refl

issue-authenticate_example :
    (issued.user_id ≡ codes "u1")
    × (issued.expires_at ≡ 10 + session_idle_window)
    × ((authenticate sha256 later token signed_in_tables).0
        ≡ ok (record {
          session_id = codes "s2";
          user_id = codes "u1";
          email = user.email;
          name = user.name;
          timezone = user.timezone;
          role = user.role;
        }))
issue-authenticate_example =
    issue-authenticate sha256 call later (codes "u1") (codes "curl") raw token issued tables
      signed_in_tables user refl refl raw-AreBytes issue_runs owner_live refl (omega arith)

abbrev learnt : Authenticated
learnt = record {
  session_id = codes "s2";
  user_id = codes "u1";
  email = user.email;
  name = user.name;
  timezone = user.timezone;
  role = user.role;
}

abbrev seen_tables : Tables
seen_tables = (authenticate sha256 later token signed_in_tables).1

authenticate_runs : authenticate sha256 later token signed_in_tables ≡ (ok learnt, seen_tables)
unfolding authenticate session_token_digest decode encode get_session_row issue new_opaque_token
    create_session_row find_row bytes_eq is_expired new_session_expiry needs_renewal
authenticate_runs = refl

authenticate_sound_example : IsSignedIn sha256 later token signed_in_tables learnt
authenticate_sound_example =
    authenticate_sound sha256 later token signed_in_tables learnt seen_tables authenticate_runs

abbrev ended_tables : Tables
ended_tables = (revoke sha256 later token signed_in_tables).1

revoke_runs : revoke sha256 later token signed_in_tables ≡ (ok tt, ended_tables)
unfolding revoke session_token_digest decode encode delete_session_by_token_hash_rows
revoke_runs = refl

revoke_ends_example : authenticate sha256 later token ended_tables ≢ (ok learnt, ended_tables)
revoke_ends_example =
    revoke_ends sha256 later token signed_in_tables ended_tables revoke_runs later learnt
      ended_tables

abbrev shown : List SessionSummary
shown = map (summary (codes "s1")) (session ∷ [])

list_runs : list call (codes "u1") (codes "s1") tables ≡ (ok shown, tables)
unfolding list list_sessions_by_user_rows select_shown bytes_eq
list_runs = refl

abbrev masked_tables : Tables
masked_tables = (soft_delete_user_rows calm 5 (codes "u1") tables).1

soft_delete_runs : soft_delete_user_rows calm 5 (codes "u1") tables ≡ (ok 1, masked_tables)
unfolding soft_delete_user_rows count_rows update_rows bytes_eq
soft_delete_runs = refl

soft_delete_ends_example :
    IsOutOfReach sha256 (codes "u1") masked_tables
    × (delete_rows (λ u. bytes_eq u.id (codes "u1")) masked_tables.users
        ≡ delete_rows (λ u. bytes_eq u.id (codes "u1")) tables.users)
    × (masked_tables ≡ record tables { users = masked_tables.users })
soft_delete_ends_example =
    soft_delete_ends sha256 calm 5 (codes "u1") 1 tables masked_tables soft_delete_runs

abbrev no_sessions : Tables
no_sessions = record tables { sessions = [] }

abbrev first_tables : Tables
first_tables = (issue sha256 call (codes "u1") (codes "curl") no_sessions).1

-- Two hours on, a use renews the deadline.
abbrev renewing : Call
renewing = record call { clock = 2 * hour; db_now = 2 * hour }

abbrev renewed_tables : Tables
renewed_tables = (authenticate sha256 renewing token first_tables).1

renewed_Reached : Reached sha256 (λ id. true) 5 renewed_tables
renewed_Reached =
    used first_tables renewing token
      (after_issue no_sessions call (codes "u1") (codes "curl") (start no_sessions refl)
        (omega arith) tt)
      (omega arith)

abbrev last_tables : Tables
last_tables = (authenticate sha256 renewing token renewed_tables).1

renewed_runs : authenticate sha256 renewing token renewed_tables ≡ (ok learnt, last_tables)
unfolding authenticate session_token_digest decode encode get_session_row issue new_opaque_token
    create_session_row find_row bytes_eq is_expired new_session_expiry needs_renewal renewed_expiry
    touch_session_rows update_rows join_users_live count_rows
renewed_runs = refl

authenticate-IsRecent_example :
    (digest : Bytes) × (s : SessionRow) × (u : UserRow) × (session_token_digest sha256 token
      ≡ ok digest)
    × (join_users_live renewed_tables.users renewed_tables.sessions (has_token digest)
        ≡ some (s, u))
    × (learnt.session_id ≡ s.id)
    × (renewing.clock < s.created_at + absolute)
    × (renewing.clock < s.last_seen_at + (idle + 5))
authenticate-IsRecent_example =
    authenticate-IsRecent sha256 (λ id. true) 5 renewed_tables renewing token learnt last_tables
      (omega arith) renewed_Reached renewed_runs
