-- ===== src/Identity/LoginTests.antt =====
-- The theorem on signing in through the endpoint at a concrete request.
use project_management.Identity.Fixtures.{sha256, raw, token, user, tables, calm, raw-AreBytes}
use project_management.Identity.GuardTests.{guard}
use project_management.Identity.Handler.Auth.Sound.{IsLogin, login-IsLogin}
use project_management.Identity.Handler.Auth.{Request, signed_in, Parts, Around, login_body, login}
use project_management.Identity.InvitationTests.{same}
use project_management.Identity.Service.Invitations.{User, user_of}
use project_management.Identity.Service.Sessions as Sessions
use project_management.Identity.Session.{session_idle_window, new_session_expiry}
use project_management.Identity.SignInTests.{zeros, scanner, password, hash, sign_in}
use project_management.Identity.Tables.{Tables, find_row}
use project_management.Httpx.{Netip, client_ip, rate_limit_key, rate_limit_prefix_key}
use project_management.Identity.Base64.{encode as base64_url, decode as base64_url_decode}
use project_management.Identity.Password.{encode, decimal, base64_std}
use project_management.Identity.Password.Reading.{
  verify_password, decode, base64_std_decode, verify_stored, needs_rehash,
}
use project_management.Identity.Service.LoginGuard as Guard
use project_management.Identity.Service.Credentials as Credentials
use project_management.Identity.Store.Users.{get_user_by_email_row}
use project_management.Identity.Store.Sessions.{create_session_row}
use project_management.Identity.Token.{new_opaque_token}
use project_management.Identity.Utf8.{to_valid_utf8}
use project_management.Prelude.{
  ◌+◌, none, some, List, [], ◌∷◌, Bytes, codes, bytes_eq, ◌≡◌, refl, false,
}

abbrev pub texts : Netip Bytes Bytes
texts = record {
  split_host_port = λ text. none;
  parse_addr = λ text. some text;
  unmap = λ addr. addr;
  without_zone = λ addr. addr;
  contains = λ prefix addr. bytes_eq prefix addr;
  is_6 = λ addr. false;
  is_4_in_6 = λ addr. false;
  prefix = λ addr bits. none;
  prefix_string = λ prefix. prefix;
  addr_string = λ addr. addr;
}

abbrev parts : Parts (List Bytes) Bytes Bytes
parts = record {
  sha256 = sha256;
  fold = same;
  lower = same;
  crypto = zeros;
  scanner = scanner;
  cpus = 1;
  decoy = hash;
  guard = guard;
  netip = texts;
  trusted = [];
}

abbrev around : Around
around = record {
  credentials = sign_in;
  sessions = record {
    fails = calm;
    raw_read = some raw;
    new_id = codes "s2";
    clock = 10;
    db_now = 11;
  };
}

abbrev request : Request
request = record {
  body = some (codes "a@b.c", password);
  remote_addr = codes "10.0.0.1";
  forwarded = [];
  user_agent = codes "curl";
  cookie = none;
}

abbrev owner_tables : Tables
owner_tables = record tables { users = record user { password_hash = hash } ∷ [] }

abbrev member : User
member = record {
  id = codes "u1";
  email = codes "a@b.c";
  name = codes "A";
  timezone = codes "UTC";
  role = codes "Member";
}

abbrev after : List Bytes × Tables
after = (login parts around request [] owner_tables).1

login_runs :
    login parts around request [] owner_tables
    ≡ (signed_in member token (10 + session_idle_window), (after.0, after.1))
unfolding login bytes_eq client_ip Guard.check Credentials.authenticate get_user_by_email_row
    find_row verify_password decode encode decimal base64_std base64_url base64_std_decode
    base64_url_decode verify_stored needs_rehash rate_limit_key rate_limit_prefix_key
    Guard.succeeded Sessions.issue new_opaque_token create_session_row new_session_expiry
    Sessions.clean_user_agent to_valid_utf8 login_body user_of
login_runs = refl

login-IsLogin_example :
    IsLogin parts around request [] owner_tables after.1 member token raw (10 + session_idle_window)
login-IsLogin_example =
    login-IsLogin parts around request [] after.0 owner_tables after.1 member token raw
      (10 + session_idle_window) refl refl raw-AreBytes login_runs
