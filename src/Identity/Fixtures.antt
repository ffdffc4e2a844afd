-- ===== src/Identity/Fixtures.antt =====
-- Concrete data for the tests of the identity module.
use project_management.Identity.Base64.{encode, AreBytes}
use project_management.Identity.Password.{PasswordCrypto}
use project_management.Identity.Tables.{UserRow, SessionRow, ResetRow, Tables, Fails}
use project_management.Prelude.{false, none, [], ◌∷◌, Bytes, codes, replicate, arith}

-- Stand-ins for SHA-256, NFKC and Argon2.
abbrev pub sha256 : Bytes → Bytes
sha256 raw = raw

abbrev pub crypto : PasswordCrypto
crypto = record {
  nfkc = λ plain. plain;
  version = 19;
  id_key = λ plain salt time memory threads width. plain;
}

abbrev pub raw : Bytes
raw = replicate 32 7

abbrev pub token : Bytes
token = encode raw

abbrev pub user : UserRow
user = record {
  id = codes "u1";
  email = codes "a@b.c";
  name = codes "A";
  password_hash = codes "old";
  timezone = codes "UTC";
  role = codes "Member";
  created_at = 0;
  updated_at = 0;
  deleted_at = none;
}

abbrev pub session : SessionRow
session = record {
  id = codes "s1";
  user_id = codes "u1";
  token_hash = codes "h";
  user_agent = [];
  created_at = 0;
  last_seen_at = 0;
  expires_at = 100;
}

abbrev pub reset : ResetRow
reset = record {
  id = codes "r1";
  user_id = codes "u1";
  token_hash = raw;
  expires_at = 100;
  used_at = none;
  created_at = 0;
}

abbrev pub tables : Tables
tables = record {
  users = user ∷ [];
  sessions = session ∷ [];
  invitations = [];
  resets = reset ∷ [];
}

abbrev pub calm : Fails
calm s = false

pub raw-AreBytes : AreBytes raw
raw-AreBytes = ground arith
