-- ===== src/Identity/Token.antt =====
-- backend/internal/modules/identity/domain/token.go, and the tokens of session.go, invitation.go and
-- passwordreset.go. SHA-256 is a parameter; `rand.Read` is an argument, what it read or nothing.
pub mod RoundTrip
use project_management.Identity.Base64.{encode, decode}
use project_management.Prelude.Outcome.{Outcome, ok, err, panic, ◌>>=◌}
use project_management.Prelude.{
  ℕ, Bool, Option, none, some, Bytes, length, ◌==◌, not, if◌then◌else◌,
}

abbrev pub opaque_token_bytes : ℕ
opaque_token_bytes = 32

-- The failure to read, the two complaints about a token's shape, and the sentinels that wrap them.
pub data TokenError : Type 0 where
  read_failed not_base64 : TokenError
  wrong_width : ℕ → TokenError
  session_token_malformed invitation_token_malformed password_reset_token_malformed : TokenError

-- A digest's error, wrapped in the sentinel of the caller.
pub wrap : TokenError → Outcome TokenError Bytes → Outcome TokenError Bytes
wrap sentinel (ok digest) = ok digest
wrap sentinel (err e) = err sentinel
wrap sentinel panic = panic

module _ (sha256 : Bytes → Bytes) where
  -- The token for the client, and the digest to store.
  unfoldable pub new_opaque_token : Option Bytes → Outcome TokenError (Bytes × Bytes)
  new_opaque_token none = err read_failed
  new_opaque_token (some raw) = ok (encode raw, sha256 raw)

  unfoldable pub decode_opaque_token : Bytes → Outcome TokenError Bytes
  decode_opaque_token token = elim (decode token) [
    | none ↦ err not_base64
    | some raw ↦
        if not (length raw == opaque_token_bytes)
        then err (wrong_width (length raw))
        else ok (sha256 raw)
  ]

  unfoldable pub session_token_digest : Bytes → Outcome TokenError Bytes
  unfolding decode_opaque_token wrap
  session_token_digest token = wrap session_token_malformed (decode_opaque_token token)

  unfoldable pub invitation_token_digest : Bytes → Outcome TokenError Bytes
  unfolding decode_opaque_token wrap
  invitation_token_digest token = wrap invitation_token_malformed (decode_opaque_token token)

  unfoldable pub password_reset_token_digest : Bytes → Outcome TokenError Bytes
  unfolding decode_opaque_token wrap
  password_reset_token_digest token =
      wrap password_reset_token_malformed (decode_opaque_token token)
