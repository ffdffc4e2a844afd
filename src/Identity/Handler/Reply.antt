-- ===== src/Identity/Handler/Reply.antt =====
-- What the handlers write: the status, the session cookie and the body, by httpx's `WriteJSON`, `WriteError`,
-- `WriteInternalError` and `WriteRateLimited` and auth.go's `setSessionCookie` and `clearSessionCookie`, whose
-- attributes are left out. A panic is answered by httpx's `Recover`: a handler writes after its calls.
use project_management.Httpx.Errors.{
  ErrorCode, FieldError, ErrorBody, status_of, internal_message, rate_limited_message, internal,
  rate_limited, validation_failed,
}
use project_management.Httpx.{retry_after_seconds}
use project_management.Identity.Password.{decimal, min_password_length, max_password_length}
use project_management.Identity.Service.Invitations.{Invited, User}
use project_management.Identity.Service.Sessions.{SessionSummary}
use project_management.Identity.Window.{Time}
use project_management.Prelude.{
  ℕ, Option, none, some, List, [], ◌∷◌, ◌++◌, Bytes, codes, bytes_eq, if◌then◌else◌,
}

pub data Cookie : Type 0 where
  untouched cleared : Cookie
  issued : (token : Bytes) → (expires : Time) → Cookie

pub data Body : Type 0 where
  empty : Body
  error : ErrorBody → Body
  invitation : Invited → Body
  account : User → Body
  sessions : List SessionSummary → Body
  revoked : ℕ → Body

pub record Reply : Type 0 where
  pub status : ℕ
  pub cookie : Cookie
  pub retry_after : Option ℕ
  pub body : Body

abbrev pub write_error : ErrorCode → (message : Bytes) → List FieldError → Reply
write_error code message details = record {
  status = status_of code;
  cookie = untouched;
  retry_after = none;
  body = error (record { code = code; message = message; details = details });
}

abbrev pub write_internal_error : Reply
write_internal_error = write_error internal internal_message []

abbrev pub write_rate_limited : (retry_after : ℕ) → Reply
write_rate_limited wait = record (write_error rate_limited rate_limited_message []) {
  retry_after = some (retry_after_seconds wait);
}

abbrev pub write_json : (status : ℕ) → Cookie → Body → Reply
write_json status cookie body = record {
  status = status;
  cookie = cookie;
  retry_after = none;
  body = body;
}

-- `w.WriteHeader` alone.
abbrev pub write_header : (status : ℕ) → Cookie → Reply
write_header status cookie = write_json status cookie empty

abbrev pub required : (field value : Bytes) → List FieldError → List FieldError
required field value rest =
    if bytes_eq value [] then record { field = field; code = codes "REQUIRED" } ∷ rest else rest

abbrev pub unreadable : Reply
unreadable =
    write_error validation_failed (codes "Isi permintaan tidak bisa dibaca sebagai JSON.") []

-- `fmt.Sprintf` of a password rule.
abbrev pub password_rule : (before : Bytes) → Bytes → (after code : Bytes) → Reply
password_rule before limit after code =
    write_error validation_failed (before ++ (limit ++ after))
      (record { field = codes "password"; code = code } ∷ [])

abbrev pub too_short_reply : Reply
too_short_reply =
    password_rule (codes "Sandi minimal ") (decimal 10 min_password_length) (codes " karakter.")
      (codes "TOO_SHORT")

abbrev pub too_long_reply : Reply
too_long_reply =
    password_rule (codes "Sandi maksimal ") (decimal 10 max_password_length) (codes " byte.")
      (codes "TOO_LONG")
