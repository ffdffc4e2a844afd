-- ===== src/Httpx/Errors.antt =====
-- backend/internal/httpx/errors.go: the error codes and their statuses. The request id, which the server
-- draws, is not part of a body here, nor are the headers.
use project_management.Prelude.{ℕ, List, Bytes, codes}

pub data ErrorCode : Type 0 where
  validation_failed unauthenticated forbidden not_found conflict rate_limited internal : ErrorCode

unfoldable pub status_of : ErrorCode → ℕ
status_of validation_failed = 400
status_of unauthenticated = 401
status_of forbidden = 403
status_of not_found = 404
status_of conflict = 409
status_of rate_limited = 429
status_of internal = 500

pub record FieldError : Type 0 where
  pub field : Bytes
  pub code : Bytes

pub record ErrorBody : Type 0 where
  pub code : ErrorCode
  pub message : Bytes
  pub details : List FieldError

abbrev pub internal_message : Bytes
internal_message = codes "Terjadi kesalahan di server. Sertakan request_id kalau melaporkannya."

abbrev pub rate_limited_message : Bytes
rate_limited_message = codes "Terlalu banyak percobaan. Coba lagi sebentar."
