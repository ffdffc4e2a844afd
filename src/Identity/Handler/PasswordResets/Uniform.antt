-- ===== src/Identity/Handler/PasswordResets/Uniform.antt =====
-- The answer to a request for a link.
use project_management.Identity.Handler.PasswordResets.{Parts, requested_reply, request_reset}
use project_management.Identity.Service.Invitations.{Call}
use project_management.Identity.Service.ResetRequest.Uniform.{request_uniform}
use project_management.Identity.Store.Resets.{has_token}
use project_management.Identity.Tables.{Tables, Statement, find_row}
use project_management.Prelude.{
  false, Option, none, some, [], Bytes, bytes_eq, ◌≡◌, refl, ap, Bool-cases, inl, inr,
}

-- The whole answer to a request for a link, its status, its headers and its body, is the same for any two
-- contents of the tables, and so is what is left of the limiter, where no statement fails and the
-- token that is drawn is fresh.
pub request_reset_uniform :
    {S : Type 0} (parts : Parts S) (call : Call) (body : Option Bytes) (s : S) (t t2 : Tables)
    → ((st : Statement) → call.fails st ≡ false)
    → ((raw : Bytes)
        → call.raw_read ≡ some raw
        → find_row (has_token (parts.sha256 raw)) t.resets ≡ none)
    → ((raw : Bytes)
        → call.raw_read ≡ some raw
        → find_row (has_token (parts.sha256 raw)) t2.resets ≡ none)
    → let one = request_reset parts call body s t in
      let two = request_reset parts call body s t2 in (one.0 ≡ two.0) × (one.1.0 ≡ two.1.0)
unfolding request_reset
request_reset_uniform parts call none s t t2 up fresh fresh2 = (refl, refl)
request_reset_uniform parts call (some email) s t t2 up fresh fresh2 =
    elim (Bool-cases (bytes_eq email [])) [
      | inl nothing ↦ rw nothing (refl, refl)
      | inr given ↦
          let (told, left) =
            request_uniform parts.lower parts.sha256 parts.fold parts.parse_address parts.join_path
              parts.limiter call email s t t2 up fresh fresh2 in
          rw given (ap requested_reply told, left)
    ]
