-- ===== src/Identity/Service/Guards.antt =====
-- backend/internal/modules/identity/service/invitation.go: what an address, a name and a role must be.
-- net/mail's `ParseAddress` is a parameter, the address that it finds, or nothing.
use project_management.Authz.{parse_role, role_owner}
use project_management.Identity.Failure.{Result, invalid_email, invalid_name, role_not_invitable}
use project_management.Identity.Text.{trim_space}
use project_management.Identity.Utf8.{rune_count}
use project_management.Prelude.Outcome.{ok, err}
use project_management.Prelude.{
  ℕ, not, Option, none, some, [], Bytes, length, bytes_eq, ltb, ◌==◌, if◌then◌else◌,
}

abbrev pub max_email_length : ℕ
max_email_length = 254

abbrev pub max_name_length : ℕ
max_name_length = 200

unfoldable pub normalize_email : (Bytes → Option Bytes) → Bytes → Result Bytes
normalize_email parse_address email =
    let address = trim_space email in
    if bytes_eq address []
    then err invalid_email
    else if ltb max_email_length (length address)
    then err invalid_email
    else elim (parse_address address) [
      | none ↦ err invalid_email
      | some parsed ↦ if not (bytes_eq parsed address) then err invalid_email else ok address
    ]

unfoldable pub normalize_name : Bytes → Result Bytes
normalize_name name =
    let full = trim_space name in
    if bytes_eq full []
    then err invalid_name
    else if ltb max_name_length (rune_count full)
    then err invalid_name
    else ok full

unfoldable pub check_invitable : Bytes → Result (Unit {0})
check_invitable role =
    let (parsed, unknown) = parse_role role in
    elim unknown [
      | some e ↦ err role_not_invitable
      | none ↦ if parsed == role_owner then err role_not_invitable else ok tt
    ]
