-- ===== src/Server/Tests.antt =====
-- The theorems on the assembled server at a concrete configuration and a concrete request.
use mathlib.Core.Bool.{xor}
use project_management.Config.Tests as ConfigTests
use project_management.Identity.Fixtures.{token, user, tables}
use project_management.Identity.Handler.Invitations.{accept_invitation}
use project_management.Identity.Handler.PasswordResets.{request_reset, confirm_reset}
use project_management.Identity.Handler.PasswordResets as Resets
use project_management.Identity.HandlerTests as HandlerTests
use project_management.Identity.InvitationTests.{call, new_call, password}
use project_management.Identity.LoginTests.{texts}
use project_management.Identity.Tables.{Tables}
use project_management.Identity.Password.{decimal}
use project_management.Mail.Smtp.{Sender, Server, join_host_port, new_smtp, send}
use project_management.Mail.Tests.{plain}
use project_management.Mail.{
  Message, index_control, no_control, last_at, split_address, parsed_sender, sender_address,
}
use project_management.Httpx.{client_ip}
use project_management.Redis.Limiter.{allow}
use project_management.Redis.Tests as RedisTests
use project_management.Redis.{Link, answers}
use project_management.Server.Counted.{Counted, twice, once, counted_as, endpoints-Counted}
use project_management.Server.Invited.{IsTurnedAway, IsInvited, invitations_authorized}
use project_management.Server.Production.{Encrypted, production-Encrypted}
use project_management.Server.{
  mail_options, Origin, on_tables, reset_account_limit, invitations_route, accept_endpoint,
  reset_request_endpoint, reset_confirm_endpoint,
}
use project_management.Prelude.Outcome.{ok}
use project_management.Prelude.{
  false, Option, some, [], ◌∷◌, ◌++◌, Bytes, codes, bytes_eq, index_byte, ◌≡◌, ◌⊎◌, refl,
}

abbrev sender : Sender
sender = record {
  addr = codes "mx:587";
  host = codes "mx";
  from = record { name = []; address = codes "n@x.y" };
  auth = some (codes "u", codes "p");
  allow_unencrypted = false;
}

sender_made : new_smtp plain (mail_options ConfigTests.loaded) ≡ ok sender
unfolding new_smtp mail_options xor bytes_eq join_host_port index_byte decimal sender_address
    no_control index_control parsed_sender split_address last_at
sender_made = refl

production-Encrypted_example :
    (sender.auth ≡ some (codes "u", codes "p"))
    × ((server : Server) (date : Bytes) (random : Option Bytes) (m : Message)
        → Encrypted server sender (send server plain date random sender m).1)
production-Encrypted_example =
    production-Encrypted ConfigTests.texts plain (ConfigTests.settings (codes "p"))
      ConfigTests.loaded sender ConfigTests.load_runs refl sender_made

abbrev origin : Origin
origin = record { remote_addr = codes "10.0.0.1"; forwarded = [] }

abbrev up : RedisTests.Server → Link
up s = answers

abbrev resetting : Resets.Parts RedisTests.Server
resetting = record {
  sha256 = HandlerTests.resetting.sha256;
  fold = HandlerTests.resetting.fold;
  lower = HandlerTests.resetting.lower;
  crypto = HandlerTests.resetting.crypto;
  parse_address = HandlerTests.resetting.parse_address;
  join_path = HandlerTests.resetting.join_path;
  limiter = reset_account_limit RedisTests.server up RedisTests.print texts [];
}

endpoints-Counted_example :
    Counted
      (allow RedisTests.server up RedisTests.print twice)
      (codes "accept:" ++ counted_as texts (client_ip texts [] origin.remote_addr origin.forwarded))
      (on_tables (
        accept_invitation HandlerTests.parts call HandlerTests.issuing
          (some HandlerTests.acceptance)
          (codes "curl")))
      RedisTests.empty
      tables
      (accept_endpoint RedisTests.server up RedisTests.print texts [] HandlerTests.parts call
        HandlerTests.issuing origin
        (some HandlerTests.acceptance)
        (codes "curl")
        RedisTests.empty
        tables)
    × Counted
        (allow RedisTests.server up RedisTests.print once)
        (codes "reset:"
          ++ counted_as texts (client_ip texts [] origin.remote_addr origin.forwarded))
        (request_reset resetting call (some (codes "a@b.c")))
        RedisTests.empty
        tables
        (reset_request_endpoint RedisTests.server up RedisTests.print texts [] resetting call origin
          (some (codes "a@b.c"))
          RedisTests.empty
          tables)
    × Counted
        (allow RedisTests.server up RedisTests.print twice)
        (codes "reset-confirm:"
          ++ counted_as texts (client_ip texts [] origin.remote_addr origin.forwarded))
        (on_tables (confirm_reset resetting HandlerTests.around (some (token, password))))
        RedisTests.empty
        tables
        (reset_confirm_endpoint RedisTests.server up RedisTests.print texts [] resetting
          HandlerTests.around origin
          (some (token, password))
          RedisTests.empty
          tables)
endpoints-Counted_example =
    endpoints-Counted RedisTests.server up RedisTests.print texts [] HandlerTests.parts resetting
      call HandlerTests.issuing HandlerTests.around origin (some HandlerTests.acceptance)
      (codes "curl") (some (codes "a@b.c")) (some (token, password)) RedisTests.empty tables

-- The account of the session is stored as owner.
abbrev owner_tables : Tables
owner_tables = record HandlerTests.signed_in_tables {
  users = record user { role = codes "owner" } ∷ [];
}

invitations_authorized_example :
    let r =
      invitations_route RedisTests.server up RedisTests.print texts [] HandlerTests.parts new_call
        HandlerTests.issuing
        (some token)
        (some (codes "c@b.c", codes "viewer"))
        RedisTests.empty
        owner_tables in
    IsTurnedAway RedisTests.server up RedisTests.print texts [] HandlerTests.parts
      HandlerTests.issuing
      (some token)
      owner_tables
      r
    ⊎ IsInvited RedisTests.server up RedisTests.print texts [] HandlerTests.parts new_call
        HandlerTests.issuing
        (some token)
        (some (codes "c@b.c", codes "viewer"))
        RedisTests.empty
        owner_tables
        r
invitations_authorized_example =
    invitations_authorized RedisTests.server up RedisTests.print texts [] HandlerTests.parts
      new_call HandlerTests.issuing (some token) (some (codes "c@b.c", codes "viewer"))
      RedisTests.empty owner_tables
