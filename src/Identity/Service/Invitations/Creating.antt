-- ===== src/Identity/Service/Invitations/Creating.antt =====
-- What `Create` leaves behind: one open invitation for the address, and a message to it alone.
use project_management.Identity.Atomic.{KeepsOrSucceeds, in_tx_inv, in_tx-KeepsOrSucceeds}
use project_management.Identity.Failure.{Result}
use project_management.Identity.Invitation.{new_invitation_expiry}
use project_management.Identity.Service.Guards.{normalize_email, check_invitable}
use project_management.Identity.Service.Invitations.{
  Call, Invited, Created, refused, crashed, delivered, undelivered, invited_of, no_account,
  create_body, deliver, create_drawn, prepare, create_prepared, create, message, drawn,
}
use project_management.Identity.Stamp
use project_management.Identity.Stamp.{HasKeyBy}
use project_management.Identity.Store.Invitations.{
  is_open, has_token, is_for, expired_at, create_invitation_row, expire_open_invitations_rows,
}
use project_management.Identity.Store.Users.{has_email, get_user_by_email_row}
use project_management.Identity.Tables.{
  InvitationRow, Tables, find_row, count_rows, update_rows, in_tx, ◌>>=◌, lift, return,
}
use project_management.Mail.{Message}
use project_management.Identity.Token.{new_opaque_token}
use project_management.Identity.Window.{Time}
use project_management.Prelude.Outcome.{ok, err, panic}
use project_management.Prelude.{
  ◌≤◌, ◌&&◌, Option, none, some, ◌∷◌, Bytes, ◌≡◌, ◌⊎◌, inl, inr, refl, ◌∙◌, sym, ap, arith,
  Option-cases, Bool-cases,
}

module _ (lower : Bytes → Bytes) where
  -- The rows and the facts of a transaction of `Create` that commits.
  pub record Recorded (c : Call) (invited_by address role digest : Bytes) (t t' : Tables)
      (row : InvitationRow) : Type 0 where
    pub free : find_row (has_email lower address) t.users ≡ none
    pub row_made : row ≡ record {
      id = c.new_id;
      email = address;
      token_hash = digest;
      invited_by = invited_by;
      role = role;
      expires_at = new_invitation_expiry c.clock;
      accepted_at = none;
      created_at = c.db_now;
    }
    pub tables_after : t' ≡ record t {
      invitations =
          row
          ∷ update_rows
              (λ r. is_for lower address r && is_open c.db_now r)
              (expired_at c.db_now)
              t.invitations;
    }

  create_body_inv :
      (c : Call) (invited_by address role digest : Bytes) (t t' : Tables) (row : InvitationRow)
      → create_body lower c invited_by address role digest t ≡ (ok row, t')
      → Recorded c invited_by address role digest t t' row
  unfolding create_body get_user_by_email_row no_account expire_open_invitations_rows
      create_invitation_row
  create_body_inv c invited_by address role digest t t' row e =
      elim (Option-cases (find_row (has_email lower address) t.users)) [
        | inr (v, taken) ↦ absurd (ground arith)
        | inl free ↦
            elim (Option-cases (
              find_row (has_token digest) (
                update_rows (λ r. is_for lower address r && is_open c.db_now r)
                  (expired_at c.db_now) t.invitations))) [
                    | inr (v, clash) ↦ absurd (ground arith)
                    | inl fresh ↦ record {
                      free = free;
                      row_made = ground arith;
                      tables_after = ground arith;
                    }
                  ]
      ]

  -- An address that was just invited has one open invitation at most, by any later clock.
  one_open :
      (c : Call) (invited_by address role digest : Bytes) (t t' : Tables) (row : InvitationRow)
      (later : Time)
      → Recorded c invited_by address role digest t t' row
      → c.db_now ≤ later
      → count_rows (λ r. is_for lower address r && is_open later r) t'.invitations ≤ 1
  unfolding count_rows
  one_open c invited_by address role digest t t' row later r le =
      let closed =
        Stamp.expire_closes (is_for lower address) is_open expired_at (λ n l x h. ground arith)
          (λ n l x h k. ground arith) c.db_now later t.invitations le in
      let stored = ap (λ (x : Tables). x.invitations) r.tables_after in
      rw stored (ground (arith, closed))

  -- What was handed to the mail server, and the answer beside it.
  abbrev pub sent : Created → Option (Invited × Message)
  sent (refused f) = none
  sent crashed = none
  sent (delivered i m) = some (i, m)
  sent (undelivered i m) = some (i, m)

  module _ (sha256 : Bytes → Bytes) (parse_address : Bytes → Option Bytes)
      (join_path : Bytes → Bytes → Bytes) where
    deliver_ok :
        (c : Call) (address token : Bytes) (row : InvitationRow) (t : Tables)
        → (sent (deliver lower sha256 parse_address join_path c address token (ok row, t)).0
            ≡ some (invited_of row, message join_path address token))
          × ((deliver lower sha256 parse_address join_path c address token (ok row, t)).1 ≡ t)
    unfolding deliver
    deliver_ok c address token row t = elim (Bool-cases c.send_fails) [
      | inl lost ↦ rw lost (refl, refl)
      | inr taken ↦ rw taken (refl, refl)
    ]

    -- Nothing was sent and nothing is changed, or it was, for the row that is recorded.
    abbrev Delivers :
        Call → (invited_by address role token digest : Bytes) → Tables → Created × Tables → Type 0
    Delivers c invited_by address role token digest t (a, t') =
        ((sent a ≡ none) × (t' ≡ t))
        ⊎ ((row : InvitationRow) × (create_body lower c invited_by address role digest t
              ≡ (ok row, t'))
            × (sent a ≡ some (invited_of row, message join_path address token)))

    create_drawn_cases :
        (c : Call) (invited_by address role token digest : Bytes) (t : Tables)
        → Delivers c invited_by address role token digest t (
            create_drawn lower sha256 parse_address join_path c invited_by address role
              (token, digest)
              t)
    unfolding deliver create_drawn
    create_drawn_cases c invited_by address role token digest t =
        go (in_tx c.fails (create_body lower c invited_by address role digest) t) refl
          (in_tx-KeepsOrSucceeds c.fails (create_body lower c invited_by address role digest) t)
      where
        go :
            (r : Result InvitationRow × Tables)
            → in_tx c.fails (create_body lower c invited_by address role digest) t ≡ r
            → KeepsOrSucceeds t r
            → Delivers c invited_by address role token digest t
                (deliver lower sha256 parse_address join_path c address token r)
        go (ok row, u) q k =
            let (told, same) = deliver_ok c address token row u in
            inr (
              row,
              in_tx_inv c.fails (create_body lower c invited_by address role digest) t row u q
                  ∙ ap (λ x. (ok row, x)) (sym same),
              told,
            )
        go (err f, u) q (inl k) = inl (refl, k.0)
        go (panic, u) q (inl k) = inl (refl, k.0)
        go (err f, u) q (inr (row, k)) = absurd (cc)
        go (panic, u) q (inr (row, k)) = absurd (cc)

    -- A call that had a message sent: for an address and a role that may be invited and a token drawn
    -- for it alone, with the invitation recorded in the account-free address's name.
    pub record Sent (c : Call) (invited_by email role : Bytes) (t t' : Tables) (a : Created)
        : Type 0 where
      pub address : Bytes
      pub token : Bytes
      pub digest : Bytes
      pub row : InvitationRow
      pub address_kept : normalize_email parse_address email ≡ ok address
      pub invitable : check_invitable role ≡ ok tt
      pub token_drawn : drawn (new_opaque_token sha256 c.raw_read) ≡ ok (token, digest)
      pub recorded : Recorded c invited_by address role digest t t' row
      pub answer : sent a ≡ some (invited_of row, message join_path address token)
      pub one_open_after :
          (later : Time)
          → c.db_now ≤ later
          → count_rows (λ r. is_for lower address r && is_open later r) t'.invitations ≤ 1

    -- `Create` either changes no table and sends nothing, whatever it answers, or it has recorded the
    -- invitation and sent its link to the invited address, whether or not the mail server took it.
    -- Then the address had no live account, the role is one that may be invited, the row that is
    -- added holds the digest of the token in the message, and by no clock from now on has the address
    -- more than one open invitation.
    pub create_lem :
        (c : Call) (invited_by email role : Bytes) (t : Tables)
        → let r = create lower sha256 parse_address join_path c invited_by email role t in
          ((sent r.0 ≡ none) × (r.1 ≡ t)) ⊎ Sent c invited_by email role t r.1 r.0
    unfolding create create_prepared prepare
    create_lem c invited_by email role t =
        go (normalize_email parse_address email) refl (check_invitable role) refl
          (drawn (new_opaque_token sha256 c.raw_read)) refl
      where
        go :
            (n : Result Bytes)
            → normalize_email parse_address email ≡ n
            → (k : Result (Unit {0})) → check_invitable role ≡ k
            → (d : Result (Bytes × Bytes)) → drawn (new_opaque_token sha256 c.raw_read) ≡ d
            → let r = create_prepared lower sha256 parse_address join_path c invited_by role (
                (lift n >>= λ address.
                lift k >>= λ invitable. lift d >>= λ pair. return (address, pair))
                  t) in
              ((sent r.0 ≡ none) × (r.1 ≡ t)) ⊎ Sent c invited_by email role t r.1 r.0
        go (err f) ne k ke d de = inl (refl, refl)
        go panic ne k ke d de = inl (refl, refl)
        go (ok address) ne (err f) ke d de = inl (refl, refl)
        go (ok address) ne panic ke d de = inl (refl, refl)
        go (ok address) ne (ok tt) ke (err f) de = inl (refl, refl)
        go (ok address) ne (ok tt) ke panic de = inl (refl, refl)
        go (ok address) ne (ok tt) ke (ok (token, digest)) de =
            elim (create_drawn_cases c invited_by address role token digest t) [
              | inl none_sent ↦ inl none_sent
              | inr (row, runs, told) ↦
                  let rec = create_body_inv c invited_by address role digest t _ row runs in
                  inr (record {
                    address = address;
                    token = token;
                    digest = digest;
                    row = row;
                    address_kept = ne;
                    invitable = ke;
                    token_drawn = de;
                    recorded = rec;
                    answer = told;
                    one_open_after =
                        λ later le. one_open c invited_by address role digest t _ row later rec le;
                  })
            ]
