-- ===== src/Identity/Service/ResetRequest/Superseding.antt =====
-- What `Request` leaves behind: one open link of the account, and a message to the account's address.
use project_management.Identity.Atomic.{KeepsOrSucceeds, in_tx_inv, in_tx-KeepsOrSucceeds}
use project_management.Identity.Failure.{Result}
use project_management.Mail.{Message}
use project_management.Identity.PasswordReset.{new_password_reset_expiry}
use project_management.Identity.Service.Guards.{normalize_email}
use project_management.Identity.Service.Invitations.{Call, drawn}
use project_management.Identity.Service.LoginGuard.{account_key}
use project_management.Identity.Service.ResetRequest.{
  Limiter, Requested, refusal, message, record_reset, request_found, request_body, mailed,
  request_drawn, request_allowed, request_at, request,
}
use project_management.Identity.Stamp
use project_management.Identity.Store.Resets.{
  has_token, is_open, is_open_of, expired_at, create_password_reset_row,
  expire_open_password_resets_rows,
}
use project_management.Identity.Store.Users.{has_email, get_user_by_email_row}
use project_management.Identity.Tables.{
  UserRow, ResetRow, Tables, in_tx, find_row, count_rows, update_rows,
}
use project_management.Identity.Token.{new_opaque_token}
use project_management.Identity.Window.{Time}
use project_management.Prelude.Outcome.{ok, err, panic}
use project_management.Prelude.{
  ℕ, ◌≤◌, Option, none, some, [], ◌∷◌, Bytes, ◌≡◌, ◌⊎◌, inl, inr, refl, ap, arith, Option-cases,
  bytes_eq, if◌then◌else◌,
}

-- The row of a new link.
abbrev pub reset_row : Call → (user_id digest : Bytes) → ResetRow
reset_row c user_id digest = record {
  id = c.new_id;
  user_id = user_id;
  token_hash = digest;
  expires_at = new_password_reset_expiry c.clock;
  used_at = none;
  created_at = c.db_now;
}

-- The tables with it, any open link of the account superseded.
abbrev pub with_reset : Call → (user_id digest : Bytes) → Tables → Tables
with_reset c user_id digest t = record t {
  resets =
      reset_row c user_id digest
      ∷ update_rows (is_open_of c.db_now user_id) (expired_at c.db_now) t.resets;
}

module _ (lower : Bytes → Bytes) where
  -- The account that was found, and the row that was added for it.
  pub record Recorded (c : Call) (address digest : Bytes) (t t' : Tables) (user : UserRow)
      : Type 0 where
    pub user_found : find_row (has_email lower address) t.users ≡ some user
    pub tables_after : t' ≡ with_reset c user.id digest t
    pub one_open_after :
        (later : Time) → c.db_now ≤ later → count_rows (is_open_of later user.id) t'.resets ≤ 1

  one_open :
      (c : Call) (i : Bytes) (r : ResetRow) (t : Tables) (later : Time)
      → c.db_now ≤ later
      → count_rows
          (is_open_of later i)
          (r ∷ update_rows (is_open_of c.db_now i) (expired_at c.db_now) t.resets)
        ≤ 1
  unfolding count_rows
  one_open c i r t later le =
      let closed =
        Stamp.expire_closes (λ x. bytes_eq x.user_id i) is_open expired_at (λ n l x h. ground arith)
          (λ n l x h k. ground arith) c.db_now later t.resets le in
      ground (arith, closed)

  -- The transaction that commits found nobody and did nothing, or did that.
  body_inv :
      (c : Call) (address digest : Bytes) (t t' : Tables) (a : Bytes)
      → request_body lower c address digest t ≡ (ok a, t')
      → ((a ≡ []) × (t' ≡ t))
        ⊎ ((user : UserRow) × (a ≡ user.email) × Recorded c address digest t t' user)
  unfolding request_body request_found record_reset get_user_by_email_row create_password_reset_row
      expire_open_password_resets_rows
  body_inv c address digest t t' a e =
      elim (Option-cases (find_row (has_email lower address) t.users)) [
        | inl nobody ↦ inl (ground arith, ground arith)
        | inr (u, found) ↦
            elim (Option-cases (
              find_row (has_token digest)
                (update_rows (is_open_of c.db_now u.id) (expired_at c.db_now) t.resets))) [
                  | inr (v, clash) ↦ absurd (ground arith)
                  | inl fresh ↦
                      let after : t' ≡ with_reset c u.id digest t = ground arith in
                      inr (
                        u,
                        ground arith,
                        record {
                          user_found = found;
                          tables_after = after;
                          one_open_after = λ later le.
                              rw (ap (λ (x : Tables). x.resets) after)
                                (one_open c u.id _ t later le);
                        },
                      )
                ]
      ]

-- The message for an address, if there is one.
abbrev pub mail_to : (join_path : Bytes → Bytes → Bytes) → (address token : Bytes) → Option Message
mail_to join_path address token =
    if bytes_eq address [] then none else some (message join_path address token)

module _ (lower sha256 fold : Bytes → Bytes) (parse_address : Bytes → Option Bytes)
    (join_path : Bytes → Bytes → Bytes) where
  -- A call that found an account.
  pub record Sent (c : Call) (address : Bytes) (t t' : Tables) (sent : Option Message)
      : Type 0 where
    pub token : Bytes
    pub digest : Bytes
    pub user : UserRow
    pub token_drawn : drawn (new_opaque_token sha256 c.raw_read) ≡ ok (token, digest)
    pub recorded : Recorded lower c address digest t t' user
    pub sent_to : sent ≡ mail_to join_path user.email token

  -- Nothing was sent and nothing is changed, or an account was found.
  abbrev Outcomes : Call → Bytes → Tables → Requested × Tables → Type 0
  Outcomes c address t (r, t') = ((r.sent ≡ none) × (t' ≡ t)) ⊎ Sent c address t t' r.sent

  drawn_cases :
      (c : Call) (address : Bytes) (d : Result (Bytes × Bytes)) (t : Tables)
      → drawn (new_opaque_token sha256 c.raw_read) ≡ d
      → Outcomes c address t (request_drawn lower sha256 fold parse_address join_path c address d t)
  unfolding request_drawn mailed bytes_eq
  drawn_cases c address (err e) t q = inl (refl, refl)
  drawn_cases c address panic t q = inl (refl, refl)
  drawn_cases c address (ok (token, digest)) t q =
      go (in_tx c.fails (request_body lower c address digest) t) refl
        (in_tx-KeepsOrSucceeds c.fails (request_body lower c address digest) t)
    where
      go :
          (r : Result Bytes × Tables)
          → in_tx c.fails (request_body lower c address digest) t ≡ r
          → KeepsOrSucceeds t r
          → Outcomes c address t (mailed join_path token r)
      go (err f, u) e (inl k) = inl (refl, k.0)
      go (panic, u) e (inl k) = inl (refl, k.0)
      go (err f, u) e (inr (a, k)) = absurd (cc)
      go (panic, u) e (inr (a, k)) = absurd (cc)
      go (ok a, u) e k =
          let runs = in_tx_inv c.fails (request_body lower c address digest) t a u e in
          elim (body_inv lower c address digest t u a runs) [
            | inl (nobody, same) ↦ inl (rw nobody refl, same)
            | inr (user, to, rec) ↦ inr (record {
              token = token;
              digest = digest;
              user = user;
              token_drawn = q;
              recorded = rec;
              sent_to = rw to refl;
            })
          ]

  -- `Request` either changes no table and sends nothing, or the address that was typed belongs to a
  -- live account: then a link was recorded for it whose token was drawn for it alone, by no clock from
  -- now on has the account more than one open link, and the link is sent to the address that the
  -- account holds, if that is not empty, and to nobody else.
  pub request_lem :
      {S : Type 0} (limiter : Limiter S) (c : Call) (email : Bytes) (s : S) (t : Tables)
      → let r = request lower sha256 fold parse_address join_path limiter c email s t in
        ((r.0.sent ≡ none) × (r.1.1 ≡ t))
        ⊎ ((address : Bytes) × (normalize_email parse_address email ≡ ok address)
            × Sent c address t r.1.1 r.0.sent)
  unfolding request request_at request_allowed
  request_lem limiter c email s t = go (normalize_email parse_address email) refl
    where
      allowed :
          (address : Bytes) (w : Option ℕ)
          → Outcomes c address t
              (request_allowed lower sha256 fold parse_address join_path c address w t)
      allowed address (some w) = inl (refl, refl)
      allowed address none = drawn_cases c address _ t refl

      go :
          (n : Result Bytes)
          → normalize_email parse_address email ≡ n
          → let r = request_at lower sha256 fold parse_address join_path limiter c n s t in
            ((r.0.sent ≡ none) × (r.1.1 ≡ t))
            ⊎ ((address : Bytes) × (normalize_email parse_address email ≡ ok address)
                × Sent c address t r.1.1 r.0.sent)
      go (err e) q = inl (refl, refl)
      go panic q = inl (refl, refl)
      go (ok address) q =
          elim (allowed address (refusal (limiter.allow (account_key sha256 fold address) s).0)) [
            | inl none_sent ↦ inl none_sent
            | inr sent ↦ inr (address, q, sent)
          ]
