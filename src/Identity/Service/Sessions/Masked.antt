-- ===== src/Identity/Service/Sessions/Masked.antt =====
-- An account that is masked, by SoftDeleteUser of backend/internal/modules/identity/repository/users.sql.go,
-- is out of reach.
use project_management.Identity.Service.Sessions.{Call, Authenticated, authenticate}
use project_management.Identity.Service.Sessions.Lifecycle.{authenticate_sound}
use project_management.Identity.Service.Sessions.Joined.{find_row_passes}
use project_management.Identity.Store.Users.{
  is_live, has_id, has_email, masked, insert_user, select_users, list_users_rows,
  get_user_by_email_row, get_user_by_id_row, soft_delete_user_rows,
}
use project_management.Identity.Store.Sessions.{live_owner}
use project_management.Identity.Tables.{
  UserRow, Tables, Fails, Statement, get_user_by_email, get_user_by_id, list_users,
  soft_delete_user, statement, one, find_row, update_rows, delete_rows,
}
use mathlib.Core.Option.{some-injective}
use project_management.Identity.Window.{Time}
use project_management.Prelude.Outcome.{ok}
use project_management.Prelude.{
  ℕ, Bool, All, true, some, List, [], ◌∷◌, Bytes, bytes_eq, ◌≡◌, ◌≢◌, refl, sym, ap, subst, ◌∙◌,
  inl, inr, arith, Bool-cases, Option-cases, bytes_eq_iff,
}

-- A row of the view that a lookup finds afterwards is another account's.
masked_gone :
    (now : Time) (id : Bytes) (us : List UserRow) (p : UserRow → Bool) (u : UserRow)
    → find_row p (update_rows (has_id id) (masked now) us) ≡ some u
    → is_live u ≡ true
    → u.id ≢ id
unfolding find_row update_rows
masked_gone now id [] p u e live = absurd (cc)
masked_gone now id (x ∷ us) p u e live =
    let here : (y : UserRow)
        → find_row p (y ∷ update_rows (has_id id) (masked now) us) ≡ some u
        → (is_live y ≡ true → y.id ≢ id)
        → u.id ≢ id =
      λ y f other. elim (Bool-cases (p y)) [
        | inl hit ↦
            subst (λ (v : UserRow). is_live v ≡ true → v.id ≢ id) (some-injective _ _ (rw hit at f))
              other live
        | inr miss ↦ masked_gone now id us p u (rw miss at f) live
      ] in
    elim (Bool-cases (has_id id x)) [
      | inl own ↦ here (masked now x) (rw own at e) (λ alive. absurd (ground arith))
      | inr foreign ↦ here x (rw foreign at e) (λ alive same. ground (arith, bytes_eq_iff x.id id))
    ]

-- The rows of other accounts stay.
others_stay :
    (now : Time) (id : Bytes) (us : List UserRow)
    → delete_rows (λ u. bytes_eq u.id id) (update_rows (has_id id) (masked now) us)
      ≡ delete_rows (λ u. bytes_eq u.id id) us
unfolding delete_rows update_rows
others_stay now id [] = refl
others_stay now id (x ∷ us) = ground (arith, others_stay now id us)

-- What a read that succeeds has found.
read_found :
    (fails : Fails) (name : Statement) (p : UserRow → Bool) (t : Tables) (u : UserRow)
    (t'' : Tables)
    → statement fails name (λ t. (one (find_row p t.users), t)) t ≡ (ok u, t'')
    → find_row p t.users ≡ some u
read_found fails name p t u t'' e = elim (Bool-cases (fails name)) [
  | inl failed ↦ absurd (ground arith)
  | inr runs ↦ elim (Option-cases (find_row p t.users)) [
    | inl missing ↦ absurd (ground arith)
    | inr (v, found) ↦ ground arith
  ]
]

soft_delete_left :
    (fails : Fails) (now : Time) (id : Bytes) (n : ℕ) (t t' : Tables)
    → soft_delete_user_rows fails now id t ≡ (ok n, t')
    → t' ≡ record t { users = update_rows (has_id id) (masked now) t.users }
unfolding soft_delete_user_rows
soft_delete_left fails now id n t t' e = elim (Bool-cases (fails soft_delete_user)) [
  | inl failed ↦ absurd (ground arith)
  | inr runs ↦ ground arith
]

-- After the masking no row that is live is the account's.
masked-All :
    (now : Time) (id : Bytes) (us : List UserRow)
    → All (λ u. is_live u ≡ true → u.id ≢ id) (update_rows (has_id id) (masked now) us)
unfolding update_rows
masked-All now id [] = tt
masked-All now id (x ∷ us) = (
  elim (Bool-cases (has_id id x)) [
    | inl own ↦ rw own (λ live. absurd (cc))
    | inr foreign ↦ rw foreign (λ live same. ground (arith, bytes_eq_iff x.id id))
  ],
  masked-All now id us,
)

module _ (lower : Bytes → Bytes) (at_most : Bytes → Bytes → Bool) where
  insert_user-All :
      (P : UserRow → Type 0) (u : UserRow) (us : List UserRow)
      → P u
      → All P us
      → All P (insert_user lower at_most u us)
  unfolding insert_user
  insert_user-All P u [] h k = (h, tt)
  insert_user-All P u (v ∷ vs) h (hv, k) =
      elim (Bool-cases (at_most (lower u.name) (lower v.name))) [
        | inl first ↦ rw first (h, (hv, k))
        | inr later ↦ rw later (hv, insert_user-All P u vs h k)
      ]

  -- What holds of the live rows holds of the list.
  select_users-All :
      (P : UserRow → Type 0) (us : List UserRow)
      → All (λ u. is_live u ≡ true → P u) us
      → All P (select_users lower at_most us)
  unfolding select_users
  select_users-All P [] h = tt
  select_users-All P (u ∷ us) (h, hs) = elim (Bool-cases (is_live u)) [
    | inl live ↦ rw live (insert_user-All P u _ (h live) (select_users-All P us hs))
    | inr masked_one ↦ rw masked_one (select_users-All P us hs)
  ]

  listed_rows :
      (fails : Fails) (t : Tables) (us : List UserRow) (t'' : Tables)
      → list_users_rows lower at_most fails t ≡ (ok us, t'')
      → select_users lower at_most t.users ≡ us
  unfolding list_users_rows
  listed_rows fails t us t'' e = elim (Bool-cases (fails list_users)) [
    | inl failed ↦ absurd (ground arith)
    | inr runs ↦ ground arith
  ]

module _ (sha256 : Bytes → Bytes) where
  -- No token is signed in as the account, no address and not its id find it, and it is on no list of the
  -- users.
  abbrev pub IsOutOfReach : (id : Bytes) → Tables → Type 0
  IsOutOfReach id t =
      ((call : Call) (token : Bytes) (a : Authenticated) (t' : Tables)
        → authenticate sha256 call token t ≡ (ok a, t')
        → a.user_id ≢ id)
      × ((lower : Bytes → Bytes) (reads : Fails) (email : Bytes) (u : UserRow) (t' : Tables)
          → get_user_by_email_row lower reads email t ≡ (ok u, t')
          → u.id ≢ id)
      × ((reads : Fails) (u : UserRow) (t' : Tables) → get_user_by_id_row reads id t ≢ (ok u, t'))
      × ((lower : Bytes → Bytes) (at_most : Bytes → Bytes → Bool) (reads : Fails)
            (us : List UserRow) (t' : Tables)
          → list_users_rows lower at_most reads t ≡ (ok us, t')
          → All (λ u. u.id ≢ id) us)

  -- After an account was masked, no token is signed in as it, it is found neither by an address nor by
  -- its id, and ListUsers does not show it, whatever the clocks and the failures. The rows of all other accounts and the other
  -- tables are what they were.
  pub soft_delete_ends :
      (fails : Fails) (now : Time) (id : Bytes) (n : ℕ) (t t' : Tables)
      → soft_delete_user_rows fails now id t ≡ (ok n, t')
      → IsOutOfReach id t'
        × (delete_rows (λ u. bytes_eq u.id id) t'.users
            ≡ delete_rows (λ u. bytes_eq u.id id) t.users)
        × (t' ≡ record t { users = t'.users })
  unfolding soft_delete_user_rows
  soft_delete_ends fails now id n t t' e =
      let left = soft_delete_left fails now id n t t' e in
      let after : t'.users ≡ update_rows (has_id id) (masked now) t.users =
        ap (λ (v : Tables). v.users) left in
      let gone : (p : UserRow → Bool) (u : UserRow)
          → find_row p t'.users ≡ some u
          → is_live u ≡ true
          → u.id ≢ id =
        λ p u f live. masked_gone now id t.users p u (rw after at f) live in
      (
        (
          λ call token a t'' f same.
              let (digest, s, u, de, found, facts, early, identity) =
                authenticate_sound sha256 call token t' a t'' f in
              gone (live_owner s.user_id) u facts.3 facts.2 (cc (facts.1, identity, same)),
          λ lower reads email u t'' f same.
              let found =
                read_found reads get_user_by_email (has_email lower email) t' u t''
                  (unfold get_user_by_email_row in f) in
              let passes = find_row_passes (has_email lower email) t'.users u found in
              gone (has_email lower email) u found (ground arith) same,
          λ reads u t'' f.
              let found =
                read_found reads get_user_by_id (has_id id) t' u t''
                  (unfold get_user_by_id_row in f) in
              let passes = find_row_passes (has_id id) t'.users u found in
              gone (has_id id) u found (ground arith) ((bytes_eq_iff u.id id).0 (ground arith)),
          λ lower at_most reads us t'' f. rw (← listed_rows lower at_most reads t' us t'' f) (
              select_users-All lower at_most (λ u. u.id ≢ id) t'.users
                (rw after (masked-All now id t.users))),
        ),
        rw after (others_stay now id t.users),
        left ∙ ap (λ (us : List UserRow). record t { users = us }) (sym after),
      )
