-- ===== src/Identity/Service/Sessions/Joined.antt =====
-- The join of a session with its live account, in backend/internal/modules/identity/repository/
-- sessions.sql.go: what it finds.
use project_management.Identity.Store.Sessions.{has_token, live_owner, join_users_live}
use project_management.Identity.Store.Users.{is_live}
use project_management.Identity.Tables.{UserRow, SessionRow, find_row, delete_rows}
use project_management.Prelude.{
  Bool, true, All, subst, Option, none, some, List, [], ◌∷◌, Bytes, ◌≡◌, inl, inr, refl, arith,
  Option-cases, Bool-cases, bytes_eq_iff,
}

-- What a lookup gives passes its test.
pub find_row_passes :
    {A : Type 0} (p : A → Bool) (xs : List A) (x : A) → find_row p xs ≡ some x → p x ≡ true
unfolding find_row
find_row_passes p [] x e = cc
find_row_passes p (y ∷ xs) x e = elim (Bool-cases (p y)) [
  | inl hit ↦ cc (hit, rw hit at e)
  | inr miss ↦ find_row_passes p xs x (rw miss at e)
]

-- A row of the token and the live account that it belongs to.
abbrev pub IsLiveSession : List UserRow → Bytes → Option (SessionRow × UserRow) → Type 0
IsLiveSession users digest none = Unit
IsLiveSession users digest (some (s, u)) =
    (s.token_hash ≡ digest)
    × (u.id ≡ s.user_id)
    × (is_live u ≡ true)
    × (find_row (live_owner s.user_id) users ≡ some u)

pub join_found :
    (users : List UserRow) (ss : List SessionRow) (digest : Bytes)
    → IsLiveSession users digest (join_users_live users ss (has_token digest))
unfolding join_users_live
join_found users [] digest = tt
join_found users (x ∷ ss) digest = elim (Bool-cases (has_token digest x)) [
  | inr miss ↦ rw miss (join_found users ss digest)
  | inl hit ↦ elim (Option-cases (find_row (live_owner x.user_id) users)) [
    | inl none_live ↦ rw (hit, none_live) (join_found users ss digest)
    | inr (v, live) ↦
        let passes = find_row_passes (live_owner x.user_id) users v live in
        rw (hit, live)
          (
            (bytes_eq_iff x.token_hash digest).0 hit,
            (bytes_eq_iff v.id x.user_id).0 (ground arith),
            ground arith,
            live,
          )
  ]
]

-- With no row of a token there is nothing to join.
pub join_none :
    (users : List UserRow) (ss : List SessionRow) (digest : Bytes)
    → join_users_live users (delete_rows (has_token digest) ss) (has_token digest) ≡ none
unfolding join_users_live delete_rows
join_none users [] digest = refl
join_none users (x ∷ ss) digest = ground (arith, join_none users ss digest)

pub join_head :
    (users : List UserRow) (ss : List SessionRow) (s : SessionRow) (u : UserRow)
    → find_row (live_owner s.user_id) users ≡ some u
    → join_users_live users (s ∷ ss) (has_token s.token_hash) ≡ some (s, u)
unfolding join_users_live
join_head users ss s u live = rw ((bytes_eq_iff s.token_hash s.token_hash).1 refl, live) refl

-- What all sessions have, the one that is joined has.
pub join_All :
    (P : SessionRow → Type 0) (users : List UserRow) (ss : List SessionRow) (p : SessionRow → Bool)
    (s : SessionRow) (u : UserRow)
    → All P ss
    → join_users_live users ss p ≡ some (s, u)
    → P s
unfolding join_users_live
join_All P users [] p s u h e = absurd (cc)
join_All P users (x ∷ ss) p s u h e = elim (Bool-cases (p x)) [
  | inr miss ↦ join_All P users ss p s u h.1 (rw miss at e)
  | inl hit ↦ elim (Option-cases (find_row (live_owner x.user_id) users)) [
    | inl nobody ↦ join_All P users ss p s u h.1 (rw (hit, nobody) at e)
    | inr (v, live) ↦ subst P (first_of (rw (hit, live) at e)) h.0
  ]
]
  where
    first_of :
        {v : UserRow} → ◌≡◌ {A = Option (SessionRow × UserRow)} (some (x, v)) (some (s, u)) → x ≡ s
    first_of q = cc
