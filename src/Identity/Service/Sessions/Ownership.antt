-- ===== src/Identity/Service/Sessions/Ownership.antt =====
-- An account sees and ends its own sessions only.
use project_management.Identity.Service.Sessions.{
  Call, SessionSummary, max_user_agent_length, clean_user_agent, summary, list, revoke_by_id,
  revoke_others,
}
use project_management.Identity.Store.Sessions.{
  has_id, belongs_to, list_sessions_by_user_rows, select_shown, delete_session_for_user_rows,
  delete_other_sessions_for_user_rows,
}
use project_management.Identity.Store.Sessions.Shown.{
  IsNewestFirst, select_shown_lem, select_shown-All,
}
use project_management.Identity.Tables.{
  SessionRow, Tables, delete_session_for_user, delete_other_sessions_for_user, count_rows,
  delete_rows,
}
use project_management.Identity.Utf8.{length-to_valid_utf8}
use project_management.Identity.Window.{Time}
use project_management.Prelude.Outcome.{ok}
use project_management.Prelude.{
  ◌≤◌, ◌<◌, All, bytes_eq, Bool, true, not, ◌&&◌, List, [], ◌∷◌, map, Bytes, ◌==◌, length, take,
  length-take, ltb, ◌≡◌, ◌≢◌, inl, inr, refl, arith, Bool-cases, bytes_eq_iff,
}

-- What is stored of the header is at most 512 bytes long.
clean_user_agent_bounded : (agent : Bytes) → length (clean_user_agent agent) ≤ max_user_agent_length
unfolding clean_user_agent
clean_user_agent_bounded agent = elim (Bool-cases (ltb max_user_agent_length (length agent))) [
  | inl e ↦ rw e (
      omega (
        arith,
        length-to_valid_utf8 (take max_user_agent_length agent),
        length-take max_user_agent_length agent (ground arith),
      ))
  | inr e ↦ rw e (ground (arith, length-to_valid_utf8 agent))
]

-- The rows of another account are out of reach of a deletion.
others_kept :
    (p : SessionRow → Bool) (user_id other : Bytes) (ss : List SessionRow)
    → other ≢ user_id
    → ((s : SessionRow) → p s ≡ true → s.user_id ≡ user_id)
    → delete_rows (λ s. not (belongs_to other s)) (delete_rows p ss)
      ≡ delete_rows (λ s. not (belongs_to other s)) ss
unfolding delete_rows
others_kept p user_id other [] ne own = refl
others_kept p user_id other (x ∷ ss) ne own =
    ground (arith, others_kept p user_id other ss ne own, own x, bytes_eq_iff x.user_id other)

-- The account's, and not past its deadline.
abbrev pub IsOwnLive : (user_id : Bytes) → Time → SessionRow → Type 0
IsOwnLive user_id now s = (s.user_id ≡ user_id) × (now < s.expires_at)

-- The list that an account is shown is of its own sessions that are not past their deadline by the
-- database's clock: of every kind of session it has as many entries as there are of these. It is
-- newest activity first, and showing it changes nothing.
pub list_lem :
    (call : Call) (user_id current : Bytes) (out : List SessionSummary) (t t' : Tables)
    → list call user_id current t ≡ (ok out, t')
    → (t' ≡ t)
      × ((rows : List SessionRow) × (out ≡ map (summary current) rows)
          × ((q : SessionRow → Bool)
              → count_rows q rows
                ≡ count_rows
                    (λ s. (bytes_eq s.user_id user_id && ltb call.db_now s.expires_at) && q s)
                    t.sessions)
          × IsNewestFirst rows
          × All (IsOwnLive user_id call.db_now) rows)
unfolding list list_sessions_by_user_rows
list_lem call user_id current out t t' e =
    let (counted, newest) = select_shown_lem user_id call.db_now t.sessions in
    (
      ground arith,
      (
        select_shown user_id call.db_now t.sessions,
        ground arith,
        counted,
        newest,
        select_shown-All (IsOwnLive user_id call.db_now) user_id call.db_now t.sessions
            (λ s h. ((bytes_eq_iff s.user_id user_id).0 (ground arith), ground arith)),
      ),
    )

module _ (is_uuid : Bytes → Bool) where
  -- Nobody ends somebody else's sessions: whatever ids are given and whatever fails, the sessions
  -- of every other account are after `revoke_by_id` and after `revoke_others` what they were.
  pub revocations_apart :
      (call : Call) (user_id session_id other : Bytes) (t : Tables)
      → other ≢ user_id
      → (delete_rows
            (λ s. not (belongs_to other s))
            (revoke_by_id is_uuid call user_id session_id t).1.sessions
          ≡ delete_rows (λ s. not (belongs_to other s)) t.sessions)
        × (delete_rows
              (λ s. not (belongs_to other s))
              (revoke_others is_uuid call user_id session_id t).1.sessions
            ≡ delete_rows (λ s. not (belongs_to other s)) t.sessions)
  unfolding revoke_by_id revoke_others delete_session_for_user_rows
      delete_other_sessions_for_user_rows
  revocations_apart call user_id session_id other t ne = (
    elim (Bool-cases (is_uuid session_id)) [
      | inr bad ↦ rw bad refl
      | inl good ↦ elim (Bool-cases (call.fails delete_session_for_user)) [
        | inl lost ↦ rw (good, lost) refl
        | inr kept ↦ elim (Bool-cases (count_rows by_id t.sessions == 0)) [
          | inl none_hit ↦
              rw (good, kept, none_hit) (others_kept by_id user_id other t.sessions ne by_id_own)
          | inr some_hit ↦
              rw (good, kept, some_hit) (others_kept by_id user_id other t.sessions ne by_id_own)
        ]
      ]
    ],
    elim (Bool-cases (is_uuid session_id)) [
      | inr bad ↦ rw bad refl
      | inl good ↦ elim (Bool-cases (call.fails delete_other_sessions_for_user)) [
        | inl lost ↦ rw (good, lost) refl
        | inr kept ↦ rw (good, kept) (others_kept rest user_id other t.sessions ne rest_own)
      ]
    ],
  )
    where
      by_id : SessionRow → Bool
      by_id s = has_id session_id s && belongs_to user_id s

      rest : SessionRow → Bool
      rest s = belongs_to user_id s && not (has_id session_id s)

      by_id_own : (s : SessionRow) → by_id s ≡ true → s.user_id ≡ user_id
      by_id_own s h = (bytes_eq_iff s.user_id user_id).0 (ground arith)

      rest_own : (s : SessionRow) → rest s ≡ true → s.user_id ≡ user_id
      rest_own s h = (bytes_eq_iff s.user_id user_id).0 (ground arith)
