-- ===== src/Identity/Service/Sessions/Windows.antt =====
-- backend/internal/modules/identity/domain/session.go: the two windows over a table of sessions, and
-- what deletions and renewals leave of it.
use project_management.Identity.Service.Sessions.{session_of}
use project_management.Identity.Session.{renewed_expiry}
use project_management.Identity.Store.Sessions.{has_id}
use project_management.Identity.Tables.{SessionRow, update_rows, delete_rows}
use project_management.Identity.Window.{Time}
use project_management.Prelude.{
  ◌+◌, ◌≤◌, Bool, All, List, [], ◌∷◌, Bytes, bytes_eq_iff, ◌≡◌, ◌≢◌, inl, inr, refl, sym, arith,
  Bool-cases,
}

-- 14 and 90 days, in nanoseconds.
abbrev pub idle : Time
idle = 1209600000000000

abbrev pub absolute : Time
absolute = 7776000000000000

-- The deadline is at most 90 days after the creation, and at most 14 days and `skew` after the last
-- use that was written down.
abbrev pub IsWithin : (skew : Time) → SessionRow → Type 0
IsWithin skew s =
    (s.expires_at ≤ s.created_at + absolute) × (s.expires_at ≤ s.last_seen_at + (idle + skew))

-- The primary key.
abbrev pub Distinct : List SessionRow → Type 0
Distinct [] = Unit
Distinct (s ∷ ss) = All (λ x. x.id ≢ s.id) ss × Distinct ss

-- What is known of the created_at of the rows with an id.
abbrev pub CreatedAlike : SessionRow → List SessionRow → Type 0
CreatedAlike s ss = All (λ x. x.id ≡ s.id → x.created_at ≡ s.created_at) ss

-- The invariant.
abbrev pub IsSound : (skew : Time) → List SessionRow → Type 0
IsSound skew ss = All (IsWithin skew) ss × Distinct ss

delete-All :
    (P : SessionRow → Type 0) (p : SessionRow → Bool) (ss : List SessionRow)
    → All P ss
    → All P (delete_rows p ss)
unfolding delete_rows
delete-All P p [] h = tt
delete-All P p (s ∷ ss) (h, hs) = elim (Bool-cases (p s)) [
  | inl gone ↦ rw gone (delete-All P p ss hs)
  | inr kept ↦ rw kept (h, delete-All P p ss hs)
]

delete-Distinct :
    (p : SessionRow → Bool) (ss : List SessionRow) → Distinct ss → Distinct (delete_rows p ss)
unfolding delete_rows
delete-Distinct p [] h = tt
delete-Distinct p (s ∷ ss) (h, hs) = elim (Bool-cases (p s)) [
  | inl gone ↦ rw gone (delete-Distinct p ss hs)
  | inr kept ↦ rw kept (delete-All (λ x. x.id ≢ s.id) p ss h, delete-Distinct p ss hs)
]

pub delete-IsSound :
    (skew : Time) (p : SessionRow → Bool) (ss : List SessionRow)
    → IsSound skew ss
    → IsSound skew (delete_rows p ss)
delete-IsSound skew p ss (h, k) = (delete-All (IsWithin skew) p ss h, delete-Distinct p ss k)

-- A renewal of the rows with an id.
abbrev touched : Time → Time → SessionRow → SessionRow
touched now until x = record x { last_seen_at = now; expires_at = until }

touch-ids :
    (P : Bytes → Type 0) (id : Bytes) (now until : Time) (ss : List SessionRow)
    → All (λ x. P x.id) ss
    → All (λ x. P x.id) (update_rows (has_id id) (touched now until) ss)
unfolding update_rows
touch-ids P id now until [] h = tt
touch-ids P id now until (s ∷ ss) (h, hs) = elim (Bool-cases (has_id id s)) [
  | inl hit ↦ rw hit (h, touch-ids P id now until ss hs)
  | inr miss ↦ rw miss (h, touch-ids P id now until ss hs)
]

pub touch-Distinct :
    (id : Bytes) (now until : Time) (ss : List SessionRow)
    → Distinct ss
    → Distinct (update_rows (has_id id) (touched now until) ss)
unfolding update_rows
touch-Distinct id now until [] h = tt
touch-Distinct id now until (s ∷ ss) (h, hs) = elim (Bool-cases (has_id id s)) [
  | inl hit ↦
      rw hit (touch-ids (λ i. i ≢ s.id) id now until ss h, touch-Distinct id now until ss hs)
  | inr miss ↦
      rw miss (touch-ids (λ i. i ≢ s.id) id now until ss h, touch-Distinct id now until ss hs)
]

pub touch-IsWithin :
    (skew : Time) (s : SessionRow) (now until : Time) (ss : List SessionRow)
    → CreatedAlike s ss
    → until ≤ s.created_at + absolute
    → until ≤ now + (idle + skew)
    → All (IsWithin skew) ss
    → All (IsWithin skew) (update_rows (has_id s.id) (touched now until) ss)
unfolding update_rows
touch-IsWithin skew s now until [] a b c h = tt
touch-IsWithin skew s now until (x ∷ ss) (a, alike) b c (h, hs) =
    elim (Bool-cases (has_id s.id x)) [
      | inl hit ↦
          let same = a ((bytes_eq_iff x.id s.id).0 hit) in
          rw hit ((rw same b, c), touch-IsWithin skew s now until ss alike b c hs)
      | inr miss ↦ rw miss (h, touch-IsWithin skew s now until ss alike b c hs)
    ]

zip-All :
    (P Q R : SessionRow → Type 0) (ss : List SessionRow)
    → ((s : SessionRow) → P s → Q s → R s)
    → All P ss
    → All Q ss
    → All R ss
zip-All P Q R [] f h k = tt
zip-All P Q R (s ∷ ss) f (h, hs) (k, ks) = (f s h k, zip-All P Q R ss f hs ks)

map-All :
    (P Q : SessionRow → Type 0) (ss : List SessionRow)
    → ((s : SessionRow) → P s → Q s)
    → All P ss
    → All Q ss
map-All P Q [] f h = tt
map-All P Q (s ∷ ss) f (h, hs) = (f s h, map-All P Q ss f hs)

pub Distinct-created : (ss : List SessionRow) → Distinct ss → All (λ s. CreatedAlike s ss) ss
Distinct-created [] h = tt
Distinct-created (s ∷ ss) (h, hs) = (
  (
    λ e. refl,
    map-All (λ x. x.id ≢ s.id) (λ x. x.id ≡ s.id → x.created_at ≡ s.created_at) ss
        (λ x ne e. absurd (ne e)) h,
  ),
  zip-All (λ x. x.id ≢ s.id) (λ x. CreatedAlike x ss) (λ x. CreatedAlike x (s ∷ ss)) ss
      (λ x ne alike. (λ e. absurd (ne (sym e)), alike)) h (Distinct-created ss hs),
)

pub renewed_within :
    (s : SessionRow) (now : Time)
    → (renewed_expiry (session_of s) now ≤ s.created_at + absolute)
      × (renewed_expiry (session_of s) now ≤ now + idle)
unfolding renewed_expiry session_of
renewed_within s now = (ground arith, ground arith)
