-- ===== src/Identity/Store/Sessions/Shown.antt =====
-- The order and the choice of the list of sessions.
use project_management.Identity.Tables.{SessionRow, count_rows}
use project_management.Identity.Window.{Time}
use project_management.Prelude.{false}
use project_management.Prelude.{
  Bool, ◌&&◌, List, [], ◌∷◌, Bytes, ◌≡◌, ◌∙◌, refl, true, inl, inr, All, Bool-cases,
}
use project_management.Identity.Store.Sessions.{is_shown, listed_before, insert_row, select_shown}
use project_management.Prelude.{◌≤◌, ◌⊎◌, arith}

-- Every entry is followed by no newer one.
abbrev pub IsNewestFirst : List SessionRow → Type 0
IsNewestFirst [] = Unit
IsNewestFirst (r ∷ rs) = All (λ s. s.last_seen_at ≤ r.last_seen_at) rs × IsNewestFirst rs

insert_row-All :
    (P : SessionRow → Type 0) (r : SessionRow) (ss : List SessionRow)
    → P r
    → All P ss
    → All P (insert_row r ss)
unfolding insert_row
insert_row-All P r [] h k = (h, tt)
insert_row-All P r (s ∷ ss) h (hs, k) = elim (Bool-cases (listed_before r s)) [
  | inl e ↦ rw e (h, (hs, k))
  | inr e ↦ rw e (hs, insert_row-All P r ss h k)
]

older :
    (m n : Time) (ss : List SessionRow)
    → m ≤ n
    → All (λ s. s.last_seen_at ≤ m) ss
    → All (λ s. s.last_seen_at ≤ n) ss
older m n [] le h = tt
older m n (s ∷ ss) le (h, k) = (omega arith, older m n ss le k)

listed_before_cases :
    (r s : SessionRow)
    → ((listed_before r s ≡ true) × (s.last_seen_at ≤ r.last_seen_at))
      ⊎ ((listed_before r s ≡ false) × (r.last_seen_at ≤ s.last_seen_at))
listed_before_cases r s = elim (Bool-cases (listed_before r s)) [
  | inl e ↦ inl (e, ground arith)
  | inr e ↦ inr (e, ground arith)
]

insert_row-IsNewestFirst :
    (r : SessionRow) (ss : List SessionRow) → IsNewestFirst ss → IsNewestFirst (insert_row r ss)
unfolding insert_row
insert_row-IsNewestFirst r [] h = (tt, tt)
insert_row-IsNewestFirst r (s ∷ ss) (h, k) = elim (listed_before_cases r s) [
  | inl (e, le) ↦ rw e ((le, older s.last_seen_at r.last_seen_at ss le h), (h, k))
  | inr (e, le) ↦ rw e (
    insert_row-All (λ x. x.last_seen_at ≤ s.last_seen_at) r ss le h,
    insert_row-IsNewestFirst r ss k,
  )
]

count-insert_row :
    (q : SessionRow → Bool) (r : SessionRow) (ss : List SessionRow)
    → count_rows q (insert_row r ss) ≡ count_rows q (r ∷ ss)
unfolding insert_row count_rows
count-insert_row q r [] = refl
count-insert_row q r (s ∷ ss) = elim (Bool-cases (listed_before r s)) [
  | inl e ↦ rw e refl
  | inr e ↦ rw e (ground (arith, count-insert_row q r ss))
]

-- What holds of the rows that pass the test holds of all that are shown.
pub select_shown-All :
    (P : SessionRow → Type 0) (user_id : Bytes) (now : Time) (ss : List SessionRow)
    → ((s : SessionRow) → is_shown user_id now s ≡ true → P s)
    → All P (select_shown user_id now ss)
unfolding select_shown
select_shown-All P user_id now [] h = tt
select_shown-All P user_id now (s ∷ ss) h = elim (Bool-cases (is_shown user_id now s)) [
  | inl e ↦ rw e (insert_row-All P s _ (h s e) (select_shown-All P user_id now ss h))
  | inr e ↦ rw e (select_shown-All P user_id now ss h)
]

-- The rows that are shown are those of the account that are not past their deadline: of every kind
-- of row there are as many as among those, and they come newest first.
pub select_shown_lem :
    (user_id : Bytes) (now : Time) (ss : List SessionRow)
    → ((q : SessionRow → Bool)
        → count_rows q (select_shown user_id now ss)
          ≡ count_rows (λ s. is_shown user_id now s && q s) ss)
      × IsNewestFirst (select_shown user_id now ss)
unfolding select_shown count_rows
select_shown_lem user_id now [] = (λ q. refl, tt)
select_shown_lem user_id now (s ∷ ss) =
    let (counted, newest) = select_shown_lem user_id now ss in
    elim (Bool-cases (is_shown user_id now s)) [
      | inl e ↦
          rw e (
            λ q. count-insert_row q s _ ∙ (rw (counted q) refl),
            insert_row-IsNewestFirst s _ newest,
          )
      | inr e ↦ rw e (counted, newest)
    ]
