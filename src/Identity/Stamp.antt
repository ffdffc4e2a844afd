-- ===== src/Identity/Stamp.antt =====
-- Rows that a link leads to and that a stamp closes: what an UPDATE of one open row by its id does to
-- the lookup by token, and to later stamps. Invitations and password resets are such rows.
use project_management.Identity.Tables.{find_row, count_rows, update_rows}
use project_management.Prelude.{
  ℕ, ◌≤◌, Bool, false, ◌&&◌, Option, none, some, List, [], ◌∷◌, Bytes, ◌≡◌, ◌≢◌, inl, inr, refl,
  ◌∙◌, ap, subst, arith, All, Bool-cases, bytes_eq, bytes_eq_iff,
}

-- A primary key.
abbrev pub HasKeyBy : {R : Type 0} → (R → Bytes) → List R → Type 0
HasKeyBy id [] = Unit
HasKeyBy id (x ∷ xs) = All (λ y. id y ≢ id x) xs × HasKeyBy id xs

-- The id of a row, whether it is open by a clock, and a stamp, which keeps the id and closes the row.
module _ {R : Type 0} (id : R → Bytes) (is_open : ℕ → R → Bool) (stamp : ℕ → R → R)
    (keeps_id : (now : ℕ) (r : R) → id (stamp now r) ≡ id r)
    (closes : (now later : ℕ) (r : R) → is_open later (stamp now r) ≡ false) where
  abbrev pub open_id : ℕ → Bytes → R → Bool
  open_id now i r = bytes_eq (id r) i && is_open now r

  -- No row with this id, so none that the stamp would touch.
  count_no_id :
      (now : ℕ) (i : Bytes) (xs : List R)
      → All (λ y. id y ≢ i) xs
      → count_rows (open_id now i) xs ≡ 0
  unfolding count_rows
  count_no_id now i [] h = refl
  count_no_id now i (x ∷ xs) (ne, h) = ground (arith, bytes_eq_iff (id x) i, count_no_id now i xs h)

  find_ne_id :
      (p : R → Bool) (i : Bytes) (xs : List R) (r : R)
      → All (λ y. id y ≢ i) xs
      → find_row p xs ≡ some r
      → id r ≢ i
  unfolding find_row
  find_ne_id p i [] r h e = cc
  find_ne_id p i (x ∷ xs) r (ne, h) e = elim (Bool-cases (p x)) [
    | inl hit ↦ λ q. ne (ap (λ o. id_or o i) (rw hit at e) ∙ q)
    | inr miss ↦ find_ne_id p i xs r h (rw miss at e)
  ]
    where
      id_or : Option R → Bytes → Bytes
      id_or none i = i
      id_or (some y) i = id y

  -- The stamp of an open row with the id of a looked-up row hits that row, if the lookup is by
  -- something that the stamp keeps.
  pub stamp_hits :
      (p : R → Bool) (now : ℕ) (xs : List R) (row : R)
      → ((r : R) → p (stamp now r) ≡ p r)
      → HasKeyBy id xs
      → find_row p xs ≡ some row
      → count_rows (open_id now (id row)) xs ≢ 0
      → find_row p (update_rows (open_id now (id row)) (stamp now) xs) ≡ some (stamp now row)
  unfolding find_row count_rows update_rows
  stamp_hits p now [] row kept k e c = cc
  stamp_hits p now (x ∷ xs) row kept (apart, k) e c = elim (Bool-cases (p x)) [
    | inl hit ↦ ground (arith, kept x, count_no_id now (id x) xs apart)
    | inr miss ↦
        let found : find_row p xs ≡ some row = rw miss at e in
        let ne = find_ne_id p (id x) xs row apart found in
        ground (arith, kept x, bytes_eq_iff (id x) (id row), stamp_hits p now xs row kept k found)
  ]

  untouched :
      (now later : ℕ) (i : Bytes) (xs : List R)
      → All (λ y. id y ≢ i) xs
      → count_rows (open_id later i) (update_rows (open_id now i) (stamp now) xs) ≡ 0
  unfolding count_rows update_rows
  untouched now later i [] h = refl
  untouched now later i (y ∷ ys) (ne, h) =
      ground (arith, bytes_eq_iff (id y) i, untouched now later i ys h)

  -- After the stamp no row with that id is open, by whatever clock.
  pub stamp_closes :
      (now later : ℕ) (i : Bytes) (xs : List R)
      → HasKeyBy id xs
      → count_rows (open_id now i) xs ≢ 0
      → count_rows (open_id later i) (update_rows (open_id now i) (stamp now) xs) ≡ 0
  unfolding count_rows update_rows
  stamp_closes now later i [] k c = refl
  stamp_closes now later i (x ∷ xs) (apart, k) c = elim (Bool-cases (bytes_eq (id x) i)) [
    | inl same ↦
        let e = (bytes_eq_iff (id x) i).0 same in
        let other_ids = subst (λ j. All (λ y. id y ≢ j) xs) e apart in
        ground (
          arith,
          closes now later x,
          count_no_id now i xs other_ids,
          untouched now later i xs other_ids,
        )
    | inr other ↦ ground (arith, keeps_id now x, stamp_closes now later i xs k)
  ]

-- Rows that a later link supersedes: all that are selected and open are moved to a deadline that is
-- past, and nothing that was closed opens again.
module _ {R : Type 0} (chosen : R → Bool) (is_open : ℕ → R → Bool) (expire : ℕ → R → R)
    (closes : (now later : ℕ) (r : R) → now ≤ later → is_open later (expire now r) ≡ false)
    (stays : (now later : ℕ) (r : R)
      → now ≤ later
      → is_open now r ≡ false
      → is_open later r ≡ false) where
  pub expire_closes :
      (now later : ℕ) (xs : List R)
      → now ≤ later
      → count_rows
          (λ r. chosen r && is_open later r)
          (update_rows (λ r. chosen r && is_open now r) (expire now) xs)
        ≡ 0
  unfolding count_rows update_rows
  expire_closes now later [] le = refl
  expire_closes now later (x ∷ xs) le =
      ground (arith, closes now later x le, stays now later x le, expire_closes now later xs le)
