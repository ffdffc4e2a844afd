-- ===== src/Fracdex/Integer.antt =====
-- `increment` and `decrement`: the next and the previous integer part.
use project_management.Fracdex.Digit.{digit, digit-lt, IsDigit, AreDigits, get_digits, index_digits}
use project_management.Fracdex.Order.{LtInside}
use project_management.Fracdex.{
  increment_digits, decrement_digits, drop_last, next_header, previous_header, increment, decrement,
  integer_width, exhausted, Result, first_key,
}
use project_management.Prelude.Outcome.{ok, err}
use project_management.Prelude.{
  ℕ, suc, ◌+◌, ◌-◌, ◌%◌, ◌≤◌, Bool, true, false, [], ◌∷◌, ◌++◌, ◌≡◌, refl, ap, ◌⊎◌, inl, inr, arith,
  Bytes, length, length-append, ◌==◌, All, All-append, Bool-cases,
}

-- A header and as many digits as it announces.
abbrev pub IsInteger : Bytes → Type 0
IsInteger [] = ⊥
IsInteger (h ∷ body) = (integer_width h ≡ ok (suc (length body))) × AreDigits body

-- What a header announces.
pub integer_width_cases :
    (h n : ℕ)
    → integer_width h ≡ ok (suc n)
    → ((97 ≤ h) × (h ≤ 122) × (n + 96 ≡ h)) ⊎ ((65 ≤ h) × (h ≤ 90) × (n + h ≡ 91))
unfolding integer_width
integer_width_cases h n e = ground arith

integer_width_above : (h n : ℕ) → 97 ≤ h → h ≤ 122 → n + 96 ≡ h → integer_width h ≡ ok (suc n)
unfolding integer_width
integer_width_above h n p q e = ground arith

integer_width_below : (h n : ℕ) → 65 ≤ h → h ≤ 90 → n + h ≡ 91 → integer_width h ≡ ok (suc n)
unfolding integer_width
integer_width_below h n p q e = ground arith

-- What the loop over the digits gives: as many digits, and either a step in the order or a carry
-- out of digits that were all `edge`.
abbrev Steps : Result (Bytes × Bool) → Bytes → ℕ → (Bytes → Bytes → Type 0) → Type 0
Steps r cs edge Moves =
    (rest : Bytes) × (carry : Bool) × (r ≡ ok (rest, carry))
    × AreDigits rest
    × (length rest ≡ length cs)
    × (((carry ≡ false) × Moves cs rest) ⊎ ((carry ≡ true) × All (λ c. c ≡ edge) cs))

increment_digits_lem : (cs : Bytes) → AreDigits cs → Steps (increment_digits cs) cs b'z' LtInside
unfolding increment_digits
increment_digits_lem [] d = ([], true, refl, tt, refl, inr (refl, tt))
increment_digits_lem (c ∷ cs) ((v, lt, e), r) =
    let (rest, carry, runs, ds, l, how) = increment_digits_lem cs r in
    elim how [
      | inl (stop, moves) ↦ (
        c ∷ rest,
        false,
        rw (runs, stop),
        ((v, lt, e), ds),
        ap suc l,
        inl (refl, inr (refl, moves)),
      )
      | inr (more, edge) ↦ elim (Bool-cases (suc v == 62)) [
        | inl top ↦ (
          digit 0 ∷ rest,
          true,
          rw (runs, more, e, index_digits v lt, top) refl,
          ((0, omega arith, refl), ds),
          ap suc l,
          inr (refl, (ground arith, edge)),
        )
        | inr mid ↦ (
          digit (suc v) ∷ rest,
          false,
          rw (runs, more, e, index_digits v lt, mid) (rw (get_digits (suc v) (ground arith))),
          ((suc v, ground arith, refl), ds),
          ap suc l,
          inl (refl, inl (rw e (digit-lt v (suc v) (omega arith)))),
        )
      ]
    ]

decrement_digits_lem :
    (cs : Bytes) → AreDigits cs → Steps (decrement_digits cs) cs b'0' (λ a b. LtInside b a)
unfolding decrement_digits
decrement_digits_lem [] d = ([], true, refl, tt, refl, inr (refl, tt))
decrement_digits_lem (c ∷ cs) ((v, lt, e), r) =
    let (rest, borrow, runs, ds, l, how) = decrement_digits_lem cs r in
    elim how [
      | inl (stop, moves) ↦ (
        c ∷ rest,
        false,
        rw (runs, stop),
        ((v, lt, e), ds),
        ap suc l,
        inl (refl, inr (refl, moves)),
      )
      | inr (more, edge) ↦ elim (Bool-cases (v == 0)) [
        | inl bottom ↦ (
          digit 61 ∷ rest,
          true,
          rw (runs, more, e, index_digits v lt, bottom) refl,
          ((61, omega arith, refl), ds),
          ap suc l,
          inr (refl, (ground arith, edge)),
        )
        | inr mid ↦ (
          digit (v - 1) ∷ rest,
          false,
          rw (runs, more, e, index_digits v lt, mid) (rw (get_digits (v - 1) (omega arith))),
          ((v - 1, omega arith, refl), ds),
          ap suc l,
          inl (refl, inl (rw e (digit-lt (v - 1) v (ground arith)))),
        )
      ]
    ]

drop_last_lem :
    (c : ℕ) (cs : Bytes)
    → AreDigits (c ∷ cs)
    → (b : Bytes) × (drop_last (c ∷ cs) ≡ ok b) × AreDigits b × (length b ≡ length cs)
unfolding drop_last
drop_last_lem c [] d = ([], refl, tt, refl)
drop_last_lem c (e ∷ cs) (d, r) =
    let (b, runs, ds, l) = drop_last_lem e cs r in (c ∷ b, rw runs, (d, ds), ap suc l)

-- The result of a step, or the end of the key space.
abbrev Stepped : Result Bytes → (Bytes → Type 0) → Type 0 → Type 0
Stepped r Good Edge =
    ((i : Bytes) × (r ≡ ok i) × IsInteger i × Good i) ⊎ ((r ≡ err exhausted) × Edge)

next_header_lem :
    (h : ℕ) (body old : Bytes)
    → integer_width h ≡ ok (suc (length body))
    → AreDigits body
    → Stepped (next_header h body) (LtInside (h ∷ old)) (h ≡ b'z')
unfolding next_header integer_width
next_header_lem h [] old w d = absurd (ground (arith, integer_width_cases h 0))
next_header_lem h (c ∷ body) old w d = elim (Bool-cases (h == b'Z')) [
  | inl e ↦ inl (first_key, rw e, (refl, ((0, omega arith, refl), tt)), inl (ground arith))
  | inr nZ ↦ elim (Bool-cases (h == b'z')) [
    | inl e ↦ inr (rw (nZ, e), ground arith)
    | inr nz ↦ elim (integer_width_cases h _ w) [
      | inl (lo, hi, n) ↦ inl (
        (h + 1) % 256 ∷ ((c ∷ body) ++ 48 ∷ []),
        rw (nZ, nz) (ground arith),
        (
          integer_width_above ((h + 1) % 256) _ (ground arith) (ground arith)
              (ground (arith, length-append body (48 ∷ []))),
          All-append IsDigit (c ∷ body) (48 ∷ []) d ((0, omega arith, refl), tt),
        ),
        inl (ground arith),
      )
      | inr (lo, hi, n) ↦
          let (b, runs, ds, l) = drop_last_lem c body d in
          inl (
            (h + 1) % 256 ∷ b,
            rw (nZ, nz) (ground arith),
            (
              integer_width_below ((h + 1) % 256) _ (ground arith) (ground arith) (ground arith),
              ds,
            ),
            inl (ground arith),
          )
    ]
  ]
]

previous_header_lem :
    (h : ℕ) (body old : Bytes)
    → integer_width h ≡ ok (suc (length body))
    → AreDigits body
    → Stepped (previous_header h body) (λ i. LtInside i (h ∷ old)) (h ≡ b'A')
unfolding previous_header integer_width
previous_header_lem h [] old w d = absurd (ground (arith, integer_width_cases h 0))
previous_header_lem h (c ∷ body) old w d = elim (Bool-cases (h == b'a')) [
  | inl e ↦ inl (b'Z' ∷ b'z' ∷ [], rw e, (refl, ((61, omega arith, refl), tt)), inl (ground arith))
  | inr na ↦ elim (Bool-cases (h == b'A')) [
    | inl e ↦ inr (rw (na, e), ground arith)
    | inr nA ↦ elim (integer_width_cases h _ w) [
      | inl (lo, hi, n) ↦
          let (b, runs, ds, l) = drop_last_lem c body d in
          inl (
            (h + 255) % 256 ∷ b,
            rw (na, nA) (ground arith),
            (
              integer_width_above ((h + 255) % 256) _ (ground arith) (ground arith) (ground arith),
              ds,
            ),
            inl (ground arith),
          )
      | inr (lo, hi, n) ↦ inl (
        (h + 255) % 256 ∷ ((c ∷ body) ++ 122 ∷ []),
        rw (na, nA) (ground arith),
        (
          integer_width_below ((h + 255) % 256) _ (ground arith) (ground arith)
              (ground (arith, length-append body (122 ∷ []))),
          All-append IsDigit (c ∷ body) (122 ∷ []) d ((61, omega arith, refl), tt),
        ),
        inl (ground arith),
      )
    ]
  ]
]

-- Whatever integer part it is given, `increment` steps to a greater one of the right form, or the
-- integer was the last of all.
pub increment_lem :
    (h : ℕ) (body : Bytes)
    → IsInteger (h ∷ body)
    → Stepped (increment (h ∷ body)) (LtInside (h ∷ body)) ((h ≡ b'z') × All (λ c. c ≡ b'z') body)
unfolding increment
increment_lem h body (w, d) =
    let (rest, carry, runs, ds, l, how) = increment_digits_lem body d in
    elim how [
      | inl (stop, moves) ↦ inl (h ∷ rest, rw (runs, stop), (rw l w, ds), inr (refl, moves))
      | inr (more, edge) ↦ elim (next_header_lem h rest body (rw l w) ds) [
        | inl (i, e, good, above) ↦ inl (i, rw (runs, more) e, good, above)
        | inr (e, top) ↦ inr (rw (runs, more) e, (top, edge))
      ]
    ]

-- Whatever integer part it is given, `decrement` steps to a smaller one of the right form, or the
-- integer was the first of all.
pub decrement_lem :
    (h : ℕ) (body : Bytes)
    → IsInteger (h ∷ body)
    → Stepped
        (decrement (h ∷ body))
        (λ i. LtInside i (h ∷ body))
        ((h ≡ b'A') × All (λ c. c ≡ b'0') body)
unfolding decrement
decrement_lem h body (w, d) =
    let (rest, borrow, runs, ds, l, how) = decrement_digits_lem body d in
    elim how [
      | inl (stop, moves) ↦ inl (h ∷ rest, rw (runs, stop), (rw l w, ds), inr (refl, moves))
      | inr (more, edge) ↦ elim (previous_header_lem h rest body (rw l w) ds) [
        | inl (i, e, good, above) ↦ inl (i, rw (runs, more) e, good, above)
        | inr (e, bottom) ↦ inr (rw (runs, more) e, (bottom, edge))
      ]
    ]
