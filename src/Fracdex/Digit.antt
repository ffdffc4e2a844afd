-- ===== src/Fracdex/Digit.antt =====
-- The alphabet of fracdex.go: `digits` holds 62 bytes in ascending order, and `index_byte` is the
-- inverse of indexing it.
use project_management.Fracdex.{digits, digit_at, digit_value, digit_then, all_digits}
use project_management.Prelude.Outcome.{ok}
use project_management.Prelude.Table.{passes_below, passes_below-at}
use project_management.Prelude.{
  ℕ, ◌+◌, ◌<◌, Bool, true, false, Option, none, some, [], ◌∷◌, ◌≡◌, refl, inl, inr, arith, Bytes,
  index_byte, index_byte-get, get_elem?, ltb, ◌==◌, if◌then◌else◌, All, Option-cases,
}

-- The byte of a digit's value, written out.
abbrev pub digit : ℕ → ℕ
digit d = if ltb d 10 then d + 48 else if ltb d 36 then d + 55 else d + 61

-- A byte that spells a value below 62.
abbrev pub IsDigit : ℕ → Type 0
IsDigit c = (d : ℕ) × (d < 62) × (c ≡ digit d)

abbrev pub AreDigits : Bytes → Type 0
AreDigits = All IsDigit

pub digit-lt : (d e : ℕ) → d < e → digit d < digit e
digit-lt d e h = ground arith

-- Equal bytes spell equal values, and the order of bytes is that of values.
pub digit-lt_iff : (d e : ℕ) → digit d < digit e → d < e
digit-lt_iff d e h = ground arith

abbrev some_eq : Option ℕ → ℕ → Bool
some_eq none e = false
some_eq (some d) e = d == e

some_eq-eq : (o : Option ℕ) (e : ℕ) → some_eq o e ≡ true → o ≡ some e
some_eq-eq none e h = ground arith
some_eq-eq (some d) e h = ground arith

get_table : passes_below (λ d. some_eq (get_elem? digits d) (digit d)) 62 ≡ true
unfolding passes_below
get_table = refl

index_table : passes_below (λ d. some_eq (index_byte digits (digit d)) d) 62 ≡ true
unfolding passes_below index_byte
index_table = refl

pub get_digits : (d : ℕ) → d < 62 → get_elem? digits d ≡ some (digit d)
get_digits d h = some_eq-eq (get_elem? digits d) (digit d) (passes_below-at _ 62 d h get_table)

pub index_digits : (d : ℕ) → d < 62 → index_byte digits (digit d) ≡ some d
index_digits d h = some_eq-eq (index_byte digits (digit d)) d (passes_below-at _ 62 d h index_table)

-- A byte with an index is the digit of that value.
pub index_byte-IsDigit : (c d : ℕ) → index_byte digits c ≡ some d → (d < 62) × (c ≡ digit d)
index_byte-IsDigit c d h =
    let (lt, e) = index_byte-get digits c d h in (lt, ground (arith, get_digits d lt))

pub digit_at_lem : (d : ℕ) → d < 62 → digit_at d ≡ ok (digit d)
unfolding digit_at
digit_at_lem d h = rw (get_digits d h)

pub digit_then_lem : (d : ℕ) (rest : Bytes) → d < 62 → digit_then d rest ≡ ok (digit d ∷ rest)
unfolding digit_then
digit_then_lem d rest h = rw (digit_at_lem d h)

pub digit_value_lem : (d : ℕ) → d < 62 → digit_value (digit d) ≡ ok d
unfolding digit_value
digit_value_lem d h = rw (index_digits d h)

-- `all_digits` decides `AreDigits`.
pub all_digits-AreDigits : (s : Bytes) → all_digits s ≡ true → AreDigits s
unfolding all_digits
all_digits-AreDigits [] h = tt
all_digits-AreDigits (c ∷ cs) h = elim (Option-cases (index_byte digits c)) [
  | inl e ↦ cc (rw (e, all_digits) at h)
  | inr (d, e) ↦
      let (lt, is) = index_byte-IsDigit c d e in
      ((d, lt, is), all_digits-AreDigits cs (rw (e, all_digits) at h))
]

pub AreDigits-all_digits : (s : Bytes) → AreDigits s → all_digits s ≡ true
unfolding all_digits
AreDigits-all_digits [] h = refl
AreDigits-all_digits (c ∷ cs) ((d, lt, e), r) =
    rw (e, index_digits d lt, all_digits) (AreDigits-all_digits cs r)
