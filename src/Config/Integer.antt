-- ===== src/Config/Integer.antt =====
-- `strconv.ParseInt` in base 10, with the largest value of the width.
use project_management.Prelude.{
  ℕ, zero, suc, ◌+◌, ◌-◌, ◌*◌, Bool, ◌&&◌, Option, none, some, [], ◌∷◌, Bytes, leb, ltb, ◌==◌,
  if◌then◌else◌,
}

-- `negsuc n` is -(n + 1).
pub data ℤ : Type 0 where
  pos : ℕ → ℤ
  negsuc : ℕ → ℤ

abbrev is_digit : ℕ → Bool
is_digit c = leb b'0' c && leb c b'9'

-- The digits after `sofar`.
pub read_digits : (sofar : ℕ) → Bytes → Option ℕ
read_digits sofar [] = some sofar
read_digits sofar (c ∷ cs) =
    let rest = read_digits (10 * sofar + (c - b'0')) cs in if is_digit c then rest else none

unfoldable pub parse_digits : Bytes → Option ℕ
unfolding read_digits
parse_digits [] = none
parse_digits (c ∷ cs) = read_digits 0 (c ∷ cs)

-- -0 is 0, and the least value is one below the negated largest.
abbrev pub negated : (largest : ℕ) → Option ℕ → Option ℤ
negated largest none = none
negated largest (some zero) = some (pos 0)
negated largest (some (suc n)) = if ltb largest n then none else some (negsuc n)

abbrev pub bounded : (largest : ℕ) → Option ℕ → Option ℤ
bounded largest none = none
bounded largest (some n) = if ltb largest n then none else some (pos n)

unfoldable pub parse_int : (largest : ℕ) → Bytes → Option ℤ
unfolding parse_digits
parse_int largest [] = none
parse_int largest (c ∷ cs) =
    if c == b'-'
    then negated largest (parse_digits cs)
    else if c == b'+'
    then bounded largest (parse_digits cs)
    else bounded largest (parse_digits (c ∷ cs))
