-- ===== src/Fracdex.antt =====
-- backend/internal/fracdex/fracdex.go: the order keys of every ordered list. A Go string is its
-- bytes, compared byte by byte; the theorems stand in the child modules.
pub mod Digit
pub mod Order
pub mod Integer
pub mod Fraction
pub mod Midpoint
pub mod Split
pub mod Parts
pub mod Correct
pub mod Between
pub mod Insert
mod Tests
use project_management.Prelude.Outcome.{Outcome, ok, err, panic, ◌>>=◌, or_panic}
use project_management.Prelude.{
  ℕ, zero, suc, ◌+◌, ◌-◌, ◌/◌, ◌%◌, Bool, true, false, not, ◌&&◌, ◌||◌, Option, none, some, List,
  [], ◌∷◌, ◌++◌, Bytes, codes, length, get_elem?, take, drop, bytes_eq, index_byte, leb, ltb, ◌==◌,
  if◌then◌else◌,
}

abbrev pub digits : Bytes
digits = codes "0123456789ABCDEFGHIJKLMNOPQRSTUVWXYZabcdefghijklmnopqrstuvwxyz"

abbrev pub first_key : Bytes
first_key = codes "a0"

abbrev pub smallest_integer : Bytes
smallest_integer = codes "A00000000000000000000000000"

-- ErrInvalidKey, ErrNotAscending and ErrExhausted.
pub data Error : Type 0 where
  invalid_key not_ascending exhausted : Error

abbrev pub Result : Type 0 → Type 0
Result = Outcome Error

-- `<` of Go strings.
unfoldable pub bytes_lt : Bytes → Bytes → Bool
bytes_lt xs [] = false
bytes_lt [] (y ∷ ys) = true
bytes_lt (x ∷ xs) (y ∷ ys) = if x == y then bytes_lt xs ys else ltb x y

-- `digits[i]`.
pub digit_at : ℕ → Result ℕ
digit_at i = or_panic (get_elem? digits i)

-- The value of a byte that the code takes to be a digit. Go would go on with -1 for a foreign byte;
-- here that is a panic, and the theorems show that no call of `between` comes to it.
pub digit_value : ℕ → Result ℕ
unfolding index_byte
digit_value c = or_panic (index_byte digits c)

pub leading_digit : Bytes → Result ℕ
unfolding digit_value
leading_digit [] = ok 0
leading_digit (c ∷ cs) = digit_value c

-- `digits[k] + rest`.
pub digit_then : ℕ → Bytes → Result Bytes
unfolding digit_at
digit_then k rest = do d ← digit_at k; ok (d ∷ rest)

-- Above 61 leading digits there is one more place to the right; `drop(a, 1)` is the tail.
pub midpoint_after : Bytes → Result Bytes
unfolding leading_digit digit_then
midpoint_after [] = do low ← leading_digit []; digit_then ((low + length digits + 1) / 2) []
midpoint_after (c ∷ cs) = do
  low ← leading_digit (c ∷ cs)
  let deeper = midpoint_after cs
  if ltb low (length digits - 1)
      then digit_then ((low + length digits + 1) / 2) []
      else (deeper >>= digit_then low)

-- The loop reads both strings in step, a missing byte of `a` as '0'.
pub common_prefix_len : Bytes → Bytes → ℕ
common_prefix_len a [] = 0
common_prefix_len [] (y ∷ ys) = if b'0' == y then suc (common_prefix_len [] ys) else 0
common_prefix_len (x ∷ xs) (y ∷ ys) = if x == y then suc (common_prefix_len xs ys) else 0

-- The part of `midpoint` for bounds whose first digits differ.
pub midpoint_apart : Bytes → Bytes → Result Bytes
unfolding leading_digit digit_value digit_then midpoint_after
midpoint_apart a [] = panic
midpoint_apart a (y ∷ ys) = do
  low ← leading_digit a
  high ← digit_value y
  if ltb (low + 1) high
      then digit_then ((low + high + 1) / 2) []
      else if ltb 1 (length (y ∷ ys))
      then ok (y ∷ [])
      else (midpoint_after (drop 1 a) >>= digit_then low)

-- On fuel: what is left after the common digits is shorter.
pub midpoint_fuel : ℕ → Bytes → Bytes → Result Bytes
unfolding common_prefix_len midpoint_apart
midpoint_fuel zero a b = panic
midpoint_fuel (suc n) a b =
    let shared = common_prefix_len a b in
    let rest = midpoint_fuel n (drop shared a) (drop shared b) in
    if ltb 0 shared then (rest >>= λ m. ok (take shared b ++ m)) else midpoint_apart a b

pub midpoint : Bytes → Bytes → Result Bytes
unfolding midpoint_fuel
midpoint a b = midpoint_fuel (suc (length b)) a b

pub integer_width : ℕ → Result ℕ
integer_width header =
    if leb b'a' header && leb header b'z'
    then ok (header - b'a' + 2)
    else if leb b'A' header && leb header b'Z'
    then ok (b'Z' - header + 2)
    else err invalid_key

-- An index plus one, where the index of a foreign byte is -1.
abbrev index_plus_one : Option ℕ → ℕ
index_plus_one none = 0
index_plus_one (some i) = suc i

-- The loop of `increment`, from the last digit to the first: the new digits, and the carry.
pub increment_digits : Bytes → Result (Bytes × Bool)
unfolding index_byte digit_then
increment_digits [] = ok ([], true)
increment_digits (c ∷ cs) = do
  (rest, carry) ← increment_digits cs
  let next = index_plus_one (index_byte digits c)
  if not carry
      then ok (c ∷ rest, false)
      else if next == length digits
      then (digit_then 0 rest >>= λ s. ok (s, true))
      else (digit_then next rest >>= λ s. ok (s, false))

-- `body[:len(body)-1]`.
pub drop_last : Bytes → Result Bytes
drop_last [] = panic
drop_last (c ∷ []) = ok []
drop_last (c ∷ d ∷ cs) = do rest ← drop_last (d ∷ cs); ok (c ∷ rest)

-- `increment` when every digit carried.
pub next_header : ℕ → Bytes → Result Bytes
unfolding digit_at drop_last
next_header header body =
    if header == b'Z'
    then ok first_key
    else if header == b'z'
    then err exhausted
    else (let above = (header + 1) % 256 in
        if ltb b'a' above
        then (digit_at 0 >>= λ z. ok (above ∷ (body ++ z ∷ [])))
        else (drop_last body >>= λ b. ok (above ∷ b)))

pub increment : Bytes → Result Bytes
unfolding increment_digits next_header
increment [] = panic
increment (header ∷ body) = do
  (stepped, carry) ← increment_digits body
  if not carry then ok (header ∷ stepped) else next_header header stepped

-- An index, where that of a foreign byte is read as 0: `decrement` borrows at both.
abbrev index_or_zero : Option ℕ → ℕ
index_or_zero none = 0
index_or_zero (some i) = i

-- The loop of `decrement`.
pub decrement_digits : Bytes → Result (Bytes × Bool)
unfolding index_byte digit_then
decrement_digits [] = ok ([], true)
decrement_digits (c ∷ cs) = do
  (rest, borrow) ← decrement_digits cs
  let index = index_or_zero (index_byte digits c)
  if not borrow
      then ok (c ∷ rest, false)
      else if index == 0
      then (digit_then (length digits - 1) rest >>= λ s. ok (s, true))
      else (digit_then (index - 1) rest >>= λ s. ok (s, false))

-- `decrement` when every digit borrowed.
pub previous_header : ℕ → Bytes → Result Bytes
unfolding digit_at digit_then drop_last
previous_header header body =
    if header == b'a'
    then (digit_then (length digits - 1) [] >>= λ s. ok (b'Z' ∷ s))
    else if header == b'A'
    then err exhausted
    else (let below = (header + 255) % 256 in
        if ltb below b'Z'
        then (digit_at (length digits - 1) >>= λ last. ok (below ∷ (body ++ last ∷ [])))
        else (drop_last body >>= λ b. ok (below ∷ b)))

pub decrement : Bytes → Result Bytes
unfolding decrement_digits previous_header
decrement [] = panic
decrement (header ∷ body) = do
  (stepped, borrow) ← decrement_digits body
  if not borrow then ok (header ∷ stepped) else previous_header header stepped

-- Every byte is a base62 digit.
pub all_digits : Bytes → Bool
unfolding index_byte
all_digits [] = true
all_digits (c ∷ cs) = elim (index_byte digits c) [ none ↦ false | some i ↦ all_digits cs ]

-- `strings.HasSuffix(fraction, "0")`.
pub ends_in_zero : Bytes → Bool
ends_in_zero [] = false
ends_in_zero (c ∷ []) = c == b'0'
ends_in_zero (c ∷ d ∷ cs) = ends_in_zero (d ∷ cs)

pub split : Bytes → Result (Bytes × Bytes)
unfolding integer_width all_digits ends_in_zero
split [] = err invalid_key
split (header ∷ cs) =
    let key = header ∷ cs in
    if bytes_eq key smallest_integer
    then err invalid_key
    else (integer_width header >>= λ width.
        if ltb (length key) width
        then err invalid_key
        else if not (all_digits key)
        then err invalid_key
        else if ends_in_zero (drop width key)
        then err invalid_key
        else ok (take width key, drop width key))

pub split_bound : Bytes → Result (Bytes × Bytes)
unfolding split
split_bound [] = ok ([], [])
split_bound (c ∷ cs) = split (c ∷ cs)

pub validate : Bytes → Result (Unit {0})
unfolding split
validate key = do parts ← split key; ok tt

pub after : Bytes → Bytes → Result Bytes
unfolding increment midpoint_after
after integer fraction = elim (increment integer) [
  | ok stepped ↦ ok stepped
  | err e ↦ midpoint_after fraction >>= λ m. ok (integer ++ m)
  | panic ↦ panic
]

pub before : Bytes → Bytes → Result Bytes
unfolding midpoint midpoint_after decrement
before integer fraction =
    if bytes_eq integer smallest_integer
    then (midpoint [] fraction >>= λ m. ok (integer ++ m))
    else if not (bytes_eq fraction [])
    then ok integer
    else (decrement integer >>= λ stepped.
        if bytes_eq stepped smallest_integer
        then (midpoint_after [] >>= λ m. ok (stepped ++ m))
        else ok stepped)

-- `Between` from the point where both bounds are split.
pub between_parts : Bytes → Bytes → Bytes × Bytes → Bytes × Bytes → Result Bytes
unfolding bytes_lt before after midpoint midpoint_after increment
between_parts prev next (prev_int, prev_frac) (next_int, next_frac) =
    if not (bytes_eq prev []) && not (bytes_eq next []) && not (bytes_lt prev next)
    then err not_ascending
    else if bytes_eq prev [] && bytes_eq next []
    then ok first_key
    else if bytes_eq prev []
    then before next_int next_frac
    else if bytes_eq next []
    then after prev_int prev_frac
    else if bytes_eq prev_int next_int
    then (midpoint prev_frac next_frac >>= λ m. ok (prev_int ++ m))
    else (increment prev_int >>= λ stepped.
        if bytes_lt stepped next
        then ok stepped
        else (midpoint_after prev_frac >>= λ m. ok (prev_int ++ m)))

unfoldable pub between : Bytes → Bytes → Result Bytes
unfolding split_bound between_parts
between prev next = do
  prev_parts ← split_bound prev
  next_parts ← split_bound next
  between_parts prev next prev_parts next_parts
