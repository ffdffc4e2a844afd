-- ===== src/Identity/Utf8.antt =====
-- What the identity module uses of Go's unicode/utf8 and strings.ToValidUTF8.
use project_management.Prelude.{
  ℕ, zero, suc, ◌-◌, Bool, true, false, ◌&&◌, ◌||◌, [], ◌∷◌, Bytes, length, leb, ◌==◌, ◌≤◌, arith,
  if◌then◌else◌,
}

abbrev within : ℕ → ℕ → ℕ → Bool
within lo hi c = leb lo c && leb c hi

-- A continuation byte follows.
abbrev continues : Bytes → Bool
continues [] = false
continues (c ∷ cs) = within 0x80 0xBF c

abbrev next_within : ℕ → ℕ → Bytes → Bool
next_within lo hi [] = false
next_within lo hi (c ∷ cs) = within lo hi c

abbrev rest_of : Bytes → Bytes
rest_of [] = []
rest_of (c ∷ cs) = cs

-- The width of the first rune of UTF-8, where a byte that starts none is a rune of its own.
rune_width : ℕ → Bytes → ℕ
rune_width c cs =
    if within 0xC2 0xDF c && continues cs
    then 2
    else if ((c == 0xE0 && next_within 0xA0 0xBF cs)
          || (c == 0xED && next_within 0x80 0x9F cs)
          || ((within 0xE1 0xEC c || within 0xEE 0xEF c) && continues cs))
        && continues (rest_of cs)
    then 3
    else if ((c == 0xF0 && next_within 0x90 0xBF cs)
          || (c == 0xF4 && next_within 0x80 0x8F cs)
          || (within 0xF1 0xF3 c && continues cs))
        && continues (rest_of cs)
        && continues (rest_of (rest_of cs))
    then 4
    else 1

-- `utf8.RuneCountInString`, after `pending` bytes of the rune before.
rune_count_from : ℕ → Bytes → ℕ
unfolding rune_width
rune_count_from pending [] = 0
rune_count_from (suc k) (c ∷ cs) = rune_count_from k cs
rune_count_from zero (c ∷ cs) = suc (rune_count_from (rune_width c cs - 1) cs)

unfoldable pub rune_count : Bytes → ℕ
unfolding rune_count_from
rune_count = rune_count_from 0

-- `strings.ToValidUTF8(s, "")`, within a rune with `pending` bytes to come.
to_valid_from : ℕ → Bytes → Bytes
unfolding rune_width
to_valid_from pending [] = []
to_valid_from (suc k) (c ∷ cs) = c ∷ to_valid_from k cs
to_valid_from zero (c ∷ cs) =
    let dropped = to_valid_from 0 cs in
    let kept = to_valid_from (rune_width c cs - 1) cs in
    if leb 0x80 c && (rune_width c cs == 1) then dropped else c ∷ kept

unfoldable pub to_valid_utf8 : Bytes → Bytes
unfolding to_valid_from
to_valid_utf8 = to_valid_from 0

length_choice :
    (b : Bool) (c n : ℕ) (xs ys : Bytes)
    → length xs ≤ n
    → length ys ≤ n
    → length (if b then xs else c ∷ ys) ≤ suc n
length_choice true c n xs ys h k = omega arith
length_choice false c n xs ys h k = omega arith

length-to_valid_from : (k : ℕ) (s : Bytes) → length (to_valid_from k s) ≤ length s
unfolding to_valid_from
length-to_valid_from k [] = omega arith
length-to_valid_from (suc k) (c ∷ cs) = omega (arith, length-to_valid_from k cs)
length-to_valid_from zero (c ∷ cs) =
    length_choice (leb 0x80 c && (rune_width c cs == 1)) c (length cs) _ _
      (length-to_valid_from 0 cs) (length-to_valid_from (rune_width c cs - 1) cs)

pub length-to_valid_utf8 : (s : Bytes) → length (to_valid_utf8 s) ≤ length s
unfolding to_valid_utf8
length-to_valid_utf8 s = length-to_valid_from 0 s
