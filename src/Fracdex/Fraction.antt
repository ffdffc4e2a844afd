-- ===== src/Fracdex/Fraction.antt =====
-- `midpoint` and `midpointAfter`: a fraction strictly between two others, or above one.
use project_management.Fracdex.Digit.{
  digit, digit-lt, IsDigit, AreDigits, digit_then_lem, digit_value_lem,
}
use project_management.Fracdex.Order.{Lt}
use project_management.Fracdex.{midpoint_after, common_prefix_len, ends_in_zero}
use project_management.Prelude.Outcome.{ok}
use project_management.Prelude.{
  ℕ, zero, suc, ◌+◌, ◌/◌, ◌<◌, false, [], ◌∷◌, ◌++◌, ◌≡◌, ◌≢◌, refl, ◌⊎◌, inl, inr, arith, Bytes,
  take, drop, ltb, ◌==◌, Bool-cases,
}

-- What both routines return: digits, at least one, the last not a zero.
pub record IsFresh (m : Bytes) : Type 0 where
  pub digits_all : AreDigits m
  pub ends : ends_in_zero m ≡ false
  pub nonempty : m ≢ []

pub IsFresh-one : (d : ℕ) → 0 < d → d < 62 → IsFresh (digit d ∷ [])
unfolding ends_in_zero
IsFresh-one d p h = record {
  digits_all = ((d, h, refl), tt);
  ends = ground arith;
  nonempty = λ e. cc;
}

pub IsFresh-cons : (d : ℕ) (m : Bytes) → d < 62 → IsFresh m → IsFresh (digit d ∷ m)
unfolding ends_in_zero
IsFresh-cons d [] h f = absurd (f.nonempty refl)
IsFresh-cons d (c ∷ m) h f = record {
  digits_all = ((d, h, refl), f.digits_all);
  ends = f.ends;
  nonempty = λ e. cc;
}

-- The result of `midpointAfter`.
abbrev pub AfterResult : Bytes → Type 0
AfterResult a = (m : Bytes) × (midpoint_after a ≡ ok m) × Lt a m × IsFresh m

-- It never panics, and its result sorts after `a`.
pub midpoint_after_lem : (a : Bytes) → AreDigits a → AfterResult a
unfolding midpoint_after
midpoint_after_lem [] h = (digit 31 ∷ [], refl, tt, IsFresh-one 31 (omega arith) (omega arith))
midpoint_after_lem (c ∷ cs) ((d, lt, e), r) =
    let (m, runs, above, fresh) = midpoint_after_lem cs r in
    elim (Bool-cases (ltb d 61)) [
      | inl low ↦ (
        digit ((d + 62 + 1) / 2) ∷ [],
        rw (e, digit_value_lem d lt, low) (digit_then_lem ((d + 62 + 1) / 2) [] (ground arith)),
        inl (rw e (digit-lt d ((d + 62 + 1) / 2) (ground arith))),
        IsFresh-one ((d + 62 + 1) / 2) (ground arith) (ground arith),
      )
      | inr top ↦ (
        digit d ∷ m,
        rw (e, digit_value_lem d lt, top, runs) (digit_then_lem d m lt),
        inr (e, above),
        IsFresh-cons d m lt fresh,
      )
    ]

-- `a` with zeros behind it sorts before `b`: what `midpoint` is asked of its bounds.
abbrev pub Below : Bytes → Bytes → Type 0
Below a [] = ⊥
Below [] (y ∷ ys) = (48 < y) ⊎ ((48 ≡ y) × Below [] ys)
Below (x ∷ xs) (y ∷ ys) = (x < y) ⊎ ((x ≡ y) × Below xs ys)

-- A fraction that does not end in a zero is above nothing at all.
pub Below-nil : (b : Bytes) → AreDigits b → ends_in_zero b ≡ false → b ≢ [] → Below [] b
unfolding ends_in_zero
Below-nil [] d z n = n refl
Below-nil (y ∷ []) ((v, lt, e), r) z n = ground arith
Below-nil (y ∷ w ∷ b) ((v, lt, e), r) z n =
    let deeper = Below-nil (w ∷ b) r z (λ q. cc) in ground arith

-- For fractions without a zero at the end this is the byte order.
pub Below-of_Lt : (a b : Bytes) → AreDigits b → ends_in_zero b ≡ false → Lt a b → Below a b
unfolding ends_in_zero
Below-of_Lt a [] d z h = h
Below-of_Lt [] (y ∷ b) d z h = Below-nil (y ∷ b) d z (λ q. cc)
Below-of_Lt (x ∷ a) (y ∷ []) d z (inl h) = inl h
Below-of_Lt (x ∷ a) (y ∷ []) d z (inr (e, h)) = absurd h
Below-of_Lt (x ∷ a) (y ∷ w ∷ b) d z (inl h) = inl h
Below-of_Lt (x ∷ a) (y ∷ w ∷ b) d z (inr (e, h)) = inr (e, Below-of_Lt a (w ∷ b) d.1 z h)

-- Without the first `n` digits, which the two share, the order is the same, and what is left
-- begins with different digits.
pub record Strips (a b : Bytes) (n : ℕ) : Type 0 where
  pub apart : common_prefix_len (drop n a) (drop n b) ≡ 0
  pub below : Below (drop n a) (drop n b)
  pub left_digits : AreDigits a → AreDigits (drop n a)
  pub right_digits : AreDigits b → AreDigits (drop n b)
  pub prefix_digits : AreDigits b → (m : Bytes) → IsFresh m → IsFresh (take n b ++ m)
  pub above_left : (m : Bytes) → m ≢ [] → Lt (drop n a) m → Lt a (take n b ++ m)
  pub below_right : (m : Bytes) → Lt m (drop n b) → Lt (take n b ++ m) b

Strips-zero : (a b : Bytes) → common_prefix_len a b ≡ 0 → Below a b → Strips a b 0
Strips-zero a b e h = record {
  apart = e;
  below = h;
  left_digits = λ d. d;
  right_digits = λ d. d;
  prefix_digits = λ d m f. f;
  above_left = λ m ne l. l;
  below_right = λ m l. l;
}

IsFresh-cons_byte : (y : ℕ) (m : Bytes) → IsDigit y → IsFresh m → IsFresh (y ∷ m)
IsFresh-cons_byte y m (d, lt, e) f = rw e (IsFresh-cons d m lt f)

Strips-cons :
    (x y : ℕ) (a b : Bytes) (n : ℕ) → x ≡ y → Strips a b n → Strips (x ∷ a) (y ∷ b) (suc n)
Strips-cons x y a b n e s = record {
  apart = s.apart;
  below = s.below;
  left_digits = λ d. s.left_digits d.1;
  right_digits = λ d. s.right_digits d.1;
  prefix_digits = λ d m f. IsFresh-cons_byte y _ d.0 (s.prefix_digits d.1 m f);
  above_left = λ m ne l. inr (e, s.above_left m ne l);
  below_right = λ m l. inr (refl, s.below_right m l);
}

drop-nil : (n : ℕ) → drop {A = ℕ} n [] ≡ []
drop-nil zero = refl
drop-nil (suc n) = refl

Strips-pad : (y : ℕ) (b : Bytes) (n : ℕ) → Strips [] b n → Strips [] (y ∷ b) (suc n)
Strips-pad y b n s = record {
  apart = rw (drop-nil n) at s.apart;
  below = rw (drop-nil n) at s.below;
  left_digits = λ d. tt;
  right_digits = λ d. s.right_digits d.1;
  prefix_digits = λ d m f. IsFresh-cons_byte y _ d.0 (s.prefix_digits d.1 m f);
  above_left = λ m ne l. tt;
  below_right = λ m l. inr (refl, s.below_right m l);
}

pub strips : (a b : Bytes) → Below a b → Strips a b (common_prefix_len a b)
unfolding common_prefix_len
strips a [] h = absurd h
strips [] (y ∷ b) h = elim (Bool-cases (b'0' == y)) [
  | inl same ↦ rw (same, common_prefix_len) (Strips-pad y b _ (strips [] b (ground arith)))
  | inr apart ↦
      rw (apart, common_prefix_len) (Strips-zero [] (y ∷ b) (rw (apart, common_prefix_len)) h)
]
strips (x ∷ a) (y ∷ b) h = elim (Bool-cases (x == y)) [
  | inl same ↦
      rw (same, common_prefix_len)
        (Strips-cons x y a b _ (ground arith) (strips a b (ground arith)))
  | inr apart ↦
      rw (apart, common_prefix_len) (Strips-zero (x ∷ a) (y ∷ b) (rw (apart, common_prefix_len)) h)
]
