-- ===== src/Fracdex/Midpoint.antt =====
-- `midpoint`: a fraction strictly between two others.
use project_management.Fracdex.Digit.{
  digit, digit-lt, digit-lt_iff, AreDigits, digit_then_lem, digit_value_lem,
}
use project_management.Fracdex.Order.{Lt}
use project_management.Fracdex.Fraction.{
  IsFresh, IsFresh-one, IsFresh-cons, midpoint_after_lem, Below, Below-of_Lt, Strips, strips,
}
use project_management.Fracdex.{
  leading_digit, midpoint_apart, midpoint_fuel, midpoint, common_prefix_len, ends_in_zero, Error,
}
use project_management.Prelude.Outcome.{Outcome, ok, ◌>>=◌}
use project_management.Prelude.{
  ℕ, suc, ◌+◌, ◌/◌, ◌<◌, false, [], ◌∷◌, ◌++◌, ◌≡◌, refl, inl, inr, arith, Bytes, length, take,
  drop, ltb, Bool-cases,
}

abbrev pub Midpoint : Outcome Error Bytes → Bytes → Bytes → Type 0
Midpoint r a b = (m : Bytes) × (r ≡ ok m) × Lt a m × Lt m b × IsFresh m

-- The leading digit of a fraction, and what a string sorts above by it.
record Leads (a : Bytes) : Type 0 where
  low : ℕ
  low_bound : low < 62
  reads : leading_digit a ≡ ok low
  higher : (k : ℕ) (m : Bytes) → low < k → k < 62 → Lt a (digit k ∷ m)
  same : (m : Bytes) → Lt (drop 1 a) m → Lt a (digit low ∷ m)
  tail_digits : AreDigits (drop 1 a)

leads : (a : Bytes) → AreDigits a → Leads a
unfolding leading_digit
leads [] d = record {
  low = 0;
  low_bound = omega arith;
  reads = refl;
  higher = λ k m h l. tt;
  same = λ m h. tt;
  tail_digits = tt;
}
leads (c ∷ cs) ((d, lt, e), r) = record {
  low = d;
  low_bound = lt;
  reads = rw e (digit_value_lem d lt);
  higher = λ k m h l. inl (rw e (digit-lt d k h));
  same = λ m h. inr (e, h);
  tail_digits = r;
}

leads-Below :
    (a : Bytes) (h : ℕ) (ys : Bytes) (d : AreDigits a)
    → h < 62
    → common_prefix_len a (digit h ∷ ys) ≡ 0
    → Below a (digit h ∷ ys)
    → (leads a d).low < h
unfolding leads common_prefix_len
leads-Below [] h ys d lt e b = ground arith
leads-Below (c ∷ cs) h ys ((v, vlt, ve), r) lt e b = digit-lt_iff v h (ground arith)

-- The three ways in which `midpoint` answers bounds that begin with different digits.
midpoint_apart_core :
    (a ys : Bytes) (h : ℕ) (l : Leads a)
    → h < 62
    → l.low < h
    → Midpoint (midpoint_apart a (digit h ∷ ys)) a (digit h ∷ ys)
unfolding midpoint_apart
midpoint_apart_core a ys h l lt below = elim (Bool-cases (ltb (l.low + 1) h)) [
  | inl far ↦ (
    digit ((l.low + h + 1) / 2) ∷ [],
    rw (l.reads, digit_value_lem h lt, far)
        (digit_then_lem ((l.low + h + 1) / 2) [] (ground arith)),
    l.higher ((l.low + h + 1) / 2) [] (ground arith) (ground arith),
    inl (digit-lt ((l.low + h + 1) / 2) h (ground arith)),
    IsFresh-one ((l.low + h + 1) / 2) (ground arith) (ground arith),
  )
  | inr near ↦ close ys near
]
  where
    close :
        (zs : Bytes)
        → ltb (l.low + 1) h ≡ false
        → Midpoint (midpoint_apart a (digit h ∷ zs)) a (digit h ∷ zs)
    close (z ∷ zs) near = (
      digit h ∷ [],
      rw (l.reads, digit_value_lem h lt, near) (ground arith),
      l.higher h [] below lt,
      inr (refl, tt),
      IsFresh-one h (omega arith) lt,
    )
    close [] near =
        let (m, runs, above, fresh) = midpoint_after_lem (drop 1 a) l.tail_digits in
        (
          digit l.low ∷ m,
          rw (l.reads, digit_value_lem h lt, near) (rw runs (digit_then_lem l.low m l.low_bound)),
          l.same m above,
          inl (digit-lt l.low h below),
          IsFresh-cons l.low m l.low_bound fresh,
        )

midpoint_apart_lem :
    (a b : Bytes)
    → AreDigits a
    → AreDigits b
    → common_prefix_len a b ≡ 0
    → Below a b
    → Midpoint (midpoint_apart a b) a b
midpoint_apart_lem a [] da db e h = absurd h
midpoint_apart_lem a (y ∷ ys) da ((v, lt, ve), r) e h = rw ve (
    midpoint_apart_core a ys v (leads a da) lt (leads-Below a v ys da lt (rw ve at e) (rw ve at h)))

-- With no common digits one round is enough.
midpoint_fuel_apart :
    (k : ℕ) (a b : Bytes)
    → AreDigits a
    → AreDigits b
    → common_prefix_len a b ≡ 0
    → Below a b
    → Midpoint (midpoint_fuel (suc k) a b) a b
unfolding midpoint_fuel
midpoint_fuel_apart k a b da db e h = rw (e, midpoint_fuel) (midpoint_apart_lem a b da db e h)

Midpoint-prefix :
    (r : Outcome Error Bytes) (a b : Bytes) (n : ℕ)
    → AreDigits b
    → Strips a b n
    → Midpoint r (drop n a) (drop n b)
    → Midpoint (r >>= λ m. ok (take n b ++ m)) a b
Midpoint-prefix r a b n db s (m, runs, above, below, fresh) = (
  take n b ++ m,
  rw runs,
  s.above_left m fresh.nonempty above,
  s.below_right m below,
  s.prefix_digits db m fresh,
)

-- Two rounds are enough for any bounds.
midpoint_fuel_lem :
    (k : ℕ) (a b : Bytes)
    → AreDigits a
    → AreDigits b
    → Below a b
    → Midpoint (midpoint_fuel (suc (suc k)) a b) a b
unfolding midpoint_fuel
midpoint_fuel_lem k a b da db h = elim (Bool-cases (ltb 0 (common_prefix_len a b))) [
  | inl some_shared ↦
      let s = strips a b h in
      rw (some_shared, midpoint_fuel)
        (Midpoint-prefix _ a b (common_prefix_len a b) db s
          (midpoint_fuel_apart k _ _ (s.left_digits da) (s.right_digits db) s.apart s.below))
  | inr apart ↦ rw (apart, midpoint_fuel) (midpoint_apart_lem a b da db (ground arith) h)
]

-- For two strings of digits in ascending order, the upper one not ending in 0, `midpoint` returns
-- a fraction strictly between them, its own fuel being enough.
pub midpoint_lem :
    (a b : Bytes)
    → AreDigits a
    → AreDigits b
    → ends_in_zero b ≡ false
    → Lt a b
    → Midpoint (midpoint a b) a b
unfolding midpoint
midpoint_lem a [] da db z h = absurd h
midpoint_lem a (y ∷ ys) da db z h =
    midpoint_fuel_lem (length ys) a (y ∷ ys) da db (Below-of_Lt a (y ∷ ys) db z h)
