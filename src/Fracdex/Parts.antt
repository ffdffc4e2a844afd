-- ===== src/Fracdex/Parts.antt =====
-- Integer parts beside one another: the two ends of the key space, and the keys built on one.
use mathlib.Core.List.{append-nil}
use project_management.Fracdex.Digit.{AreDigits}
use project_management.Fracdex.Fraction.{IsFresh}
use project_management.Fracdex.Integer.{IsInteger, integer_width_cases}
use project_management.Fracdex.Order.{Lt, LtInside, LtInside-of_Lt}
use project_management.Fracdex.Split.{IsKey}
use project_management.Fracdex.{ends_in_zero, smallest_integer}
use project_management.Prelude.{
  ℕ, [], ◌∷◌, ◌++◌, ◌≡◌, ◌≢◌, refl, sym, ap, subst, inl, inr, arith, Bytes, length, length-append,
  replicate, All,
}

-- Nothing sorts below zeros.
not_LtInside_zeros : (b z : Bytes) → AreDigits b → All (λ c. c ≡ b'0') z → ¬ LtInside b z
not_LtInside_zeros b [] d e h = h
not_LtInside_zeros [] (z ∷ zs) d e h = h
not_LtInside_zeros (c ∷ b) (z ∷ zs) ((v, lt, q), r) e (inl h) = ground arith
not_LtInside_zeros (c ∷ b) (z ∷ zs) (d, r) e (inr (q, h)) = not_LtInside_zeros b zs r e.1 h

-- Nothing sorts above the highest digits.
not_LtInside_tops : (z b : Bytes) → AreDigits b → All (λ c. c ≡ b'z') z → ¬ LtInside z b
not_LtInside_tops z [] d e h = h
not_LtInside_tops [] (c ∷ b) d e h = h
not_LtInside_tops (z ∷ zs) (c ∷ b) ((v, lt, q), r) e (inl h) = ground arith
not_LtInside_tops (z ∷ zs) (c ∷ b) (d, r) e (inr (q, h)) = not_LtInside_tops zs b r e.1 h

zeros-eq : (b : Bytes) → All (λ c. c ≡ b'0') b → b ≡ replicate (length b) b'0'
zeros-eq [] e = refl
zeros-eq (c ∷ b) (q, e) = rw q (ap (◌∷◌ b'0') (zeros-eq b e))

-- `smallestInteger` is the first integer part.
pub not_LtInside_smallest : (i : Bytes) → IsInteger i → ¬ LtInside i smallest_integer
not_LtInside_smallest [] g h = g
not_LtInside_smallest (h ∷ body) (w, d) (inl lt) =
    absurd (ground (arith, integer_width_cases h _ w))
not_LtInside_smallest (h ∷ body) (w, d) (inr (e, lt)) =
    not_LtInside_zeros body (replicate 26 b'0') d (omega arith) lt

pub above_ne_smallest : (i j : Bytes) → IsInteger i → LtInside i j → j ≢ smallest_integer
above_ne_smallest i j g h e = not_LtInside_smallest i g (subst (LtInside i) e h)

-- The integer part that cannot be stepped down is `smallestInteger`.
pub bottom-eq_smallest :
    (h : ℕ) (body : Bytes)
    → IsInteger (h ∷ body)
    → h ≡ b'A'
    → All (λ c. c ≡ b'0') body
    → h ∷ body ≡ smallest_integer
bottom-eq_smallest h body (w, d) e z =
    let l : length body ≡ 26 = ground (arith, integer_width_cases h _ w) in
    rw (e, zeros-eq body z, l)

-- The integer part that cannot be stepped up has none above it.
pub top-not_LtInside :
    (h : ℕ) (body j : Bytes)
    → h ≡ b'z'
    → All (λ c. c ≡ b'z') body
    → IsInteger j
    → ¬ LtInside (h ∷ body) j
top-not_LtInside h body [] e z g l = g
top-not_LtInside h body (k ∷ js) e z (w, d) (inl lt) =
    absurd (ground (arith, integer_width_cases k _ w))
top-not_LtInside h body (k ∷ js) e z (w, d) (inr (q, lt)) = not_LtInside_tops body js d z lt

-- Integer parts are prefix-free: where two keys have different ones, these decide their order.
pub LtInside-of_keys :
    (i j f g : Bytes) → IsInteger i → IsInteger j → i ≢ j → Lt (i ++ f) (j ++ g) → LtInside i j
LtInside-of_keys [] j f g gi gj ne h = absurd gi
LtInside-of_keys (x ∷ i) [] f g gi gj ne h = absurd gj
LtInside-of_keys (x ∷ i) (y ∷ j) f g gi gj ne (inl h) = inl h
LtInside-of_keys (x ∷ i) (y ∷ j) f g (wi, di) (wj, dj) ne (inr (e, h)) = inr (
  e,
  LtInside-of_Lt i j f g (ground (arith, integer_width_cases x _ wi, integer_width_cases y _ wj))
      (λ q. ne cc) h,
)

-- An integer part other than `smallestInteger` is a key.
pub IsKey-integer : (i : Bytes) → IsInteger i → i ≢ smallest_integer → IsKey i
unfolding ends_in_zero
IsKey-integer i g ne = (
  i,
  [],
  record {
    integer_part = g;
    fraction_digits = tt;
    fraction_ends = refl;
    joined = sym (append-nil i);
    not_floor = ne;
  },
)

-- So is any integer part with a fraction behind it.
pub IsKey-fraction : (i m : Bytes) → IsInteger i → IsFresh m → IsKey (i ++ m)
IsKey-fraction [] m g f = absurd g
IsKey-fraction (h ∷ body) [] g f = absurd (f.nonempty refl)
IsKey-fraction (h ∷ body) (c ∷ m) (w, d) f = (
  h ∷ body,
  c ∷ m,
  record {
    integer_part = (w, d);
    fraction_digits = f.digits_all;
    fraction_ends = f.ends;
    joined = refl;
    not_floor = λ e.
        let l : length (body ++ c ∷ m) ≡ 26 = ground arith in
        let k : h ≡ 65 = cc in
        ground (arith, integer_width_cases h _ w, length-append body (c ∷ m));
  },
)
