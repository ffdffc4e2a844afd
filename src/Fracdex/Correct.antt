-- ===== src/Fracdex/Correct.antt =====
-- The four ways in which `Between` makes a key: below one bound, above one, and between two on the
-- same or on different integer parts.
use mathlib.Core.List.{append-nil}
use project_management.Fracdex.Digit.{AreDigits}
use project_management.Fracdex.Fraction.{midpoint_after_lem}
use project_management.Fracdex.Midpoint.{midpoint_lem}
use project_management.Fracdex.Integer.{IsInteger, increment_lem, decrement_lem}
use project_management.Fracdex.Order.{Lt, LtInside, Lt-inside, Lt-prefix, Lt-extend, bytes_lt_iff}
use project_management.Fracdex.Split.{IsCut, IsKey}
use project_management.Fracdex.Parts.{
  above_ne_smallest, bottom-eq_smallest, top-not_LtInside, IsKey-integer, IsKey-fraction,
}
use project_management.Fracdex.{
  Result, smallest_integer, midpoint, midpoint_after, increment, decrement, before, after, bytes_lt,
}
use project_management.Prelude.Outcome.{ok, ◌>>=◌}
use project_management.Prelude.{
  ℕ, true, false, not, [], ◌∷◌, ◌++◌, ◌≡◌, ◌≢◌, refl, sym, subst, ◌∙◌, inl, inr, arith, Bytes,
  bytes_eq, bytes_eq_iff, if◌then◌else◌, Bool-cases,
}

-- A call returns a key that has a property.
abbrev pub Returns : Result Bytes → (Bytes → Type 0) → Type 0
Returns r P = (k : Bytes) × (r ≡ ok k) × IsKey k × P k

-- A fresh fraction under the integer part of a bound, above that bound.
above_fraction :
    (i f : Bytes) (P : Bytes → Type 0)
    → IsInteger i
    → AreDigits f
    → ((m : Bytes) → Lt (i ++ f) (i ++ m) → P (i ++ m))
    → Returns (midpoint_after f >>= λ m. ok (i ++ m)) P
above_fraction i f P g d keep =
    let (m, runs, above, fresh) = midpoint_after_lem f d in
    (i ++ m, rw runs, IsKey-fraction i m g fresh, keep m ((Lt-prefix i f m).1 above))

-- `after` never fails, and its key sorts after the bound.
pub after_lem : (key i f : Bytes) → IsCut key i f → Returns (after i f) (λ k. Lt key k)
unfolding after
after_lem key [] f c = absurd c.integer_part
after_lem key (h ∷ body) f c = elim (increment_lem h body c.integer_part) [
  | inl (i, e, g, up) ↦ (
    i,
    rw (e, after),
    IsKey-integer i g (above_ne_smallest (h ∷ body) i c.integer_part up),
    rw c.joined (subst (Lt ((h ∷ body) ++ f)) (append-nil i) (Lt-inside (h ∷ body) i f [] up)),
  )
  | inr (e, top) ↦
      let r =
        above_fraction (h ∷ body) f (Lt ((h ∷ body) ++ f)) c.integer_part c.fraction_digits
          (λ m l. l) in
      (r.0, rw (e, after) r.1, r.2, rw c.joined r.3)
]

-- `before` at the first integer part, whose fraction can always be divided.
before_smallest :
    (f : Bytes)
    → IsCut (smallest_integer ++ f) smallest_integer f
    → Returns (before smallest_integer f) (λ k. Lt k (smallest_integer ++ f))
unfolding before bytes_eq
before_smallest f c =
    let (m, runs, above, below, fresh) =
      midpoint_lem [] f tt c.fraction_digits c.fraction_ends
        (nonempty_Lt f (λ e. c.not_floor (rw e))) in
    (
      smallest_integer ++ m,
      rw runs,
      IsKey-fraction smallest_integer m c.integer_part fresh,
      (Lt-prefix smallest_integer m f).1 below,
    )
  where
    nonempty_Lt : (f : Bytes) → f ≢ [] → Lt [] f
    nonempty_Lt [] ne = ne refl
    nonempty_Lt (x ∷ f) ne = tt

-- The rest of `before` is one equation, its callees shut.
before_steps :
    (i f : Bytes)
    → bytes_eq i smallest_integer ≡ false
    → before i f ≡ (
        if not (bytes_eq f [])
        then ok i
        else (decrement i >>= λ stepped.
            if bytes_eq stepped smallest_integer
            then (midpoint_after [] >>= λ m. ok (stepped ++ m))
            else ok stepped))
unfolding before
before_steps i f e = rw e

-- `before` under a bound without a fraction, whose integer part is not the first.
before_integer :
    (h : ℕ) (body : Bytes)
    → IsInteger (h ∷ body)
    → h ∷ body ≢ smallest_integer
    → Returns (before (h ∷ body) []) (λ k. Lt k (h ∷ body))
before_integer h body g ne = elim (decrement_lem h body g) [
  | inr (e, bottom) ↦ absurd (ne (bottom-eq_smallest h body g bottom.0 bottom.1))
  | inl (i, e, gi, down) ↦ elim (Bool-cases (bytes_eq i smallest_integer)) [
    | inl floor ↦
        let (m, runs, above, fresh) = midpoint_after_lem [] tt in
        (
          i ++ m,
          before_floor i e floor m runs,
          IsKey-fraction i m gi fresh,
          subst (Lt (i ++ m)) (append-nil (h ∷ body)) (Lt-inside i (h ∷ body) m [] down),
        )
    | inr inner ↦ (
      i,
      before_inner i e inner,
      IsKey-integer i gi (λ q. cc (inner, (bytes_eq_iff i smallest_integer).1 q)),
      subst (λ k. Lt k (h ∷ body)) (append-nil i)
          (subst (Lt (i ++ [])) (append-nil (h ∷ body)) (Lt-inside i (h ∷ body) [] [] down)),
    )
  ]
]
  where
    not_smallest : bytes_eq (h ∷ body) smallest_integer ≡ false
    not_smallest = ground (arith, bytes_eq_iff (h ∷ body) smallest_integer)

    before_floor :
        (i : Bytes)
        → decrement (h ∷ body) ≡ ok i
        → bytes_eq i smallest_integer ≡ true
        → (m : Bytes) → midpoint_after [] ≡ ok m
        → before (h ∷ body) [] ≡ ok (i ++ m)
    before_floor i e floor m runs =
        before_steps (h ∷ body) [] not_smallest ∙ rw ((bytes_eq_iff [] []).1 refl, e, floor, runs)

    before_inner :
        (i : Bytes)
        → decrement (h ∷ body) ≡ ok i
        → bytes_eq i smallest_integer ≡ false
        → before (h ∷ body) [] ≡ ok i
    before_inner i e inner =
        before_steps (h ∷ body) [] not_smallest ∙ rw ((bytes_eq_iff [] []).1 refl, e, inner)

before_joined : (i f : Bytes) → IsCut (i ++ f) i f → Returns (before i f) (λ k. Lt k (i ++ f))
before_joined [] f c = absurd c.integer_part
before_joined (h ∷ body) f c = elim (Bool-cases (bytes_eq (h ∷ body) smallest_integer)) [
  | inl floor ↦
      let e = (bytes_eq_iff (h ∷ body) smallest_integer).0 floor in
      subst (λ i. IsCut (i ++ f) i f → Returns (before i f) (λ k. Lt k (i ++ f))) (sym e)
        (before_smallest f) c
  | inr inner ↦ go f inner (λ e. cc (inner, (bytes_eq_iff (h ∷ body) smallest_integer).1 e))
]
  where
    go :
        (f : Bytes)
        → bytes_eq (h ∷ body) smallest_integer ≡ false
        → h ∷ body ≢ smallest_integer
        → Returns (before (h ∷ body) f) (λ k. Lt k ((h ∷ body) ++ f))
    go [] inner ne =
        subst (λ j. Returns (before (h ∷ body) []) (λ k. Lt k j)) (sym (append-nil (h ∷ body)))
          (before_integer h body c.integer_part ne)
    go (x ∷ f) inner ne = (
      h ∷ body,
      before_steps (h ∷ body) (x ∷ f) inner ∙ ground (arith, bytes_eq_iff (x ∷ f) []),
      IsKey-integer (h ∷ body) c.integer_part ne,
      Lt-extend (h ∷ body) (x ∷ f) (λ e. cc),
    )

-- `before` never fails, and its key sorts before the bound.
pub before_lem : (key i f : Bytes) → IsCut key i f → Returns (before i f) (λ k. Lt k key)
before_lem key i f c = rw c.joined (before_joined i f (subst (λ k. IsCut k i f) c.joined c))

-- Two keys on one integer part.
pub between_fractions :
    (i f g : Bytes)
    → IsCut (i ++ f) i f
    → IsCut (i ++ g) i g
    → Lt (i ++ f) (i ++ g)
    → Returns (midpoint f g >>= λ m. ok (i ++ m)) (λ k. Lt (i ++ f) k × Lt k (i ++ g))
between_fractions i f g c d lt =
    let (m, runs, above, below, fresh) =
      midpoint_lem f g c.fraction_digits d.fraction_digits d.fraction_ends
        ((Lt-prefix i f g).0 lt) in
    (
      i ++ m,
      rw runs,
      IsKey-fraction i m c.integer_part fresh,
      ((Lt-prefix i f m).1 above, (Lt-prefix i m g).1 below),
    )

-- Two keys on different integer parts: the next integer up if it fits, and a fraction otherwise.
pub between_integers :
    (h : ℕ) (body f j g : Bytes)
    → IsCut ((h ∷ body) ++ f) (h ∷ body) f
    → IsCut (j ++ g) j g
    → LtInside (h ∷ body) j
    → Returns
        (increment (h ∷ body) >>= λ stepped.
          if bytes_lt stepped (j ++ g)
          then ok stepped
          else (midpoint_after f >>= λ m. ok ((h ∷ body) ++ m)))
        (λ k. Lt ((h ∷ body) ++ f) k × Lt k (j ++ g))
between_integers h body f j g c d lt = elim (increment_lem h body c.integer_part) [
  | inr (e, top) ↦ absurd (top-not_LtInside h body j top.0 top.1 d.integer_part lt)
  | inl (i, e, gi, up) ↦ elim (Bool-cases (bytes_lt i (j ++ g))) [
    | inl fits ↦ (
      i,
      rw (e, fits),
      IsKey-integer i gi (above_ne_smallest (h ∷ body) i c.integer_part up),
      (
        subst (Lt ((h ∷ body) ++ f)) (append-nil i) (Lt-inside (h ∷ body) i f [] up),
        (bytes_lt_iff i (j ++ g)).0 fits,
      ),
    )
    | inr passes ↦
        let r =
          above_fraction (h ∷ body) f (λ k. Lt ((h ∷ body) ++ f) k × Lt k (j ++ g)) c.integer_part
            c.fraction_digits (λ m l. (l, Lt-inside (h ∷ body) j m g lt)) in
        (r.0, rw (e, passes) r.1, r.2, r.3)
  ]
]
