-- ===== src/Fracdex/Between.antt =====
-- `Between`: between any two keys there is room for another one, and the code finds it.
use project_management.Fracdex.Correct.{
  Returns, before_lem, after_lem, between_fractions, between_integers,
}
use project_management.Fracdex.Parts.{LtInside-of_keys, IsKey-integer}
use project_management.Fracdex.Order.{Lt, bytes_lt_iff}
use project_management.Fracdex.Split.{IsCut, IsKey, split_cases, IsCut-split}
use project_management.Fracdex.{
  Result, first_key, midpoint, midpoint_after, increment, before, after, between_parts, between,
  split_bound, bytes_lt, integer_width, invalid_key, not_ascending,
}
use project_management.Prelude.Outcome.{ok, err, ◌>>=◌}
use project_management.Prelude.{
  ℕ, false, not, [], ◌∷◌, ◌++◌, ◌≡◌, ◌≢◌, refl, sym, subst, ◌∙◌, ◌⊎◌, inl, inr, arith, Bytes,
  bytes_eq, bytes_eq_iff, if◌then◌else◌, Bool-cases,
}

-- The key sorts strictly between the bounds, an empty bound being none.
abbrev pub IsBetween : Bytes → Bytes → Bytes → Type 0
IsBetween prev next k = ((prev ≡ []) ⊎ Lt prev k) × ((next ≡ []) ⊎ Lt k next)

-- What the caller may pass: nothing, or a key.
abbrev pub IsBound : Bytes → Type 0
IsBound key = (key ≡ []) ⊎ IsKey key

abbrev pub Ascends : Bytes → Bytes → Type 0
Ascends prev next = (prev ≡ []) ⊎ ((next ≡ []) ⊎ Lt prev next)

-- The three verdicts on two bounds, and what `Between` answers to each.
pub data Verdict (prev next : Bytes) (r : Result Bytes) : Type 0 where
  room :
      IsBound prev
      → IsBound next
      → Ascends prev next
      → (k : Bytes) → r ≡ ok k
      → IsKey k
      → IsBetween prev next k
      → Verdict prev next r
  malformed : (¬ (IsBound prev × IsBound next)) → r ≡ err invalid_key → Verdict prev next r
  disordered :
      IsBound prev
      → IsBound next
      → (¬ Ascends prev next)
      → r ≡ err not_ascending
      → Verdict prev next r

first_key-IsKey : IsKey first_key
unfolding integer_width
first_key-IsKey = IsKey-integer first_key (refl, ((0, omega arith, refl), tt)) (λ e. cc)

parts_below : (y : ℕ) (n i f : Bytes) → between_parts [] (y ∷ n) ([], []) (i, f) ≡ before i f
unfolding between_parts bytes_eq
parts_below y n i f = refl

parts_above : (x : ℕ) (p i f : Bytes) → between_parts (x ∷ p) [] (i, f) ([], []) ≡ after i f
unfolding between_parts bytes_eq
parts_above x p i f = refl

parts_both :
    (x y : ℕ) (p n i f j g : Bytes)
    → between_parts (x ∷ p) (y ∷ n) (i, f) (j, g) ≡ (
        if not (bytes_lt (x ∷ p) (y ∷ n))
        then err not_ascending
        else if bytes_eq i j
        then (midpoint f g >>= λ m. ok (i ++ m))
        else (increment i >>= λ stepped.
            if bytes_lt stepped (y ∷ n)
            then ok stepped
            else (midpoint_after f >>= λ m. ok (i ++ m))))
unfolding between_parts
parts_both x y p n i f j g = ground (arith, bytes_eq_iff (x ∷ p) [], bytes_eq_iff (y ∷ n) [])

IsCut-joined : (key i f : Bytes) → IsCut key i f → IsCut (i ++ f) i f
IsCut-joined key i f c = subst (λ k. IsCut k i f) c.joined c

same_integer :
    (prev next i f j g : Bytes)
    → IsCut prev i f
    → IsCut next j g
    → i ≡ j
    → Lt prev next
    → Returns (midpoint f g >>= λ m. ok (i ++ m)) (λ k. Lt prev k × Lt k next)
same_integer prev next i f j g c d e lt =
    rw (c.joined, d.joined, ← e)
      (between_fractions i f g (IsCut-joined prev i f c)
        (subst (λ k. IsCut (k ++ g) k g) (sym e) (IsCut-joined next j g d))
        (rw (c.joined, d.joined, ← e) at lt))

other_integer :
    (prev next i f j g : Bytes)
    → IsCut prev i f
    → IsCut next j g
    → i ≢ j
    → Lt prev next
    → Returns
        (increment i >>= λ stepped.
          if bytes_lt stepped next then ok stepped else (midpoint_after f >>= λ m. ok (i ++ m)))
        (λ k. Lt prev k × Lt k next)
other_integer prev next [] f j g c d ne lt = absurd c.integer_part
other_integer prev next (h ∷ body) f j g c d ne lt =
    rw (c.joined, d.joined)
      (between_integers h body f j g (IsCut-joined prev (h ∷ body) f c) (IsCut-joined next j g d) (
        LtInside-of_keys (h ∷ body) j f g c.integer_part d.integer_part ne
          (rw (c.joined, d.joined) at lt)))

-- `between` with its split bounds written out.
between_eq :
    (prev next : Bytes) (pp np : Bytes × Bytes)
    → split_bound prev ≡ ok pp
    → split_bound next ≡ ok np
    → between prev next ≡ between_parts prev next pp np
unfolding between
between_eq prev next pp np e f = rw (e, f)

not_Ascends : (x y : ℕ) (p n : Bytes) → bytes_lt (x ∷ p) (y ∷ n) ≡ false → ¬ Ascends (x ∷ p) (y ∷ n)
not_Ascends x y p n e (inl q) = cc
not_Ascends x y p n e (inr (inl q)) = cc
not_Ascends x y p n e (inr (inr lt)) = cc (e, (bytes_lt_iff (x ∷ p) (y ∷ n)).1 lt)

both_bounds :
    (x y : ℕ) (p n i f j g : Bytes)
    → IsCut (x ∷ p) i f
    → IsCut (y ∷ n) j g
    → Verdict (x ∷ p) (y ∷ n) (between_parts (x ∷ p) (y ∷ n) (i, f) (j, g))
both_bounds x y p n i f j g c d = elim (Bool-cases (bytes_lt (x ∷ p) (y ∷ n))) [
  | inr no_room ↦
      disordered (inr (i, f, c)) (inr (j, g, d)) (not_Ascends x y p n no_room)
        (parts_both x y p n i f j g ∙ rw no_room)
  | inl ordered ↦
      let lt = (bytes_lt_iff (x ∷ p) (y ∷ n)).0 ordered in
      elim (Bool-cases (bytes_eq i j)) [
        | inl same ↦
            let (k, runs, is_key, sides) =
              same_integer (x ∷ p) (y ∷ n) i f j g c d ((bytes_eq_iff i j).0 same) lt in
            room (inr (i, f, c)) (inr (j, g, d)) (inr (inr lt)) k
              (parts_both x y p n i f j g ∙ rw (ordered, same) runs) is_key
              (inr sides.0, inr sides.1)
        | inr apart ↦
            let (k, runs, is_key, sides) =
              other_integer (x ∷ p) (y ∷ n) i f j g c d (λ e. cc (apart, (bytes_eq_iff i j).1 e))
                lt in
            room (inr (i, f, c)) (inr (j, g, d)) (inr (inr lt)) k
              (parts_both x y p n i f j g ∙ rw (ordered, apart) runs) is_key
              (inr sides.0, inr sides.1)
      ]
]

split_bound_cases :
    (x : ℕ) (p : Bytes)
    → ((i : Bytes) × (f : Bytes) × (split_bound (x ∷ p) ≡ ok (i, f)) × IsCut (x ∷ p) i f)
      ⊎ ((split_bound (x ∷ p) ≡ err invalid_key) × (¬ IsBound (x ∷ p)))
unfolding split_bound
split_bound_cases x p = elim (split_cases (x ∷ p)) [
  | inl r ↦ inl r
  | inr e ↦ inr (e, λ b. elim b [ inl q ↦ cc | inr (i, f, c) ↦ cc (e, IsCut-split (x ∷ p) i f c) ])
]

split_bound_nil : split_bound [] ≡ ok ([], [])
unfolding split_bound
split_bound_nil = refl

between_refuses_prev :
    (prev next : Bytes) → split_bound prev ≡ err invalid_key → between prev next ≡ err invalid_key
unfolding between
between_refuses_prev prev next e = rw e

between_refuses_next :
    (prev next : Bytes) (pp : Bytes × Bytes)
    → split_bound prev ≡ ok pp
    → split_bound next ≡ err invalid_key
    → between prev next ≡ err invalid_key
unfolding between
between_refuses_next prev next pp e f = rw (e, f)

-- For every two strings `Between` returns exactly what it documents. If each bound is empty or a
-- key, and they ascend where both are given, it returns a valid key that sorts strictly after the
-- lower and strictly before the upper bound. If a bound is neither empty nor a key, it answers
-- `ErrInvalidKey`. If two keys do not ascend, it answers `ErrNotAscending`. So it never panics,
-- never runs out of key space, and always returns.
pub between-Verdict : (prev next : Bytes) → Verdict prev next (between prev next)
between-Verdict [] [] =
    room (inl refl) (inl refl) (inl refl) first_key
      (between_eq [] [] _ _ split_bound_nil split_bound_nil
        ∙ (unfold between_parts bytes_eq in refl))
      first_key-IsKey (inl refl, inl refl)
between-Verdict [] (y ∷ n) = elim (split_bound_cases y n) [
  | inr (e, bad) ↦ malformed (λ b. bad b.1) (between_refuses_next [] (y ∷ n) _ split_bound_nil e)
  | inl (i, f, e, c) ↦
      let (k, runs, is_key, lt) = before_lem (y ∷ n) i f c in
      room (inl refl) (inr (i, f, c)) (inl refl) k
        (between_eq [] (y ∷ n) _ _ split_bound_nil e ∙ parts_below y n i f ∙ runs) is_key
        (inl refl, inr lt)
]
between-Verdict (x ∷ p) [] = elim (split_bound_cases x p) [
  | inr (e, bad) ↦ malformed (λ b. bad b.0) (between_refuses_prev (x ∷ p) [] e)
  | inl (i, f, e, c) ↦
      let (k, runs, is_key, lt) = after_lem (x ∷ p) i f c in
      room (inr (i, f, c)) (inl refl) (inr (inl refl)) k
        (between_eq (x ∷ p) [] _ _ e split_bound_nil ∙ parts_above x p i f ∙ runs) is_key
        (inr lt, inl refl)
]
between-Verdict (x ∷ p) (y ∷ n) = elim (split_bound_cases x p) [
  | inr (e, bad) ↦ malformed (λ b. bad b.0) (between_refuses_prev (x ∷ p) (y ∷ n) e)
  | inl (i, f, e, c) ↦ elim (split_bound_cases y n) [
    | inr (e', bad) ↦ malformed (λ b. bad b.1) (between_refuses_next (x ∷ p) (y ∷ n) _ e e')
    | inl (j, g, e', d) ↦
        rw (between_eq (x ∷ p) (y ∷ n) (i, f) (j, g) e e') (both_bounds x y p n i f j g c d)
  ]
]
