-- ===== src/Fracdex/Split.antt =====
-- `split` and `Validate`: which strings are keys, and how a key is cut.
use project_management.Fracdex.Digit.{
  IsDigit, AreDigits, all_digits-AreDigits, AreDigits-all_digits,
}
use project_management.Fracdex.Integer.{IsInteger, integer_width_cases}
use project_management.Fracdex.{
  integer_width, all_digits, ends_in_zero, split, validate, smallest_integer, invalid_key,
}
use project_management.Prelude.Outcome.{ok, err}
use project_management.Prelude.{
  ℕ, suc, ◌+◌, ◌-◌, ◌≤◌, Bool, true, false, not, [], ◌∷◌, ◌++◌, ◌≡◌, ◌≢◌, ◌&&◌, refl, subst, sym,
  ap, ◌∙◌, ◌⊎◌, inl, inr, arith, Bytes, length, length-append, length-take, take, drop, take-append,
  drop-append, take-append-drop, bytes_eq, bytes_eq_iff, ltb, leb, if◌then◌else◌, All-append,
  All-split, Bool-cases,
}

-- A key, cut into an integer part and a fraction.
pub record IsCut (key integer fraction : Bytes) : Type 0 where
  pub integer_part : IsInteger integer
  pub fraction_digits : AreDigits fraction
  pub fraction_ends : ends_in_zero fraction ≡ false
  pub joined : key ≡ integer ++ fraction
  pub not_floor : key ≢ smallest_integer

-- A string that the package could have produced.
abbrev pub IsKey : Bytes → Type 0
IsKey key = (i : Bytes) × (f : Bytes) × IsCut key i f

header-IsDigit : (h n : ℕ) → integer_width h ≡ ok (suc n) → IsDigit h
header-IsDigit h n e = elim (integer_width_cases h n e) [
  | inl (lo, hi, q) ↦ (h - 61, omega arith, ground arith)
  | inr (lo, hi, q) ↦ (h - 55, omega arith, ground arith)
]

integer_width-total :
    (h : ℕ) → ((n : ℕ) × (integer_width h ≡ ok (suc n))) ⊎ (integer_width h ≡ err invalid_key)
unfolding integer_width
integer_width-total h = elim (Bool-cases (leb b'a' h && leb h b'z')) [
  | inl low ↦ inl (h - 97 + 1, ground arith)
  | inr not_low ↦ elim (Bool-cases (leb b'A' h && leb h b'Z')) [
    | inl up ↦ inl (90 - h + 1, ground arith)
    | inr not_up ↦ inr (rw (not_low, not_up))
  ]
]

abbrev guards : Bytes → ℕ → Bool
guards key n =
    not (ltb (length key) (suc n)) && all_digits key && not (ends_in_zero (drop (suc n) key))

-- `split` in one test.
split_one :
    (h n : ℕ) (cs : Bytes)
    → integer_width h ≡ ok (suc n)
    → split (h ∷ cs) ≡ (
        if not (bytes_eq (h ∷ cs) smallest_integer) && guards (h ∷ cs) n
        then ok (take (suc n) (h ∷ cs), drop (suc n) (h ∷ cs))
        else err invalid_key)
unfolding split
split_one h n cs e = rw e (ground arith)

IsCut-guards :
    (h n : ℕ) (cs : Bytes)
    → integer_width h ≡ ok (suc n)
    → (not (bytes_eq (h ∷ cs) smallest_integer) && guards (h ∷ cs) n) ≡ true
    → IsCut (h ∷ cs) (take (suc n) (h ∷ cs)) (drop (suc n) (h ∷ cs))
IsCut-guards h n cs e g = record {
  integer_part = (e ∙ ap (λ k. ok (suc k)) (sym (length-take n cs fits)), cut.0);
  fraction_digits = cut.1;
  fraction_ends = ground arith;
  joined = ap (◌∷◌ h) (sym (take-append-drop n cs));
  not_floor = λ q. ground (arith, bytes_eq_iff (h ∷ cs) smallest_integer);
}
  where
    fits : n ≤ length cs
    fits = ground arith

    all : all_digits (h ∷ cs) ≡ true
    all = ground arith

    cut : AreDigits (take n cs) × AreDigits (drop n cs)
    cut =
        All-split IsDigit (take n cs) (drop n cs)
          (rw (take-append-drop n cs) (all_digits-AreDigits (h ∷ cs) all).1)

split_no_header :
    (h : ℕ) (cs : Bytes) → integer_width h ≡ err invalid_key → split (h ∷ cs) ≡ err invalid_key
unfolding split
split_no_header h cs e = rw e (ground arith)

-- A string is a key, and is cut as one, or is refused as no key. There is no third outcome.
pub split_cases :
    (key : Bytes)
    → ((i : Bytes) × (f : Bytes) × (split key ≡ ok (i, f)) × IsCut key i f)
      ⊎ (split key ≡ err invalid_key)
split_cases [] = inr (unfold split in refl)
split_cases (h ∷ cs) = elim (integer_width-total h) [
  | inr bad ↦ inr (split_no_header h cs bad)
  | inl (n, w) ↦ elim (Bool-cases (not (bytes_eq (h ∷ cs) smallest_integer) && guards (h ∷ cs) n)) [
    | inl g ↦ inl (
      take (suc n) (h ∷ cs),
      drop (suc n) (h ∷ cs),
      split_one h n cs w ∙ rw g,
      IsCut-guards h n cs w g,
    )
    | inr g ↦ inr (split_one h n cs w ∙ rw g)
  ]
]

drop_header : (h : ℕ) (body f : Bytes) → drop (suc (length body)) (h ∷ (body ++ f)) ≡ f
drop_header h body f = drop-append body f

IsCut-passes :
    (h : ℕ) (body f : Bytes)
    → IsCut (h ∷ (body ++ f)) (h ∷ body) f
    → (not (bytes_eq (h ∷ (body ++ f)) smallest_integer) && guards (h ∷ (body ++ f)) (length body))
      ≡ true
IsCut-passes h body f c = ground (
  arith,
  bytes_eq_iff (h ∷ (body ++ f)) smallest_integer,
  length-append body f,
  drop_header h body f,
  AreDigits-all_digits (h ∷ (body ++ f)) (
    header-IsDigit h (length body) c.integer_part.0,
    All-append IsDigit body f c.integer_part.1 c.fraction_digits,
  ),
)

-- `split` returns every cut.
pub IsCut-split : (key i f : Bytes) → IsCut key i f → split key ≡ ok (i, f)
IsCut-split key [] f c = absurd c.integer_part
IsCut-split key (h ∷ body) f c = rw c.joined (
    split_one h (length body) (body ++ f) c.integer_part.0
    ∙ rw (
      IsCut-passes h body f (subst (λ k. IsCut k (h ∷ body) f) c.joined c),
      take-append body f,
      drop-append body f,
    ))

-- `Validate` accepts exactly the keys, and refuses every other string as malformed.
pub validate-IsKey :
    (key : Bytes)
    → ((validate key ≡ ok tt) × IsKey key) ⊎ ((validate key ≡ err invalid_key) × (¬ IsKey key))
unfolding validate
validate-IsKey key = elim (split_cases key) [
  | inl (i, f, e, c) ↦ inl (rw e, (i, f, c))
  | inr e ↦ inr (rw e, λ k. cc (e, IsCut-split key k.0 k.1 k.2))
]
