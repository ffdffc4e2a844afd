-- ===== src/Fracdex/Tests.antt =====
-- The order keys at concrete inputs.
use project_management.Fracdex.Between.{Verdict, between-Verdict}
use project_management.Fracdex.Insert.{IsOrdered, insert-IsOrdered}
use project_management.Fracdex.Midpoint.{Midpoint, midpoint_lem}
use project_management.Fracdex.Parts.{IsKey-integer}
use project_management.Fracdex.Split.{IsKey, validate-IsKey}
use project_management.Fracdex.{
  between, validate, midpoint, integer_width, ends_in_zero, invalid_key, not_ascending,
}
use project_management.Prelude.Outcome.{ok, err}
use project_management.Prelude.{ℕ, [], ◌∷◌, Bytes, ◌≡◌, ◌⊎◌, inl, inr, refl, arith, codes, bytes_eq}

runs :
    (between [] [] ≡ ok (codes "a0"))
    × (between (codes "az") [] ≡ ok (codes "b00"))
    × (between (codes "a0") (codes "a1") ≡ ok (codes "a0V"))
    × (between [] (codes "a0") ≡ ok (codes "Zz"))
    × (between (codes "a0") (codes "a3") ≡ ok (codes "a1"))
    × (between (codes "a1V") (codes "a1W") ≡ ok (codes "a1VV"))
    × (between (codes "a1") (codes "a0") ≡ err not_ascending)
    × (between (codes "a10") [] ≡ err invalid_key)
unfolding between bytes_eq
runs = (refl, refl, refl, refl, refl, refl, refl, refl)

between-Verdict_example : Verdict (codes "a0") (codes "a1") (between (codes "a0") (codes "a1"))
between-Verdict_example = between-Verdict (codes "a0") (codes "a1")

a0-IsKey : IsKey (codes "a0")
unfolding integer_width
a0-IsKey = IsKey-integer (codes "a0") (refl, ((0, omega arith, refl), tt)) (λ e. cc)

a1-IsKey : IsKey (codes "a1")
unfolding integer_width
a1-IsKey = IsKey-integer (codes "a1") (refl, ((1, omega arith, refl), tt)) (λ e. cc)

insert-IsOrdered_example :
    (k : Bytes) × (between (codes "a0") (codes "a1") ≡ ok k)
    × IsOrdered [] (codes "a0" ∷ k ∷ codes "a1" ∷ [])
insert-IsOrdered_example =
    insert-IsOrdered (codes "a0" ∷ []) (codes "a1" ∷ [])
      (a0-IsKey, inl refl, (a1-IsKey, inr (inr (refl, inl (omega arith))), tt))

validate-IsKey_example :
    ((validate (codes "a0V") ≡ ok tt) × IsKey (codes "a0V"))
    ⊎ ((validate (codes "a0V") ≡ err invalid_key) × (¬ IsKey (codes "a0V")))
validate-IsKey_example = validate-IsKey (codes "a0V")

abbrev lower_a : ℕ
lower_a = b'a'

abbrev lower_b : ℕ
lower_b = b'b'

midpoint_lem_example : Midpoint (midpoint (codes "1") (codes "2")) (codes "1") (codes "2")
unfolding ends_in_zero
midpoint_lem_example =
    midpoint_lem (codes "1") (codes "2") ((1, omega arith, refl), tt) ((2, omega arith, refl), tt)
      refl (inl (omega arith))
