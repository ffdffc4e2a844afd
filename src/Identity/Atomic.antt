-- ===== src/Identity/Atomic.antt =====
-- The transaction of cmd/api/main.go keeps everything that its function did, or nothing.
use project_management.Identity.Failure.{Result}
use project_management.Identity.Tables.{Tables, Fails, begin, commit, M, finish_tx, in_tx}
use project_management.Prelude.Outcome.{ok, err, panic}
use project_management.Prelude.{◌≡◌, ◌≢◌, ◌⊎◌, inl, inr, refl, arith, Bool-cases}

-- It failed and the tables are as before, or it succeeded.
abbrev pub KeepsOrSucceeds : {A : Type 0} → Tables → Result A × Tables → Type 0
KeepsOrSucceeds {A} t r = ((r.1 ≡ t) × ((a : A) → r.0 ≢ ok a)) ⊎ ((a : A) × (r.0 ≡ ok a))

finish_tx_cases :
    {A : Type 0} (fails : Fails) (t : Tables) (r : Result A × Tables)
    → KeepsOrSucceeds t (finish_tx fails t r)
finish_tx_cases fails t (ok a, t') = elim (Bool-cases (fails commit)) [
  | inl lost ↦ rw lost (inl (refl, λ b q. cc))
  | inr kept ↦ rw kept (inr (a, refl))
]
finish_tx_cases fails t (err e, t') = inl (refl, λ a q. cc)
finish_tx_cases fails t (panic, t') = inl (refl, λ a q. cc)

-- A transaction that does not succeed changes no table.
pub in_tx-KeepsOrSucceeds :
    {A : Type 0} (fails : Fails) (fn : M A) (t : Tables) → KeepsOrSucceeds t (in_tx fails fn t)
unfolding in_tx
in_tx-KeepsOrSucceeds fails fn t = elim (Bool-cases (fails begin)) [
  | inl closed ↦ rw closed (inl (refl, λ a q. cc))
  | inr open_tx ↦ rw open_tx (finish_tx_cases fails t (fn t))
]

finish_tx_inv :
    {A : Type 0} (fails : Fails) (t : Tables) (r : Result A × Tables) (a : A) (t' : Tables)
    → finish_tx fails t r ≡ (ok a, t')
    → r ≡ (ok a, t')
finish_tx_inv fails t (ok b, u) a t' e = ground arith
finish_tx_inv fails t (err f, u) a t' e = ground arith
finish_tx_inv fails t (panic, u) a t' e = ground arith

-- One that succeeds did what its function did.
pub in_tx_inv :
    {A : Type 0} (fails : Fails) (fn : M A) (t : Tables) (a : A) (t' : Tables)
    → in_tx fails fn t ≡ (ok a, t')
    → fn t ≡ (ok a, t')
unfolding in_tx
in_tx_inv fails fn t a t' e = ground (arith, finish_tx_inv fails t (fn t) a t')
