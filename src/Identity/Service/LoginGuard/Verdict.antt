-- ===== src/Identity/Service/LoginGuard/Verdict.antt =====
-- What the guard decides, from what its counters answer.
use project_management.Identity.Service.LoginGuard.{
  CounterError, Answer, LoginAttempt, LoginGuard, Decision, proceed, too_many_attempts,
  retry_after_unavailable, GuardBucket, account_key, address_key, network_key, buckets_for, longer,
  decide, check_buckets, check,
}
use project_management.Prelude.{
  ℕ, ◌≤◌, ◌<◌, false, none, some, List, [], ◌∷◌, Bytes, ◌≡◌, ◌≢◌, ◌⊎◌, inl, inr, refl, ap, ◌∙◌, ltb,
  All, arith, Option-cases, Bool-cases,
}

first : Bytes → ℕ
first [] = 0
first (c ∷ cs) = c

apart : (a b : Bytes) → first a ≢ first b → a ≢ b
apart a b ne e = ne (ap first e)

-- The keys of the three buckets never meet, whatever attempts they are made for.
keys_apart :
    (sha256 fold : Bytes → Bytes) (a b : LoginAttempt)
    → (account_key sha256 fold a.email ≢ address_key sha256 fold b)
      × (account_key sha256 fold a.email ≢ network_key sha256 fold b)
      × (address_key sha256 fold a ≢ network_key sha256 fold b)
unfolding account_key address_key network_key first
keys_apart sha256 fold a b =
    (apart _ _ (λ e. omega arith), apart _ _ (λ e. omega arith), apart _ _ (λ e. omega arith))

abbrev pub Refuses : Answer → Type 0
Refuses a = a.room ≡ false

abbrev pub Answered : Answer → Type 0
Answered a = a.failed ≡ none

-- Some answer of the list is a refusal with this wait.
abbrev pub Attains : ℕ → List Answer → Type 0
Attains w [] = ⊥
Attains w (a ∷ answers) = (Refuses a × (a.wait ≡ w)) ⊎ Attains w answers

-- The longest wait of the refusals, at least the one so far.
peak : ℕ → List Answer → ℕ
unfolding longer
peak longest [] = longest
peak longest (a ∷ answers) = peak (longer longest a) answers

peak_grows : (longest : ℕ) (answers : List Answer) → longest ≤ peak longest answers
unfolding peak longer
peak_grows longest [] = omega arith
peak_grows longest (a ∷ answers) = ground (arith, peak_grows (longer longest a) answers)

peak_bounds :
    (longest : ℕ) (answers : List Answer)
    → All (λ a. Refuses a → a.wait ≤ peak longest answers) answers
unfolding peak longer
peak_bounds longest [] = tt
peak_bounds longest (a ∷ answers) = (
  λ r. ground (arith, peak_grows (longer longest a) answers),
  peak_bounds (longer longest a) answers,
)

peak_attained :
    (longest : ℕ) (answers : List Answer)
    → (peak longest answers ≡ longest) ⊎ Attains (peak longest answers) answers
unfolding peak longer
peak_attained longest [] = inl refl
peak_attained longest (a ∷ answers) = elim (peak_attained (longer longest a) answers) [
  | inr later ↦ inr (inr later)
  | inl kept ↦ elim (Bool-cases a.room) [
    | inl room ↦ inl (ground arith)
    | inr none_left ↦ elim (Bool-cases (ltb longest a.wait)) [
      | inl more ↦ inr (inl (none_left, ground arith))
      | inr less ↦ inl (ground arith)
    ]
  ]
]

-- The three outcomes of the guard.
pub data Verdict (got : List Answer) (d : Decision) : Type 0 where
  lets_through :
      All Answered got → All (λ a. Refuses a → a.wait ≡ 0) got → d ≡ proceed → Verdict got d
  waits :
      (w : ℕ)
      → All Answered got
      → 0 < w
      → All (λ a. Refuses a → a.wait ≤ w) got
      → Attains w got
      → d ≡ too_many_attempts w
      → Verdict got d
  fails_closed :
      (¬ All Answered got) → d ≡ too_many_attempts retry_after_unavailable → Verdict got d

All-zero :
    (w : ℕ) (got : List Answer)
    → w ≡ 0
    → All (λ a. Refuses a → a.wait ≤ w) got
    → All (λ a. Refuses a → a.wait ≡ 0) got
All-zero w [] e h = tt
All-zero w (a ∷ got) e (h, k) = (λ r. let le = h r in omega arith, All-zero w got e k)

-- All answer, and the decision is by the longest wait, or the guard fails closed.
abbrev Decides : Decision → ℕ → List Answer → Type 0
Decides d longest got =
    (All Answered got × (d ≡ decide (peak longest got)))
    ⊎ ((¬ All Answered got) × (d ≡ too_many_attempts retry_after_unavailable))

module _ {S : Type 0} where
  -- What the counters answer, each asked in turn.
  pub answers : List (GuardBucket S) → S → List Answer
  answers [] s = []
  answers (b ∷ bs) s = let (a, s') = b.counter.check b.key s in a ∷ answers bs s'

  -- After one answer.
  next : ℕ → List (GuardBucket S) → Answer × S → Decision × S
  next longest bs (a, s) = elim a.failed [
    | some e ↦ (too_many_attempts retry_after_unavailable, s)
    | none ↦ check_buckets (longer longest a) bs s
  ]

  next_failed :
      (longest : ℕ) (bs : List (GuardBucket S)) (a : Answer) (s : S) (e : CounterError)
      → a.failed ≡ some e
      → next longest bs (a, s) ≡ (too_many_attempts retry_after_unavailable, s)
  unfolding next
  next_failed longest bs a s e failed = rw failed refl

  next_fine :
      (longest : ℕ) (bs : List (GuardBucket S)) (a : Answer) (s : S)
      → a.failed ≡ none
      → next longest bs (a, s) ≡ check_buckets (longer longest a) bs s
  unfolding next
  next_fine longest bs a s fine = simp fine

  check_step :
      (longest : ℕ) (b : GuardBucket S) (bs : List (GuardBucket S)) (s : S) (r : Answer × S)
      → b.counter.check b.key s ≡ r
      → check_buckets longest (b ∷ bs) s ≡ next longest bs r
  unfolding check_buckets next
  check_step longest b bs s r e = ap (next longest bs) e

  check_buckets_cases :
      (longest : ℕ) (bs : List (GuardBucket S)) (s : S)
      → Decides (check_buckets longest bs s).0 longest (answers bs s)
  unfolding answers peak
  check_buckets_cases longest [] s = inl (tt, (unfold check_buckets in refl))
  check_buckets_cases longest (b ∷ bs) s =
      go (b.counter.check b.key s) refl (λ k t. check_buckets_cases k bs t)
    where
      go :
          (r : Answer × S)
          → b.counter.check b.key s ≡ r
          → ((k : ℕ) (t : S) → Decides (check_buckets k bs t).0 k (answers bs t))
          → Decides (check_buckets longest (b ∷ bs) s).0 longest (r.0 ∷ answers bs r.1)
      go (a, s') q again =
          let step = check_step longest b bs s (a, s') q in
          elim (Option-cases a.failed) [
            | inr (e, failed) ↦
                inr (
                  λ h. cc (h.0, failed),
                  ap (λ x. x.0) (step ∙ next_failed longest bs a s' e failed),
                )
            | inl fine ↦
                let onward = ap (λ x. x.0) (step ∙ next_fine longest bs a s' fine) in
                elim (again (longer longest a) s') [
                  | inl (all, runs) ↦ inl ((fine, all), onward ∙ runs)
                  | inr (bad, runs) ↦ inr (λ h. bad h.1, onward ∙ runs)
                ]
          ]

  -- The guard lets an attempt through if each of the three counters answers and none of them
  -- refuses with a wait above 0; if they answer and one refuses so, the wait is the longest of
  -- those that refused; and if one of them cannot be read the attempt is refused for 30 seconds.
  pub check-Verdict :
      (sha256 fold : Bytes → Bytes) (g : LoginGuard S) (attempt : LoginAttempt) (s : S)
      → Verdict (answers (buckets_for sha256 fold g attempt) s) (check sha256 fold g attempt s).0
  unfolding check decide
  check-Verdict sha256 fold g attempt s =
      let bs = buckets_for sha256 fold g attempt in
      let got = answers bs s in
      elim (check_buckets_cases 0 bs s) [
        | inr (bad, runs) ↦ fails_closed bad runs
        | inl (all, runs) ↦ elim (Bool-cases (ltb 0 (peak 0 got))) [
          | inl more ↦ elim (peak_attained 0 got) [
            | inl zero_peak ↦ absurd (ground arith)
            | inr hit ↦
                waits (peak 0 got) all (ground arith) (peak_bounds 0 got) hit (runs ∙ rw more refl)
          ]
          | inr none_left ↦
              lets_through all (All-zero (peak 0 got) got (ground arith) (peak_bounds 0 got))
                (runs ∙ rw none_left refl)
        ]
      ]
