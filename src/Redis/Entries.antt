-- ===== src/Redis/Entries.antt =====
-- Lemmas on the entries of one sorted set, for the scripts of backend/internal/redis: what is alive,
-- what a trim leaves of it, and what an insertion adds.
use project_management.Redis.{before, retry_of}
use project_management.Redis.Laws.{Entry, above, keep, insert, first_score}
use project_management.Prelude.{
  ℕ, suc, ◌+◌, ◌≤◌, ◌<◌, Bool, true, List, [], ◌∷◌, length, ltb, ◌≡◌, refl, ap, arith, All,
  Bool-cases, inl, inr, if◌then◌else◌,
}

-- The entries that count at a moment.
abbrev pub alive : (window : ℕ) → ℕ → List Entry → List Entry
alive window u es = keep (above (before u window)) es

module _ (window : ℕ) where
  pub above-before : (u : ℕ) (e : Entry) → above (before u window) e ≡ ltb u (e.score + window)
  above-before u e = ground arith

  -- What was trimmed earlier is not missed later.
  pub alive-keep_earlier :
      (now u : ℕ)
      → now ≤ u
      → (es : List Entry) → alive window u (alive window now es) ≡ alive window u es
  unfolding keep
  alive-keep_earlier now u h [] = refl
  alive-keep_earlier now u h (e ∷ es) = ground (arith, alive-keep_earlier now u h es)

  pub length-alive_later :
      (now u : ℕ)
      → now ≤ u
      → (es : List Entry) → length (alive window u es) ≤ length (alive window now es)
  unfolding keep
  length-alive_later now u h [] = omega arith
  length-alive_later now u h (e ∷ es) = ground (arith, length-alive_later now u h es)

  pub length-alive-cons :
      (u : ℕ) (e : Entry) (es : List Entry)
      → length (alive window u (e ∷ es)) ≡ (
          if ltb u (e.score + window)
          then suc (length (alive window u es))
          else length (alive window u es))
  unfolding keep
  length-alive-cons u e es = ground arith

  pub length-alive-insert :
      (u : ℕ) (e : Entry) (es : List Entry)
      → length (alive window u (insert e es)) ≡ length (alive window u (e ∷ es))
  unfolding keep insert
  length-alive-insert u e [] = refl
  length-alive-insert u e (f ∷ fs) = ground (arith, length-alive-insert u e fs)

-- Nothing is dropped when every entry passes.
pub keep-All : (p : Entry → Bool) (es : List Entry) → All (λ e. p e ≡ true) es → keep p es ≡ es
unfolding keep
keep-All p [] h = refl
keep-All p (e ∷ es) h = rw h.0 (ap (◌∷◌ e) (keep-All p es h.1))

pub All-keep {κ} :
    (P : Entry → Type κ) (p : Entry → Bool) (es : List Entry) → All P es → All P (keep p es)
unfolding keep
All-keep P p [] h = h
All-keep P p (e ∷ es) h = elim (Bool-cases (p e)) [
  | inl y ↦ rw y (h.0, All-keep P p es h.1)
  | inr n ↦ rw n (All-keep P p es h.1)
]

pub All-insert {κ} :
    (P : Entry → Type κ) (e : Entry) (es : List Entry) → P e → All P es → All P (insert e es)
unfolding insert
All-insert P e [] he h = (he, tt)
All-insert P e (f ∷ fs) he h = elim (Bool-cases (ltb e.score f.score)) [
  | inl y ↦ rw y (he, h)
  | inr n ↦ rw n (h.0, All-insert P e fs he h.1)
]

-- A full tier's wait is positive.
pub retry-positive :
    (now window : ℕ)
    → 0 < window
    → (es : List Entry) → 0 < retry_of now window (first_score (alive window now es))
unfolding keep
retry-positive now window h [] = h
retry-positive now window h (e ∷ es) = ground (arith, retry-positive now window h es)
