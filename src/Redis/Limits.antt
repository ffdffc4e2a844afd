-- ===== src/Redis/Limits.antt =====
-- What the limiter and the counter of failures of backend/internal/redis promise to their callers, as
-- the calls with their tiers, keys and answers show it.
use project_management.Redis.{Commands, Tier, Slot, Link, answers, now_of, admit_one, admit_at}
use project_management.Redis.Laws.{Laws}
use project_management.Redis.Limiter.{
  hits_key, sequence_key, milliseconds, slots, ratelimit_namespace, read_answer, run, answer_of,
  allow,
}
use project_management.Redis.Bound.{in_window, Run, Run-bound}
use project_management.Redis.Wait.{Quiet, admit_one-waited}
use project_management.Redis.Keys.{slots-Agrees, slots-AgreeAll, slots-Consistent, slots-IsTier}
use project_management.Identity.Service.LoginGuard.{Answer}
use project_management.Prelude.{
  ℕ, ◌+◌, ◌*◌, ◌≤◌, ◌<◌, Bool, true, false, none, some, List, ◌∷◌, Bytes, ◌≡◌, refl, sym, ap, ◌∙◌,
  arith, All, get_elem?,
}

abbrev pub has_room : Answer
has_room = record { room = true; wait = 0; failed = none }

-- The number of milliseconds behind a refusal.
pub read_answer-refused :
    (tiers : List Tier) (r : Bool × ℕ) (told : ℕ)
    → (r.0 ≡ false → 0 < r.1)
    → read_answer tiers r ≡ record { room = false; wait = told; failed = none }
    → (r ≡ (false, r.1)) × (r.1 * 1000000 ≡ told)
unfolding read_answer
read_answer-refused tiers (true, wait) told positive e = ground arith
read_answer-refused tiers (false, wait) told positive e = ground arith

module _ {S : Type 0} (redis : Commands S) (link : S → Link) (format_int : ℕ → Bytes) where
  pub run-answers :
      {A : Type 0} (script : S → A × S) (s : S)
      → link s ≡ answers
      → run redis link format_int script s ≡ (some (script s).0, (script s).1)
  unfolding run
  run-answers script s l = rw (l, run) refl

  pub allow-answers :
      (t : Tier) (ts : List Tier) (key : Bytes) (s : S)
      → link s ≡ answers
      → let ran = admit_one redis (slots format_int ratelimit_namespace key (t ∷ ts)) s in
        allow redis link format_int (t ∷ ts) key s ≡ (read_answer (t ∷ ts) ran.0, ran.1)
  unfolding allow
  allow-answers t ts key s l =
      ap (λ p. (answer_of redis link format_int (t ∷ ts) p.0, p.1))
        (run-answers (admit_one redis (slots format_int ratelimit_namespace key (t ∷ ts))) s l)

  pub admit_one-wait :
      (ts : List Slot) (s : S) → (admit_one redis ts s).0.0 ≡ false → 0 < (admit_one redis ts s).0.1
  unfolding admit_one admit_at
  admit_one-wait ts s e = ground arith

module _ {S : Type 0} (redis : Commands S) (laws : Laws redis) (link : S → Link)
    (format_int : ℕ → Bytes) (printed : (a b : ℕ) → format_int a ≡ format_int b → a ≡ b) where
  -- Over any run of a limiter on one key, whatever the clock does between two calls as long as it
  -- does not go back: at every moment, the hits admitted in the window of a tier that ends then
  -- are no more than the tier's limit. The window is at least a millisecond, and `FormatInt` never
  -- prints two numbers alike. A run starts without entries; its calls are the script's executions,
  -- and between two of them the keys of the tier change by expiry alone.
  pub limiter_bound :
      (tiers : List Tier) (key : Bytes) (i : ℕ) (t : Tier)
      → get_elem? tiers i ≡ some t
      → 0 < milliseconds t.window
      → (log : List ℕ) (now : ℕ) (s : S)
      → Run redis laws
          (hits_key format_int ratelimit_namespace (milliseconds t.window) key)
          (sequence_key format_int ratelimit_namespace (milliseconds t.window) key)
          (milliseconds t.window)
          (slots format_int ratelimit_namespace key tiers)
          log
          now
          s
      → (u : ℕ) → in_window (milliseconds t.window) u log ≤ t.limit
  limiter_bound tiers key i t is_tier positive log now s run u =
      Run-bound redis laws _ _ (milliseconds t.window) positive
        (slots format_int ratelimit_namespace key tiers)
        (slots-Agrees format_int printed ratelimit_namespace key t tiers) t.limit
        (slots-IsTier format_int printed ratelimit_namespace key tiers i t is_tier) log now s run u

  pub allow-refused :
      (t : Tier) (ts : List Tier) (key : Bytes) (s s1 : S) (told : ℕ)
      → link s ≡ answers
      → allow redis link format_int (t ∷ ts) key s
        ≡ (record { room = false; wait = told; failed = none }, s1)
      → (wait : ℕ) × (wait * 1000000 ≡ told)
        × (admit_one redis (slots format_int ratelimit_namespace key (t ∷ ts)) s
            ≡ ((false, wait), s1))
  allow-refused t ts key s s1 told l e =
      let tiers = t ∷ ts in
      let ran = admit_one redis (slots format_int ratelimit_namespace key tiers) s in
      let read = sym (allow-answers redis link format_int t ts key s l) ∙ e in
      let (is, ms) =
        read_answer-refused tiers ran.0 told
          (admit_one-wait redis link format_int (slots format_int ratelimit_namespace key tiers) s)
          (ap (λ p. p.0) read) in
      (ran.0.1, ms, cc)

  -- Where the connection answers both times: a caller that `Allow` refused, and that calls again
  -- once it has waited as long as it was told, is admitted, if meanwhile no other hit landed on
  -- its keys, and no tier had more hits than its limit, which is at least 1. `FormatInt` never
  -- prints two numbers alike.
  pub allow-waited :
      (t : Tier) (ts : List Tier) (key : Bytes) (s s1 s' : S) (told : ℕ)
      → link s ≡ answers
      → allow redis link format_int (t ∷ ts) key s
        ≡ (record { room = false; wait = told; failed = none }, s1)
      → now_of redis s * 1000000 + told ≤ now_of redis s' * 1000000
      → All (Quiet redis laws s s1 s') (slots format_int ratelimit_namespace key (t ∷ ts))
      → link s' ≡ answers
      → (allow redis link format_int (t ∷ ts) key s').0 ≡ has_room
  unfolding read_answer
  allow-waited t ts key s s1 s' told l e later quiet l' =
      let (wait, same, ran) = allow-refused t ts key s s1 told l e in
      let tiers = t ∷ ts in
      let admitted =
        admit_one-waited redis laws (slots format_int ratelimit_namespace key tiers)
          (slots-Consistent format_int printed ratelimit_namespace key tiers)
          (slots-AgreeAll format_int printed ratelimit_namespace key tiers tiers) wait s s1 s' ran
          (omega arith) quiet in
      ap (λ p. p.0) (allow-answers redis link format_int t ts key s' l')
      ∙ ap (read_answer tiers) admitted
