-- ===== src/Redis/Failures.antt =====
-- backend/internal/redis/failures.go's `countFailures` against `admitOne`: reading the failures without
-- trimming gives the answer that trimming would.
use project_management.Redis.{
  Commands, Slot, before, tier_wait, now_of, trim, admit_at, admit_one, count_wait, count_failures,
}
use project_management.Redis.Laws.{Laws, first_score}
use project_management.Redis.Entries.{alive}
use project_management.Redis.Hits.{Agrees, zrem-alive}
use project_management.Redis.Window.{trimmed-zcard, trimmed-first}
use project_management.Prelude.{ℕ, List, [], ◌∷◌, length, ◌≡◌, refl, sym, ap, ◌∙◌, arith, All}

-- Slots that name one key of hits agree on its window and its counter.
abbrev pub Consistent : List Slot → Type 0
Consistent [] = Unit
Consistent (t ∷ ts) = All (λ (u : Slot). Agrees u.hits u.seq u.window t) ts × Consistent ts

module _ {S : Type 0} (redis : Commands S) (laws : Laws redis) where
  -- What the script reads of a tier without trimming.
  pub read-count :
      (now : ℕ) (t : Slot) (s : S)
      → redis.zcount_above t.hits (before now t.window) s
        ≡ length (alive t.window now (laws.entries s t.hits))
  read-count now t s = laws.zcount_lem t.hits (before now t.window) s

  pub read-first :
      (now : ℕ) (t : Slot) (s : S)
      → redis.zrange_first_above t.hits (before now t.window) s
        ≡ first_score (alive t.window now (laws.entries s t.hits))
  read-first now t s = laws.first_above_lem t.hits (before now t.window) s

  -- Trimming one tier is not seen by the others.
  pub count_wait-trimmed :
      (now : ℕ) (t : Slot) (ts : List Slot)
      → All (λ (u : Slot). Agrees u.hits u.seq u.window t) ts
      → (wait : ℕ) (s : S)
      → count_wait redis now ts wait (redis.zremrangebyscore t.hits (before now t.window) s)
        ≡ count_wait redis now ts wait s
  unfolding count_wait
  count_wait-trimmed now t [] agree wait s = refl
  count_wait-trimmed now t (u ∷ us) agree wait s =
      let trimmed = redis.zremrangebyscore t.hits (before now t.window) s in
      let same = zrem-alive redis laws u.hits u.seq u.window now now (omega arith) t agree.0 s in
      count_wait-trimmed now t us agree.1
        (tier_wait now u (redis.zcount_above u.hits (before now u.window) trimmed)
          (redis.zrange_first_above u.hits (before now u.window) trimmed) wait)
        s
      ∙ rw
          (
            read-count now u s,
            read-first now u s,
            read-count now u trimmed,
            read-first now u trimmed,
            same,
          )
          refl

  -- A tier gives one wait, read with or without trimming.
  pub read-trimmed :
      (now : ℕ) (t : Slot) (wait : ℕ) (s : S)
      → let trimmed = redis.zremrangebyscore t.hits (before now t.window) s in
        tier_wait now t
          (redis.zcount_above t.hits (before now t.window) s)
          (redis.zrange_first_above t.hits (before now t.window) s)
          wait
        ≡ tier_wait now t (redis.zcard t.hits trimmed) (redis.zrange_first t.hits trimmed) wait
  read-trimmed now t wait s =
      rw
        (
          read-count now t s,
          read-first now t s,
          trimmed-zcard redis laws now t s,
          trimmed-first redis laws now t s,
        )
        refl

  pub count_wait-trim :
      (now : ℕ) (ts : List Slot)
      → Consistent ts
      → (wait : ℕ) (s : S) → count_wait redis now ts wait s ≡ (trim redis now ts wait s).0
  unfolding count_wait trim
  count_wait-trim now [] c wait s = refl
  count_wait-trim now (t ∷ ts) c wait s =
      let trimmed = redis.zremrangebyscore t.hits (before now t.window) s in
      let wait' =
        tier_wait now t (redis.zcard t.hits trimmed) (redis.zrange_first t.hits trimmed) wait in
      ap (λ w. count_wait redis now ts w s) (read-trimmed now t wait s)
      ∙ sym (count_wait-trimmed now t ts c.0 wait' s)
      ∙ count_wait-trim now ts c.1 wait' trimmed

  -- Reading alone gives the verdict and the wait that `admitOne` would give on the same keys.
  pub count_failures-admit_one :
      (ts : List Slot)
      → Consistent ts
      → (s : S) → count_failures redis ts s ≡ (admit_one redis ts s).0
  unfolding count_failures admit_one admit_at
  count_failures-admit_one ts c s = rw (count_wait-trim (now_of redis s) ts c 0 s) (ground arith)
