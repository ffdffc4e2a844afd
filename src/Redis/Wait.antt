-- ===== src/Redis/Wait.antt =====
-- The wait that backend/internal/redis/ratelimit.go's `admitOne` tells a refused caller is enough: when
-- no other hit lands on its keys, the tiers have room again once it is over.
use project_management.Redis.{
  Commands, Slot, before, retry_of, tier_wait, now_of, trim, admit_at, admit_one, count_wait,
}
use project_management.Redis.Laws.{Laws, Entry, above, first_score, keep}
use project_management.Redis.Entries.{alive, alive-keep_earlier, length-alive_later, above-before}
use project_management.Redis.Hits.{Agrees, alive_count, zrem-alive}
use project_management.Redis.Bound.{Passes, admit_one-refused, pass-alive_count}
use project_management.Redis.Window.{
  IsTier, trim-alive_count, trim-grows, trimmed-zcard, trimmed-first,
}
use project_management.Redis.Failures.{Consistent, count_wait-trim, read-count}
use project_management.Prelude.{
  ℕ, ◌+◌, ◌≤◌, ◌<◌, Bool, true, false, Option, List, [], ◌∷◌, Bytes, length, leb, ltb, ◌≡◌, ◌⊎◌,
  inl, inr, refl, sym, subst, ap, ◌∙◌, arith, All, All-map, Bool-cases, bytes_eq_iff, leb→le,
  ltb→lt,
}

pub tier_wait-tells :
    (now : ℕ) (t : Slot) (count : ℕ) (oldest : Option ℕ) (wait : ℕ)
    → (count < t.limit) ⊎ (retry_of now t.window oldest ≤ tier_wait now t count oldest wait)
tier_wait-tells now t count oldest wait = ground arith

pub length-keep : (p : Entry → Bool) (es : List Entry) → length (keep p es) ≤ length es
unfolding keep
length-keep p [] = omega arith
length-keep p (e ∷ es) = ground (arith, length-keep p es)

-- Once the oldest of the hits that count is out of the window, there is room.
pub alive-waited :
    (window now later limit : ℕ) (es counting : List Entry)
    → alive window now es ≡ counting
    → 1 ≤ limit
    → length counting ≤ limit
    → now + retry_of now window (first_score counting) ≤ later
    → length (alive window later es) < limit
unfolding keep
alive-waited window now later limit es [] e positive full waited =
    subst (λ l. length l < limit)
      (sym (ap (alive window later) e) ∙ alive-keep_earlier window now later (omega arith) es)
      positive
alive-waited window now later limit es (f ∷ rest) e positive full waited =
    let fewer = length-keep (above (before later window)) rest in
    subst (λ l. length l < limit)
      (sym (ap (alive window later) e) ∙ alive-keep_earlier window now later (omega arith) es)
      (rw (above-before window later f) (elim (Bool-cases (ltb later (f.score + window))) [
        | inl y ↦ absurd (let lt = ltb→lt later (f.score + window) y in omega arith)
        | inr n ↦ rw n (omega arith)
      ]))

-- Room in every tier is no wait.
pub count_wait-open :
    {S : Type 0} (redis : Commands S) (laws : Laws redis) (now : ℕ) (ts : List Slot) (s : S)
    → All (λ (t : Slot). length (alive t.window now (laws.entries s t.hits)) < t.limit) ts
    → count_wait redis now ts 0 s ≡ 0
unfolding count_wait
count_wait-open redis laws now [] s room = refl
count_wait-open redis laws now (t ∷ ts) s room =
    rw (read-count redis laws now t s)
      (elim (Bool-cases (leb t.limit (length (alive t.window now (laws.entries s t.hits))))) [
        | inl y ↦ absurd (
            let le = leb→le t.limit (length (alive t.window now (laws.entries s t.hits))) y in
            let r = room.0 in omega arith)
        | inr n ↦ rw n (count_wait-open redis laws now ts s room.1)
      ])

module _ {S : Type 0} (redis : Commands S) (laws : Laws redis) where
  module _ (hits seq : Bytes) (window : ℕ) where
    -- The wait is long enough for each full tier.
    pub trim-tells :
        (limit now : ℕ) (ts : List Slot)
        → All (Agrees hits seq window) ts
        → IsTier hits limit ts
        → (wait : ℕ) (s : S)
        → (length (alive window now (laws.entries s hits)) < limit)
          ⊎ (retry_of now window (first_score (alive window now (laws.entries s hits)))
              ≤ (trim redis now ts wait s).0)
    unfolding trim
    trim-tells limit now [] agree tier wait s = absurd tier
    trim-tells limit now (t ∷ ts) agree (inr tier) wait s =
        subst
          (λ l.
            (length l < limit)
            ⊎ (retry_of now window (first_score l) ≤ (trim redis now (t ∷ ts) wait s).0))
          (zrem-alive redis laws hits seq window now now (omega arith) t agree.0 s)
          (trim-tells limit now ts agree.1 tier _ _)
    trim-tells limit now (t ∷ ts) agree (inl (y, same)) wait s =
        let trimmed = redis.zremrangebyscore t.hits (before now t.window) s in
        let count = redis.zcard t.hits trimmed in
        let oldest = redis.zrange_first t.hits trimmed in
        let grows = trim-grows redis now ts (tier_wait now t count oldest wait) trimmed in
        let counted = trimmed-zcard redis laws now t s in
        let first = trimmed-first redis laws now t s in
        let key = (bytes_eq_iff t.hits hits).0 y in
        let key = sym ((bytes_eq_iff t.hits hits).0 y) in
        let long = sym (agree.0.same_window y) in
        elim (tier_wait-tells now t count oldest wait) [
          | inl lt ↦ inl (rw (key, long, sym same) (omega arith))
          | inr le ↦ inr (
              rw (key, long)
                (subst (λ o. retry_of now t.window o ≤ (trim redis now (t ∷ ts) wait s).0) first
                  (omega arith)))
        ]

  -- A tier that is not over its limit, on whose key no other hit lands from one state to another.
  pub record Quiet (s s1 s' : S) (t : Slot) : Type 0 where
    pub positive : 1 ≤ t.limit
    pub within : alive_count redis laws t.hits t.seq t.window (now_of redis s) s ≤ t.limit
    pub passes : Passes redis laws t.hits t.seq t.window (now_of redis s') s1 s'

  -- One tier has room again.
  pub Quiet-room :
      (ts : List Slot) (wait : ℕ) (s s1 s' : S) (t : Slot)
      → admit_one redis ts s ≡ ((false, wait), s1)
      → now_of redis s + wait ≤ now_of redis s'
      → IsTier t.hits t.limit ts
      → All (Agrees t.hits t.seq t.window) ts
      → Quiet s s1 s' t
      → length (alive t.window (now_of redis s') (laws.entries s' t.hits)) < t.limit
  unfolding alive_count
  Quiet-room ts wait s s1 s' t e later tier agree q =
      let now = now_of redis s in
      let es = laws.entries s t.hits in
      let ran = admit_one-refused redis laws t.hits t.seq t.window ts wait s s1 e in
      let passed =
        pass-alive_count redis laws t.hits t.seq t.window (now_of redis s') (now_of redis s') s1 s'
          (omega arith) q.passes in
      let trimmed =
        trim-alive_count redis laws t.hits t.seq t.window now (now_of redis s') (omega arith) ts
          agree 0 s in
      let same =
        passed
        ∙ subst
            (λ x.
              alive_count redis laws t.hits t.seq t.window (now_of redis s') x
              ≡ alive_count redis laws t.hits t.seq t.window (now_of redis s') s)
            ran.1 trimmed in
      let was : length (alive t.window (now_of redis s') es) < t.limit =
        elim (trim-tells t.hits t.seq t.window t.limit now ts agree tier 0 s) [
          | inl room ↦
              let fewer = length-alive_later t.window now (now_of redis s') (omega arith) es in
              omega arith
          | inr told ↦
              alive-waited t.window now (now_of redis s') t.limit es (alive t.window now es) refl
                q.positive q.within (omega (arith, ran.0))
        ] in
      subst (λ n. n < t.limit) (sym same) was

pub All-IsTier : (ts : List Slot) → All (λ (t : Slot). IsTier t.hits t.limit ts) ts
All-IsTier [] = tt
All-IsTier (t ∷ ts) = (
  inl ((bytes_eq_iff t.hits t.hits).1 refl, refl),
  All-map (λ (u : Slot). IsTier u.hits u.limit ts) (λ (u : Slot). IsTier u.hits u.limit (t ∷ ts))
      (λ u h. inr h) ts (All-IsTier ts),
)

module _ {S : Type 0} (redis : Commands S) (laws : Laws redis) where
  pub All-room :
      (ts us : List Slot) (wait : ℕ) (s s1 s' : S)
      → admit_one redis ts s ≡ ((false, wait), s1)
      → now_of redis s + wait ≤ now_of redis s'
      → All (λ (t : Slot). IsTier t.hits t.limit ts) us
      → All (λ (t : Slot). All (Agrees t.hits t.seq t.window) ts) us
      → All (Quiet redis laws s s1 s') us
      → All
          (λ (t : Slot).
            length (alive t.window (now_of redis s') (laws.entries s' t.hits)) < t.limit)
          us
  All-room ts [] wait s s1 s' e later tiers agree quiet = tt
  All-room ts (t ∷ us) wait s s1 s' e later tiers agree quiet = (
    Quiet-room redis laws ts wait s s1 s' t e later tiers.0 agree.0 quiet.0,
    All-room ts us wait s s1 s' e later tiers.1 agree.1 quiet.1,
  )

  -- A refused caller who waits as long as it was told is admitted when no other hit lands on the keys
  -- and no tier was over its limit.
  pub admit_one-waited :
      (ts : List Slot)
      → Consistent ts
      → All (λ (t : Slot). All (Agrees t.hits t.seq t.window) ts) ts
      → (wait : ℕ) (s s1 s' : S) → admit_one redis ts s ≡ ((false, wait), s1)
      → now_of redis s + wait ≤ now_of redis s'
      → All (Quiet redis laws s s1 s') ts
      → (admit_one redis ts s').0 ≡ (true, 0)
  unfolding admit_one admit_at
  admit_one-waited ts c agree wait s s1 s' e later quiet =
      let room = All-room ts ts wait s s1 s' e later (All-IsTier ts) agree quiet in
      let none_left =
        sym (count_wait-trim redis laws (now_of redis s') ts c 0 s')
        ∙ count_wait-open redis laws (now_of redis s') ts s' room in
      rw none_left refl
