-- ===== src/Redis/Window.antt =====
-- Lemmas on one tier's key of hits through the two loops of backend/internal/redis/ratelimit.go's
-- `admitOne`: trimming changes nothing that counts, an admitted hit found room and counts once more.
use project_management.Redis.{
  Commands, Slot, before, retry_of, tier_wait, trim, record_one, record_all,
}
use project_management.Redis.Laws.{Laws, first_score}
use project_management.Redis.Entries.{alive, retry-positive}
use project_management.Redis.Hits.{
  Agrees, alive_count, Fresh, zrem-alive_count, zrem-Fresh, record_one-Fresh,
  record_one-alive_named, record_one-alive_grows,
}
use project_management.Prelude.{
  ℕ, ◌+◌, ◌≤◌, ◌<◌, true, Option, List, [], ◌∷◌, Bytes, length, ◌≡◌, ◌⊎◌, inl, inr, refl, subst,
  arith, All, bytes_eq, bytes_eq_iff, ◌∙◌,
}

-- One of the slots is the tier on this key, with this limit.
abbrev pub IsTier : (hits : Bytes) (limit : ℕ) → List Slot → Type 0
IsTier hits limit [] = ⊥
IsTier hits limit (t ∷ ts) =
    ((bytes_eq t.hits hits ≡ true) × (t.limit ≡ limit)) ⊎ IsTier hits limit ts

pub tier_wait-grows :
    (now : ℕ) (t : Slot) (count : ℕ) (oldest : Option ℕ) (wait : ℕ)
    → wait ≤ tier_wait now t count oldest wait
tier_wait-grows now t count oldest wait = ground arith

pub tier_wait-room :
    (now : ℕ) (t : Slot) (count : ℕ) (oldest : Option ℕ) (wait : ℕ)
    → 0 < retry_of now t.window oldest
    → tier_wait now t count oldest wait ≡ 0
    → count < t.limit
tier_wait-room now t count oldest wait positive e = ground arith

module _ {S : Type 0} (redis : Commands S) where
  -- The wait never shrinks.
  pub trim-grows :
      (now : ℕ) (ts : List Slot) (wait : ℕ) (s : S) → wait ≤ (trim redis now ts wait s).0
  unfolding trim
  trim-grows now [] wait s = omega arith
  trim-grows now (t ∷ ts) wait s =
      let trimmed = redis.zremrangebyscore t.hits (before now t.window) s in
      let wait' =
        tier_wait now t (redis.zcard t.hits trimmed) (redis.zrange_first t.hits trimmed) wait in
      let one =
        tier_wait-grows now t (redis.zcard t.hits trimmed) (redis.zrange_first t.hits trimmed)
          wait in
      let rest = trim-grows now ts wait' trimmed in omega arith

  -- What the script reads of a key that it has just trimmed.
  pub trimmed-entries :
      (laws : Laws redis) (now : ℕ) (t : Slot) (s : S)
      → laws.entries (redis.zremrangebyscore t.hits (before now t.window) s) t.hits
        ≡ alive t.window now (laws.entries s t.hits)
  trimmed-entries laws now t s =
      rw
        (
          laws.zrem_entries t.hits t.hits (before now t.window) s,
          (bytes_eq_iff t.hits t.hits).1 refl,
        )
        refl

  pub trimmed-zcard :
      (laws : Laws redis) (now : ℕ) (t : Slot) (s : S)
      → redis.zcard t.hits (redis.zremrangebyscore t.hits (before now t.window) s)
        ≡ length (alive t.window now (laws.entries s t.hits))
  trimmed-zcard laws now t s = rw (laws.zcard_lem, trimmed-entries laws now t s) refl

  pub trimmed-first :
      (laws : Laws redis) (now : ℕ) (t : Slot) (s : S)
      → redis.zrange_first t.hits (redis.zremrangebyscore t.hits (before now t.window) s)
        ≡ first_score (alive t.window now (laws.entries s t.hits))
  trimmed-first laws now t s = rw (laws.first_lem, trimmed-entries laws now t s) refl

  module _ (laws : Laws redis) (hits seq : Bytes) (window : ℕ) where
    pub trim-alive_count :
        (now u : ℕ)
        → now ≤ u
        → (ts : List Slot) → All (Agrees hits seq window) ts
        → (wait : ℕ) (s : S)
        → alive_count redis laws hits seq window u (trim redis now ts wait s).1
          ≡ alive_count redis laws hits seq window u s
    unfolding trim
    trim-alive_count now u h [] agree wait s = refl
    trim-alive_count now u h (t ∷ ts) agree wait s =
        trim-alive_count now u h ts agree.1 _ _
        ∙ zrem-alive_count redis laws hits seq window now u h t agree.0 s

    pub trim-Fresh :
        (now : ℕ) (ts : List Slot)
        → (wait : ℕ) (s : S) → Fresh redis laws hits seq window now s
        → Fresh redis laws hits seq window now (trim redis now ts wait s).1
    unfolding trim
    trim-Fresh now [] wait s fresh = fresh
    trim-Fresh now (t ∷ ts) wait s fresh =
        trim-Fresh now ts _ _ (zrem-Fresh redis laws hits seq window now t s fresh)

    -- No wait at the end means that the tier had room.
    pub named-alive_count :
        (now : ℕ) (t : Slot)
        → Agrees hits seq window t
        → bytes_eq t.hits hits ≡ true
        → (s : S)
        → length (alive t.window now (laws.entries s t.hits))
          ≡ alive_count redis laws hits seq window now s
    unfolding alive_count
    named-alive_count now t agrees y s =
        rw ((bytes_eq_iff t.hits hits).0 y, agrees.same_window y) refl

    -- No wait at the end means that the tier had room.
    pub trim-room :
        (limit now : ℕ)
        → 0 < window
        → (ts : List Slot) → All (Agrees hits seq window) ts
        → IsTier hits limit ts
        → (wait : ℕ) (s : S) → (trim redis now ts wait s).0 ≡ 0
        → alive_count redis laws hits seq window now s < limit
    unfolding trim
    trim-room limit now positive [] agree tier wait s e = absurd tier
    trim-room limit now positive (t ∷ ts) agree (inr tier) wait s e =
        subst (λ n. n < limit)
          (zrem-alive_count redis laws hits seq window now now (omega arith) t agree.0 s)
          (trim-room limit now positive ts agree.1 tier _ _ e)
    trim-room limit now positive (t ∷ ts) agree (inl (y, same)) wait s e =
        let trimmed = redis.zremrangebyscore t.hits (before now t.window) s in
        let count = redis.zcard t.hits trimmed in
        let oldest = redis.zrange_first t.hits trimmed in
        let grows = trim-grows now ts (tier_wait now t count oldest wait) trimmed in
        let retry : 0 < retry_of now t.window oldest = rw (trimmed-first laws now t s) (
          retry-positive now t.window (rw (agree.0.same_window y) positive)
            (laws.entries s t.hits)) in
        let room = tier_wait-room now t count oldest wait retry (omega arith) in
        let counted = trimmed-zcard laws now t s in
        let named = named-alive_count now t agree.0 y s in omega arith

    pub record_all-grows :
        (now u : ℕ) (ts : List Slot)
        → All (Agrees hits seq window) ts
        → (s : S) → Fresh redis laws hits seq window now s
        → alive_count redis laws hits seq window u s
          ≤ alive_count redis laws hits seq window u (record_all redis now ts s)
    unfolding record_all
    record_all-grows now u [] agree s fresh = omega arith
    record_all-grows now u (t ∷ ts) agree s fresh =
        let one = record_one-alive_grows redis laws hits seq window now u t agree.0 s fresh in
        let rest =
          record_all-grows now u ts agree.1 (record_one redis now t s)
            (record_one-Fresh redis laws hits seq window now t agree.0 s fresh) in
        omega arith

    pub record_all-Fresh :
        (now : ℕ) (ts : List Slot)
        → All (Agrees hits seq window) ts
        → (s : S) → Fresh redis laws hits seq window now s
        → Fresh redis laws hits seq window now (record_all redis now ts s)
    unfolding record_all
    record_all-Fresh now [] agree s fresh = fresh
    record_all-Fresh now (t ∷ ts) agree s fresh =
        record_all-Fresh now ts agree.1 (record_one redis now t s)
          (record_one-Fresh redis laws hits seq window now t agree.0 s fresh)

    pub record_all-counts :
        (limit now u : ℕ)
        → u < now + window
        → (ts : List Slot) → All (Agrees hits seq window) ts
        → IsTier hits limit ts
        → (s : S) → Fresh redis laws hits seq window now s
        → alive_count redis laws hits seq window u s
          < alive_count redis laws hits seq window u (record_all redis now ts s)
    unfolding record_all
    record_all-counts limit now u h [] agree tier s fresh = absurd tier
    record_all-counts limit now u h (t ∷ ts) agree (inr tier) s fresh =
        let one = record_one-alive_grows redis laws hits seq window now u t agree.0 s fresh in
        let rest =
          record_all-counts limit now u h ts agree.1 tier (record_one redis now t s)
            (record_one-Fresh redis laws hits seq window now t agree.0 s fresh) in
        omega arith
    record_all-counts limit now u h (t ∷ ts) agree (inl (y, same)) s fresh =
        let one = record_one-alive_named redis laws hits seq window now u t agree.0 y s fresh in
        let rest =
          record_all-grows now u ts agree.1 (record_one redis now t s)
            (record_one-Fresh redis laws hits seq window now t agree.0 s fresh) in
        (ground arith)
