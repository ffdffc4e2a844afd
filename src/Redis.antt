-- ===== src/Redis.antt =====
-- backend/internal/redis/ratelimit.go and failures.go: the limits that count hits and failures over
-- windows that move with Redis's clock. Redis's commands are a parameter; its laws stand in Laws.
-- Limits and windows are not negative. A script runs at one moment of Redis's clock, in milliseconds.
pub mod Laws
pub mod Entries
pub mod Limiter
pub mod Hits
pub mod Window
pub mod Bound
pub mod Failures
pub mod Wait
pub mod Keys
pub mod Limits
pub mod Counter
pub mod Tests
use project_management.Identity.Service.LoginGuard.{Answer, CounterError, unavailable}
use project_management.Prelude.{
  ℕ, zero, suc, ◌+◌, ◌-◌, ◌*◌, ◌/◌, ◌%◌, Bool, true, false, Option, none, some, List, [], ◌∷◌, ◌++◌,
  map, Bytes, codes, leb, ltb, ◌==◌, if◌then◌else◌,
}

-- The commands that the scripts call, on the state of the server. A bound is `none` when it would be
-- below zero. The member `now-n` is given by its two numbers.
pub record Commands (S : Type 0) : Type 0 where
  pub time : S → ℕ × ℕ
  pub zremrangebyscore : Bytes → (max : Option ℕ) → S → S
  pub zcard : Bytes → S → ℕ
  pub zrange_first : Bytes → S → Option ℕ
  pub zcount_above : Bytes → (min : Option ℕ) → S → ℕ
  pub zrange_first_above : Bytes → (min : Option ℕ) → S → Option ℕ
  pub incr : Bytes → S → ℕ × S
  pub zadd : Bytes → (score : ℕ) → (member : ℕ × ℕ) → S → S
  pub pexpire : Bytes → (milliseconds : ℕ) → S → S
  pub del : List Bytes → S → S

-- A limit over a window in nanoseconds.
pub record Tier : Type 0 where
  pub limit : ℕ
  pub window : ℕ

-- A script's arguments for one tier, with the window in milliseconds.
pub record Slot : Type 0 where
  pub hits : Bytes
  pub seq : Bytes
  pub window : ℕ
  pub limit : ℕ

-- now - window.
abbrev pub before : ℕ → ℕ → Option ℕ
before now window = if leb window now then some (now - window) else none

-- What the caller has to wait for one full tier.
abbrev pub retry_of : ℕ → ℕ → Option ℕ → ℕ
retry_of now window none = window
retry_of now window (some oldest) = oldest + window - now

-- The longer of two waits.
abbrev pub longer : ℕ → ℕ → ℕ
longer wait retry = if ltb wait retry then retry else wait

-- The wait once one more tier is looked at: its count and its oldest entry.
abbrev pub tier_wait : ℕ → Slot → (count : ℕ) → (oldest : Option ℕ) → (wait : ℕ) → ℕ
tier_wait now t count oldest wait =
    if leb t.limit count then longer wait (retry_of now t.window oldest) else wait

-- Whether the script's connection answers, or is lost before it ran or after.
pub data Link : Type 0 where
  answers lost_before lost_after : Link

module _ {S : Type 0} (redis : Commands S) where
  unfoldable pub now_of : S → ℕ
  now_of s = let (seconds, micros) = redis.time s in seconds * 1000 + micros / 1000

  -- The first loop of `admitOne`.
  unfoldable pub trim : ℕ → List Slot → (wait : ℕ) → S → ℕ × S
  trim now [] wait s = (wait, s)
  trim now (t ∷ ts) wait s =
      let trimmed = redis.zremrangebyscore t.hits (before now t.window) s in
      trim now ts
        (tier_wait now t (redis.zcard t.hits trimmed) (redis.zrange_first t.hits trimmed) wait)
        trimmed

  -- One turn of the second loop.
  unfoldable pub record_one : ℕ → Slot → S → S
  record_one now t s =
      let (n, counted) = redis.incr t.seq s in
      let added = redis.zadd t.hits now (now, n) counted in
      redis.pexpire t.seq t.window (redis.pexpire t.hits t.window added)

  unfoldable pub record_all : ℕ → List Slot → S → S
  record_all now [] s = s
  record_all now (t ∷ ts) s = record_all now ts (record_one now t s)

  unfoldable pub admit_at : ℕ → List Slot → ℕ × S → (Bool × ℕ) × S
  unfolding record_all record_one
  admit_at now ts (wait, s) =
      if ltb 0 wait then ((false, wait), s) else ((true, 0), record_all now ts s)

  -- `admitOne`: whether the hit is admitted, and the wait.
  unfoldable pub admit_one : List Slot → S → (Bool × ℕ) × S
  unfolding now_of trim admit_at
  admit_one ts s = let now = now_of s in admit_at now ts (trim now ts 0 s)

  -- The loop of `countFailures`, which writes nothing.
  unfoldable pub count_wait : ℕ → List Slot → (wait : ℕ) → S → ℕ
  count_wait now [] wait s = wait
  count_wait now (t ∷ ts) wait s =
      let alive = before now t.window in
      count_wait now ts
        (tier_wait now t (redis.zcount_above t.hits alive s)
          (redis.zrange_first_above t.hits alive s) wait)
        s

  unfoldable pub count_failures : List Slot → S → Bool × ℕ
  unfolding now_of count_wait
  count_failures ts s =
      let wait = count_wait (now_of s) ts 0 s in if ltb 0 wait then (false, wait) else (true, 0)

  -- The loop of `recordFailure`.
  unfoldable pub record_failures : ℕ → List Slot → S → S
  unfolding record_one
  record_failures now [] s = s
  record_failures now (t ∷ ts) s =
      record_failures now ts
        (record_one now t (redis.zremrangebyscore t.hits (before now t.window) s))

  unfoldable pub record_failure : List Slot → S → S
  unfolding now_of record_failures
  record_failure ts s = record_failures (now_of s) ts s
