-- ===== src/Identity/Service/LoginGuard.antt =====
-- backend/internal/modules/identity/service/loginguard.go: three counters of failures stand before
-- the password check. What a counter keeps is its own: the guard sees the operations of
-- `FailureCounter`. SHA-256 is a parameter, and so is `strings.ToLower(strings.TrimSpace(_))`, which
-- goes by Unicode's tables. Durations are in nanoseconds and never negative here. Logging is left out.
pub mod Verdict
use project_management.Identity.Window.{second, hour}
use project_management.Prelude.{
  ℕ, ◌+◌, ◌*◌, ◌/◌, ◌%◌, Bool, not, Option, none, some, List, [], ◌∷◌, ◌++◌, Bytes, codes, take,
  ltb, if◌then◌else◌,
}

-- An error of the counter's store.
pub data CounterError : Type 0 where
  unavailable : CounterError

-- What `Check` answers: room or none, the wait, or an error.
pub record Answer : Type 0 where
  pub room : Bool
  pub wait : ℕ
  pub failed : Option CounterError

-- The interface, over the state of the store that the counters share.
pub record FailureCounter (S : Type 0) : Type 0 where
  pub check : Bytes → S → Answer × S
  pub record_failure : Bytes → S → Option CounterError × S
  pub reset : Bytes → S → Option CounterError × S

pub record Bucket : Type 0 where
  pub limit : ℕ
  pub window : ℕ

pub record LoginLimits : Type 0 where
  pub account : List Bucket
  pub address : List Bucket
  pub network : List Bucket

abbrev pub minute : ℕ
minute = 60 * second

abbrev pub default_login_limits : LoginLimits
default_login_limits = record {
  account = record { limit = 5; window = 15 * minute } ∷ record { limit = 20; window = hour } ∷ [];
  address =
      record { limit = 30; window = 10 * minute } ∷ record { limit = 200; window = 24 * hour } ∷ [];
  network =
      record { limit = 300; window = 10 * minute }
      ∷ record { limit = 2000; window = 24 * hour }
      ∷ [];
}

abbrev pub retry_after_unavailable : ℕ
retry_after_unavailable = 30 * second

pub record LoginAttempt : Type 0 where
  pub email : Bytes
  pub address : Bytes
  pub network : Bytes

pub record LoginGuard (S : Type 0) : Type 0 where
  pub account : FailureCounter S
  pub address : FailureCounter S
  pub network : FailureCounter S

-- The one error, with the wait, or neither.
pub data Decision : Type 0 where
  proceed : Decision
  too_many_attempts : (retry_after : ℕ) → Decision

abbrev pub hex_digit : ℕ → ℕ
hex_digit n = if ltb n 10 then n + b'0' else n + 87

abbrev pub hex : Bytes → Bytes
hex [] = []
hex (c ∷ cs) = hex_digit (c / 16) ∷ hex_digit (c % 16) ∷ hex cs

-- A counter and the key that it counts against; the name is for the log alone.
pub record GuardBucket (S : Type 0) : Type 0 where
  pub counter : FailureCounter S
  pub key : Bytes

-- The wait so far, with one more answer that has no error.
pub longer : ℕ → Answer → ℕ
longer longest a = if not a.room then (if ltb longest a.wait then a.wait else longest) else longest

pub decide : ℕ → Decision
decide longest = if ltb 0 longest then too_many_attempts longest else proceed

module _ {S : Type 0} where
  unfoldable pub check_buckets : ℕ → List (GuardBucket S) → S → Decision × S
  unfolding longer decide
  check_buckets longest [] s = (decide longest, s)
  check_buckets longest (b ∷ bs) s =
      let (a, s') = b.counter.check b.key s in
      elim a.failed [
        | some e ↦ (too_many_attempts retry_after_unavailable, s')
        | none ↦ check_buckets (longer longest a) bs s'
      ]

  pub record_buckets : List (GuardBucket S) → S → S
  record_buckets [] s = s
  record_buckets (b ∷ bs) s = record_buckets bs (b.counter.record_failure b.key s).1

module _ (sha256 fold : Bytes → Bytes) where
  unfoldable pub account_key : Bytes → Bytes
  account_key email = codes "account:" ++ hex (take 16 (sha256 (fold email)))

  unfoldable pub address_key : LoginAttempt → Bytes
  address_key attempt = codes "ip:" ++ attempt.address

  unfoldable pub network_key : LoginAttempt → Bytes
  network_key attempt = codes "net:" ++ attempt.network

  module _ {S : Type 0} where
    unfoldable pub buckets_for : LoginGuard S → LoginAttempt → List (GuardBucket S)
    unfolding account_key address_key network_key
    buckets_for g attempt =
        record { counter = g.account; key = account_key attempt.email }
        ∷ record { counter = g.address; key = address_key attempt }
        ∷ record { counter = g.network; key = network_key attempt }
        ∷ []

    unfoldable pub check : LoginGuard S → LoginAttempt → S → Decision × S
    unfolding check_buckets buckets_for
    check g attempt = check_buckets 0 (buckets_for g attempt)

    unfoldable pub record_failure : LoginGuard S → LoginAttempt → S → S
    unfolding record_buckets buckets_for
    record_failure g attempt = record_buckets (buckets_for g attempt)

    unfoldable pub succeeded : LoginGuard S → LoginAttempt → S → S
    succeeded g attempt s = (g.account.reset (account_key attempt.email) s).1
