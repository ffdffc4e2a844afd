-- ===== src/Redis/Limiter.antt =====
-- backend/internal/redis/ratelimit.go and failures.go: the limiter and the counter of failures that
-- callers hold, with the keys and arguments that they give the scripts and the answers that they read.
-- Windows are in nanoseconds outside the scripts. A script that answers gives two numbers, so the test
-- of their count is left out. Whether the connection answers is read off the state before a call.
use project_management.Redis.{
  Commands, Tier, Slot, Link, answers, lost_before, lost_after, admit_one, count_failures,
  record_failure,
}
use project_management.Identity.Service.LoginGuard.{
  Answer, CounterError, unavailable, FailureCounter, Bucket, LoginGuard, default_login_limits,
}
use project_management.Prelude.{
  ℕ, ◌*◌, ◌/◌, Bool, true, false, Option, none, some, List, [], ◌∷◌, ◌++◌, map, Bytes, codes, ltb,
  if◌then◌else◌,
}

abbrev pub milliseconds : ℕ → ℕ
milliseconds window = window / 1000000

abbrev pub ratelimit_namespace : Bytes
ratelimit_namespace = codes "ratelimit"

abbrev pub failure_namespace : Bytes
failure_namespace = codes "failures"

-- `longestWindow`.
pub longest_window : List Tier → ℕ
longest_window [] = 0
longest_window (t ∷ ts) =
    let rest = longest_window ts in if ltb rest t.window then t.window else rest

module _ (format_int : ℕ → Bytes) where
  unfoldable pub hits_key : Bytes → (window : ℕ) → Bytes → Bytes
  hits_key namespace window key =
      namespace ++ codes ":hits:" ++ format_int window ++ codes ":" ++ key

  unfoldable pub sequence_key : Bytes → (window : ℕ) → Bytes → Bytes
  sequence_key namespace window key =
      namespace ++ codes ":seq:" ++ format_int window ++ codes ":" ++ key

  -- The keys and arguments of one call, in the order of the tiers.
  abbrev pub slot : Bytes → Bytes → Tier → Slot
  slot namespace key t =
      let window = milliseconds t.window in
      record {
        hits = hits_key namespace window key;
        seq = sequence_key namespace window key;
        window = window;
        limit = t.limit;
      }

  unfoldable pub slots : Bytes → Bytes → List Tier → List Slot
  slots namespace key [] = []
  slots namespace key (t ∷ ts) = slot namespace key t ∷ slots namespace key ts

  -- The keys that `Reset` deletes.
  unfoldable pub all_keys : Bytes → Bytes → List Tier → List Bytes
  all_keys namespace key [] = []
  all_keys namespace key (t ∷ ts) =
      hits_key namespace (milliseconds t.window) key
      ∷ sequence_key namespace (milliseconds t.window) key
      ∷ all_keys namespace key ts

-- What the callers read off the script's two numbers.
unfoldable pub read_answer : List Tier → Bool × ℕ → Answer
unfolding longest_window
read_answer tiers (admitted, wait) =
    if admitted
    then record { room = true; wait = 0; failed = none }
    else if ltb 0 wait
    then record { room = false; wait = wait * 1000000; failed = none }
    else record { room = false; wait = longest_window tiers; failed = none }

abbrev pub no_answer : Answer
no_answer = record { room = false; wait = 0; failed = some unavailable }

module _ {S : Type 0} (redis : Commands S) (link : S → Link) (format_int : ℕ → Bytes) where
  -- A script that runs when the connection is lost may have run.
  unfoldable pub run : {A : Type 0} → (S → A × S) → S → Option A × S
  run script s = elim (link s) [
    | answers ↦ let (a, s') = script s in (some a, s')
    | lost_before ↦ (none, s)
    | lost_after ↦ (none, (script s).1)
  ]

  abbrev pub answer_of : List Tier → Option (Bool × ℕ) → Answer
  answer_of tiers none = no_answer
  answer_of tiers (some r) = read_answer tiers r

  -- `Allow`.
  unfoldable pub allow : List Tier → Bytes → S → Answer × S
  unfolding run slots
  allow [] key s = (record { room = true; wait = 0; failed = none }, s)
  allow (t ∷ ts) key s =
      let (r, s') = run (admit_one redis (slots format_int ratelimit_namespace key (t ∷ ts))) s in
      (answer_of (t ∷ ts) r, s')

  -- `Check`.
  unfoldable pub check : List Tier → Bytes → S → Answer × S
  unfolding run slots
  check [] key s = (record { room = true; wait = 0; failed = none }, s)
  check (t ∷ ts) key s =
      let ask = count_failures redis (slots format_int failure_namespace key (t ∷ ts)) in
      let (r, s') = run (λ s1. (ask s1, s1)) s in (answer_of (t ∷ ts) r, s')

  abbrev pub error_of : {A : Type 0} → Option A → Option CounterError
  error_of none = some unavailable
  error_of (some a) = none

  -- `Record`.
  unfoldable pub record_one_failure : List Tier → Bytes → S → Option CounterError × S
  unfolding run slots
  record_one_failure [] key s = (none, s)
  record_one_failure (t ∷ ts) key s =
      let note = record_failure redis (slots format_int failure_namespace key (t ∷ ts)) in
      let (r, s') = run {A = ℕ} (λ s1. (1, note s1)) s in (error_of r, s')

  -- `Reset`.
  unfoldable pub reset : List Tier → Bytes → S → Option CounterError × S
  unfolding run all_keys
  reset [] key s = (none, s)
  reset (t ∷ ts) key s =
      let forget = redis.del (all_keys format_int failure_namespace key (t ∷ ts)) in
      let (r, s') = run {A = ℕ} (λ s1. (1, forget s1)) s in (error_of r, s')

  -- `NewFailureCounter`.
  abbrev pub new_failure_counter : List Tier → FailureCounter S
  new_failure_counter tiers = record {
    check = check tiers;
    record_failure = record_one_failure tiers;
    reset = reset tiers;
  }

  abbrev pub tier_of : Bucket → Tier
  tier_of b = record { limit = b.limit; window = b.window }

  -- `loginGuard` of backend/cmd/api/main.go.
  unfoldable pub login_guard : LoginGuard S
  login_guard =
      let counter = λ (buckets : List Bucket). new_failure_counter (map tier_of buckets) in
      record {
        account = counter default_login_limits.account;
        address = counter default_login_limits.address;
        network = counter default_login_limits.network;
      }
