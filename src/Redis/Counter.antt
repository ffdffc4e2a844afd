-- ===== src/Redis/Counter.antt =====
-- What the counter of failures of backend/internal/redis/failures.go promises to its callers, and the
-- login guard that backend/cmd/api/main.go builds from it.
use project_management.Redis.{
  Commands, Tier, Slot, Link, answers, now_of, admit_one, count_failures, count_wait,
}
use project_management.Redis.Laws.{Laws, names, keep}
use project_management.Redis.Entries.{alive}
use project_management.Redis.Limiter.{
  hits_key, milliseconds, slots, all_keys, failure_namespace, read_answer, run, answer_of, check,
  reset,
}
use project_management.Redis.Failures.{count_failures-admit_one}
use project_management.Redis.Wait.{count_wait-open}
use project_management.Redis.Keys.{slots-Consistent}
use project_management.Identity.Service.LoginGuard.{Answer}
use project_management.Prelude.{
  ℕ, ◌≤◌, ◌<◌, true, Option, none, List, [], ◌∷◌, map, Bytes, length, ◌≡◌, inl, inr, refl, ap,
  subst, ◌∙◌, arith, All, All-map, Option-cases, bytes_eq_iff,
}
use project_management.Redis.Limits.{has_room, run-answers}
use project_management.Identity.Service.LoginGuard as Guard
use project_management.Identity.Service.LoginGuard.{
  default_login_limits, FailureCounter, GuardBucket, longer, LoginAttempt, Decision, check_buckets,
  buckets_for,
}
use project_management.Redis.Limiter.{login_guard, tier_of, error_of}

module _ {S : Type 0} (redis : Commands S) (link : S → Link) (format_int : ℕ → Bytes) where
  pub run-reads :
      {A : Type 0} (ask : S → A) (s : S) → (run redis link format_int (λ s1. (ask s1, s1)) s).1 ≡ s
  unfolding run
  run-reads ask s = ground arith

  pub check-answers :
      (t : Tier) (ts : List Tier) (key : Bytes) (s : S)
      → link s ≡ answers
      → check redis link format_int (t ∷ ts) key s ≡ (
        read_answer
            (t ∷ ts)
            (count_failures redis (slots format_int failure_namespace key (t ∷ ts)) s),
        s,
      )
  unfolding check
  check-answers t ts key s l =
      ap (λ p. (answer_of redis link format_int (t ∷ ts) p.0, p.1))
        (run-answers redis link format_int
          (λ s1. (count_failures redis (slots format_int failure_namespace key (t ∷ ts)) s1, s1)) s
          l)

  pub check-reads :
      (tiers : List Tier) (key : Bytes) (s : S) → (check redis link format_int tiers key s).1 ≡ s
  unfolding check
  check-reads [] key s = refl
  check-reads (t ∷ ts) key s =
      run-reads (count_failures redis (slots format_int failure_namespace key (t ∷ ts))) s

  pub check_buckets-reads :
      (longest : ℕ) (buckets : List (GuardBucket S)) (s : S)
      → All
          (λ (b : GuardBucket S). (key : Bytes) (s1 : S) → (b.counter.check key s1).1 ≡ s1)
          buckets
      → (check_buckets longest buckets s).1 ≡ s
  unfolding check_buckets
  check_buckets-reads longest [] s reads = refl
  check_buckets-reads longest (b ∷ bs) s reads =
      elim (Option-cases (b.counter.check b.key s).0.failed) [
        | inl e ↦
            rw (check_buckets, e)
              (check_buckets-reads (longer longest (b.counter.check b.key s).0) bs
                  (b.counter.check b.key s).1 reads.1
                ∙ reads.0 b.key s)
        | inr (x, e) ↦ rw (check_buckets, e) (reads.0 b.key s)
      ]

  pub login_guard-reads :
      (sha256 fold : Bytes → Bytes) (attempt : LoginAttempt) (s : S)
      → (Guard.check sha256 fold (login_guard redis link format_int) attempt s).1 ≡ s
  unfolding Guard.check buckets_for login_guard
  login_guard-reads sha256 fold attempt s =
      check_buckets-reads 0 (buckets_for sha256 fold (login_guard redis link format_int) attempt) s
        (
          check-reads (map (tier_of redis link format_int) default_login_limits.account),
          (
            check-reads (map (tier_of redis link format_int) default_login_limits.address),
            (check-reads (map (tier_of redis link format_int) default_login_limits.network), tt),
          ),
        )

module _ {S : Type 0} (redis : Commands S) (laws : Laws redis) (link : S → Link)
    (format_int : ℕ → Bytes) (printed : (a b : ℕ) → format_int a ≡ format_int b → a ≡ b) where
  -- Where the connection answers: `Check`, which reads without trimming, changes nothing and
  -- answers as the limiter's script would on the same keys. `FormatInt` never prints two numbers
  -- alike.
  pub check-admit_one :
      (t : Tier) (ts : List Tier) (key : Bytes) (s : S)
      → link s ≡ answers
      → check redis link format_int (t ∷ ts) key s ≡ (
        read_answer
            (t ∷ ts)
            (admit_one redis (slots format_int failure_namespace key (t ∷ ts)) s).0,
        s,
      )
  check-admit_one t ts key s l =
      check-answers redis link format_int t ts key s l
      ∙ ap (λ r. (read_answer (t ∷ ts) r, s))
          (count_failures-admit_one redis laws (slots format_int failure_namespace key (t ∷ ts))
            (slots-Consistent format_int printed failure_namespace key (t ∷ ts)) s)

pub count_failures-room :
    {S : Type 0} (redis : Commands S) (ts : List Slot) (s : S)
    → count_wait redis (now_of redis s) ts 0 s ≡ 0
    → count_failures redis ts s ≡ (true, 0)
unfolding count_failures
count_failures-room redis ts s zero = rw zero refl

module _ (format_int : ℕ → Bytes) where
  -- `Reset` names the keys of all tiers.
  pub all_keys-named :
      (key : Bytes) (ts : List Tier)
      → All
          (λ (t : Tier).
            names
              (all_keys format_int failure_namespace key ts)
              (hits_key format_int failure_namespace (milliseconds t.window) key)
            ≡ true)
          ts
  unfolding all_keys names
  all_keys-named key [] = tt
  all_keys-named key (t ∷ ts) = (
    ground (
      arith,
      (bytes_eq_iff (hits_key format_int failure_namespace (milliseconds t.window) key)
            (hits_key format_int failure_namespace (milliseconds t.window) key)).1
          refl,
    ),
    All-map
        (λ (u : Tier).
          names (all_keys format_int failure_namespace key ts)
            (hits_key format_int failure_namespace (milliseconds u.window) key)
          ≡ true)
        (λ (u : Tier).
          names (all_keys format_int failure_namespace key (t ∷ ts))
            (hits_key format_int failure_namespace (milliseconds u.window) key)
          ≡ true)
        (λ u h. (ground (arith, h))) ts (all_keys-named key ts),
  )

module _ {S : Type 0} (redis : Commands S) (laws : Laws redis) (link : S → Link)
    (format_int : ℕ → Bytes) where
  pub reset_rooms :
      (key : Bytes) (all ts : List Tier) (now : ℕ) (s : S)
      → All (λ (t : Tier). 1 ≤ t.limit) ts
      → All
          (λ (t : Tier).
            names
              (all_keys format_int failure_namespace key all)
              (hits_key format_int failure_namespace (milliseconds t.window) key)
            ≡ true)
          ts
      → All
          (λ (t : Slot).
            length (
              alive t.window now
                (laws.entries (redis.del (all_keys format_int failure_namespace key all) s) t.hits))
            < t.limit)
          (slots format_int failure_namespace key ts)
  unfolding slots keep
  reset_rooms key all [] now s positive named = tt
  reset_rooms key all (t ∷ ts) now s positive named = (
    rw
        (
          laws.del_entries (all_keys format_int failure_namespace key all)
              (hits_key format_int failure_namespace (milliseconds t.window) key) s,
          named.0,
        )
        positive.0,
    reset_rooms key all ts now s positive.1 named.1,
  )

  pub reset-answers :
      (t : Tier) (ts : List Tier) (key : Bytes) (s : S)
      → link s ≡ answers
      → reset redis link format_int (t ∷ ts) key s
        ≡ (none, redis.del (all_keys format_int failure_namespace key (t ∷ ts)) s)
  unfolding reset
  reset-answers t ts key s l =
      ap (λ (p : Option ℕ × S). (error_of redis link format_int p.0, p.1))
        (run-answers redis link format_int
          (λ s1. (1, redis.del (all_keys format_int failure_namespace key (t ∷ ts)) s1)) s l)

  -- Where the connection answers both times and every limit is at least 1: `Reset` succeeds, and a
  -- check of the same key in the state that it leaves finds room.
  reset-check :
      (t : Tier) (ts : List Tier) (key : Bytes) (s : S)
      → All (λ (u : Tier). 1 ≤ u.limit) (t ∷ ts)
      → link s ≡ answers
      → link (reset redis link format_int (t ∷ ts) key s).1 ≡ answers
      → ((reset redis link format_int (t ∷ ts) key s).0 ≡ none)
        × ((check redis link format_int
              (t ∷ ts)
              key
              (reset redis link format_int (t ∷ ts) key s).1).0
            ≡ has_room)
  unfolding read_answer
  reset-check t ts key s positive l l' =
      let tiers = t ∷ ts in
      let did = reset-answers t ts key s l in
      let cleared = redis.del (all_keys format_int failure_namespace key tiers) s in
      let room =
        reset_rooms key tiers tiers (now_of redis cleared) s positive
          (all_keys-named format_int key tiers) in
      let zero =
        count_wait-open redis laws (now_of redis cleared)
          (slots format_int failure_namespace key tiers) cleared room in
      let asked =
        check-answers redis link format_int t ts key cleared
          (subst (λ (p : Option Guard.CounterError × S). link p.1 ≡ answers) did l') in
      (
        ap (λ p. p.0) did,
        ap (λ (p : Option Guard.CounterError × S). (check redis link format_int tiers key p.1).0)
              did
            ∙ ap (λ (p : Answer × S). p.0) asked
            ∙ ap (read_answer tiers) (
                count_failures-room redis (slots format_int failure_namespace key tiers) cleared
                  zero)
            ∙ refl,
      )
