-- ===== src/Identity/GuardTests.antt =====
-- The theorems on the login guard at a concrete counter.
use project_management.Identity.Service.LoginGuard.Verdict.{Verdict, answers, check-Verdict}
use project_management.Identity.Service.LoginGuard.{
  FailureCounter, LoginAttempt, LoginGuard, buckets_for, check,
}
use project_management.Prelude.{none, Bytes, List, ◌∷◌, codes, length, ltb, []}

-- A store that lists the keys of all failures; more than four are too many.
abbrev pub counter : FailureCounter (List Bytes)
counter = record {
  check = λ key s. (record { room = ltb (length s) 5; wait = 60; failed = none }, s);
  record_failure = λ key s. (none, key ∷ s);
  reset = λ key s. (none, s);
}

abbrev pub guard : LoginGuard (List Bytes)
guard = record { account = counter; address = counter; network = counter }

abbrev same : Bytes → Bytes
same s = s

abbrev attempt : LoginAttempt
attempt = record { email = codes "a@b.c"; address = codes "10.0.0.1"; network = codes "10.0.0.0" }

check-Verdict_example :
    Verdict
      (answers (buckets_for same same guard attempt) (codes "net:10.0.0.0" ∷ []))
      (check same same guard attempt (codes "net:10.0.0.0" ∷ [])).0
check-Verdict_example = check-Verdict same same guard attempt (codes "net:10.0.0.0" ∷ [])
