-- ===== src/Redis/Tests.antt =====
-- The theorems on the limiter and the counter of failures at a concrete server: the sets, the counters
-- and a clock in seconds.
use project_management.Redis.{Commands, Tier, Link, answers, admit_one}
use project_management.Redis.Laws.{
  Laws, Entry, above, keep, is_member, insert, first_score, at_key, names,
}
use project_management.Redis.Limiter.{
  hits_key, slots, ratelimit_namespace, failure_namespace, read_answer, allow, check,
}
use project_management.Redis.Hits.{alive_count}
use project_management.Redis.Bound.{in_window, start, admitted, refused}
use project_management.Redis.Limits.{has_room, limiter_bound, allow-waited}
use project_management.Redis.Counter.{check-admit_one}
use project_management.Prelude.{
  ℕ, suc, ◌≤◌, not, List, [], ◌∷◌, Bytes, codes, length, ◌≡◌, inl, refl, ap, arith, bytes_eq,
  if◌then◌else◌,
}

pub record Server : Type 0 where
  pub seconds : ℕ
  pub sets : Bytes → List Entry
  pub numbers : Bytes → ℕ

abbrev pub with_sets : (Bytes → List Entry) → Server → Server
with_sets f s = record { seconds = s.seconds; sets = f; numbers = s.numbers }

abbrev pub server : Commands Server
server = record {
  time = λ s. (s.seconds, 0);
  zremrangebyscore =
      λ named bound s. with_sets (λ k. at_key k named (keep (above bound) (s.sets k)) (s.sets k)) s;
  zcard = λ k s. length (s.sets k);
  zrange_first = λ k s. first_score (s.sets k);
  zcount_above = λ k bound s. length (keep (above bound) (s.sets k));
  zrange_first_above = λ k bound s. first_score (keep (above bound) (s.sets k));
  incr = λ named s. (
    suc (s.numbers named),
    record {
      seconds = s.seconds;
      sets = s.sets;
      numbers = λ k. at_key k named (suc (s.numbers k)) (s.numbers k);
    },
  );
  zadd = λ named score member s.
      with_sets
        (λ k.
          at_key k named
            (insert (record { score = score; moment = member.0; number = member.1 })
              (keep (λ e. not (is_member member e)) (s.sets k)))
            (s.sets k))
        s;
  pexpire = λ named ms s. s;
  del = λ keys s. with_sets (λ k. if names keys k then [] else s.sets k) s;
}

abbrev server_laws : Laws server
server_laws = record {
  entries = λ s. s.sets;
  counter = λ s. s.numbers;
  zrem_entries = λ named k bound s. refl;
  zrem_counter = λ named k bound s. refl;
  zcard_lem = λ k s. refl;
  first_lem = λ k s. refl;
  zcount_lem = λ k bound s. refl;
  first_above_lem = λ k bound s. refl;
  incr_number = λ k s. refl;
  incr_counter = λ named k s. refl;
  incr_entries = λ named k s. refl;
  zadd_entries = λ named k score member s. refl;
  zadd_counter = λ named k score member s. refl;
  pexpire_entries = λ named k ms s. refl;
  pexpire_counter = λ named k ms s. refl;
  del_entries = λ keys k s. refl;
}

abbrev up : Server → Link
up s = answers

abbrev pub print : ℕ → Bytes
print n = n ∷ []

abbrev first_of : Bytes → ℕ
first_of [] = 0
first_of (x ∷ xs) = x

printed : (a b : ℕ) → print a ≡ print b → a ≡ b
printed a b e = ap first_of e

-- One hit a minute.
abbrev minutely : Tier
minutely = record { limit = 1; window = 60000000000 }

abbrev pub empty : Server
empty = record { seconds = 100; sets = λ k. []; numbers = λ k. 0 }

abbrev hit : Server
hit = (admit_one server (slots print ratelimit_namespace (codes "k") (minutely ∷ [])) empty).1

abbrev turned_away : Server
turned_away = (admit_one server (slots print ratelimit_namespace (codes "k") (minutely ∷ [])) hit).1

limiter_bound_example : in_window 60000 100500 (100000 ∷ []) ≤ 1
unfolding admit_one slots bytes_eq hits_key keep insert
limiter_bound_example =
    limiter_bound server server_laws up print printed (minutely ∷ []) (codes "k") 0 minutely refl
      (omega arith) (100000 ∷ []) 100000 turned_away
      (refused (100000 ∷ []) 60000 hit turned_away
        (admitted [] empty hit (start 100000 empty refl) refl) refl)
      100500

-- A minute after the hit.
abbrev later : Server
later = record { seconds = 160; sets = hit.sets; numbers = hit.numbers }

allow-waited_example : (allow server up print (minutely ∷ []) (codes "k") later).0 ≡ has_room
unfolding admit_one allow read_answer bytes_eq hits_key keep insert alive_count
allow-waited_example =
    allow-waited server server_laws up print printed minutely [] (codes "k") hit
      (allow server up print (minutely ∷ []) (codes "k") hit).1 later 60000000000 refl refl
      (omega arith)
      (
        record {
          positive = omega arith;
          within = omega arith;
          passes = record { entries_kept = inl refl; counter_kept = inl (omega arith) };
        },
        tt,
      )
      refl

check-admit_one_example : check server up print (minutely ∷ []) (codes "k") hit ≡ (
  read_answer
      (minutely ∷ [])
      (admit_one server (slots print failure_namespace (codes "k") (minutely ∷ [])) hit).0,
  hit,
)
check-admit_one_example =
    check-admit_one server server_laws up print printed minutely [] (codes "k") hit refl
