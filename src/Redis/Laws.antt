-- ===== src/Redis/Laws.antt =====
-- What the scripts rely on of Redis's commands, as documented: a sorted set is a list of members with
-- scores, a counter a number, and a key that is not there is empty or 0.
use project_management.Redis.{Commands}
use project_management.Prelude.{
  ℕ, suc, Bool, true, false, not, ◌&&◌, Option, none, some, List, [], ◌∷◌, Bytes, length, ltb, ◌==◌,
  ◌≡◌, bytes_eq, if◌then◌else◌,
}

-- A score and the two numbers of the member.
pub record Entry : Type 0 where
  pub score : ℕ
  pub moment : ℕ
  pub number : ℕ

-- Above a bound: every score is above one that is negative.
abbrev pub above : Option ℕ → Entry → Bool
above none e = true
above (some m) e = ltb m e.score

unfoldable pub keep : (Entry → Bool) → List Entry → List Entry
keep p [] = []
keep p (e ∷ es) = let rest = keep p es in if p e then e ∷ rest else rest

abbrev pub is_member : ℕ × ℕ → Entry → Bool
is_member (moment, number) e = (e.moment == moment) && (e.number == number)

-- In order of the scores.
unfoldable pub insert : Entry → List Entry → List Entry
insert e [] = e ∷ []
insert e (f ∷ fs) = let rest = insert e fs in if ltb e.score f.score then e ∷ f ∷ fs else f ∷ rest

abbrev pub first_score : List Entry → Option ℕ
first_score [] = none
first_score (e ∷ es) = some e.score

-- One key's value, changed if the key is the one that a command names.
abbrev pub at_key : {A : Type 0} → Bytes → Bytes → A → A → A
at_key k named changed kept = if bytes_eq named k then changed else kept

-- Whether a list of keys has a key.
unfoldable pub names : List Bytes → Bytes → Bool
names [] k = false
names (named ∷ rest) k = let others = names rest k in if bytes_eq named k then true else others

pub record Laws {S : Type 0} (redis : Commands S) : Type 0 where
  pub entries : S → Bytes → List Entry
  pub counter : S → Bytes → ℕ
  pub zrem_entries :
      (named k : Bytes) (max : Option ℕ) (s : S)
      → entries (redis.zremrangebyscore named max s) k
        ≡ at_key k named (keep (above max) (entries s k)) (entries s k)
  pub zrem_counter :
      (named k : Bytes) (max : Option ℕ) (s : S)
      → counter (redis.zremrangebyscore named max s) k ≡ counter s k
  pub zcard_lem : (k : Bytes) (s : S) → redis.zcard k s ≡ length (entries s k)
  pub first_lem : (k : Bytes) (s : S) → redis.zrange_first k s ≡ first_score (entries s k)
  pub zcount_lem :
      (k : Bytes) (min : Option ℕ) (s : S)
      → redis.zcount_above k min s ≡ length (keep (above min) (entries s k))
  pub first_above_lem :
      (k : Bytes) (min : Option ℕ) (s : S)
      → redis.zrange_first_above k min s ≡ first_score (keep (above min) (entries s k))
  pub incr_number : (k : Bytes) (s : S) → (redis.incr k s).0 ≡ suc (counter s k)
  pub incr_counter :
      (named k : Bytes) (s : S)
      → counter (redis.incr named s).1 k ≡ at_key k named (suc (counter s k)) (counter s k)
  pub incr_entries : (named k : Bytes) (s : S) → entries (redis.incr named s).1 k ≡ entries s k
  pub zadd_entries :
      (named k : Bytes) (score : ℕ) (member : ℕ × ℕ) (s : S)
      → entries (redis.zadd named score member s) k
        ≡ at_key k named
            (insert
              (record { score = score; moment = member.0; number = member.1 })
              (keep (λ e. not (is_member member e)) (entries s k)))
            (entries s k)
  pub zadd_counter :
      (named k : Bytes) (score : ℕ) (member : ℕ × ℕ) (s : S)
      → counter (redis.zadd named score member s) k ≡ counter s k
  pub pexpire_entries :
      (named k : Bytes) (ms : ℕ) (s : S) → entries (redis.pexpire named ms s) k ≡ entries s k
  pub pexpire_counter :
      (named k : Bytes) (ms : ℕ) (s : S) → counter (redis.pexpire named ms s) k ≡ counter s k
  pub del_entries :
      (keys : List Bytes) (k : Bytes) (s : S)
      → entries (redis.del keys s) k ≡ (if names keys k then [] else entries s k)
