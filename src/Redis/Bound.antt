-- ===== src/Redis/Bound.antt =====
-- What the limiter of backend/internal/redis/ratelimit.go holds over any sequence of calls: the runs
-- of a limiter on one key, and how many hits it admits within a window.
use project_management.Redis.{Commands, Slot, now_of, trim, admit_at, record_all, admit_one}
use project_management.Redis.Laws.{Laws, Entry}
use project_management.Redis.Entries.{alive, length-alive_later}
use project_management.Redis.Hits.{Agrees, alive_count, Fresh, IsOld}
use project_management.Redis.Window.{
  IsTier, trim-alive_count, trim-Fresh, trim-room, record_all-grows, record_all-Fresh,
  record_all-counts,
}
use project_management.Prelude.{
  ℕ, suc, ◌+◌, ◌≤◌, ◌<◌, true, false, ◌&&◌, List, [], ◌∷◌, Bytes, length, leb, ltb, ◌≡◌, ◌⊎◌, inl,
  inr, refl, sym, subst, arith, All, All-map, Bool-cases, ltb→lt, leb→le, if◌then◌else◌,
}

-- How many of the admitted hits fall in the window that ends at a moment.
unfoldable pub in_window : (window : ℕ) → ℕ → (log : List ℕ) → ℕ
in_window window u [] = 0
in_window window u (t ∷ ts) =
    let rest = in_window window u ts in if leb t u && ltb u (t + window) then suc rest else rest

module _ {S : Type 0} (redis : Commands S) (laws : Laws redis) (hits seq : Bytes) (window : ℕ) where
  -- What may happen to a key between two calls, up to a moment: nothing, or it expired, the hits
  -- once none of them counts and the counter in a later millisecond than the last hit.
  pub record Passes (now : ℕ) (s s' : S) : Type 0 where
    pub entries_kept :
        (laws.entries s' hits ≡ laws.entries s hits)
        ⊎ ((laws.entries s' hits ≡ []) × (alive window now (laws.entries s hits) ≡ []))
    pub counter_kept :
        (laws.counter s seq ≤ laws.counter s' seq)
        ⊎ All (λ (e : Entry). e.moment < now) (laws.entries s hits)

  -- The moments of the admitted hits, the newest first, the clock, and the state.
  pub data Run (ts : List Slot) : List ℕ → ℕ → S → Type 0 where
    start : (now : ℕ) (s : S) → laws.entries s hits ≡ [] → Run ts [] now s
    pass :
        (log : List ℕ) (now now' : ℕ) (s s' : S)
        → Run ts log now s
        → now ≤ now'
        → Passes now' s s'
        → Run ts log now' s'
    admitted :
        (log : List ℕ) (s s' : S)
        → Run ts log (now_of redis s) s
        → admit_one redis ts s ≡ ((true, 0), s')
        → Run ts (now_of redis s ∷ log) (now_of redis s) s'
    refused :
        (log : List ℕ) (wait : ℕ) (s s' : S)
        → Run ts log (now_of redis s) s
        → admit_one redis ts s ≡ ((false, wait), s')
        → Run ts log (now_of redis s) s'

  -- Every hit that counts is an entry that counts, and the clock is past all of them.
  pub record Tracks (log : List ℕ) (now : ℕ) (s : S) : Type 0 where
    pub past : All (λ t. t ≤ now) log
    pub counted :
        (u : ℕ) → now ≤ u → in_window window u log ≤ alive_count redis laws hits seq window u s
    pub fresh : Fresh redis laws hits seq window now s

pub in_window-later :
    (window now u : ℕ) (log : List ℕ)
    → All (λ t. t ≤ now) log
    → now ≤ u
    → in_window window u log ≤ in_window window now log
unfolding in_window
in_window-later window now u [] past h = omega arith
in_window-later window now u (t ∷ ts) past h =
    ground (arith, in_window-later window now u ts past.1 h)

pub past-later :
    (now now' : ℕ) (log : List ℕ) → now ≤ now' → All (λ t. t ≤ now) log → All (λ t. t ≤ now') log
past-later now now' [] h past = tt
past-later now now' (t ∷ ts) h past = (omega arith, past-later now now' ts h past.1)

module _ {S : Type 0} (redis : Commands S) (laws : Laws redis) (hits seq : Bytes) (window : ℕ) where
  -- A call's two outcomes, with what the loops did.
  pub admit_one-admitted :
      (ts : List Slot) (s s' : S)
      → admit_one redis ts s ≡ ((true, 0), s')
      → ((trim redis (now_of redis s) ts 0 s).0 ≡ 0)
        × (record_all redis (now_of redis s) ts (trim redis (now_of redis s) ts 0 s).1 ≡ s')
  unfolding admit_one admit_at
  admit_one-admitted ts s s' e = ground arith

  pub admit_one-refused :
      (ts : List Slot) (wait : ℕ) (s s' : S)
      → admit_one redis ts s ≡ ((false, wait), s')
      → ((trim redis (now_of redis s) ts 0 s).0 ≡ wait)
        × ((trim redis (now_of redis s) ts 0 s).1 ≡ s')
  unfolding admit_one admit_at
  admit_one-refused ts wait s s' e = ground arith

  pub pass-Fresh :
      (now now' : ℕ) (s s' : S)
      → now ≤ now'
      → Passes redis laws hits seq window now' s s'
      → Fresh redis laws hits seq window now s
      → Fresh redis laws hits seq window now' s'
  unfolding Fresh
  pass-Fresh now now' s s' h p fresh = elim p.entries_kept [
    | inr (gone, dead) ↦ rw gone tt
    | inl kept ↦ elim p.counter_kept [
      | inr older ↦ rw kept (
          All-map (λ e. e.moment < now') (IsOld now' (laws.counter s' seq)) (λ e lt. inl lt)
            (laws.entries s hits) older)
      | inl grows ↦ rw kept (
          All-map (IsOld now (laws.counter s seq)) (IsOld now' (laws.counter s' seq))
            (λ e old. elim old [ inl lt ↦ inl (omega arith) | inr le ↦ inr (omega arith) ])
            (laws.entries s hits) fresh)
    ]
  ]

  pub pass-alive_count :
      (now u : ℕ) (s s' : S)
      → now ≤ u
      → Passes redis laws hits seq window now s s'
      → alive_count redis laws hits seq window u s' ≡ alive_count redis laws hits seq window u s
  unfolding alive_count project_management.Redis.Laws.keep
  pass-alive_count now u s s' h p = elim p.entries_kept [
    | inl kept ↦ rw kept refl
    | inr (gone, dead) ↦
        let none_left : length (alive window now (laws.entries s hits)) ≡ 0 = rw dead refl in
        let later = length-alive_later window now u h (laws.entries s hits) in rw gone (omega arith)
  ]

  module _ (positive : 0 < window) (ts : List Slot) (agree : All (Agrees hits seq window) ts)
      (limit : ℕ) (tier : IsTier hits limit ts) where
    -- An admitted hit is counted as long as its window lasts.
    pub count_admitted :
        (u : ℕ) (log : List ℕ) (s : S)
        → now_of redis s ≤ u
        → in_window window u log ≤ alive_count redis laws hits seq window u s
        → Fresh redis laws hits seq window (now_of redis s) s
        → in_window window u (now_of redis s ∷ log)
          ≤ alive_count redis laws hits seq window u
              (record_all redis (now_of redis s) ts (trim redis (now_of redis s) ts 0 s).1)
    unfolding in_window
    count_admitted u log s le counted fresh =
        let now = now_of redis s in
        let trimmed = (trim redis now ts 0 s).1 in
        let trimmed_fresh = trim-Fresh redis laws hits seq window now ts 0 s fresh in
        let same = trim-alive_count redis laws hits seq window now u le ts agree 0 s in
        elim (Bool-cases (ltb u (now + window))) [
          | inl y ↦
              let more =
                record_all-counts redis laws hits seq window limit now u (ltb→lt u (now + window) y)
                  ts agree tier trimmed trimmed_fresh in
              ground arith
          | inr n ↦
              let grows =
                record_all-grows redis laws hits seq window now u ts agree trimmed trimmed_fresh in
              ground arith
        ]

    pub Run-Tracks :
        (log : List ℕ) (now : ℕ) (s : S)
        → Run redis laws hits seq window ts log now s
        → Tracks redis laws hits seq window log now s
    unfolding Fresh alive_count in_window
    Run-Tracks log now s (start now1 s1 empty) = record {
      past = tt;
      counted = λ u h. omega arith;
      fresh = rw empty tt;
    }
    Run-Tracks log now s (pass log1 now1 now2 s1 s2 run h p) =
        let i = Run-Tracks log1 now1 s1 run in
        record {
          past = past-later now1 now2 log1 h i.past;
          counted = λ u le.
              subst (λ n. in_window window u log1 ≤ n) (sym (pass-alive_count now2 u s1 s2 le p))
                (i.counted u (omega arith));
          fresh = pass-Fresh now1 now2 s1 s2 h p i.fresh;
        }
    Run-Tracks log now s (refused log1 wait s1 s2 run e) =
        let i = Run-Tracks log1 (now_of redis s1) s1 run in
        let e' = (admit_one-refused ts wait s1 s2 e).1 in
        record {
          past = i.past;
          counted = λ u le.
              subst (λ s3. in_window window u log1 ≤ alive_count redis laws hits seq window u s3) e'
                (subst (λ n. in_window window u log1 ≤ n)
                  (sym (
                    trim-alive_count redis laws hits seq window (now_of redis s1) u le ts agree 0
                      s1))
                  (i.counted u le));
          fresh =
              subst (Fresh redis laws hits seq window (now_of redis s1)) e'
                (trim-Fresh redis laws hits seq window (now_of redis s1) ts 0 s1 i.fresh);
        }
    Run-Tracks log now s (admitted log1 s1 s2 run e) =
        let i = Run-Tracks log1 (now_of redis s1) s1 run in
        let e' = admit_one-admitted ts s1 s2 e in
        let trimmed = (trim redis (now_of redis s1) ts 0 s1).1 in
        let trimmed_fresh =
          trim-Fresh redis laws hits seq window (now_of redis s1) ts 0 s1 i.fresh in
        record {
          past = (omega arith, i.past);
          counted = λ u le.
              subst
                (λ s3.
                  in_window window u (now_of redis s1 ∷ log1)
                  ≤ alive_count redis laws hits seq window u s3)
                e'.1 (count_admitted u log1 s1 le (i.counted u le) i.fresh);
          fresh = subst (Fresh redis laws hits seq window (now_of redis s1)) e'.1 (
              record_all-Fresh redis laws hits seq window (now_of redis s1) ts agree trimmed
                trimmed_fresh);
        }

    pub Run-bound :
        (log : List ℕ) (now : ℕ) (s : S)
        → Run redis laws hits seq window ts log now s
        → (u : ℕ) → in_window window u log ≤ limit
    unfolding in_window
    Run-bound log now s (start now1 s1 empty) u = omega arith
    Run-bound log now s (pass log1 now1 now2 s1 s2 run h p) u = Run-bound log1 now1 s1 run u
    Run-bound log now s (refused log1 wait s1 s2 run e) u =
        Run-bound log1 (now_of redis s1) s1 run u
    Run-bound log now s (admitted log1 s1 s2 run e) u =
        let before = Run-bound log1 (now_of redis s1) s1 run u in
        let i = Run-Tracks log1 (now_of redis s1) s1 run in
        let e' = admit_one-admitted ts s1 s2 e in
        let room =
          trim-room redis laws hits seq window limit (now_of redis s1) positive ts agree tier 0 s1
            e'.0 in
        let counted = i.counted (now_of redis s1) (omega arith) in
        elim (Bool-cases (leb (now_of redis s1) u)) [
          | inl y ↦
              let later =
                in_window-later window (now_of redis s1) u log1 i.past
                  (leb→le (now_of redis s1) u y) in
              ground arith
          | inr n ↦ rw n before
        ]
