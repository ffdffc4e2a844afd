-- ===== src/Redis/Hits.antt =====
-- Lemmas on one tier's key of hits, for the scripts of backend/internal/redis: what a trim and a
-- recorded hit do to what counts against the tier.
use project_management.Redis.{Commands, Slot, before, record_one}
use project_management.Redis.Laws.{Entry, Laws, above, keep, is_member, insert, at_key}
use project_management.Redis.Entries.{
  alive, alive-keep_earlier, length-alive-insert, length-alive-cons, All-keep, All-insert,
}
use project_management.Prelude.{
  ℕ, suc, ◌+◌, ◌≤◌, ◌<◌, true, false, not, List, [], ◌∷◌, Bytes, length, ltb, ◌≡◌, ◌⊎◌, inl, inr,
  refl, ap, arith, All, All-map, Bool-cases, bytes_eq, bytes_eq_iff, if◌then◌else◌,
}

-- The slots that name a key of hits agree on its window and its counter.
pub record Agrees (hits seq : Bytes) (window : ℕ) (t : Slot) : Type 0 where
  pub same_window : bytes_eq t.hits hits ≡ true → t.window ≡ window
  pub same_seq : bytes_eq t.hits hits ≡ true → t.seq ≡ seq

-- A member that the script would write now is a new one.
abbrev pub IsOld : ℕ → ℕ → Entry → Type 0
IsOld now n e = (e.moment < now) ⊎ (e.number ≤ n)

pub fresh_members :
    (now n : ℕ) (es : List Entry)
    → All (IsOld now n) es
    → keep (λ e. not (is_member (now, suc n) e)) es ≡ es
unfolding keep
fresh_members now n [] h = refl
fresh_members now n (e ∷ es) h = ground (arith, fresh_members now n es h.1)

pub IsOld-later : (now m n : ℕ) → m ≤ n → (e : Entry) → IsOld now m e → IsOld now n e
IsOld-later now m n h e old = elim old [ inl y ↦ inl y | inr y ↦ inr (omega arith) ]

module _ {S : Type 0} (redis : Commands S) (laws : Laws redis) (hits seq : Bytes) (window : ℕ) where
  -- How many hits count against the tier at a moment.
  unfoldable pub alive_count : ℕ → S → ℕ
  alive_count u s = length (alive window u (laws.entries s hits))

  pub zrem-alive :
      (now u : ℕ)
      → now ≤ u
      → (t : Slot) → Agrees hits seq window t
      → (s : S)
      → alive window u (laws.entries (redis.zremrangebyscore t.hits (before now t.window) s) hits)
        ≡ alive window u (laws.entries s hits)
  zrem-alive now u h t agrees s = elim (Bool-cases (bytes_eq t.hits hits)) [
    | inl y ↦
        rw (laws.zrem_entries t.hits hits (before now t.window) s, y, agrees.same_window y)
          (alive-keep_earlier window now u h (laws.entries s hits))
    | inr n ↦ rw (laws.zrem_entries t.hits hits (before now t.window) s, n) refl
  ]

  pub zrem-alive_count :
      (now u : ℕ)
      → now ≤ u
      → (t : Slot) → Agrees hits seq window t
      → (s : S)
      → alive_count u (redis.zremrangebyscore t.hits (before now t.window) s) ≡ alive_count u s
  unfolding alive_count
  zrem-alive_count now u h t agrees s = ap length (zrem-alive now u h t agrees s)

  -- Every member is older than the one that the script would write next.
  unfoldable pub Fresh : ℕ → S → Type 0
  Fresh now s = All (IsOld now (laws.counter s seq)) (laws.entries s hits)

  pub zrem-Fresh :
      (now : ℕ) (t : Slot) (s : S)
      → Fresh now s
      → Fresh now (redis.zremrangebyscore t.hits (before now t.window) s)
  unfolding Fresh
  zrem-Fresh now t s fresh = elim (Bool-cases (bytes_eq t.hits hits)) [
    | inl y ↦
        rw
          (
            laws.zrem_entries t.hits hits (before now t.window) s,
            y,
            laws.zrem_counter t.hits seq (before now t.window) s,
          )
          (All-keep (IsOld now (laws.counter s seq)) (above (before now t.window))
            (laws.entries s hits) fresh)
    | inr n ↦
        rw
          (
            laws.zrem_entries t.hits hits (before now t.window) s,
            n,
            laws.zrem_counter t.hits seq (before now t.window) s,
          )
          fresh
  ]

  -- The counter and the entries once a hit is recorded.
  pub record_one-counter :
      (now : ℕ) (t : Slot) (s : S)
      → laws.counter (record_one redis now t s) seq
        ≡ at_key seq t.seq (suc (laws.counter s seq)) (laws.counter s seq)
  unfolding record_one
  record_one-counter now t s =
      rw (laws.pexpire_counter, laws.pexpire_counter, laws.zadd_counter, laws.incr_counter) refl

  pub record_one-entries :
      (now : ℕ) (t : Slot) (s : S)
      → laws.entries (record_one redis now t s) hits
        ≡ at_key hits t.hits
            (insert
              (record { score = now; moment = now; number = suc (laws.counter s t.seq) })
              (keep
                (λ e. not (is_member (now, suc (laws.counter s t.seq)) e))
                (laws.entries s hits)))
            (laws.entries s hits)
  unfolding record_one
  record_one-entries now t s =
      rw
        (
          laws.pexpire_entries, laws.pexpire_entries, laws.zadd_entries, laws.incr_number,
          laws.incr_entries,
        )
        refl

  -- What a recorded hit adds to the key of the tier.
  pub record_one-named :
      (now : ℕ) (t : Slot)
      → Agrees hits seq window t
      → bytes_eq t.hits hits ≡ true
      → (s : S) → Fresh now s
      → laws.entries (record_one redis now t s) hits
        ≡ insert
            (record { score = now; moment = now; number = suc (laws.counter s seq) })
            (laws.entries s hits)
  unfolding Fresh
  record_one-named now t agrees y s fresh =
      rw
        (
          record_one-entries now t s,
          y,
          agrees.same_seq y,
          fresh_members now (laws.counter s seq) (laws.entries s hits) fresh,
        )
        refl

  pub record_one-other :
      (now : ℕ) (t : Slot)
      → bytes_eq t.hits hits ≡ false
      → (s : S) → laws.entries (record_one redis now t s) hits ≡ laws.entries s hits
  record_one-other now t n s = rw (record_one-entries now t s, n) refl

  pub counter-grows :
      (now : ℕ) (t : Slot) (s : S)
      → laws.counter s seq ≤ laws.counter (record_one redis now t s) seq
  counter-grows now t s = rw (record_one-counter now t s) (elim (Bool-cases (bytes_eq t.seq seq)) [
    | inl y ↦ rw y (omega arith)
    | inr n ↦ rw n (omega arith)
  ])

  pub counter-named :
      (now : ℕ) (t : Slot)
      → t.seq ≡ seq
      → (s : S) → laws.counter (record_one redis now t s) seq ≡ suc (laws.counter s seq)
  counter-named now t same s = rw (record_one-counter now t s, (bytes_eq_iff t.seq seq).1 same) refl

  pub record_one-Fresh :
      (now : ℕ) (t : Slot)
      → Agrees hits seq window t
      → (s : S) → Fresh now s
      → Fresh now (record_one redis now t s)
  unfolding Fresh
  record_one-Fresh now t agrees s fresh =
      let kept =
        All-map (IsOld now (laws.counter s seq))
          (IsOld now (laws.counter (record_one redis now t s) seq))
          (IsOld-later now (laws.counter s seq) (laws.counter (record_one redis now t s) seq)
            (counter-grows now t s))
          (laws.entries s hits) fresh in
      elim (Bool-cases (bytes_eq t.hits hits)) [
        | inl y ↦ rw (record_one-named now t agrees y s fresh) (
            All-insert (IsOld now (laws.counter (record_one redis now t s) seq))
              (record { score = now; moment = now; number = suc (laws.counter s seq) })
              (laws.entries s hits)
              (inr (rw (counter-named now t (agrees.same_seq y) s) (omega arith))) kept)
        | inr n ↦ rw (record_one-other now t n s) kept
      ]

  -- One more at every moment of the window that begins now.
  pub record_one-alive_named :
      (now u : ℕ) (t : Slot)
      → Agrees hits seq window t
      → bytes_eq t.hits hits ≡ true
      → (s : S) → Fresh now s
      → alive_count u (record_one redis now t s)
        ≡ (if ltb u (now + window) then suc (alive_count u s) else alive_count u s)
  unfolding alive_count
  record_one-alive_named now u t agrees y s fresh =
      rw
        (
          record_one-named now t agrees y s fresh,
          length-alive-insert window u,
          length-alive-cons window u,
        )
        refl

  pub record_one-alive_grows :
      (now u : ℕ) (t : Slot)
      → Agrees hits seq window t
      → (s : S) → Fresh now s
      → alive_count u s ≤ alive_count u (record_one redis now t s)
  unfolding alive_count
  record_one-alive_grows now u t agrees s fresh = elim (Bool-cases (bytes_eq t.hits hits)) [
    | inl y ↦ rw (record_one-alive_named now u t agrees y s fresh) (ground arith)
    | inr n ↦ rw (record_one-other now t n s) (omega arith)
  ]
