-- ===== src/Redis/Keys.antt =====
-- The keys of backend/internal/redis/ratelimit.go: windows of different lengths have different keys, so
-- the tiers of one limiter do not disturb each other. `strconv.FormatInt` is a parameter.
use project_management.Redis.{Slot, Tier}
use project_management.Redis.Limiter.{hits_key, sequence_key, milliseconds, slot, slots}
use project_management.Redis.Hits.{Agrees}
use project_management.Redis.Window.{IsTier}
use project_management.Redis.Failures.{Consistent}
use project_management.Prelude.{
  ℕ, zero, suc, true, some, List, [], ◌∷◌, ◌++◌, Bytes, codes, ◌≡◌, inr, refl, ap, arith, All,
  bytes_eq, bytes_eq_iff, append_left_cancel, append_right_cancel, get_elem?,
}

module _ (format_int : ℕ → Bytes) (printed : (a b : ℕ) → format_int a ≡ format_int b → a ≡ b) where
  pub hits_key-window :
      (namespace key : Bytes) (v w : ℕ)
      → hits_key format_int namespace v key ≡ hits_key format_int namespace w key
      → v ≡ w
  unfolding hits_key
  hits_key-window namespace key v w e =
      let front = namespace ++ codes ":hits:" in
      printed v w (
        append_left_cancel front (format_int v) (format_int w) (
          append_right_cancel (front ++ format_int v) (front ++ format_int w) (codes ":") (
            append_right_cancel (front ++ format_int v ++ codes ":")
              (front ++ format_int w ++ codes ":") key e)))

  pub slot-Agrees :
      (namespace key : Bytes) (t u : Tier)
      → Agrees
          (slot format_int namespace key t).hits
          (slot format_int namespace key t).seq
          (slot format_int namespace key t).window
          (slot format_int namespace key u)
  slot-Agrees namespace key t u =
      let same : bytes_eq (slot format_int namespace key u).hits
              (slot format_int namespace key t).hits
            ≡ true
          → milliseconds u.window ≡ milliseconds t.window =
        λ e. hits_key-window namespace key (milliseconds u.window) (milliseconds t.window) (
          (bytes_eq_iff (slot format_int namespace key u).hits
              (slot format_int namespace key t).hits).0
            e) in
      record {
        same_window = same;
        same_seq = λ e. ap (λ w. sequence_key format_int namespace w key) (same e);
      }

  pub slots-Agrees :
      (namespace key : Bytes) (t : Tier) (ts : List Tier)
      → All
          (Agrees
            (slot format_int namespace key t).hits
            (slot format_int namespace key t).seq
            (slot format_int namespace key t).window)
          (slots format_int namespace key ts)
  unfolding slots
  slots-Agrees namespace key t [] = tt
  slots-Agrees namespace key t (u ∷ us) =
      (slot-Agrees namespace key t u, slots-Agrees namespace key t us)

  pub slots-Agree_with :
      (namespace key : Bytes) (t : Tier) (us : List Tier)
      → All
          (λ (u : Slot). Agrees u.hits u.seq u.window (slot format_int namespace key t))
          (slots format_int namespace key us)
  unfolding slots
  slots-Agree_with namespace key t [] = tt
  slots-Agree_with namespace key t (u ∷ us) =
      (slot-Agrees namespace key u t, slots-Agree_with namespace key t us)

  pub slots-Consistent :
      (namespace key : Bytes) (ts : List Tier) → Consistent (slots format_int namespace key ts)
  unfolding slots
  slots-Consistent namespace key [] = tt
  slots-Consistent namespace key (t ∷ ts) =
      (slots-Agree_with namespace key t ts, slots-Consistent namespace key ts)

  pub slots-IsTier :
      (namespace key : Bytes) (ts : List Tier) (i : ℕ) (t : Tier)
      → get_elem? ts i ≡ some t
      → IsTier (slot format_int namespace key t).hits t.limit (slots format_int namespace key ts)
  unfolding slots
  slots-IsTier namespace key [] i t e = absurd (ground arith)
  slots-IsTier namespace key (u ∷ us) zero t e = ground (
    arith,
    (bytes_eq_iff (slot format_int namespace key u).hits (slot format_int namespace key u).hits).1
        refl,
  )
  slots-IsTier namespace key (u ∷ us) (suc i) t e = inr (slots-IsTier namespace key us i t e)

  pub slots-AgreeAll :
      (namespace key : Bytes) (ts us : List Tier)
      → All
          (λ (t : Slot). All (Agrees t.hits t.seq t.window) (slots format_int namespace key us))
          (slots format_int namespace key ts)
  unfolding slots
  slots-AgreeAll namespace key [] us = tt
  slots-AgreeAll namespace key (t ∷ ts) us =
      (slots-Agrees namespace key t us, slots-AgreeAll namespace key ts us)
