-- ===== src/Identity/Password/Reading.antt =====
-- backend/internal/modules/identity/domain/password.go: a stored hash read back, a password checked
-- against it, and whether it is worth writing again. `fmt.Sscanf` and the number of processors are
-- parameters. Beside an answer stand the runs of Argon2 that it took.
use project_management.Identity.Base64.{decode as base64_url_decode}
use project_management.Identity.Failure.{Result, hash_unreadable, password_mismatch}
use project_management.Identity.Password.{
  PasswordCrypto, argon_memory_kib, argon_time, argon_threads, key_length, max_password_length,
}
use project_management.Prelude.Outcome.{ok, err, panic, ◌>>=◌}
use project_management.Prelude.{
  ℕ, ◌*◌, ◌/◌, Bool, true, not, ◌||◌, Option, none, some, List, [], ◌∷◌, map, Bytes, codes, length,
  ltb, ◌==◌, bytes_eq, if◌then◌else◌,
}

abbrev pub salt_length : ℕ
salt_length = 16

abbrev pub max_cost_factor : ℕ
max_cost_factor = 8

-- `fmt.Sscanf` with the formats `v=%d` and `m=%d,t=%d,p=%d`, into an int, and two uint32 and a uint8.
pub record Scanner : Type 0 where
  pub version : Bytes → Option ℕ
  pub costs : Bytes → Option (ℕ × (ℕ × ℕ))

-- What `decode` returns.
pub record Stored : Type 0 where
  pub memory_kib : ℕ
  pub passes : ℕ
  pub threads : ℕ
  pub salt : Bytes
  pub key : Bytes

-- One run of Argon2: the passes, the memory, the threads and the size of the key.
pub record Run : Type 0 where
  pub passes : ℕ
  pub memory_kib : ℕ
  pub threads : ℕ
  pub size : ℕ

-- A field with one more character in front.
abbrev pub with_char : ℕ → List Bytes → List Bytes
with_char c [] = (c ∷ []) ∷ []
with_char c (f ∷ fs) = (c ∷ f) ∷ fs

-- `strings.Split` by one character.
unfoldable pub split_at : ℕ → Bytes → List Bytes
split_at sep [] = [] ∷ []
split_at sep (c ∷ cs) =
    let rest = split_at sep cs in if c == sep then [] ∷ rest else with_char c rest

-- The character of the URL alphabet; '-' and '_' are of no use here.
abbrev pub url_char : ℕ → ℕ
url_char c =
    if c == b'+'
    then b'-'
    else if c == b'/'
    then b'_'
    else if c == b'-' || c == b'_'
    then b'.'
    else c

-- `base64.RawStdEncoding.DecodeString`.
unfoldable pub base64_std_decode : Bytes → Option Bytes
base64_std_decode s = base64_url_decode (map url_char s)

-- A field that must be there, or an unreadable hash.
abbrev pub readable : {A : Type 0} → Option A → Result A
readable none = err hash_unreadable
readable (some a) = ok a

abbrev pub holds : Bool → Result (Unit {0})
holds b = if b then ok tt else err hash_unreadable

module _ (crypto : PasswordCrypto) (scanner : Scanner) (cpus : ℕ) where
  -- With the four fields after the algorithm.
  unfoldable pub decode_fields : (version costs salt key : Bytes) → Result Stored
  decode_fields version costs salt key = do
    number ← readable (scanner.version version)
    known ← holds (number == crypto.version)
    (memory_kib, (passes, threads)) ← readable (scanner.costs costs)
    positive ← holds (not (memory_kib == 0 || passes == 0 || threads == 0))
    bounded ← holds (
        not (
          ltb (argon_memory_kib * max_cost_factor) memory_kib
          || ltb (argon_time * max_cost_factor) passes
          || ltb cpus threads))
    salt_bytes ← readable (base64_std_decode salt)
    key_bytes ← readable (base64_std_decode key)
    sized ← holds (
        not (
          ltb (length salt_bytes) salt_length
          || ltb (length key_bytes) (key_length / 2)
          || ltb (key_length * 2) (length key_bytes)))
    ok (record {
      memory_kib = memory_kib;
      passes = passes;
      threads = threads;
      salt = salt_bytes;
      key = key_bytes;
    })

  -- The split hash: six fields, the first one empty.
  unfoldable pub decode_split : List Bytes → Result Stored
  unfolding decode_fields
  decode_split (first ∷ algorithm ∷ version ∷ costs ∷ salt ∷ key ∷ []) = do
    empty ← holds (bytes_eq first [])
    argon ← holds (bytes_eq algorithm (codes "argon2id"))
    decode_fields version costs salt key
  decode_split _ = err hash_unreadable

  unfoldable pub decode : Bytes → Result Stored
  unfolding decode_split split_at
  decode encoded = decode_split (split_at b'$' encoded)

  -- With the hash read: the password is normalised as it was when it was hashed.
  unfoldable pub verify_stored : Stored → (plain : Bytes) → Result (Unit {0}) × List Run
  verify_stored stored plain =
      let normalised = crypto.nfkc plain in
      let size = length stored.key in
      if ltb max_password_length (length normalised)
      then (err password_mismatch, [])
      else if ltb size (key_length / 2) || ltb (key_length * 2) size
      then (err hash_unreadable, [])
      else (let got =
            crypto.id_key normalised stored.salt stored.passes stored.memory_kib stored.threads
              size in
          (
            if bytes_eq got stored.key then ok tt else err password_mismatch,
            record {
              passes = stored.passes;
              memory_kib = stored.memory_kib;
              threads = stored.threads;
              size = size;
            }
                ∷ [],
          ))

  abbrev pub verify_decoded : Result Stored → (plain : Bytes) → Result (Unit {0}) × List Run
  verify_decoded (ok stored) plain = verify_stored stored plain
  verify_decoded (err e) plain = (err e, [])
  verify_decoded panic plain = (panic, [])

  unfoldable pub verify_password : (encoded plain : Bytes) → Result (Unit {0}) × List Run
  verify_password encoded = verify_decoded (decode encoded)

  abbrev pub is_weaker : Result Stored → Bool
  is_weaker (ok s) =
      ltb s.memory_kib argon_memory_kib
      || ltb s.passes argon_time
      || not (s.threads == argon_threads)
      || not (length s.key == key_length)
  is_weaker (err e) = true
  is_weaker panic = true

  unfoldable pub needs_rehash : Bytes → Bool
  needs_rehash encoded = is_weaker (decode encoded)
