-- ===== src/Identity/Password.antt =====
-- backend/internal/modules/identity/domain/password.go: the length policy and the hash that is
-- written. NFKC normalisation and Argon2 are third-party code and parameters; the salt is what
-- `rand.Read` gave, or nothing. Reading a hash back is Reading's.
pub mod Reading
pub mod Fields
pub mod RoundTrip
use project_management.Identity.Base64.{encode as base64_url}
use project_management.Identity.Failure.{
  Result, password_too_long, password_too_short, random_failed,
}
use project_management.Identity.Utf8.{rune_count}
use project_management.Prelude.Outcome.{ok, err, ◌>>=◌}
use project_management.Prelude.{
  ℕ, zero, suc, ◌+◌, ◌*◌, ◌/◌, ◌%◌, Option, none, some, [], ◌∷◌, ◌++◌, map, Bytes, codes, length,
  ltb, ◌==◌, if◌then◌else◌,
}

abbrev pub argon_memory_kib : ℕ
argon_memory_kib = 19 * 1024

abbrev pub argon_time : ℕ
argon_time = 2

abbrev pub argon_threads : ℕ
argon_threads = 1

abbrev pub key_length : ℕ
key_length = 32

abbrev pub min_password_length : ℕ
min_password_length = 12

abbrev pub max_password_length : ℕ
max_password_length = 1024

-- golang.org/x/text and golang.org/x/crypto: NFKC, the version of Argon2, and its hash of the
-- password, the salt, the three costs and the length.
pub record PasswordCrypto : Type 0 where
  pub nfkc : Bytes → Bytes
  pub version : ℕ
  pub id_key : (plain salt : Bytes) → (time memory threads key_length : ℕ) → Bytes

-- `%d`, of a number with at most `digits` digits.
unfoldable pub decimal : ℕ → ℕ → Bytes
decimal zero n = []
decimal (suc digits) n =
    let high = decimal digits (n / 10) in
    if ltb n 10 then (n + b'0') ∷ [] else high ++ (n % 10 + b'0') ∷ []

-- '+' and '/' for '-' and '_'.
abbrev pub std_char : ℕ → ℕ
std_char c = if c == b'-' then b'+' else if c == b'_' then b'/' else c

-- `base64.RawStdEncoding`: '+' and '/' for '-' and '_'.
unfoldable pub base64_std : Bytes → Bytes
base64_std s = map std_char (base64_url s)

-- The PHC string; a uint32 has at most ten digits.
unfoldable pub encode : (version memory_kib passes threads : ℕ) → (salt key : Bytes) → Bytes
encode version memory_kib passes threads salt key =
    codes "$argon2id$v="
    ++ (decimal 10 version
        ++ (codes "$m="
            ++ (decimal 10 memory_kib
                ++ (codes ",t="
                    ++ (decimal 10 passes
                        ++ (codes ",p="
                            ++ (decimal 10 threads
                                ++ (codes "$"
                                    ++ (base64_std salt ++ (codes "$" ++ base64_std key))))))))))

module _ (crypto : PasswordCrypto) where
  unfoldable pub validate_password : Bytes → Result Bytes
  validate_password plain =
      let normalised = crypto.nfkc plain in
      if ltb max_password_length (length normalised)
      then err password_too_long
      else if ltb (rune_count normalised) min_password_length
      then err password_too_short
      else ok normalised

  unfoldable pub hash_password : Option Bytes → Bytes → Result Bytes
  unfolding validate_password encode
  hash_password salt_read plain = do
    normalised ← validate_password plain
    elim salt_read [
      | none ↦ err random_failed
      | some salt ↦
          let key =
            crypto.id_key normalised salt argon_time argon_memory_kib argon_threads key_length in
          ok (encode crypto.version argon_memory_kib argon_time argon_threads salt key)
    ]
