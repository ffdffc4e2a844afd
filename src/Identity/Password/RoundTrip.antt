-- ===== src/Identity/Password/RoundTrip.antt =====
-- A hash that `HashPassword` wrote is read back as it was written, and lets the same password in.
use project_management.Identity.Base64.{AreBytes}
use project_management.Identity.Failure.{Result, password_mismatch}
use project_management.Identity.Password.{
  PasswordCrypto, argon_memory_kib, argon_time, argon_threads, key_length, max_password_length,
  base64_std, encode, validate_password, hash_password,
}
use project_management.Identity.Password.Reading.{
  Scanner, Stored, salt_length, decode_fields, decode_split, decode, verify_stored, verify_password,
  needs_rehash,
}
use project_management.Prelude.Outcome.{ok, err}
use project_management.Prelude.{
  ℕ, ◌≤◌, Bool, true, false, some, Bytes, length, ltb, ◌≡◌, inl, inr, refl, sym, ◌∙◌, arith,
  Bool-cases, bytes_eq, bytes_eq_iff, ==_iff, if◌then◌else◌,
}
use project_management.Identity.Password.Fields.{
  version_field, costs_field, split_at-encode, base64_std_decode-base64_std,
}

-- What a check answers, of whether the password is too long and the keys agree.
abbrev pub verdict : (long same : Bool) → Result (Unit {0})
verdict long same =
    if long then err password_mismatch else if same then ok tt else err password_mismatch

verdict_ok : (long same : Bool) → verdict long same ≡ ok tt → same ≡ true
verdict_ok long same h = ground arith

leb_not_ltb : (a b : ℕ) → a ≤ b → ltb b a ≡ false
leb_not_ltb a b h = ground arith

-- `fmt.Sscanf` reads what `fmt.Sprintf` printed with the same formats, for the numbers in force.
pub record Scans (crypto : PasswordCrypto) (scanner : Scanner) : Type 0 where
  pub version_read : scanner.version (version_field crypto.version) ≡ some crypto.version
  pub costs_read :
      scanner.costs (costs_field argon_memory_kib argon_time argon_threads)
      ≡ some (argon_memory_kib, (argon_time, argon_threads))

-- What the application writes, with a salt and a key.
abbrev pub stored_now : (salt key : Bytes) → Stored
stored_now salt key = record {
  memory_kib = argon_memory_kib;
  passes = argon_time;
  threads = argon_threads;
  salt = salt;
  key = key;
}

abbrev pub encode_now : PasswordCrypto → (salt key : Bytes) → Bytes
encode_now crypto salt key =
    encode crypto.version argon_memory_kib argon_time argon_threads salt key

-- Argon2 gives as many bytes as it is asked for.
pub record Sized (crypto : PasswordCrypto) : Type 0 where
  pub size_asked :
      (plain salt : Bytes) (passes memory_kib threads size : ℕ)
      → length (crypto.id_key plain salt passes memory_kib threads size) ≡ size
  pub bytes_given :
      (plain salt : Bytes) (passes memory_kib threads size : ℕ)
      → AreBytes (crypto.id_key plain salt passes memory_kib threads size)

-- The key that the application derives from a password now.
abbrev pub key_now : PasswordCrypto → (plain salt : Bytes) → Bytes
key_now crypto plain salt =
    crypto.id_key (crypto.nfkc plain) salt argon_time argon_memory_kib argon_threads key_length

module _ (crypto : PasswordCrypto) (scanner : Scanner) (cpus : ℕ) (scans : Scans crypto scanner)
    (running : 1 ≤ cpus) where
  decode_fields-written :
      (salt key : Bytes)
      → AreBytes salt
      → AreBytes key
      → salt_length ≤ length salt
      → length key ≡ key_length
      → decode_fields crypto scanner cpus
          (version_field crypto.version)
          (costs_field argon_memory_kib argon_time argon_threads)
          (base64_std salt)
          (base64_std key)
        ≡ ok (stored_now salt key)
  unfolding decode_fields
  decode_fields-written salt key hs hk enough size =
      rw
        (
          scans.version_read,
          scans.costs_read,
          base64_std_decode-base64_std salt hs,
          base64_std_decode-base64_std key hk,
          size,
        )
        (rw
          (
            (==_iff crypto.version crypto.version).1 refl,
            leb_not_ltb argon_threads cpus running,
            leb_not_ltb salt_length (length salt) enough,
          )
          refl)

  pub decode-encode_now :
      (salt key : Bytes)
      → AreBytes salt
      → AreBytes key
      → salt_length ≤ length salt
      → length key ≡ key_length
      → decode crypto scanner cpus (encode_now crypto salt key) ≡ ok (stored_now salt key)
  unfolding decode decode_split bytes_eq
  decode-encode_now salt key hs hk enough size =
      rw (split_at-encode crypto.version argon_memory_kib argon_time argon_threads salt key)
        (decode_fields-written salt key hs hk enough size)

  pub hash_password_inv :
      (salt plain encoded : Bytes)
      → hash_password crypto (some salt) plain ≡ ok encoded
      → (ltb max_password_length (length (crypto.nfkc plain)) ≡ false)
        × (encoded ≡ encode_now crypto salt (key_now crypto plain salt))
  unfolding hash_password validate_password
  hash_password_inv salt plain encoded e =
      elim (Bool-cases (ltb max_password_length (length (crypto.nfkc plain)))) [
        | inl y ↦ absurd (ground arith)
        | inr n ↦ (n, ground arith)
      ]

  -- Any attempt against a hash that the application wrote.
  pub verify_password-written :
      Sized crypto
      → (salt key attempt : Bytes) → AreBytes salt
      → AreBytes key
      → salt_length ≤ length salt
      → length key ≡ key_length
      → (verify_password crypto scanner cpus (encode_now crypto salt key) attempt).0
        ≡ verdict
            (ltb max_password_length (length (crypto.nfkc attempt)))
            (bytes_eq (key_now crypto attempt salt) key)
  unfolding verify_password verify_stored
  verify_password-written sized salt key attempt hs hk enough size =
      rw (decode-encode_now salt key hs hk enough size, size)
        (elim (Bool-cases (ltb max_password_length (length (crypto.nfkc attempt)))) [
          | inl y ↦ rw y refl
          | inr n ↦ rw n refl
        ])

  -- A hash that `HashPassword` writes with a salt of at least 16 bytes lets the same password in
  -- and is not worth writing again, and any other password that it lets in gives the same key.
  -- Argon2 gives as many bytes as it is asked for, `Sscanf` reads what
  -- `Sprintf` printed, and there is a processor.
  pub verify_password-hash_password :
      Sized crypto
      → (salt plain encoded : Bytes) → AreBytes salt
      → salt_length ≤ length salt
      → hash_password crypto (some salt) plain ≡ ok encoded
      → ((verify_password crypto scanner cpus encoded plain).0 ≡ ok tt)
        × (needs_rehash crypto scanner cpus encoded ≡ false)
        × ((attempt : Bytes)
            → (verify_password crypto scanner cpus encoded attempt).0 ≡ ok tt
            → key_now crypto attempt salt ≡ key_now crypto plain salt)
  unfolding needs_rehash
  verify_password-hash_password sized salt plain encoded hs enough e =
      let (short, written) = hash_password_inv salt plain encoded e in
      let key = key_now crypto plain salt in
      let hk =
        sized.bytes_given (crypto.nfkc plain) salt argon_time argon_memory_kib argon_threads
          key_length in
      let size =
        sized.size_asked (crypto.nfkc plain) salt argon_time argon_memory_kib argon_threads
          key_length in
      rw written (
        verify_password-written sized salt key plain hs hk enough size
            ∙ rw (short, (bytes_eq_iff key key).1 refl) refl,
        rw (decode-encode_now salt key hs hk enough size, size) refl,
        λ attempt v. (bytes_eq_iff (key_now crypto attempt salt) key).0 (
            verdict_ok (ltb max_password_length (length (crypto.nfkc attempt)))
              (bytes_eq (key_now crypto attempt salt) key)
              (sym (verify_password-written sized salt key attempt hs hk enough size) ∙ v)),
      )
