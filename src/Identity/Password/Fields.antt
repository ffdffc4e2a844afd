-- ===== src/Identity/Password/Fields.antt =====
-- The text of a stored hash: its fields, and what reading them gives back.
use project_management.Identity.Base64.{encode as base64_url, sextet, AreBytes, decode-encode}
use project_management.Identity.Password.{decimal, std_char, base64_std, encode}
use project_management.Identity.Password.Reading.{split_at, url_char, base64_std_decode}
use mathlib.Core.List.{append_assoc}
use project_management.Prelude.{
  ℕ, zero, suc, ◌+◌, ◌*◌, ◌/◌, ◌%◌, false, some, [], ◌∷◌, ◌++◌, map, Bytes, codes, ltb, ◌==◌, ◌≡◌,
  inl, inr, refl, arith, All, All-append, Bool-cases,
}

-- Text without the separator.
abbrev IsPlain : ℕ → Type 0
IsPlain c = (c == b'$') ≡ false

-- A field ends at the separator.
pub split_at-field :
    (f rest : Bytes) → All IsPlain f → split_at b'$' (f ++ (b'$' ∷ rest)) ≡ f ∷ split_at b'$' rest
unfolding split_at
split_at-field [] rest h = refl
split_at-field (c ∷ cs) rest h = rw (h.0, split_at-field cs rest h.1) refl

pub split_at-last : (f : Bytes) → All IsPlain f → split_at b'$' f ≡ f ∷ []
unfolding split_at
split_at-last [] h = refl
split_at-last (c ∷ cs) h = rw (h.0, split_at-last cs h.1) refl

pub decimal-IsPlain : (digits n : ℕ) → All IsPlain (decimal digits n)
unfolding decimal
decimal-IsPlain zero n = tt
decimal-IsPlain (suc digits) n = elim (Bool-cases (ltb n 10)) [
  | inl y ↦ rw y ((ground arith), tt)
  | inr n1 ↦ rw n1 (
      All-append IsPlain (decimal digits (n / 10)) ((n % 10 + b'0') ∷ [])
        (decimal-IsPlain digits (n / 10)) ((ground arith), tt))
]

-- The two alphabets of base64.
url_char-std_char : (v : ℕ) → url_char (std_char (sextet v)) ≡ sextet v
url_char-std_char v = ground arith

std_char-IsPlain : (v : ℕ) → IsPlain (std_char (sextet v))
std_char-IsPlain v = ground arith

pub base64_std-IsPlain : (s : Bytes) → All IsPlain (base64_std s)
unfolding base64_std base64_url
base64_std-IsPlain [] = tt
base64_std-IsPlain (a ∷ []) = (std_char-IsPlain (a / 4), (std_char-IsPlain (a % 4 * 16), tt))
base64_std-IsPlain (a ∷ b ∷ []) = (
  std_char-IsPlain (a / 4),
  (std_char-IsPlain (a % 4 * 16 + b / 16), (std_char-IsPlain (b % 16 * 4), tt)),
)
base64_std-IsPlain (a ∷ b ∷ c ∷ rest) = (
  std_char-IsPlain (a / 4),
  (
    std_char-IsPlain (a % 4 * 16 + b / 16),
    (std_char-IsPlain (b % 16 * 4 + c / 64), (std_char-IsPlain (c % 64), base64_std-IsPlain rest)),
  ),
)

to_url : (s : Bytes) → map url_char (base64_std s) ≡ base64_url s
unfolding base64_std base64_url
to_url [] = refl
to_url (a ∷ []) = rw (url_char-std_char (a / 4), url_char-std_char (a % 4 * 16)) refl
to_url (a ∷ b ∷ []) =
    rw
      (
        url_char-std_char (a / 4),
        url_char-std_char (a % 4 * 16 + b / 16),
        url_char-std_char (b % 16 * 4),
      )
      refl
to_url (a ∷ b ∷ c ∷ rest) =
    rw
      (
        url_char-std_char (a / 4),
        url_char-std_char (a % 4 * 16 + b / 16),
        url_char-std_char (b % 16 * 4 + c / 64),
        url_char-std_char (c % 64),
        to_url rest,
      )
      refl

pub base64_std_decode-base64_std :
    (s : Bytes) → AreBytes s → base64_std_decode (base64_std s) ≡ some s
unfolding base64_std_decode
base64_std_decode-base64_std s h = rw (to_url s) (decode-encode s h)

-- The text of the two numeric fields.
abbrev pub version_field : ℕ → Bytes
version_field version = codes "v=" ++ decimal 10 version

abbrev pub costs_field : (memory_kib passes threads : ℕ) → Bytes
costs_field memory_kib passes threads =
    codes "m="
    ++ (decimal 10 memory_kib
        ++ (codes ",t=" ++ (decimal 10 passes ++ (codes ",p=" ++ decimal 10 threads))))

costs-IsPlain : (m p t : ℕ) → All IsPlain (costs_field m p t)
costs-IsPlain m p t = (
  refl,
  (
    refl,
    All-append IsPlain (decimal 10 m)
        (codes ",t=" ++ (decimal 10 p ++ (codes ",p=" ++ decimal 10 t))) (decimal-IsPlain 10 m)
        (
          refl,
          (
            refl,
            (
              refl,
              All-append IsPlain (decimal 10 p) (codes ",p=" ++ decimal 10 t) (decimal-IsPlain 10 p)
                  (refl, (refl, (refl, decimal-IsPlain 10 t))),
            ),
          ),
        ),
  ),
)

encode_fields :
    (version m p t : ℕ) (salt key : Bytes)
    → encode version m p t salt key
      ≡ b'$'
        ∷ (codes "argon2id"
            ++ (b'$'
                ∷ (version_field version
                    ++ (b'$'
                        ∷ (costs_field m p t
                            ++ (b'$' ∷ (base64_std salt ++ (b'$' ∷ base64_std key))))))))
unfolding encode
encode_fields version m p t salt key =
    rw
      (
        append_assoc (decimal 10 m) (codes ",t=" ++ (decimal 10 p ++ (codes ",p=" ++ decimal 10 t)))
            (b'$' ∷ (base64_std salt ++ (b'$' ∷ base64_std key))),
        append_assoc (decimal 10 p) (codes ",p=" ++ decimal 10 t)
            (b'$' ∷ (base64_std salt ++ (b'$' ∷ base64_std key))),
      )
      refl

pub split_at-encode :
    (version m p t : ℕ) (salt key : Bytes)
    → split_at b'$' (encode version m p t salt key)
      ≡ []
        ∷ codes "argon2id"
        ∷ version_field version
        ∷ costs_field m p t
        ∷ base64_std salt
        ∷ base64_std key
        ∷ []
unfolding split_at
split_at-encode version m p t salt key =
    rw
      (
        encode_fields version m p t salt key,
        split_at-field (codes "argon2id")
            (version_field version
              ++ (b'$'
                  ∷ (costs_field m p t ++ (b'$' ∷ (base64_std salt ++ (b'$' ∷ base64_std key))))))
            (refl, (refl, (refl, (refl, (refl, (refl, (refl, (refl, tt)))))))),
        split_at-field (version_field version)
            (costs_field m p t ++ (b'$' ∷ (base64_std salt ++ (b'$' ∷ base64_std key))))
            (refl, (refl, decimal-IsPlain 10 version)),
        split_at-field (costs_field m p t) (base64_std salt ++ (b'$' ∷ base64_std key))
            (costs-IsPlain m p t),
        split_at-field (base64_std salt) (base64_std key) (base64_std-IsPlain salt),
        split_at-last (base64_std key) (base64_std-IsPlain key),
      )
      refl
