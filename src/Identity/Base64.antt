-- ===== src/Identity/Base64.antt =====
-- `base64.RawURLEncoding` of Go's standard library, which every token and cookie goes through: the
-- URL alphabet, no padding, and a decoder that skips line breaks.
use project_management.Prelude.Table.{passes_below, passes_below-at}
use project_management.Prelude.{
  ℕ, ◌+◌, ◌-◌, ◌*◌, ◌/◌, ◌%◌, ◌<◌, Bool, true, false, ◌&&◌, ◌||◌, not, Option, none, some, List, [],
  ◌∷◌, ◌≡◌, refl, arith, Bytes, codes, index_byte, ltb, ◌==◌, if◌then◌else◌, All,
}

abbrev alphabet : Bytes
alphabet = codes "ABCDEFGHIJKLMNOPQRSTUVWXYZabcdefghijklmnopqrstuvwxyz0123456789-_"

-- The character of a value below 64.
abbrev pub sextet : ℕ → ℕ
sextet v =
    if ltb v 26
    then v + 65
    else if ltb v 52
    then v + 71
    else if ltb v 62
    then v - 4
    else if v == 62
    then b'-'
    else b'_'

unfoldable pub encode : Bytes → Bytes
encode [] = []
encode (a ∷ []) = sextet (a / 4) ∷ sextet (a % 4 * 16) ∷ []
encode (a ∷ b ∷ []) = sextet (a / 4) ∷ sextet (a % 4 * 16 + b / 16) ∷ sextet (b % 16 * 4) ∷ []
encode (a ∷ b ∷ c ∷ rest) =
    sextet (a / 4)
    ∷ sextet (a % 4 * 16 + b / 16)
    ∷ sextet (b % 16 * 4 + c / 64)
    ∷ sextet (c % 64)
    ∷ encode rest

-- The values of the characters; a character outside the alphabet is an error.
values : Bytes → Option (List ℕ)
unfolding index_byte
values [] = some []
values (c ∷ cs) = if c == b'\n' || c == b'\r' then values cs else elim (index_byte alphabet c) [
  | none ↦ none
  | some v ↦ elim (values cs) [ none ↦ none | some vs ↦ some (v ∷ vs) ]
]

-- Four characters are three bytes; one left over is an error. Low bits left over are not looked at.
join : List ℕ → Option Bytes
join [] = some []
join (v ∷ []) = none
join (v ∷ w ∷ []) = some ((v * 4 + w / 16) ∷ [])
join (v ∷ w ∷ x ∷ []) = some ((v * 4 + w / 16) ∷ (w % 16 * 16 + x / 4) ∷ [])
join (v ∷ w ∷ x ∷ y ∷ rest) = elim (join rest) [
  | none ↦ none
  | some s ↦ some ((v * 4 + w / 16) ∷ (w % 16 * 16 + x / 4) ∷ (x % 4 * 64 + y) ∷ s)
]

unfoldable pub decode : Bytes → Option Bytes
unfolding values join
decode s = elim (values s) [ none ↦ none | some vs ↦ join vs ]

-- Bytes, as Go has them.
abbrev pub AreBytes : Bytes → Type 0
AreBytes = All (λ b. b < 256)

abbrev is_value : Option ℕ → ℕ → Bool
is_value none v = false
is_value (some w) v = w == v

index_table :
    passes_below
      (λ v.
        is_value (index_byte alphabet (sextet v)) v && not (sextet v == b'\n' || sextet v == b'\r'))
      64
    ≡ true
unfolding passes_below index_byte
index_table = refl

is_value-eq : (o : Option ℕ) (v : ℕ) → is_value o v ≡ true → o ≡ some v
is_value-eq none v h = ground arith
is_value-eq (some w) v h = ground arith

-- A character of the encoder is read back as its value.
values-cons :
    (v : ℕ) (cs : Bytes) (vs : List ℕ)
    → v < 64
    → values cs ≡ some vs
    → values (sextet v ∷ cs) ≡ some (v ∷ vs)
unfolding values
values-cons v cs vs h e =
    let row = passes_below-at _ 64 v h index_table in
    rw (is_value-eq (index_byte alphabet (sextet v)) v (ground arith), e) (ground arith)

values-encode :
    (s : Bytes) → AreBytes s → (vs : List ℕ) × (values (encode s) ≡ some vs) × (join vs ≡ some s)
unfolding encode values join
values-encode [] h = ([], refl, refl)
values-encode (a ∷ []) (ha, h) =
    let v1 = values-cons (a % 4 * 16) [] [] (omega arith) refl in
    (
      a / 4 ∷ a % 4 * 16 ∷ [],
      values-cons (a / 4) (sextet (a % 4 * 16) ∷ []) (a % 4 * 16 ∷ []) (omega arith) v1,
      ground arith,
    )
values-encode (a ∷ b ∷ []) (ha, (hb, h)) =
    let v = a % 4 * 16 + b / 16 in
    let w = b % 16 * 4 in
    let v2 = values-cons w [] [] (omega arith) refl in
    let v1 = values-cons v (sextet w ∷ []) (w ∷ []) (omega arith) v2 in
    (
      a / 4 ∷ v ∷ w ∷ [],
      values-cons (a / 4) (sextet v ∷ sextet w ∷ []) (v ∷ w ∷ []) (omega arith) v1,
      ground arith,
    )
values-encode (a ∷ b ∷ c ∷ s) (ha, (hb, (hc, h))) =
    let (vs, read, joined) = values-encode s h in
    let v = a % 4 * 16 + b / 16 in
    let w = b % 16 * 4 + c / 64 in
    let x = c % 64 in
    let v3 = values-cons x (encode s) vs (omega arith) read in
    let v2 = values-cons w (sextet x ∷ encode s) (x ∷ vs) (omega arith) v3 in
    let v1 = values-cons v (sextet w ∷ sextet x ∷ encode s) (w ∷ x ∷ vs) (omega arith) v2 in
    (
      a / 4 ∷ v ∷ w ∷ x ∷ vs,
      values-cons (a / 4) (sextet v ∷ sextet w ∷ sextet x ∷ encode s) (v ∷ w ∷ x ∷ vs) (omega arith)
          v1,
      rw joined (ground arith),
    )

-- Whatever bytes are encoded, decoding gives them back.
pub decode-encode : (s : Bytes) → AreBytes s → decode (encode s) ≡ some s
unfolding decode
decode-encode s h = let (vs, read, joined) = values-encode s h in rw (read, decode) joined
