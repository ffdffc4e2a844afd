-- ===== src/Mail/Header.antt =====
-- The header block of a message, read back: lines up to the first empty one. It says what a receiving
-- server makes of the bytes that `Render` writes.
use mathlib.Core.List.{append-nil, append_assoc}
use project_management.Mail.{
  is_control, index_control, no_control, last_at, split_address, hex_digit, hex_encode, message_id,
  crlf,
}
use project_management.Prelude.Outcome.{ok}
use project_management.Prelude.{
  ℕ, zero, suc, ◌+◌, ◌/◌, ◌%◌, true, false, ◌&&◌, Option, none, some, List, [], ◌∷◌, ◌++◌, Bytes,
  codes, drop, All, All-append, All-map, ◌≡◌, ◌≢◌, arith, subst, ◌∙◌, ◌==◌, Option-cases, inl, inr,
}

-- The lines read so far are put before what is read next.
abbrev pub with_line : Bytes → Option (List Bytes × Bytes) → Option (List Bytes × Bytes)
with_line line none = none
with_line line (some (lines, body)) = some (line ∷ lines, body)

abbrev pub end_line :
    (line : Bytes) → Option (List Bytes × Bytes) → Bytes → Option (List Bytes × Bytes)
end_line [] more rest = some ([], rest)
end_line (c ∷ cs) more rest = with_line (c ∷ cs) more

-- The lines of the block and what follows it; `line` is what is read of the line so far.
unfoldable pub read_block : (line : Bytes) → Bytes → Option (List Bytes × Bytes)
read_block line [] = none
read_block line (c ∷ []) = none
read_block line (c ∷ d ∷ rest) = elim ((c == 13) && (d == 10)) [
  | true ↦ end_line line (read_block [] rest) rest
  | false ↦ read_block (line ++ c ∷ []) (d ∷ rest)
]

-- A value of a header line.
abbrev pub NoBreak : ℕ → Type 0
NoBreak c = (c ≢ 13) × (c ≢ 10)

abbrev pub Unbroken : Bytes → Type 0
Unbroken = All NoBreak

-- A text that the checks let through.
abbrev pub Clean : Bytes → Type 0
Clean = All (λ c. is_control c ≡ false)

read_block-step :
    (line : Bytes) (c d : ℕ) (rest : Bytes)
    → c ≢ 13
    → read_block line (c ∷ d ∷ rest) ≡ read_block (line ++ c ∷ []) (d ∷ rest)
unfolding read_block
read_block-step line c d rest h = ground arith

-- A value with no line break is read up to its end.
pub read_block-line :
    (line value rest : Bytes)
    → Unbroken value
    → read_block line (value ++ (crlf ++ rest)) ≡ end_line (line ++ value) (read_block [] rest) rest
read_block-line line [] rest h = unfold read_block in simp append-nil
read_block-line line (c ∷ []) rest h =
    read_block-step line c 13 (10 ∷ rest) h.0.0
    ∙ read_block-line (line ++ c ∷ []) [] rest tt
    ∙ simp append-nil
read_block-line line (c ∷ d ∷ cs) rest h =
    read_block-step line c d (cs ++ (crlf ++ rest)) h.0.0
    ∙ read_block-line (line ++ c ∷ []) (d ∷ cs) rest h.1
    ∙ simp append_assoc

-- A clean text has no line break.
pub Clean-Unbroken : (text : Bytes) → Clean text → Unbroken text
Clean-Unbroken =
    All-map (λ c. is_control c ≡ false) (λ c. (c ≢ 13) × (c ≢ 10))
      (λ c h. (λ e. ground arith, λ e. ground arith))

index_control-Clean : (text : Bytes) → index_control text ≡ none → Clean text
unfolding index_control
index_control-Clean [] h = tt
index_control-Clean (c ∷ cs) h = ground (arith, index_control-Clean cs)

pub no_control-Clean : (text : Bytes) → no_control text ≡ ok tt → Clean text
unfolding no_control
no_control-Clean text h = elim (Option-cases (index_control text)) [
  | inl e ↦ index_control-Clean text e
  | inr (i, e) ↦ absurd (ground arith)
]

All-drop : (P : ℕ → Type 0) (n : ℕ) (xs : Bytes) → All P xs → All P (drop n xs)
All-drop P zero xs h = h
All-drop P (suc n) [] h = tt
All-drop P (suc n) (x ∷ xs) h = All-drop P n xs h.1

hex_digit-Unbroken : (n : ℕ) → (hex_digit n ≢ 13) × (hex_digit n ≢ 10)
hex_digit-Unbroken n = (λ e. ground arith, λ e. ground arith)

hex_encode-Unbroken : (bs : Bytes) → Unbroken (hex_encode bs)
unfolding hex_encode
hex_encode-Unbroken [] = tt
hex_encode-Unbroken (b ∷ bs) =
    (hex_digit-Unbroken (b / 16), (hex_digit-Unbroken (b % 16), hex_encode-Unbroken bs))

split_address-Unbroken :
    (address local domain : Bytes)
    → Unbroken address
    → split_address address ≡ some (local, domain)
    → Unbroken domain
unfolding split_address
split_address-Unbroken address local domain h e = elim (Option-cases (last_at address)) [
  | inl q ↦ absurd (ground arith)
  | inr (at, q) ↦ subst Unbroken (ground arith) (All-drop NoBreak (at + 1) address h)
]

pub message_id-Unbroken :
    (random : Option Bytes) (sender id : Bytes)
    → Unbroken sender
    → message_id random sender ≡ ok id
    → Unbroken id
unfolding message_id
message_id-Unbroken random sender id h e = elim (Option-cases (split_address sender)) [
  | inl q ↦ absurd (ground arith)
  | inr ((local, domain), q) ↦ elim (Option-cases random) [
    | inl r ↦ absurd (ground arith)
    | inr (bytes, r) ↦
        let written : codes "<" ++ (hex_encode bytes ++ (codes "@" ++ (domain ++ codes ">"))) ≡ id =
          ground arith in
        subst Unbroken written (
          (λ k. omega arith, λ k. omega arith),
          All-append NoBreak (hex_encode bytes) (codes "@" ++ (domain ++ codes ">"))
              (hex_encode-Unbroken bytes)
              (
                (λ k. omega arith, λ k. omega arith),
                All-append NoBreak domain (codes ">")
                    (split_address-Unbroken sender local domain h q)
                    ((λ k. omega arith, λ k. omega arith), tt),
              ),
        )
  ]
]
