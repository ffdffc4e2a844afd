-- ===== src/Httpx/Csrf.antt =====
-- backend/internal/httpx/csrf.go: the check of the pair of cookie and header. `strings.ToLower` is a
-- parameter, what rand.Read gave an argument. The attributes of the cookie and logging are left out.
use project_management.Identity.Base64.{encode, decode, AreBytes, decode-encode}
use project_management.Identity.Text.{starts_with}
use project_management.Prelude.{
  ℕ, Bool, true, false, not, ◌||◌, Option, none, some, [], ◌∷◌, ◌++◌, Bytes, codes, length,
  bytes_eq, bytes_eq_iff, ◌==◌, ◌≡◌, ◌≢◌, inl, inr, refl, sym, arith, Bool-cases, Option-cases,
  if◌then◌else◌,
}

abbrev pub csrf_token_bytes : ℕ
csrf_token_bytes = 32

-- What the check reads of a request; an absent header is empty.
pub record Request : Type 0 where
  pub method : Bytes
  pub authorization : Bytes
  pub cookie : Option Bytes
  pub header : Bytes

-- What becomes of the request.
pub data Outcome : Type 0 where
  served forbidden internal_error : Outcome

-- With the token that is handed out, if one is.
pub record Checked : Type 0 where
  pub outcome : Outcome
  pub issued : Option Bytes

-- `csrfCookieToken`.
unfoldable pub csrf_cookie_token : Option Bytes → Option Bytes
csrf_cookie_token none = none
csrf_cookie_token (some value) = elim (decode value) [
  | none ↦ none
  | some raw ↦ if length raw == csrf_token_bytes then some value else none
]

-- `csrfFailure`, of no cookie or one that is empty, and the header.
unfoldable pub csrf_fails : (cookie_token header_token : Bytes) → Bool
csrf_fails cookie_token header_token =
    if bytes_eq cookie_token []
    then true
    else if bytes_eq header_token []
    then true
    else not (bytes_eq cookie_token header_token)

abbrev pub or_empty : Option Bytes → Bytes
or_empty none = []
or_empty (some token) = token

encode-full : (raw : Bytes) → length raw ≡ csrf_token_bytes → bytes_eq (encode raw) [] ≡ false
unfolding encode bytes_eq
encode-full [] h = absurd (omega arith)
encode-full (a ∷ []) h = refl
encode-full (a ∷ b ∷ []) h = refl
encode-full (a ∷ b ∷ c ∷ rest) h = refl

differ : (a b : Bytes) → a ≢ b → bytes_eq a b ≡ false
differ a b ne = elim (Bool-cases (bytes_eq a b)) [
  | inl same ↦ absurd (ne ((bytes_eq_iff a b).0 same))
  | inr other ↦ other
]

starts_with-rest : (p s : Bytes) → starts_with p s ≡ true → (rest : Bytes) × (s ≡ p ++ rest)
starts_with-rest [] s e = (s, refl)
starts_with-rest (c ∷ p) [] e = absurd (cc)
starts_with-rest (c ∷ p) (d ∷ s) e =
    let (rest, whole) = starts_with-rest p s (ground arith) in (rest, ground (arith, whole))

-- A cookie that is taken for a token holds it, in the encoding of 32 bytes.
presented_as :
    (cookie : Option Bytes) (token : Bytes)
    → csrf_cookie_token cookie ≡ some token
    → (raw : Bytes) × (cookie ≡ some token)
      × (decode token ≡ some raw)
      × (length raw ≡ csrf_token_bytes)
unfolding csrf_cookie_token
presented_as none token e = absurd (cc)
presented_as (some value) token e = elim (Option-cases (decode value)) [
  | inl undecoded ↦ absurd (ground arith)
  | inr (raw, decoded) ↦ elim (Bool-cases (length raw == csrf_token_bytes)) [
    | inl full ↦ (raw, ground arith, ground arith, ground arith)
    | inr other ↦ absurd (ground arith)
  ]
]

module _ (to_lower : Bytes → Bytes) where
  -- `csrfExempt`.
  unfoldable pub csrf_exempt : Request → Bool
  csrf_exempt r =
      if bytes_eq r.method (codes "GET")
        || (bytes_eq r.method (codes "HEAD") || bytes_eq r.method (codes "OPTIONS"))
      then true
      else starts_with (codes "bearer ") (to_lower r.authorization)

  -- Once a token is handed out, or none had to be.
  unfoldable pub csrf_decide : Request → (presented issued : Option Bytes) → Checked
  unfolding csrf_exempt csrf_fails
  csrf_decide r presented issued = record {
    outcome =
        if csrf_exempt r
        then served
        else if csrf_fails (or_empty presented) r.header
        then forbidden
        else served;
    issued = issued;
  }

  -- With the token that the cookie presents, if it is one that the server could have issued.
  unfoldable pub csrf_presented :
      Request → (raw_read : Option Bytes) → (presented : Option Bytes) → Checked
  unfolding csrf_decide
  csrf_presented r raw_read (some token) = csrf_decide r (some token) none
  csrf_presented r (some raw) none = csrf_decide r none (some (encode raw))
  csrf_presented r none none = record { outcome = internal_error; issued = none }

  -- `CSRF`.
  unfoldable pub csrf : (raw_read : Option Bytes) → Request → Checked
  unfolding csrf_presented csrf_cookie_token
  csrf raw_read r = csrf_presented r raw_read (csrf_cookie_token r.cookie)

  fails_not :
      (cookie header : Bytes)
      → csrf_fails cookie header ≡ false
      → (header ≡ cookie) × (bytes_eq cookie [] ≡ false)
  unfolding csrf_fails
  fails_not cookie header e = elim (Bool-cases (bytes_eq cookie [])) [
    | inl y ↦ absurd (ground arith)
    | inr n ↦ elim (Bool-cases (bytes_eq cookie header)) [
      | inl same ↦ (sym ((bytes_eq_iff cookie header).0 same), n)
      | inr other ↦ absurd (ground arith)
    ]
  ]

  decide_served :
      (r : Request) (presented issued : Option Bytes)
      → csrf_exempt r ≡ false
      → (csrf_decide r presented issued).outcome ≡ served
      → csrf_fails (or_empty presented) r.header ≡ false
  unfolding csrf_decide
  decide_served r presented issued unsafe e =
      elim (Bool-cases (csrf_fails (or_empty presented) r.header)) [
        | inl y ↦ absurd (
            let bad : (csrf_decide r presented issued).outcome ≡ forbidden = rw (unsafe, y) refl in
            ground arith)
        | inr n ↦ n
      ]

  -- A method that may change something, and no Bearer token in the Authorization header.
  abbrev pub IsChecked : Request → Type 0
  IsChecked r =
      (r.method ≢ codes "GET")
      × (r.method ≢ codes "HEAD")
      × (r.method ≢ codes "OPTIONS")
      × ((rest : Bytes) → to_lower r.authorization ≢ codes "bearer " ++ rest)

  exempt_not : (r : Request) → IsChecked r → csrf_exempt r ≡ false
  unfolding csrf_exempt
  exempt_not r (get, head, options, bearer) =
      rw (differ _ _ get, differ _ _ head, differ _ _ options)
        (elim (Bool-cases (starts_with (codes "bearer ") (to_lower r.authorization))) [
          | inr without ↦ without
          | inl starts ↦
              let (rest, whole) =
                starts_with-rest (codes "bearer ") (to_lower r.authorization) starts in
              absurd (bearer rest whole)
        ])

  -- The pair, as the check reads it.
  paired :
      (raw_read : Option Bytes) (r : Request)
      → csrf_exempt r ≡ false
      → (csrf raw_read r).outcome ≡ served
      → (token : Bytes) × (csrf_cookie_token r.cookie ≡ some token)
        × (r.header ≡ token)
        × ((csrf raw_read r).issued ≡ none)
  unfolding csrf csrf_presented csrf_decide bytes_eq
  paired raw_read r unsafe e = go raw_read (csrf_cookie_token r.cookie) refl e
    where
      go :
          (raw presented : Option Bytes)
          → csrf_cookie_token r.cookie ≡ presented
          → (csrf_presented r raw presented).outcome ≡ served
          → (token : Bytes) × (csrf_cookie_token r.cookie ≡ some token)
            × (r.header ≡ token)
            × ((csrf_presented r raw presented).issued ≡ none)
      go raw (some token) q f = (
        token,
        q,
        (fails_not token r.header (decide_served r (some token) none unsafe f)).0,
        refl,
      )
      go (some raw) none q f = absurd (
          let no = (fails_not [] r.header (decide_served r none (some (encode raw)) unsafe f)).1 in
          ground arith)
      go none none q f = absurd (ground arith)

  -- A request whose method is neither GET, HEAD nor OPTIONS, and whose Authorization header, in lower
  -- case, does not begin with "bearer ", is served only if it presented a cookie that decodes to 32
  -- bytes and the same text in the header; and no new token is handed out then.
  pub csrf_pair :
      (raw_read : Option Bytes) (r : Request)
      → IsChecked r
      → (csrf raw_read r).outcome ≡ served
      → (token raw : Bytes) × (r.cookie ≡ some token)
        × (decode token ≡ some raw)
        × (length raw ≡ 32)
        × (r.header ≡ token)
        × ((csrf raw_read r).issued ≡ none)
  csrf_pair raw_read r checked e =
      let unsafe = exempt_not r checked in
      let (token, presented, same, kept) = paired raw_read r unsafe e in
      let (raw, presented_cookie, read, size) = presented_as r.cookie token presented in
      (token, raw, presented_cookie, read, size, same, kept)

  -- Whatever 32 bytes were drawn, the token that is made of them passes the check of any request that
  -- sends it back in the cookie and in the header.
  csrf_echo :
      (raw : Bytes)
      → AreBytes raw
      → length raw ≡ csrf_token_bytes
      → (next_read : Option Bytes) (next : Request) → next.cookie ≡ some (encode raw)
      → next.header ≡ encode raw
      → csrf next_read next ≡ record { outcome = served; issued = none }
  unfolding csrf csrf_presented csrf_decide
  csrf_echo raw bytes size next_read next cookie header =
      let token : csrf_cookie_token next.cookie ≡ some (encode raw) =
        rw (cookie, csrf_cookie_token, decode-encode raw bytes, size) refl in
      let passes : csrf_fails (encode raw) next.header ≡ false =
        rw
          (
            header,
            csrf_fails,
            encode-full raw size,
            (bytes_eq_iff (encode raw) (encode raw)).1 refl,
          )
          refl in
      rw token
        (elim (Bool-cases (csrf_exempt next)) [ inl y ↦ rw y refl | inr n ↦ rw (n, passes) refl ])
