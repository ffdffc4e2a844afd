-- ===== src/Httpx/Attribution.antt =====
-- What a caller writes into X-Forwarded-For does not matter once a proxy of ours has added to it.
use project_management.Httpx.{
  Netip, hops_of, forwarded_for, trusts, parse_addr, walk, or_socket, client_ip,
}
use project_management.Identity.Password.Reading.{split_at}
use project_management.Prelude.{
  ℕ, Bool, true, false, not, Option, none, some, List, [], ◌∷◌, ◌++◌, Bytes, ◌==◌, ◌≡◌, inl, inr,
  refl, sym, ap, subst, ◌∙◌, arith, Bool-cases, Option-cases, if◌then◌else◌,
}
use mathlib.Core.List.{append_assoc}

abbrev pub is_some : {A : Type 0} → Option A → Bool
is_some none = false
is_some (some a) = true

-- There is always a first field.
split_at-first : (sep : ℕ) (s : Bytes) → (f : Bytes) × (fs : List Bytes) × (split_at sep s ≡ f ∷ fs)
unfolding split_at
split_at-first sep [] = ([], [], refl)
split_at-first sep (c ∷ cs) =
    let (f, fs, e) = split_at-first sep cs in
    elim (Bool-cases (c == sep)) [
      | inl y ↦ ([], split_at sep cs, rw y refl)
      | inr n ↦ (c ∷ f, fs, rw (n, e) refl)
    ]

-- A text with the separator splits into the fields of its two sides.
split_at-separated :
    (sep : ℕ) (a b : Bytes)
    → (sep == sep) ≡ true
    → split_at sep (a ++ (sep ∷ b)) ≡ split_at sep a ++ split_at sep b
unfolding split_at
split_at-separated sep [] b h = rw h refl
split_at-separated sep (c ∷ cs) b h =
    let (f, fs, e) = split_at-first sep cs in
    let rest = split_at-separated sep cs b h in
    elim (Bool-cases (c == sep)) [ inl y ↦ rw (y, rest) refl | inr n ↦ rw (n, rest, e) refl ]

hops_of-append : (xs ys : List Bytes) → hops_of (xs ++ ys) ≡ hops_of xs ++ hops_of ys
unfolding hops_of
hops_of-append [] ys = refl
hops_of-append (x ∷ xs) ys = ground (arith, hops_of-append xs ys)

forwarded_for-append :
    (xs ys : List Bytes) → forwarded_for (xs ++ ys) ≡ forwarded_for xs ++ forwarded_for ys
unfolding forwarded_for
forwarded_for-append [] ys = refl
forwarded_for-append (x ∷ xs) ys =
    ap (λ r. hops_of (split_at b',' x) ++ r) (forwarded_for-append xs ys)
    ∙ sym (append_assoc (hops_of (split_at b',' x)) (forwarded_for xs) (forwarded_for ys))

module _ {Addr Prefix : Type 0} (netip : Netip Addr Prefix) (trusted : List Prefix) where
  -- A decision further right stands.
  walk-append :
      (socket addr : Addr) (xs ys : List Bytes)
      → walk netip trusted socket ys ≡ some addr
      → walk netip trusted socket (xs ++ ys) ≡ some addr
  unfolding walk
  walk-append socket addr [] ys e = e
  walk-append socket addr (x ∷ xs) ys e = rw (walk-append socket addr xs ys e) refl

  -- The hops that a chain of headers ends with, when its last part begins within a header.
  chain-append :
      (earlier hs : List Bytes) (forged rest : Bytes)
      → forwarded_for (earlier ++ ((forged ++ (b',' ∷ rest)) ∷ hs))
        ≡ (forwarded_for earlier ++ hops_of (split_at b',' forged)) ++ forwarded_for (rest ∷ hs)
  unfolding forwarded_for
  chain-append earlier hs forged rest =
      let a = hops_of (split_at b',' forged) in
      let b = hops_of (split_at b',' rest) in
      let c = forwarded_for hs in
      forwarded_for-append earlier ((forged ++ (b',' ∷ rest)) ∷ hs)
      ∙ rw
          (
            split_at-separated b',' forged rest refl,
            hops_of-append (split_at b',' forged) (split_at b',' rest),
            append_assoc a b c,
          )
          (sym (append_assoc (forwarded_for earlier) a (b ++ c)))

  client_ip-unknown :
      (remote_addr : Bytes) (headers : List Bytes)
      → parse_addr netip remote_addr ≡ none
      → client_ip netip trusted remote_addr headers ≡ none
  unfolding client_ip
  client_ip-unknown remote_addr headers e = rw (client_ip, e) refl

  client_ip-known :
      (remote_addr : Bytes) (headers : List Bytes) (socket : Addr)
      → parse_addr netip remote_addr ≡ some socket
      → client_ip netip trusted remote_addr headers ≡ (
          if not (trusts netip trusted socket)
          then some socket
          else some (or_socket netip socket (walk netip trusted socket (forwarded_for headers))))
  unfolding client_ip trusts
  client_ip-known remote_addr headers socket e = rw (client_ip, e) refl

  -- Whether some headers alone settle the address: the connection has none, or is not from a proxy of
  -- ours, or a hop among them is no address or not one of ours.
  abbrev pub is_settled : Option Addr → (headers : List Bytes) → Bool
  is_settled none headers = true
  is_settled (some socket) headers =
      if not (trusts netip trusted socket)
      then true
      else is_some (walk netip trusted socket (forwarded_for headers))

  settled-known :
      (socket : Addr) (earlier hs : List Bytes) (forged rest remote_addr : Bytes)
      → parse_addr netip remote_addr ≡ some socket
      → is_settled (some socket) (rest ∷ hs) ≡ true
      → client_ip netip trusted remote_addr (earlier ++ ((forged ++ (b',' ∷ rest)) ∷ hs))
        ≡ client_ip netip trusted remote_addr (rest ∷ hs)
  settled-known socket earlier hs forged rest remote_addr known settled =
      client_ip-known remote_addr (earlier ++ ((forged ++ (b',' ∷ rest)) ∷ hs)) socket known
      ∙ elim (Bool-cases (trusts netip trusted socket)) [
        | inr stranger ↦ rw stranger refl
        | inl ours ↦ elim (Option-cases (walk netip trusted socket (forwarded_for (rest ∷ hs)))) [
          | inl nothing ↦ absurd (
              let open_still : is_settled (some socket) (rest ∷ hs) ≡ false =
                rw (ours, nothing) refl in
              ground arith)
          | inr (addr, found) ↦
              ap
                (λ w.
                  if not (trusts netip trusted socket)
                  then some socket
                  else some (or_socket netip socket w))
                (ap (walk netip trusted socket) (chain-append earlier hs forged rest)
                  ∙ walk-append socket addr
                      (forwarded_for earlier ++ hops_of (split_at b',' forged))
                      (forwarded_for (rest ∷ hs)) found
                  ∙ sym found)
        ]
      ]
      ∙ sym (client_ip-known remote_addr (rest ∷ hs) socket known)

  -- What a caller writes into X-Forwarded-For is not looked at once the text right of it settles
  -- the address: whatever headers came earlier, and whatever stands before a comma of a header,
  -- `ClientIP` answers as for the rest of that header and the headers after it. The rest settles
  -- it when the connection has no address or is not from a trusted proxy, or when a hop of the
  -- rest is no address or not trusted.
  pub client_ip_unforged :
      (remote_addr rest : Bytes) (hs : List Bytes)
      → is_settled (parse_addr netip remote_addr) (rest ∷ hs) ≡ true
      → (earlier : List Bytes) (forged : Bytes)
      → client_ip netip trusted remote_addr (earlier ++ ((forged ++ (b',' ∷ rest)) ∷ hs))
        ≡ client_ip netip trusted remote_addr (rest ∷ hs)
  client_ip_unforged remote_addr rest hs settled earlier forged =
      elim (Option-cases (parse_addr netip remote_addr)) [
        | inl unknown ↦
            client_ip-unknown remote_addr (earlier ++ ((forged ++ (b',' ∷ rest)) ∷ hs)) unknown
            ∙ sym (client_ip-unknown remote_addr (rest ∷ hs) unknown)
        | inr (socket, known) ↦
            settled-known socket earlier hs forged rest remote_addr known
              (subst (λ o. is_settled o (rest ∷ hs) ≡ true) known settled)
      ]
