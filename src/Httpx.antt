-- ===== src/Httpx.antt =====
-- backend/internal/httpx/clientip.go and ratelimit.go: the address that a request is attributed to, the
-- keys of the rate limits, and the decision of the limiting middleware. net and net/netip are
-- parameters. A wait is rounded up exactly, where the source rounds in float64. Logging is left out.
pub mod Attribution
pub mod Csrf
pub mod Errors
mod Tests
use project_management.Identity.Password.Reading.{split_at}
use project_management.Identity.Service.LoginGuard.{Answer}
use project_management.Identity.Text.{starts_with, trim_space}
use project_management.Prelude.{
  ℕ, ◌+◌, ◌*◌, ◌/◌, Bool, true, false, not, ◌&&◌, Option, none, some, List, [], ◌∷◌, ◌++◌, Bytes,
  codes, bytes_eq, ltb, ◌==◌, if◌then◌else◌,
}

-- The functions on addresses and prefixes that the source calls.
pub record Netip (Addr Prefix : Type 0) : Type 0 where
  pub split_host_port : Bytes → Option Bytes
  pub parse_addr : Bytes → Option Addr
  pub unmap : Addr → Addr
  pub without_zone : Addr → Addr
  pub contains : Prefix → Addr → Bool
  pub is_6 : Addr → Bool
  pub is_4_in_6 : Addr → Bool
  pub prefix : Addr → (bits : ℕ) → Option Prefix
  pub prefix_string : Prefix → Bytes
  pub addr_string : Addr → Bytes

-- `strings.TrimPrefix` and `strings.TrimSuffix` by one character.
abbrev pub trim_prefix : ℕ → Bytes → Bytes
trim_prefix c [] = []
trim_prefix c (x ∷ xs) = if x == c then xs else x ∷ xs

abbrev pub trim_suffix : ℕ → Bytes → Bytes
trim_suffix c [] = []
trim_suffix c (x ∷ []) = if x == c then [] else x ∷ []
trim_suffix c (x ∷ y ∷ ys) = x ∷ trim_suffix c (y ∷ ys)

-- The entries of one header that are not empty.
unfoldable pub hops_of : List Bytes → List Bytes
hops_of [] = []
hops_of (hop ∷ rest) =
    let others = hops_of rest in
    let trimmed = trim_space hop in if bytes_eq trimmed [] then others else trimmed ∷ others

-- `forwardedFor`, of the values of all X-Forwarded-For headers.
unfoldable pub forwarded_for : List Bytes → List Bytes
unfolding hops_of
forwarded_for [] = []
forwarded_for (header ∷ rest) = hops_of (split_at b',' header) ++ forwarded_for rest

-- What the middleware does with a request.
pub data OnLimiterFailure : Type 0 where
  fail_closed fail_open : OnLimiterFailure

pub data Limited : Type 0 where
  serves : Limited
  rate_limited : (retry_after : ℕ) → Limited

abbrev pub ipv4_network_bits : ℕ
ipv4_network_bits = 24

abbrev pub ipv6_network_bits : ℕ
ipv6_network_bits = 48

abbrev pub retry_after_unavailable : ℕ
retry_after_unavailable = 30000000000

-- The whole seconds of a Retry-After.
abbrev pub retry_after_seconds : ℕ → ℕ
retry_after_seconds wait =
    let seconds = (wait + 999999999) / 1000000000 in if ltb seconds 1 then 1 else seconds

-- `RateLimit`: the limiter's answer for a key that is not empty.
unfoldable pub rate_limit :
    {S : Type 0}
    → (allow : Bytes → S → Answer × S) → OnLimiterFailure
    → (key : Bytes) → S
    → Limited × S
rate_limit allow on_failure [] s = (serves, s)
rate_limit allow on_failure (k ∷ ks) s =
    let (a, s') = allow (k ∷ ks) s in
    (
      elim a.failed [
        | some e ↦ elim on_failure [
          | fail_open ↦ serves
          | fail_closed ↦ rate_limited (retry_after_seconds retry_after_unavailable)
        ]
        | none ↦ if not a.room then rate_limited (retry_after_seconds a.wait) else serves
      ],
      s',
    )

module _ {Addr Prefix : Type 0} (netip : Netip Addr Prefix) where
  abbrev pub host_of : Bytes → Option Bytes → Bytes
  host_of raw none = raw
  host_of raw (some host) = host

  -- `parseAddr`.
  unfoldable pub parse_addr : Bytes → Option Addr
  parse_addr raw =
      let host = host_of raw (netip.split_host_port raw) in
      elim (netip.parse_addr (trim_suffix b']' (trim_prefix b'[' host))) [
        | none ↦ none
        | some a ↦ some (netip.without_zone (netip.unmap a))
      ]

  -- `TrustedProxies.contains`.
  unfoldable pub trusts : List Prefix → Addr → Bool
  trusts [] addr = false
  trusts (p ∷ ps) addr =
      let others = trusts ps addr in if netip.contains p addr then true else others

  -- What one hop decides: nothing if it is one of ours.
  unfoldable pub decide_hop : List Prefix → (socket : Addr) → Bytes → Option Addr
  unfolding parse_addr trusts
  decide_hop trusted socket raw = elim (parse_addr raw) [
    | none ↦ some socket
    | some hop ↦ if not (trusts trusted hop) then some hop else none
  ]

  -- The loop of `ClientIP`, from the right: a hop is looked at when none right of it decided.
  unfoldable pub walk : List Prefix → (socket : Addr) → (hops : List Bytes) → Option Addr
  unfolding decide_hop
  walk trusted socket [] = none
  walk trusted socket (hop ∷ hops) = elim (walk trusted socket hops) [
    | some addr ↦ some addr
    | none ↦ decide_hop trusted socket hop
  ]

  abbrev pub or_socket : Addr → Option Addr → Addr
  or_socket socket none = socket
  or_socket socket (some addr) = addr

  unfoldable pub client_ip :
      List Prefix → (remote_addr : Bytes) → (headers : List Bytes) → Option Addr
  unfolding walk forwarded_for
  client_ip trusted remote_addr headers = elim (parse_addr remote_addr) [
    | none ↦ none
    | some socket ↦
        if not (trusts trusted socket)
        then some socket
        else some (or_socket socket (walk trusted socket (forwarded_for headers)))
  ]

  -- `RateLimitKey`.
  unfoldable pub rate_limit_key : Addr → Bytes
  rate_limit_key addr =
      if netip.is_6 addr && not (netip.is_4_in_6 addr)
      then elim (netip.prefix addr 64) [
        | some p ↦ netip.prefix_string p
        | none ↦ netip.addr_string (netip.unmap addr)
      ]
      else netip.addr_string (netip.unmap addr)

  -- `RateLimitPrefixKey`.
  unfoldable pub rate_limit_prefix_key : Addr → Bytes
  rate_limit_prefix_key addr =
      let unmapped = netip.unmap addr in
      let bits = if netip.is_6 unmapped then ipv6_network_bits else ipv4_network_bits in
      elim (netip.prefix unmapped bits) [
        | none ↦ netip.addr_string unmapped
        | some p ↦ netip.prefix_string p
      ]
