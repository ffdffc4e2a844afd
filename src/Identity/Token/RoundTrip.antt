-- ===== src/Identity/Token/RoundTrip.antt =====
-- A token that was handed out leads back to the digest that was stored.
use project_management.Identity.Base64.{decode, decode-encode, AreBytes}
use project_management.Identity.Token.{
  session_token_malformed, invitation_token_malformed, password_reset_token_malformed,
  opaque_token_bytes, new_opaque_token, session_token_digest, invitation_token_digest,
  password_reset_token_digest,
}
use project_management.Prelude.Outcome.{ok, err}
use project_management.Prelude.{
  some, Bytes, length, ◌==◌, ◌≡◌, ◌≢◌, ◌⊎◌, inl, inr, arith, Option-cases, Bool-cases,
}

module _ (sha256 : Bytes → Bytes) where
  -- Whatever 32 bytes were drawn for a token, each of the three kinds of token digest reads the token
  -- back as the digest that was returned beside it.
  pub new_opaque_token-digest :
      (raw token digest : Bytes)
      → length raw ≡ opaque_token_bytes
      → AreBytes raw
      → new_opaque_token sha256 (some raw) ≡ ok (token, digest)
      → (session_token_digest sha256 token ≡ ok digest)
        × (invitation_token_digest sha256 token ≡ ok digest)
        × (password_reset_token_digest sha256 token ≡ ok digest)
  unfolding new_opaque_token session_token_digest invitation_token_digest
      password_reset_token_digest
  new_opaque_token-digest raw token digest l b e = ground (arith, decode-encode raw b)

  -- A string that does not decode to 32 bytes is refused as malformed by each of the three kinds
  -- of token digest, and every other string is hashed by each of them; there is no third outcome.
  token_digests_total :
      (token : Bytes)
      → ((raw : Bytes) × (decode token ≡ some raw)
          × (length raw ≡ opaque_token_bytes)
          × (session_token_digest sha256 token ≡ ok (sha256 raw))
          × (invitation_token_digest sha256 token ≡ ok (sha256 raw))
          × (password_reset_token_digest sha256 token ≡ ok (sha256 raw)))
        ⊎ (((raw : Bytes) → decode token ≡ some raw → length raw ≢ opaque_token_bytes)
            × (session_token_digest sha256 token ≡ err session_token_malformed)
            × (invitation_token_digest sha256 token ≡ err invitation_token_malformed)
            × (password_reset_token_digest sha256 token ≡ err password_reset_token_malformed))
  unfolding session_token_digest invitation_token_digest password_reset_token_digest
  token_digests_total token = elim (Option-cases (decode token)) [
    | inl e ↦ inr (λ raw q. cc, ground arith, ground arith, ground arith)
    | inr (raw, e) ↦ elim (Bool-cases (length raw == opaque_token_bytes)) [
      | inl l ↦ inl (raw, e, ground arith, ground arith, ground arith, ground arith)
      | inr l ↦ inr (λ r q. ground arith, ground arith, ground arith, ground arith)
    ]
  ]
