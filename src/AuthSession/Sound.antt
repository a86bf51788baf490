-- ===== src/AuthSession/Sound.antt =====
-- What an authentication lets in (server/auth/session/service.go, bearer.go).
use new_im.Common.{
  ℕ, ◌≡◌, sym, ap, ◌∙◌, not, ◌||◌, Option, some, Result, ok, reject-eq-ok, >>=-eq-ok,
}
use new_im.Bytes.{Bytes}
use new_im.AuthSession.Identity.{ConnectionIdentity, valid_binding, valid_id}
use new_im.AuthSession.Types.{
  Code, invalid_input, AuthenticateRequest, TokenSnapshot, Store, new_connection_identity,
}
use new_im.AuthSession.Token.{parse_raw_token}
use new_im.AuthSession.Service.{
  redacted, own, verify_token, nothing_captured, verify_bearer, BearerSession, new_bearer_session,
  authenticate, authenticate_bearer,
}
use new_im.AuthSession.Verified.{
  verify_token-parts, new_connection_identity-same, verify_bearer-parts, new_bearer_session-same,
  redacted-eq-ok, own-eq-ok, IsAlive,
}

-- A store that keeps tokens by their identifiers: it says yes only where the callback accepted the
-- token's row, and hands out what the callback wrote.
pub record IsTokenStore (store : Store) (row : Bytes → Option TokenSnapshot) : Type 1 where
  pub sound :
      {S : Type 0} (id : Bytes) (verify : TokenSnapshot → S → Result Code (Unit {0}) × S)
      (before after : S)
      → store.authenticate id verify before ≡ (ok tt, after)
      → (snapshot : TokenSnapshot) × (row id ≡ some snapshot)
        × (verify snapshot before ≡ (ok tt, after))

module _ (sha256 : Bytes → Bytes) (store : Store) (row : Bytes → Option TokenSnapshot)
    (law : IsTokenStore store row) where
  -- The token that was shown, and its row in the store.
  pub record IsShown (raw : Bytes) (now : ℕ) (id : Bytes) (snapshot : TokenSnapshot) : Type 0 where
    pub parsed : parse_raw_token sha256 raw ≡ ok (id, snapshot.digest)
    pub kept : row id ≡ some snapshot
    pub alive : IsAlive now snapshot

  accepted :
      (id : Bytes) (verify : TokenSnapshot → Result Code (Unit {0}))
      → redacted (store.authenticate id (λ snapshot nothing. (verify snapshot, nothing)) (tt {0})).0
        ≡ ok tt
      → (snapshot : TokenSnapshot) × (row id ≡ some snapshot) × (verify snapshot ≡ ok tt)
  accepted id verify h =
      let yes =
        redacted-eq-ok
          (store.authenticate id (λ snapshot nothing. (verify snapshot, nothing)) (tt {0})).0 tt
          h in
      let (snapshot, kept, checked) =
        law.sound id (λ snapshot nothing. (verify snapshot, nothing)) tt
          (store.authenticate id (λ snapshot nothing. (verify snapshot, nothing)) (tt {0})).1
          (λ i. (yes i, tt)) in
      (snapshot, kept, ap (λ r. r.0) checked)

  -- For a store that accepts a token only where the callback accepted its row: if `Authenticate`
  -- answers an identity, the raw token is well formed and its digest is the one that the store
  -- keeps for its identifier; neither the token nor its session is revoked and the token is not
  -- expired; the row's binding is the one asked for; and the identity is that binding with the
  -- connection and the token's identifier.
  pub authenticate_sound :
      (request : AuthenticateRequest) (now : ℕ) (identity : ConnectionIdentity)
      → authenticate sha256 store request now ≡ ok identity
      → (id : Bytes) × (snapshot : TokenSnapshot) × IsShown request.token now id snapshot
        × (snapshot.binding ≡ request.binding)
        × (identity ≡ record {
          user_id = request.binding.user_id;
          device_id = request.binding.device_id;
          session_id = request.binding.session_id;
          connection_id = request.connection_id;
          token_id = id;
        })
  unfolding authenticate
  authenticate_sound request now identity h =
      let (_, h1) =
        reject-eq-ok (not (valid_binding request.binding) || not (valid_id request.connection_id))
          invalid_input _ h in
      let ((id, digest), parsed, h2) = >>=-eq-ok (parse_raw_token sha256 request.token) _ h1 in
      let (_, said, h3) =
        >>=-eq-ok
          (redacted
            (store.authenticate id
              (λ snapshot nothing. (verify_token digest request.binding now snapshot, nothing))
              (tt {0})).0)
          _ h2 in
      let (snapshot, kept, checked) = accepted id (verify_token digest request.binding now) said in
      let (same, bound, alive) = verify_token-parts digest request.binding now snapshot checked in
      let made =
        own-eq-ok
          (new_connection_identity request.binding.user_id request.binding.device_id
            request.binding.session_id request.connection_id id)
          identity
          (redacted-eq-ok
            (own (
              new_connection_identity request.binding.user_id request.binding.device_id
                request.binding.session_id request.connection_id id))
            identity h3) in
      (
        id,
        snapshot,
        record { parsed = parsed ∙ ap (λ d. ok (id, d)) (sym same); kept = kept; alive = alive },
        bound,
        new_connection_identity-same request.binding.user_id request.binding.device_id
            request.binding.session_id request.connection_id id identity made,
      )

  -- For a store that accepts a token only where the callback accepted its row: if
  -- `AuthenticateBearer` answers a session, the raw token is well formed and the digest of the raw
  -- token is the one that the store keeps for its identifier; neither the token nor its session is
  -- revoked and the token is not expired; and the session is the user, device and session that the
  -- store keeps for the token, with its expiry.
  pub authenticate_bearer_sound :
      (raw : Bytes) (now : ℕ) (session : BearerSession)
      → authenticate_bearer sha256 store raw now ≡ ok session
      → (id : Bytes) × (snapshot : TokenSnapshot) × IsShown raw now id snapshot
        × (session ≡ record {
          binding = snapshot.binding;
          token_id = id;
          expires_at = snapshot.expires_at;
        })
  unfolding authenticate_bearer
  authenticate_bearer_sound raw now session h =
      let ((id, digest), parsed, h1) = >>=-eq-ok (parse_raw_token sha256 raw) _ h in
      let answer = store.authenticate id (verify_bearer digest now) nothing_captured in
      let (_, said, h2) = >>=-eq-ok (redacted answer.0) _ h1 in
      let accept = redacted-eq-ok answer.0 tt said in
      let (snapshot, kept, checked) =
        law.sound id (verify_bearer digest now) nothing_captured answer.1
          (λ i. (accept i, answer.1)) in
      let (same, alive, written) =
        verify_bearer-parts digest now snapshot nothing_captured answer.1 checked in
      let built = new_bearer_session answer.1.binding id answer.1.expires_at in
      let made =
        new_bearer_session-same answer.1.binding id answer.1.expires_at session
          (own-eq-ok built session (redacted-eq-ok (own built) session h2)) in
      (
        id,
        snapshot,
        record { parsed = parsed ∙ ap (λ d. ok (id, d)) (sym same); kept = kept; alive = alive },
        made
            ∙ ap (λ c. record { binding = c.binding; token_id = id; expires_at = c.expires_at })
                written,
      )
