-- ===== src/AuthSession/Refused.antt =====
-- The authentications that are refused, and with which code (server/auth/session/bearer.go).
use new_im.Common.{
  ℕ, ◌<◌, ◌≤◌, ◌≡◌, refl, ap, ◌∙◌, Option, none, some, Result, ok, err, ◌>>=◌, ◌>>◌, arith,
}
use new_im.Bytes.{Bytes, eq_bytes_refl}
use new_im.AuthSession.Types.{
  Code, token_revoked, session_revoked, token_expired, Failure, coded, error_code, redacted_error,
  TokenSnapshot, verify_digest, Store,
}
use new_im.AuthSession.Token.{parse_raw_token}
use new_im.AuthSession.Service.{
  redacted, own, current_time, check_alive, nothing_captured, Captured, check_bearer, capture,
  verify_bearer, new_bearer_session, authenticate_bearer,
}

-- A store that finds a token's row and hands on the code that the callback refuses it with.
pub record IsReporting (store : Store) (row : Bytes → Option TokenSnapshot) : Type 1 where
  pub reports :
      {S : Type 0} (id : Bytes) (verify : TokenSnapshot → S → Result Code (Unit {0}) × S)
      (before after : S) (snapshot : TokenSnapshot) (code : Code)
      → row id ≡ some snapshot
      → verify snapshot before ≡ (err code, after)
      → store.authenticate id verify before ≡ (err (coded code), after)

-- Why a token is dead, and the code that says so.
pub data IsDead (now : ℕ) (snapshot : TokenSnapshot) : Code → Type 0 where
  token_gone : (at : ℕ) → snapshot.token_revoked_at ≡ some at → IsDead now snapshot token_revoked
  session_gone :
      (at : ℕ)
      → snapshot.token_revoked_at ≡ none
      → snapshot.session_revoked_at ≡ some at
      → IsDead now snapshot session_revoked
  too_late :
      0 < now
      → snapshot.token_revoked_at ≡ none
      → snapshot.session_revoked_at ≡ none
      → snapshot.expires_at ≤ now
      → IsDead now snapshot token_expired

check_alive-IsDead :
    (now : ℕ) (snapshot : TokenSnapshot) (code : Code)
    → IsDead now snapshot code
    → check_alive now snapshot ≡ err code
unfolding check_alive current_time
check_alive-IsDead now snapshot _ (token_gone at gone) = ground arith
check_alive-IsDead now snapshot _ (session_gone at kept gone) = ground arith
check_alive-IsDead now snapshot _ (too_late clock kept session_kept late) = ground arith

IsDead-redacted :
    (now : ℕ) (snapshot : TokenSnapshot) (code : Code)
    → IsDead now snapshot code
    → redacted_error (coded code) ≡ code
unfolding redacted_error error_code
IsDead-redacted now snapshot _ (token_gone at gone) = refl
IsDead-redacted now snapshot _ (session_gone at kept gone) = refl
IsDead-redacted now snapshot _ (too_late clock kept session_kept late) = refl

verify_bearer-IsDead :
    (now : ℕ) (snapshot : TokenSnapshot) (code : Code)
    → IsDead now snapshot code
    → verify_bearer snapshot.digest now snapshot nothing_captured ≡ (err code, nothing_captured)
unfolding verify_bearer check_bearer verify_digest capture
verify_bearer-IsDead now snapshot code dead =
    let checked : check_bearer snapshot.digest now snapshot ≡ err code =
      ground (arith, eq_bytes_refl snapshot.digest, check_alive-IsDead now snapshot code dead) in
    ap (capture snapshot nothing_captured) checked

-- For a store that hands on the code that the callback refuses a row with: a well-formed token
-- whose digest is the one kept is refused by `AuthenticateBearer`, as revoked where its row says
-- so; else as one of a revoked session where the row says so; else, at a time that the clock can
-- give, as expired from the moment of its expiry on.
pub authenticate_bearer_refused :
    (sha256 : Bytes → Bytes) (store : Store) (row : Bytes → Option TokenSnapshot) (raw id : Bytes)
    (snapshot : TokenSnapshot) (now : ℕ) (code : Code)
    → IsReporting store row
    → parse_raw_token sha256 raw ≡ ok (id, snapshot.digest)
    → row id ≡ some snapshot
    → IsDead now snapshot code
    → authenticate_bearer sha256 store raw now ≡ err code
unfolding authenticate_bearer redacted
authenticate_bearer_refused sha256 store row raw id snapshot now code law parsed kept dead =
    let answer =
      law.reports id (verify_bearer snapshot.digest now) nothing_captured nothing_captured snapshot
        code kept (verify_bearer-IsDead now snapshot code dead) in
    let finish = λ (a : Result Failure (Unit {0}) × Captured).
      redacted a.0 >> redacted (own (new_bearer_session a.1.binding id a.1.expires_at)) in
    ap
      (λ p. p >>= λ parsed.
        (let a = store.authenticate parsed.0 (verify_bearer parsed.1 now) nothing_captured in
          redacted a.0 >> redacted (own (new_bearer_session a.1.binding parsed.0 a.1.expires_at))))
      parsed
    ∙ ap finish answer
    ∙ ap err (IsDead-redacted now snapshot code dead)
