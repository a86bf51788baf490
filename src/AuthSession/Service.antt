-- ===== src/AuthSession/Service.antt =====
-- server/auth/session/service.go and bearer.go. Each operation takes the reading of its clock (0 is
-- Go's zero time). The context (a deadline for the store), nil receivers and the observer, which
-- changes no answer, are left out.
use new_im.Common.{
  ℕ, zero, suc, ◌+◌, Bool, true, false, not, ◌&&◌, ◌||◌, [], Option, none, some, Result, ok, err,
  ◌>>=◌, ◌>>◌, reject, ◌==◌, ltb, if◌then◌else◌,
}
use new_im.Common.Int.{ℤ, ltb_ℤ}
use new_im.Bytes.{Bytes, eq_bytes}
use new_im.AuthSession.Identity.{
  SessionBinding, ConnectionIdentity, valid_binding, valid_id, valid_token_id,
}
use new_im.AuthSession.Types.{
  Code, invalid_input, token_expired, token_revoked, session_revoked, forbidden,
  storage_unavailable, token_unknown, token_collision, Failure, coded, redacted_error, IssueRequest,
  AuthenticateRequest, RevocationOutcome, other, TokenSnapshot, verify_digest, Store,
  new_connection_identity,
}
use new_im.AuthSession.Token.{
  IssuedToken, Reads, min_ttl, max_ttl, generate_issued_token, parse_raw_token,
}

-- An error of another call, redacted.
unfoldable pub redacted {ℓ} : {A : Type ℓ} → Result Failure A → Result Code A
redacted (ok a) = ok a
redacted (err failure) = err (redacted_error failure)

unfoldable pub own {ℓ} : {A : Type ℓ} → Result Code A → Result Failure A
own (ok a) = ok a
own (err code) = err (coded code)

unfoldable pub current_time : ℕ → Result Code ℕ
current_time now = do reject (now == 0) storage_unavailable; ok now

abbrev pub is_set {ℓ} : {A : Type ℓ} → Option A → Bool
is_set none = false
is_set (some _) = true

-- Go's `==` on bindings.
unfoldable pub eq_binding : SessionBinding → SessionBinding → Bool
eq_binding a b =
    eq_bytes a.user_id b.user_id
    && eq_bytes a.device_id b.device_id
    && eq_bytes a.session_id b.session_id

-- Revocation and expiry, as `Authenticate` and `AuthenticateBearer` both check them.
unfoldable pub check_alive : ℕ → TokenSnapshot → Result Code (Unit {0})
check_alive now snapshot = do
  reject (is_set snapshot.token_revoked_at) token_revoked
  reject (is_set snapshot.session_revoked_at) session_revoked
  at ← current_time now
  reject (not (ltb at snapshot.expires_at)) token_expired

-- `verify` of `Authenticate`.
unfoldable pub verify_token : Bytes → SessionBinding → ℕ → TokenSnapshot → Result Code (Unit {0})
verify_token digest binding now snapshot = do
  reject (not (verify_digest snapshot digest)) token_unknown
  reject (not (eq_binding snapshot.binding binding)) forbidden
  check_alive now snapshot

-- The variables that `verify` of `AuthenticateBearer` writes.
pub record Captured : Type 0 where
  pub binding : SessionBinding
  pub expires_at : ℕ

abbrev pub nothing_captured : Captured
nothing_captured = record {
  binding = record { user_id = []; device_id = []; session_id = [] };
  expires_at = 0;
}

unfoldable pub check_bearer : Bytes → ℕ → TokenSnapshot → Result Code (Unit {0})
check_bearer digest now snapshot = do
  reject (not (verify_digest snapshot digest)) token_unknown
  check_alive now snapshot

-- The variables are written where nothing failed.
unfoldable pub capture :
    TokenSnapshot → Captured → Result Code (Unit {0}) → Result Code (Unit {0}) × Captured
capture snapshot before (ok _) =
    (ok tt, record { binding = snapshot.binding; expires_at = snapshot.expires_at })
capture snapshot before (err code) = (err code, before)

-- `verify` of `AuthenticateBearer`.
unfoldable pub verify_bearer :
    Bytes → ℕ → TokenSnapshot → Captured → Result Code (Unit {0}) × Captured
verify_bearer digest now snapshot before =
    capture snapshot before (check_bearer digest now snapshot)

pub record BearerSession : Type 0 where
  pub binding : SessionBinding
  pub token_id : Bytes
  pub expires_at : ℕ

unfoldable pub new_bearer_session : SessionBinding → Bytes → ℕ → Result Code BearerSession
new_bearer_session binding token_id expires_at = do
  reject (not (valid_binding binding) || not (valid_token_id token_id) || expires_at == 0)
      storage_unavailable
  ok (record { binding = binding; token_id = token_id; expires_at = expires_at })

-- The outcomes that a revocation may have.
unfoldable pub known_outcome : RevocationOutcome → Result Code RevocationOutcome
known_outcome (other _) = err storage_unavailable
known_outcome outcome = ok outcome

unfoldable pub revoke_session : Store → SessionBinding → ℕ → Result Code RevocationOutcome
revoke_session store binding now = do
  reject (not (valid_binding binding)) invalid_input
  at ← current_time now
  outcome ← redacted (store.revoke_session binding at)
  known_outcome outcome

unfoldable pub revoke_token : Store → Bytes → Bytes → ℕ → Result Code RevocationOutcome
revoke_token store user_id token_id now = do
  reject (not (valid_id user_id) || not (valid_token_id token_id)) invalid_input
  at ← current_time now
  outcome ← redacted (store.revoke_token user_id token_id at)
  known_outcome outcome

module _ (sha256 : Bytes → Bytes) where
  unfoldable pub authenticate : Store → AuthenticateRequest → ℕ → Result Code ConnectionIdentity
  authenticate store request now = do
    reject (not (valid_binding request.binding) || not (valid_id request.connection_id))
        invalid_input
    parsed ← parse_raw_token sha256 request.token
    redacted
        (store.authenticate parsed.0
          (λ snapshot nothing. (verify_token parsed.1 request.binding now snapshot, nothing))
          (tt {0})).0
    redacted (
        own (
          new_connection_identity request.binding.user_id request.binding.device_id
            request.binding.session_id request.connection_id parsed.0))

  unfoldable pub authenticate_bearer : Store → Bytes → ℕ → Result Code BearerSession
  authenticate_bearer store raw now = do
    parsed ← parse_raw_token sha256 raw
    let answer = store.authenticate parsed.0 (verify_bearer parsed.1 now) nothing_captured
    redacted answer.0
    redacted (own (new_bearer_session answer.1.binding parsed.0 answer.1.expires_at))

  unfoldable pub revoke_bearer : Store → Bytes → ℕ → Result Code RevocationOutcome
  revoke_bearer store raw now = do
    parsed ← parse_raw_token sha256 raw
    at ← current_time now
    outcome ← redacted (
        store.revoke_bearer parsed.0
          (λ snapshot. reject (not (verify_digest snapshot parsed.1)) token_unknown) at)
    known_outcome outcome

  -- The `generate` that an attempt hands to the store, with what the entropy and the clock give it.
  unfoldable pub generate : ℤ → Reads → ℕ → Result Code IssuedToken
  generate ttl reads now = do
    at ← current_time now
    generate_issued_token sha256 (some reads) at ttl

-- The store's answer to an attempt: it runs `generate` in its transaction.
abbrev pub IssueStore : Type 0
IssueStore = ℕ → SessionBinding → Result Code IssuedToken → Result Failure IssuedToken

unfoldable pub issue_attempt :
    IssueStore → ℕ → SessionBinding → Result Code IssuedToken → Result Code IssuedToken
issue_attempt store attempt binding generated = redacted (store attempt binding generated)

unfoldable pub is_collision : Code → Bool
is_collision token_collision = true
is_collision _ = false

-- The loop of `Issue`, with the attempts that are left and the number of the next one.
unfoldable pub issue_loop :
    IssueStore → SessionBinding → (ℕ → Result Code IssuedToken) → ℕ → ℕ → Result Code IssuedToken
issue_loop store binding generated zero attempt = err token_collision
issue_loop store binding generated (suc left) attempt =
    let again = issue_loop store binding generated left (attempt + 1) in
    elim (issue_attempt store attempt binding (generated attempt)) [
      | ok issued ↦ ok issued
      | err code ↦ if is_collision code then again else err (redacted_error (coded code))
    ]

abbrev pub max_issue_attempts : ℕ
max_issue_attempts = 3

unfoldable pub issue :
    IssueStore → IssueRequest → (ℕ → Result Code IssuedToken) → Result Code IssuedToken
issue store request generated = do
  reject
      (not (valid_binding request.binding)
        || ltb_ℤ request.ttl min_ttl
        || ltb_ℤ max_ttl request.ttl)
      invalid_input
  issue_loop store request.binding generated max_issue_attempts 0
