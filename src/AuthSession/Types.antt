-- ===== src/AuthSession/Types.antt =====
-- server/auth/session/types.go and store.go: the codes, the requests, and what the store keeps.
-- An instant is its nanoseconds from Go's zero time on (so `IsZero` is 0); a duration is an integer.
use new_im.Common.{ℕ, Bool, not, ◌||◌, List, Option, Result, ok, ◌>>◌, reject, ◌==◌, length}
use new_im.Common.Int.{ℤ}
use new_im.Bytes.{Bytes, eq_bytes}
use new_im.AuthSession.Identity.{
  SessionBinding, ConnectionIdentity, valid_id, valid_token_id, valid_binding,
}

-- The codes of errors; `no_code` is the empty one.
pub data Code : Type 0 where
  no_code : Code
  invalid_input : Code
  token_malformed : Code
  token_expired : Code
  token_revoked : Code
  session_revoked : Code
  session_not_found : Code
  forbidden : Code
  storage_unavailable : Code
  policy_required : Code
  policy_invalid : Code
  observer_required : Code
  clock_required : Code
  token_unknown : Code
  token_collision : Code
  entropy_unavailable : Code

-- An `error` that another package hands over: one of ours, or any other.
pub data Failure : Type 0 where
  coded : Code → Failure
  foreign : Failure

unfoldable pub error_code : Failure → Code
error_code (coded code) = code
error_code foreign = storage_unavailable

unfoldable pub redacted_error : Failure → Code
unfolding error_code
redacted_error failure = elim (error_code failure) [ no_code ↦ storage_unavailable | code ↦ code ]

pub record IssueRequest : Type 0 where
  pub binding : SessionBinding
  pub ttl : ℤ

pub record AuthenticateRequest : Type 0 where
  pub token : Bytes
  pub binding : SessionBinding
  pub connection_id : Bytes

-- `RevocationOutcome`, a string: the two that the code names, and any other.
pub data RevocationOutcome : Type 0 where
  revoke_ok : RevocationOutcome
  revoke_noop : RevocationOutcome
  other : Bytes → RevocationOutcome

unfoldable pub new_connection_identity :
    Bytes → Bytes → Bytes → Bytes → Bytes → Result Code ConnectionIdentity
new_connection_identity user device session connection token = do
  reject
      (not (valid_id user)
        || not (valid_id device)
        || not (valid_id session)
        || not (valid_id connection)
        || not (valid_token_id token))
      invalid_input
  ok (record {
    user_id = user;
    device_id = device;
    session_id = session;
    connection_id = connection;
    token_id = token;
  })

pub record TokenSnapshot : Type 0 where
  pub token_id : Bytes
  pub digest : Bytes
  pub binding : SessionBinding
  pub expires_at : ℕ
  pub token_revoked_at : Option ℕ
  pub session_revoked_at : Option ℕ

unfoldable pub new_token_snapshot :
    Bytes → Bytes → SessionBinding → ℕ → Option ℕ → Option ℕ → Result Code TokenSnapshot
new_token_snapshot token_id digest binding expires_at token_revoked_at session_revoked_at = do
  reject
      (not (valid_token_id token_id)
        || not (length digest == 32)
        || not (valid_binding binding)
        || expires_at == 0)
      storage_unavailable
  ok (record {
    token_id = token_id;
    digest = digest;
    binding = binding;
    expires_at = expires_at;
    token_revoked_at = token_revoked_at;
    session_revoked_at = session_revoked_at;
  })

-- `constantTimeEqual` on the two digests.
unfoldable pub verify_digest : TokenSnapshot → Bytes → Bool
verify_digest s provided = eq_bytes s.digest provided

pub record SessionSnapshot : Type 0 where
  pub binding : SessionBinding
  pub revoked_at : Option ℕ

unfoldable pub new_session_snapshot : SessionBinding → Option ℕ → Result Code SessionSnapshot
new_session_snapshot binding revoked_at = do
  reject (not (valid_binding binding)) storage_unavailable
  ok (record { binding = binding; revoked_at = revoked_at })

pub record KickTarget : Type 0 where
  pub user_id : Bytes
  pub device_id : Bytes
  pub session_id : Bytes

pub record LoginPlan : Type 0 where
  pub binding : SessionBinding
  pub kick_targets : List KickTarget

-- The port to the store, for the calls of one request. A callback works on variables `S` of its
-- caller, which the store hands through.
pub record Store : Type 1 where
  pub authenticate :
      {S : Type 0}
      → Bytes
      → (TokenSnapshot → S → Result Code (Unit {0}) × S)
      → S
      → Result Failure (Unit {0}) × S
  pub revoke_bearer :
      Bytes → (TokenSnapshot → Result Code (Unit {0})) → ℕ → Result Failure RevocationOutcome
  pub lookup_session : Bytes → Result Failure SessionSnapshot
  pub revoke_session : SessionBinding → ℕ → Result Failure RevocationOutcome
  pub revoke_token : Bytes → Bytes → ℕ → Result Failure RevocationOutcome
