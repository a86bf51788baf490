-- ===== src/Tests/Sessions.antt =====
-- A token that is issued, kept and shown, and a login that kicks another session.
use new_im.Common.{
  ℕ, zero, suc, ◌<◌, ◌≡◌, refl, ap, subst, true, [], ◌∷◌, Option, some, none, ok, err, Result, All,
  replicate, length, ◌∙◌, if◌then◌else◌, arith,
}
use new_im.Common.Int.{pos}
use new_im.Bytes.{Bytes, every, is_identifier_char, is_hex_char, eq_bytes}
use new_im.Bytes.Base64.{raw_url_decode, decode_symbols, skip_breaks, value, raw_url_encode, symbol}
use new_im.Bytes.Text.{text, hex_digit}
use new_im.AuthSession.Identity.{
  SessionBinding, ConnectionIdentity, valid_id, valid_token_id, valid_binding,
}
use new_im.AuthSession.Types.{
  Code, Failure, coded, foreign, token_unknown, token_collision, token_expired, error_code,
  redacted_error, IssueRequest, AuthenticateRequest, TokenSnapshot, KickTarget, LoginPlan, Store,
  verify_digest, new_connection_identity, RevocationOutcome,
}
use new_im.AuthSession.Token.{
  IssuedToken, Reads, hex_encode, raw_token_of, new_issued_token, generate_issued_token, bad_frame,
  parse_raw_token,
}
use new_im.AuthSession.Service.{
  redacted, own, current_time, eq_binding, check_alive, verify_token, BearerSession, authenticate,
  authenticate_bearer, generate, IssueStore, issue_attempt, is_collision, issue_loop, issue,
}
use new_im.AuthSession.Login.{
  Policy, lookup_session, was_seen, lookup_target, plan_targets, decided, plan_login,
}
use new_im.AuthSession.RoundTrip.{IsFull, IsIssued}
use new_im.AuthSession.Verified.{own-eq-ok}
use new_im.AuthSession.Sound.{IsTokenStore, IsShown, authenticate_sound, authenticate_bearer_sound}
use new_im.AuthSession.Issue.{
  IsIssueStore, issue-IsIssued, IsAnswering, row_of, authenticate_bearer_issued,
}
use new_im.AuthSession.Refused.{IsReporting, too_late, authenticate_bearer_refused}
use new_im.AuthSession.Plans.{IsPlan, plan_login-IsPlan}

abbrev toy_sha : Bytes → Bytes
toy_sha message = replicate 32 7

abbrev ann : SessionBinding
ann = record { user_id = text "ann"; device_id = text "phone"; session_id = text "s1" }

abbrev reads : ℕ → Reads
reads k = record { token_id_bytes = some (replicate 16 17); secret_bytes = some (replicate 32 0) }

abbrev clock : ℕ → ℕ
clock k = 5000000

-- The first attempt meets a collision.
abbrev issue_store : IssueStore
issue_store zero binding generated = err (coded token_collision)
issue_store (suc k) binding (ok token) = ok token
issue_store (suc k) binding (err code) = err (coded code)

abbrev request : IssueRequest
request = record { binding = ann; ttl = pos 60000000000 }

abbrev raw : Bytes
raw = text "n1_11111111111111111111111111111111_AAAAAAAAAAAAAAAAAAAAAAAAAAAAAAAAAAAAAAAAAAA"

abbrev token : IssuedToken
token = record {
  token_id = text "11111111111111111111111111111111";
  raw_token = raw;
  digest = replicate 32 7;
  issued_at = 5000000;
  expires_at = 60005000000;
}

-- Everything that the issue computes.
abbrev issuing : Result Code IssuedToken
unfolding issue issue_loop issue_attempt is_collision redacted redacted_error error_code generate
    current_time generate_issued_token new_issued_token hex_encode hex_digit raw_token_of
    raw_url_encode symbol valid_token_id valid_binding valid_id every is_hex_char is_identifier_char
issuing = issue issue_store request (λ k. generate toy_sha request.ttl (reads k) (clock k))

issue_run :
    issue issue_store request (λ k. generate toy_sha request.ttl (reads k) (clock k)) ≡ ok token
unfolding issuing
issue_run = refl

issue_store-IsIssueStore : IsIssueStore issue_store
issue_store-IsIssueStore = record { commits = commits }
  where
    commits :
        (attempt : ℕ) (binding : SessionBinding) (generated : Result Code IssuedToken)
        (token : IssuedToken)
        → issue_store attempt binding generated ≡ ok token
        → generated ≡ ok token
    commits zero binding generated token h = cc
    commits (suc k) binding (ok made) token h = cc h
    commits (suc k) binding (err code) token h = cc

repeated-full :
    (n b : ℕ) (bs : Bytes)
    → (length (replicate n b) ≡ n) × All (λ b. b < 256) (replicate n b)
    → some (replicate n b) ≡ some bs
    → (length bs ≡ n) × All (λ b. b < 256) bs
repeated-full n b bs h e =
    let same : replicate n b ≡ bs = cc e in
    subst (λ o. (length o ≡ n) × All (λ b. b < 256) o) same h

reads-IsFull : (k : ℕ) → IsFull (reads k)
reads-IsFull k = record {
  ids = λ bs e. repeated-full 16 17 bs (refl, ground arith) e;
  secrets = λ bs e. repeated-full 32 0 bs (refl, ground arith) e;
}

issue-IsIssued_example :
    (valid_binding ann ≡ true)
    × (k : ℕ) × (k < 3)
    × (issue_store k ann (generate toy_sha request.ttl (reads k) (clock k)) ≡ ok token)
    × IsIssued toy_sha (clock k) request.ttl token
    × ((j : ℕ)
        → j < k
        → issue_attempt issue_store j ann (generate toy_sha request.ttl (reads j) (clock j))
          ≡ err token_collision)
issue-IsIssued_example =
    issue-IsIssued toy_sha issue_store issue_store-IsIssueStore reads reads-IsFull clock request
      token issue_run

-- A store with the token's row.
abbrev rows : Bytes → Option TokenSnapshot
unfolding eq_bytes
rows id = if eq_bytes id token.token_id then some (row_of ann token) else none

abbrev run_verify {ℓ} :
    {S : Type ℓ}
    → Option TokenSnapshot
    → (TokenSnapshot → S → Result Code (Unit {0}) × S)
    → S
    → Result Failure (Unit {0}) × S
run_verify none verify before = (err (coded token_unknown), before)
run_verify (some snapshot) verify before =
    (own (verify snapshot before).0, (verify snapshot before).1)

abbrev no_revocation : Result Failure RevocationOutcome
no_revocation = err foreign

abbrev token_store : Store
token_store = record {
  authenticate = λ id verify before. run_verify (rows id) verify before;
  revoke_bearer = λ _ _ _. no_revocation;
  lookup_session = λ id. ok (record {
    binding = record { user_id = text "ann"; device_id = text "phone"; session_id = id };
    revoked_at = none;
  });
  revoke_session = λ _ _. no_revocation;
  revoke_token = λ _ _ _. no_revocation;
}

run_verify_sound :
    {S : Type 0} (o : Option TokenSnapshot)
    (verify : TokenSnapshot → S → Result Code (Unit {0}) × S) (before after : S)
    → run_verify o verify before ≡ (ok tt, after)
    → (snapshot : TokenSnapshot) × (o ≡ some snapshot) × (verify snapshot before ≡ (ok tt, after))
run_verify_sound none verify before after h = absurd (cc (ap (λ p. p.0) h))
run_verify_sound (some snapshot) verify before after h =
    let accept = own-eq-ok (verify snapshot before).0 tt (ap (λ p. p.0) h) in
    (snapshot, refl, λ i. (accept i, (h i).1))

token_store-IsTokenStore : IsTokenStore token_store rows
token_store-IsTokenStore = record {
  sound = λ id verify before after h. run_verify_sound (rows id) verify before after h;
}

token_store-IsAnswering : IsAnswering token_store rows
unfolding own
token_store-IsAnswering = record {
  complete = λ id verify before after snapshot kept accept.
      ap (λ o. run_verify o verify before) kept ∙ λ i. (own (accept i).0, (accept i).1);
}

token_IsIssued : (k : ℕ) × IsIssued toy_sha (clock k) request.ttl token
token_IsIssued = (issue-IsIssued_again.0, issue-IsIssued_again.1)
  where
    issue-IsIssued_again : (k : ℕ) × IsIssued toy_sha (clock k) request.ttl token
    issue-IsIssued_again =
        let (_, k, _, _, issued, _) =
          issue-IsIssued toy_sha issue_store issue_store-IsIssueStore reads reads-IsFull clock
            request token issue_run in
        (k, issued)

abbrev session : BearerSession
session = record { binding = ann; token_id = token.token_id; expires_at = 60005000000 }

kept : rows token.token_id ≡ some (row_of ann token)
unfolding rows
kept = refl

authenticate_bearer_issued_example :
    authenticate_bearer toy_sha token_store raw 7000000 ≡ ok session
unfolding valid_binding valid_id every is_identifier_char
authenticate_bearer_issued_example =
    authenticate_bearer_issued toy_sha token_store rows ann token 5000000 7000000 (pos 60000000000)
      token_store-IsAnswering token_IsIssued.1 refl kept (ground arith) (ground arith)

token_store-IsReporting : IsReporting token_store rows
unfolding own
token_store-IsReporting = record {
  reports = λ id verify before after snapshot code kept refuse.
      ap (λ o. run_verify o verify before) kept ∙ λ i. (own (refuse i).0, (refuse i).1);
}

-- At the moment of its expiry.
authenticate_bearer_refused_example :
    authenticate_bearer toy_sha token_store raw 60005000000 ≡ err token_expired
authenticate_bearer_refused_example =
    authenticate_bearer_refused toy_sha token_store rows raw token.token_id (row_of ann token)
      60005000000 token_expired token_store-IsReporting token_IsIssued.1.parsed kept
      (too_late (ground arith) refl refl (ground arith))

authenticate_bearer_run : authenticate_bearer toy_sha token_store raw 7000000 ≡ ok session
authenticate_bearer_run = authenticate_bearer_issued_example

authenticate_bearer_sound_example :
    (id : Bytes) × (snapshot : TokenSnapshot) × IsShown toy_sha token_store rows
      token_store-IsTokenStore raw 7000000 id snapshot
    × (session
        ≡ record { binding = snapshot.binding; token_id = id; expires_at = snapshot.expires_at })
authenticate_bearer_sound_example =
    authenticate_bearer_sound toy_sha token_store rows token_store-IsTokenStore raw 7000000 session
      authenticate_bearer_run

abbrev connect : AuthenticateRequest
connect = record { token = raw; binding = ann; connection_id = text "c1" }

abbrev identity : ConnectionIdentity
identity = record {
  user_id = text "ann";
  device_id = text "phone";
  session_id = text "s1";
  connection_id = text "c1";
  token_id = token.token_id;
}

-- Everything that an authentication computes.
abbrev authenticating : Result Code ConnectionIdentity
unfolding authenticate rows parse_raw_token bad_frame raw_url_decode decode_symbols skip_breaks
    value raw_url_encode symbol verify_token verify_digest eq_binding check_alive current_time
    redacted own new_connection_identity valid_token_id valid_binding valid_id every is_hex_char
    is_identifier_char eq_bytes
authenticating = authenticate toy_sha token_store connect 7000000

authenticate_run : authenticate toy_sha token_store connect 7000000 ≡ ok identity
unfolding authenticating
authenticate_run = refl

authenticate_sound_example :
    (id : Bytes) × (snapshot : TokenSnapshot) × IsShown toy_sha token_store rows
      token_store-IsTokenStore raw 7000000 id snapshot
    × (snapshot.binding ≡ ann)
    × (identity ≡ record {
      user_id = text "ann";
      device_id = text "phone";
      session_id = text "s1";
      connection_id = text "c1";
      token_id = id;
    })
authenticate_sound_example =
    authenticate_sound toy_sha token_store rows token_store-IsTokenStore connect 7000000 identity
      authenticate_run

abbrev other_session : KickTarget
other_session = record { user_id = text "ann"; device_id = text "phone"; session_id = text "s2" }

abbrev kick_other : Policy
kick_other binding = ok (other_session ∷ [])

abbrev plan : LoginPlan
plan = record { binding = ann; kick_targets = other_session ∷ [] }

plan_run : plan_login token_store (some kick_other) ann ≡ ok plan
unfolding plan_login plan_targets decided lookup_target lookup_session was_seen redacted
    valid_binding valid_id every is_identifier_char eq_bytes
plan_run = refl

plan_login-IsPlan_example : IsPlan token_store kick_other ann plan
plan_login-IsPlan_example = plan_login-IsPlan token_store kick_other ann plan plan_run
