-- ===== src/AuthSession/Issue.antt =====
-- The issue of a token, and its use (server/auth/session/service.go, bearer.go).
use new_im.Common.{
  ℕ, zero, suc, ◌+◌, ◌≤◌, ◌<◌, ◌≡◌, sym, ap, ◌∙◌, subst, ◌⊎◌, inl, inr, true, not, ◌||◌, Option,
  none, some, Result, ok, err, ◌>>=◌, ◌>>◌, reject-eq-ok, arith,
}
use new_im.Common.Int.{ℤ, ltb_ℤ}
use new_im.Bytes.{Bytes, eq_bytes_refl}
use new_im.AuthSession.Identity.{SessionBinding, valid_binding, valid_token_id}
use new_im.AuthSession.Types.{
  Code, Failure, invalid_input, token_collision, IssueRequest, TokenSnapshot, verify_digest, Store,
}
use new_im.AuthSession.Token.{IssuedToken, Reads, min_ttl, max_ttl, generate_issued_token}
use new_im.AuthSession.Service.{
  redacted, own, current_time, check_alive, nothing_captured, Captured, check_bearer, capture,
  verify_bearer, new_bearer_session, authenticate_bearer, generate, IssueStore, issue_attempt,
  is_collision, issue_loop, issue, max_issue_attempts,
}
use new_im.AuthSession.RoundTrip.{IsFull, IsIssued, generate-IsIssued}
use new_im.AuthSession.Verified.{redacted-eq-ok}

-- The attempt that a loop ends with, behind collisions only.
record IsSettledBy (store : IssueStore) (binding : SessionBinding)
    (generated : ℕ → Result Code IssuedToken) (first bound k : ℕ) (token : IssuedToken)
    : Type 0 where
  from : first ≤ k
  below : k < bound
  answered : issue_attempt store k binding (generated k) ≡ ok token
  collided :
      (j : ℕ)
      → first ≤ j
      → j < k
      → issue_attempt store j binding (generated j) ≡ err token_collision

issue_loop-step :
    (store : IssueStore) (binding : SessionBinding) (generated : ℕ → Result Code IssuedToken)
    (left attempt : ℕ) (token : IssuedToken)
    → issue_loop store binding generated (suc left) attempt ≡ ok token
    → (issue_attempt store attempt binding (generated attempt) ≡ ok token)
      ⊎ ((issue_attempt store attempt binding (generated attempt) ≡ err token_collision)
          × (issue_loop store binding generated left (attempt + 1) ≡ ok token))
unfolding issue_loop is_collision
issue_loop-step store binding generated left attempt token h = ground arith

first_or_later : (a j : ℕ) → a ≤ j → (j ≡ a) ⊎ (a + 1 ≤ j)
first_or_later a j h = ground arith

issue_loop-IsSettledBy :
    (store : IssueStore) (binding : SessionBinding) (generated : ℕ → Result Code IssuedToken)
    (left attempt : ℕ) (token : IssuedToken)
    → issue_loop store binding generated left attempt ≡ ok token
    → (k : ℕ) × IsSettledBy store binding generated attempt (attempt + left) k token
issue_loop-IsSettledBy store binding generated zero attempt token h =
    absurd (unfold issue_loop in cc h)
issue_loop-IsSettledBy store binding generated (suc left) attempt token h =
    elim (issue_loop-step store binding generated left attempt token h) [
      | inl done ↦ (
        attempt,
        record {
          from = omega arith;
          below = omega arith;
          answered = done;
          collided = λ j lo hi. absurd (omega arith);
        },
      )
      | inr (collision, go_on) ↦
          let (k, s) =
            issue_loop-IsSettledBy store binding generated left (attempt + 1) token go_on in
          (
            k,
            record {
              from = omega (arith, s.from);
              below = omega (arith, s.below);
              answered = s.answered;
              collided = λ j lo hi. elim (first_or_later attempt j lo) [
                | inl same ↦
                    subst (λ i. issue_attempt store i binding (generated i) ≡ err token_collision)
                      (sym same) collision
                | inr later ↦ s.collided j later hi
              ];
            },
          )
    ]

-- A store that commits only what the callback made.
pub record IsIssueStore (store : IssueStore) : Type 0 where
  pub commits :
      (attempt : ℕ) (binding : SessionBinding) (generated : Result Code IssuedToken)
      (token : IssuedToken)
      → store attempt binding generated ≡ ok token
      → generated ≡ ok token

generate-made :
    (sha256 : Bytes → Bytes) (ttl : ℤ) (reads : Reads) (now : ℕ) (token : IssuedToken)
    → generate sha256 ttl reads now ≡ ok token
    → generate_issued_token sha256 (some reads) now ttl ≡ ok token
unfolding generate current_time
generate-made sha256 ttl reads now token h = ground arith

module _ (sha256 : Bytes → Bytes) (store : IssueStore) (law : IsIssueStore store)
    (reads : ℕ → Reads) (full : (k : ℕ) → IsFull (reads k)) (clock : ℕ → ℕ) where
  attempt-committed :
      (binding : SessionBinding) (ttl : ℤ) (k : ℕ) (token : IssuedToken)
      → issue_attempt store k binding (generate sha256 ttl (reads k) (clock k)) ≡ ok token
      → store k binding (generate sha256 ttl (reads k) (clock k)) ≡ ok token
  unfolding issue_attempt
  attempt-committed binding ttl k token h =
      redacted-eq-ok (store k binding (generate sha256 ttl (reads k) (clock k))) token h

  attempt-IsIssued :
      (binding : SessionBinding) (ttl : ℤ) (k : ℕ) (token : IssuedToken)
      → issue_attempt store k binding (generate sha256 ttl (reads k) (clock k)) ≡ ok token
      → IsIssued sha256 (clock k) ttl token
  attempt-IsIssued binding ttl k token h =
      generate-IsIssued sha256 (reads k) (clock k) ttl token (full k) (
        generate-made sha256 ttl (reads k) (clock k) token (
          law.commits k binding (generate sha256 ttl (reads k) (clock k)) token
            (attempt-committed binding ttl k token h)))

  -- For a store that commits only what the callback made, and entropy that gives 16 and 32 bytes
  -- where it gives any: a token that `Issue` gives was asked for by a valid binding and is the one
  -- that the store committed at one of three attempts, and all attempts before that one met a
  -- collision; its raw value is read back as its identifier and digest; its identifier is valid;
  -- it is issued in the microsecond of the attempt's clock and lives for exactly the time asked
  -- for.
  pub issue-IsIssued :
      (request : IssueRequest) (token : IssuedToken)
      → issue store request (λ k. generate sha256 request.ttl (reads k) (clock k)) ≡ ok token
      → (valid_binding request.binding ≡ true)
        × (k : ℕ) × (k < 3)
        × (store k request.binding (generate sha256 request.ttl (reads k) (clock k)) ≡ ok token)
        × IsIssued sha256 (clock k) request.ttl token
        × ((j : ℕ)
            → j < k
            → issue_attempt store j request.binding
                (generate sha256 request.ttl (reads j) (clock j))
              ≡ err token_collision)
  unfolding issue
  issue-IsIssued request token h =
      let generated = λ (k : ℕ). generate sha256 request.ttl (reads k) (clock k) in
      let (good, looped) =
        reject-eq-ok
          (not (valid_binding request.binding)
            || ltb_ℤ request.ttl min_ttl
            || ltb_ℤ max_ttl request.ttl)
          invalid_input _ h in
      let (k, s) =
        issue_loop-IsSettledBy store request.binding generated max_issue_attempts 0 token looped in
      (
        ground (arith, good),
        k,
        s.below,
        attempt-committed request.binding request.ttl k token s.answered,
        attempt-IsIssued request.binding request.ttl k token s.answered,
        λ j lo. s.collided j (omega arith) lo,
      )

-- A store that finds a token's row and says yes where the callback accepts it.
pub record IsAnswering (store : Store) (row : Bytes → Option TokenSnapshot) : Type 1 where
  pub complete :
      {S : Type 0} (id : Bytes) (verify : TokenSnapshot → S → Result Code (Unit {0}) × S)
      (before after : S) (snapshot : TokenSnapshot)
      → row id ≡ some snapshot
      → verify snapshot before ≡ (ok tt, after)
      → store.authenticate id verify before ≡ (ok tt, after)

-- The row that keeps an issued token, before any revocation.
abbrev pub row_of : SessionBinding → IssuedToken → TokenSnapshot
row_of binding token = record {
  token_id = token.token_id;
  digest = token.digest;
  binding = binding;
  expires_at = token.expires_at;
  token_revoked_at = none;
  session_revoked_at = none;
}

verify_bearer-row_of :
    (binding : SessionBinding) (token : IssuedToken) (now : ℕ)
    → 0 < now
    → now < token.expires_at
    → verify_bearer token.digest now (row_of binding token) nothing_captured
      ≡ (ok tt, record { binding = binding; expires_at = token.expires_at })
unfolding verify_bearer check_bearer verify_digest check_alive current_time capture
verify_bearer-row_of binding token now clock in_time =
    let checked : check_bearer token.digest now (row_of binding token) ≡ ok tt =
      ground (arith, eq_bytes_refl token.digest) in
    ap (capture (row_of binding token) nothing_captured) checked

session_made :
    (binding : SessionBinding) (id : Bytes) (expires : ℕ)
    → valid_binding binding ≡ true
    → valid_token_id id ≡ true
    → 0 < expires
    → redacted (own (new_bearer_session binding id expires))
      ≡ ok (record { binding = binding; token_id = id; expires_at = expires })
unfolding redacted own new_bearer_session
session_made binding id expires b i e = ground arith

-- For a store that finds a row and accepts where the callback accepts: an issued token whose row
-- is kept, not revoked, for a valid binding is accepted by `AuthenticateBearer` at every time
-- before its expiry, as that binding and with that expiry.
pub authenticate_bearer_issued :
    (sha256 : Bytes → Bytes) (store : Store) (row : Bytes → Option TokenSnapshot)
    (binding : SessionBinding) (token : IssuedToken) (issued now : ℕ) (ttl : ℤ)
    → IsAnswering store row
    → IsIssued sha256 issued ttl token
    → valid_binding binding ≡ true
    → row token.token_id ≡ some (row_of binding token)
    → 0 < now
    → now < token.expires_at
    → authenticate_bearer sha256 store token.raw_token now
      ≡ ok (record { binding = binding; token_id = token.token_id; expires_at = token.expires_at })
unfolding authenticate_bearer redacted
authenticate_bearer_issued sha256 store row binding token issued now ttl law is valid kept clock
      in_time =
    let answer =
      law.complete token.token_id (verify_bearer token.digest now) nothing_captured
        (record { binding = binding; expires_at = token.expires_at }) (row_of binding token) kept
        (verify_bearer-row_of binding token now clock in_time) in
    let finish = λ (a : Result Failure (Unit {0}) × Captured).
      redacted a.0
      >> redacted (own (new_bearer_session a.1.binding token.token_id a.1.expires_at)) in
    ap
      (λ p. p >>= λ parsed.
        (let a = store.authenticate parsed.0 (verify_bearer parsed.1 now) nothing_captured in
          redacted a.0 >> redacted (own (new_bearer_session a.1.binding parsed.0 a.1.expires_at))))
      is.parsed
    ∙ ap finish answer
    ∙ session_made binding token.token_id token.expires_at valid is.valid (omega arith)
