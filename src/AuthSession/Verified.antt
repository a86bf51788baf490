-- ===== src/AuthSession/Verified.antt =====
-- What the steps of an authentication check (server/auth/session/service.go, bearer.go).
use new_im.Common.{
  ℕ, ◌<◌, ◌≡◌, refl, sym, ap, true, not, none, Result, ok, err, reject-eq-ok, arith,
}
use new_im.Bytes.{Bytes, eq_bytes, eq_bytes_sound}
use new_im.AuthSession.Identity.{SessionBinding, ConnectionIdentity}
use new_im.AuthSession.Types.{
  Code, Failure, token_unknown, forbidden, TokenSnapshot, verify_digest, new_connection_identity,
}
use new_im.AuthSession.Service.{
  redacted, own, current_time, eq_binding, check_alive, verify_token, Captured, check_bearer,
  capture, verify_bearer, BearerSession, new_bearer_session,
}

-- A token that is neither revoked, itself or by its session, nor expired.
pub record IsAlive (now : ℕ) (snapshot : TokenSnapshot) : Type 0 where
  pub token_kept : snapshot.token_revoked_at ≡ none
  pub session_kept : snapshot.session_revoked_at ≡ none
  pub clock : 0 < now
  pub in_time : now < snapshot.expires_at

pub check_alive-IsAlive :
    (now : ℕ) (snapshot : TokenSnapshot) → check_alive now snapshot ≡ ok tt → IsAlive now snapshot
unfolding check_alive current_time
check_alive-IsAlive now snapshot h = record {
  token_kept = ground arith;
  session_kept = ground arith;
  clock = ground arith;
  in_time = ground arith;
}

pub eq_binding_sound : (a b : SessionBinding) → eq_binding a b ≡ true → a ≡ b
unfolding eq_binding
eq_binding_sound a b h =
    let u = eq_bytes_sound a.user_id b.user_id (ground arith) in
    let d = eq_bytes_sound a.device_id b.device_id (ground arith) in
    let s = eq_bytes_sound a.session_id b.session_id (ground arith) in cc (u, d, s)

pub verify_token-parts :
    (digest : Bytes) (binding : SessionBinding) (now : ℕ) (snapshot : TokenSnapshot)
    → verify_token digest binding now snapshot ≡ ok tt
    → (snapshot.digest ≡ digest) × (snapshot.binding ≡ binding) × IsAlive now snapshot
unfolding verify_token verify_digest
verify_token-parts digest binding now snapshot h =
    let (same, h1) = reject-eq-ok (not (eq_bytes snapshot.digest digest)) token_unknown _ h in
    let (bound, h2) = reject-eq-ok (not (eq_binding snapshot.binding binding)) forbidden _ h1 in
    (
      eq_bytes_sound snapshot.digest digest (ground (arith, same)),
      eq_binding_sound snapshot.binding binding (ground (arith, bound)),
      check_alive-IsAlive now snapshot h2,
    )

pub redacted-eq-ok {ℓ} : {A : Type ℓ} (r : Result Failure A) (a : A) → redacted r ≡ ok a → r ≡ ok a
unfolding redacted
redacted-eq-ok (ok b) a h = cc h
redacted-eq-ok (err failure) a h = cc

pub own-eq-ok {ℓ} : {A : Type ℓ} (r : Result Code A) (a : A) → own r ≡ ok a → r ≡ ok a
unfolding own
own-eq-ok (ok b) a h = cc h
own-eq-ok (err code) a h = cc

pub new_connection_identity-same :
    (user device session connection token : Bytes) (i : ConnectionIdentity)
    → new_connection_identity user device session connection token ≡ ok i
    → i ≡ record {
      user_id = user;
      device_id = device;
      session_id = session;
      connection_id = connection;
      token_id = token;
    }
unfolding new_connection_identity
new_connection_identity-same user device session connection token i h = ground arith

pub capture-ok :
    (snapshot : TokenSnapshot) (before after : Captured) (r : Result Code (Unit {0}))
    → capture snapshot before r ≡ (ok tt, after)
    → (r ≡ ok tt)
      × (after ≡ record { binding = snapshot.binding; expires_at = snapshot.expires_at })
unfolding capture
capture-ok snapshot before after (ok _) h = (refl, sym (ap (λ p. p.1) h))
capture-ok snapshot before after (err code) h = absurd (cc (ap (λ p. p.0) h))

pub verify_bearer-parts :
    (digest : Bytes) (now : ℕ) (snapshot : TokenSnapshot) (before after : Captured)
    → verify_bearer digest now snapshot before ≡ (ok tt, after)
    → (snapshot.digest ≡ digest)
      × IsAlive now snapshot
      × (after ≡ record { binding = snapshot.binding; expires_at = snapshot.expires_at })
unfolding verify_bearer check_bearer verify_digest
verify_bearer-parts digest now snapshot before after h =
    let (checked, written) =
      capture-ok snapshot before after (check_bearer digest now snapshot) h in
    let (same, h1) = reject-eq-ok (not (eq_bytes snapshot.digest digest)) token_unknown _ checked in
    (
      eq_bytes_sound snapshot.digest digest (ground (arith, same)),
      check_alive-IsAlive now snapshot h1,
      written,
    )

pub new_bearer_session-same :
    (binding : SessionBinding) (id : Bytes) (expires : ℕ) (s : BearerSession)
    → new_bearer_session binding id expires ≡ ok s
    → s ≡ record { binding = binding; token_id = id; expires_at = expires }
unfolding new_bearer_session
new_bearer_session-same binding id expires s h = ground arith
