-- ===== src/AuthSession/Login.antt =====
-- server/auth/session/service.go: the plan of a login, which a policy decides and the service checks.
use new_im.Common.{
  Bool, false, not, ◌&&◌, ◌||◌, List, [], ◌∷◌, Option, Result, ok, err, ◌>>=◌, ◌>>◌, reject,
  or_fail, ltb, length,
}
use new_im.Bytes.{Bytes, eq_bytes}
use new_im.AuthSession.Identity.{SessionBinding, valid_binding, valid_id}
use new_im.AuthSession.Types.{
  Code, invalid_input, session_revoked, forbidden, storage_unavailable, policy_required,
  policy_invalid, Failure, SessionSnapshot, KickTarget, LoginPlan, Store,
}
use new_im.AuthSession.Service.{redacted, is_set}

abbrev pub Policy : Type 0
Policy = SessionBinding → Result Failure (List KickTarget)

unfoldable pub lookup_session : Store → Bytes → Result Code SessionSnapshot
lookup_session store session_id = redacted (store.lookup_session session_id)

-- Go's `==` on targets, and the keys of the map `seen`.
unfoldable pub eq_target : KickTarget → KickTarget → Bool
eq_target a b =
    eq_bytes a.user_id b.user_id
    && eq_bytes a.device_id b.device_id
    && eq_bytes a.session_id b.session_id

unfoldable pub was_seen : List KickTarget → KickTarget → Bool
was_seen [] target = false
was_seen (s ∷ seen) target = eq_target s target || was_seen seen target

-- The error of a target's lookup.
unfoldable pub lookup_target : Result Code SessionSnapshot → Result Code SessionSnapshot
lookup_target (ok snapshot) = ok snapshot
lookup_target (err storage_unavailable) = err storage_unavailable
lookup_target (err _) = err policy_invalid

-- The loop of `PlanLogin`, with the targets that it has seen; it answers those that it appends.
unfoldable pub plan_targets :
    Store → Bytes → List KickTarget → List KickTarget → Result Code (List KickTarget)
plan_targets store user seen [] = ok []
plan_targets store user seen (t ∷ ts) = do
  reject (not (valid_id t.user_id) || not (valid_id t.device_id) || not (valid_id t.session_id))
      policy_invalid
  reject (not (eq_bytes t.user_id user)) forbidden
  reject (was_seen seen t) policy_invalid
  snapshot ← lookup_target (lookup_session store t.session_id)
  reject
      (not (eq_bytes snapshot.binding.user_id t.user_id)
        || not (eq_bytes snapshot.binding.device_id t.device_id))
      forbidden
  rest ← plan_targets store user (t ∷ seen) ts
  ok (t ∷ rest)

-- An error of the policy itself.
unfoldable pub decided : Result Failure (List KickTarget) → Result Code (List KickTarget)
decided (ok targets) = ok targets
decided (err _) = err policy_invalid

-- `none` is a service without a policy.
unfoldable pub plan_login : Store → Option Policy → SessionBinding → Result Code LoginPlan
plan_login store policy binding = do
  decide ← or_fail policy policy_required
  reject (not (valid_binding binding)) invalid_input
  targets ← decided (decide binding)
  reject (ltb 100 (length targets)) policy_invalid
  kept ← plan_targets store binding.user_id [] targets
  current ← lookup_session store binding.session_id
  reject
      (not (eq_bytes current.binding.user_id binding.user_id)
        || not (eq_bytes current.binding.device_id binding.device_id))
      forbidden
  reject (is_set current.revoked_at) session_revoked
  ok (record { binding = binding; kick_targets = kept })
