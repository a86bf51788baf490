-- ===== src/AuthSession/Plans.antt =====
-- What a login plan holds (server/auth/session/service.go).
use new_im.Common.{
  ◌≤◌, ◌≡◌, ◌≢◌, refl, sym, ap, ◌∙◌, subst, true, false, not, ◌||◌, List, [], ◌∷◌, Option, none,
  some, Result, ok, reject-eq-ok, >>=-eq-ok, length, ltb, All, absurd_bool, arith,
}
use new_im.Bytes.{Bytes, eq_bytes, eq_bytes_sound, eq_bytes_refl}
use new_im.AuthSession.Identity.{SessionBinding, valid_binding, valid_id}
use new_im.AuthSession.Types.{
  Code, Failure, invalid_input, policy_invalid, forbidden, session_revoked, SessionSnapshot,
  KickTarget, LoginPlan, Store,
}
use new_im.AuthSession.Service.{is_set}
use new_im.AuthSession.Login.{
  Policy, lookup_session, eq_target, was_seen, lookup_target, plan_targets, decided, plan_login,
}
use new_im.AuthSession.Verified.{redacted-eq-ok}

-- A session that the store keeps for a user and a device.
pub record IsKept (store : Store) (user device session : Bytes) (snapshot : SessionSnapshot)
    : Type 0 where
  pub found : store.lookup_session session ≡ ok snapshot
  pub user_same : snapshot.binding.user_id ≡ user
  pub device_same : snapshot.binding.device_id ≡ device

-- A target that may be kicked: a session of the user, on the device that it names.
pub record IsKickable (store : Store) (user : Bytes) (t : KickTarget) : Type 0 where
  pub own : t.user_id ≡ user
  pub snapshot : SessionSnapshot
  pub kept : IsKept store t.user_id t.device_id t.session_id snapshot

-- No two of the targets are the same.
abbrev pub Distinct : List KickTarget → Type 0
Distinct [] = Unit
Distinct (t ∷ ts) = All (λ u. t ≢ u) ts × Distinct ts

lookup_target-eq-ok :
    (r : Result Code SessionSnapshot) (s : SessionSnapshot) → lookup_target r ≡ ok s → r ≡ ok s
unfolding lookup_target
lookup_target-eq-ok r s h = ground arith

eq_target_refl : (t : KickTarget) → eq_target t t ≡ true
unfolding eq_target
eq_target_refl t =
    ground (arith, eq_bytes_refl t.user_id, eq_bytes_refl t.device_id, eq_bytes_refl t.session_id)

was_seen-new :
    (t u : KickTarget) (seen : List KickTarget)
    → was_seen (t ∷ seen) u ≡ false
    → (t ≢ u) × (was_seen seen u ≡ false)
unfolding was_seen
was_seen-new t u seen h = (
  λ same.
      absurd_bool (eq_target t u) (subst (λ x. eq_target t x ≡ true) same (eq_target_refl t))
        (ground arith),
  ground arith,
)

All-map {ℓ κ} :
    {A : Type ℓ} {P Q : A → Type κ} (xs : List A) → ((x : A) → P x → Q x) → All P xs → All Q xs
All-map [] f h = tt
All-map (x ∷ xs) f h = (f x h.0, All-map xs f h.1)

matched :
    (store : Store) (user device session : Bytes) (snapshot : SessionSnapshot)
    → lookup_session store session ≡ ok snapshot
    → (not (eq_bytes snapshot.binding.user_id user)
        || not (eq_bytes snapshot.binding.device_id device))
      ≡ false
    → IsKept store user device session snapshot
unfolding lookup_session
matched store user device session snapshot found same = record {
  found = redacted-eq-ok (store.lookup_session session) snapshot found;
  user_same = eq_bytes_sound snapshot.binding.user_id user (ground arith);
  device_same = eq_bytes_sound snapshot.binding.device_id device (ground arith);
}

-- What the loop makes sure of.
record ArePlanned (store : Store) (user : Bytes) (seen ts kept : List KickTarget) : Type 0 where
  same : kept ≡ ts
  kickable : All (IsKickable store user) ts
  distinct : Distinct ts
  unseen : All (λ t. was_seen seen t ≡ false) ts

plan_targets-step :
    (store : Store) (user : Bytes) (seen ts kept : List KickTarget) (t : KickTarget)
    → plan_targets store user seen (t ∷ ts) ≡ ok kept
    → IsKickable store user t
      × (was_seen seen t ≡ false)
      × (rest : List KickTarget) × (plan_targets store user (t ∷ seen) ts ≡ ok rest)
      × (kept ≡ t ∷ rest)
unfolding plan_targets
plan_targets-step store user seen ts kept t h =
    let (_, h1) =
      reject-eq-ok
        (not (valid_id t.user_id) || not (valid_id t.device_id) || not (valid_id t.session_id))
        policy_invalid _ h in
    let (own, h2) = reject-eq-ok (not (eq_bytes t.user_id user)) forbidden _ h1 in
    let (new, h3) = reject-eq-ok (was_seen seen t) policy_invalid _ h2 in
    let (snapshot, found, h4) =
      >>=-eq-ok (lookup_target (lookup_session store t.session_id)) _ h3 in
    let (same, h5) =
      reject-eq-ok
        (not (eq_bytes snapshot.binding.user_id t.user_id)
          || not (eq_bytes snapshot.binding.device_id t.device_id))
        forbidden _ h4 in
    let (rest, planned, made) = >>=-eq-ok (plan_targets store user (t ∷ seen) ts) _ h5 in
    (
      record {
        own = eq_bytes_sound t.user_id user (ground (arith, own));
        snapshot = snapshot;
        kept =
            matched store t.user_id t.device_id t.session_id snapshot
              (lookup_target-eq-ok (lookup_session store t.session_id) snapshot found) same;
      },
      new,
      rest,
      planned,
      cc made,
    )

plan_targets-ArePlanned :
    (store : Store) (user : Bytes) (seen ts kept : List KickTarget)
    → plan_targets store user seen ts ≡ ok kept
    → ArePlanned store user seen ts kept
plan_targets-ArePlanned store user seen [] kept h = record {
  same = unfold plan_targets in ground arith;
  kickable = tt;
  distinct = tt;
  unseen = tt;
}
plan_targets-ArePlanned store user seen (t ∷ ts) kept h =
    let (kickable, new, rest, planned, made) = plan_targets-step store user seen ts kept t h in
    let p = plan_targets-ArePlanned store user (t ∷ seen) ts rest planned in
    record {
      same = made ∙ ap (◌∷◌ t) p.same;
      kickable = (kickable, p.kickable);
      distinct = (All-map ts (λ u e. (was_seen-new t u seen e).0) p.unseen, p.distinct);
      unseen = (new, All-map ts (λ u e. (was_seen-new t u seen e).1) p.unseen);
    }

-- A plan: the targets that the policy decided on, all of them, and what the service made sure of.
pub record IsPlan (store : Store) (decide : Policy) (binding : SessionBinding) (plan : LoginPlan)
    : Type 0 where
  pub binding_same : plan.binding ≡ binding
  pub targets_same : decide binding ≡ ok plan.kick_targets
  pub few : length plan.kick_targets ≤ 100
  pub kickable : All (IsKickable store binding.user_id) plan.kick_targets
  pub distinct : Distinct plan.kick_targets
  pub current : SessionSnapshot
  pub kept : IsKept store binding.user_id binding.device_id binding.session_id current
  pub alive : current.revoked_at ≡ none

decided-eq-ok :
    (r : Result Failure (List KickTarget)) (ts : List KickTarget) → decided r ≡ ok ts → r ≡ ok ts
unfolding decided
decided-eq-ok r ts h = ground arith

is_set-false {ℓ} : {A : Type ℓ} (o : Option A) → is_set o ≡ false → o ≡ none
is_set-false none h = refl
is_set-false (some a) h = cc

-- If `PlanLogin` with a policy answers a plan, its targets are all those that the policy decided
-- on, at most 100 and no two the same, each of the user who logs in and a session that the store
-- keeps for that user and device; and the session of the login is kept for the user and the device
-- and is not revoked.
pub plan_login-IsPlan :
    (store : Store) (decide : Policy) (binding : SessionBinding) (plan : LoginPlan)
    → plan_login store (some decide) binding ≡ ok plan
    → IsPlan store decide binding plan
unfolding plan_login
plan_login-IsPlan store decide binding plan h =
    let (_, h1) = reject-eq-ok (not (valid_binding binding)) invalid_input _ h in
    let (targets, chosen, h2) = >>=-eq-ok (decided (decide binding)) _ h1 in
    let (few, h3) = reject-eq-ok (ltb 100 (length targets)) policy_invalid _ h2 in
    let (kept, planned, h4) = >>=-eq-ok (plan_targets store binding.user_id [] targets) _ h3 in
    let (current, found, h5) = >>=-eq-ok (lookup_session store binding.session_id) _ h4 in
    let (same, h6) =
      reject-eq-ok
        (not (eq_bytes current.binding.user_id binding.user_id)
          || not (eq_bytes current.binding.device_id binding.device_id))
        forbidden _ h5 in
    let (alive, made) = reject-eq-ok (is_set current.revoked_at) session_revoked _ h6 in
    let p = plan_targets-ArePlanned store binding.user_id [] targets kept planned in
    let plan_same : record { binding = binding; kick_targets = targets } ≡ plan =
      ap (λ ts. record { binding = binding; kick_targets = ts }) (sym p.same) ∙ cc made in
    subst (IsPlan store decide binding) plan_same (record {
      binding_same = refl;
      targets_same = decided-eq-ok (decide binding) targets chosen;
      few = ground (arith, few);
      kickable = p.kickable;
      distinct = p.distinct;
      current = current;
      kept = matched store binding.user_id binding.device_id binding.session_id current found same;
      alive = is_set-false current.revoked_at alive;
    })
