-- ===== src/Webhook/Limiter.antt =====
-- server/webhook/limiter.go. The lock makes each call one step. A nil limiter is left out: the
-- worker always makes one. The arithmetic of float64 is a parameter; no theorem needs a law of it.
use new_im.Common.{
  ℕ, suc, ◌-◌, Bool, true, false, not, ◌||◌, List, [], ◌∷◌, Option, none, some, ltb, if◌then◌else◌,
}
use new_im.Common.Int.{ℤ, pos, ltb_ℤ}
use new_im.Bytes.{Bytes, eq_bytes}

-- What the limiter uses of float64, and of the time between two instants in seconds.
pub record Float64 (F T : Type 0) : Type 0 where
  pub add : F → F → F
  pub sub : F → F → F
  pub mul : F → F → F
  pub less : F → F → Bool
  pub zero_float : F
  pub one : F
  pub seconds_from : T → T → F

module _ {F T : Type 0} (ops : Float64 F T) where
  pub record DestinationState : Type 0 where
    pub active : ℕ
    pub tokens : F
    pub last : T

  -- The map of the limiter: the first entry of a destination is its own.
  abbrev pub States : Type 0
  States = List (Bytes × DestinationState)

  pub record DestinationLimiter : Type 0 where
    pub max : ℤ
    pub rate : F
    pub burst : F
    pub states : States

  unfoldable pub new_destination_limiter : ℤ → F → F → DestinationLimiter
  new_destination_limiter max rate burst = record {
    max = max;
    rate = rate;
    burst = burst;
    states = [];
  }

  unfoldable pub find_state : States → Bytes → Option DestinationState
  find_state [] destination = none
  find_state ((key, state) ∷ states) destination =
      if eq_bytes key destination then some state else find_state states destination

  unfoldable pub put_state : States → Bytes → DestinationState → States
  put_state [] destination new = (destination, new) ∷ []
  put_state ((key, state) ∷ states) destination new =
      if eq_bytes key destination
      then (key, new) ∷ states
      else (key, state) ∷ put_state states destination new

  -- The state of a destination, made where it is met for the first time.
  unfoldable pub state_of : DestinationLimiter → Bytes → T → DestinationState
  state_of l destination now = elim (find_state l.states destination) [
    | none ↦ record { active = 0; tokens = l.burst; last = now }
    | some state ↦ state
  ]

  -- The tokens that the time since the last refill brings, up to the burst.
  unfoldable pub refill : DestinationLimiter → DestinationState → T → DestinationState
  refill l state now =
      let elapsed = ops.seconds_from now state.last in
      let filled = ops.add state.tokens (ops.mul elapsed l.rate) in
      if ops.less ops.zero_float elapsed
      then record {
        active = state.active;
        tokens = if ops.less l.burst filled then l.burst else filled;
        last = now;
      }
      else state

  abbrev pub with_state : DestinationLimiter → Bytes → DestinationState → DestinationLimiter
  with_state l destination state = record l { states = put_state l.states destination state }

  unfoldable pub acquire : DestinationLimiter → Bytes → T → Bool × DestinationLimiter
  acquire l destination now =
      let state = refill l (state_of l destination now) now in
      if not (ltb_ℤ (pos state.active) l.max) || ops.less state.tokens ops.one
      then (false, with_state l destination state)
      else (
        true,
        with_state l destination (record {
          active = suc state.active;
          tokens = ops.sub state.tokens ops.one;
          last = state.last;
        }),
      )

  unfoldable pub release : DestinationLimiter → Bytes → DestinationLimiter
  release l destination = elim (find_state l.states destination) [
    | none ↦ l
    | some state ↦
        if ltb 0 state.active
        then with_state l destination (record state { active = state.active - 1 })
        else l
  ]
