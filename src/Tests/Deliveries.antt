-- ===== src/Tests/Deliveries.antt =====
-- A destination with room for one delivery, and the retries of a delivery.
use new_im.Common.{ℕ, ◌+◌, ◌*◌, ◌^◌, ◌-◌, ◌≤◌, ◌≡◌, refl, ◌⊎◌, true, false, ltb, arith}
use Prim.Native.Nat.{min}
use new_im.Common.Int.{pos}
use new_im.Bytes.{eq_bytes}
use new_im.Bytes.Text.{text}
use new_im.Webhook.Limiter.{
  Float64, DestinationLimiter, new_destination_limiter, find_state, put_state, state_of, refill,
  acquire,
}
use new_im.Webhook.Counted.{changed_at, active_in}
use new_im.Webhook.InFlight.{Reached, start, granted, Reached-in_flight}
use new_im.Webhook.Jitter.{default_jitter, default_jitter-near}
use new_im.Webhook.Retry.{Config, grow_delay, response_outcome}
use new_im.Webhook.Backoff.{grow_delay-doubles, IsRetried, IsSettled, response_outcome-cases}

-- Whole numbers in place of floats.
abbrev pub whole : Float64 ℕ ℕ
whole = record {
  add = λ a b. a + b;
  sub = λ a b. a - b;
  mul = λ a b. a * b;
  less = ltb;
  zero_float = 0;
  one = 1;
  seconds_from = λ a b. a - b;
}

abbrev pub fresh : DestinationLimiter whole
unfolding new_destination_limiter
fresh = new_destination_limiter whole (pos 1) 1 5

abbrev pub busy : DestinationLimiter whole
unfolding acquire state_of refill find_state put_state eq_bytes
busy = (acquire whole fresh (text "d") 10).1

pub first_granted : acquire whole fresh (text "d") 10 ≡ (true, busy)
unfolding busy fresh
first_granted = refl

second_refused : acquire whole busy (text "d") 11 ≡ (false, (acquire whole busy (text "d") 11).1)
unfolding busy fresh
second_refused = refl

pub fresh-Reached : Reached whole (pos 1) fresh (λ _. 0)
unfolding new_destination_limiter fresh
fresh-Reached = start 1 5

Reached-in_flight_example :
    (active_in whole busy.states (text "d") ≡ changed_at (λ _. 0) (text "d") 1 (text "d"))
    × (changed_at (λ _. 0) (text "d") 1 (text "d") ≤ 1)
Reached-in_flight_example =
    Reached-in_flight whole (pos 1) busy (changed_at (λ _. 0) (text "d") 1)
      (granted fresh busy (λ _. 0) (text "d") 10 fresh-Reached first_granted) (text "d")

grow_delay-doubles_example : grow_delay 3 (pos 100) (pos 20) ≡ pos (min (20 * 2 ^ 3) 100)
grow_delay-doubles_example = grow_delay-doubles 3 20 100 (omega arith)

abbrev pub config : Config
config = record {
  max_attempts = 8;
  base_backoff = pos 20;
  max_backoff = pos 100;
  jitter = λ id delay. delay;
}

response_outcome-cases_example :
    IsRetried config 2 100 (pos 1000) (response_outcome config (text "d1") 2 (pos 1000) 503 (pos 0))
    ⊎ IsSettled (pos 1000) (response_outcome config (text "d1") 2 (pos 1000) 503 (pos 0))
response_outcome-cases_example =
    response_outcome-cases config (text "d1") 2 (pos 1000) (pos 0) 100 refl 503

default_jitter-near_example :
    (d : ℕ) × (default_jitter (text "d") (pos 1000) ≡ pos d) × (875 ≤ d) × (d ≤ 1125)
default_jitter-near_example = default_jitter-near (text "d") 1000 (omega arith)
