-- ===== src/Webhook/Retry.antt =====
-- server/webhook/worker.go: what becomes of a delivery, and when it is tried again. A duration is an
-- integer of nanoseconds; an instant too.
use new_im.Common.{
  ℕ, zero, suc, ◌-◌, Bool, ◌&&◌, ◌||◌, Option, none, some, ltb, leb, ◌==◌, if◌then◌else◌,
}
use new_im.Common.Int.{ℤ, pos, ltb_ℤ, ◌+ℤ◌, double_ℤ}
use new_im.Bytes.{Bytes}

pub data Code : Type 0 where
  invalid_config : Code
  storage_unavailable : Code
  lease_lost : Code
  secret_unavailable : Code
  secret_invalid : Code
  http_temporary : Code
  http_permanent : Code
  response_too_large : Code
  backlog_paused : Code
  endpoint_revoked : Code
  delivery_dead_letter : Code
  protocol_invalid : Code
  delivery_cancelled : Code
  delivery_delivered : Code
  delivery_retry : Code
  fanout_limit : Code

-- The three values that the worker gives `Outcome.Status`.
pub data Status : Type 0 where
  delivered : Status
  retry : Status
  dead_letter : Status

pub record Outcome : Type 0 where
  pub status : Status
  pub next_attempt : Option ℤ
  pub retry_delay : ℤ
  pub http_status : ℕ
  pub error_code : Code
  pub completed_at : Option ℤ

-- What the worker's configuration says of retries. `jitter` is any function.
pub record Config : Type 0 where
  pub max_attempts : ℕ
  pub base_backoff : ℤ
  pub max_backoff : ℤ
  pub jitter : Bytes → ℤ → ℤ

unfoldable pub persisted_http_status : ℕ → ℕ
persisted_http_status status = if ltb status 100 || ltb 599 status then 0 else status

unfoldable pub retryable_status : ℕ → Bool
retryable_status status = status == 408 || status == 429 || (leb 500 status && leb status 599)

unfoldable pub terminal_outcome : Code → ℤ → Outcome
terminal_outcome code now = record {
  status = dead_letter;
  next_attempt = none;
  retry_delay = pos 0;
  http_status = 0;
  error_code = code;
  completed_at = some now;
}

-- The loop of `backoff`, with the rounds that `i < attempts` leaves. The doubled delay stays below
-- 2 ^ 63: it is below twice the greatest delay, which is an hour at most.
unfoldable pub grow_delay : ℕ → ℤ → ℤ → ℤ
grow_delay zero max delay = delay
grow_delay (suc left) max delay =
    let doubled = double_ℤ delay in
    let rest = grow_delay left max (if ltb_ℤ max doubled then max else doubled) in
    if ltb_ℤ delay max then rest else delay

unfoldable pub backoff : Config → Bytes → ℕ → ℤ
backoff c delivery_id attempts =
    let delay = grow_delay (attempts - 1) c.max_backoff c.base_backoff in
    let jittered = c.jitter delivery_id delay in
    if ltb_ℤ jittered (pos 0)
    then pos 0
    else if ltb_ℤ c.max_backoff jittered
    then c.max_backoff
    else jittered

-- The delay of a retry: what the response asks for, up to the greatest delay, or the backoff.
unfoldable pub retry_delay_of : Config → Bytes → ℕ → ℤ → ℤ
retry_delay_of c delivery_id attempts retry_after =
    if ltb_ℤ (pos 0) retry_after
    then (if ltb_ℤ c.max_backoff retry_after then c.max_backoff else retry_after)
    else backoff c delivery_id attempts

unfoldable pub retry_outcome : Code → ℕ → Config → Bytes → ℤ → ℤ → Outcome
retry_outcome code attempts c delivery_id now retry_after =
    let delay = retry_delay_of c delivery_id attempts retry_after in
    if leb c.max_attempts attempts then terminal_outcome delivery_dead_letter now else record {
      status = retry;
      next_attempt = some (now +ℤ delay);
      retry_delay = delay;
      http_status = 0;
      error_code = code;
      completed_at = none;
    }

-- The end of `deliver`, for a response to the attempt.
unfoldable pub response_outcome : Config → Bytes → ℕ → ℤ → ℕ → ℤ → Outcome
response_outcome c delivery_id attempts now status retry_after =
    if leb 200 status && ltb status 300
    then record {
      status = delivered;
      next_attempt = none;
      retry_delay = pos 0;
      http_status = persisted_http_status status;
      error_code = delivery_delivered;
      completed_at = some now;
    }
    else if retryable_status status
    then retry_outcome http_temporary attempts c delivery_id now retry_after
    else record {
      status = dead_letter;
      next_attempt = none;
      retry_delay = pos 0;
      http_status = persisted_http_status status;
      error_code = http_permanent;
      completed_at = some now;
    }
