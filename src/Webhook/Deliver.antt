-- ===== src/Webhook/Deliver.antt =====
-- server/webhook/worker.go: one attempt at a delivery.
use new_im.Common.{
  ℕ, ◌+◌, ◌/◌, Bool, List, [], ◌∷◌, Option, none, some, ltb, length, if◌then◌else◌, Result, ok, err,
  ◌>>=◌, ◌>>◌, reject, or_fail,
}
use new_im.Common.Int.{ℤ, pos}
use new_im.Bytes.{Bytes}
use new_im.Webhook.Retry.{
  Code, secret_unavailable, secret_invalid, http_temporary, backlog_paused, protocol_invalid, retry,
  Outcome, Config, terminal_outcome, retry_outcome, response_outcome,
}
use new_im.Webhook.Types.{Event, SecretMaterial, Delivery, QueueCounts, Response, WorkerConfig}

-- The headers of a request by name.
abbrev pub Headers : Type 0
Headers = List (Bytes × Bytes)

-- What the worker asks of its ports. What `Fanout` and `Finish` answer is observed only.
pub data Call : Type 0 where
  cancel_revoked : (now : ℤ) → Call
  counts : Call
  fanout : (now : ℤ) (limit per_destination queue : ℕ) → Call
  claim : (now : ℤ) (owner : Bytes) (lease_ttl limit : ℕ) → Call
  begin_attempt : (d : Delivery) (now : ℤ) (max_attempts lease : ℕ) → Call
  resolve : (secret : SecretMaterial) → Call
  request : (url : Bytes) (headers : Headers) (body : Bytes) → Call
  finish : (id lease_token : Bytes) (attempts : ℕ) (now : ℤ) (outcome : Outcome) → Call

-- The calls so far, the newest first.
abbrev pub History : Type 0
History = List Call

-- The ports: what they answer can depend on all calls so far. A request that fails has no response.
pub record Ports : Type 0 where
  pub now : History → ℤ
  pub cancelled : History → Bool
  pub revoked : History → Result Code ℕ
  pub queue : History → Result Code QueueCounts
  pub claimed : History → Result Code (List Delivery)
  pub allowed : History → Result Code Bool
  pub secret : History → Result Code Bytes
  pub response : History → Option Response

-- The texts of a request: `buildEnvelope` and `signedHeaders`, which draws a nonce.
pub record Envelopes : Type 0 where
  pub build_envelope : Event → Result Code Bytes
  pub signed_headers : History → Bytes → Delivery → Bytes → ℤ → Option Headers

abbrev pub webhook_min_secret_bytes : ℕ
webhook_min_secret_bytes = 32

unfoldable pub outcome_for_secret_error : Code → ℕ → Config → ℤ → Outcome
outcome_for_secret_error secret_unavailable attempts c now =
    retry_outcome secret_unavailable attempts c [] now (pos 0)
outcome_for_secret_error code attempts c now = terminal_outcome code now

unfoldable pub or_outcome : {A : Type 0} → Result Code A → (Code → Outcome) → Result Outcome A
or_outcome (ok a) outcome = ok a
or_outcome (err code) outcome = err (outcome code)

module _ {F : Type 0} (c : WorkerConfig F) (ports : Ports) (envelopes : Envelopes) where
  -- The request of an attempt, or the outcome where there is none.
  unfoldable pub prepare : History → Delivery → ℤ → Result Outcome (Headers × Bytes)
  unfolding outcome_for_secret_error or_outcome
  prepare h d now = do
    secret ←
        or_outcome (ports.secret h)
          (λ code. outcome_for_secret_error code (d.attempts + 1) c.retries now)
    reject (ltb (length secret) webhook_min_secret_bytes) (terminal_outcome secret_invalid now)
    body ←
        or_outcome (envelopes.build_envelope d.event) (λ _. terminal_outcome protocol_invalid now)
    headers ←
        or_fail (envelopes.signed_headers h secret d body now)
          (terminal_outcome protocol_invalid now)
    ok (headers, body)

  unfoldable pub finished : History → Delivery → ℤ → Outcome → History
  finished h d now outcome = finish d.id d.lease_token (d.attempts + 1) now outcome ∷ h

  -- What becomes of an attempt whose request was sent.
  unfoldable pub answered : History → Delivery → ℤ → Option Response → History
  unfolding finished
  answered h d now none =
      if ports.cancelled h
      then h
      else finished h d now
          (retry_outcome http_temporary (d.attempts + 1) c.retries d.id now (pos 0))
  answered h d now (some r) =
      finished h d now
        (response_outcome c.retries d.id (d.attempts + 1) now r.status_code r.retry_after)

  unfoldable pub attempt : History → Delivery → ℤ → History
  unfolding prepare answered finished
  attempt h d now =
      let asked = resolve d.secret ∷ h in
      elim (prepare asked d now) [
        | err outcome ↦ finished asked d now outcome
        | ok (headers, body) ↦
            let sent = request d.url headers body ∷ asked in
            answered sent d now (ports.response sent)
      ]

  unfoldable pub deliver : History → Delivery → History
  unfolding attempt
  deliver h d =
      let now = ports.now h in
      let asked =
        begin_attempt d now c.retries.max_attempts (c.request_timeout + c.request_timeout / 2)
        ∷ h in
      elim (ports.allowed asked) [
        | err code ↦ asked
        | ok granted ↦ if granted then attempt asked d now else asked
      ]

  -- `deferDelivery`: the attempt does not count.
  unfoldable pub defer_delivery : History → Delivery → ℤ → History
  defer_delivery h d now =
      finish d.id d.lease_token 0 now (record {
        status = retry;
        next_attempt = none;
        retry_delay = c.retries.base_backoff;
        http_status = 0;
        error_code = backlog_paused;
        completed_at = none;
      })
      ∷ h
