-- ===== src/Webhook/Delivered.antt =====
-- The course of an attempt at a delivery (server/webhook/worker.go).
use new_im.Common.{
  ℕ, ◌+◌, ◌/◌, ◌≤◌, ◌<◌, ◌≡◌, ◌≢◌, refl, subst, inl, inr, true, false, Bool-cases, ◌&&◌, [], ◌∷◌,
  Option, none, some, Option-cases, ltb, leb, length, Result, ok, err, Result-cases, arith,
}
use new_im.Common.Int.{ℤ, pos}
use new_im.Bytes.{Bytes}
use new_im.Webhook.Retry.{
  Code, secret_unavailable, secret_invalid, http_temporary, protocol_invalid, delivered, Outcome,
  Config, terminal_outcome, retry_outcome, response_outcome, retryable_status,
}
use new_im.Webhook.Types.{Delivery, Response, WorkerConfig}
use new_im.Webhook.Deliver.{
  Headers, begin_attempt, resolve, request, finish, History, Ports, Envelopes,
  webhook_min_secret_bytes, outcome_for_secret_error, or_outcome, prepare, finished, answered,
  attempt, deliver,
}

retry_outcome-not_delivered :
    (code : Code) (n : ℕ) (c : Config) (id : Bytes) (now after : ℤ)
    → (retry_outcome code n c id now after).status ≢ delivered
unfolding retry_outcome terminal_outcome
retry_outcome-not_delivered code n c id now after h = elim (Bool-cases (leb c.max_attempts n)) [
  | inl over ↦ ground arith
  | inr left ↦ ground arith
]

response_outcome-delivered :
    (c : Config) (id : Bytes) (n : ℕ) (now : ℤ) (status : ℕ) (after : ℤ)
    → (response_outcome c id n now status after).status ≡ delivered
    → (200 ≤ status) × (status < 300)
unfolding response_outcome
response_outcome-delivered c id n now status after h =
    elim (Bool-cases (leb 200 status && ltb status 300)) [
      | inl fine ↦ ground arith
      | inr other ↦ elim (Bool-cases (retryable_status status)) [
        | inl again ↦
            let not_delivered = retry_outcome-not_delivered http_temporary n c id now after in
            ground arith
        | inr never ↦ ground arith
      ]
    ]

module _ {F : Type 0} (c : WorkerConfig F) (ports : Ports) (envelopes : Envelopes) (d : Delivery)
    (now : ℤ) where
  -- A request as it was sent: signed with the endpoint's secret over the bytes of its body.
  pub record IsSigned (h : History) (headers : Headers) (body : Bytes) : Type 0 where
    pub secret : Bytes
    pub resolved : ports.secret h ≡ ok secret
    pub long_enough : webhook_min_secret_bytes ≤ length secret
    pub built : envelopes.build_envelope d.event ≡ ok body
    pub signed : envelopes.signed_headers h secret d body now ≡ some headers

  abbrev pub asking : History → History
  asking h =
      begin_attempt d now c.retries.max_attempts (c.request_timeout + c.request_timeout / 2) ∷ h

  abbrev pub finishing : Outcome → History → History
  finishing outcome h = finish d.id d.lease_token (d.attempts + 1) now outcome ∷ h

  -- The courses of an attempt from a history.
  pub data Course (h : History) : History → Type 0 where
    not_granted : ports.allowed (asking h) ≢ ok true → Course h (asking h)
    not_sent :
        (outcome : Outcome)
        → ports.allowed (asking h) ≡ ok true
        → outcome.status ≢ delivered
        → Course h (finishing outcome (resolve d.secret ∷ asking h))
    cut_off :
        (headers : Headers) (body : Bytes)
        → ports.allowed (asking h) ≡ ok true
        → IsSigned (resolve d.secret ∷ asking h) headers body
        → Course h (request d.url headers body ∷ resolve d.secret ∷ asking h)
    unanswered :
        (headers : Headers) (body : Bytes) (outcome : Outcome)
        → ports.allowed (asking h) ≡ ok true
        → IsSigned (resolve d.secret ∷ asking h) headers body
        → outcome.status ≢ delivered
        → Course h (finishing outcome (request d.url headers body ∷ resolve d.secret ∷ asking h))
    was_answered :
        (headers : Headers) (body : Bytes) (outcome : Outcome) (r : Response)
        → ports.allowed (asking h) ≡ ok true
        → IsSigned (resolve d.secret ∷ asking h) headers body
        → ports.response (request d.url headers body ∷ resolve d.secret ∷ asking h) ≡ some r
        → (outcome.status ≡ delivered → (200 ≤ r.status_code) × (r.status_code < 300))
        → Course h (finishing outcome (request d.url headers body ∷ resolve d.secret ∷ asking h))

  -- What `prepare` gives: a request that is signed, or an outcome that does not say delivered.
  abbrev Prepared : History → Result Outcome (Headers × Bytes) → Type 0
  Prepared h (ok (headers, body)) = IsSigned h headers body
  Prepared h (err outcome) = outcome.status ≢ delivered

  terminal-not_delivered : (code : Code) → (terminal_outcome code now).status ≢ delivered
  unfolding terminal_outcome
  terminal-not_delivered code h = ground arith

  secret_error-not_delivered :
      (code : Code) (n : ℕ) → (outcome_for_secret_error code n c.retries now).status ≢ delivered
  unfolding outcome_for_secret_error
  secret_error-not_delivered secret_unavailable n =
      retry_outcome-not_delivered secret_unavailable n c.retries [] now (pos 0)
  secret_error-not_delivered code n = terminal-not_delivered code

  prepare-Prepared : (h : History) → Prepared h (prepare c ports envelopes h d now)
  unfolding prepare or_outcome
  prepare-Prepared h = elim (Result-cases (ports.secret h)) [
    | inr (code, failed) ↦ rw failed (secret_error-not_delivered code (d.attempts + 1))
    | inl (secret, resolved) ↦ elim (Bool-cases (ltb (length secret) webhook_min_secret_bytes)) [
      | inl short ↦ rw (resolved, short) (terminal-not_delivered secret_invalid)
      | inr long ↦ elim (Result-cases (envelopes.build_envelope d.event)) [
        | inr (code, failed) ↦ rw (resolved, long, failed) (terminal-not_delivered protocol_invalid)
        | inl (body, built) ↦ elim (Option-cases (envelopes.signed_headers h secret d body now)) [
          | inl failed ↦
              rw (resolved, long, built, failed) (terminal-not_delivered protocol_invalid)
          | inr (headers, signed) ↦
              rw (resolved, long, built, signed)
                (record {
                  secret = secret;
                  resolved = resolved;
                  long_enough = ground arith;
                  built = built;
                  signed = signed;
                })
        ]
      ]
    ]
  ]

  module _ (h : History) (granted : ports.allowed (asking h) ≡ ok true) where
    answered-Course :
        (headers : Headers) (body : Bytes) (found : Option Response)
        → IsSigned (resolve d.secret ∷ asking h) headers body
        → ports.response (request d.url headers body ∷ resolve d.secret ∷ asking h) ≡ found
        → Course h (
            answered c ports envelopes
              (request d.url headers body ∷ resolve d.secret ∷ asking h)
              d
              now
              found)
    unfolding answered finished
    answered-Course headers body (some r) signed e =
        was_answered headers body _ r granted signed e (
          response_outcome-delivered c.retries d.id (d.attempts + 1) now r.status_code
            r.retry_after)
    answered-Course headers body none signed e =
        elim (Bool-cases
          (ports.cancelled (request d.url headers body ∷ resolve d.secret ∷ asking h))) [
            | inl gone ↦ rw gone (cut_off headers body granted signed)
            | inr here ↦ rw here (
                unanswered headers body _ granted signed (
                  retry_outcome-not_delivered http_temporary (d.attempts + 1) c.retries d.id now
                    (pos 0)))
          ]

    attempt-Course : Course h (attempt c ports envelopes (asking h) d now)
    unfolding attempt finished
    attempt-Course =
        let asked = resolve d.secret ∷ asking h in
        let prepared = prepare-Prepared asked in
        elim (Result-cases (prepare c ports envelopes asked d now)) [
          | inr (outcome, e) ↦
              rw (e, attempt) (not_sent outcome granted (subst (Prepared asked) e prepared))
          | inl ((headers, body), e) ↦
              rw (e, attempt)
                (answered-Course headers body _ (subst (Prepared asked) e prepared) refl)
        ]

module _ {F : Type 0} (c : WorkerConfig F) (ports : Ports) (envelopes : Envelopes) where
  -- Every attempt at a delivery takes one of five courses, with these calls and no others, in this
  -- order: the store does not grant the attempt and nothing follows; or it does, and the secret is
  -- asked for, and then a finish that does not say delivered; or one request follows, whose secret
  -- was resolved and has 32 bytes or more and whose headers are signed over the very body that is
  -- sent, and then nothing where the worker is cancelled, a finish that does not say delivered
  -- where the request failed, or a finish that says delivered only for a status from 200 to 299. A
  -- finish has the lease of the delivery and counts the attempt.
  pub deliver-Course :
      (h : History) (d : Delivery)
      → Course c ports envelopes d (ports.now h) h (deliver c ports envelopes h d)
  unfolding deliver
  deliver-Course h d =
      elim (Result-cases (ports.allowed (asking c ports envelopes d (ports.now h) h))) [
        | inr (code, e) ↦ rw (e, deliver) (not_granted λ k. cc)
        | inl (true, e) ↦ rw (e, deliver) (attempt-Course c ports envelopes d (ports.now h) h e)
        | inl (false, e) ↦ rw (e, deliver) (not_granted λ k. cc)
      ]
