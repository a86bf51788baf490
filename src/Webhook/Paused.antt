-- ===== src/Webhook/Paused.antt =====
-- When the worker pauses the fan-out of events (server/webhook/worker.go).
use new_im.Common.{
  ℕ, ◌+◌, ◌≡◌, ◌↔◌, ◌⊎◌, absurd_bool, subst, Option-cases, refl, ap, sym, ◌∙◌, inl, inr, Bool, true,
  false, Bool-cases, Result-cases, List, [], ◌∷◌, ◌++◌, Option, none, some, if◌then◌else◌, ok, err,
  arith,
}
use new_im.Webhook.Types.{QueueCounts, WorkerConfig}
use new_im.Webhook.Deliver.{Call, cancel_revoked, counts, fanout, History, Ports}
use new_im.Webhook.Cycle.{above_low, at_high, next_paused, begin_cycle}

-- What a cycle reads of the queue; none where a port fails before.
unfoldable pub reading : Ports → History → Option QueueCounts
reading ports h =
    let revoking = cancel_revoked (ports.now h) ∷ h in
    elim (ports.revoked revoking) [
      | err code ↦ none
      | ok n ↦ elim (ports.queue (counts ∷ revoking)) [ err code ↦ none | ok q ↦ some q ]
    ]

abbrev pub is_fanout : Call → ℕ
is_fanout (fanout now limit per_destination queue) = 1
is_fanout _ = 0

-- The calls of `Fanout` in a history.
abbrev pub fanouts : History → ℕ
fanouts [] = 0
fanouts (call ∷ calls) = is_fanout call + fanouts calls

abbrev pub with_reading : Option QueueCounts → List QueueCounts → List QueueCounts
with_reading none qs = qs
with_reading (some q) qs = q ∷ qs

-- What the cycles read, the newest first.
abbrev pub readings : List (Ports × History) → List QueueCounts
readings [] = []
readings ((ports, h) ∷ older) = with_reading (reading ports h) (readings older)

module _ {F : Type 0} (c : WorkerConfig F) where
  -- The pause of a worker after cycles, the newest first.
  unfoldable pub paused_after : List (Ports × History) → Bool
  unfolding begin_cycle
  paused_after [] = false
  paused_after ((ports, h) ∷ older) = (begin_cycle c ports h (paused_after older)).1

  pub data AllAboveLow : List QueueCounts → Type 0 where
    no_reading : AllAboveLow []
    above_too :
        (q : QueueCounts) (qs : List QueueCounts)
        → above_low c q ≡ true
        → AllAboveLow qs
        → AllAboveLow (q ∷ qs)

  -- A reading at the high water mark, and since then only readings above the low one.
  pub record PausedSince (qs : List QueueCounts) : Type 0 where
    pub since : List QueueCounts
    pub high : QueueCounts
    pub before : List QueueCounts
    pub parts : qs ≡ since ++ high ∷ before
    pub was_high : at_high c high ≡ true
    pub stayed : AllAboveLow since

  abbrev pub paused_by : List QueueCounts → Bool
  paused_by [] = false
  paused_by (q ∷ older) = next_paused c q (paused_by older)

  paused_by-PausedSince : (qs : List QueueCounts) → paused_by qs ≡ true → PausedSince qs
  unfolding next_paused
  paused_by-PausedSince [] h = cc
  paused_by-PausedSince (q ∷ older) h = elim (Bool-cases (at_high c q)) [
    | inl high ↦ record {
      since = [];
      high = q;
      before = older;
      parts = refl;
      was_high = high;
      stayed = no_reading;
    }
    | inr low ↦
        let (paused, above) : (paused_by older ≡ true) × (above_low c q ≡ true) = ground arith in
        let p = paused_by-PausedSince older paused in
        record {
          since = q ∷ p.since;
          high = p.high;
          before = p.before;
          parts = ap (λ qs. q ∷ qs) p.parts;
          was_high = p.was_high;
          stayed = above_too q p.since above p.stayed;
        }
  ]

  paused_by_since :
      (since before : List QueueCounts) (high : QueueCounts)
      → at_high c high ≡ true
      → AllAboveLow since
      → paused_by (since ++ high ∷ before) ≡ true
  unfolding next_paused
  paused_by_since _ before high was no_reading = ground arith
  paused_by_since _ before high was (above_too q qs above stayed) =
      ground (arith, above, paused_by_since qs before high was stayed)

  begin_cycle-reading :
      (ports : Ports) (h : History) (paused : Bool) (qs : List QueueCounts)
      → paused ≡ paused_by qs
      → (begin_cycle c ports h paused).1 ≡ paused_by (with_reading (reading ports h) qs)
  unfolding begin_cycle reading
  begin_cycle-reading ports h paused qs e =
      elim (Result-cases (ports.revoked (cancel_revoked (ports.now h) ∷ h))) [
        | inr (code, failed) ↦ rw (failed, begin_cycle, reading) e
        | inl (n, went) ↦
            elim (Result-cases (ports.queue (counts ∷ cancel_revoked (ports.now h) ∷ h))) [
              | inr (code, failed) ↦ rw (went, failed, begin_cycle, reading) e
              | inl (q, read) ↦ rw (went, read, begin_cycle, reading) (ap (next_paused c q) e)
            ]
      ]

  paused_after-readings :
      (cycles : List (Ports × History)) → paused_after cycles ≡ paused_by (readings cycles)
  unfolding paused_after
  paused_after-readings [] = refl
  paused_after-readings ((ports, h) ∷ older) =
      begin_cycle-reading ports h (paused_after older) (readings older)
        (paused_after-readings older)

  -- After any cycles, with any answers of the ports, a worker that began without a pause is paused
  -- exactly where some reading of the queue was at the high water mark, in total or for a
  -- destination, and all readings since then were above the low one.
  pub paused_after_iff :
      (cycles : List (Ports × History))
      → (paused_after cycles ≡ true) ↔ PausedSince (readings cycles)
  paused_after_iff cycles = (
    λ h. paused_by-PausedSince (readings cycles) (sym (paused_after-readings cycles) ∙ h),
    λ p.
        paused_after-readings cycles
        ∙ (ap paused_by p.parts ∙ paused_by_since p.since p.before p.high p.was_high p.stayed),
  )

  -- How often a cycle that reads this fans out.
  abbrev calls_for : Bool → Option QueueCounts → ℕ
  calls_for paused none = 0
  calls_for paused (some q) = if next_paused c q paused then 0 else 1

  begin_cycle-fanouts :
      (ports : Ports) (h : History) (paused : Bool)
      → fanouts (begin_cycle c ports h paused).0 ≡ calls_for paused (reading ports h) + fanouts h
  unfolding begin_cycle reading
  begin_cycle-fanouts ports h paused =
      elim (Result-cases (ports.revoked (cancel_revoked (ports.now h) ∷ h))) [
        | inr (code, failed) ↦ rw (failed, begin_cycle, reading) (omega arith)
        | inl (n, went) ↦
            elim (Result-cases (ports.queue (counts ∷ cancel_revoked (ports.now h) ∷ h))) [
              | inr (code, failed) ↦ rw (went, failed, begin_cycle, reading) (omega arith)
              | inl (q, read) ↦ elim (Bool-cases (next_paused c q paused)) [
                | inl on ↦ rw (went, read, on, begin_cycle, reading) (omega arith)
                | inr off ↦ rw (went, read, off, begin_cycle, reading) (omega arith)
              ]
            ]
      ]

  -- The calls of `Fanout` of the newest cycle.
  abbrev pub FansOut : Ports → History → List (Ports × History) → ℕ → Type 0
  FansOut ports h older n = fanouts (begin_cycle c ports h (paused_after older)).0 ≡ n + fanouts h

  -- After any cycles of a worker that began without a pause, the next cycle either fans events out
  -- exactly once, and then it has read the queue and the readings up to this one do not keep a
  -- pause: none was at the high water mark with only readings above the low one since; or it does
  -- not fan out at all, and then it has not read the queue, or the readings keep a pause.
  pub fanouts-PausedSince :
      (ports : Ports) (h : History) (older : List (Ports × History))
      → (FansOut ports h older 1
          × ((q : QueueCounts) × (reading ports h ≡ some q))
          × (¬ PausedSince (readings ((ports, h) ∷ older))))
        ⊎ (FansOut ports h older 0
            × ((reading ports h ≡ none) ⊎ PausedSince (readings ((ports, h) ∷ older))))
  fanouts-PausedSince ports h older =
      let paused = paused_after older in
      let count = begin_cycle-fanouts ports h paused in
      let so_far = fanouts h in
      let before = paused_after-readings older in
      elim (Option-cases (reading ports h)) [
        | inl unread ↦ inr (count ∙ ap (λ o. calls_for paused o + so_far) unread, inl unread)
        | inr (q, read) ↦ elim (Bool-cases (next_paused c q (paused_after older))) [
          | inl on ↦ inr (
            count
                ∙ ap (λ o. calls_for paused o + so_far) read
                ∙ ap (λ b. (if b then 0 else 1) + so_far) on,
            inr (
                subst PausedSince (sym (ap (λ o. with_reading o (readings older)) read)) (
                  paused_by-PausedSince (q ∷ readings older)
                    (sym (ap (next_paused c q) before) ∙ on))),
          )
          | inr off ↦ inl (
            count
                ∙ ap (λ o. calls_for paused o + so_far) read
                ∙ ap (λ b. (if b then 0 else 1) + so_far) off,
            (q, read),
            λ p.
                let on = (paused_after_iff ((ports, h) ∷ older)).1 p in
                let same =
                  paused_after-readings ((ports, h) ∷ older)
                  ∙ ap (λ o. paused_by (with_reading o (readings older))) read
                  ∙ sym (ap (next_paused c q) before) in
                absurd_bool _ (sym same ∙ on) off,
          )
        ]
      ]
