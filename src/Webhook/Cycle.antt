-- ===== src/Webhook/Cycle.antt =====
-- server/webhook/worker.go: a cycle of the worker, and the deliveries that it has under way.
use new_im.Common.{
  ◌<◌, ◌≡◌, Bool, true, false, ◌&&◌, ◌||◌, List, [], ◌∷◌, ◌++◌, Option, none, some, ltb, leb,
  length, if◌then◌else◌, Result, ok, err,
}
use new_im.Common.Int.{ℤ}
use new_im.Webhook.Limiter.{Float64, DestinationLimiter, acquire, release}
use new_im.Webhook.Retry.{Code}
use new_im.Webhook.Types.{Delivery, QueueCounts, WorkerConfig}
use new_im.Webhook.Deliver.{
  History, cancel_revoked, counts, fanout, claim, Ports, Envelopes, deliver, defer_delivery,
}

module _ {F : Type 0} (c : WorkerConfig F) where
  -- Above the low water mark, where a pause goes on, and at the high one, where a pause begins.
  unfoldable pub above_low : QueueCounts → Bool
  above_low q = ltb c.low_water q.total || ltb c.low_water q.max_destination

  unfoldable pub at_high : QueueCounts → Bool
  at_high q = leb c.high_water q.total || leb c.max_destination_queue q.max_destination

  unfoldable pub next_paused : QueueCounts → Bool → Bool
  unfolding above_low at_high
  next_paused q paused = (paused && above_low q) || at_high q

  -- The cycle up to the claim of deliveries: the calls, the pause and what was claimed. The pause
  -- stands also where the claim fails.
  unfoldable pub begin_cycle : Ports → History → Bool → History × Bool × Result Code (List Delivery)
  unfolding next_paused
  begin_cycle ports h paused =
      let now = ports.now h in
      let revoking = cancel_revoked now ∷ h in
      elim (ports.revoked revoking) [
        | err code ↦ (revoking, paused, err code)
        | ok n ↦
            let counting = counts ∷ revoking in
            elim (ports.queue counting) [
              | err code ↦ (counting, paused, err code)
              | ok q ↦
                  let next = next_paused q paused in
                  let spread =
                    if next
                    then counting
                    else fanout now c.batch_size c.max_destination_queue c.high_water ∷ counting in
                  let claiming = claim now c.owner c.lease_ttl c.batch_size ∷ spread in
                  (claiming, next, ports.claimed claiming)
            ]
      ]

module _ {F T : Type 0} (ops : Float64 F T) (c : WorkerConfig F) (ports : Ports)
    (envelopes : Envelopes) where
  -- The rest of a cycle: the deliveries that the loop has not come to, the one that waits for a
  -- place among those under way, those under way, and the limiter that is shared.
  pub record Round : Type 0 where
    pub waiting : List Delivery
    pub held : Option Delivery
    pub running : List Delivery
    pub limiter : DestinationLimiter ops
    pub history : History

  -- The steps of the loop and of the goroutines, in any order: the loop is refused or granted its
  -- next delivery, starts it where a place is free, or gives up where the worker is cancelled; an
  -- attempt ends and gives its grant back. The calls of an attempt stand together in the history.
  pub data Step (now : ℤ) (instant : T) : Round → Round → Type 0 where
    deferred :
        (d : Delivery) (ds rs : List Delivery) (l after : DestinationLimiter ops) (h : History)
        → acquire ops l d.destination_id instant ≡ (false, after)
        → Step now instant
            (record { waiting = d ∷ ds; held = none; running = rs; limiter = l; history = h })
            (record {
              waiting = ds;
              held = none;
              running = rs;
              limiter = after;
              history = defer_delivery c ports envelopes h d now;
            })
    acquired :
        (d : Delivery) (ds rs : List Delivery) (l after : DestinationLimiter ops) (h : History)
        → acquire ops l d.destination_id instant ≡ (true, after)
        → Step now instant
            (record { waiting = d ∷ ds; held = none; running = rs; limiter = l; history = h })
            (record { waiting = ds; held = some d; running = rs; limiter = after; history = h })
    started :
        (d : Delivery) (ds rs : List Delivery) (l : DestinationLimiter ops) (h : History)
        → length rs < c.max_concurrent
        → Step now instant
            (record { waiting = ds; held = some d; running = rs; limiter = l; history = h })
            (record { waiting = ds; held = none; running = d ∷ rs; limiter = l; history = h })
    given_up :
        (d : Delivery) (ds rs : List Delivery) (l : DestinationLimiter ops) (h : History)
        → ports.cancelled h ≡ true
        → Step now instant
            (record { waiting = ds; held = some d; running = rs; limiter = l; history = h })
            (record {
              waiting = [];
              held = none;
              running = rs;
              limiter = release ops l d.destination_id;
              history = h;
            })
    ended :
        (d : Delivery) (ds before behind : List Delivery) (held : Option Delivery)
        (l : DestinationLimiter ops) (h : History)
        → Step now instant
            (record {
              waiting = ds;
              held = held;
              running = before ++ d ∷ behind;
              limiter = l;
              history = h;
            })
            (record {
              waiting = ds;
              held = held;
              running = before ++ behind;
              limiter = release ops l d.destination_id;
              history = deliver c ports envelopes h d;
            })
