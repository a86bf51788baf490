-- ===== src/Webhook/Rounds.antt =====
-- The deliveries that are under way in a cycle (server/webhook/worker.go).
use new_im.Common.{
  ℕ, suc, ◌+◌, ◌-◌, ◌≤◌, ◌<◌, ◌≡◌, refl, ap, ◌∙◌, inl, inr, Bool-cases, List, [], ◌∷◌, ◌++◌, Option,
  none, some, length, length-append, if◌then◌else◌, arith,
}
use new_im.Common.Int.{ℤ, pos}
use new_im.Bytes.{Bytes, eq_bytes, eq_bytes_sound, eq_bytes_refl}
use new_im.Webhook.Limiter.{Float64, DestinationLimiter, release}
use new_im.Webhook.Counted.{changed_at, active_in}
use new_im.Webhook.InFlight.{Reached, granted, refused, given_back, Reached-in_flight}
use new_im.Webhook.Types.{Delivery, WorkerConfig}
use new_im.Webhook.Deliver.{History, Ports, Envelopes}
use new_im.Webhook.Cycle.{Round, Step, deferred, acquired, started, given_up, ended}

abbrev pub one_of : Bytes → Bytes → ℕ
one_of d e = if eq_bytes d e then 1 else 0

-- The deliveries of a list that go to a destination.
abbrev pub going_to : Bytes → List Delivery → ℕ
going_to e [] = 0
going_to e (d ∷ ds) = one_of d.destination_id e + going_to e ds

abbrev pub held_for : Bytes → Option Delivery → ℕ
held_for e none = 0
held_for e (some d) = one_of d.destination_id e

going_to-append :
    (e : Bytes) (d : Delivery) (before behind : List Delivery)
    → going_to e (before ++ d ∷ behind) ≡ one_of d.destination_id e + going_to e (before ++ behind)
going_to-append e d [] behind = refl
going_to-append e d (x ∷ before) behind = omega (arith, going_to-append e d before behind)

changed_up : (f : Bytes → ℕ) (d e : Bytes) → changed_at f d (suc (f d)) e ≡ one_of d e + f e
changed_up f d e = elim (Bool-cases (eq_bytes d e)) [
  | inl same ↦ let here = ap f (eq_bytes_sound d e same) in ground (arith, same, here)
  | inr apart ↦ ground (arith, apart)
]

changed_down :
    (f : Bytes → ℕ) (d e : Bytes) → 0 < f d → one_of d e + changed_at f d (f d - 1) e ≡ f e
changed_down f d e some_held = elim (Bool-cases (eq_bytes d e)) [
  | inl same ↦ let here = ap f (eq_bytes_sound d e same) in ground (arith, same, here)
  | inr apart ↦ ground (arith, apart)
]

one_of_self : (d : Bytes) → one_of d d ≡ 1
one_of_self d = rw (eq_bytes_refl d) refl

module _ {F T : Type 0} (ops : Float64 F T) (c : WorkerConfig F) (ports : Ports)
    (envelopes : Envelopes) where
  -- Rounds whose limiter has granted exactly what is under way.
  pub record IsWithinLimits (r : Round ops c ports envelopes) : Type 0 where
    pub few : length r.running ≤ c.max_concurrent
    pub grants : Bytes → ℕ
    pub reached : Reached ops (pos c.max_per_destination) r.limiter grants
    pub exact : (e : Bytes) → grants e ≡ held_for e r.held + going_to e r.running

  -- A delivery that ends, or that the loop gives up, gives its grant back.
  give_back :
      (d : Delivery) (l : DestinationLimiter ops) (grants : Bytes → ℕ) (others : Bytes → ℕ)
      → Reached ops (pos c.max_per_destination) l grants
      → ((e : Bytes) → grants e ≡ one_of d.destination_id e + others e)
      → (after : Bytes → ℕ) × Reached ops
          (pos c.max_per_destination)
          (release ops l d.destination_id)
          after
        × ((e : Bytes) → after e ≡ others e)
  give_back d l grants others reached exact =
      let there : 0 < grants d.destination_id =
        omega (arith, exact d.destination_id, one_of_self d.destination_id) in
      (
        changed_at grants d.destination_id (grants d.destination_id - 1),
        given_back l grants d.destination_id reached there,
        λ e. omega (arith, changed_down grants d.destination_id e there, exact e),
      )

  module _ (now : ℤ) (instant : T) where
    Step-IsWithinLimits :
        (r s : Round ops c ports envelopes)
        → Step ops c ports envelopes now instant r s
        → IsWithinLimits r
        → IsWithinLimits s
    Step-IsWithinLimits _ _ (deferred d ds rs l after h denied) i = record {
      few = i.few;
      grants = i.grants;
      reached = refused l after i.grants d.destination_id instant i.reached denied;
      exact = i.exact;
    }
    Step-IsWithinLimits _ _ (acquired d ds rs l after h allowed) i = record {
      few = i.few;
      grants = changed_at i.grants d.destination_id (suc (i.grants d.destination_id));
      reached = granted l after i.grants d.destination_id instant i.reached allowed;
      exact = λ e. omega (arith, changed_up i.grants d.destination_id e, i.exact e);
    }
    Step-IsWithinLimits _ _ (started d ds rs l h free) i = record {
      few = omega (arith, free);
      grants = i.grants;
      reached = i.reached;
      exact = λ e. omega (arith, i.exact e);
    }
    Step-IsWithinLimits _ _ (given_up d ds rs l h gone) i =
        let (after, reached, exact) =
          give_back d l i.grants (λ e. going_to e rs) i.reached i.exact in
        record {
          few = i.few;
          grants = after;
          reached = reached;
          exact = λ e. omega (arith, exact e);
        }
    Step-IsWithinLimits _ _ (ended d ds before behind held l h) i =
        let (after, reached, exact) =
          give_back d l i.grants (λ e. held_for e held + going_to e (before ++ behind)) i.reached
            (λ e. omega (arith, i.exact e, going_to-append e d before behind)) in
        record {
          few =
              omega (arith, i.few, length-append before (d ∷ behind), length-append before behind);
          grants = after;
          reached = reached;
          exact = exact;
        }

    pub data Steps (r : Round ops c ports envelopes) : Round ops c ports envelopes → Type 0 where
      no_step : Steps r r
      one_more :
          (s t : Round ops c ports envelopes)
          → Steps r s
          → Step ops c ports envelopes now instant s t
          → Steps r t

    Steps-IsWithinLimits :
        (r s : Round ops c ports envelopes) → Steps r s → IsWithinLimits r → IsWithinLimits s
    Steps-IsWithinLimits r _ no_step i = i
    Steps-IsWithinLimits r _ (one_more s t steps step) i =
        Step-IsWithinLimits s t step (Steps-IsWithinLimits r s steps i)

    -- In whatever order the deliveries of a cycle are granted, started and ended, from a limiter
    -- that counts none: never more run than MaxConcurrent, never more to a destination than
    -- MaxPerDestination, and the limiter counts for each destination exactly the delivery that
    -- waits for a place and those that run.
    pub Steps-bounded :
        (claimed : List Delivery) (l : DestinationLimiter ops) (h : History)
        (s : Round ops c ports envelopes)
        → Reached ops (pos c.max_per_destination) l (λ _. 0)
        → Steps
            (record { waiting = claimed; held = none; running = []; limiter = l; history = h })
            s
        → (length s.running ≤ c.max_concurrent)
          × ((e : Bytes) → going_to e s.running ≤ c.max_per_destination)
          × ((e : Bytes)
              → active_in ops s.limiter.states e ≡ held_for e s.held + going_to e s.running)
    Steps-bounded claimed l h s reached steps =
        let i =
          Steps-IsWithinLimits _ s steps
            (record { few = omega arith; grants = λ _. 0; reached = reached; exact = λ e. refl }) in
        let known =
          Reached-in_flight ops (pos c.max_per_destination) s.limiter i.grants i.reached in
        (
          i.few,
          λ e. let (_, most) = known e in omega (arith, most, i.exact e),
          λ e. let (active, _) = known e in active ∙ i.exact e,
        )
