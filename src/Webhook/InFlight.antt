-- ===== src/Webhook/InFlight.antt =====
-- How many deliveries to a destination are under way (server/webhook/limiter.go).
use new_im.Common.{ℕ, suc, ◌-◌, ◌≤◌, ◌<◌, ◌≡◌, refl, sym, ap, ◌∙◌, subst, true, false, arith}
use new_im.Common.Int.{ℤ, pos_part}
use new_im.Bytes.{Bytes}
use new_im.Webhook.Counted.{
  changed_at, active_in, acquire-true, acquire-false, release-states, changed_at-same,
  changed_at_own, changed_at-bounded, counts,
}
use new_im.Webhook.Limiter.{
  Float64, DestinationLimiter, new_destination_limiter, find_state, acquire, release,
}

module _ {F T : Type 0} (ops : Float64 F T) where
  -- The limiters that calls of `acquire` and `release` reach from a new one, with how many grants of
  -- each destination are not given back; nobody gives back what was not granted.
  pub data Reached (max : ℤ) : DestinationLimiter ops → (Bytes → ℕ) → Type 0 where
    start : (rate burst : F) → Reached max (new_destination_limiter ops max rate burst) (λ _. 0)
    granted :
        (l after : DestinationLimiter ops) (held : Bytes → ℕ) (d : Bytes) (now : T)
        → Reached max l held
        → acquire ops l d now ≡ (true, after)
        → Reached max after (changed_at held d (suc (held d)))
    refused :
        (l after : DestinationLimiter ops) (held : Bytes → ℕ) (d : Bytes) (now : T)
        → Reached max l held
        → acquire ops l d now ≡ (false, after)
        → Reached max after held
    given_back :
        (l : DestinationLimiter ops) (held : Bytes → ℕ) (d : Bytes)
        → Reached max l held
        → 0 < held d
        → Reached max (release ops l d) (changed_at held d (held d - 1))

  record Counts (max : ℤ) (l : DestinationLimiter ops) (held : Bytes → ℕ) : Type 0 where
    max_same : l.max ≡ max
    exact : (e : Bytes) → active_in ops l.states e ≡ held e
    bounded : (e : Bytes) → held e ≤ pos_part max

  Reached-Counts :
      (max : ℤ) (l : DestinationLimiter ops) (held : Bytes → ℕ)
      → Reached max l held
      → Counts max l held
  Reached-Counts max _ _ (start rate burst) = record {
    max_same = unfold new_destination_limiter in refl;
    exact = λ e. unfold new_destination_limiter find_state in refl;
    bounded = λ e. omega arith;
  }
  Reached-Counts max _ _ (granted l after held d now reached h) =
      let c = Reached-Counts max l held reached in
      let (max_same, space, s, active, states) = acquire-true ops l after d now h in
      let here = c.exact d in
      record {
        max_same = max_same ∙ c.max_same;
        exact = λ e.
            counts ops l.states after.states d s states e
            ∙ changed_at-same ops (active_in ops l.states) held d s.active (suc (held d))
                (active ∙ ap suc here) c.exact e;
        bounded = λ e.
            changed_at-bounded ops held d e (suc (held d)) (pos_part max)
              (subst (λ m. suc (held d) ≤ pos_part m) c.max_same
                (subst (λ n. suc n ≤ pos_part l.max) here space))
              (c.bounded e);
      }
  Reached-Counts max _ _ (refused l after held d now reached h) =
      let c = Reached-Counts max l held reached in
      let (max_same, s, active, states) = acquire-false ops l after d now h in
      record {
        max_same = max_same ∙ c.max_same;
        exact = λ e.
            counts ops l.states after.states d s states e
            ∙ changed_at_own ops (active_in ops l.states) d s.active active e
            ∙ c.exact e;
        bounded = c.bounded;
      }
  Reached-Counts max _ _ (given_back l held d reached some_held) =
      let c = Reached-Counts max l held reached in
      let here = c.exact d in
      let (max_same, s, active, states) =
        release-states ops l d (subst (λ n. 0 < n) (sym here) some_held) in
      record {
        max_same = max_same ∙ c.max_same;
        exact = λ e.
            counts ops l.states (release ops l d).states d s states e
            ∙ changed_at-same ops (active_in ops l.states) held d s.active (held d - 1)
                (active ∙ ap (λ n. n - 1) here) c.exact e;
        bounded = λ e.
            changed_at-bounded ops held d e (held d - 1) (pos_part max) (omega (arith, c.bounded d))
              (c.bounded e);
      }

  -- Whatever the arithmetic of float64 and the clock give: after any sequence of calls of
  -- `acquire` and `release` on a new limiter, in which nothing is given back that was not granted,
  -- the limiter counts for each destination exactly the grants that are not given back, and they
  -- are never more than the configured number.
  pub Reached-in_flight :
      (max : ℤ) (l : DestinationLimiter ops) (held : Bytes → ℕ)
      → Reached max l held
      → (d : Bytes) → (active_in ops l.states d ≡ held d) × (held d ≤ pos_part max)
  Reached-in_flight max l held reached d =
      let c = Reached-Counts max l held reached in (c.exact d, c.bounded d)
