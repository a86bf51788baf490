-- ===== src/Webhook/Backoff.antt =====
-- How long a retry waits, and when there is none (server/webhook/worker.go).
use new_im.Common.{
  ℕ, zero, suc, ◌-◌, ◌*◌, ◌^◌, ◌≤◌, ◌<◌, ◌≡◌, refl, sym, ap, ◌∙◌, subst, ◌⊎◌, inl, inr, Bool, true,
  false, ◌&&◌, none, some, ltb, leb, if◌then◌else◌, arith,
}
use Prim.Native.Nat.{min}
use native.Mathlib.Nat.{pow-succ', two-pow-succ, mul_assoc, mul_comm}
use new_im.Common.Int.{ℤ, pos, negsuc, ltb_ℤ, ◌+ℤ◌, double_ℤ}
use new_im.Bytes.{Bytes}
use new_im.Webhook.Retry.{
  Code, http_temporary, Outcome, Config, retry, dead_letter, delivered, grow_delay, backoff,
  retry_delay_of, retry_outcome, terminal_outcome, response_outcome, retryable_status,
}

pow-step : (base n : ℕ) → base * 2 ^ suc n ≡ (2 * base) * 2 ^ n
pow-step base n =
    ap (λ p. base * p) (pow-succ' 2 n)
    ∙ sym (mul_assoc base 2 (2 ^ n))
    ∙ ap (λ b. b * 2 ^ n) (mul_comm base 2)

one_le_pow : (n : ℕ) → 1 ≤ 2 ^ n
one_le_pow zero = omega arith
one_le_pow (suc n) = omega (arith, one_le_pow n, two-pow-succ n)

le-times_pow : (a n : ℕ) → a ≤ a * 2 ^ n
le-times_pow a zero = omega arith
le-times_pow a (suc n) = omega (arith, pow-step a n, le-times_pow (2 * a) n)

min_full : (a m : ℕ) → m ≤ a → min a m ≡ m
min_full a m h = omega arith

min_small : (a m : ℕ) → a ≤ m → min a m ≡ a
min_small a m h = omega arith

split : (a m : ℕ) → (a ≤ m) ⊎ (m < a)
split a m = ground arith

compare_two : (a m : ℕ) → a ≤ m → (a < m) ⊎ (a ≡ m)
compare_two a m h = ground arith

capped :
    (a m : ℕ)
    → (if ltb_ℤ (pos m) (double_ℤ (pos a)) then pos m else double_ℤ (pos a)) ≡ pos (min (2 * a) m)
capped a m = ground arith

-- A duration from 0 to a bound.
abbrev pub UpTo : ℕ → ℤ → Type 0
UpTo m z = (d : ℕ) × (z ≡ pos d) × (d ≤ m)

clamped-UpTo :
    (m : ℕ) (z : ℤ)
    → UpTo m (if ltb_ℤ z (pos 0) then pos 0 else if ltb_ℤ (pos m) z then pos m else z)
clamped-UpTo m (pos n) = (min n m, ground arith, omega arith)
clamped-UpTo m (negsuc n) = (0, ground arith, omega arith)

asked-UpTo :
    (m : ℕ) (z : ℤ) → ltb_ℤ (pos 0) z ≡ true → UpTo m (if ltb_ℤ (pos m) z then pos m else z)
asked-UpTo m (pos n) h = (min n m, ground arith, omega arith)
asked-UpTo m (negsuc n) h = absurd (ground arith)

if-UpTo :
    (b : Bool) (m : ℕ) (x y : ℤ)
    → (b ≡ true → UpTo m x)
    → (b ≡ false → UpTo m y)
    → UpTo m (if b then x else y)
if-UpTo true m x y f g = f refl
if-UpTo false m x y f g = g refl

-- One round of the loop.
grow_delay-step :
    (n base max : ℕ)
    → base < max
    → grow_delay (suc n) (pos max) (pos base) ≡ grow_delay n (pos max) (pos (min (2 * base) max))
unfolding grow_delay
grow_delay-step n base max h = ground (arith, h, capped base max)

grow_delay-stop : (n max : ℕ) → grow_delay (suc n) (pos max) (pos max) ≡ pos max
unfolding grow_delay
grow_delay-stop n max = ground arith

grow_delay_full : (n max : ℕ) → grow_delay n (pos max) (pos max) ≡ pos max
grow_delay_full zero max = unfold grow_delay in refl
grow_delay_full (suc n) max = grow_delay-stop n max

-- For a base of at most the greatest delay: before the jitter, the delay after n doublings is the
-- least of the base times 2 ^ n and the greatest delay.
pub grow_delay-doubles :
    (n base max : ℕ) → base ≤ max → grow_delay n (pos max) (pos base) ≡ pos (min (base * 2 ^ n) max)
grow_delay-doubles zero base max h = unfold grow_delay in ap pos (omega arith)
grow_delay-doubles (suc n) base max h = elim (compare_two base max h) [
  | inl small ↦ grow_delay-step n base max small ∙ elim (split (2 * base) max) [
    | inl fits ↦
        ap (λ d. grow_delay n (pos max) (pos d)) (min_small (2 * base) max fits)
        ∙ grow_delay-doubles n (2 * base) max fits
        ∙ ap (λ d. pos (min d max)) (sym (pow-step base n))
    | inr over ↦
        ap (λ d. grow_delay n (pos max) (pos d)) (min_full (2 * base) max (omega arith))
        ∙ grow_delay_full n max
        ∙ ap pos (
            sym (
              min_full (base * 2 ^ suc n) max
                (omega (arith, pow-step base n, le-times_pow (2 * base) n))))
  ]
  | inr equal ↦
      ap (λ b. grow_delay (suc n) (pos max) (pos b)) equal
      ∙ grow_delay-stop n max
      ∙ ap pos
          (sym (min_full (base * 2 ^ suc n) max (omega (arith, equal, le-times_pow base (suc n)))))
]

backoff-UpTo :
    (c : Config) (id : Bytes) (attempts m : ℕ)
    → c.max_backoff ≡ pos m
    → UpTo m (backoff c id attempts)
unfolding backoff
backoff-UpTo c id attempts m h =
    let z = c.jitter id (grow_delay (attempts - 1) c.max_backoff c.base_backoff) in
    subst (λ bound. UpTo m (if ltb_ℤ z (pos 0) then pos 0 else if ltb_ℤ bound z then bound else z))
      (sym h) (clamped-UpTo m z)

-- A delay that the code waits for is not negative and at most the greatest one, whatever the jitter
-- is and the response asks for.
retry_delay_of-UpTo :
    (c : Config) (id : Bytes) (attempts m : ℕ) (retry_after : ℤ)
    → c.max_backoff ≡ pos m
    → UpTo m (retry_delay_of c id attempts retry_after)
unfolding retry_delay_of
retry_delay_of-UpTo c id attempts m retry_after h =
    if-UpTo (ltb_ℤ (pos 0) retry_after) m _ _
      (λ asked.
        subst (λ bound. UpTo m (if ltb_ℤ bound retry_after then bound else retry_after)) (sym h)
          (asked-UpTo m retry_after asked))
      (λ _. backoff-UpTo c id attempts m h)

-- A delivery that is tried again later.
pub record IsRetried (c : Config) (attempts m : ℕ) (now : ℤ) (o : Outcome) : Type 0 where
  pub again : o.status ≡ retry
  pub left : attempts < c.max_attempts
  pub delay : UpTo m o.retry_delay
  pub next : o.next_attempt ≡ some (now +ℤ o.retry_delay)
  pub pending : o.completed_at ≡ none

-- A delivery that is never tried again.
pub record IsSettled (now : ℤ) (o : Outcome) : Type 0 where
  pub settled : (o.status ≡ delivered) ⊎ (o.status ≡ dead_letter)
  pub no_next : o.next_attempt ≡ none
  pub completed : o.completed_at ≡ some now

if-either {ℓ κ} :
    {A : Type ℓ} (P : A → Type κ) (b : Bool) (x y : A)
    → (b ≡ true → P x)
    → (b ≡ false → P y)
    → P (if b then x else y)
if-either P true x y f g = f refl
if-either P false x y f g = g refl

module _ (c : Config) (id : Bytes) (attempts : ℕ) (now : ℤ) (retry_after : ℤ) (m : ℕ)
    (greatest : c.max_backoff ≡ pos m) where
  abbrev Decided : Outcome → Type 0
  Decided o = IsRetried c attempts m now o ⊎ IsSettled now o

  retry_outcome-cases : (code : Code) → Decided (retry_outcome code attempts c id now retry_after)
  unfolding retry_outcome terminal_outcome
  retry_outcome-cases code =
      if-either Decided (leb c.max_attempts attempts) _ _
        (λ _. inr (record { settled = inr refl; no_next = refl; completed = refl }))
        (λ few. inl (record {
          again = refl;
          left = ground (arith, few);
          delay = retry_delay_of-UpTo c id attempts m retry_after greatest;
          next = refl;
          pending = refl;
        }))

  -- For a greatest delay that is not negative, and whatever the jitter is: the response to an
  -- attempt either settles the delivery now, as delivered or as a dead letter, with no next
  -- attempt, or the delivery is to be tried again; then attempts are left, the delay is from 0 to
  -- the greatest delay, and the next attempt is that delay from now.
  pub response_outcome-cases :
      (status : ℕ)
      → IsRetried c attempts m now (response_outcome c id attempts now status retry_after)
        ⊎ IsSettled now (response_outcome c id attempts now status retry_after)
  unfolding response_outcome
  response_outcome-cases status =
      if-either Decided (leb 200 status && ltb status 300) _ _
        (λ _. inr (record { settled = inl refl; no_next = refl; completed = refl }))
        (λ _.
          if-either Decided (retryable_status status) _ _ (λ _. retry_outcome-cases http_temporary)
            (λ _. inr (record { settled = inr refl; no_next = refl; completed = refl })))
