-- ===== src/Webhook/Counted.antt =====
-- What the calls of the limiter do to the counts of its destinations (server/webhook/limiter.go).
use new_im.Common.{
  ℕ, suc, ◌-◌, ◌≤◌, ◌<◌, ◌≡◌, refl, sym, ap, ◌∙◌, subst, inl, inr, Bool, true, false, not, ◌||◌, [],
  ◌∷◌, none, some, if◌then◌else◌, Bool-cases, Option-cases, absurd_bool, arith,
}
use new_im.Common.Int.{ℤ, pos, pos_part, ltb_ℤ}
use new_im.Bytes.{Bytes, eq_bytes, eq_bytes_refl, eq_bytes_sound}
use new_im.Webhook.Limiter.{
  Float64, DestinationState, States, DestinationLimiter, find_state, put_state, state_of, refill,
  with_state, acquire, release,
}

-- A count for every destination, with one changed.
abbrev pub changed_at : (Bytes → ℕ) → Bytes → ℕ → Bytes → ℕ
changed_at held d n e = if eq_bytes d e then n else held e

eq_bytes_apart : (a b c : Bytes) → eq_bytes a b ≡ false → eq_bytes a c ≡ true → eq_bytes b c ≡ false
eq_bytes_apart a b c p q = elim (Bool-cases (eq_bytes b c)) [
  | inl same ↦
      let a_is_b : a ≡ b = eq_bytes_sound a c q ∙ sym (eq_bytes_sound b c same) in
      absurd_bool (eq_bytes a b) (subst (λ x. eq_bytes a x ≡ true) a_is_b (eq_bytes_refl a)) p
  | inr apart ↦ apart
]

module _ {F T : Type 0} (ops : Float64 F T) where
  abbrev pub active_in : States ops → Bytes → ℕ
  active_in states d = elim (find_state ops states d) [ none ↦ 0 | some s ↦ s.active ]

  find_state-put_state :
      (states : States ops) (d e : Bytes) (s : DestinationState ops)
      → find_state ops (put_state ops states d s) e
        ≡ (if eq_bytes d e then some s else find_state ops states e)
  unfolding find_state put_state
  find_state-put_state [] d e s = refl
  find_state-put_state ((key, state) ∷ states) d e s = elim (Bool-cases (eq_bytes key d)) [
    | inl same ↦
        let key_is : key ≡ d = eq_bytes_sound key d same in
        ground (arith, same, ap (λ k. eq_bytes k e) key_is)
    | inr differs ↦ elim (Bool-cases (eq_bytes key e)) [
      | inl here ↦
          let key_is : key ≡ e = eq_bytes_sound key e here in
          let apart : eq_bytes d e ≡ false = eq_bytes_apart key d e differs here in
          ground (arith, differs, here, apart)
      | inr there ↦ ground (arith, differs, there, find_state-put_state states d e s)
    ]
  ]

  active_in-put_state :
      (states : States ops) (d e : Bytes) (s : DestinationState ops)
      → active_in (put_state ops states d s) e ≡ changed_at (active_in states) d s.active e
  active_in-put_state states d e s = ground (arith, find_state-put_state states d e s)

  refill-active :
      (l : DestinationLimiter ops) (s : DestinationState ops) (now : T)
      → (refill ops l s now).active ≡ s.active
  unfolding refill
  refill-active l s now = ground arith

  state_of-active :
      (l : DestinationLimiter ops) (d : Bytes) (now : T)
      → (state_of ops l d now).active ≡ active_in l.states d
  unfolding state_of
  state_of-active l d now = ground arith

  refilled-active :
      (l : DestinationLimiter ops) (d : Bytes) (now : T)
      → (refill ops l (state_of ops l d now) now).active ≡ active_in l.states d
  refilled-active l d now = refill-active l (state_of ops l d now) now ∙ state_of-active l d now

  granted_side :
      (full : Bool) (a b after : DestinationLimiter ops)
      → ◌≡◌ {A = Bool × DestinationLimiter ops}
          (if full then (false, a) else (true, b))
          (true, after)
      → (full ≡ false) × (after ≡ b)
  granted_side true a b after h = absurd (cc (ap (λ p. p.0) h))
  granted_side false a b after h = (refl, sym (ap (λ p. p.1) h))

  refused_side :
      (full : Bool) (a b after : DestinationLimiter ops)
      → ◌≡◌ {A = Bool × DestinationLimiter ops}
          (if full then (false, a) else (true, b))
          (false, after)
      → after ≡ a
  refused_side true a b after h = sym (ap (λ p. p.1) h)
  refused_side false a b after h = absurd (cc (ap (λ p. p.0) h))

  room :
      (active : ℕ) (max : ℤ) (poor : Bool)
      → (not (ltb_ℤ (pos active) max) || poor) ≡ false
      → suc active ≤ pos_part max
  room active max poor h = ground arith

  -- What a granted call leaves behind.
  pub acquire-true :
      (l after : DestinationLimiter ops) (d : Bytes) (now : T)
      → acquire ops l d now ≡ (true, after)
      → (after.max ≡ l.max)
        × (suc (active_in l.states d) ≤ pos_part l.max)
        × (s : DestinationState ops) × (s.active ≡ suc (active_in l.states d))
        × (after.states ≡ put_state ops l.states d s)
  unfolding acquire
  acquire-true l after d now h =
      let r = refill ops l (state_of ops l d now) now in
      let new : DestinationState ops = record {
        active = suc r.active;
        tokens = ops.sub r.tokens ops.one;
        last = r.last;
      } in
      let full = not (ltb_ℤ (pos r.active) l.max) || ops.less r.tokens ops.one in
      let (free, same) =
        granted_side full (with_state ops l d r) (with_state ops l d new) after h in
      let count = refilled-active l d now in
      (
        ap (λ x. x.max) same,
        subst (λ n. suc n ≤ pos_part l.max) count
            (room r.active l.max (ops.less r.tokens ops.one) free),
        new,
        ap suc count,
        ap (λ x. x.states) same,
      )

  pub acquire-false :
      (l after : DestinationLimiter ops) (d : Bytes) (now : T)
      → acquire ops l d now ≡ (false, after)
      → (after.max ≡ l.max)
        × (s : DestinationState ops) × (s.active ≡ active_in l.states d)
        × (after.states ≡ put_state ops l.states d s)
  unfolding acquire
  acquire-false l after d now h =
      let r = refill ops l (state_of ops l d now) now in
      let new : DestinationState ops = record {
        active = suc r.active;
        tokens = ops.sub r.tokens ops.one;
        last = r.last;
      } in
      let full = not (ltb_ℤ (pos r.active) l.max) || ops.less r.tokens ops.one in
      let same = refused_side full (with_state ops l d r) (with_state ops l d new) after h in
      (ap (λ x. x.max) same, r, refilled-active l d now, ap (λ x. x.states) same)

  -- What giving back leaves behind, where something was granted.
  pub release-states :
      (l : DestinationLimiter ops) (d : Bytes)
      → 0 < active_in l.states d
      → ((release ops l d).max ≡ l.max)
        × (s : DestinationState ops) × (s.active ≡ active_in l.states d - 1)
        × ((release ops l d).states ≡ put_state ops l.states d s)
  unfolding release
  release-states l d h = elim (Option-cases (find_state ops l.states d)) [
    | inl missing ↦ absurd (ground (arith, missing))
    | inr (s, found) ↦ (
      ground (arith, found, h),
      record s { active = s.active - 1 },
      ground (arith, found),
      ground (arith, found, h),
    )
  ]

  pub changed_at-same :
      (f g : Bytes → ℕ) (d : Bytes) (m n : ℕ)
      → m ≡ n
      → ((e : Bytes) → f e ≡ g e)
      → (e : Bytes) → changed_at f d m e ≡ changed_at g d n e
  changed_at-same f g d m n h k e = ground (arith, h, k e)

  pub changed_at_own :
      (f : Bytes → ℕ) (d : Bytes) (n : ℕ) → n ≡ f d → (e : Bytes) → changed_at f d n e ≡ f e
  changed_at_own f d n h e = elim (Bool-cases (eq_bytes d e)) [
    | inl same ↦
        let d_is_e : d ≡ e = eq_bytes_sound d e same in ground (arith, same, h, ap f d_is_e)
    | inr apart ↦ ground (arith, apart)
  ]

  pub changed_at-bounded :
      (f : Bytes → ℕ) (d e : Bytes) (n m : ℕ) → n ≤ m → f e ≤ m → changed_at f d n e ≤ m
  changed_at-bounded f d e n m h k = ground (arith, h, k)

  pub counts :
      (states after : States ops) (d : Bytes) (s : DestinationState ops)
      → after ≡ put_state ops states d s
      → (e : Bytes) → active_in after e ≡ changed_at (active_in states) d s.active e
  counts states after d s h e = ap (λ x. active_in x e) h ∙ active_in-put_state states d e s
