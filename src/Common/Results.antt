-- ===== src/Common/Results.antt =====
-- What a Go function that returns `(value, error)` gives: the value, or the error alone.
use mathlib.Core.Path.{◌≡◌, refl}
use mathlib.Core.Bool.{Bool, true, false}
use mathlib.Core.Option.{Option, none, some}
use mathlib.Core.Logic.{◌⊎◌, inl, inr}

pub data Result {ℓ} (E : Type 0) (A : Type ℓ) : Type ℓ where
  err : E → Result E A
  ok : A → Result E A

-- `if test { return …, code }`.
abbrev pub reject : {E : Type 0} → Bool → E → Result E (Unit {0})
reject false _ = ok tt
reject true code = err code

-- `v, found := …; if !found { return …, code }`.
abbrev pub or_fail {ℓ} : {E : Type 0} {A : Type ℓ} → Option A → E → Result E A
or_fail (some found) _ = ok found
or_fail none code = err code

module _ {E : Type 0} where
  -- What a result is, by cases.
  pub Result-cases {ℓ} :
      {A : Type ℓ} (r : Result E A) → ((a : A) × (r ≡ ok a)) ⊎ ((code : E) × (r ≡ err code))
  Result-cases (err code) = inr (code, refl)
  Result-cases (ok a) = inl (a, refl)

  -- `v, err := step; if err != nil { return …, err }`, then the rest.
  infixl 5 ◌>>=◌ ◌>>◌
  abbrev pub ◌>>=◌ {ℓ κ} : {A : Type ℓ} {B : Type κ} → Result E A → (A → Result E B) → Result E B
  err code >>= rest = err code
  ok value >>= rest = rest value

  abbrev pub ◌>>◌ {ℓ} : {B : Type ℓ} → Result E (Unit {0}) → Result E B → Result E B
  checked >> rest = checked >>= λ _. rest

  module _ {κ} {B : Type κ} {b : B} where
    -- A test that let the code go on was false.
    pub reject-eq-ok :
        (test : Bool) (code : E) (rest : Result E B)
        → (reject test code >> rest) ≡ ok b
        → (test ≡ false) × (rest ≡ ok b)
    reject-eq-ok false code rest gone_on = (refl, gone_on)
    reject-eq-ok true code rest gone_on = cc

    module _ {ℓ} {A : Type ℓ} where
      -- A value that the code went on with was there.
      pub or_fail-eq-ok :
          (found : Option A) (code : E) (rest : A → Result E B)
          → (or_fail found code >>= rest) ≡ ok b
          → (a : A) × (found ≡ some a) × (rest a ≡ ok b)
      or_fail-eq-ok (some a) code rest gone_on = (a, refl, gone_on)
      or_fail-eq-ok none code rest gone_on = cc

      -- A step that the code went on from had succeeded.
      pub >>=-eq-ok :
          (step : Result E A) (rest : A → Result E B)
          → (step >>= rest) ≡ ok b
          → (a : A) × (step ≡ ok a) × (rest a ≡ ok b)
      >>=-eq-ok (err code) rest gone_on = cc
      >>=-eq-ok (ok a) rest gone_on = (a, refl, gone_on)
