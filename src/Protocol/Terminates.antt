-- ===== src/Protocol/Terminates.antt =====
-- The strict scan of JSON ends with the fuel that it is given (core/protocol/go/message.go).
use new_im.Common.{
  ℕ, zero, suc, ◌+◌, ◌*◌, ◌≤◌, ◌<◌, ◌≡◌, ◌≢◌, refl, Bool, true, false, not, ◌||◌, List, [], ◌∷◌,
  Option, none, some, ◌==◌, ltb, if◌then◌else◌, length, Result, ok, err, ◌>>=◌, ◌>>◌, reject,
  or_fail, arith,
}
use new_im.Bytes.{Bytes}
use new_im.Protocol.Json.Utf8.{valid_utf8}
use new_im.Protocol.Json.Decoder.{
  Token, delim, string, number, literal, Decoder, new_decoder, token, more, at_end, read_between,
}
use new_im.Protocol.Json.Taken.{TokenTook, token-TokenTook}
use new_im.Protocol.Types.{ErrorCode, invalid_json, too_large, too_deep}
use new_im.Protocol.Strict.{
  Stop, failed, out_of_fuel, bad_scalar, member_name, close, value, compound, members, elements,
  is_delim, fuel_for, scan_strict,
}

-- A scan that ends, and that leaves fewer bytes than these where it succeeds.
abbrev Ends : ℕ → Result Stop Decoder → Type 0
Ends n (ok d) = length d.rest < n
Ends n (err (failed code)) = Unit
Ends n (err out_of_fuel) = ⊥

module _ (n : ℕ) where
  Ends-or_fail {ℓ} :
      {A : Type ℓ} (o : Option A) (code : ErrorCode) (rest : A → Result Stop Decoder)
      → ((a : A) → o ≡ some a → Ends n (rest a))
      → Ends n (or_fail o (failed code) >>= rest)
  Ends-or_fail none code rest h = tt
  Ends-or_fail (some a) code rest h = h a refl

  Ends-reject :
      (test : Bool) (code : ErrorCode) (rest : Result Stop Decoder)
      → Ends n rest
      → Ends n (reject test (failed code) >> rest)
  Ends-reject true code rest h = tt
  Ends-reject false code rest h = h

  Ends->>= :
      (m : ℕ) (r : Result Stop Decoder) (rest : Decoder → Result Stop Decoder)
      → Ends m r
      → ((d : Decoder) → length d.rest < m → Ends n (rest d))
      → Ends n (r >>= rest)
  Ends->>= m (ok d) rest h k = k d h
  Ends->>= m (err (failed code)) rest h k = tt
  Ends->>= m (err out_of_fuel) rest h k = h

  Ends-if :
      (test : Bool) (x y : Result Stop Decoder)
      → Ends n x
      → Ends n y
      → Ends n (if test then x else y)
  Ends-if true x y h k = h
  Ends-if false x y h k = k

  Ends-le : (m : ℕ) (r : Result Stop Decoder) → m ≤ n → Ends m r → Ends n r
  Ends-le m (ok d) h k = omega (arith, h, k)
  Ends-le m (err (failed code)) h k = tt
  Ends-le m (err out_of_fuel) h k = k

token-shorter :
    (d : Decoder) (t : Token × Decoder) → token d ≡ some t → length t.1.rest < length d.rest
token-shorter d (t, e) h = from (token d) (token-TokenTook d) h
  where
    from :
        (o : Option (Token × Decoder))
        → TokenTook (length d.rest) o
        → o ≡ some (t, e)
        → length e.rest < length d.rest
    from none took h = cc
    from (some (t0, e0)) took h = let same : e0 ≡ e = cc h in rw (← same) took

close-Ends : (c : ℕ) (d : Decoder) → Ends (suc (length d.rest)) (close c d)
unfolding close
close-Ends c d = Ends-or_fail (suc (length d.rest)) (token d) invalid_json _ (λ a h.
    Ends-reject (suc (length d.rest)) (not (is_delim c a.0)) invalid_json (ok a.1)
      (omega (arith, token-shorter d a h)))

mutual
  unfolding value compound members elements

  value-Ends :
      (fuel max depth : ℕ) (d : Decoder)
      → 3 * length d.rest + 1 ≤ fuel
      → Ends (length d.rest) (value fuel max depth d)
  value-Ends zero max depth d h = absurd (omega (arith, h))
  value-Ends (suc fuel) max depth d h =
      Ends-or_fail (length d.rest) (token d) invalid_json _ (λ a e.
        Ends-reject (length d.rest) (bad_scalar a.0 (read_between d a.1)) invalid_json
          (compound fuel max depth a.0 a.1)
          (Ends-le (length d.rest) (suc (length a.1.rest)) (compound fuel max depth a.0 a.1)
            (omega (arith, token-shorter d a e))
            (compound-Ends fuel max depth a.0 a.1 (omega (arith, h, token-shorter d a e)))))

  compound-Ends :
      (fuel max depth : ℕ) (t : Token) (e : Decoder)
      → 3 * length e.rest + 3 ≤ fuel
      → Ends (suc (length e.rest)) (compound fuel max depth t e)
  compound-Ends zero max depth t e h = absurd (omega (arith, h))
  compound-Ends (suc fuel) max depth (delim c) e h =
      let n = suc (length e.rest) in
      Ends-reject n (not (c == b'{' || c == b'[')) invalid_json _ (
        Ends-reject n (ltb max (suc depth)) too_deep _ (
          Ends-if n (c == b'{') _ _ (members-Ends fuel max (suc depth) [] e (omega (arith, h)))
            (elements-Ends fuel max (suc depth) e (omega (arith, h)))))
  compound-Ends (suc fuel) max depth (string s) e h = omega arith
  compound-Ends (suc fuel) max depth (number s) e h = omega arith
  compound-Ends (suc fuel) max depth literal e h = omega arith

  members-Ends :
      (fuel max depth : ℕ) (seen : List Bytes) (d : Decoder)
      → 3 * length d.rest + 2 ≤ fuel
      → Ends (suc (length d.rest)) (members fuel max depth seen d)
  members-Ends zero max depth seen d h = absurd (omega (arith, h))
  members-Ends (suc fuel) max depth seen d h =
      let n = suc (length d.rest) in
      Ends-if n (more d) _ (close b'}' d)
        (Ends-or_fail n (token d) invalid_json _ (λ a e.
          Ends-or_fail n (member_name seen a.0 (read_between d a.1)) invalid_json _ (λ name _.
            Ends->>= n (length a.1.rest) (value fuel max depth a.1) _
              (value-Ends fuel max depth a.1 (omega (arith, h, token-shorter d a e)))
              (λ after short.
                Ends-le n (suc (length after.rest)) (members fuel max depth (name ∷ seen) after)
                  (omega (arith, short, token-shorter d a e))
                  (members-Ends fuel max depth (name ∷ seen) after
                    (omega (arith, h, short, token-shorter d a e)))))))
        (close-Ends b'}' d)

  elements-Ends :
      (fuel max depth : ℕ) (d : Decoder)
      → 3 * length d.rest + 2 ≤ fuel
      → Ends (suc (length d.rest)) (elements fuel max depth d)
  elements-Ends zero max depth d h = absurd (omega (arith, h))
  elements-Ends (suc fuel) max depth d h =
      let n = suc (length d.rest) in
      Ends-if n (more d) _ (close b']' d)
        (Ends->>= n (length d.rest) (value fuel max depth d) _
          (value-Ends fuel max depth d (omega (arith, h)))
          (λ after short.
            Ends-le n (suc (length after.rest)) (elements fuel max depth after)
              (omega (arith, short))
              (elements-Ends fuel max depth after (omega (arith, h, short)))))
        (close-Ends b']' d)

rejected-ne-out_of_fuel :
    (test : Bool) (code : ErrorCode) (rest : Result Stop (Unit {0}))
    → rest ≢ err out_of_fuel
    → (reject test (failed code) >> rest) ≢ err out_of_fuel
rejected-ne-out_of_fuel true code rest h = λ e. cc e
rejected-ne-out_of_fuel false code rest h = h

ended-ne-out_of_fuel :
    (n : ℕ) (r : Result Stop Decoder) (rest : Decoder → Result Stop (Unit {0}))
    → Ends n r
    → ((d : Decoder) → rest d ≢ err out_of_fuel)
    → (r >>= rest) ≢ err out_of_fuel
ended-ne-out_of_fuel n (ok d) rest h k = k d
ended-ne-out_of_fuel n (err (failed code)) rest h k = λ e. cc e
ended-ne-out_of_fuel n (err out_of_fuel) rest h k = absurd h

checked-ne-out_of_fuel :
    (test : Bool) (code : ErrorCode)
    → ◌≢◌ {A = Result Stop (Unit {0})} (reject test (failed code)) (err out_of_fuel)
checked-ne-out_of_fuel true code = λ e. cc e
checked-ne-out_of_fuel false code = λ e. cc e

-- The scan of strictJSONLimits ends on every input, valid or not, with every limit on bytes and on
-- depth: the fuel of four calls and rounds for each byte is never used up.
pub scan_strict-ne-out_of_fuel :
    (wire : Bytes) (max_bytes max_depth : ℕ)
    → scan_strict wire max_bytes max_depth ≢ err out_of_fuel
unfolding scan_strict
scan_strict-ne-out_of_fuel wire max_bytes max_depth =
    rejected-ne-out_of_fuel (ltb max_bytes (length wire)) too_large _ (
      rejected-ne-out_of_fuel (not (valid_utf8 wire)) invalid_json _ (
        ended-ne-out_of_fuel (length wire) (value (fuel_for wire) max_depth 0 (new_decoder wire)) _
          (value-Ends (fuel_for wire) max_depth 0 (new_decoder wire) (omega arith))
          (λ d. checked-ne-out_of_fuel (not (at_end d)) invalid_json)))
