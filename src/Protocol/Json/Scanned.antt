-- ===== src/Protocol/Json/Scanned.antt =====
-- Every scan of encoding/json takes bytes of its input.
use new_im.Common.{
  ℕ, suc, ◌+◌, ◌*◌, ◌≤◌, ◌<◌, Bool, true, false, ◌||◌, List, [], ◌∷◌, Option, none, some, ◌==◌, ltb,
  if◌then◌else◌, length, arith,
}
use new_im.Bytes.{Bytes, is_digit}
use new_im.Protocol.Json.Scan.{
  skip_space, hex_value, escape_of, Piece, byte, unit, StringState, plain, escaped, digits,
  add_piece, scan_string, scan_number, span_digits, some_digits, whole_part, behind, fraction,
  signed_digits, exponent, then_scan,
}

pub skip_space-le : (cs : Bytes) → length (skip_space cs) ≤ length cs
unfolding skip_space
skip_space-le [] = omega arith
skip_space-le (c ∷ cs) = ground (arith, skip_space-le cs)

-- A scan that succeeds leaves fewer bytes than these.
abbrev pub Took {ℓ} : {A : Type ℓ} → ℕ → Option (A × Bytes) → Type 0
Took n none = Unit
Took n (some (a, rest)) = length rest < n

module _ {ℓ} {A : Type ℓ} where
  Took-if :
      (n : ℕ) (test : Bool) (x y : Option (A × Bytes))
      → Took n x
      → Took n y
      → Took n (if test then x else y)
  Took-if n true x y h k = h
  Took-if n false x y h k = k

  Took-suc : (n : ℕ) (x : Option (A × Bytes)) → Took n x → Took (suc n) x
  Took-suc n none h = tt
  Took-suc n (some (a, rest)) h = omega (arith, h)

module _ (n : ℕ) where
  Took-piece :
      (p : Piece) (o : Option (List Piece × Bytes)) → Took n o → Took (suc n) (add_piece p o)
  Took-piece p none h = tt
  Took-piece p (some (ps, rest)) h = omega (arith, h)

escape-Took :
    (d : Option ℕ) (cs : Bytes)
    → Took (length cs) (scan_string plain cs)
    → Took
        (suc (length cs))
        (elim d [ none ↦ none | some e ↦ add_piece (byte e) (scan_string plain cs) ])
escape-Took none cs h = tt
escape-Took (some e) cs h = Took-piece (length cs) (byte e) (scan_string plain cs) h

digits-Took :
    (d : Option ℕ) (read value : ℕ) (cs : Bytes)
    → Took (length cs) (scan_string plain cs)
    → ((r v : ℕ) → Took (length cs) (scan_string (digits r v) cs))
    → Took (suc (length cs)) (elim d [
      | none ↦ none
      | some e ↦
          if read == 3
          then add_piece (unit (value * 16 + e)) (scan_string plain cs)
          else scan_string (digits (read + 1) (value * 16 + e)) cs
    ])
digits-Took none read value cs h k = tt
digits-Took (some e) read value cs h k =
    Took-if (suc (length cs)) (read == 3) _ _
      (Took-piece (length cs) (unit (value * 16 + e)) (scan_string plain cs) h)
      (Took-suc (length cs) (scan_string (digits (read + 1) (value * 16 + e)) cs)
        (k (read + 1) (value * 16 + e)))

pub scan_string-Took : (state : StringState) (cs : Bytes) → Took (length cs) (scan_string state cs)
unfolding scan_string
scan_string-Took plain [] = tt
scan_string-Took escaped [] = tt
scan_string-Took (digits read value) [] = tt
scan_string-Took plain (c ∷ cs) =
    let later = scan_string plain cs in
    let escape = scan_string escaped cs in
    Took-if (suc (length cs)) (c == b'"') (some ([], cs)) _ (omega arith) (
      Took-if (suc (length cs)) (c == b'\\') escape _
        (Took-suc (length cs) escape (scan_string-Took escaped cs))
        (Took-if (suc (length cs)) (ltb c 0x20) none (add_piece (byte c) later) tt
          (Took-piece (length cs) (byte c) later (scan_string-Took plain cs))))
scan_string-Took escaped (c ∷ cs) =
    let number = scan_string (digits 0 0) cs in
    Took-if (suc (length cs)) (c == b'u') number _
      (Took-suc (length cs) number (scan_string-Took (digits 0 0) cs))
      (escape-Took (escape_of c) cs (scan_string-Took plain cs))
scan_string-Took (digits read value) (c ∷ cs) =
    digits-Took (hex_value c) read value cs (scan_string-Took plain cs)
      (λ r v. scan_string-Took (digits r v) cs)

Took-whole : (n : ℕ) (ds : Bytes) (o : Option (Bytes × Bytes)) → Took n o → Took n (behind ds o)
Took-whole n ds none h = tt
Took-whole n ds (some (es, rest)) h = h

pub span_digits-le : (cs : Bytes) → length (span_digits cs).1 ≤ length cs
unfolding span_digits
span_digits-le [] = omega arith
span_digits-le (c ∷ cs) = ground (arith, span_digits-le cs)

pub some_digits-Took : (cs : Bytes) → Took (suc (length cs)) (some_digits cs)
unfolding some_digits
some_digits-Took cs = some_of (span_digits cs).0 (span_digits cs) (span_digits-le cs)
  where
    some_of :
        (ds : Bytes) (spanned : Bytes × Bytes)
        → length spanned.1 ≤ length cs
        → Took (suc (length cs)) (elim ds [ [] ↦ none | d ∷ ds ↦ some spanned ])
    some_of [] spanned h = tt
    some_of (d ∷ ds) (es, rest) h = omega (arith, h)

pub whole_part-Took : (cs : Bytes) → Took (length cs) (whole_part cs)
unfolding whole_part
whole_part-Took [] = tt
whole_part-Took (c ∷ cs) =
    Took-if (suc (length cs)) (c == b'0') (some (c ∷ [], cs)) _ (omega arith) (
      Took-if (suc (length cs)) (is_digit c) (some (c ∷ (span_digits cs).0, (span_digits cs).1))
        none (omega (arith, span_digits-le cs)) tt)

pub fraction-Took : (cs : Bytes) → Took (suc (length cs)) (fraction cs)
unfolding fraction
fraction-Took [] = omega arith
fraction-Took (c ∷ cs) =
    Took-if (suc (suc (length cs))) (c == b'.') (behind (c ∷ []) (some_digits cs))
      (some ([], c ∷ cs))
      (Took-suc (suc (length cs)) (behind (c ∷ []) (some_digits cs))
        (Took-whole (suc (length cs)) (c ∷ []) (some_digits cs) (some_digits-Took cs)))
      (omega arith)

pub signed_digits-Took : (cs : Bytes) → Took (suc (length cs)) (signed_digits cs)
unfolding signed_digits
signed_digits-Took [] = tt
signed_digits-Took (c ∷ cs) =
    Took-if (suc (suc (length cs))) (c == b'+' || c == b'-') (behind (c ∷ []) (some_digits cs))
      (some_digits (c ∷ cs))
      (Took-suc (suc (length cs)) (behind (c ∷ []) (some_digits cs))
        (Took-whole (suc (length cs)) (c ∷ []) (some_digits cs) (some_digits-Took cs)))
      (some_digits-Took (c ∷ cs))

pub exponent-Took : (cs : Bytes) → Took (suc (length cs)) (exponent cs)
unfolding exponent
exponent-Took [] = omega arith
exponent-Took (c ∷ cs) =
    Took-if (suc (suc (length cs))) (c == b'e' || c == b'E') (behind (c ∷ []) (signed_digits cs))
      (some ([], c ∷ cs))
      (Took-suc (suc (length cs)) (behind (c ∷ []) (signed_digits cs))
        (Took-whole (suc (length cs)) (c ∷ []) (signed_digits cs) (signed_digits-Took cs)))
      (omega arith)

pub then_scan-Took :
    (n : ℕ) (o : Option (Bytes × Bytes)) (scan : Bytes → Option (Bytes × Bytes))
    → Took n o
    → ((cs : Bytes) → Took (suc (length cs)) (scan cs))
    → Took n (then_scan o scan)
then_scan-Took n none scan h k = tt
then_scan-Took n (some (ds, rest)) scan h k =
    Took-whole n ds (scan rest) (within (scan rest) (k rest))
  where
    within : (o : Option (Bytes × Bytes)) → Took (suc (length rest)) o → Took n o
    within none j = tt
    within (some (es, last)) j = omega (arith, h, j)

pub unsigned-Took :
    (cs : Bytes) → Took (length cs) (then_scan (then_scan (whole_part cs) fraction) exponent)
unsigned-Took cs =
    then_scan-Took (length cs) (then_scan (whole_part cs) fraction) exponent
      (then_scan-Took (length cs) (whole_part cs) fraction (whole_part-Took cs) fraction-Took)
      exponent-Took

pub scan_number-Took : (cs : Bytes) → Took (length cs) (scan_number cs)
unfolding scan_number
scan_number-Took [] = tt
scan_number-Took (c ∷ cs) =
    let unsigned = λ (bs : Bytes). then_scan (then_scan (whole_part bs) fraction) exponent in
    Took-if (suc (length cs)) (c == b'-') (behind (c ∷ []) (unsigned cs)) (unsigned (c ∷ cs))
      (Took-suc (length cs) (behind (c ∷ []) (unsigned cs))
        (Took-whole (length cs) (c ∷ []) (unsigned cs) (unsigned-Took cs)))
      (unsigned-Took (c ∷ cs))
