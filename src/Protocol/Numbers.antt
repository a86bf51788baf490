-- ===== src/Protocol/Numbers.antt =====
-- JSON numbers that are compared by their value: `canonicalNumber` of core/protocol/go/intent.go.
use new_im.Common.{
  ℕ, suc, ◌+◌, ◌-◌, ◌/◌, ◌%◌, Bool, true, false, not, ◌&&◌, ◌||◌, [], ◌∷◌, ◌++◌, ◌==◌, ltb,
  if◌then◌else◌, length,
}
use new_im.Common.Int.{ℤ, pos, negsuc, difference}
use mathlib.Core.List.{reverse}
use new_im.Bytes.{Bytes, lt_bytes}
use new_im.Bytes.Text.{decimal}

-- `strings.TrimLeft` by the characters that the test accepts.
unfoldable pub trim_left : (ℕ → Bool) → Bytes → Bytes
trim_left test [] = []
trim_left test (c ∷ cs) = if test c then trim_left test cs else c ∷ cs

abbrev pub trim_right : (ℕ → Bool) → Bytes → Bytes
trim_right test s = reverse (trim_left test (reverse s))

abbrev pub is_zero : ℕ → Bool
is_zero c = c == b'0'

abbrev pub is_sign : ℕ → Bool
is_sign c = c == b'+' || c == b'-'

abbrev pub is_minus : Bytes → Bool
is_minus [] = false
is_minus (c ∷ cs) = c == b'-'

abbrev or_zero : Bool → Bytes → Bool × Bytes
or_zero negative [] = (false, b'0' ∷ [])
or_zero negative (c ∷ cs) = (negative, c ∷ cs)

-- The sign and the magnitude of a decimal number.
unfoldable pub signed : Bytes → Bool × Bytes
unfolding trim_left
signed s = or_zero (is_minus s) (trim_left is_zero (trim_left is_sign s))

-- `int(c - '0')` of a byte, which wraps around.
abbrev pub digit_of : ℕ → ℕ
digit_of c = (c + 208) % 256

-- The loop of `addMagnitude`, from the last digit on.
unfoldable pub add_reversed : ℕ → Bytes → Bytes → Bytes
add_reversed carry [] [] = if carry == 0 then [] else (b'0' + carry) ∷ []
add_reversed carry (a ∷ xs) [] =
    let v = carry + digit_of a in (b'0' + v % 10) ∷ add_reversed (v / 10) xs []
add_reversed carry [] (b ∷ ys) =
    let v = carry + digit_of b in (b'0' + v % 10) ∷ add_reversed (v / 10) [] ys
add_reversed carry (a ∷ xs) (b ∷ ys) =
    let v = carry + digit_of a + digit_of b in (b'0' + v % 10) ∷ add_reversed (v / 10) xs ys

unfoldable pub add_magnitude : Bytes → Bytes → Bytes
unfolding add_reversed
add_magnitude a b = reverse (add_reversed 0 (reverse a) (reverse b))

-- One digit less what is taken from it: the byte that is left, which wraps around, and the new
-- borrow.
unfoldable pub take_digit : ℕ → ℕ → ℕ × ℕ
take_digit digit taken =
    if ltb digit taken
    then ((b'0' + (digit + 266 - taken)) % 256, 1)
    else ((b'0' + (digit - taken)) % 256, 0)

-- The loop of `subtractMagnitude`, from the last digit on.
unfoldable pub subtract_reversed : ℕ → Bytes → Bytes → Bytes
unfolding take_digit
subtract_reversed borrow [] ys = []
subtract_reversed borrow (a ∷ xs) [] =
    let (digit, next) = take_digit (digit_of a) borrow in digit ∷ subtract_reversed next xs []
subtract_reversed borrow (a ∷ xs) (b ∷ ys) =
    let (digit, next) = take_digit (digit_of a) (borrow + digit_of b) in
    digit ∷ subtract_reversed next xs ys

abbrev pub zero_if_empty : Bytes → Bytes
zero_if_empty [] = b'0' ∷ []
zero_if_empty (c ∷ cs) = c ∷ cs

unfoldable pub subtract_magnitude : Bytes → Bytes → Bytes
unfolding subtract_reversed trim_left
subtract_magnitude a b =
    zero_if_empty (trim_left is_zero (reverse (subtract_reversed 0 (reverse a) (reverse b))))

-- `strconv.Itoa`.
unfoldable pub itoa : ℤ → Bytes
itoa (pos n) = decimal n
itoa (negsuc n) = b'-' ∷ decimal (suc n)

-- Not less, for magnitudes without leading zeros.
unfoldable pub at_least : Bytes → Bytes → Bool
at_least a b = ltb (length b) (length a) || (length a == length b && not (lt_bytes a b))

abbrev is_zero_text : Bytes → Bool
is_zero_text (c ∷ []) = c == b'0'
is_zero_text _ = false

abbrev with_sign : Bool → Bytes → Bytes
with_sign negative v = if negative && not (is_zero_text v) then b'-' ∷ v else v

abbrev same_sign : Bool → Bool → Bool
same_sign true b = b
same_sign false b = not b

unfoldable pub add_signed : Bool × Bytes → Bool × Bytes → Bytes
unfolding add_magnitude subtract_magnitude at_least
add_signed (an, av) (bn, bv) =
    if same_sign an bn
    then with_sign an (add_magnitude av bv)
    else if at_least av bv
    then with_sign an (subtract_magnitude av bv)
    else with_sign bn (subtract_magnitude bv av)

unfoldable pub add_exponent : Bytes → ℤ → Bytes
unfolding add_signed signed itoa
add_exponent a delta = add_signed (signed a) (signed (itoa delta))

-- The parts before and behind the first character that the test accepts; the second is empty, and
-- the flag false, where there is none.
unfoldable pub cut : (ℕ → Bool) → Bytes → Bool × Bytes × Bytes
cut test [] = (false, [], [])
cut test (c ∷ cs) =
    let (found, before, behind) = cut test cs in
    if test c then (true, [], cs) else (found, c ∷ before, behind)

abbrev is_exponent : ℕ → Bool
is_exponent c = c == b'e' || c == b'E'

abbrev is_point : ℕ → Bool
is_point c = c == b'.'

abbrev drop_minus : Bytes → Bytes
drop_minus [] = []
drop_minus (c ∷ cs) = if c == b'-' then cs else c ∷ cs

-- Digits without leading zeros, with the exponent of the last of them.
canonical_digits : Bool → Bytes → ℕ → Bytes → Bytes
unfolding add_exponent
canonical_digits negative [] fraction exponent = b'0' ∷ []
canonical_digits negative (c ∷ cs) fraction exponent =
    let coefficient = trim_right is_zero (c ∷ cs) in
    let moved =
      add_exponent exponent (difference (length (c ∷ cs)) (length coefficient + fraction)) in
    (if negative then b'-' ∷ [] else []) ++ (coefficient ++ b'e' ∷ moved)

unfoldable pub canonical_number : Bytes → Bytes
unfolding canonical_digits cut trim_left
canonical_number token =
    let (has_exponent, mantissa, written) = cut is_exponent (drop_minus token) in
    let (has_point, whole, fraction) = cut is_point mantissa in
    canonical_digits (is_minus token) (trim_left is_zero (whole ++ fraction)) (length fraction)
      (if has_exponent then written else b'0' ∷ [])
