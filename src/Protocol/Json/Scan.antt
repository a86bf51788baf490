-- ===== src/Protocol/Json/Scan.antt =====
-- encoding/json: how it scans a string, a number and a literal.
use new_im.Common.{
  ℕ, ◌+◌, ◌-◌, ◌*◌, Bool, ◌&&◌, ◌||◌, List, [], ◌∷◌, ◌++◌, Option, none, some, ◌==◌, ltb, leb,
  if◌then◌else◌,
}
use new_im.Bytes.{Bytes, is_digit}
use new_im.Protocol.Json.Utf8.{rune_bytes}

abbrev pub is_space : ℕ → Bool
is_space c = c == b' ' || c == b'\t' || c == b'\r' || c == b'\n'

unfoldable pub skip_space : Bytes → Bytes
skip_space [] = []
skip_space (c ∷ cs) = if is_space c then skip_space cs else c ∷ cs

-- The value of a hexadecimal digit, of either case.
unfoldable pub hex_value : ℕ → Option ℕ
hex_value c =
    if is_digit c
    then some (c - b'0')
    else if leb b'a' c && leb c b'f'
    then some (c - b'a' + 10)
    else if leb b'A' c && leb c b'F'
    then some (c - b'A' + 10)
    else none

-- A string's characters: a byte as it stands, or a number of four digits behind `\u`.
pub data Piece : Type 0 where
  byte : ℕ → Piece
  unit : ℕ → Piece

-- Where the scan of a string stands.
pub data StringState : Type 0 where
  plain : StringState
  escaped : StringState
  digits : (read value : ℕ) → StringState

-- The character that a backslash and this byte stand for.
unfoldable pub escape_of : ℕ → Option ℕ
escape_of c =
    if c == b'"' || c == b'\\' || c == b'/'
    then some c
    else if c == b'b'
    then some 8
    else if c == b'f'
    then some 12
    else if c == b'n'
    then some 10
    else if c == b'r'
    then some 13
    else if c == b't'
    then some 9
    else none

abbrev pub add_piece : Piece → Option (List Piece × Bytes) → Option (List Piece × Bytes)
add_piece p none = none
add_piece p (some (ps, rest)) = some (p ∷ ps, rest)

-- The pieces of a string behind its opening quote, and the input behind its closing quote.
unfoldable pub scan_string : StringState → Bytes → Option (List Piece × Bytes)
unfolding escape_of hex_value
scan_string state [] = none
scan_string plain (c ∷ cs) =
    let later = scan_string plain cs in
    let escape = scan_string escaped cs in
    if c == b'"'
    then some ([], cs)
    else if c == b'\\'
    then escape
    else if ltb c 0x20
    then none
    else add_piece (byte c) later
scan_string escaped (c ∷ cs) =
    let later = scan_string plain cs in
    let number = scan_string (digits 0 0) cs in
    if c == b'u'
    then number
    else elim (escape_of c) [ none ↦ none | some d ↦ add_piece (byte d) later ]
scan_string (digits read value) (c ∷ cs) = elim (hex_value c) [
  | none ↦ none
  | some d ↦
      if read == 3
      then add_piece (unit (value * 16 + d)) (scan_string plain cs)
      else scan_string (digits (read + 1) (value * 16 + d)) cs
]

abbrev pub is_high : ℕ → Bool
is_high u = leb 0xD800 u && leb u 0xDBFF

abbrev pub is_low : ℕ → Bool
is_low u = leb 0xDC00 u && leb u 0xDFFF

-- One number: a character, or U+FFFD for half of a pair.
unfoldable pub unit_bytes : ℕ → Bytes
unfolding rune_bytes
unit_bytes u = if is_high u || is_low u then rune_bytes 0xFFFD else rune_bytes u

-- The text of a string: two numbers that make a pair are one character.
unfoldable pub unquoted : List Piece → Bytes
unfolding unit_bytes rune_bytes
unquoted [] = []
unquoted (byte c ∷ ps) = c ∷ unquoted ps
unquoted (unit u ∷ []) = unit_bytes u
unquoted (unit u ∷ byte c ∷ ps) = unit_bytes u ++ c ∷ unquoted ps
unquoted (unit u ∷ unit v ∷ ps) =
    let paired = rune_bytes ((u - 0xD800) * 0x400 + (v - 0xDC00) + 0x10000) ++ unquoted ps in
    let alone = unit_bytes u ++ unquoted (unit v ∷ ps) in
    if is_high u && is_low v then paired else alone

-- The leading digits.
unfoldable pub span_digits : Bytes → Bytes × Bytes
span_digits [] = ([], [])
span_digits (c ∷ cs) =
    let (ds, rest) = span_digits cs in if is_digit c then (c ∷ ds, rest) else ([], c ∷ cs)

-- At least one digit.
unfoldable pub some_digits : Bytes → Option (Bytes × Bytes)
unfolding span_digits
some_digits cs = elim (span_digits cs).0 [ [] ↦ none | d ∷ ds ↦ some (span_digits cs) ]

unfoldable pub whole_part : Bytes → Option (Bytes × Bytes)
unfolding span_digits
whole_part [] = none
whole_part (c ∷ cs) =
    if c == b'0'
    then some (c ∷ [], cs)
    else if is_digit c
    then some (c ∷ (span_digits cs).0, (span_digits cs).1)
    else none

abbrev pub behind : Bytes → Option (Bytes × Bytes) → Option (Bytes × Bytes)
behind start none = none
behind start (some (ds, rest)) = some (start ++ ds, rest)

unfoldable pub fraction : Bytes → Option (Bytes × Bytes)
unfolding some_digits
fraction [] = some ([], [])
fraction (c ∷ cs) = if c == b'.' then behind (c ∷ []) (some_digits cs) else some ([], c ∷ cs)

unfoldable pub signed_digits : Bytes → Option (Bytes × Bytes)
unfolding some_digits
signed_digits [] = none
signed_digits (c ∷ cs) =
    if c == b'+' || c == b'-' then behind (c ∷ []) (some_digits cs) else some_digits (c ∷ cs)

unfoldable pub exponent : Bytes → Option (Bytes × Bytes)
unfolding signed_digits
exponent [] = some ([], [])
exponent (c ∷ cs) =
    if c == b'e' || c == b'E' then behind (c ∷ []) (signed_digits cs) else some ([], c ∷ cs)

abbrev pub then_scan :
    Option (Bytes × Bytes) → (Bytes → Option (Bytes × Bytes)) → Option (Bytes × Bytes)
then_scan none scan = none
then_scan (some (ds, rest)) scan = behind ds (scan rest)

unfoldable pub scan_number : Bytes → Option (Bytes × Bytes)
unfolding whole_part fraction exponent
scan_number [] = none
scan_number (c ∷ cs) =
    let unsigned = λ (bs : Bytes). then_scan (then_scan (whole_part bs) fraction) exponent in
    if c == b'-' then behind (c ∷ []) (unsigned cs) else unsigned (c ∷ cs)

-- The input behind a literal.
unfoldable pub scan_literal : Bytes → Bytes → Option Bytes
scan_literal [] cs = some cs
scan_literal (l ∷ ls) [] = none
scan_literal (l ∷ ls) (c ∷ cs) = if l == c then scan_literal ls cs else none
