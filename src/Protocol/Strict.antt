-- ===== src/Protocol/Strict.antt =====
-- JSON without ambiguity: `strictJSONLimits` of core/protocol/go/message.go. The fuel counts the
-- calls of `value` and the rounds of its loops; a fuel that ran out is an error of its own, which
-- stands for no result of the code.
use new_im.Common.{
  ℕ, zero, suc, ◌+◌, ◌*◌, Bool, true, false, not, ◌&&◌, ◌||◌, List, [], ◌∷◌, Option, none, some,
  ◌==◌, ltb, leb, if◌then◌else◌, length, Result, ok, err, ◌>>=◌, ◌>>◌, reject, or_fail,
}
use new_im.Bytes.{Bytes, eq_bytes}
use new_im.Protocol.Json.Utf8.{valid_utf8}
use new_im.Protocol.Json.Scan.{hex_value}
use new_im.Protocol.Json.Decoder.{
  Token, delim, string, number, Decoder, new_decoder, token, more, at_end, read_between,
}
use new_im.Protocol.Types.{ErrorCode, invalid_json, too_large, too_deep}

-- Where the loop of `pairedSurrogates` stands: outside of a string, inside, behind a backslash, in
-- the digits of a number, the first of a pair or its second, or between the two.
pub data PairState : Type 0 where
  outside inside escaped : PairState
  digits : (second : Bool) (read value : ℕ) → PairState
  pair_backslash pair_u : PairState

abbrev is_high : ℕ → Bool
is_high u = leb 0xD800 u && leb u 0xDBFF

abbrev is_low : ℕ → Bool
is_low u = leb 0xDC00 u && leb u 0xDFFF

-- Behind the fourth digit.
number_read : Bool → ℕ → Option PairState
number_read true u = if is_low u then some inside else none
number_read false u =
    if is_low u then none else if is_high u then some pair_backslash else some inside

pair_step : PairState → ℕ → Option PairState
unfolding number_read hex_value
pair_step outside c = some (if c == b'"' then inside else outside)
pair_step inside c = some (if c == b'"' then outside else if c == b'\\' then escaped else inside)
pair_step escaped c = some (if c == b'u' then digits false 0 0 else inside)
pair_step pair_backslash c = if c == b'\\' then some pair_u else none
pair_step pair_u c = if c == b'u' then some (digits true 0 0) else none
pair_step (digits second read value) c = elim (hex_value c) [
  | none ↦ none
  | some d ↦
      if read == 3
      then number_read second (value * 16 + d)
      else some (digits second (read + 1) (value * 16 + d))
]

pairs_from : PairState → Bytes → Bool
unfolding pair_step
pairs_from outside [] = true
pairs_from _ [] = false
pairs_from state (c ∷ cs) = elim (pair_step state c) [
  | none ↦ false
  | some next ↦ pairs_from next cs
]

unfoldable pub paired_surrogates : Bytes → Bool
unfolding pairs_from
paired_surrogates = pairs_from outside

-- An error of the code, or no fuel left.
pub data Stop : Type 0 where
  failed : ErrorCode → Stop
  out_of_fuel : Stop

was_seen : List Bytes → Bytes → Bool
was_seen [] name = false
was_seen (s ∷ ss) name = eq_bytes s name || was_seen ss name

-- The checks on a token that is a string or a number.
unfoldable pub bad_scalar : Token → Bytes → Bool
bad_scalar (string s) read = not (paired_surrogates read)
bad_scalar (number value) read = ltb 128 (length value)
bad_scalar _ read = false

-- The name of a member, if it is one and is new.
unfoldable pub member_name : List Bytes → Token → Bytes → Option Bytes
unfolding was_seen
member_name seen (string name) read =
    if was_seen seen name || not (paired_surrogates read) then none else some name
member_name seen _ read = none

unfoldable pub is_delim : ℕ → Token → Bool
is_delim c (delim e) = c == e
is_delim c _ = false

-- The bracket that ends a value.
unfoldable pub close : ℕ → Decoder → Result Stop Decoder
unfolding is_delim
close c d = do
  (t, e) ← or_fail (token d) (failed invalid_json)
  reject (not (is_delim c t)) (failed invalid_json)
  ok e

unfoldable mutual
  unfolding bad_scalar member_name

  pub value : ℕ → ℕ → ℕ → Decoder → Result Stop Decoder
  value zero max depth d = err out_of_fuel
  value (suc fuel) max depth d = do
    (t, e) ← or_fail (token d) (failed invalid_json)
    reject (bad_scalar t (read_between d e)) (failed invalid_json)
    compound fuel max depth t e

  -- Behind the first token of a value.
  pub compound : ℕ → ℕ → ℕ → Token → Decoder → Result Stop Decoder
  compound zero max depth t e = err out_of_fuel
  compound (suc fuel) max depth (delim c) e = do
    reject (not (c == b'{' || c == b'[')) (failed invalid_json)
    reject (ltb max (suc depth)) (failed too_deep)
    if c == b'{' then members fuel max (suc depth) [] e else elements fuel max (suc depth) e
  compound (suc fuel) max depth _ e = ok e

  pub members : ℕ → ℕ → ℕ → List Bytes → Decoder → Result Stop Decoder
  members zero max depth seen d = err out_of_fuel
  members (suc fuel) max depth seen d =
      let member : Result Stop Decoder = do
        (t, e) ← or_fail (token d) (failed invalid_json)
        name ← or_fail (member_name seen t (read_between d e)) (failed invalid_json)
        after ← value fuel max depth e
        members fuel max depth (name ∷ seen) after
      in if more d then member else close b'}' d

  pub elements : ℕ → ℕ → ℕ → Decoder → Result Stop Decoder
  elements zero max depth d = err out_of_fuel
  elements (suc fuel) max depth d =
      let element : Result Stop Decoder = do
        after ← value fuel max depth d
        elements fuel max depth after
      in if more d then element else close b']' d

-- Enough for every call and round.
abbrev pub fuel_for : Bytes → ℕ
fuel_for wire = 4 * length wire + 4

-- The scan of a whole input, with its fuel.
unfoldable pub scan_strict : Bytes → ℕ → ℕ → Result Stop (Unit {0})
unfolding value
scan_strict wire max_bytes max_depth = do
  reject (ltb max_bytes (length wire)) (failed too_large)
  reject (not (valid_utf8 wire)) (failed invalid_json)
  d ← value (fuel_for wire) max_depth 0 (new_decoder wire)
  reject (not (at_end d)) (failed invalid_json)

-- The fuel never runs out; the last clause is there to have a code.
unfoldable pub stop_code : Stop → ErrorCode
stop_code (failed code) = code
stop_code out_of_fuel = invalid_json

unfoldable pub coded : Result Stop (Unit {0}) → Result ErrorCode (Unit {0})
unfolding stop_code
coded (ok _) = ok tt
coded (err stop) = err (stop_code stop)

unfoldable pub strict_json_limits : Bytes → ℕ → ℕ → Result ErrorCode (Unit {0})
unfolding coded scan_strict
strict_json_limits wire max_bytes max_depth = coded (scan_strict wire max_bytes max_depth)
