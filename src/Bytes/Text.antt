-- ===== src/Bytes/Text.antt =====
-- Text literals as bytes, strconv's decimal numbers, and encoding/json's quoted strings.
use Prim.Native.Char.{code}
use Prim.Native.String.{String}
use new_im.Common.{ℕ, zero, suc, ◌+◌, ◌/◌, ◌%◌, ◌||◌, [], ◌∷◌, ◌++◌, ◌==◌, ltb, if◌then◌else◌}
use new_im.Bytes.{Bytes}

-- The bytes of an ASCII literal.
abbrev pub text : String → Bytes
text String.[] = []
text (String.◌∷◌ c s) = code c ∷ text s

decimal_from : ℕ → ℕ → Bytes
decimal_from zero n = []
decimal_from (suc fuel) n =
    let more = decimal_from fuel (n / 10) in
    if ltb n 10 then (b'0' + n) ∷ [] else more ++ (b'0' + n % 10) ∷ []

-- `strconv.FormatUint(n, 10)`: a 64-bit number has 20 digits at most.
unfoldable pub decimal : ℕ → Bytes
unfolding decimal_from
decimal n = decimal_from 20 n

-- One of `0123456789abcdef`.
unfoldable pub hex_digit : ℕ → ℕ
hex_digit d = if ltb d 10 then b'0' + d else d + 87

-- One byte of a JSON string, HTML-safe as `json.Marshal` writes it. Bytes of longer characters pass.
json_escape : ℕ → Bytes
unfolding hex_digit
json_escape c =
    if c == b'"' || c == 92
    then 92 ∷ c ∷ []
    else if c == 8
    then text "\\b"
    else if c == 12
    then text "\\f"
    else if c == 10
    then text "\\n"
    else if c == 13
    then text "\\r"
    else if c == 9
    then text "\\t"
    else if ltb c 32 || c == b'<' || c == b'>' || c == b'&'
    then text "\\u00" ++ (hex_digit (c / 16) ∷ hex_digit (c % 16) ∷ [])
    else c ∷ []

json_escaped : Bytes → Bytes
unfolding json_escape
json_escaped [] = []
json_escaped (c ∷ cs) = json_escape c ++ json_escaped cs

unfoldable pub json_string : Bytes → Bytes
unfolding json_escaped
json_string s = b'"' ∷ (json_escaped s ++ b'"' ∷ [])
