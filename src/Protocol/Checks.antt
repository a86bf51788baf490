-- ===== src/Protocol/Checks.antt =====
-- The checks on single fields: core/protocol/go/message.go and send.go.
use new_im.Common.{
  ℕ, ◌+◌, ◌-◌, ◌*◌, Bool, true, false, not, ◌&&◌, ◌||◌, [], ◌∷◌, Option, none, some, ◌==◌, ltb,
  if◌then◌else◌, length, Result, ok, ◌>>=◌, ◌>>◌, reject, or_fail,
}
use new_im.Bytes.{
  Bytes, eq_bytes, lt_bytes, every, is_digit, is_lower, is_upper, is_identifier_char, nonempty,
}
use new_im.Bytes.Text.{text}
use new_im.Protocol.Json.Decoder.{Fields, unmarshal_object, unmarshal_string}
use new_im.Protocol.Types.{ErrorCode, invalid_message}

-- A character of a message type, the first or a later one.
type_char : Bool → ℕ → Bool
type_char first c = is_lower c || (not first && (c == b'_' || is_digit c))

type_chars : Bytes → Bool
unfolding type_char every
type_chars [] = true
type_chars (c ∷ cs) = type_char true c && every (type_char false) cs

abbrev pub sized : ℕ → Bytes → Bool
sized limit s = not (length s == 0 || ltb limit (length s))

unfoldable pub identifier : Bytes → ℕ → Bool → Bool
unfolding type_chars
identifier s limit message_type =
    sized limit s && (if message_type then type_chars s else every is_identifier_char s)

leading_zero : Bytes → Bool
leading_zero [] = false
leading_zero (c ∷ cs) = c == b'0' && nonempty cs

unfoldable pub decimal_text : Bytes → Bytes → Bool
unfolding leading_zero
decimal_text s maximum =
    sized (length maximum) s
    && not (leading_zero s)
    && every is_digit s
    && (ltb (length s) (length maximum) || not (lt_bytes maximum s))

abbrev pub max_int64 : Bytes
max_int64 = text "9223372036854775807"

abbrev pub max_version : Bytes
max_version = text "2147483647"

-- The value of a key in the map that an object fills: the last one stands.
unfoldable pub field : Fields → Bytes → Option Bytes
field [] key = none
field ((name, raw) ∷ fs) key = elim (field fs key) [
  | none ↦ if eq_bytes name key then some raw else none
  | some later ↦ some later
]

unfoldable pub object_fields : Bytes → Result ErrorCode Fields
object_fields raw = or_fail (unmarshal_object raw) invalid_message

unfoldable pub string_field : Fields → Bytes → Result ErrorCode Bytes
string_field fields key = do
  raw ← or_fail (field fields key) invalid_message
  reject (eq_bytes raw (text "null")) invalid_message
  or_fail (unmarshal_string raw) invalid_message

-- A decimal number: `strconv.ParseUint`, of digits only.
unfoldable pub number_from : ℕ → Bytes → ℕ
number_from acc [] = acc
number_from acc (c ∷ cs) = number_from (acc * 10 + (c - b'0')) cs

or_empty : Option Bytes → Bytes
or_empty none = []
or_empty (some raw) = raw

unfoldable pub version_field : Fields → Bytes → Result ErrorCode ℕ
unfolding or_empty
version_field fields key = do
  let raw = or_empty (field fields key)
  reject (not (decimal_text raw max_version) || eq_bytes raw (text "0")) invalid_message
  ok (number_from 0 raw)

has_field : Fields → Bytes → Bool
has_field fields key = elim (field fields key) [ none ↦ false | some _ ↦ true ]

unfoldable pub forbidden : Fields → Bool
unfolding has_field
forbidden fields =
    has_field fields (text "senderId")
    || has_field fields (text "serverMsgId")
    || has_field fields (text "conversationSeq")
    || has_field fields (text "serverTime")
    || has_field fields (text "status")

code_char : ℕ → Bool
code_char c = is_upper c || is_digit c || c == b'_'

starts_upper : Bytes → Bool
starts_upper [] = false
starts_upper (c ∷ cs) = is_upper c

unfoldable pub valid_code : Bytes → Bool
unfolding code_char starts_upper
valid_code s = sized 64 s && starts_upper s && every code_char s
