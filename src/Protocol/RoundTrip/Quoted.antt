-- ===== src/Protocol/RoundTrip/Quoted.antt =====
-- The tokens of a string that is written for the wire (core/protocol/go/send.go).
use new_im.Common.{◌≡◌, refl, ap, List, [], ◌∷◌, ◌++◌, append_assoc, none, some}
use new_im.Bytes.{Bytes}
use new_im.Protocol.Json.Utf8.{}
use new_im.Protocol.Json.Scan.{skip_space}
use new_im.Protocol.Json.Decoder.{
  string, TokenState, top, object_start, object_key, object_colon, object_value, object_comma,
  Decoder, separated, separated_at, token, token_at, string_token, scalar_token, moved, after_comma,
  after_colon, key_allowed, value_allowed, unmarshal_string, string_at, at_end,
}
use new_im.Protocol.Send.{wire_bytes, quoted_wire_string}
use new_im.Protocol.RoundTrip.Written.{scan_wire_bytes, unquoted-pieces_of}

-- A decoder over this input.
abbrev pub over : TokenState → List TokenState → Bytes → Decoder
over state stack rest = record { state = state; stack = stack; rest = rest }

string_token-quoted :
    (d : Decoder) (next : TokenState) (s rest : Bytes)
    → string_token d next (wire_bytes s ++ (b'"' ∷ rest)) ≡ some (string s, over next d.stack rest)
unfolding string_token
string_token-quoted d next s rest =
    rw (scan_wire_bytes s rest, string_token)
      (ap (λ bs. some (string bs, over next d.stack rest)) (unquoted-pieces_of s))

quoted-append :
    (s rest : Bytes) → quoted_wire_string s ++ rest ≡ b'"' ∷ (wire_bytes s ++ (b'"' ∷ rest))
unfolding quoted_wire_string
quoted-append s rest = ap (λ bs. b'"' ∷ bs) (append_assoc (wire_bytes s) (b'"' ∷ []) rest)

-- The first name of an object, a later one, and a value.
pub token-first_name :
    (stack : List TokenState) (s rest : Bytes)
    → token (over object_start stack (quoted_wire_string s ++ rest))
      ≡ some (string s, over object_colon stack rest)
unfolding token token_at separated separated_at skip_space key_allowed
token-first_name stack s rest = rw (quoted-append s rest) (
    string_token-quoted (over object_start stack (b'"' ∷ (wire_bytes s ++ (b'"' ∷ rest))))
      object_colon s rest)

pub token-later_name :
    (stack : List TokenState) (s rest : Bytes)
    → token (over object_comma stack (b',' ∷ (quoted_wire_string s ++ rest)))
      ≡ some (string s, over object_colon stack rest)
unfolding token token_at separated separated_at moved after_comma skip_space key_allowed
token-later_name stack s rest = rw (quoted-append s rest) (
    string_token-quoted (over object_key stack (b'"' ∷ (wire_bytes s ++ (b'"' ∷ rest))))
      object_colon s rest)

pub token-value :
    (stack : List TokenState) (s rest : Bytes)
    → token (over object_value stack (quoted_wire_string s ++ rest))
      ≡ some (string s, over object_comma stack rest)
unfolding token token_at scalar_token separated separated_at skip_space key_allowed value_allowed
token-value stack s rest = rw (quoted-append s rest) (
    string_token-quoted (over object_value stack (b'"' ∷ (wire_bytes s ++ (b'"' ∷ rest))))
      object_comma s rest)

pub token-after_colon :
    (stack : List TokenState) (s rest : Bytes)
    → token (over object_colon stack (b':' ∷ (quoted_wire_string s ++ rest)))
      ≡ some (string s, over object_comma stack rest)
unfolding token token_at scalar_token separated separated_at moved after_colon skip_space
    key_allowed value_allowed
token-after_colon stack s rest = rw (quoted-append s rest) (
    string_token-quoted (over object_value stack (b'"' ∷ (wire_bytes s ++ (b'"' ∷ rest))))
      object_comma s rest)

pub separated-value :
    (stack : List TokenState) (s rest : Bytes)
    → separated (over object_colon stack (b':' ∷ (quoted_wire_string s ++ rest)))
      ≡ some (over object_value stack (quoted_wire_string s ++ rest))
unfolding separated separated_at moved after_colon skip_space
separated-value stack s rest = rw (quoted-append s rest) refl

pub unmarshal_string-quoted : (s : Bytes) → unmarshal_string (quoted_wire_string s) ≡ some s
unfolding unmarshal_string token token_at scalar_token separated separated_at skip_space key_allowed
    value_allowed quoted_wire_string string_at at_end
unmarshal_string-quoted s =
    ap (λ o. elim o [ none ↦ none | some t ↦ string_at t ])
      (string_token-quoted (over top [] (b'"' ∷ (wire_bytes s ++ (b'"' ∷ [])))) top s [])

pub quoted-starts : (s rest : Bytes) → (tail : Bytes) × (quoted_wire_string s ++ rest ≡ b'"' ∷ tail)
quoted-starts s rest = (wire_bytes s ++ (b'"' ∷ rest), quoted-append s rest)
