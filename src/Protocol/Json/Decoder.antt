-- ===== src/Protocol/Json/Decoder.antt =====
-- encoding/json: `Decoder.Token` and `More` with their states, and what `Unmarshal` and `Valid`
-- answer for the types that core/protocol/go reads.
use new_im.Common.{
  leb, ℕ, zero, suc, ◌-◌, Bool, true, false, not, ◌&&◌, ◌||◌, List, [], ◌∷◌, Option, none, some,
  ◌==◌, if◌then◌else◌, length, take,
}
use new_im.Bytes.{Bytes}
use new_im.Bytes.Text.{text}
use new_im.Protocol.Json.Scan.{skip_space, plain, scan_string, unquoted, scan_number, scan_literal}

pub data Token : Type 0 where
  delim : ℕ → Token
  string : Bytes → Token
  number : Bytes → Token
  literal : Token

pub data TokenState : Type 0 where
  top array_start array_value array_comma : TokenState
  object_start object_key object_colon object_value object_comma : TokenState

-- A decoder over the input that is left.
pub record Decoder : Type 0 where
  pub state : TokenState
  pub stack : List TokenState
  pub rest : Bytes

abbrev pub new_decoder : Bytes → Decoder
new_decoder wire = record { state = top; stack = []; rest = wire }

unfoldable pub value_allowed : TokenState → Bool
value_allowed top = true
value_allowed array_start = true
value_allowed array_value = true
value_allowed object_value = true
value_allowed _ = false

abbrev pub value_end : TokenState → TokenState
value_end array_start = array_comma
value_end array_value = array_comma
value_end object_value = object_comma
value_end state = state

unfoldable pub key_allowed : TokenState → Bool
key_allowed object_start = true
key_allowed object_key = true
key_allowed _ = false

-- The state behind a comma or a colon that may stand here.
unfoldable pub after_comma : TokenState → Option TokenState
after_comma array_comma = some array_value
after_comma object_comma = some object_key
after_comma _ = none

unfoldable pub after_colon : TokenState → Option TokenState
after_colon object_colon = some object_value
after_colon _ = none

unfoldable pub moved : Option TokenState → List TokenState → Bytes → Option Decoder
moved none stack rest = none
moved (some state) stack rest =
    some (record { state = state; stack = stack; rest = skip_space rest })

unfoldable pub separated_at : Bytes → Decoder → Option Decoder
unfolding moved after_comma after_colon
separated_at [] d = some (record d { rest = [] })
separated_at (c ∷ cs) d =
    if c == b','
    then moved (after_comma d.state) d.stack cs
    else if c == b':'
    then moved (after_colon d.state) d.stack cs
    else some (record d { rest = c ∷ cs })

-- Behind the space, and the comma or colon that separates what comes from what came.
unfoldable pub separated : Decoder → Option Decoder
unfolding separated_at skip_space
separated d = separated_at (skip_space d.rest) d

-- A closing bracket: back to the state of the value around.
unfoldable pub closed : ℕ → List TokenState → Bytes → Option (Token × Decoder)
closed c [] rest = none
closed c (outer ∷ stack) rest =
    some (delim c, record { state = value_end outer; stack = stack; rest = rest })

unfoldable pub opened : Decoder → ℕ → TokenState → Bytes → Option (Token × Decoder)
opened d c state rest =
    some (delim c, record { state = state; stack = d.state ∷ d.stack; rest = rest })

unfoldable pub can_close : Bool → TokenState → Bool
can_close true array_start = true
can_close true array_comma = true
can_close false object_start = true
can_close false object_comma = true
can_close _ _ = false

unfoldable pub string_token : Decoder → TokenState → Bytes → Option (Token × Decoder)
string_token d next cs = elim (scan_string plain cs) [
  | none ↦ none
  | some (pieces, rest) ↦
      some (string (unquoted pieces), record { state = next; stack = d.stack; rest = rest })
]

unfoldable pub literal_token : Decoder → Option Bytes → Option (Token × Decoder)
literal_token d none = none
literal_token d (some rest) =
    some (literal, record { state = value_end d.state; stack = d.stack; rest = rest })

unfoldable pub number_token : Decoder → Option (Bytes × Bytes) → Option (Token × Decoder)
number_token d none = none
number_token d (some (digits, rest)) =
    some (number digits, record { state = value_end d.state; stack = d.stack; rest = rest })

-- A value that is no object and no array.
unfoldable pub scalar_token : Decoder → Bytes → Option (Token × Decoder)
unfolding scan_literal scan_number string_token literal_token number_token
scalar_token d [] = none
scalar_token d (c ∷ cs) =
    if c == b'"'
    then string_token d (value_end d.state) cs
    else if c == b't'
    then literal_token d (scan_literal (text "rue") cs)
    else if c == b'f'
    then literal_token d (scan_literal (text "alse") cs)
    else if c == b'n'
    then literal_token d (scan_literal (text "ull") cs)
    else number_token d (scan_number (c ∷ cs))

unfoldable pub token_at : Decoder → Bytes → Option (Token × Decoder)
unfolding value_allowed key_allowed can_close closed opened string_token scalar_token
token_at d [] = none
token_at d (c ∷ cs) =
    if c == b'['
    then (if value_allowed d.state then opened d c array_start cs else none)
    else if c == b'{'
    then (if value_allowed d.state then opened d c object_start cs else none)
    else if c == b']'
    then (if can_close true d.state then closed c d.stack cs else none)
    else if c == b'}'
    then (if can_close false d.state then closed c d.stack cs else none)
    else if c == b'"' && key_allowed d.state
    then string_token d object_colon cs
    else if value_allowed d.state
    then scalar_token d (c ∷ cs)
    else none

-- `Decoder.Token`; none for an error or the end of the input.
unfoldable pub token : Decoder → Option (Token × Decoder)
unfolding token_at separated
token d = elim (separated d) [ none ↦ none | some e ↦ token_at e e.rest ]

unfoldable pub more_at : Bytes → Bool
more_at [] = false
more_at (c ∷ cs) = not (c == b']' || c == b'}')

-- `Decoder.More`.
unfoldable pub more : Decoder → Bool
unfolding more_at
more d = more_at (skip_space d.rest)

abbrev pub empty : Bytes → Bool
empty [] = true
empty (c ∷ cs) = false

-- The next call of `Token` finds the end of the input.
unfoldable pub at_end : Decoder → Bool
unfolding skip_space
at_end d = empty (skip_space d.rest)

-- What was read between two states of a decoder.
unfoldable pub read_between : Decoder → Decoder → Bytes
read_between before after = take (length before.rest - length after.rest) before.rest

unfoldable pub depth_after : Token → ℕ → ℕ
depth_after (delim c) depth = if c == b'{' || c == b'[' then suc depth else depth - 1
depth_after _ depth = depth

-- Behind a whole value, token by token; none if it is not well formed.
unfoldable pub skip_value : ℕ → ℕ → Decoder → Option Decoder
unfolding depth_after token
skip_value zero depth d = none
skip_value (suc fuel) depth d = elim (token d) [
  | none ↦ none
  | some (t, e) ↦ elim (depth_after t depth) [
    | zero ↦ some e
    | suc left ↦ skip_value fuel (suc left) e
  ]
]

abbrev pub skip_one : Decoder → Option Decoder
skip_one d = skip_value (suc (length d.rest)) 0 d

-- Whether no more than 10000 values of the text are open at once, where its scanner gives up.
nested_within : ℕ → ℕ → Decoder → Bool
unfolding depth_after token
nested_within zero depth d = true
nested_within (suc fuel) depth d = elim (token d) [
  | none ↦ true
  | some (t, e) ↦ elim (depth_after t depth) [
    | zero ↦ true
    | suc left ↦ leb (suc left) 10000 && nested_within fuel (suc left) e
  ]
]

-- `json.Valid`.
unfoldable pub valid_json : Bytes → Bool
unfolding at_end skip_value nested_within
valid_json raw =
    let start = new_decoder raw in
    elim (skip_one start) [
      | none ↦ false
      | some d ↦ at_end d && nested_within (suc (length raw)) 0 start
    ]

abbrev pub Fields : Type 0
Fields = List (Bytes × Bytes)

abbrev pub with_field : Bytes × Bytes → Option (Fields × Decoder) → Option (Fields × Decoder)
with_field f none = none
with_field f (some (fs, d)) = some (f ∷ fs, d)

-- The members of an object with their raw values, up to its closing bracket.
unfoldable pub members : ℕ → Decoder → Option (Fields × Decoder)
unfolding token more separated skip_value read_between
members zero d = none
members (suc fuel) d =
    let member : Option (Fields × Decoder) = elim (token d) [
      | none ↦ none
      | some (string key, e) ↦ elim (separated e) [
        | none ↦ none
        | some v ↦ elim (skip_one v) [
          | none ↦ none
          | some after ↦ with_field (key, read_between v after) (members fuel after)
        ]
      ]
      | some (_, e) ↦ none
    ] in
    if more d then member else some ([], d)

unfoldable pub object_at : Token × Decoder → Option Fields
unfolding members token at_end
object_at (delim c, d) =
    if c == b'{'
    then elim (members (suc (length d.rest)) d) [
      | none ↦ none
      | some (fields, e) ↦ elim (token e) [
        | none ↦ none
        | some (_, after) ↦ if at_end after then some fields else none
      ]
    ]
    else none
object_at (_, d) = none

-- `json.Unmarshal` into a `map[string]json.RawMessage`; none for an error and for `null`.
unfoldable pub unmarshal_object : Bytes → Option Fields
unfolding object_at token
unmarshal_object raw = elim (token (new_decoder raw)) [ none ↦ none | some t ↦ object_at t ]

unfoldable pub string_at : Token × Decoder → Option Bytes
unfolding at_end
string_at (string s, d) = if at_end d then some s else none
string_at (_, d) = none

-- `json.Unmarshal` into a `string`, of something other than `null`.
unfoldable pub unmarshal_string : Bytes → Option Bytes
unfolding string_at token
unmarshal_string raw = elim (token (new_decoder raw)) [ none ↦ none | some t ↦ string_at t ]
