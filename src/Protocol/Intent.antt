-- ===== src/Protocol/Intent.antt =====
-- Intents that are compared: core/protocol/go/intent.go.
use new_im.Common.{
  ℕ, zero, suc, ◌+◌, ◌*◌, Bool, true, false, not, ◌&&◌, [], ◌∷◌, Option, none, some, ◌==◌,
  if◌then◌else◌, length, Result, ok, ◌>>=◌,
}
use new_im.Bytes.{Bytes, eq_bytes}
use new_im.Protocol.Json.Decoder.{
  delim, string, number, literal, Decoder, new_decoder, token, more, separated,
}
use new_im.Protocol.Types.{ErrorCode, Send}
use new_im.Protocol.Numbers.{canonical_number}
use new_im.Protocol.Send.{encode_send}

-- What `Decode` into an `any` gives, with numbers as they are written.
mutual
  pub data Value : Type 0 where
    null : Value
    bool : Bool → Value
    text_value : Bytes → Value
    number_value : Bytes → Value
    array : Items → Value
    object : Entries → Value

  pub data Items : Type 0 where
    no_items : Items
    item : Value → Items → Items

  pub data Entries : Type 0 where
    no_entries : Entries
    entry : Bytes → Value → Entries → Entries

-- The first letter of a literal tells which it is.
literal_value : Option Decoder → Value
literal_value none = null
literal_value (some d) = elim d.rest [
  | [] ↦ null
  | c ∷ cs ↦ if c == b't' then bool true else if c == b'f' then bool false else null
]

-- Each call reads a token, and costs a unit of fuel.
unfoldable mutual
  unfolding literal_value

  pub read_value : ℕ → Decoder → Option (Value × Decoder)
  read_value zero d = none
  read_value (suc fuel) d = elim (token d) [
    | none ↦ none
    | some (string s, e) ↦ some (text_value s, e)
    | some (number digits, e) ↦ some (number_value digits, e)
    | some (literal, e) ↦ some (literal_value (separated d), e)
    | some (delim c, e) ↦
        if c == b'['
        then elim (read_items fuel e) [ none ↦ none | some (vs, f) ↦ some (array vs, f) ]
        else elim (read_entries fuel e) [ none ↦ none | some (vs, f) ↦ some (object vs, f) ]
  ]

  pub read_items : ℕ → Decoder → Option (Items × Decoder)
  read_items zero d = none
  read_items (suc fuel) d =
      let next : Option (Items × Decoder) = elim (read_value fuel d) [
        | none ↦ none
        | some (v, e) ↦ elim (read_items fuel e) [
          | none ↦ none
          | some (vs, f) ↦ some (item v vs, f)
        ]
      ] in
      let end : Option (Items × Decoder) = elim (token d) [
        | none ↦ none
        | some (_, e) ↦ some (no_items, e)
      ] in
      if more d then next else end

  pub read_entries : ℕ → Decoder → Option (Entries × Decoder)
  read_entries zero d = none
  read_entries (suc fuel) d =
      let next : Option (Entries × Decoder) = elim (token d) [
        | some (string key, e) ↦ elim (read_value fuel e) [
          | none ↦ none
          | some (v, f) ↦ elim (read_entries fuel f) [
            | none ↦ none
            | some (vs, g) ↦ some (entry key v vs, g)
          ]
        ]
        | _ ↦ none
      ] in
      let end : Option (Entries × Decoder) = elim (token d) [
        | none ↦ none
        | some (_, e) ↦ some (no_entries, e)
      ] in
      if more d then next else end

-- An error leaves the `any` nil. The payloads that are compared have passed `EncodeSend`.
unfoldable pub decoded : Bytes → Value
unfolding read_value
decoded raw = elim (read_value (4 * length raw + 4) (new_decoder raw)) [
  | none ↦ null
  | some (v, d) ↦ v
]

unfoldable pub entry_count : Entries → ℕ
entry_count no_entries = 0
entry_count (entry key v vs) = suc (entry_count vs)

unfoldable pub find_entry : Entries → Bytes → Option Value
find_entry no_entries key = none
find_entry (entry name v vs) key = if eq_bytes name key then some v else find_entry vs key

eq_bool : Bool → Bool → Bool
eq_bool true b = b
eq_bool false b = not b

unfoldable mutual
  unfolding eq_bool

  pub equal_value : Value → Value → Bool
  equal_value null null = true
  equal_value (bool a) (bool b) = eq_bool a b
  equal_value (text_value a) (text_value b) = eq_bytes a b
  equal_value (number_value a) (number_value b) = eq_bytes (canonical_number a) (canonical_number b)
  equal_value (array xs) (array ys) = equal_items xs ys
  equal_value (object xs) (object ys) = entry_count xs == entry_count ys && equal_entries xs ys
  equal_value _ _ = false

  pub equal_items : Items → Items → Bool
  equal_items no_items no_items = true
  equal_items (item a xs) (item b ys) = equal_value a b && equal_items xs ys
  equal_items _ _ = false

  -- Every entry has an equal one in the other object.
  pub equal_entries : Entries → Entries → Bool
  equal_entries no_entries ys = true
  equal_entries (entry key a xs) ys =
      elim (find_entry ys key) [ none ↦ false | some b ↦ equal_value a b ] && equal_entries xs ys

or_empty : Option Bytes → Bytes
or_empty none = []
or_empty (some raw) = raw

unfoldable pub equal_payload : Option Bytes → Option Bytes → Bool
unfolding decoded equal_value or_empty
equal_payload a b = equal_value (decoded (or_empty a)) (decoded (or_empty b))

unfoldable pub same_intent : Send → Send → Result ErrorCode Bool
same_intent a b = do
  _ ← encode_send a
  _ ← encode_send b
  ok (
      a.protocol_version == b.protocol_version
      && eq_bytes a.conversation_id b.conversation_id
      && a.version == b.version
      && eq_bytes a.type b.type
      && equal_payload a.payload b.payload)
