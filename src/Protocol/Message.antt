-- ===== src/Protocol/Message.antt =====
-- Messages that are persisted: core/protocol/go/message.go.
use new_im.Common.{
  ℕ, zero, suc, ◌+◌, ◌-◌, ◌/◌, ◌%◌, Bool, true, false, not, ◌&&◌, ◌||◌, List, [], ◌∷◌, ◌++◌, Option,
  none, some, ◌==◌, ltb, leb, if◌then◌else◌, length, take, drop, Result, ok, ◌>>=◌, ◌>>◌, reject,
  or_fail,
}
use new_im.Bytes.{Bytes, eq_bytes}
use new_im.Bytes.Text.{text, decimal, hex_digit}
use new_im.Protocol.Json.Utf8.{valid_utf8}
use new_im.Protocol.Json.Decoder.{Fields, unmarshal_object, valid_json}
use new_im.Protocol.Types.{
  ErrorCode, invalid_json, invalid_message, unsupported_version, too_large, max_bytes, max_depth,
  max_text_bytes, Message,
}
use new_im.Protocol.Checks.{
  identifier, decimal_text, max_int64, field, object_fields, string_field, version_field,
}
use new_im.Protocol.Strict.{strict_json_limits}
use new_im.Protocol.Media.{validate_media_payload}

abbrev in_versions : ℕ → Bool
in_versions v = ltb 0 v && leb v 2147483647

unfoldable pub shape : Message → Bool
shape m =
    in_versions m.protocol_version
    && in_versions m.version
    && identifier m.client_msg_id 128 false
    && identifier m.server_msg_id 128 false
    && identifier m.conversation_id 128 false
    && identifier m.sender_id 128 false
    && identifier m.type 64 true
    && decimal_text m.conversation_seq max_int64
    && decimal_text m.server_time max_int64

-- The text of a payload of text: not empty, and not too long.
unfoldable pub validate_text_payload : Bytes → Result ErrorCode (Unit {0})
validate_text_payload raw = do
  fields ← object_fields raw
  content ← string_field fields (text "text")
  reject (length content == 0 || ltb max_text_bytes (length content)) invalid_message

unfoldable pub validate_known_payload : Bytes → ℕ → Bytes → Result ErrorCode (Unit {0})
validate_known_payload type version raw =
    if not (version == 1)
    then ok tt
    else if eq_bytes type (text "text")
    then validate_text_payload raw
    else if eq_bytes type (text "media")
    then validate_media_payload raw
    else ok tt

unfoldable pub read_message : Fields → Result ErrorCode Message
read_message fields = do
  client_msg_id ← string_field fields (text "clientMsgId")
  server_msg_id ← string_field fields (text "serverMsgId")
  conversation_id ← string_field fields (text "conversationId")
  conversation_seq ← string_field fields (text "conversationSeq")
  sender_id ← string_field fields (text "senderId")
  type ← string_field fields (text "type")
  server_time ← string_field fields (text "serverTime")
  protocol_version ← version_field fields (text "protocolVersion")
  version ← version_field fields (text "version")
  raw ← or_fail (field fields (text "payload")) invalid_message
  _ ← or_fail (unmarshal_object raw) invalid_message
  ok (record {
    protocol_version = protocol_version;
    version = version;
    client_msg_id = client_msg_id;
    server_msg_id = server_msg_id;
    conversation_id = conversation_id;
    conversation_seq = conversation_seq;
    sender_id = sender_id;
    type = type;
    server_time = server_time;
    payload = some raw;
  })

raw_payload : Option Bytes → Bytes
raw_payload none = []
raw_payload (some raw) = raw

unfoldable pub semantics_of : Message → Result ErrorCode (Unit {0})
unfolding raw_payload
semantics_of m = do
  reject (not (m.protocol_version == 1)) unsupported_version
  validate_known_payload m.type m.version (raw_payload m.payload)

unfoldable pub decode_message : Bytes → Bool → Result ErrorCode Message
decode_message wire semantics = do
  strict_json_limits wire max_bytes max_depth
  fields ← or_fail (unmarshal_object wire) invalid_message
  m ← read_message fields
  reject (not (shape m)) invalid_message
  if semantics then semantics_of m else ok tt
  ok m

abbrev pub decode : Bytes → Result ErrorCode Message
decode wire = decode_message wire true

escaped_byte : ℕ → Bytes
escaped_byte c =
    if c == b'"' || c == b'\\'
    then b'\\' ∷ c ∷ []
    else if c == 8
    then text "\\b"
    else if c == 12
    then text "\\f"
    else if c == 10
    then text "\\n"
    else if c == 13
    then text "\\r"
    else if c == 9
    then text "\\t"
    else if ltb c 32
    then text "\\u00" ++ (hex_digit (c / 16) ∷ hex_digit (c % 16) ∷ [])
    else c ∷ []

abbrev whole_rune : ℕ → Bytes → Bool
whole_rune n s = length (take n s) == n && valid_utf8 (take n s)

-- A longer character at the start of a string, as it is written: how many bytes, and which text.
long_rune : ℕ → Bytes → ℕ × Bytes
long_rune c s =
    if whole_rune 2 s
    then (2, take 2 s)
    else if eq_bytes (take 3 s) (0xE2 ∷ 0x80 ∷ 0xA8 ∷ [])
    then (3, text "\\u2028")
    else if eq_bytes (take 3 s) (0xE2 ∷ 0x80 ∷ 0xA9 ∷ [])
    then (3, text "\\u2029")
    else if whole_rune 3 s
    then (3, take 3 s)
    else if whole_rune 4 s
    then (4, take 4 s)
    else (1, text "\\ufffd")

escaped_from : ℕ → Bytes → Bytes
unfolding escaped_byte long_rune
escaped_from zero s = []
escaped_from (suc fuel) [] = []
escaped_from (suc fuel) (c ∷ cs) =
    let (size, written) = long_rune c (c ∷ cs) in
    let short = escaped_byte c ++ escaped_from fuel cs in
    let long = written ++ escaped_from fuel (drop size (c ∷ cs)) in
    if ltb c 0x80 then short else long

-- `json.Encoder` on a string, without HTML escapes. Each round takes a byte at least.
unfoldable pub encoder_string : Bytes → Bytes
unfolding escaped_from
encoder_string s = b'"' ∷ (escaped_from (length s) s ++ b'"' ∷ [])

unfoldable pub lower_bound : ℕ → ℕ → List ℕ → Result ErrorCode (Unit {0})
lower_bound limit total [] = ok tt
lower_bound limit total (n ∷ ns) = do
  reject (ltb (limit - total) n) too_large
  lower_bound limit (total + n) ns

payload_text : Option Bytes → Bytes
payload_text none = text "null"
payload_text (some raw) = raw

abbrev string_member : Bytes → Bytes → Bytes
string_member name value = text ",\"" ++ (name ++ (text "\":" ++ encoder_string value))

message_wire : Message → Bytes
unfolding payload_text
message_wire m =
    text "{\"protocolVersion\":"
    ++ (decimal m.protocol_version
        ++ (text ",\"version\":"
            ++ (decimal m.version
                ++ (string_member (text "clientMsgId") m.client_msg_id
                    ++ (string_member (text "serverMsgId") m.server_msg_id
                        ++ (string_member (text "conversationId") m.conversation_id
                            ++ (string_member (text "conversationSeq") m.conversation_seq
                                ++ (string_member (text "senderId") m.sender_id
                                    ++ (string_member (text "type") m.type
                                        ++ (string_member (text "serverTime") m.server_time
                                            ++ (text ",\"payload\":"
                                                ++ (payload_text m.payload ++ text "}"))))))))))))

-- A payload that is there is a JSON value.
unfoldable pub whole_payload : Option Bytes → Bool
whole_payload none = true
whole_payload (some raw) = valid_json raw

unfoldable pub encode : Message → Result ErrorCode Bytes
unfolding message_wire raw_payload
encode m = do
  lower_bound max_bytes 0 (
      length m.client_msg_id
      ∷ length m.server_msg_id
      ∷ length m.conversation_id
      ∷ length m.conversation_seq
      ∷ length m.sender_id
      ∷ length m.type
      ∷ length m.server_time
      ∷ length (raw_payload m.payload)
      ∷ [])
  _ ← decode (message_wire m)
  reject (not (whole_payload m.payload)) invalid_json
  ok (message_wire m)
