-- ===== src/Protocol/Send.antt =====
-- Frames that are written: the second half of core/protocol/go/send.go.
use new_im.Common.{
  ℕ, ◌/◌, ◌%◌, not, ◌||◌, List, [], ◌∷◌, ◌++◌, Option, none, some, ◌==◌, ltb, if◌then◌else◌, length,
  Result, ok, err, ◌>>=◌, ◌>>◌, reject,
}
use new_im.Bytes.{Bytes}
use new_im.Bytes.Text.{text, decimal, hex_digit}
use new_im.Protocol.Types.{
  ErrorCode, invalid_json, invalid_message, max_send_bytes, max_result_bytes, Message, Send, Ack,
  SendError, ServerFrame,
}
use new_im.Protocol.Message.{lower_bound, whole_payload, encode}
use new_im.Protocol.Frame.{decode_send, decode_server_frame}

unfoldable pub wire_byte : ℕ → Bytes
unfolding hex_digit
wire_byte c =
    if c == b'"' || c == b'\\'
    then b'\\' ∷ c ∷ []
    else if c == 8
    then text "\\b"
    else if c == 12
    then text "\\f"
    else if c == 10
    then text "\\n"
    else if c == 13
    then text "\\r"
    else if c == 9
    then text "\\t"
    else if ltb c 32
    then text "\\u00" ++ (hex_digit (c / 16) ∷ hex_digit (c % 16) ∷ [])
    else c ∷ []

unfoldable pub wire_bytes : Bytes → Bytes
unfolding wire_byte
wire_bytes [] = []
wire_bytes (c ∷ cs) = wire_byte c ++ wire_bytes cs

unfoldable pub quoted_wire_string : Bytes → Bytes
unfolding wire_bytes
quoted_wire_string value = b'"' ∷ (wire_bytes value ++ b'"' ∷ [])

abbrev pub Pairs : Type 0
Pairs = List (Bytes × Bytes)

abbrev pub pair_text : Bytes × Bytes → Bytes
pair_text pair = quoted_wire_string pair.0 ++ b':' ∷ quoted_wire_string pair.1

unfoldable pub more_pairs : Pairs → Bytes
more_pairs [] = []
more_pairs (pair ∷ pairs) = b',' ∷ (pair_text pair ++ more_pairs pairs)

unfoldable pub pairs_text : Pairs → Bytes
pairs_text [] = []
pairs_text (pair ∷ pairs) = pair_text pair ++ more_pairs pairs

unfoldable pub string_object : Pairs → Bytes
string_object pairs = b'{' ∷ (pairs_text pairs ++ b'}' ∷ [])

unfoldable pub wrap : ℕ → Bytes → Bytes → Bytes
wrap version kind body =
    text "{\"protocolVersion\":"
    ++ (decimal version
        ++ (text ",\"kind\":\"" ++ (kind ++ (text "\",\"body\":" ++ (body ++ text "}")))))

payload_bytes : Option Bytes → Bytes
payload_bytes none = []
payload_bytes (some raw) = raw

payload_text : Option Bytes → Bytes
payload_text none = text "null"
payload_text (some raw) = raw

unfoldable pub send_wire : Send → Bytes
unfolding payload_text
send_wire s =
    let pairs : Pairs =
      (text "clientMsgId", s.client_msg_id)
      ∷ (text "conversationId", s.conversation_id)
      ∷ (text "type", s.type)
      ∷ [] in
    wrap s.protocol_version (text "send") (
      b'{'
      ∷ (pairs_text pairs
          ++ (text ",\"version\":"
              ++ (decimal s.version
                  ++ (text ",\"payload\":" ++ (payload_text s.payload ++ b'}' ∷ []))))))

unfoldable pub encode_send : Send → Result ErrorCode Bytes
unfolding payload_bytes
encode_send s = do
  lower_bound max_send_bytes 0 (
      length s.client_msg_id
      ∷ length s.conversation_id
      ∷ length s.type
      ∷ length (payload_bytes s.payload)
      ∷ [])
  reject (not (whole_payload s.payload)) invalid_json
  _ ← decode_send (send_wire s)
  ok (send_wire s)

unfoldable pub ack_pairs : Ack → Pairs
ack_pairs a =
    (text "status", text "SERVER_PERSISTED")
    ∷ (text "clientMsgId", a.client_msg_id)
    ∷ (text "conversationId", a.conversation_id)
    ∷ (text "senderId", a.sender_id)
    ∷ (text "serverMsgId", a.server_msg_id)
    ∷ (text "conversationSeq", a.conversation_seq)
    ∷ (text "serverTime", a.server_time)
    ∷ []

unfoldable pub error_pairs : SendError → Pairs
error_pairs v =
    (text "clientMsgId", v.client_msg_id)
    ∷ (text "conversationId", v.conversation_id)
    ∷ (text "code", v.code)
    ∷ []

unfoldable pub ack_wire : Ack → Result ErrorCode Bytes
ack_wire a = do
  lower_bound max_result_bytes 0 (
      length a.client_msg_id
      ∷ length a.conversation_id
      ∷ length a.sender_id
      ∷ length a.server_msg_id
      ∷ length a.conversation_seq
      ∷ length a.server_time
      ∷ [])
  ok (wrap 1 (text "send_ack") (string_object (ack_pairs a)))

unfoldable pub error_wire : SendError → Result ErrorCode Bytes
error_wire v = do
  lower_bound max_result_bytes 0
      (length v.client_msg_id ∷ length v.conversation_id ∷ length v.code ∷ [])
  ok (wrap 1 (text "send_error") (string_object (error_pairs v)))

unfoldable pub message_frame_wire : Message → Result ErrorCode Bytes
message_frame_wire m = do body ← encode m; ok (wrap 1 (text "message") body)

-- Exactly one of the three is there.
unfoldable pub frame_wire : Option Ack → Option SendError → Option Message → Result ErrorCode Bytes
unfolding message_frame_wire
frame_wire (some a) none none = ack_wire a
frame_wire none (some v) none = error_wire v
frame_wire none none (some m) = message_frame_wire m
frame_wire _ _ _ = err invalid_message

unfoldable pub encode_server_frame : ServerFrame → Result ErrorCode Bytes
unfolding frame_wire
encode_server_frame f = do
  wire ← frame_wire f.ack f.error f.message
  _ ← decode_server_frame wire
  ok wire
