-- ===== src/Protocol/Frame.antt =====
-- Frames that are read: the first half of core/protocol/go/send.go.
use new_im.Common.{
  ℕ, ◌+◌, ◌-◌, Bool, true, false, not, ◌&&◌, ◌||◌, [], Option, none, some, ◌==◌, ltb, if◌then◌else◌,
  length, Result, ok, err, ◌>>=◌, ◌>>◌, reject,
}
use new_im.Bytes.{Bytes, eq_bytes}
use new_im.Bytes.Text.{text}
use new_im.Protocol.Json.Decoder.{Fields}
use new_im.Protocol.Types.{
  ErrorCode, invalid_message, unsupported_version, unsupported_frame, too_large, max_bytes,
  max_depth, max_frame_bytes, max_send_bytes, max_result_bytes, max_metadata_bytes, Message, Send,
  Ack, SendError, ServerFrame,
}
use new_im.Protocol.Checks.{
  identifier, decimal_text, max_int64, field, object_fields, string_field, version_field, forbidden,
  valid_code,
}
use new_im.Protocol.Strict.{strict_json_limits}
use new_im.Protocol.Message.{validate_known_payload, decode_message, decode}

pub record FrameParts : Type 0 where
  pub version : ℕ
  pub kind : Bytes
  pub raw : Bytes
  pub fields : Fields

or_empty : Option Bytes → Bytes
or_empty none = []
or_empty (some raw) = raw

abbrev is_kind : Bytes → Bytes → Bool
is_kind kind name = eq_bytes kind name

unfoldable pub body_limit : Bytes → ℕ
body_limit kind =
    if eq_bytes kind (text "send")
    then max_send_bytes
    else if eq_bytes kind (text "send_ack") || eq_bytes kind (text "send_error")
    then max_result_bytes
    else max_bytes

unfoldable pub parse_frame : Bytes → Result ErrorCode FrameParts
unfolding or_empty
parse_frame wire = do
  strict_json_limits wire max_frame_bytes (max_depth + 1)
  f ← object_fields wire
  version ← version_field f (text "protocolVersion")
  kind ← string_field f (text "kind")
  let raw = or_empty (field f (text "body"))
  fields ← object_fields raw
  reject (eq_bytes kind (text "send") && (forbidden f || forbidden fields)) invalid_message
  reject (ltb max_metadata_bytes (length wire - length raw) || ltb (body_limit kind) (length raw))
      too_large
  strict_json_limits raw (body_limit kind) max_depth
  ok (record { version = version; kind = kind; raw = raw; fields = fields })

unfoldable pub send_shape : FrameParts → Result ErrorCode Send
unfolding or_empty
send_shape p = do
  client_msg_id ← string_field p.fields (text "clientMsgId")
  conversation_id ← string_field p.fields (text "conversationId")
  version ← version_field p.fields (text "version")
  type ← string_field p.fields (text "type")
  reject
      (not (identifier client_msg_id 128 false)
        || not (identifier conversation_id 128 false)
        || not (identifier type 64 true))
      invalid_message
  let raw = or_empty (field p.fields (text "payload"))
  _ ← object_fields raw
  ok (record {
    protocol_version = p.version;
    client_msg_id = client_msg_id;
    conversation_id = conversation_id;
    version = version;
    type = type;
    payload = some raw;
  })

unfoldable pub bad_ack : Ack → Bool
bad_ack a =
    not (identifier a.client_msg_id 128 false)
    || not (identifier a.conversation_id 128 false)
    || not (identifier a.sender_id 128 false)
    || not (identifier a.server_msg_id 128 false)
    || not (decimal_text a.conversation_seq max_int64)
    || not (decimal_text a.server_time max_int64)

-- A missing field and a bad one give the same code, so the order of the fields says nothing.
unfoldable pub ack_shape : Fields → Result ErrorCode Ack
unfolding bad_ack
ack_shape f = do
  client_msg_id ← string_field f (text "clientMsgId")
  conversation_id ← string_field f (text "conversationId")
  sender_id ← string_field f (text "senderId")
  server_msg_id ← string_field f (text "serverMsgId")
  conversation_seq ← string_field f (text "conversationSeq")
  server_time ← string_field f (text "serverTime")
  status ← string_field f (text "status")
  reject (not (eq_bytes status (text "SERVER_PERSISTED"))) invalid_message
  let a : Ack = record {
    client_msg_id = client_msg_id;
    conversation_id = conversation_id;
    sender_id = sender_id;
    server_msg_id = server_msg_id;
    conversation_seq = conversation_seq;
    server_time = server_time;
  }
  reject (bad_ack a) invalid_message
  ok a

unfoldable pub error_shape : Fields → Result ErrorCode SendError
error_shape f = do
  client_msg_id ← string_field f (text "clientMsgId")
  conversation_id ← string_field f (text "conversationId")
  code ← string_field f (text "code")
  reject
      (not (identifier client_msg_id 128 false)
        || not (identifier conversation_id 128 false)
        || not (valid_code code))
      invalid_message
  ok (record { client_msg_id = client_msg_id; conversation_id = conversation_id; code = code })

-- The shape of the body of a frame of a kind that is known, whatever its version.
unfoldable pub body_shape : FrameParts → Result ErrorCode (Unit {0})
body_shape p =
    if eq_bytes p.kind (text "send")
    then (do _ ← send_shape p; ok tt)
    else if eq_bytes p.kind (text "send_ack")
    then (do _ ← ack_shape p.fields; ok tt)
    else if eq_bytes p.kind (text "send_error")
    then (do _ ← error_shape p.fields; ok tt)
    else if eq_bytes p.kind (text "message")
    then (do _ ← decode_message p.raw false; ok tt)
    else ok tt

unfoldable pub send_semantics : Send → Result ErrorCode (Unit {0})
unfolding or_empty
send_semantics s = validate_known_payload s.type s.version (or_empty s.payload)

unfoldable pub decode_send : Bytes → Result ErrorCode Send
decode_send wire = do
  p ← parse_frame wire
  body_shape p
  reject (not (p.version == 1)) unsupported_version
  reject (not (eq_bytes p.kind (text "send"))) unsupported_frame
  s ← send_shape p
  send_semantics s
  ok s

abbrev pub of_ack : Ack → ServerFrame
of_ack a = record { ack = some a; error = none; message = none }

abbrev pub of_error : SendError → ServerFrame
of_error e = record { ack = none; error = some e; message = none }

abbrev pub of_message : Message → ServerFrame
of_message m = record { ack = none; error = none; message = some m }

unfoldable pub frame_body : FrameParts → Result ErrorCode ServerFrame
frame_body p =
    if eq_bytes p.kind (text "send_ack")
    then (do a ← ack_shape p.fields; ok (of_ack a))
    else if eq_bytes p.kind (text "send_error")
    then (do e ← error_shape p.fields; ok (of_error e))
    else if eq_bytes p.kind (text "message")
    then (do m ← decode p.raw; ok (of_message m))
    else err unsupported_frame

unfoldable pub decode_server_frame : Bytes → Result ErrorCode ServerFrame
decode_server_frame wire = do
  p ← parse_frame wire
  body_shape p
  reject (not (p.version == 1)) unsupported_version
  frame_body p
