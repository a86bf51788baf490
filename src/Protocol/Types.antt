-- ===== src/Protocol/Types.antt =====
-- The data of the protocol: core/protocol/go/message.go, send.go and media.go.
use new_im.Common.{ℕ, Bool, ◌&&◌, ◌||◌, Option, ◌==◌, if◌then◌else◌}
use new_im.Bytes.{Bytes, eq_bytes}
use new_im.Bytes.Text.{text}

-- `ErrorCode` and `SendCode`.
pub data ErrorCode : Type 0 where
  invalid_json : ErrorCode
  invalid_message : ErrorCode
  unsupported_version : ErrorCode
  too_large : ErrorCode
  too_deep : ErrorCode
  unsupported_frame : ErrorCode

abbrev pub max_bytes : ℕ
max_bytes = 65536

abbrev pub max_depth : ℕ
max_depth = 32

abbrev pub max_text_bytes : ℕ
max_text_bytes = 16384

abbrev pub max_frame_bytes : ℕ
max_frame_bytes = 66048

abbrev pub max_send_bytes : ℕ
max_send_bytes = 61440

abbrev pub max_result_bytes : ℕ
max_result_bytes = 4096

abbrev pub max_metadata_bytes : ℕ
max_metadata_bytes = 512

pub record Message : Type 0 where
  pub protocol_version : ℕ
  pub version : ℕ
  pub client_msg_id : Bytes
  pub server_msg_id : Bytes
  pub conversation_id : Bytes
  pub conversation_seq : Bytes
  pub sender_id : Bytes
  pub type : Bytes
  pub server_time : Bytes
  pub payload : Option Bytes

pub record Send : Type 0 where
  pub protocol_version : ℕ
  pub client_msg_id : Bytes
  pub conversation_id : Bytes
  pub version : ℕ
  pub type : Bytes
  pub payload : Option Bytes

pub record Ack : Type 0 where
  pub client_msg_id : Bytes
  pub conversation_id : Bytes
  pub sender_id : Bytes
  pub server_msg_id : Bytes
  pub conversation_seq : Bytes
  pub server_time : Bytes

pub record SendError : Type 0 where
  pub client_msg_id : Bytes
  pub conversation_id : Bytes
  pub code : Bytes

pub record ServerFrame : Type 0 where
  pub ack : Option Ack
  pub error : Option SendError
  pub message : Option Message

pub record MediaMetadata : Type 0 where
  pub media_key : Bytes
  pub kind : Bytes
  pub content_type : Bytes
  pub size : Bytes
  pub sha256 : Bytes

-- `Send.Supported`.
unfoldable pub send_supported : Send → Bool
send_supported s =
    s.protocol_version == 1
    && s.version == 1
    && (eq_bytes s.type (text "text") || eq_bytes s.type (text "media"))

-- `Message.Supported`.
unfoldable pub message_supported : Message → Bool
message_supported m =
    m.protocol_version == 1
    && m.version == 1
    && (eq_bytes m.type (text "text") || eq_bytes m.type (text "media"))

pub data RetryDisposition : Type 0 where
  retry_same_intent : RetryDisposition
  auth_recovery : RetryDisposition
  stop_automatic_retry : RetryDisposition

unfoldable pub disposition : Bytes → RetryDisposition
disposition code =
    if eq_bytes code (text "SERVER_TEMPORARY_UNAVAILABLE")
    then retry_same_intent
    else if eq_bytes code (text "AUTH_REQUIRED") || eq_bytes code (text "AUTH_TOKEN_EXPIRED")
    then auth_recovery
    else stop_automatic_retry
