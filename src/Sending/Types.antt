-- ===== src/Sending/Types.antt =====
-- server/message/types.go, and the codes of server/media that it reads.
use new_im.Common.{ℕ}
use new_im.Bytes.{Bytes}
use new_im.Bytes.Text.{text}
use new_im.Common.Int.{ℤ}
use new_im.Protocol.Types.{RetryDisposition, retry_same_intent, stop_automatic_retry}

-- `no_code` is the empty one.
pub data Code : Type 0 where
  no_code : Code
  invalid_input : Code
  unauthorized : Code
  conversation_missing : Code
  sequence_exhausted : Code
  id_conflict : Code
  lock_unavailable : Code
  storage_unavailable : Code
  unknown : Code

-- `Error`.
pub record SendFailure : Type 0 where
  pub code : Code
  pub disposition : RetryDisposition

-- An `error`: one of ours, or any other.
pub data Failure : Type 0 where
  known : SendFailure → Failure
  foreign : Failure

unfoldable pub disposition_for : Code → RetryDisposition
disposition_for lock_unavailable = retry_same_intent
disposition_for storage_unavailable = retry_same_intent
disposition_for _ = stop_automatic_retry

unfoldable pub fail : Code → SendFailure
fail code = record { code = code; disposition = disposition_for code }

unfoldable pub error_code : Failure → Code
error_code (known e) = e.code
error_code foreign = unknown

unfoldable pub retry_disposition : Failure → RetryDisposition
retry_disposition (known e) = e.disposition
retry_disposition foreign = stop_automatic_retry

unfoldable pub code_text : Code → Bytes
code_text no_code = text ""
code_text invalid_input = text "SEND_INVALID_INPUT"
code_text unauthorized = text "SEND_UNAUTHORIZED"
code_text conversation_missing = text "SEND_CONVERSATION_NOT_FOUND"
code_text sequence_exhausted = text "SEND_SEQUENCE_EXHAUSTED"
code_text id_conflict = text "SEND_ID_CONFLICT"
code_text lock_unavailable = text "SEND_LOCK_UNAVAILABLE"
code_text storage_unavailable = text "SEND_STORAGE_UNAVAILABLE"
code_text unknown = text "SEND_UNKNOWN"

-- The code that a client sees.
unfoldable pub protocol_code : Failure → Bytes
protocol_code failure = elim (retry_disposition failure) [
  | retry_same_intent ↦ text "SERVER_TEMPORARY_UNAVAILABLE"
  | _ ↦ code_text (error_code failure)
]

pub record Generated : Type 0 where
  pub server_msg_id : Bytes
  pub event_id : Bytes
  pub server_time : ℤ

pub record PersistedMessage : Type 0 where
  pub client_msg_id : Bytes
  pub conversation_id : Bytes
  pub sender_id : Bytes
  pub server_msg_id : Bytes
  pub conversation_seq : ℤ
  pub server_time : ℤ

-- The codes of server/media/types.go.
pub data MediaCode : Type 0 where
  media_invalid_input : MediaCode
  media_invalid_token : MediaCode
  media_not_found : MediaCode
  media_unauthorized : MediaCode
  media_expired : MediaCode
  media_conflict : MediaCode
  media_storage_unavailable : MediaCode
  media_grant_collision : MediaCode

pub data MediaFailure : Type 0 where
  media_coded : MediaCode → MediaFailure
  media_foreign : MediaFailure

unfoldable pub media_error_code : MediaFailure → MediaCode
media_error_code (media_coded code) = code
media_error_code media_foreign = media_storage_unavailable

-- `Metadata` of server/media/types.go.
pub record Metadata : Type 0 where
  pub media_key : Bytes
  pub kind : Bytes
  pub content_type : Bytes
  pub size : ℕ
  pub sha256 : Bytes
