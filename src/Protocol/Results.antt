-- ===== src/Protocol/Results.antt =====
-- Results that are correlated and compared: the end of core/protocol/go/intent.go.
use new_im.Common.{
  Bool, true, false, not, ◌&&◌, ◌||◌, Option, none, some, ◌==◌, Result, ok, err, ◌>>=◌, ◌>>◌,
  reject,
}
use new_im.Bytes.{Bytes, eq_bytes}
use new_im.Protocol.Types.{ErrorCode, invalid_message, Message, Send, Ack, SendError, ServerFrame}
use new_im.Protocol.Checks.{identifier}
use new_im.Protocol.Send.{encode_send, encode_server_frame}
use new_im.Protocol.Intent.{equal_payload}

-- `CorrelationMismatch` and `ResultConflict` stand beside the codes of the protocol.
pub data ResultError : Type 0 where
  protocol_error : ErrorCode → ResultError
  correlation_mismatch : ResultError
  result_conflict : ResultError

unfoldable pub checked {ℓ} : {A : Type ℓ} → Result ErrorCode A → Result ResultError A
checked (ok a) = ok a
checked (err code) = err (protocol_error code)

unfoldable pub ack_of_message : Message → Ack
ack_of_message m = record {
  client_msg_id = m.client_msg_id;
  conversation_id = m.conversation_id;
  sender_id = m.sender_id;
  server_msg_id = m.server_msg_id;
  conversation_seq = m.conversation_seq;
  server_time = m.server_time;
}

-- `resultAck`; none where the source would meet a nil message.
unfoldable pub result_ack : ServerFrame → Option Ack
unfolding ack_of_message
result_ack f = elim f.ack [
  | some a ↦ some a
  | none ↦ elim f.message [ none ↦ none | some m ↦ some (ack_of_message m) ]
]

unfoldable pub same_message : Send → Option Message → Bool
same_message request none = true
same_message request (some m) =
    request.protocol_version == m.protocol_version
    && request.version == m.version
    && eq_bytes request.type m.type
    && equal_payload request.payload m.payload

unfoldable pub answers_error : Send → SendError → Bool
answers_error request v =
    eq_bytes v.client_msg_id request.client_msg_id
    && eq_bytes v.conversation_id request.conversation_id

unfoldable pub answers_ack : Send → Bytes → Ack → Bool
answers_ack request sender a =
    eq_bytes a.client_msg_id request.client_msg_id
    && eq_bytes a.conversation_id request.conversation_id
    && eq_bytes a.sender_id sender

-- A frame that `EncodeServerFrame` accepts holds one of the three, so there is an acknowledgement
-- where there is no error.
unfoldable pub answers : Send → Bytes → ServerFrame → Option SendError → Bool
unfolding answers_error answers_ack same_message
answers request sender f (some v) = answers_error request v
answers request sender f none = elim (result_ack f) [
  | none ↦ false
  | some a ↦ answers_ack request sender a && same_message request f.message
]

unfoldable pub correlate : Send → Bytes → ServerFrame → Result ResultError (Unit {0})
unfolding answers
correlate request trusted_sender result = do
  _ ← checked (encode_send request)
  reject (not (identifier trusted_sender 128 false)) (protocol_error invalid_message)
  _ ← checked (encode_server_frame result)
  reject (not (answers request trusted_sender result result.error)) correlation_mismatch

unfoldable pub has_error : Option SendError → Bool
has_error none = false
has_error (some v) = true

unfoldable pub compare_acks : Option Ack → Option Ack → Result ResultError (Unit {0})
compare_acks (some a) (some b) = do
  reject
      (not (eq_bytes a.client_msg_id b.client_msg_id)
        || not (eq_bytes a.conversation_id b.conversation_id)
        || not (eq_bytes a.sender_id b.sender_id))
      correlation_mismatch
  reject
      (not (eq_bytes a.server_msg_id b.server_msg_id)
        || not (eq_bytes a.conversation_seq b.conversation_seq)
        || not (eq_bytes a.server_time b.server_time))
      result_conflict
compare_acks _ _ = err correlation_mismatch

unfoldable pub compare_results : ServerFrame → ServerFrame → Result ResultError (Unit {0})
unfolding has_error compare_acks
compare_results first second = do
  _ ← checked (encode_server_frame first)
  _ ← checked (encode_server_frame second)
  reject (has_error first.error || has_error second.error) (protocol_error invalid_message)
  compare_acks (result_ack first) (result_ack second)
