-- ===== src/Sending/Service.antt =====
-- server/message/service.go, media_validation.go and id_generator.go. An instant of the clock is the
-- milliseconds of its Unix time, none for Go's zero time. The store is a function of the two
-- callbacks' answers: it asks for them inside its transaction.
use new_im.Common.{
  ℕ, suc, ◌+◌, ◌-◌, ◌*◌, Bool, not, ◌&&◌, ◌||◌, [], ◌∷◌, Option, none, some, ◌==◌, ltb, leb,
  if◌then◌else◌, length, Result, ok, err, ◌>>=◌, ◌>>◌, reject, or_fail,
}
use new_im.Common.Int.{ℤ, pos, negsuc, ltb_ℤ}
use new_im.Bytes.{Bytes, eq_bytes, every, is_identifier_char, is_hex_char}
use new_im.Bytes.Text.{text, decimal}
use new_im.AuthSession.Identity.{ConnectionIdentity}
use new_im.AuthSession.Token.{hex_encode}
use new_im.Protocol.Types.{ErrorCode, Send, Ack, ServerFrame, MediaMetadata}
use new_im.Protocol.Checks.{number_from}
use new_im.Protocol.Media.{
  decode_media_payload, valid_media_size, supported_media_kind, valid_media_content_type,
  max_media_size,
}
use new_im.Protocol.Send.{encode_send, encode_server_frame}
use new_im.Sending.Types.{
  Code, no_code, invalid_input, unauthorized, storage_unavailable, unknown, SendFailure, Failure,
  fail, error_code, retry_disposition, Generated, PersistedMessage, MediaCode, media_invalid_token,
  media_not_found, media_unauthorized, media_expired, media_conflict, media_storage_unavailable,
  MediaFailure, media_error_code, Metadata,
}

unfoldable pub valid_identifier : Bytes → Bool
valid_identifier value =
    not (length value == 0 || ltb 128 (length value)) && every is_identifier_char value

unfoldable pub valid_identity : ConnectionIdentity → Bool
valid_identity i =
    valid_identifier i.user_id
    && valid_identifier i.device_id
    && valid_identifier i.session_id
    && valid_identifier i.connection_id
    && length i.token_id == 32
    && every is_hex_char i.token_id

unfoldable pub redacted_error : Failure → SendFailure
redacted_error failure = record {
  code = elim (error_code failure) [ no_code ↦ unknown | code ↦ code ];
  disposition = retry_disposition failure;
}

unfoldable pub parse_media_size : Bytes → ℕ
parse_media_size value = if valid_media_size value then number_from 0 value else 0

-- server/media/types.go.
unfoldable pub hex_nibble : ℕ → ℕ
hex_nibble c = if leb b'0' c && leb c b'9' then c - b'0' else c - b'a' + 10

digest_of : Bytes → Bytes
unfolding hex_nibble
digest_of (high ∷ low ∷ rest) = (hex_nibble high * 16 + hex_nibble low) ∷ digest_of rest
digest_of _ = []

-- `ParseSHA256` of server/media/types.go: the 32 bytes of the digest.
unfoldable pub parse_sha256 : Bytes → Option Bytes
unfolding digest_of
parse_sha256 value =
    if length value == 64 && every is_hex_char value then some (digest_of value) else none

-- `ValidMetadata` of server/media/types.go.
unfoldable pub valid_metadata : Metadata → Bool
valid_metadata m =
    valid_identifier m.media_key
    && supported_media_kind m.kind
    && valid_media_content_type m.content_type
    && leb 1 m.size
    && leb m.size max_media_size

-- What a media failure is to the sender.
unfoldable pub media_refusal : MediaCode → Code
media_refusal media_storage_unavailable = storage_unavailable
media_refusal media_unauthorized = unauthorized
media_refusal media_not_found = unauthorized
media_refusal media_expired = unauthorized
media_refusal media_conflict = unauthorized
media_refusal media_invalid_token = unauthorized
media_refusal _ = invalid_input

-- `MediaValidator`.
abbrev pub MediaValidator : Type 0
MediaValidator = ConnectionIdentity → Bytes → Metadata → Result MediaFailure (Unit {0})

unfoldable pub metadata_of : MediaMetadata → Bytes → Metadata
metadata_of wire digest = record {
  media_key = wire.media_key;
  kind = wire.kind;
  content_type = wire.content_type;
  size = parse_media_size wire.size;
  sha256 = digest;
}

unfoldable pub as_invalid {ℓ} : {E : Type 0} {A : Type ℓ} → Result E A → Result SendFailure A
as_invalid (ok a) = ok a
as_invalid (err _) = err (fail invalid_input)

unfoldable pub refused_by_media : Result MediaFailure (Unit {0}) → Result SendFailure (Unit {0})
refused_by_media (ok _) = ok tt
refused_by_media (err failure) = err (fail (media_refusal (media_error_code failure)))

payload_bytes : Option Bytes → Bytes
payload_bytes none = []
payload_bytes (some raw) = raw

unfoldable pub check_media :
    MediaValidator → ConnectionIdentity → Send → Result SendFailure (Unit {0})
unfolding payload_bytes
check_media validator identity request = do
  wire ← as_invalid (decode_media_payload (payload_bytes request.payload))
  digest ← or_fail (parse_sha256 wire.sha256) (fail invalid_input)
  let metadata = metadata_of wire digest
  reject (not (valid_metadata metadata)) (fail invalid_input)
  refused_by_media (validator identity request.conversation_id metadata)

unfoldable pub validate_media :
    Option MediaValidator → ConnectionIdentity → Send → Result SendFailure (Unit {0})
validate_media validator identity request =
    if not (eq_bytes request.type (text "media")) || not (request.version == 1)
    then ok tt
    else elim validator [
      | none ↦ err (fail invalid_input)
      | some check ↦ check_media check identity request
    ]

-- What the service reads: the clock, and two new identifiers.
pub record Reads : Type 0 where
  pub now : Option ℤ
  pub first_id : Option Bytes
  pub second_id : Option Bytes

-- The callback that makes the server's identity of a message.
unfoldable pub generate : Reads → Result SendFailure Generated
generate reads = do
  server_time ← or_fail reads.now (fail invalid_input)
  reject (ltb_ℤ server_time (pos 0)) (fail invalid_input)
  server_msg_id ← or_fail reads.first_id (fail storage_unavailable)
  event_id ← or_fail reads.second_id (fail storage_unavailable)
  reject (not (valid_identifier server_msg_id) || not (valid_identifier event_id))
      (fail invalid_input)
  ok (record { server_msg_id = server_msg_id; event_id = event_id; server_time = server_time })

-- `NewID`, from what a read of 16 bytes of the entropy gives.
unfoldable pub new_id : Option Bytes → Option Bytes
new_id none = none
new_id (some raw) = some (hex_encode raw)

-- `Store.Persist` on a state of the storage.
abbrev pub Persist : Type 0 → Type 0
Persist S =
    Bytes
    → Send
    → Result SendFailure (Unit {0})
    → Result SendFailure Generated
    → S
    → Result Failure PersistedMessage × S

unfoldable pub redacted {ℓ} : {A : Type ℓ} → Result Failure A → Result SendFailure A
redacted (ok a) = ok a
redacted (err failure) = err (redacted_error failure)

-- `strconv.FormatInt` of a number that is not negative.
format_int : ℤ → Bytes
format_int (pos n) = decimal n
format_int (negsuc n) = b'-' ∷ decimal (suc n)

unfoldable pub ack_of : PersistedMessage → Ack
unfolding format_int
ack_of p = record {
  client_msg_id = p.client_msg_id;
  conversation_id = p.conversation_id;
  sender_id = p.sender_id;
  server_msg_id = p.server_msg_id;
  conversation_seq = format_int p.conversation_seq;
  server_time = format_int p.server_time;
}

abbrev pub ack_frame : Ack → ServerFrame
ack_frame a = record { ack = some a; error = none; message = none }

-- A frame that the encoder accepts.
unfoldable pub framed : Ack → Result ErrorCode Bytes → Result SendFailure ServerFrame
framed a (ok _) = ok (ack_frame a)
framed a (err _) = err (fail storage_unavailable)

unfoldable pub answer_of :
    ConnectionIdentity → Send → PersistedMessage → Result SendFailure ServerFrame
answer_of identity request p = do
  reject
      (not (eq_bytes p.client_msg_id request.client_msg_id)
        || not (eq_bytes p.conversation_id request.conversation_id)
        || not (eq_bytes p.sender_id identity.user_id)
        || ltb_ℤ p.conversation_seq (pos 0)
        || ltb_ℤ p.server_time (pos 0))
      (fail storage_unavailable)
  framed (ack_of p) (encode_server_frame (ack_frame (ack_of p)))

-- The checks that come before the store is asked.
unfoldable pub check_request : ConnectionIdentity → Send → Result SendFailure (Unit {0})
check_request identity request = do
  reject (not (valid_identity identity)) (fail invalid_input)
  _ ← as_invalid (encode_send request)
  ok tt

-- The request behind its checks: what is answered, and the storage afterwards.
unfoldable pub answered :
    {S : Type 0}
    → ConnectionIdentity
    → Send
    → Result Failure PersistedMessage × S
    → Result SendFailure ServerFrame × S
answered identity request (persisted, s) = (redacted persisted >>= answer_of identity request, s)

unfoldable pub send_checked :
    {S : Type 0}
    → Persist S
    → Option MediaValidator
    → Reads
    → ConnectionIdentity
    → Send
    → S
    → Result SendFailure (Unit {0})
    → Result SendFailure ServerFrame × S
send_checked persist validator reads identity request s (err failure) = (err failure, s)
send_checked persist validator reads identity request s (ok _) = answered identity request (
    persist identity.user_id request (validate_media validator identity request) (generate reads) s)

unfoldable pub send :
    {S : Type 0}
    → Persist S
    → Option MediaValidator
    → Reads
    → ConnectionIdentity
    → Send
    → S
    → Result SendFailure ServerFrame × S
send persist validator reads identity request s =
    send_checked persist validator reads identity request s (check_request identity request)
