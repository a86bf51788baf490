-- ===== src/Protocol/RoundTrip/Parsed.antt =====
-- The parts of a frame that was written, and its body (core/protocol/go/send.go).
use new_im.Common.{
  ◌+◌, ◌-◌, ◌≡◌, refl, ap, sym, ◌∙◌, false, not, ◌||◌, ◌&&◌, ◌∷◌, some, ltb, length, Result, ok,
  ◌>>=◌, or_fail, reject-eq-ok, >>=-eq-ok,
}
use new_im.Bytes.{Bytes, eq_bytes, lt_bytes, every}
use new_im.Bytes.Text.{text}
use new_im.Protocol.Json.Decoder.{Fields, unmarshal_object}
use new_im.Protocol.Types.{
  invalid_message, too_large, max_frame_bytes, max_metadata_bytes, max_depth, Ack, SendError,
}
use new_im.Protocol.Checks.{
  field, object_fields, string_field, version_field, number_from, decimal_text, forbidden,
  identifier, valid_code,
}
use new_im.Protocol.Strict.{strict_json_limits}
use new_im.Protocol.Frame.{FrameParts, body_limit, parse_frame, bad_ack, ack_shape, error_shape}
use new_im.Protocol.Send.{quoted_wire_string, Pairs, string_object, ack_pairs, error_pairs}
use new_im.Protocol.RoundTrip.Quoted.{unmarshal_string-quoted}
use new_im.Protocol.RoundTrip.Objects.{raw_fields}
use new_im.Protocol.RoundTrip.Skipped.{unmarshal_object-string_object}
use new_im.Protocol.RoundTrip.Wrapped.{frame_text, frame_fields, unmarshal_object-frame}

-- A step whose result is known.
>>=-known {ℓ κ} :
    {E : Type 0} {A : Type ℓ} {B : Type κ} {m : Result E A} {a : A} {b : B}
    → (f : A → Result E B) → m ≡ ok a
    → (m >>= f) ≡ ok b
    → f a ≡ ok b
>>=-known f e h = sym (ap (λ r. r >>= f) e) ∙ h

quoted-not-null : (s : Bytes) → eq_bytes (quoted_wire_string s) (text "null") ≡ false
unfolding eq_bytes quoted_wire_string
quoted-not-null s = refl

string_field-quoted :
    (fields : Fields) (key s : Bytes)
    → field fields key ≡ some (quoted_wire_string s)
    → string_field fields key ≡ ok s
unfolding string_field
string_field-quoted fields key s h = rw (h, quoted-not-null s, unmarshal_string-quoted s) refl

object_fields-known :
    (raw : Bytes) (fields : Fields)
    → unmarshal_object raw ≡ some fields
    → object_fields raw ≡ ok fields
unfolding object_fields
object_fields-known raw fields h = ap (λ o. or_fail o invalid_message) h

-- The parts of a frame around an object of strings.
abbrev pub parts_of : Bytes → Pairs → FrameParts
parts_of kind pairs = record {
  version = 1;
  kind = kind;
  raw = string_object pairs;
  fields = raw_fields pairs;
}

version-one :
    (kind body : Bytes) → version_field (frame_fields kind body) (text "protocolVersion") ≡ ok 1
unfolding version_field field eq_bytes lt_bytes every decimal_text number_from
version-one kind body = refl

kind-known : (kind body : Bytes) → string_field (frame_fields kind body) (text "kind") ≡ ok kind
unfolding field eq_bytes
kind-known kind body = string_field-quoted (frame_fields kind body) (text "kind") kind refl

pub parse_frame-parts_of :
    (kind : Bytes) (p : Bytes × Bytes) (ps : Pairs) (parts : FrameParts)
    → parse_frame (b'{' ∷ frame_text kind (string_object (p ∷ ps))) ≡ ok parts
    → parts ≡ parts_of kind (p ∷ ps)
unfolding parse_frame field eq_bytes
parse_frame-parts_of kind p ps parts h =
    let body = string_object (p ∷ ps) in
    let wire = b'{' ∷ frame_text kind body in
    let (_, _, h1) = >>=-eq-ok (strict_json_limits wire max_frame_bytes (max_depth + 1)) _ h in
    let h2 =
      >>=-known _
        (object_fields-known wire (frame_fields kind body) (unmarshal_object-frame kind p ps)) h1 in
    let h3 = >>=-known _ (version-one kind body) h2 in
    let h4 = >>=-known _ (kind-known kind body) h3 in
    let h5 =
      >>=-known _
        (object_fields-known body (raw_fields (p ∷ ps)) (unmarshal_object-string_object p ps)) h4 in
    let (_, h6) =
      reject-eq-ok
        (eq_bytes kind (text "send")
          && (forbidden (frame_fields kind body) || forbidden (raw_fields (p ∷ ps))))
        invalid_message _ h5 in
    let (_, h7) =
      reject-eq-ok
        (ltb max_metadata_bytes (length wire - length body) || ltb (body_limit kind) (length body))
        too_large _ h6 in
    let (_, _, h8) = >>=-eq-ok (strict_json_limits body (body_limit kind) max_depth) _ h7 in
    sym (cc h8)

pub ack_shape-known : (a read : Ack) → ack_shape (raw_fields (ack_pairs a)) ≡ ok read → read ≡ a
unfolding ack_shape ack_pairs field eq_bytes
ack_shape-known a read h =
    let fields = raw_fields (ack_pairs a) in
    let h1 = >>=-known _ (string_field-quoted fields (text "clientMsgId") a.client_msg_id refl) h in
    let h2 =
      >>=-known _ (string_field-quoted fields (text "conversationId") a.conversation_id refl) h1 in
    let h3 = >>=-known _ (string_field-quoted fields (text "senderId") a.sender_id refl) h2 in
    let h4 =
      >>=-known _ (string_field-quoted fields (text "serverMsgId") a.server_msg_id refl) h3 in
    let h5 =
      >>=-known _ (string_field-quoted fields (text "conversationSeq") a.conversation_seq refl)
        h4 in
    let h6 = >>=-known _ (string_field-quoted fields (text "serverTime") a.server_time refl) h5 in
    let h7 =
      >>=-known _ (string_field-quoted fields (text "status") (text "SERVER_PERSISTED") refl) h6 in
    let (_, h8) = reject-eq-ok (bad_ack a) invalid_message (ok a) h7 in sym (cc h8)

pub error_shape-known :
    (v read : SendError) → error_shape (raw_fields (error_pairs v)) ≡ ok read → read ≡ v
unfolding error_shape error_pairs field eq_bytes
error_shape-known v read h =
    let fields = raw_fields (error_pairs v) in
    let h1 = >>=-known _ (string_field-quoted fields (text "clientMsgId") v.client_msg_id refl) h in
    let h2 =
      >>=-known _ (string_field-quoted fields (text "conversationId") v.conversation_id refl) h1 in
    let h3 = >>=-known _ (string_field-quoted fields (text "code") v.code refl) h2 in
    let (_, h4) =
      reject-eq-ok
        (not (identifier v.client_msg_id 128 false)
          || not (identifier v.conversation_id 128 false)
          || not (valid_code v.code))
        invalid_message (ok v) h3 in
    sym (cc h4)
