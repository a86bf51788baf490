-- ===== src/Protocol/RoundTrip/Frames.antt =====
-- Results that are written are read back (core/protocol/go/send.go).
use new_im.Common.{
  ◌≡◌, ap, sym, ◌∙◌, not, ◌∷◌, Option, none, some, ◌==◌, arith, Result, ok, ◌>>=◌, ◌>>◌, reject,
  reject-eq-ok, >>=-eq-ok,
}
use new_im.Bytes.{Bytes, eq_bytes}
use new_im.Bytes.Text.{text}
use new_im.Protocol.Types.{ErrorCode, unsupported_version, Ack, SendError, ServerFrame}
use new_im.Protocol.Frame.{
  FrameParts, parse_frame, ack_shape, error_shape, body_shape, of_ack, of_error, frame_body,
  decode_server_frame,
}
use new_im.Protocol.Send.{
  string_object, wrap, ack_pairs, error_pairs, ack_wire, error_wire, frame_wire,
  encode_server_frame,
}
use new_im.Protocol.Message.{lower_bound}
use new_im.Protocol.RoundTrip.Objects.{raw_fields}
use new_im.Protocol.RoundTrip.Wrapped.{frame_text, wrap-ack, wrap-error}
use new_im.Protocol.RoundTrip.Parsed.{
  parts_of, parse_frame-parts_of, ack_shape-known, error_shape-known,
}

-- What the decoder does with the parts of a frame.
abbrev read_parts : FrameParts → Result ErrorCode ServerFrame
read_parts p = do body_shape p; reject (not (p.version == 1)) unsupported_version; frame_body p

read_parts-eq-ok :
    (p : FrameParts) (f : ServerFrame)
    → read_parts p ≡ ok f
    → (p.version ≡ 1) × (frame_body p ≡ ok f)
read_parts-eq-ok p f h =
    let (_, _, h1) = >>=-eq-ok (body_shape p) _ h in
    let (right, h2) = reject-eq-ok (not (p.version == 1)) unsupported_version (frame_body p) h1 in
    (ground arith, h2)

frame_body-ack :
    (a : Ack) (f : ServerFrame)
    → frame_body (parts_of (text "send_ack") (ack_pairs a)) ≡ ok f
    → f ≡ of_ack a
unfolding frame_body eq_bytes
frame_body-ack a f h =
    let (read, shaped, h1) = >>=-eq-ok (ack_shape (raw_fields (ack_pairs a))) _ h in
    let same = ap of_ack (ack_shape-known a read shaped) in cc

frame_body-error :
    (v : SendError) (f : ServerFrame)
    → frame_body (parts_of (text "send_error") (error_pairs v)) ≡ ok f
    → f ≡ of_error v
unfolding frame_body eq_bytes
frame_body-error v f h =
    let (read, shaped, h1) = >>=-eq-ok (error_shape (raw_fields (error_pairs v))) _ h in
    let same = ap of_error (error_shape-known v read shaped) in cc

decode-ack :
    (a : Ack) (f : ServerFrame)
    → decode_server_frame (wrap 1 (text "send_ack") (string_object (ack_pairs a))) ≡ ok f
    → f ≡ of_ack a
unfolding decode_server_frame ack_pairs
decode-ack a f h =
    let kind = text "send_ack" in
    let pairs = ack_pairs a in
    let h0 = sym (ap decode_server_frame (wrap-ack (string_object pairs))) ∙ h in
    let (p, parsed, h1) =
      >>=-eq-ok (parse_frame (b'{' ∷ frame_text kind (string_object pairs))) _ h0 in
    let (_, h2) = read_parts-eq-ok p f h1 in
    let same = parse_frame-parts_of kind _ _ p parsed in
    frame_body-ack a f (sym (ap frame_body same) ∙ h2)

decode-error :
    (v : SendError) (f : ServerFrame)
    → decode_server_frame (wrap 1 (text "send_error") (string_object (error_pairs v))) ≡ ok f
    → f ≡ of_error v
unfolding decode_server_frame error_pairs
decode-error v f h =
    let kind = text "send_error" in
    let pairs = error_pairs v in
    let h0 = sym (ap decode_server_frame (wrap-error (string_object pairs))) ∙ h in
    let (p, parsed, h1) =
      >>=-eq-ok (parse_frame (b'{' ∷ frame_text kind (string_object pairs))) _ h0 in
    let (_, h2) = read_parts-eq-ok p f h1 in
    let same = parse_frame-parts_of kind _ _ p parsed in
    frame_body-error v f (sym (ap frame_body same) ∙ h2)

frame_wire-decode :
    (a : Option Ack) (v : Option SendError) (wire : Bytes) (read : ServerFrame)
    → frame_wire a v none ≡ ok wire
    → decode_server_frame wire ≡ ok read
    → read ≡ record { ack = a; error = v; message = none }
unfolding frame_wire ack_wire error_wire
frame_wire-decode (some a) (some v) wire read h k = cc
frame_wire-decode none none wire read h k = cc
frame_wire-decode (some a) none wire read h k =
    let (_, _, h1) = >>=-eq-ok (lower_bound _ _ _) _ h in
    decode-ack a read (ap (λ r. r >>= decode_server_frame) h1 ∙ k)
frame_wire-decode none (some v) wire read h k =
    let (_, _, h1) = >>=-eq-ok (lower_bound _ _ _) _ h in
    decode-error v read (ap (λ r. r >>= decode_server_frame) h1 ∙ k)

-- An acknowledgement or a failure that EncodeServerFrame writes is read back by DecodeServerFrame
-- as the same frame, field by field. The condition is that the frame holds no message.
pub decode-encode_server_frame :
    (f : ServerFrame) (wire : Bytes)
    → f.message ≡ none
    → encode_server_frame f ≡ ok wire
    → decode_server_frame wire ≡ ok f
unfolding encode_server_frame
decode-encode_server_frame f wire no_message h =
    let (sent, written, h1) = >>=-eq-ok (frame_wire f.ack f.error f.message) _ h in
    let (read, checked, h2) = >>=-eq-ok (decode_server_frame sent) _ h1 in
    let written_so = sym (ap (frame_wire f.ack f.error) no_message) ∙ written in
    let same = frame_wire-decode f.ack f.error sent read written_so checked in
    ap (λ r. r >>= decode_server_frame) (sym h2)
    ∙ (checked
        ∙ ap ok same
        ∙ ap (λ m. ok (record { ack = f.ack; error = f.error; message = m })) (sym no_message))
