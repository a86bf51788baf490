-- ===== src/Tests/Frames.antt =====
-- Frames of the wire protocol that are written and read.
use new_im.Common.{◌≡◌, ◌≢◌, refl, err, some, none, ok, Result}
use new_im.Bytes.{Bytes, eq_bytes, lt_bytes, every, is_identifier_char}
use new_im.Bytes.Text.{text, decimal}
use new_im.Protocol.Json.Utf8.{valid_utf8, rune_bytes}
use new_im.Protocol.Json.Scan.{
  skip_space, hex_value, escape_of, scan_string, unquoted, scan_number, scan_literal,
}
use new_im.Protocol.Json.Decoder.{
  separated, token, more, at_end, read_between, skip_value, unmarshal_object, unmarshal_string,
}
use new_im.Protocol.Types.{ErrorCode, Ack, ServerFrame}
use new_im.Protocol.Checks.{
  identifier, decimal_text, field, object_fields, string_field, number_from, version_field,
  forbidden,
}
use new_im.Protocol.Strict.{
  paired_surrogates, bad_scalar, member_name, close, value, compound, members, elements,
  scan_strict, out_of_fuel, stop_code, coded, strict_json_limits,
}
use new_im.Protocol.Frame.{
  body_limit, parse_frame, ack_shape, body_shape, frame_body, decode_server_frame,
}
use new_im.Protocol.Message.{lower_bound}
use new_im.Protocol.Send.{
  quoted_wire_string, more_pairs, pairs_text, string_object, wrap, ack_pairs, ack_wire,
  encode_server_frame,
}
use new_im.Protocol.Terminates.{scan_strict-ne-out_of_fuel}
use new_im.Protocol.RoundTrip.Frames.{decode-encode_server_frame}

abbrev ack : Ack
ack = record {
  client_msg_id = text "c1";
  conversation_id = text "room";
  sender_id = text "ann";
  server_msg_id = text "s1";
  conversation_seq = text "7";
  server_time = text "1700000000000";
}

abbrev pub frame : ServerFrame
frame = record { ack = some ack; error = none; message = none }

abbrev written : Result ErrorCode Bytes
unfolding encode_server_frame ack_wire lower_bound wrap decimal string_object pairs_text more_pairs
    quoted_wire_string ack_pairs decode_server_frame parse_frame strict_json_limits coded stop_code
    scan_strict valid_utf8 value compound members elements token separated skip_space scan_string
    unquoted rune_bytes hex_value escape_of scan_number scan_literal more at_end read_between
    bad_scalar member_name paired_surrogates close eq_bytes lt_bytes every is_identifier_char
    object_fields unmarshal_object skip_value field version_field decimal_text string_field
    unmarshal_string forbidden body_limit number_from body_shape ack_shape identifier frame_body
written = encode_server_frame frame

abbrev pub wire : Bytes
wire =
    text
      "{\"protocolVersion\":1,\"kind\":\"send_ack\",\"body\":{\"status\":\"SERVER_PERSISTED\",\"clientMsgId\":\"c1\",\"conversationId\":\"room\",\"senderId\":\"ann\",\"serverMsgId\":\"s1\",\"conversationSeq\":\"7\",\"serverTime\":\"1700000000000\"}}"

-- The encoder gives these bytes.
encode_frame : encode_server_frame frame ≡ ok wire
unfolding encode_server_frame written
encode_frame = refl

decode-encode_server_frame_example : decode_server_frame wire ≡ ok frame
decode-encode_server_frame_example = decode-encode_server_frame frame wire refl encode_frame

scan_strict-ne-out_of_fuel_example : scan_strict wire 66048 33 ≢ err out_of_fuel
scan_strict-ne-out_of_fuel_example = scan_strict-ne-out_of_fuel wire 66048 33
