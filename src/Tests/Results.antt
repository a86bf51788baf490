-- ===== src/Tests/Results.antt =====
-- Results of a send that are correlated with it and compared.
use new_im.Common.{true, ◌+◌, ◌-◌, arith, ◌≡◌, ◌≢◌, refl, some, none, Result, ok, err}
use new_im.Bytes.{is_digit, Bytes, eq_bytes, lt_bytes, every, is_identifier_char}
use new_im.Bytes.Text.{text, decimal}
use new_im.Protocol.Json.Utf8.{valid_utf8, rune_bytes}
use new_im.Protocol.Json.Scan.{
  skip_space, hex_value, escape_of, scan_string, unquoted, scan_number, scan_literal,
}
use new_im.Protocol.Json.Decoder.{
  separated, token, more, at_end, read_between, skip_value, unmarshal_object, unmarshal_string,
  valid_json,
}
use new_im.Protocol.Types.{Send, ServerFrame}
use new_im.Protocol.Checks.{
  identifier, decimal_text, field, object_fields, string_field, number_from, version_field,
  forbidden,
}
use new_im.Protocol.Strict.{
  paired_surrogates, bad_scalar, member_name, close, value, compound, members, elements,
  scan_strict, stop_code, coded, strict_json_limits,
}
use new_im.Protocol.Frame.{
  body_limit, parse_frame, send_shape, send_semantics, decode_send, ack_shape, body_shape,
  frame_body, decode_server_frame,
}
use new_im.Protocol.Message.{lower_bound, whole_payload, validate_known_payload}
use new_im.Protocol.Send.{
  quoted_wire_string, more_pairs, pairs_text, string_object, wrap, send_wire, encode_send,
  ack_pairs, ack_wire, encode_server_frame,
}
use new_im.Protocol.Results.{
  ResultError, checked, result_ack, correlation_mismatch, result_conflict, has_error, compare_acks,
  answers, correlate, compare_results,
}
use new_im.Protocol.Numbers.{add_magnitude, subtract_magnitude}
use new_im.Protocol.Magnitudes.{add_magnitude-sum, subtract_magnitude-difference}
use new_im.Protocol.Compared.{Verdict, compare_results-Verdict}
use new_im.Protocol.Correlated.{IsAnswer, correlate-IsAnswer, correlate-comparable}

abbrev request : Send
request = record {
  protocol_version = 1;
  client_msg_id = text "c1";
  conversation_id = text "room";
  version = 1;
  type = text "custom";
  payload = some (text "{}");
}

-- The acknowledgement of the request with this identifier of the server.
abbrev acknowledged_as : Bytes → ServerFrame
acknowledged_as server_msg_id = record {
  ack = some (record {
    client_msg_id = text "c1";
    conversation_id = text "room";
    sender_id = text "ann";
    server_msg_id = server_msg_id;
    conversation_seq = text "7";
    server_time = text "1700000000000";
  });
  error = none;
  message = none;
}

abbrev outcomes : Result ResultError (Unit {0}) × Result ResultError (Unit {0})
unfolding correlate compare_results checked answers result_ack has_error compare_acks encode_send
    send_wire decode_send send_shape send_semantics validate_known_payload whole_payload
    encode_server_frame ack_wire lower_bound wrap decimal string_object pairs_text more_pairs
    quoted_wire_string ack_pairs decode_server_frame parse_frame strict_json_limits coded stop_code
    scan_strict valid_utf8 value compound members elements token separated skip_space scan_string
    unquoted rune_bytes hex_value escape_of scan_number scan_literal more at_end read_between
    bad_scalar member_name paired_surrogates close eq_bytes lt_bytes every is_identifier_char
    object_fields unmarshal_object skip_value field version_field decimal_text string_field
    unmarshal_string forbidden body_limit number_from body_shape ack_shape identifier frame_body
    valid_json
outcomes = (
  correlate request (text "ann") (acknowledged_as (text "s1")),
  compare_results (acknowledged_as (text "s1")) (acknowledged_as (text "s2")),
)

-- The two results answer the request, and are not the same.
first_answers : correlate request (text "ann") (acknowledged_as (text "s1")) ≡ ok tt
unfolding correlate outcomes
first_answers = refl

second_answers : correlate request (text "ann") (acknowledged_as (text "s2")) ≡ ok tt
unfolding correlate outcomes
second_answers = refl

compare_results_conflict :
    compare_results (acknowledged_as (text "s1")) (acknowledged_as (text "s2"))
    ≡ err result_conflict
unfolding compare_results outcomes
compare_results_conflict = refl

compare_results-Verdict_example :
    Verdict
      (acknowledged_as (text "s1"))
      (acknowledged_as (text "s2"))
      (compare_results (acknowledged_as (text "s1")) (acknowledged_as (text "s2")))
compare_results-Verdict_example =
    compare_results-Verdict (acknowledged_as (text "s1")) (acknowledged_as (text "s2"))

correlate-IsAnswer_example : IsAnswer request (text "ann") (acknowledged_as (text "s1"))
correlate-IsAnswer_example =
    correlate-IsAnswer request (text "ann") (acknowledged_as (text "s1")) first_answers

correlate-comparable_example :
    compare_results (acknowledged_as (text "s1")) (acknowledged_as (text "s2"))
    ≢ err correlation_mismatch
correlate-comparable_example =
    correlate-comparable request (text "ann") (acknowledged_as (text "s1"))
      (acknowledged_as (text "s2")) first_answers second_answers

add_magnitude-sum_example :
    (every is_digit (add_magnitude (text "95") (text "7")) ≡ true)
    × (number_from 0 (add_magnitude (text "95") (text "7"))
        ≡ number_from 0 (text "95") + number_from 0 (text "7"))
unfolding every
add_magnitude-sum_example = add_magnitude-sum (text "95") (text "7") refl refl

subtract_magnitude-difference_example :
    number_from 0 (subtract_magnitude (text "103") (text "7"))
    ≡ number_from 0 (text "103") - number_from 0 (text "7")
unfolding number_from every
subtract_magnitude-difference_example =
    subtract_magnitude-difference (text "103") (text "7") refl refl (omega arith)
