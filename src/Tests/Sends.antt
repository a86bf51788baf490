-- ===== src/Tests/Sends.antt =====
-- A message that is sent to a database of rows, sent again, and refused to a stranger.
use new_im.Common.{
  suc, ◌≡◌, refl, ap, sym, ◌∙◌, ◌⊎◌, true, ◌&&◌, List, [], ◌∷◌, Option, none, some, if◌then◌else◌,
  length, Result, ok, err,
}
use new_im.Common.Int.{pos}
use new_im.Bytes.{Bytes, eq_bytes, eq_bytes_refl, lt_bytes, every, is_identifier_char, is_hex_char}
use new_im.Bytes.Text.{text, decimal}
use new_im.Protocol.Json.Utf8.{valid_utf8, rune_bytes}
use new_im.Protocol.Json.Scan.{
  skip_space, hex_value, escape_of, scan_string, unquoted, scan_number, scan_literal,
}
use new_im.Protocol.Json.Decoder.{
  separated, token, more, at_end, read_between, skip_value, valid_json, unmarshal_object,
  unmarshal_string,
}
use new_im.Protocol.Checks.{
  identifier, decimal_text, field, object_fields, string_field, number_from, version_field,
  forbidden,
}
use new_im.Protocol.Strict.{
  paired_surrogates, bad_scalar, member_name, close, value, compound, members, elements,
  scan_strict, stop_code, coded, strict_json_limits,
}
use new_im.Protocol.Frame.{
  body_limit, parse_frame, ack_shape, body_shape, frame_body, decode_server_frame, send_shape,
  send_semantics, decode_send,
}
use new_im.Protocol.Message.{
  lower_bound, whole_payload, validate_known_payload, validate_text_payload,
}
use new_im.Protocol.Send.{
  quoted_wire_string, more_pairs, pairs_text, string_object, wrap, ack_pairs, ack_wire,
  encode_server_frame, send_wire, encode_send,
}
use new_im.Protocol.Types.{Send, ServerFrame}
use new_im.Protocol.Intent.{
  same_intent, equal_payload, decoded, read_value, read_items, read_entries, equal_value,
  equal_items, equal_entries, entry_count, find_entry,
}
use new_im.AuthSession.Identity.{ConnectionIdentity}
use new_im.Sending.Types.{
  SendFailure, Generated, fail, unauthorized, storage_unavailable, disposition_for, error_code,
  retry_disposition,
}
use new_im.Sending.Service.{
  Reads, valid_identifier, valid_identity, as_invalid, check_request, validate_media, generate,
  redacted, redacted_error, ack_of, ack_frame, framed, answer_of, answered, send_checked, send,
}
use new_im.Sending.Repository.{
  StoredRow, intent, persisted, Database, mapped, fixed_result, fixed, own_intent, sendable,
  valid_principal, identifier as stored_identifier, valid_generated, authorize, load_message,
  check_same, row_of, transact, check_input, told, conclude, persist,
}
use new_im.Sending.Sent.{IsSent, send-IsSent}
use new_im.Sending.Resent.{IsKeeping, IsAsLeft, send-again}
use new_im.Sending.Frozen.{IsFrozen}
use new_im.Sending.Failed.{send-eq-err}

-- The row that a message is stored as, with the number that follows.
abbrev new_row : Bytes → Send → Generated → List StoredRow → StoredRow
new_row sender request g rows = record {
  server_msg_id = g.server_msg_id;
  client_msg_id = request.client_msg_id;
  sender_id = sender;
  conversation_id = request.conversation_id;
  conversation_seq = pos (suc (length rows));
  protocol_version = request.protocol_version;
  schema_version = request.version;
  message_type = request.type;
  server_time = g.server_time;
  payload = elim request.payload [ none ↦ [] | some raw ↦ raw ];
}

find_row : Bytes → Bytes → List StoredRow → Option StoredRow
find_row sender client [] = none
find_row sender client (r ∷ rs) =
    if eq_bytes r.sender_id sender && eq_bytes r.client_msg_id client
    then some r
    else find_row sender client rs

-- One conversation, with one member.
abbrev rows_db : Database (List StoredRow)
unfolding find_row
rows_db = record {
  begin = λ s. ok tt;
  conversation = λ id s. ok (if eq_bytes id (text "room") then some id else none);
  member = λ id user s. ok (if eq_bytes user (text "ann") then some user else none);
  load = λ sender client s. ok (find_row sender client s);
  insert = λ sender request g s. ok (new_row sender request g s, new_row sender request g s ∷ s);
  commit = λ before after. (true, after);
}

find_row-new :
    (sender : Bytes) (request : Send) (g : Generated) (s : List StoredRow)
    → find_row sender request.client_msg_id (new_row sender request g s ∷ s)
      ≡ some (new_row sender request g s)
unfolding find_row
find_row-new sender request g s = rw (eq_bytes_refl sender, eq_bytes_refl request.client_msg_id)

insert-loads :
    (sender : Bytes) (request : Send) (g : Generated) (s after : List StoredRow) (row : StoredRow)
    → rows_db.insert sender request g s ≡ ok (row, after)
    → rows_db.load sender request.client_msg_id after ≡ ok (some row)
unfolding rows_db
insert-loads sender request g s after row h =
    let e : ◌≡◌ {A = StoredRow × List StoredRow}
        (new_row sender request g s, new_row sender request g s ∷ s) (row, after) =
      cc h in
    sym (ap (λ p. ok (find_row sender request.client_msg_id p.1)) e)
    ∙ ap ok (find_row-new sender request g s)
    ∙ ap (λ p. ok (some p.0)) e

rows_db-IsKeeping : IsKeeping rows_db
unfolding rows_db
rows_db-IsKeeping = record {
  begins = λ s. refl;
  idle = λ s. refl;
  commits = λ s after s' h. sym (ap (λ a. a.1) h);
  loads = λ sender request g s after row h. insert-loads sender request g s after row h;
  conversations = λ sender id request g s after row h. refl;
  members = λ sender id request g s after row h. refl;
}

abbrev ann : ConnectionIdentity
ann = record {
  user_id = text "ann";
  device_id = text "phone";
  session_id = text "s1";
  connection_id = text "c1";
  token_id = text "11111111111111111111111111111111";
}

abbrev bob : ConnectionIdentity
bob = record ann { user_id = text "bob" }

abbrev hello : Send
hello = record {
  protocol_version = 1;
  client_msg_id = text "m1";
  conversation_id = text "room";
  version = 1;
  type = text "text";
  payload = some (text "{\"text\":\"hi\"}");
}

abbrev reads : Reads
reads = record {
  now = some (pos 1700000000000);
  first_id = some (text "a1");
  second_id = some (text "e1");
}

abbrev later_reads : Reads
later_reads = record { now = some (pos 1700000009000); first_id = none; second_id = none }

-- Everything that a request computes.
abbrev sending : ConnectionIdentity → Result SendFailure ServerFrame × List StoredRow
unfolding encode_server_frame ack_wire lower_bound wrap decimal string_object pairs_text more_pairs
    quoted_wire_string ack_pairs decode_server_frame parse_frame strict_json_limits coded stop_code
    scan_strict valid_utf8 value compound members elements token separated skip_space scan_string
    unquoted rune_bytes hex_value escape_of scan_number scan_literal more at_end read_between
    bad_scalar member_name paired_surrogates close eq_bytes lt_bytes every is_identifier_char
    object_fields unmarshal_object skip_value field version_field decimal_text string_field
    unmarshal_string forbidden body_limit number_from body_shape ack_shape identifier frame_body
    encode_send send_wire whole_payload valid_json decode_send send_shape send_semantics
    validate_known_payload validate_text_payload rows_db send check_request valid_identity
    valid_identifier is_hex_char as_invalid send_checked validate_media generate persist check_input
    valid_principal stored_identifier sendable transact mapped fixed_result fixed authorize
    load_message row_of valid_generated check_same own_intent same_intent intent equal_payload
    decoded read_value read_items read_entries equal_value equal_items equal_entries entry_count
    find_entry conclude told persisted answered redacted answer_of framed ack_of fail
    disposition_for redacted_error error_code retry_disposition
sending identity = send (persist rows_db) none reads identity hello []

abbrev stored : StoredRow
stored =
    new_row (text "ann") hello
      (record { server_msg_id = text "a1"; event_id = text "e1"; server_time = pos 1700000000000 })
      []

abbrev frame : ServerFrame
frame = ack_frame (record {
  client_msg_id = text "m1";
  conversation_id = text "room";
  sender_id = text "ann";
  server_msg_id = text "a1";
  conversation_seq = text "1";
  server_time = text "1700000000000";
})

hello_run : send (persist rows_db) none reads ann hello [] ≡ (ok frame, stored ∷ [])
unfolding sending
hello_run = refl

stranger_run : send (persist rows_db) none reads bob hello [] ≡ (err (fail unauthorized), [])
unfolding sending
stranger_run = refl

send-IsSent_example :
    (row : StoredRow) × IsSent rows_db none reads ann hello [] (stored ∷ []) row
    × (frame ≡ ack_frame (ack_of (persisted row)))
send-IsSent_example = send-IsSent rows_db none reads ann hello [] (stored ∷ []) frame hello_run

-- Meanwhile a message of somebody else was stored.
abbrev later_rows : List StoredRow
later_rows = record stored { sender_id = text "eve"; server_msg_id = text "a2" } ∷ stored ∷ []

later_rows-IsAsLeft : IsAsLeft rows_db (text "ann") hello (stored ∷ []) later_rows
unfolding rows_db find_row eq_bytes
later_rows-IsAsLeft = record { conversation = refl; member = refl; row = refl }

-- The clock has moved on and no identifier can be made: neither is asked for.
send-again_example :
    send (persist rows_db) none later_reads ann hello later_rows ≡ (ok frame, later_rows)
send-again_example =
    send-again rows_db rows_db-IsKeeping none none reads later_reads ann hello [] (stored ∷ [])
      later_rows frame hello_run later_rows-IsAsLeft

send-eq-err_example :
    IsFrozen (fail unauthorized)
    × ((◌≡◌ {A = List StoredRow} [] []) ⊎ (fail unauthorized ≡ fail storage_unavailable))
send-eq-err_example =
    send-eq-err rows_db none reads bob hello [] [] (fail unauthorized) stranger_run
