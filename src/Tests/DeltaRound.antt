-- ===== src/Tests/DeltaRound.antt =====
-- A round of two delta pages over three revisions.
use new_im.Common.{
  ℕ, ◌+◌, ◌≤◌, ◌≡◌, refl, true, false, [], ◌∷◌, ◌++◌, none, some, Result, ok, take, drop,
}
use new_im.Common.Int.{pos}
use new_im.Bytes.{Bytes}
use new_im.Bytes.BigEndian.{get_be}
use new_im.Bytes.Base64.{raw_url_decode, decode_symbols, skip_breaks, value}
use new_im.Bytes.Text.{text, decimal, json_string}
use new_im.ConversationSync.Types.{Code, Item, upsert, Page, Candidate, Store}
use new_im.ConversationSync.Cursor.{
  SyncCursor, valid_optional_identifier, is_page, decoded_position, validate_decoded_cursor,
}
use new_im.ConversationSync.Cursor.Reader.{
  ◌>>=◌ as read_bind, uint16, sequence, identifier, identifier_or_empty, done, read_position,
  read_cursor,
}
use new_im.ConversationSync.Codec.{encode_cursor, open_cursor, decode_cursor}
use new_im.ConversationSync.Validate.{
  Time, normalize_limit, current_unix, add_seconds, redact_error, validate_common_read_result,
  validate_kind, validate_item, validate_latest, validate_revisions, validate_delta_candidates,
}
use new_im.ConversationSync.Assemble.{
  refuse_latest, select_delta_candidate, delta_loop, assemble_delta,
}
use new_im.ConversationSync.Json.{kind_text, item_json, page_json}
use new_im.ConversationSync.Service.{Service, read}
use new_im.ConversationSync.Render.{
  cursor_advanced, page_token, checkpoint_token, next_token, position_at, render_page, try_render,
  render_loop, render_assembled_page,
}
use new_im.ConversationSync.Operations.{
  begin_delta, continue_delta, accept_first_delta, accept_next_delta,
}
use new_im.ConversationSync.Delta.Runs.{Run}
use new_im.ConversationSync.Delta.Rounds.{last, Round, several, IsCheckpointAt}
use new_im.ConversationSync.Delta.Pages.{IsDeltaPage, HasNext}
use new_im.ConversationSync.Delta.Brought.{IsBrought}
use new_im.ConversationSync.Delta.Answers.{continue_delta-IsDeltaPage, begin_delta-IsDeltaPage}
use new_im.ConversationSync.Delta.Complete.{Round-complete}
use new_im.Tests.Cursors.{toy_mac, toy_mac-IsMac, keys, encoded, ok_or}

abbrev state : ℕ → Item
state n = record {
  conversation_id = text "c1";
  revision = n;
  kind = upsert;
  latest_conversation_seq = some n;
  latest_server_msg_id = some (text "m1");
}

abbrev candidate : ℕ → Candidate
candidate n = record { key = text "c1"; state = some (state n); member = true; latest = none }

-- Three revisions; a read is cut at one more than its limit.
abbrev three : Store
three user request = ok (record {
  epoch = 1;
  head = 3;
  floor = 0;
  fence = 3;
  terminal_key = [];
  candidates =
      take (request.limit + 1)
        (drop request.after_seq (candidate 1 ∷ candidate 2 ∷ candidate 3 ∷ []));
  directory_exhausted = false;
})

abbrev service : Service
service = record { store = three; keys = keys; active_key_id = text "k1"; request_timeout = pos 5 }

abbrev at : ℕ → Time
at n = record { is_zero = false; unix = pos n }

abbrev start : SyncCursor
start = record {
  kind = 3;
  key_id = text "k1";
  account = text "ann";
  epoch = 1;
  issued = 900;
  expires = 2000;
  limit = 2;
  fence = 0;
  after_seq = 0;
  after_key = [];
  terminal_key = [];
}

start_text : Result Code Bytes
unfolding encoded
start_text = encode_cursor toy_mac keys start

abbrev no_page : Page
no_page = record { items = []; next_cursor = []; has_more = false }

first : Result Code Page
unfolding start_text begin_delta decode_cursor open_cursor validate_decoded_cursor decoded_position
    raw_url_decode decode_symbols skip_breaks value get_be read_bind uint16 sequence identifier
    identifier_or_empty done read_position read_cursor normalize_limit current_unix add_seconds read
    redact_error accept_first_delta validate_common_read_result validate_kind validate_item
    validate_latest validate_revisions validate_delta_candidates valid_optional_identifier
    refuse_latest select_delta_candidate delta_loop assemble_delta kind_text item_json page_json
    decimal json_string cursor_advanced page_token checkpoint_token next_token position_at
    render_page try_render render_loop render_assembled_page is_page
first = begin_delta toy_mac service (text "ann") (ok_or [] start_text) (pos 2) (at 1000)

second : Result Code Page
unfolding first continue_delta accept_next_delta
second = continue_delta toy_mac service (text "ann") (ok_or no_page first).next_cursor (at 1100)

first_items : (ok_or no_page first).items ≡ state 1 ∷ state 2 ∷ []
unfolding first
first_items = refl

second_items : (ok_or no_page second).items ≡ state 3 ∷ []
unfolding second
second_items = refl

checkpoint_start : IsCheckpointAt toy_mac keys (text "ann") 0 (ok_or [] start_text)
unfolding start_text
checkpoint_start = record {
  token = start;
  encoded = refl;
  kind = refl;
  account = refl;
  fence_same = refl;
}

whole-Round :
    Round toy_mac keys
      (text "ann")
      (ok_or [] start_text)
      ((ok_or no_page first).items ++ (ok_or no_page second).items)
      (ok_or no_page second).next_cursor
unfolding second
whole-Round =
    several service (ok_or [] start_text) (pos 2) (at 1000) (ok_or no_page first)
      (ok_or no_page second).items (ok_or no_page second).next_cursor refl refl refl
      (last service (ok_or no_page first).next_cursor (at 1100) (ok_or no_page second) refl refl
        refl)

Round-complete_example :
    (fence : ℕ) × Run 0 ((ok_or no_page first).items ++ (ok_or no_page second).items) fence
    × IsCheckpointAt toy_mac keys (text "ann") fence (ok_or no_page second).next_cursor
Round-complete_example =
    Round-complete toy_mac toy_mac-IsMac (text "ann") keys (ok_or [] start_text)
      (ok_or no_page second).next_cursor
      ((ok_or no_page first).items ++ (ok_or no_page second).items) 0 checkpoint_start whole-Round

continue_delta-IsDeltaPage_example :
    (now : ℕ) × (token : SyncCursor) × (decode_cursor toy_mac keys
        (ok_or no_page first).next_cursor
        2
        (text "ann")
        now
      ≡ ok token)
    × (reached : ℕ) × IsDeltaPage token.limit token.after_seq token.fence reached
        (ok_or no_page second)
    × HasNext toy_mac service token reached now (ok_or no_page second)
    × IsBrought service (text "ann") token.after_seq (ok_or no_page second).items
unfolding second
continue_delta-IsDeltaPage_example =
    continue_delta-IsDeltaPage toy_mac service (text "ann") (ok_or no_page first).next_cursor
      (at 1100) (ok_or no_page second) refl

begin_delta-IsDeltaPage_example :
    (now : ℕ) × (token : SyncCursor) × (decode_cursor toy_mac keys
        (ok_or [] start_text)
        3
        (text "ann")
        now
      ≡ ok token)
    × (base : SyncCursor) × (base.kind ≡ 2)
    × (base.account ≡ text "ann")
    × (base.after_seq ≡ token.fence)
    × (base.limit ≤ 100)
    × (reached : ℕ) × IsDeltaPage base.limit token.fence base.fence reached (ok_or no_page first)
    × HasNext toy_mac service base reached now (ok_or no_page first)
    × IsBrought service (text "ann") token.fence (ok_or no_page first).items
unfolding first
begin_delta-IsDeltaPage_example =
    begin_delta-IsDeltaPage toy_mac service (text "ann") (ok_or [] start_text) (pos 2) (at 1000)
      (ok_or no_page first) refl
