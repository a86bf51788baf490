-- ===== src/Tests/Listing.antt =====
-- A directory of three conversations, one of them removed, in two pages.
use new_im.Common.{ℕ, ◌≤◌, ◌≡◌, refl, true, false, List, [], ◌∷◌, none, some, Result, ok, drop}
use new_im.Common.Int.{pos}
use new_im.Bytes.{Bytes, lt_bytes}
use new_im.Bytes.BigEndian.{get_be}
use new_im.Bytes.Base64.{raw_url_decode, decode_symbols, skip_breaks, value}
use new_im.Bytes.Text.{text, decimal, json_string}
use new_im.ConversationSync.Types.{
  Code, Item, upsert, remove, Page, Candidate, ReadRequest, ReadResult, Store,
}
use new_im.ConversationSync.Cursor.{
  SyncCursor, valid_optional_identifier, is_page, decoded_position, validate_decoded_cursor,
  cursor_kind_bootstrap_page,
}
use new_im.ConversationSync.Cursor.Reader.{
  ◌>>=◌ as read_bind, uint16, sequence, identifier, identifier_or_empty, done, read_position,
  read_cursor,
}
use new_im.ConversationSync.Codec.{open_cursor, decode_cursor}
use new_im.ConversationSync.Validate.{
  Time, normalize_limit, current_unix, add_seconds, redact_error, validate_common_read_result,
  validate_kind, validate_item, validate_latest, validate_directory_state, validate_directory,
  no_candidates, validate_exhausted, validate_bootstrap_candidates,
}
use new_im.ConversationSync.Assemble.{
  refuse_latest, select_bootstrap_candidate, directory_loop, assemble_bootstrap,
}
use new_im.ConversationSync.Json.{kind_text, item_json, page_json}
use new_im.ConversationSync.Service.{Service, read}
use new_im.ConversationSync.Render.{
  cursor_advanced, page_token, checkpoint_token, next_token, position_at, render_page, try_render,
  render_loop, render_assembled_page,
}
use new_im.ConversationSync.Operations.{
  begin_bootstrap, continue_bootstrap, accept_first_directory, accept_next_directory,
}
use new_im.ConversationSync.Directory.Listed.{last_key}
use new_im.ConversationSync.Directory.Pages.{IsDirectoryPage, HasNextKey}
use new_im.ConversationSync.Directory.Answers.{
  continue_bootstrap-IsDirectoryPage, begin_bootstrap-IsDirectoryPage,
}
use new_im.Tests.Cursors.{toy_mac, keys, encoded, ok_or}

abbrev shown : Bytes → ℕ → Item
shown id n = record {
  conversation_id = id;
  revision = n;
  kind = upsert;
  latest_conversation_seq = some n;
  latest_server_msg_id = none;
}

abbrev gone : Bytes → ℕ → Item
gone id n = record {
  conversation_id = id;
  revision = n;
  kind = remove;
  latest_conversation_seq = none;
  latest_server_msg_id = none;
}

abbrev directory : List Candidate
directory =
    record { key = text "a"; state = some (shown (text "a") 1); member = true; latest = none }
    ∷ record { key = text "b"; state = some (gone (text "b") 2); member = false; latest = none }
    ∷ record { key = text "c"; state = some (shown (text "c") 3); member = true; latest = none }
    ∷ []

-- The candidates behind the first conversation, or all.
abbrev three : Store
three user request = ok (record {
  epoch = 1;
  head = 3;
  floor = 0;
  fence = 3;
  terminal_key = text "c";
  candidates = elim request.start [ true ↦ directory | false ↦ drop 1 directory ];
  directory_exhausted = true;
})

abbrev service : Service
service = record { store = three; keys = keys; active_key_id = text "k1"; request_timeout = pos 5 }

abbrev at : ℕ → Time
at n = record { is_zero = false; unix = pos n }

abbrev no_page : Page
no_page = record { items = []; next_cursor = []; has_more = false }

first : Result Code Page
unfolding encoded begin_bootstrap accept_first_directory normalize_limit current_unix add_seconds
    read redact_error validate_common_read_result validate_kind validate_item validate_latest
    validate_directory_state validate_directory no_candidates validate_exhausted
    validate_bootstrap_candidates valid_optional_identifier lt_bytes refuse_latest
    select_bootstrap_candidate directory_loop assemble_bootstrap kind_text item_json page_json
    decimal json_string cursor_advanced page_token checkpoint_token next_token position_at
    render_page try_render render_loop render_assembled_page is_page
first = begin_bootstrap toy_mac service (text "ann") (pos 1) (at 1000)

second : Result Code Page
unfolding first continue_bootstrap accept_next_directory decode_cursor open_cursor
    validate_decoded_cursor decoded_position raw_url_decode decode_symbols skip_breaks value get_be
    read_bind uint16 sequence identifier identifier_or_empty done read_position read_cursor
second = continue_bootstrap toy_mac service (text "ann") (ok_or no_page first).next_cursor (at 1100)

first_items : (ok_or no_page first).items ≡ shown (text "a") 1 ∷ []
unfolding first
first_items = refl

second_items : (ok_or no_page second).items ≡ shown (text "c") 3 ∷ []
unfolding second
second_items = refl

continue_bootstrap-IsDirectoryPage_example :
    (now : ℕ) × (token : SyncCursor) × (decode_cursor toy_mac keys
        (ok_or no_page first).next_cursor
        cursor_kind_bootstrap_page
        (text "ann")
        now
      ≡ ok token)
    × (request : ReadRequest) × (request.after_key ≡ token.after_key)
    × (r : ReadResult) × (three (text "ann") request ≡ ok r)
    × (front : List Candidate) × IsDirectoryPage token.limit token.after_key token.terminal_key r
        front
        (ok_or no_page second)
    × HasNextKey toy_mac service token (last_key token.after_key front) now (ok_or no_page second)
unfolding second
continue_bootstrap-IsDirectoryPage_example =
    continue_bootstrap-IsDirectoryPage toy_mac service (text "ann")
      (ok_or no_page first).next_cursor (at 1100) (ok_or no_page second) refl

begin_bootstrap-IsDirectoryPage_example :
    (base : SyncCursor) × (base.kind ≡ cursor_kind_bootstrap_page)
    × (base.account ≡ text "ann")
    × (base.limit ≤ 100)
    × (now : ℕ) × (request : ReadRequest) × (request.after_key ≡ [])
    × (r : ReadResult) × (three (text "ann") request ≡ ok r)
    × (front : List Candidate) × IsDirectoryPage base.limit [] r.terminal_key r front
        (ok_or no_page first)
    × HasNextKey toy_mac service base (last_key [] front) now (ok_or no_page first)
unfolding first
begin_bootstrap-IsDirectoryPage_example =
    begin_bootstrap-IsDirectoryPage toy_mac service (text "ann") (pos 1) (at 1000)
      (ok_or no_page first) refl
