-- ===== src/ConversationSync/Render.antt =====
-- server/sync/conversation/service.go: how a page is rendered with its next cursor.
pub mod Kept
use new_im.Common.{
  ℕ, zero, suc, Bool, true, false, not, ◌&&◌, ◌||◌, List, [], Option, none, some, Result, ok, err,
  ◌>>=◌, ◌>>◌, reject, ◌==◌, ltb, if◌then◌else◌, length, take, get_elem?, map,
}
use new_im.Bytes.{Bytes, lt_bytes, nonempty}
use new_im.ConversationSync.Types.{
  Code, limit_exceeded, storage_unavailable, max_response_bytes, Item, Page,
}
use new_im.ConversationSync.Cursor.{
  SyncCursor, CursorPosition, ItemEnvelope, cursor_kind_bootstrap_page, cursor_kind_delta_page,
  cursor_kind_checkpoint, checkpoint_lifetime, is_page,
}
use new_im.ConversationSync.Codec.{encode_cursor}
use new_im.ConversationSync.Validate.{add_seconds}
use new_im.ConversationSync.Assemble.{Assembly}
use new_im.ConversationSync.Json.{page_json}
use new_im.ConversationSync.Service.{Service}

unfoldable pub cursor_advanced : SyncCursor → CursorPosition → Bool
cursor_advanced base position =
    if base.kind == cursor_kind_bootstrap_page
    then nonempty position.key && lt_bytes base.after_key position.key
    else if base.kind == cursor_kind_delta_page
    then ltb base.after_seq position.seq
    else false

-- The token of a page that is not the last: `base` moved to the position.
unfoldable pub page_token : Service → SyncCursor → CursorPosition → SyncCursor
page_token s base position = record base {
  key_id = s.active_key_id;
  after_key = position.key;
  after_seq = position.seq;
}

unfoldable pub checkpoint_token : Service → SyncCursor → ℕ → ℕ → SyncCursor
checkpoint_token s base now expires = record {
  kind = cursor_kind_checkpoint;
  key_id = s.active_key_id;
  account = base.account;
  epoch = base.epoch;
  issued = now;
  expires = expires;
  limit = base.limit;
  fence = base.fence;
  after_seq = 0;
  after_key = [];
  terminal_key = [];
}

-- The token of `renderPage`.
unfoldable pub next_token :
    Service → SyncCursor → CursorPosition → Bool → ℕ → Result Code SyncCursor
next_token s base position true now = do
  reject (not (is_page base)) storage_unavailable
  ok (page_token s base position)
next_token s base position false now = do
  expires ← add_seconds now checkpoint_lifetime
  ok (checkpoint_token s base now expires)

abbrev pub items_of : List ItemEnvelope → List Item
items_of = map (λ e. e.item)

-- `entries[keep].before`, or the final position where `keep` is the number of entries.
unfoldable pub position_at : List ItemEnvelope → CursorPosition → ℕ → CursorPosition
position_at entries final keep = elim (get_elem? entries keep) [ none ↦ final | some e ↦ e.before ]

module _ (mac : Bytes → Bytes → Bytes) where
  unfoldable pub render_page :
      Service → SyncCursor → List ItemEnvelope → CursorPosition → Bool → ℕ → Result Code Page
  render_page s base entries position more now = do
    token ← next_token s base position more now
    next ← encode_cursor mac s.keys token
    let page : Page = record { items = items_of entries; next_cursor = next; has_more = more }
    reject (ltb max_response_bytes (length (page_json page))) limit_exceeded
    ok page

  -- One round of the loop of `renderAssembledPage`: `none` goes on with fewer entries.
  unfoldable pub try_render : Service → SyncCursor → Assembly → ℕ → ℕ → Option (Result Code Page)
  try_render s base a now keep =
      let position = position_at a.entries a.position keep in
      let more = a.has_more || ltb keep (length a.entries) in
      if more && not (cursor_advanced base position)
      then none
      else elim (render_page s base (take keep a.entries) position more now) [
        | ok page ↦ some (ok page)
        | err limit_exceeded ↦ none
        | err e ↦ some (err e)
      ]

  -- The loop `for keep := len(entries); keep >= minimumEntries; keep--`.
  unfoldable pub render_loop : Service → SyncCursor → Assembly → ℕ → ℕ → ℕ → Result Code Page
  render_loop s base a now minimum zero =
      if ltb 0 minimum
      then err limit_exceeded
      else elim (try_render s base a now 0) [ some answer ↦ answer | none ↦ err limit_exceeded ]
  render_loop s base a now minimum (suc keep) =
      let fewer = render_loop s base a now minimum keep in
      if ltb (suc keep) minimum
      then err limit_exceeded
      else elim (try_render s base a now (suc keep)) [ some answer ↦ answer | none ↦ fewer ]

  unfoldable pub render_assembled_page : Service → SyncCursor → Assembly → ℕ → Result Code Page
  render_assembled_page s base a now =
      render_loop s base a now (if ltb 0 (length a.entries) then 1 else 0) (length a.entries)
