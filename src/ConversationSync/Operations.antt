-- ===== src/ConversationSync/Operations.antt =====
-- server/sync/conversation/service.go: the four operations of the service. The clock is read once in
-- each, so its reading is an argument.
use new_im.Common.{ℕ, true, false, not, ◌||◌, [], Result, ◌>>=◌, ◌>>◌, reject, ◌==◌, ltb}
use new_im.Common.Int.{ℤ}
use new_im.Bytes.{Bytes, eq_bytes}
use new_im.ConversationSync.Types.{
  ReadResult, Code, cursor_expired, forbidden, storage_unavailable, Page, bootstrap_read,
  delta_read,
}
use new_im.ConversationSync.Cursor.{
  SyncCursor, cursor_kind_bootstrap_page, cursor_kind_delta_page, cursor_kind_checkpoint,
  bootstrap_round_lifetime, valid_identifier,
}
use new_im.ConversationSync.Codec.{decode_cursor}
use new_im.ConversationSync.Validate.{
  Time, normalize_limit, current_unix, add_seconds, validate_common_read_result,
  validate_bootstrap_candidates, validate_delta_candidates,
}
use new_im.ConversationSync.Assemble.{assemble_bootstrap, assemble_delta}
use new_im.ConversationSync.Service.{Service, read}
use new_im.ConversationSync.Render.{render_assembled_page}

-- The checks of `BeginBootstrap` on what the store answers.
unfoldable pub accept_first_directory : ReadResult → Result Code (Unit {0})
accept_first_directory result = do
  validate_common_read_result result
  reject (not (result.fence == result.head)) storage_unavailable
  validate_bootstrap_candidates result [] result.terminal_key

-- The checks of `ContinueBootstrap`.
unfoldable pub accept_next_directory : ReadResult → SyncCursor → Result Code (Unit {0})
accept_next_directory result token = do
  validate_common_read_result result
  reject (not (result.epoch == token.epoch) || ltb token.fence result.floor) cursor_expired
  reject
      (not (result.fence == token.fence)
        || ltb result.head token.fence
        || not (eq_bytes result.terminal_key token.terminal_key))
      storage_unavailable
  validate_bootstrap_candidates result token.after_key token.terminal_key

-- The checks of `BeginDelta`.
unfoldable pub accept_first_delta : ReadResult → SyncCursor → ℕ → Result Code (Unit {0})
accept_first_delta result token page_limit = do
  validate_common_read_result result
  reject
      (not (result.epoch == token.epoch)
        || ltb token.fence result.floor
        || ltb result.head token.fence)
      cursor_expired
  reject (not (result.fence == result.head) || ltb result.fence token.fence) storage_unavailable
  validate_delta_candidates result token.fence result.fence page_limit

-- The checks of `ContinueDelta`.
unfoldable pub accept_next_delta : ReadResult → SyncCursor → Result Code (Unit {0})
accept_next_delta result token = do
  validate_common_read_result result
  reject (not (result.epoch == token.epoch) || ltb token.after_seq result.floor) cursor_expired
  reject (not (result.fence == token.fence) || ltb result.head token.fence) storage_unavailable
  validate_delta_candidates result token.after_seq token.fence token.limit

-- The cursor that `BeginBootstrap` starts its pages from.
abbrev pub first_directory : Service → Bytes → ℕ → ℕ → ℕ → ReadResult → SyncCursor
first_directory s user page_limit now expires result = record {
  kind = cursor_kind_bootstrap_page;
  key_id = s.active_key_id;
  account = user;
  epoch = result.epoch;
  issued = now;
  expires = expires;
  limit = page_limit;
  fence = result.fence;
  after_seq = 0;
  after_key = [];
  terminal_key = result.terminal_key;
}

-- The cursor that `BeginDelta` starts its pages from.
abbrev pub first_delta : Service → Bytes → ℕ → ℕ → ℕ → ReadResult → SyncCursor → SyncCursor
first_delta s user page_limit now expires result token = record {
  kind = cursor_kind_delta_page;
  key_id = s.active_key_id;
  account = user;
  epoch = result.epoch;
  issued = now;
  expires = expires;
  limit = page_limit;
  fence = result.fence;
  after_seq = token.fence;
  after_key = [];
  terminal_key = [];
}

module _ (mac : Bytes → Bytes → Bytes) where
  unfoldable pub begin_bootstrap : Service → Bytes → ℤ → Time → Result Code Page
  begin_bootstrap s user limit time = do
    reject (not (valid_identifier user)) forbidden
    page_limit ← normalize_limit limit
    now ← current_unix time
    round_expires ← add_seconds now bootstrap_round_lifetime
    result ← read s user (record {
      kind = bootstrap_read;
      start = true;
      epoch = 0;
      fence = 0;
      after_seq = 0;
      after_key = [];
      terminal_key = [];
      limit = page_limit;
    })
    accept_first_directory result
    let base = first_directory s user page_limit now round_expires result
    a ← assemble_bootstrap result base
    render_assembled_page mac s base a now

  unfoldable pub continue_bootstrap : Service → Bytes → Bytes → Time → Result Code Page
  continue_bootstrap s user cursor time = do
    reject (not (valid_identifier user)) forbidden
    now ← current_unix time
    token ← decode_cursor mac s.keys cursor cursor_kind_bootstrap_page user now
    result ← read s user (record {
      kind = bootstrap_read;
      start = false;
      epoch = token.epoch;
      fence = token.fence;
      after_seq = 0;
      after_key = token.after_key;
      terminal_key = token.terminal_key;
      limit = token.limit;
    })
    accept_next_directory result token
    a ← assemble_bootstrap result token
    render_assembled_page mac s token a now

  unfoldable pub begin_delta : Service → Bytes → Bytes → ℤ → Time → Result Code Page
  begin_delta s user checkpoint limit time = do
    reject (not (valid_identifier user)) forbidden
    page_limit ← normalize_limit limit
    now ← current_unix time
    token ← decode_cursor mac s.keys checkpoint cursor_kind_checkpoint user now
    round_expires ← add_seconds now bootstrap_round_lifetime
    result ← read s user (record {
      kind = delta_read;
      start = true;
      epoch = token.epoch;
      fence = token.fence;
      after_seq = token.fence;
      after_key = [];
      terminal_key = [];
      limit = page_limit;
    })
    accept_first_delta result token page_limit
    let base = first_delta s user page_limit now round_expires result token
    a ← assemble_delta result base
    render_assembled_page mac s base a now

  unfoldable pub continue_delta : Service → Bytes → Bytes → Time → Result Code Page
  continue_delta s user cursor time = do
    reject (not (valid_identifier user)) forbidden
    now ← current_unix time
    token ← decode_cursor mac s.keys cursor cursor_kind_delta_page user now
    result ← read s user (record {
      kind = delta_read;
      start = false;
      epoch = token.epoch;
      fence = token.fence;
      after_seq = token.after_seq;
      after_key = [];
      terminal_key = [];
      limit = token.limit;
    })
    accept_next_delta result token
    a ← assemble_delta result token
    render_assembled_page mac s token a now
