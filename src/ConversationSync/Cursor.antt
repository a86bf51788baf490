-- ===== src/ConversationSync/Cursor.antt =====
-- server/sync/conversation/cursor.go: the continuation tokens and what makes one valid.
pub mod Reader
pub mod Valid
use new_im.Common.{
  ℕ, suc, ◌+◌, ◌-◌, ◌≤◌, ◌<◌, ◌≡◌, refl, Bool, true, false, not, ◌&&◌, ◌||◌, List, [], ◌∷◌, Option,
  none, some, Result, ok, err, ◌>>=◌, ◌>>◌, reject, ◌==◌, ltb, leb, if◌then◌else◌, length, arith,
}
use new_im.Bytes.{Bytes, eq_bytes, lt_bytes, nonempty, every, is_identifier_char}
use new_im.ConversationSync.Types.{
  Code, invalid_cursor, cursor_expired, storage_unavailable, Item, max_sequence, max_page_items,
}

abbrev pub cursor_format_version : ℕ
cursor_format_version = 1

abbrev pub cursor_kind_bootstrap_page : ℕ
cursor_kind_bootstrap_page = 1

abbrev pub cursor_kind_delta_page : ℕ
cursor_kind_delta_page = 2

abbrev pub cursor_kind_checkpoint : ℕ
cursor_kind_checkpoint = 3

-- `sha256.Size`.
abbrev pub cursor_tag_size : ℕ
cursor_tag_size = 32

-- 15 minutes, in seconds.
abbrev pub bootstrap_round_lifetime : ℕ
bootstrap_round_lifetime = 900

-- 24 hours, in seconds.
abbrev pub checkpoint_lifetime : ℕ
checkpoint_lifetime = 86400

pub record SyncCursor : Type 0 where
  pub kind : ℕ
  pub key_id : Bytes
  pub account : Bytes
  pub epoch : ℕ
  pub issued : ℕ
  pub expires : ℕ
  pub limit : ℕ
  pub fence : ℕ
  pub after_seq : ℕ
  pub after_key : Bytes
  pub terminal_key : Bytes

pub record CursorPosition : Type 0 where
  pub key : Bytes
  pub seq : ℕ

pub record ItemEnvelope : Type 0 where
  pub item : Item
  pub before : CursorPosition
  pub after : CursorPosition

unfoldable pub is_page : SyncCursor → Bool
is_page c = c.kind == cursor_kind_bootstrap_page || c.kind == cursor_kind_delta_page

unfoldable pub valid_identifier : Bytes → Bool
valid_identifier value =
    not (length value == 0 || ltb 128 (length value)) && every is_identifier_char value

unfoldable pub valid_key_id : Bytes → Bool
valid_key_id value =
    not (length value == 0 || ltb 32 (length value)) && every is_identifier_char value

unfoldable pub valid_optional_identifier : Option Bytes → Bool
valid_optional_identifier none = true
valid_optional_identifier (some value) = valid_identifier value

abbrev pub valid_sequence : ℕ → Bool
valid_sequence value = leb value max_sequence

-- `maxLifetime`, the same in both validations.
unfoldable pub max_lifetime : ℕ → ℕ
max_lifetime kind =
    if not (kind == cursor_kind_checkpoint) then bootstrap_round_lifetime else checkpoint_lifetime

-- The condition on the two directory keys of a bootstrap page, the same in both validations.
unfoldable pub keys_out_of_order : SyncCursor → Bool
keys_out_of_order c =
    if not (nonempty c.terminal_key)
    then nonempty c.after_key
    else not (nonempty c.after_key) || lt_bytes c.terminal_key c.after_key

-- The `switch` of `validateCursorForEncoding`; its kind was checked before.
unfoldable pub position_for_encoding : SyncCursor → Result Code (Unit {0})
position_for_encoding c =
    if c.kind == cursor_kind_bootstrap_page
    then (do
      reject (not (c.after_seq == 0)) invalid_cursor
      reject (nonempty c.after_key && not (valid_identifier c.after_key)) invalid_cursor
      reject (nonempty c.terminal_key && not (valid_identifier c.terminal_key)) invalid_cursor
      reject (keys_out_of_order c) invalid_cursor)
    else if c.kind == cursor_kind_delta_page
    then (do
      reject (nonempty c.after_key || nonempty c.terminal_key) invalid_cursor
      reject (not (valid_sequence c.after_seq) || ltb c.fence c.after_seq) invalid_cursor)
    else reject (not (c.after_seq == 0) || nonempty c.after_key || nonempty c.terminal_key)
        invalid_cursor

-- The checks on epoch, times, limit and fence, the same in both validations.
unfoldable pub check_bounds : SyncCursor → Result Code (Unit {0})
check_bounds c = do
  reject
      (c.epoch == 0
        || not (valid_sequence c.epoch)
        || not (valid_sequence c.issued)
        || not (valid_sequence c.expires)
        || leb c.expires c.issued)
      invalid_cursor
  reject (ltb c.limit 1 || ltb max_page_items c.limit || not (valid_sequence c.fence))
      invalid_cursor

unfoldable pub check_lifetime : SyncCursor → Result Code (Unit {0})
check_lifetime c = reject (ltb (max_lifetime c.kind) (c.expires - c.issued)) invalid_cursor

unfoldable pub validate_cursor_for_encoding : SyncCursor → Result Code (Unit {0})
validate_cursor_for_encoding c = do
  reject
      (not (c.kind == cursor_kind_bootstrap_page)
        && not (c.kind == cursor_kind_delta_page)
        && not (c.kind == cursor_kind_checkpoint))
      invalid_cursor
  reject (not (valid_key_id c.key_id) || not (valid_identifier c.account)) invalid_cursor
  check_bounds c
  position_for_encoding c
  check_lifetime c

-- The `switch` of `validateDecodedCursor`.
unfoldable pub decoded_position : SyncCursor → Result Code (Unit {0})
decoded_position c =
    if c.kind == cursor_kind_bootstrap_page
    then (do
      reject (not (c.after_seq == 0)) invalid_cursor
      reject (keys_out_of_order c) invalid_cursor)
    else if c.kind == cursor_kind_delta_page
    then (do
      reject (nonempty c.after_key || nonempty c.terminal_key) invalid_cursor
      reject (not (valid_sequence c.after_seq) || ltb c.fence c.after_seq) invalid_cursor)
    else if c.kind == cursor_kind_checkpoint
    then reject (not (c.after_seq == 0) || nonempty c.after_key || nonempty c.terminal_key)
        invalid_cursor
    else err invalid_cursor

unfoldable pub validate_decoded_cursor : SyncCursor → Bytes → ℕ → Result Code (Unit {0})
validate_decoded_cursor c account now = do
  reject (not (eq_bytes c.account account)) invalid_cursor
  check_bounds c
  check_lifetime c
  decoded_position c
  reject (ltb max_sequence now) storage_unavailable
  reject (ltb now c.issued) invalid_cursor
  reject (leb c.expires now) cursor_expired
