-- ===== src/ConversationSync/Codec.antt =====
-- server/sync/conversation/cursor.go: `encodeCursor` and `decodeCursor`. The message
-- authentication code (HMAC-SHA256) is a parameter, a function of the key and the message.
pub mod Fields
pub mod Payload
pub mod RoundTrip
pub mod Sound
use new_im.Common.{
  ℕ, suc, ◌+◌, ◌-◌, ◌%◌, Bool, true, false, not, ◌||◌, List, [], ◌∷◌, ◌++◌, Option, none, some,
  Result, ok, err, ◌>>=◌, ◌>>◌, reject, or_fail, ◌==◌, ltb, leb, if◌then◌else◌, length, take, drop,
  get_elem?,
}
use new_im.Bytes.{Bytes, eq_bytes}
use new_im.Bytes.BigEndian.{put_uint16, put_uint64}
use new_im.Bytes.Base64.{raw_url_encode, raw_url_decode}
use new_im.ConversationSync.Types.{Code, invalid_cursor, storage_unavailable, max_cursor_bytes}
use new_im.ConversationSync.Cursor.{
  SyncCursor, cursor_format_version, cursor_kind_bootstrap_page, cursor_kind_delta_page,
  cursor_kind_checkpoint, cursor_tag_size, valid_key_id, validate_cursor_for_encoding,
  validate_decoded_cursor,
}
use new_im.ConversationSync.Cursor.Reader.{read_cursor}

-- `map[string][]byte`: the signing keys by their ids.
abbrev pub Keys : Type 0
Keys = List (Bytes × Bytes)

unfoldable pub key_of : Keys → Bytes → Option Bytes
key_of [] id = none
key_of ((k, v) ∷ rest) id = if eq_bytes k id then some v else key_of rest id

-- `appendUint16` of a text's length, and the text.
unfoldable pub put_text : Bytes → Bytes
put_text value = put_uint16 (length value) ++ value

-- The `switch` of `encodeCursor`; its kind was checked by the validation.
unfoldable pub position_payload : SyncCursor → Bytes
position_payload c =
    if c.kind == cursor_kind_bootstrap_page
    then put_text c.after_key ++ put_text c.terminal_key
    else if c.kind == cursor_kind_delta_page
    then put_uint64 c.after_seq
    else []

-- What follows the key id.
unfoldable pub fields_payload : SyncCursor → Bytes
fields_payload c =
    put_text c.account
    ++ (put_uint64 c.epoch
        ++ (put_uint64 c.issued
            ++ (put_uint64 c.expires
                ++ (put_uint16 c.limit ++ (put_uint64 c.fence ++ position_payload c)))))

unfoldable pub cursor_payload : SyncCursor → Bytes
cursor_payload c =
    cursor_format_version ∷ c.kind ∷ length c.key_id % 256 ∷ (c.key_id ++ fields_payload c)

-- `payload[i]` at an index that the length checks allow.
abbrev pub byte_at : Bytes → ℕ → ℕ
byte_at bs i = elim (get_elem? bs i) [ none ↦ 0 | some b ↦ b ]

module _ (mac : Bytes → Bytes → Bytes) where
  unfoldable pub encode_cursor : Keys → SyncCursor → Result Code Bytes
  encode_cursor keys c = do
    validate_cursor_for_encoding c
    key ← or_fail (key_of keys c.key_id) storage_unavailable
    reject (ltb (length key) 32) storage_unavailable
    let payload = cursor_payload c
    let encoded = raw_url_encode (payload ++ mac key payload)
    reject (length encoded == 0 || ltb max_cursor_bytes (length encoded)) storage_unavailable
    ok encoded

  -- What `decodeCursor` does with the raw bytes: the frame, the tag, and then the fields.
  unfoldable pub open_cursor : Keys → Bytes → ℕ → Result Code SyncCursor
  open_cursor keys raw kind = do
    let payload = take (length raw - cursor_tag_size) raw
    let tag = drop (length raw - cursor_tag_size) raw
    reject (not (byte_at payload 0 == cursor_format_version) || not (byte_at payload 1 == kind))
        invalid_cursor
    let count = byte_at payload 2
    reject (ltb count 1 || ltb 32 count || ltb (length payload) (3 + count)) invalid_cursor
    let key_id = take count (drop 3 payload)
    reject (not (valid_key_id key_id)) invalid_cursor
    key ← or_fail (key_of keys key_id) invalid_cursor
    reject (ltb (length key) 32) invalid_cursor
    reject (not (eq_bytes (mac key payload) tag)) invalid_cursor
    (c, _) ← read_cursor kind key_id (record { payload = payload; at = 3 + count })
    ok c

  unfoldable pub decode_cursor : Keys → Bytes → ℕ → Bytes → ℕ → Result Code SyncCursor
  decode_cursor keys encoded kind account now = do
    reject (length encoded == 0 || ltb max_cursor_bytes (length encoded)) invalid_cursor
    raw ← or_fail (raw_url_decode encoded) invalid_cursor
    reject (not (eq_bytes (raw_url_encode raw) encoded)) invalid_cursor
    reject (leb (length raw) (cursor_tag_size + 3)) invalid_cursor
    c ← open_cursor keys raw kind
    validate_decoded_cursor c account now
    ok c
