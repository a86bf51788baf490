-- ===== src/ConversationSync/Codec/Sound.antt =====
-- What a successful decoding says of the cursor.
use new_im.Common.{
  ℕ, ◌+◌, ◌-◌, ◌≤◌, ◌<◌, ◌≡◌, subst, ◌∙◌, true, some, ok, ◌>>=◌, >>=-eq-ok, length, take, drop,
  arith,
}
use new_im.Bytes.{Bytes, eq_bytes, eq_bytes_sound}
use new_im.Bytes.Base64.{raw_url_encode, raw_url_decode}
use new_im.ConversationSync.Cursor.{
  SyncCursor, cursor_tag_size, cursor_format_version, valid_key_id, validate_decoded_cursor,
  check_bounds, check_lifetime, decoded_position, max_lifetime,
}
use new_im.ConversationSync.Cursor.Reader.{CursorReader, read_cursor, ◌>>=◌ as read_bind}
use new_im.ConversationSync.Cursor.Valid.{IsBounded, check_bounds_sound, check_lifetime_sound}
use new_im.ConversationSync.Codec.{Keys, key_of, open_cursor, decode_cursor, byte_at}

read_cursor-kind :
    (kind : ℕ) (key_id : Bytes) (r r' : CursorReader) (c : SyncCursor)
    → read_cursor kind key_id r ≡ ok (c, r')
    → c.kind ≡ kind
unfolding read_cursor read_bind
read_cursor-kind kind key_id r r' c h = ground arith

-- What holds of a decoded cursor at the time of its decoding.
pub record IsDecoded (kind : ℕ) (account : Bytes) (now : ℕ) (c : SyncCursor) : Type 0 where
  pub kind_same : c.kind ≡ kind
  pub account_same : c.account ≡ account
  pub bounded : IsBounded c
  pub issued_le : c.issued ≤ now
  pub unexpired : now < c.expires
  pub lifetime : c.expires - c.issued ≤ max_lifetime c.kind

validate_decoded_cursor-parts :
    (c : SyncCursor) (account : Bytes) (now : ℕ)
    → validate_decoded_cursor c account now ≡ ok tt
    → (eq_bytes c.account account ≡ true)
      × (check_bounds c ≡ ok tt)
      × (check_lifetime c ≡ ok tt)
      × (decoded_position c ≡ ok tt)
      × (c.issued ≤ now)
      × (now < c.expires)
unfolding validate_decoded_cursor
validate_decoded_cursor-parts c account now h = ground arith

module _ (mac : Bytes → Bytes → Bytes) where
  -- The steps of a successful opening: the frame, the key and the tag, and then the fields.
  pub open_cursor-parts :
      (keys : Keys) (raw : Bytes) (kind : ℕ) (c : SyncCursor)
      → open_cursor mac keys raw kind ≡ ok c
      → let p = take (length raw - cursor_tag_size) raw in
        let n = byte_at p 2 in
        let id = take n (drop 3 p) in
        (key : Bytes) × (key_of keys id ≡ some key)
        × (32 ≤ length key)
        × (eq_bytes (mac key p) (drop (length raw - cursor_tag_size) raw) ≡ true)
        × (byte_at p 0 ≡ cursor_format_version)
        × (byte_at p 1 ≡ kind)
        × (3 + n ≤ length p)
        × (valid_key_id id ≡ true)
        × ((read_cursor kind id (record { payload = p; at = 3 + n }) >>= λ x. ok x.0) ≡ ok c)
  unfolding open_cursor
  open_cursor-parts keys raw kind c h = ground arith

  open_cursor-kind :
      (keys : Keys) (raw : Bytes) (kind : ℕ) (c : SyncCursor)
      → open_cursor mac keys raw kind ≡ ok c
      → c.kind ≡ kind
  open_cursor-kind keys raw kind c h =
      let ((c', r'), e, same) = >>=-eq-ok _ _ (open_cursor-parts keys raw kind c h).8 in
      read_cursor-kind kind _ _ r' c (e ∙ cc same)

  -- The steps of a successful decoding.
  pub decode_cursor-parts :
      (keys : Keys) (encoded : Bytes) (kind : ℕ) (account : Bytes) (now : ℕ) (c : SyncCursor)
      → decode_cursor mac keys encoded kind account now ≡ ok c
      → (raw : Bytes) × (raw_url_decode encoded ≡ some raw)
        × (eq_bytes (raw_url_encode raw) encoded ≡ true)
        × (open_cursor mac keys raw kind ≡ ok c)
        × (validate_decoded_cursor c account now ≡ ok tt)
  unfolding decode_cursor
  decode_cursor-parts keys encoded kind account now c h = ground arith

  pub decode_cursor-IsDecoded :
      (keys : Keys) (encoded : Bytes) (kind : ℕ) (account : Bytes) (now : ℕ) (c : SyncCursor)
      → decode_cursor mac keys encoded kind account now ≡ ok c
      → IsDecoded kind account now c
  decode_cursor-IsDecoded keys encoded kind account now c h =
      let (raw, _, _, opened, valid) = decode_cursor-parts keys encoded kind account now c h in
      let (same, bounds, time, place, from, until) =
        validate_decoded_cursor-parts c account now valid in
      record {
        kind_same = open_cursor-kind keys raw kind c opened;
        account_same = eq_bytes_sound c.account account same;
        bounded = check_bounds_sound c bounds;
        issued_le = from;
        unexpired = until;
        lifetime = check_lifetime_sound c time;
      }

  -- The time of the decoding does not change the cursor.
  pub decode_cursor_same :
      (keys : Keys) (encoded : Bytes) (kind : ℕ) (account : Bytes) (now later : ℕ)
      (c d : SyncCursor)
      → decode_cursor mac keys encoded kind account now ≡ ok c
      → decode_cursor mac keys encoded kind account later ≡ ok d
      → d ≡ c
  decode_cursor_same keys encoded kind account now later c d h k =
      let (raw, r, _, o, _) = decode_cursor-parts keys encoded kind account now c h in
      let (raw', r', _, o', _) = decode_cursor-parts keys encoded kind account later d k in
      let same : raw ≡ raw' = cc in cc (subst (λ x. open_cursor mac keys x kind ≡ ok c) same o)
