-- ===== src/ConversationSync/Codec/RoundTrip.antt =====
-- An encoded cursor is decoded to itself, in its lifetime and for its account.
use new_im.Common.{
  ℕ, ◌+◌, ◌-◌, ◌≤◌, ◌<◌, ◌≡◌, refl, sym, ◌∙◌, false, ◌||◌, ◌++◌, some, ok, >>=-eq-ok, reject-eq-ok,
  or_fail-eq-ok, ◌==◌, ltb, length, take, drop, take-append, drop-append, drop-drop, length-append,
  All, All-append, arith,
}
use new_im.Bytes.{Bytes, eq_bytes_refl}
use new_im.Bytes.Base64.{raw_url_encode, decode-encode}
use new_im.ConversationSync.Types.{storage_unavailable, max_cursor_bytes}
use new_im.ConversationSync.Cursor.{SyncCursor, validate_cursor_for_encoding}
use new_im.ConversationSync.Cursor.Reader.{read_cursor}
use new_im.ConversationSync.Cursor.Valid.{
  IsEncodable, validate_cursor_for_encoding_sound, validate_decoded_cursor_complete,
}
use new_im.ConversationSync.Codec.{
  Keys, key_of, fields_payload, cursor_payload, encode_cursor, open_cursor, decode_cursor, byte_at,
}
use new_im.ConversationSync.Codec.Payload.{
  read_cursor-fields, valid_key_id-parts, cursor_payload-All,
}

-- What is known of HMAC-SHA256: its tags are 32 bytes.
pub record IsMac (mac : Bytes → Bytes → Bytes) : Type 0 where
  pub size : (key message : Bytes) → length (mac key message) ≡ 32
  pub bytes : (key message : Bytes) → All (λ b. b < 256) (mac key message)

read_cursor-payload :
    (c : SyncCursor)
    → IsEncodable c
    → read_cursor c.kind c.key_id (record { payload = cursor_payload c; at = 3 + length c.key_id })
      ≡ ok (c, record { payload = cursor_payload c; at = length (cursor_payload c) })
unfolding cursor_payload
read_cursor-payload c e =
    read_cursor-fields c e (cursor_payload c) (3 + length c.key_id)
      (sym (drop-drop 3 (length c.key_id) (cursor_payload c))
        ∙ drop-append c.key_id (fields_payload c))
      (omega (arith, length-append c.key_id (fields_payload c)))

payload_frame :
    (c : SyncCursor)
    → length c.key_id ≤ 32
    → (byte_at (cursor_payload c) 0 ≡ 1)
      × (byte_at (cursor_payload c) 1 ≡ c.kind)
      × (byte_at (cursor_payload c) 2 ≡ length c.key_id)
      × (take (length c.key_id) (drop 3 (cursor_payload c)) ≡ c.key_id)
      × (3 + length c.key_id ≤ length (cursor_payload c))
unfolding cursor_payload
payload_frame c h = (
  refl,
  refl,
  omega arith,
  take-append c.key_id (fields_payload c),
  omega (arith, length-append c.key_id (fields_payload c)),
)

module _ (mac : Bytes → Bytes → Bytes) (law : IsMac mac) where
  framed : (key p : Bytes) → length (p ++ mac key p) - 32 ≡ length p
  framed key p = omega (arith, length-append p (mac key p), law.size key p)

  open_cursor-payload :
      (keys : Keys) (c : SyncCursor) (key : Bytes)
      → IsEncodable c
      → key_of keys c.key_id ≡ some key
      → ltb (length key) 32 ≡ false
      → open_cursor mac keys (cursor_payload c ++ mac key (cursor_payload c)) c.kind ≡ ok c
  unfolding open_cursor
  open_cursor-payload keys c key e found long =
      let p = cursor_payload c in
      rw (framed key p, take-append p (mac key p), drop-append p (mac key p))
        (let (known, lo, hi) = valid_key_id-parts c.key_id e.key_id_valid in
          let (version, kind, count, id, fits) = payload_frame c hi in
          rw (version, kind, count, id)
            (ground (arith, lo, hi, fits, eq_bytes_refl (mac key p), read_cursor-payload c e)))

  -- What a successful encoding went through.
  pub encode_cursor-parts :
      (keys : Keys) (c : SyncCursor) (encoded : Bytes)
      → encode_cursor mac keys c ≡ ok encoded
      → (validate_cursor_for_encoding c ≡ ok tt)
        × ((key : Bytes) × (key_of keys c.key_id ≡ some key)
            × (ltb (length key) 32 ≡ false)
            × (encoded ≡ raw_url_encode (cursor_payload c ++ mac key (cursor_payload c)))
            × ((length encoded == 0 || ltb max_cursor_bytes (length encoded)) ≡ false))
  unfolding encode_cursor
  encode_cursor-parts keys c encoded h =
      let (_, valid, h1) = >>=-eq-ok (validate_cursor_for_encoding c) _ h in
      let (key, found, h2) = or_fail-eq-ok (key_of keys c.key_id) storage_unavailable _ h1 in
      let (long, h3) = reject-eq-ok (ltb (length key) 32) storage_unavailable _ h2 in
      (valid, (key, found, long, ground arith, ground arith))

  decode_cursor-payload :
      (keys : Keys) (c : SyncCursor) (key encoded : Bytes) (now : ℕ)
      → IsEncodable c
      → key_of keys c.key_id ≡ some key
      → ltb (length key) 32 ≡ false
      → raw_url_encode (cursor_payload c ++ mac key (cursor_payload c)) ≡ encoded
      → (length encoded == 0 || ltb max_cursor_bytes (length encoded)) ≡ false
      → c.issued ≤ now
      → now < c.expires
      → decode_cursor mac keys encoded c.kind c.account now ≡ ok c
  unfolding decode_cursor
  decode_cursor-payload keys c key encoded now e found long form size from until =
      let p = cursor_payload c in
      let decoded =
        decode-encode (p ++ mac key p)
          (All-append (λ b. b < 256) p (mac key p) (cursor_payload-All c e) (law.bytes key p)) in
      rw (size, ← form, decoded, eq_bytes_refl (raw_url_encode (p ++ mac key p)))
        (ground (
          arith,
          length-append p (mac key p),
          law.size key p,
          (valid_key_id-parts c.key_id e.key_id_valid).1,
          (valid_key_id-parts c.key_id e.key_id_valid).2,
          (payload_frame c (valid_key_id-parts c.key_id e.key_id_valid).2).4,
          open_cursor-payload keys c key e found long,
          validate_decoded_cursor_complete c now e from until,
        ))

  -- For a message authentication code with tags of 32 bytes: a cursor that `encodeCursor` accepts
  -- is decoded to itself by `decodeCursor`, at any time from its issue until it expires, for its
  -- own account and kind.
  pub decode-encode_cursor :
      (keys : Keys) (c : SyncCursor) (encoded : Bytes) (now : ℕ)
      → encode_cursor mac keys c ≡ ok encoded
      → c.issued ≤ now
      → now < c.expires
      → decode_cursor mac keys encoded c.kind c.account now ≡ ok c
  decode-encode_cursor keys c encoded now h from until =
      let (valid, (key, found, long, form, size)) = encode_cursor-parts keys c encoded h in
      decode_cursor-payload keys c key encoded now (validate_cursor_for_encoding_sound c valid)
        found long (sym form) size from until
