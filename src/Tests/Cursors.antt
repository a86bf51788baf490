-- ===== src/Tests/Cursors.antt =====
-- Cursors of one account, under a toy authentication code.
use new_im.Common.{
  ℕ, zero, suc, ◌%◌, ◌<◌, ◌≡◌, refl, [], ◌∷◌, Result, ok, err, length, replicate, length-replicate,
  All, arith,
}
use new_im.Bytes.{Bytes, eq_bytes, every, is_identifier_char}
use new_im.Bytes.BigEndian.{put_uint16, put_uint64}
use new_im.Bytes.Base64.{raw_url_encode, symbol}
use new_im.Bytes.Text.{text}
use new_im.ConversationSync.Types.{Code}
use new_im.ConversationSync.Cursor.{
  SyncCursor, valid_identifier, valid_key_id, validate_cursor_for_encoding, check_bounds,
  check_lifetime, max_lifetime, position_for_encoding, keys_out_of_order,
}
use new_im.ConversationSync.Codec.{
  Keys, key_of, put_text, position_payload, fields_payload, cursor_payload, encode_cursor,
  decode_cursor,
}
use new_im.ConversationSync.Codec.RoundTrip.{IsMac, decode-encode_cursor}

-- 32 bytes that depend on the message.
abbrev pub toy_mac : Bytes → Bytes → Bytes
toy_mac key message = replicate 32 (length message % 256)

replicate-All : (n b : ℕ) → b < 256 → All (λ c. c < 256) (replicate n b)
replicate-All zero b h = tt
replicate-All (suc n) b h = (h, replicate-All n b h)

pub toy_mac-IsMac : IsMac toy_mac
toy_mac-IsMac = record {
  size = λ key message. length-replicate 32 (length message % 256);
  bytes = λ key message. replicate-All 32 (length message % 256) (omega arith);
}

abbrev pub keys : Keys
keys = (text "k1", replicate 32 7) ∷ []

abbrev pub delta_cursor : SyncCursor
delta_cursor = record {
  kind = 2;
  key_id = text "k1";
  account = text "ann";
  epoch = 1;
  issued = 1000;
  expires = 1900;
  limit = 2;
  fence = 3;
  after_seq = 2;
  after_key = [];
  terminal_key = [];
}

abbrev pub ok_or {ℓ} : {A : Type ℓ} → A → Result Code A → A
ok_or d (ok a) = a
ok_or d (err _) = d

unfoldable pub encoded : Result Code Bytes
unfolding encode_cursor validate_cursor_for_encoding valid_identifier valid_key_id every
    is_identifier_char check_bounds check_lifetime max_lifetime position_for_encoding
    keys_out_of_order key_of eq_bytes put_text position_payload fields_payload cursor_payload
    put_uint16 put_uint64 raw_url_encode symbol
encoded = encode_cursor toy_mac keys delta_cursor

decode-encode_cursor_example :
    decode_cursor toy_mac keys (ok_or [] encoded) 2 (text "ann") 1500 ≡ ok delta_cursor
unfolding encoded
decode-encode_cursor_example =
    decode-encode_cursor toy_mac toy_mac-IsMac keys delta_cursor (ok_or [] encoded) 1500 refl
      (omega arith) (omega arith)
