-- ===== src/ConversationSync/Codec/Payload.antt =====
-- The reader takes an encoder's payload apart again, and a payload is made of bytes.
use new_im.Common.{◌≤◌, ◌<◌, ◌≡◌, true, false, not, ◌&&◌, [], ◌∷◌, length, All, All-append, arith}
use new_im.Bytes.{Bytes, every, is_identifier_char, nonempty}
use new_im.Bytes.BigEndian.{put_uint16, put_uint64, put_uint16-All, put_uint64-All}
use new_im.Bytes.Base64.{}
use new_im.ConversationSync.Cursor.{SyncCursor, valid_identifier, valid_key_id}
use new_im.ConversationSync.Cursor.Reader.{
  Read, pure, uint16, sequence, identifier, identifier_or_empty, done, read_position, read_cursor,
}
use new_im.ConversationSync.Cursor.Reader
use new_im.ConversationSync.Cursor.Valid.{
  IsEncodable, IsBounded, HasPosition, bootstrap, delta, checkpoint, HasPosition-kind,
}
use new_im.ConversationSync.Codec.{put_text, position_payload, fields_payload, cursor_payload}
use new_im.ConversationSync.Codec.Fields.{
  Reads, Reads-pure, Reads-bind, Reads-map, Reads-uint16, Reads-sequence, Reads-identifier,
  Reads-identifier_or_empty, ReadsEnd, ReadsEnd-bind, ReadsEnd-last, ReadsEnd-done,
  valid_identifier-length,
}

Reads-position :
    (c : SyncCursor)
    → IsBounded c
    → HasPosition c
    → Reads (read_position c.kind) (position_payload c) (c.after_seq, c.after_key, c.terminal_key)
unfolding read_position position_payload
Reads-position c b (bootstrap k s a t o) =
    rw (k, s)
      (Reads-bind identifier_or_empty
        (λ after_key.
          Reader.◌>>=◌ identifier_or_empty λ terminal_key. pure (0, after_key, terminal_key))
        (put_text c.after_key) (put_text c.terminal_key) c.after_key
        (0, c.after_key, c.terminal_key) (Reads-identifier_or_empty c.after_key a)
        (Reads-map identifier_or_empty (λ terminal_key. (0, c.after_key, terminal_key))
          (put_text c.terminal_key) c.terminal_key (Reads-identifier_or_empty c.terminal_key t)))
Reads-position c b (delta k a t s) =
    rw (k, a, t)
      (Reads-map sequence (λ after_seq. (after_seq, [], [])) (put_uint64 c.after_seq) c.after_seq
        (Reads-sequence c.after_seq (omega (arith, b.fence_le))))
Reads-position c b (checkpoint k s a t) = rw (k, s, a, t) (Reads-pure (0, [], []))

-- The reader takes the encoder's fields for the cursor that they came from.
pub read_cursor-fields :
    (c : SyncCursor) → IsEncodable c → ReadsEnd (read_cursor c.kind c.key_id) (fields_payload c) c
unfolding read_cursor fields_payload
read_cursor-fields c e =
    let b = e.bounded in
    let (lo, hi) = valid_identifier-length c.account e.account_valid in
    ReadsEnd-bind _ _ (put_text c.account) _ c.account c
      (Reads-identifier c.account hi e.account_valid lo)
      (ReadsEnd-bind _ _ (put_uint64 c.epoch) _ c.epoch c (Reads-sequence c.epoch b.epoch_le) (
        ReadsEnd-bind _ _ (put_uint64 c.issued) _ c.issued c
          (Reads-sequence c.issued (omega (arith, b.expires_le, b.issued_lt)))
          (ReadsEnd-bind _ _ (put_uint64 c.expires) _ c.expires c
            (Reads-sequence c.expires b.expires_le)
            (ReadsEnd-bind _ _ (put_uint16 c.limit) _ c.limit c
              (Reads-uint16 c.limit (omega (arith, b.limit_le)))
              (ReadsEnd-bind _ _ (put_uint64 c.fence) (position_payload c) c.fence c
                (Reads-sequence c.fence b.fence_le)
                (ReadsEnd-last _ _ (position_payload c) (c.after_seq, c.after_key, c.terminal_key) c
                  (Reads-position c b e.position) (ReadsEnd-done c)))))))

every-bytes : (v : Bytes) → every is_identifier_char v ≡ true → All (λ b. b < 256) v
unfolding every is_identifier_char
every-bytes [] h = tt
every-bytes (b ∷ bs) h = (ground arith, every-bytes bs (ground arith))

identifier_bytes : (v : Bytes) → valid_identifier v ≡ true → All (λ b. b < 256) v
unfolding valid_identifier
identifier_bytes v h = every-bytes v (ground arith)

pub valid_key_id-parts :
    (v : Bytes)
    → valid_key_id v ≡ true
    → (every is_identifier_char v ≡ true) × (0 < length v) × (length v ≤ 32)
unfolding valid_key_id
valid_key_id-parts v h = ground arith

put_text-All : (v : Bytes) → All (λ b. b < 256) v → All (λ b. b < 256) (put_text v)
unfolding put_text
put_text-All v h = All-append (λ b. b < 256) (put_uint16 (length v)) v (put_uint16-All (length v)) h

identifier_or_empty_bytes :
    (v : Bytes) → (nonempty v && not (valid_identifier v)) ≡ false → All (λ b. b < 256) v
identifier_or_empty_bytes [] h = tt
identifier_or_empty_bytes (b ∷ bs) h = identifier_bytes (b ∷ bs) (ground arith)

position-All : (c : SyncCursor) → HasPosition c → All (λ b. b < 256) (position_payload c)
unfolding position_payload
position-All c (bootstrap k s a t o) = rw k (
    All-append (λ b. b < 256) (put_text c.after_key) (put_text c.terminal_key)
      (put_text-All c.after_key (identifier_or_empty_bytes c.after_key a))
      (put_text-All c.terminal_key (identifier_or_empty_bytes c.terminal_key t)))
position-All c (delta k a t s) = rw k (put_uint64-All c.after_seq)
position-All c (checkpoint k s a t) = rw k tt

-- Every byte of the payload is a byte.
pub cursor_payload-All : (c : SyncCursor) → IsEncodable c → All (λ b. b < 256) (cursor_payload c)
unfolding cursor_payload fields_payload
cursor_payload-All c e =
    let put = λ (xs ys : Bytes). All-append (λ b. b < 256) xs ys in
    (
      omega arith,
      (
        ground (arith, HasPosition-kind c e.position),
        (
          omega arith,
          put _ _ (every-bytes c.key_id (valid_key_id-parts c.key_id e.key_id_valid).0) (
              put _ _ (put_text-All c.account (identifier_bytes c.account e.account_valid)) (
                put _ _ (put_uint64-All c.epoch) (
                  put _ _ (put_uint64-All c.issued) (
                    put _ _ (put_uint64-All c.expires) (
                      put _ _ (put_uint16-All c.limit)
                        (put _ _ (put_uint64-All c.fence) (position-All c e.position))))))),
        ),
      ),
    )
