-- ===== src/ConversationSync/Cursor/Reader.antt =====
-- server/sync/conversation/cursor.go: `cursorReader`, which walks a payload by an index.
use new_im.Common.{
  ℕ, ◌+◌, Bool, true, false, not, ◌&&◌, ◌||◌, [], Result, ok, err, ◌==◌, ltb, length, take, drop,
  if◌then◌else◌,
}
use new_im.Bytes.{Bytes, nonempty}
use new_im.Bytes.BigEndian.{get_be}
use new_im.ConversationSync.Types.{Code, invalid_cursor}
use new_im.ConversationSync.Cursor.{
  SyncCursor, valid_identifier, valid_sequence, cursor_kind_bootstrap_page, cursor_kind_delta_page,
  cursor_kind_checkpoint,
}

pub record CursorReader : Type 0 where
  pub payload : Bytes
  pub at : ℕ

-- A method of the reader: its result and the reader after it, or its error.
abbrev pub Read : Type 0 → Type 0
Read A = CursorReader → Result Code (A × CursorReader)

infixl 5 ◌>>=◌ ◌>>◌
unfoldable pub ◌>>=◌ : {A B : Type 0} → Read A → (A → Read B) → Read B
◌>>=◌ m f r = elim (m r) [ ok (a, r') ↦ f a r' | err e ↦ err e ]

abbrev pub ◌>>◌ : {B : Type 0} → Read (Unit {0}) → Read B → Read B
m >> k = m >>= λ _. k

abbrev pub pure : {A : Type 0} → A → Read A
pure a r = ok (a, r)

abbrev pub reject : Bool → Code → Read (Unit {0})
reject true e r = err e
reject false e r = ok (tt, r)

-- `r.at+n > len(r.payload)`.
abbrev pub short : ℕ → Read Bool
short n r = ok (ltb (length r.payload) (r.at + n), r)

-- `r.payload[r.at : r.at+n]`, and `r.at += n`.
abbrev pub slice : ℕ → Read Bytes
slice n r = ok (take n (drop r.at r.payload), record r { at = r.at + n })

unfoldable pub uint16 : Read ℕ
unfolding ◌>>=◌
uint16 = do missing ← short 2; reject missing invalid_cursor; bytes ← slice 2; pure (get_be bytes)

unfoldable pub sequence : Read ℕ
unfolding ◌>>=◌
sequence = do
  missing ← short 8
  reject missing invalid_cursor
  bytes ← slice 8
  reject (not (valid_sequence (get_be bytes))) invalid_cursor
  pure (get_be bytes)

unfoldable pub identifier : Read Bytes
unfolding ◌>>=◌
identifier = do
  count ← uint16
  missing ← short count
  reject (count == 0 || ltb 128 count || missing) invalid_cursor
  value ← slice count
  reject (not (valid_identifier value)) invalid_cursor
  pure value

unfoldable pub identifier_or_empty : Read Bytes
unfolding ◌>>=◌
identifier_or_empty = do
  count ← uint16
  missing ← short count
  reject (ltb 128 count || missing) invalid_cursor
  value ← slice count
  reject (nonempty value && not (valid_identifier value)) invalid_cursor
  pure value

unfoldable pub done : Read (Unit {0})
done r = reject (not (r.at == length r.payload)) invalid_cursor r

-- The three position fields that the `switch` of `decodeCursor` reads: `afterSeq`, `afterKey` and
-- `terminalKey`.
unfoldable pub read_position : ℕ → Read (ℕ × Bytes × Bytes)
read_position kind =
    if kind == cursor_kind_bootstrap_page
    then (do
      after_key ← identifier_or_empty
      terminal_key ← identifier_or_empty
      pure (0, after_key, terminal_key))
    else if kind == cursor_kind_delta_page
    then (do after_seq ← sequence; pure (after_seq, [], []))
    else if kind == cursor_kind_checkpoint
    then pure (0, [], [])
    else (λ r. err invalid_cursor)

-- The reads of `decodeCursor` behind the key id, `reader.done` included.
unfoldable pub read_cursor : ℕ → Bytes → Read SyncCursor
read_cursor kind key_id = do
  account ← identifier
  epoch ← sequence
  issued ← sequence
  expires ← sequence
  limit ← uint16
  fence ← sequence
  position ← read_position kind
  done
  pure (record {
    kind = kind;
    key_id = key_id;
    account = account;
    epoch = epoch;
    issued = issued;
    expires = expires;
    limit = limit;
    fence = fence;
    after_seq = position.0;
    after_key = position.1;
    terminal_key = position.2;
  })
