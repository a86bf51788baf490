-- ===== src/MessageSync/Service.antt =====
-- server/sync/message/service.go. The context (a deadline for the store) and the observer (which
-- changes no answer) are left out. The lengths that are added up as `int` are numbers here: they
-- stay far below 2 ^ 63.
use new_im.Common.{
  ℕ, zero, suc, ◌+◌, Bool, true, false, not, ◌&&◌, ◌||◌, List, [], ◌∷◌, ◌++◌, Option, none, some,
  Result, ok, err, ◌>>=◌, ◌>>◌, reject, ◌==◌, ltb, if◌then◌else◌, length, take,
}
use new_im.Common.Int.{ℤ, pos, negsuc, ltb_ℤ, eqb_ℤ, pos_part}
use new_im.Bytes.{Bytes, eq_bytes, every, is_identifier_char, is_hex_char, is_lower, is_digit}
use new_im.AuthSession.Identity.{ConnectionIdentity}
use new_im.MessageSync.Types.{
  Code, forbidden, invalid_cursor, limit_exceeded, storage_unavailable, Failure, coded, foreign,
  max_page_items, max_response_bytes, page_overhead, item_overhead, max_sequence, ReadRequest, Item,
  Page, ReadResult, Store,
}

unfoldable pub identifier : Bytes → Bool
identifier value =
    not (length value == 0 || ltb 128 (length value)) && every is_identifier_char value

-- `(c >= 'a' && c <= 'z') || (c >= '0' && c <= '9') || c == '_'`.
unfoldable pub is_type_char : ℕ → Bool
is_type_char c = is_lower c || is_digit c || c == b'_'

-- `messageType`.
unfoldable pub valid_message_type : Bytes → Bool
valid_message_type [] = false
valid_message_type (c ∷ cs) =
    not (ltb 64 (length (c ∷ cs)) || not (is_lower c)) && every is_type_char cs

unfoldable pub valid_identity : ConnectionIdentity → Bool
valid_identity i =
    not (
      not (identifier i.user_id)
      || not (identifier i.device_id)
      || not (identifier i.session_id)
      || not (identifier i.connection_id))
    && length i.token_id == 32
    && every is_hex_char i.token_id

unfoldable pub item_cost : Item → ℕ
item_cost item =
    length item.payload
    + length item.server_msg_id
    + length item.client_msg_id
    + length item.sender_id
    + length item.conversation_id
    + length item.message_type
    + item_overhead

-- `seq + 1` on `int64`.
unfoldable pub next_int64 : ℤ → ℤ
next_int64 (pos n) = if n == max_sequence then negsuc max_sequence else pos (suc n)
next_int64 (negsuc zero) = pos 0
next_int64 (negsuc (suc n)) = negsuc n

-- A row in itself, in the loop of `validateRows`.
unfoldable pub bad_row : Item → Bool
bad_row row =
    row.protocol_version == 0
    || ltb 2147483647 row.protocol_version
    || row.schema_version == 0
    || ltb 2147483647 row.schema_version
    || not (valid_message_type row.message_type)
    || ltb_ℤ row.server_time (pos 0)
    || ltb (length row.payload) 2
    || ltb 65536 (length row.payload)

unfoldable pub bad_ids : ReadRequest → Item → Bool
bad_ids request row =
    not (eq_bytes row.conversation_id request.conversation_id)
    || not (identifier row.server_msg_id)
    || not (identifier row.client_msg_id)
    || not (identifier row.sender_id)
    || not (identifier row.conversation_id)

-- `i > 0 && row.ConversationSeq != result.Rows[i-1].ConversationSeq+1`.
unfoldable pub breaks_run : Option ℤ → ℤ → Bool
breaks_run none seq = false
breaks_run (some previous) seq = not (eqb_ℤ seq (next_int64 previous))

-- The loop of `validateRows`, with the sequence number of the row before.
unfoldable pub validate_each : ReadRequest → ℤ → Option ℤ → List Item → Result Code (Unit {0})
validate_each request latest previous [] = ok tt
validate_each request latest previous (row ∷ rows) = do
  reject (bad_ids request row) storage_unavailable
  reject (not (ltb_ℤ request.after_seq row.conversation_seq) || ltb_ℤ latest row.conversation_seq)
      storage_unavailable
  reject (bad_row row) storage_unavailable
  reject (breaks_run previous row.conversation_seq) storage_unavailable
  validate_each request latest (some row.conversation_seq) rows

-- `expected`.
unfoldable pub expected_first : ReadRequest → Result Code ℤ
expected_first request =
    if request.has_after_seq && ltb_ℤ (pos 0) request.after_seq
    then (if eqb_ℤ request.after_seq (pos max_sequence)
        then err storage_unavailable
        else ok (next_int64 request.after_seq))
    else ok (pos 1)

-- No rows: there is nothing behind the position.
unfoldable pub validate_empty : ReadRequest → ℤ → Result Code (Unit {0})
validate_empty request latest =
    if not request.has_after_seq
    then reject (not (eqb_ℤ latest (pos 0))) storage_unavailable
    else reject (not (eqb_ℤ request.after_seq latest)) storage_unavailable

unfoldable pub validate_rows : ReadRequest → ReadResult → Result Code (Unit {0})
validate_rows request result = elim result.rows [
  | [] ↦ validate_empty request result.latest_seq
  | row ∷ rows ↦ do
    validate_each request result.latest_seq none (row ∷ rows)
    expected ← expected_first request
    reject (not (eqb_ℤ row.conversation_seq expected)) storage_unavailable
]

-- The loop that takes rows while the budget lasts; with whether it stopped at the budget.
unfoldable pub fill : List Item → ℕ → List Item → Result Code (List Item × Bool)
fill items used [] = ok (items, false)
fill items used (row ∷ rows) =
    let cost = item_cost row in
    let rest = fill (items ++ row ∷ []) (used + cost) rows in
    if ltb max_response_bytes (used + cost)
    then (if length items == 0 then err limit_exceeded else ok (items, true))
    else rest

-- `items[len(items)-1].ConversationSeq`, where there are items.
unfoldable pub last_seq : List Item → Option ℤ
last_seq [] = none
last_seq (item ∷ []) = some item.conversation_seq
last_seq (item ∷ next ∷ items) = last_seq (next ∷ items)

-- The bounds on what the store answers, and the check of the request's position.
unfoldable pub check_position : ReadRequest → ReadResult → Result Code (Unit {0})
check_position request result = do
  reject
      (ltb_ℤ result.latest_seq (pos 0)
        || ltb_ℤ (pos max_sequence) result.latest_seq
        || ltb_ℤ result.limit (pos 1)
        || ltb_ℤ (pos max_page_items) result.limit
        || ltb (pos_part result.limit + 1) (length result.rows))
      storage_unavailable
  if not request.has_after_seq
      then reject (not (eqb_ℤ request.after_seq (pos 0))) invalid_cursor
      else reject (ltb_ℤ request.after_seq (pos 0) || ltb_ℤ result.latest_seq request.after_seq)
          invalid_cursor

unfoldable pub assemble : ReadRequest → ReadResult → Result Code Page
assemble request result = do
  check_position request result
  validate_rows request result
  let limit = pos_part result.limit
  let cut = ltb limit (length result.rows)
  let rows = if cut then take limit result.rows else result.rows
  (items, stopped) ← fill [] page_overhead rows
  let left_over = ltb (length items) (length rows) && ltb 0 (length items)
  ok (record {
    items = items;
    latest_seq = result.latest_seq;
    has_next = cut || stopped || left_over;
    next_after_seq = last_seq items;
  })

unfoldable pub redact : Failure → Code
redact (coded code) = code
redact foreign = storage_unavailable

-- What the service makes of the store's answer.
unfoldable pub answer : ReadRequest → Result Failure ReadResult → Result Code Page
answer request (err failure) = err (redact failure)
answer request (ok result) = assemble request result

unfoldable pub read_after_seq : Store → ConnectionIdentity → ReadRequest → Result Code Page
read_after_seq store identity request = do
  reject (not (valid_identity identity) || not (identifier request.conversation_id)) forbidden
  answer request (store identity.user_id request)
