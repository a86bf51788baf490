-- ===== src/ConversationSync/Validate.antt =====
-- server/sync/conversation/service.go: the checks on limits, times and on what the store answers.
use new_im.Common.{
  ℕ, ◌+◌, ◌-◌, Bool, true, false, not, ◌&&◌, ◌||◌, List, [], ◌∷◌, Option, none, some, Result, ok,
  err, ◌>>=◌, ◌>>◌, reject, ◌==◌, ltb, leb, if◌then◌else◌, length,
}
use new_im.Common.Int.{ℤ, pos, ltb_ℤ, eqb_ℤ, pos_part}
use new_im.Bytes.{Bytes, eq_bytes, lt_bytes, nonempty}
use new_im.ConversationSync.Types.{
  Code, no_code, invalid_cursor, limit_exceeded, storage_unavailable, Failure, error_code,
  max_sequence, max_directory_candidates, max_page_items, Item, ItemKind, upsert, remove, other,
  Candidate, ReadResult,
}
use new_im.ConversationSync.Cursor.{valid_identifier, valid_optional_identifier, valid_sequence}

unfoldable pub normalize_limit : ℤ → Result Code ℕ
normalize_limit limit =
    if eqb_ℤ limit (pos 0)
    then ok max_page_items
    else if ltb_ℤ limit (pos 1) || ltb_ℤ (pos max_page_items) limit
    then err limit_exceeded
    else ok (pos_part limit)

-- A reading of the clock: Go's zero time or not, and the Unix seconds.
pub record Time : Type 0 where
  pub is_zero : Bool
  pub unix : ℤ

unfoldable pub current_unix : Time → Result Code ℕ
current_unix now = do
  reject now.is_zero storage_unavailable
  reject (ltb_ℤ now.unix (pos 0) || ltb max_sequence (pos_part now.unix)) storage_unavailable
  ok (pos_part now.unix)

unfoldable pub add_seconds : ℕ → ℕ → Result Code ℕ
add_seconds now seconds =
    if ltb max_sequence now || ltb max_sequence seconds || ltb (max_sequence - seconds) now
    then err storage_unavailable
    else ok (now + seconds)

unfoldable pub redact_error : Failure → Code
unfolding error_code
redact_error f = elim (error_code f) [ no_code ↦ storage_unavailable | c ↦ c ]

unfoldable pub validate_common_read_result : ReadResult → Result Code (Unit {0})
validate_common_read_result r = do
  reject
      (r.epoch == 0
        || not (valid_sequence r.epoch)
        || not (valid_sequence r.head)
        || not (valid_sequence r.floor)
        || not (valid_sequence r.fence))
      storage_unavailable
  reject (ltb r.head r.floor) storage_unavailable
  reject (nonempty r.terminal_key && not (valid_identifier r.terminal_key)) storage_unavailable

-- The `switch` of `validateItem`.
unfoldable pub validate_kind : ItemKind → Option ℕ → Option Bytes → Result Code (Unit {0})
validate_kind upsert (some seq) id =
    reject (not (valid_sequence seq) || not (valid_optional_identifier id)) storage_unavailable
validate_kind upsert none id = err storage_unavailable
validate_kind remove none none = ok tt
validate_kind remove _ _ = err storage_unavailable
validate_kind (other _) _ _ = err storage_unavailable

unfoldable pub validate_item : Item → Result Code (Unit {0})
validate_item item = do
  reject
      (not (valid_identifier item.conversation_id)
        || item.revision == 0
        || not (valid_sequence item.revision))
      storage_unavailable
  validate_kind item.kind item.latest_conversation_seq item.latest_server_msg_id

-- `candidate.Latest`, if there is one, is an item of the candidate's conversation.
unfoldable pub validate_latest : Bytes → Option Item → Result Code (Unit {0})
validate_latest key none = ok tt
validate_latest key (some item) = do
  validate_item item
  reject (not (eq_bytes item.conversation_id key)) storage_unavailable

-- `candidate.State` in a directory: an item of the conversation up to the fence; without one there
-- is no membership and no later projection.
unfoldable pub validate_directory_state : ℕ → Candidate → Option Item → Result Code (Unit {0})
validate_directory_state fence c (some item) = do
  validate_item item
  reject (not (eq_bytes item.conversation_id c.key) || ltb fence item.revision) storage_unavailable
validate_directory_state fence c none =
    reject (c.member || elim c.latest [ none ↦ false | some _ ↦ true ]) storage_unavailable

-- The loop of `validateBootstrapCandidates`, with `previous`, which it answers at its end.
unfoldable pub validate_directory : ℕ → Bytes → Bytes → List Candidate → Result Code Bytes
validate_directory fence terminal previous [] = ok previous
validate_directory fence terminal previous (c ∷ cs) = do
  reject (not (valid_identifier c.key) || not (lt_bytes previous c.key)) storage_unavailable
  reject (nonempty terminal && lt_bytes terminal c.key) storage_unavailable
  validate_directory_state fence c c.state
  validate_latest c.key c.latest
  validate_directory fence terminal c.key cs

unfoldable pub no_candidates : List Candidate → Bool
no_candidates [] = true
no_candidates (_ ∷ _) = false

-- The checks behind the loop, where the terminal key is not empty.
unfoldable pub validate_exhausted : ReadResult → Bytes → Bytes → Result Code (Unit {0})
validate_exhausted r terminal previous =
    if r.directory_exhausted
    then reject (not (eq_bytes previous terminal)) storage_unavailable
    else reject (no_candidates r.candidates) storage_unavailable

unfoldable pub validate_bootstrap_candidates : ReadResult → Bytes → Bytes → Result Code (Unit {0})
validate_bootstrap_candidates r after terminal = do
  reject (ltb max_directory_candidates (length r.candidates)) storage_unavailable
  reject (nonempty after && not (valid_identifier after)) invalid_cursor
  reject (nonempty terminal && not (valid_identifier terminal)) invalid_cursor
  if not (nonempty terminal)
      then reject
          (not (no_candidates r.candidates) || not r.directory_exhausted || not (r.fence == 0))
          storage_unavailable
      else (do
        previous ← validate_directory r.fence terminal after r.candidates
        validate_exhausted r terminal previous)

-- The loop of `validateDeltaCandidates`, with `previous`, which it answers at its end.
unfoldable pub validate_revisions : ℕ → ℕ → List Candidate → Result Code ℕ
validate_revisions fence previous [] = ok previous
validate_revisions fence previous (c ∷ cs) = elim c.state [
  | none ↦ err storage_unavailable
  | some item ↦ do
    reject (not (valid_identifier c.key)) storage_unavailable
    validate_item item
    reject (not (eq_bytes item.conversation_id c.key) || ltb fence item.revision)
        storage_unavailable
    reject (previous == max_sequence || not (item.revision == previous + 1)) storage_unavailable
    validate_latest c.key c.latest
    validate_revisions fence item.revision cs
]

unfoldable pub validate_delta_candidates : ReadResult → ℕ → ℕ → ℕ → Result Code (Unit {0})
validate_delta_candidates r after fence limit = do
  reject (ltb (limit + 1) (length r.candidates) || nonempty r.terminal_key || ltb fence after)
      storage_unavailable
  previous ← validate_revisions fence after r.candidates
  reject (leb (length r.candidates) limit && not (previous == fence)) storage_unavailable
