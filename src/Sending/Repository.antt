-- ===== src/Sending/Repository.antt =====
-- server/storage/message/repository.go: the transaction that stores a message, and
-- server/conversation/authorization.go. What PostgreSQL does with the SQL is a parameter.
use new_im.Common.{
  ℕ, Bool, true, false, not, ◌&&◌, ◌||◌, Option, none, some, ◌==◌, ltb, if◌then◌else◌, length,
  Result, ok, err, ◌>>=◌, ◌>>◌, reject, or_fail,
}
use new_im.Common.Int.{ℤ, pos, ltb_ℤ}
use new_im.Bytes.{Bytes, eq_bytes, every, is_identifier_char}
use new_im.Bytes.Text.{text}
use new_im.Protocol.Types.{ErrorCode, Send}
use new_im.Protocol.Send.{encode_send}
use new_im.Protocol.Intent.{same_intent}
use new_im.Sending.Types.{
  Code, invalid_input, unauthorized, conversation_missing, sequence_exhausted, id_conflict,
  lock_unavailable, storage_unavailable, unknown, SendFailure, Failure, known, foreign, fail,
  Generated, PersistedMessage,
}

-- `Principal.Valid`, and the repository's own check of an identifier.
unfoldable pub valid_principal : Bytes → Bool
valid_principal value =
    not (length value == 0 || ltb 128 (length value)) && every is_identifier_char value

unfoldable pub identifier : Bytes → Bool
identifier value =
    not (length value == 0 || ltb 128 (length value)) && every is_identifier_char value

pub record StoredRow : Type 0 where
  pub server_msg_id : Bytes
  pub client_msg_id : Bytes
  pub sender_id : Bytes
  pub conversation_id : Bytes
  pub conversation_seq : ℤ
  pub protocol_version : ℕ
  pub schema_version : ℕ
  pub message_type : Bytes
  pub server_time : ℤ
  pub payload : Bytes

unfoldable pub intent : StoredRow → Send
intent s = record {
  protocol_version = s.protocol_version;
  client_msg_id = s.client_msg_id;
  conversation_id = s.conversation_id;
  version = s.schema_version;
  type = s.message_type;
  payload = some s.payload;
}

unfoldable pub persisted : StoredRow → PersistedMessage
persisted s = record {
  client_msg_id = s.client_msg_id;
  conversation_id = s.conversation_id;
  sender_id = s.sender_id;
  server_msg_id = s.server_msg_id;
  conversation_seq = s.conversation_seq;
  server_time = s.server_time;
}

-- An error of a statement: one of ours, one that PostgreSQL gives with its code, one of the
-- connection or of the context, or any other.
pub data StorageError : Type 0 where
  ours : Code → StorageError
  postgres : Bytes → StorageError
  connection : StorageError
  other : StorageError

is_one_of : Bytes → Code → Code
is_one_of code rest =
    if eq_bytes code (text "40001")
      || eq_bytes code (text "40P01")
      || eq_bytes code (text "55P03")
      || eq_bytes code (text "57014")
    then lock_unavailable
    else if eq_bytes code (text "08000")
        || eq_bytes code (text "08001")
        || eq_bytes code (text "08003")
        || eq_bytes code (text "08004")
        || eq_bytes code (text "08006")
        || eq_bytes code (text "08007")
        || eq_bytes code (text "57P01")
        || eq_bytes code (text "57P02")
        || eq_bytes code (text "57P03")
    then storage_unavailable
    else rest

unfoldable pub map_storage_error : StorageError → SendFailure
unfolding is_one_of
map_storage_error (ours code) = fail code
map_storage_error (postgres code) = fail (
    if eq_bytes code (text "NI001")
    then conversation_missing
    else if eq_bytes code (text "NI002")
    then sequence_exhausted
    else if eq_bytes code (text "NI003")
    then invalid_input
    else is_one_of code unknown)
map_storage_error connection = fail storage_unavailable
map_storage_error other = fail unknown

unfoldable pub fixed : Failure → SendFailure
fixed (known e) = fail e.code
fixed foreign = fail unknown

unfoldable pub valid_generated : Generated → Bool
valid_generated g =
    identifier g.server_msg_id && identifier g.event_id && not (ltb_ℤ g.server_time (pos 0))

-- The statements of a transaction, on a state of the database. A row is none where the statement
-- finds none. `commit` is the state that the database keeps, or none and the state that it is left
-- with where the commit fails.
pub record Database (S : Type 0) : Type 0 where
  pub begin : S → Result StorageError (Unit {0})
  pub conversation : Bytes → S → Result StorageError (Option Bytes)
  pub member : Bytes → Bytes → S → Result StorageError (Option Bytes)
  pub load : Bytes → Bytes → S → Result StorageError (Option StoredRow)
  pub insert : Bytes → Send → Generated → S → Result StorageError (StoredRow × S)
  pub commit : S → S → Bool × S

unfoldable pub mapped {ℓ} : {A : Type ℓ} → Result StorageError A → Result SendFailure A
mapped (ok a) = ok a
mapped (err e) = err (map_storage_error e)

unfoldable pub fixed_result {ℓ} : {A : Type ℓ} → Result SendFailure A → Result SendFailure A
fixed_result (ok a) = ok a
fixed_result (err e) = err (fixed (known e))

-- An answer of `SameIntent`.
unfoldable pub own_intent : Result ErrorCode Bool → Result SendFailure (Unit {0})
own_intent (ok same) = reject (not same) (fail id_conflict)
own_intent (err _) = err (fail storage_unavailable)

unfoldable pub sendable : Result ErrorCode Bytes → Result SendFailure (Unit {0})
sendable (ok _) = ok tt
sendable (err _) = err (fail invalid_input)

module _ {S : Type 0} (db : Database S) where
  unfoldable pub authorize : Bytes → Bytes → S → Result SendFailure (Unit {0})
  authorize sender conversation_id s = do
    locked ← mapped (db.conversation conversation_id s)
    _ ← or_fail locked (fail conversation_missing)
    member ← mapped (db.member conversation_id sender s)
    _ ← or_fail member (fail unauthorized)
    ok tt

  unfoldable pub load_message : Bytes → Bytes → S → Result SendFailure (Option StoredRow)
  load_message sender client_msg_id s = mapped (db.load sender client_msg_id s)

  -- The row that is there or that was written is the request's own.
  unfoldable pub check_same : StoredRow → Send → Result SendFailure (Unit {0})
  check_same row request = own_intent (same_intent (intent row) request)

  -- What a commit tells the caller: the row, or that it is not known to be kept.
  unfoldable pub told : StoredRow → Bool × S → Result Failure PersistedMessage × S
  told row (true, s) = (ok (persisted row), s)
  told row (false, s) = (err (known (fail storage_unavailable)), s)

  -- The row of the request: the one that is there, or one that is written under new identifiers.
  unfoldable pub row_of :
      Bytes
      → Send
      → Result SendFailure (Unit {0})
      → Result SendFailure Generated
      → S
      → Option StoredRow
      → Result SendFailure (StoredRow × S)
  row_of sender request validated generated s (some row) = ok (row, s)
  row_of sender request validated generated s none = do
    fixed_result validated
    g ← fixed_result generated
    reject (not (valid_generated g)) (fail invalid_input)
    mapped (db.insert sender request g s)

  -- Up to the row, and the state that is to be committed.
  unfoldable pub transact :
      Bytes
      → Send
      → Result SendFailure (Unit {0})
      → Result SendFailure Generated
      → S
      → Result SendFailure (StoredRow × S)
  transact sender request validated generated s = do
    mapped (db.begin s)
    fixed_result (authorize sender request.conversation_id s)
    existing ← load_message sender request.client_msg_id s
    stored ← row_of sender request validated generated s existing
    check_same stored.0 request
    ok stored

  unfoldable pub check_input : Bytes → Send → Result SendFailure (Unit {0})
  check_input sender request = do
    reject (not (valid_principal sender) || not (identifier request.conversation_id))
        (fail invalid_input)
    sendable (encode_send request)

  -- The end of the transaction: the commit, or a rollback where something failed before it.
  unfoldable pub conclude :
      S → Result SendFailure (StoredRow × S) → Result Failure PersistedMessage × S
  conclude s (err e) = (err (known e), s)
  conclude s (ok (row, after)) = told row (db.commit s after)

  unfoldable pub persist :
      Bytes
      → Send
      → Result SendFailure (Unit {0})
      → Result SendFailure Generated
      → S
      → Result Failure PersistedMessage × S
  persist sender request validated generated s =
      conclude s (check_input sender request >> transact sender request validated generated s)
