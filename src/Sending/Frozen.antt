-- ===== src/Sending/Frozen.antt =====
-- Errors that carry the disposition of their code (server/message, server/storage/message).
use new_im.Common.{
  ◌≡◌, refl, Option, none, some, or_fail, not, ◌||◌, Bool, true, false, Option, Result, ok, err,
  ◌>>=◌, ◌>>◌, reject,
}
use new_im.Bytes.{Bytes}
use new_im.AuthSession.Identity.{ConnectionIdentity}
use new_im.Protocol.Types.{ErrorCode, RetryDisposition, Send, Ack}
use new_im.Protocol.Send.{encode_send, encode_server_frame}
use new_im.Protocol.Intent.{same_intent}
use new_im.Sending.Types.{
  Code, no_code, invalid_input, unauthorized, conversation_missing, sequence_exhausted, id_conflict,
  lock_unavailable, storage_unavailable, unknown, SendFailure, Failure, known, foreign, fail,
  disposition_for, error_code, retry_disposition, Generated, PersistedMessage,
}
use new_im.Sending.Service.{
  redacted, redacted_error, valid_identity, as_invalid, ack_of, ack_frame, framed, answer_of,
  check_request, answered,
}
use new_im.Sending.Repository.{
  StoredRow, intent, own_intent, sendable, StorageError, ours, postgres, connection, other,
  Database, mapped, map_storage_error, fixed, fixed_result, valid_principal, identifier,
  valid_generated, authorize, load_message, check_same, row_of, transact, check_input, told,
  conclude,
}

-- The disposition that goes with the code.
abbrev pub IsFrozen : SendFailure → Type 0
IsFrozen e = e.disposition ≡ disposition_for e.code

abbrev pub Frozen {ℓ} : {A : Type ℓ} → Result SendFailure A → Type 0
Frozen (ok a) = Unit
Frozen (err e) = IsFrozen e

pub fail-IsFrozen : (code : Code) → IsFrozen (fail code)
unfolding fail
fail-IsFrozen code = refl

abbrev pub AsFrozen {ℓ} : {A : Type ℓ} → Result Failure A → Type 0
AsFrozen (ok a) = Unit
AsFrozen (err (known e)) = IsFrozen e
AsFrozen (err foreign) = Unit

redacted_code :
    (code : Code) (disposition : RetryDisposition)
    → disposition ≡ disposition_for code
    → disposition ≡ disposition_for (elim code [ no_code ↦ unknown | code ↦ code ])
unfolding disposition_for
redacted_code no_code disposition h = h
redacted_code invalid_input disposition h = h
redacted_code unauthorized disposition h = h
redacted_code conversation_missing disposition h = h
redacted_code sequence_exhausted disposition h = h
redacted_code id_conflict disposition h = h
redacted_code lock_unavailable disposition h = h
redacted_code storage_unavailable disposition h = h
redacted_code unknown disposition h = h

framed-Frozen : (a : Ack) (r : Result ErrorCode Bytes) → Frozen (framed a r)
unfolding framed fail
framed-Frozen a (ok wire) = tt
framed-Frozen a (err code) = refl

module _ {ℓ} {A : Type ℓ} where
  Frozen->>= {κ} :
      {B : Type κ} (m : Result SendFailure A) (f : A → Result SendFailure B)
      → Frozen m
      → ((a : A) → Frozen (f a))
      → Frozen (m >>= f)
  Frozen->>= (ok a) f h k = k a
  Frozen->>= (err e) f h k = h

  mapped-Frozen : (r : Result StorageError A) → Frozen (mapped r)
  unfolding mapped map_storage_error fail
  mapped-Frozen (ok a) = tt
  mapped-Frozen (err (ours code)) = refl
  mapped-Frozen (err (postgres code)) = refl
  mapped-Frozen (err connection) = refl
  mapped-Frozen (err other) = refl

  fixed_result-Frozen : (r : Result SendFailure A) → Frozen (fixed_result r)
  unfolding fixed_result fixed fail
  fixed_result-Frozen (ok a) = tt
  fixed_result-Frozen (err e) = refl

  as_invalid-Frozen : {E : Type 0} (r : Result E A) → Frozen (as_invalid r)
  unfolding as_invalid fail
  as_invalid-Frozen (ok a) = tt
  as_invalid-Frozen (err e) = refl

  or_fail-Frozen : (o : Option A) (code : Code) → Frozen (or_fail o (fail code))
  or_fail-Frozen (some a) code = tt
  or_fail-Frozen none code = fail-IsFrozen code

  redacted-Frozen : (r : Result Failure A) → AsFrozen r → Frozen (redacted r)
  unfolding redacted redacted_error error_code retry_disposition disposition_for
  redacted-Frozen (ok a) h = tt
  redacted-Frozen (err foreign) h = refl
  redacted-Frozen (err (known e)) h = redacted_code e.code e.disposition h

reject-Frozen : (test : Bool) (code : Code) → Frozen (reject test (fail code))
reject-Frozen true code = fail-IsFrozen code
reject-Frozen false code = tt

pub check_request-Frozen :
    (identity : ConnectionIdentity) (request : Send) → Frozen (check_request identity request)
unfolding check_request
check_request-Frozen identity request =
    Frozen->>= (reject (not (valid_identity identity)) (fail invalid_input)) _ (reject-Frozen _ _)
      (λ _.
        Frozen->>= (as_invalid (encode_send request)) _ (as_invalid-Frozen (encode_send request))
          (λ _. tt))

answer_of-Frozen :
    (identity : ConnectionIdentity) (request : Send) (p : PersistedMessage)
    → Frozen (answer_of identity request p)
unfolding answer_of
answer_of-Frozen identity request p =
    Frozen->>= (reject _ (fail storage_unavailable)) _ (reject-Frozen _ _)
      (λ _. framed-Frozen (ack_of p) (encode_server_frame (ack_frame (ack_of p))))

own_intent-Frozen : (r : Result ErrorCode Bool) → Frozen (own_intent r)
unfolding own_intent fail
own_intent-Frozen (ok true) = tt
own_intent-Frozen (ok false) = refl
own_intent-Frozen (err code) = refl

sendable-Frozen : (r : Result ErrorCode Bytes) → Frozen (sendable r)
unfolding sendable fail
sendable-Frozen (ok wire) = tt
sendable-Frozen (err code) = refl

pub answered-Frozen :
    {S : Type 0} (identity : ConnectionIdentity) (request : Send)
    (answer : Result Failure PersistedMessage × S)
    → AsFrozen answer.0
    → Frozen (answered identity request answer).0
unfolding answered
answered-Frozen identity request (persisted, s) h =
    Frozen->>= (redacted persisted) (answer_of identity request) (redacted-Frozen persisted h)
      (answer_of-Frozen identity request)

module _ {S : Type 0} (db : Database S) where
  authorize-Frozen : (sender id : Bytes) (s : S) → Frozen (authorize db sender id s)
  unfolding authorize
  authorize-Frozen sender id s =
      Frozen->>= (mapped (db.conversation id s)) _ (mapped-Frozen _) (λ locked.
        Frozen->>= (or_fail locked (fail conversation_missing)) _ (or_fail-Frozen _ _) (λ _.
          Frozen->>= (mapped (db.member id sender s)) _ (mapped-Frozen _)
            (λ who. Frozen->>= (or_fail who (fail unauthorized)) _ (or_fail-Frozen _ _) (λ _. tt))))

  row_of-Frozen :
      (sender : Bytes) (request : Send) (validated : Result SendFailure (Unit {0}))
      (generated : Result SendFailure Generated) (s : S) (existing : Option StoredRow)
      → Frozen (row_of db sender request validated generated s existing)
  unfolding row_of
  row_of-Frozen sender request validated generated s (some row) = tt
  row_of-Frozen sender request validated generated s none =
      Frozen->>= (fixed_result validated) _ (fixed_result-Frozen validated) (λ _.
        Frozen->>= (fixed_result generated) _ (fixed_result-Frozen generated) (λ g.
          Frozen->>= (reject (not (valid_generated g)) (fail invalid_input)) _ (reject-Frozen _ _)
            (λ _. mapped-Frozen (db.insert sender request g s))))

  check_same-Frozen : (row : StoredRow) (request : Send) → Frozen (check_same db row request)
  unfolding check_same
  check_same-Frozen row request = own_intent-Frozen (same_intent (intent row) request)

  check_input-Frozen : (sender : Bytes) (request : Send) → Frozen (check_input db sender request)
  unfolding check_input
  check_input-Frozen sender request =
      Frozen->>=
        (reject (not (valid_principal sender) || not (identifier request.conversation_id))
          (fail invalid_input))
        _ (reject-Frozen _ invalid_input) (λ _. sendable-Frozen (encode_send request))

  transact-Frozen :
      (sender : Bytes) (request : Send) (validated : Result SendFailure (Unit {0}))
      (generated : Result SendFailure Generated) (s : S)
      → Frozen (transact db sender request validated generated s)
  unfolding transact load_message
  transact-Frozen sender request validated generated s =
      Frozen->>= (mapped (db.begin s)) _ (mapped-Frozen _) (λ _.
        Frozen->>= (fixed_result (authorize db sender request.conversation_id s)) _
          (fixed_result-Frozen (authorize db sender request.conversation_id s))
          (λ _.
            Frozen->>= (mapped (db.load sender request.client_msg_id s)) _ (mapped-Frozen _)
              (λ existing.
                Frozen->>= (row_of db sender request validated generated s existing) _
                  (row_of-Frozen sender request validated generated s existing)
                  (λ stored.
                    Frozen->>= (check_same db stored.0 request) _
                      (check_same-Frozen stored.0 request) (λ _. tt)))))

  told-AsFrozen : (row : StoredRow) (answer : Bool × S) → AsFrozen (told db row answer).0
  unfolding told
  told-AsFrozen row (true, s) = tt
  told-AsFrozen row (false, s) = fail-IsFrozen storage_unavailable

  pub conclude-AsFrozen :
      (s : S) (r : Result SendFailure (StoredRow × S)) → Frozen r → AsFrozen (conclude db s r).0
  unfolding conclude
  conclude-AsFrozen s (err e) h = h
  conclude-AsFrozen s (ok (row, after)) h = told-AsFrozen row (db.commit s after)

  pub result-Frozen :
      (sender : Bytes) (request : Send) (validated : Result SendFailure (Unit {0}))
      (generated : Result SendFailure Generated) (s : S)
      → Frozen (check_input db sender request >> transact db sender request validated generated s)
  result-Frozen sender request validated generated s =
      Frozen->>= (check_input db sender request) _ (check_input-Frozen sender request)
        (λ _. transact-Frozen sender request validated generated s)
