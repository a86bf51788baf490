-- ===== src/Sending/Sent.antt =====
-- What an acknowledgement of a message stands for (server/message/service.go over
-- server/storage/message/repository.go).
use new_im.Common.{
  ◌≡◌, refl, ap, sym, ◌∙◌, true, false, not, ◌||◌, Option, Result, ok, err, reject-eq-ok, >>=-eq-ok,
  arith, ℕ,
}
use new_im.Common.Int.{ℤ, pos, negsuc, ltb_ℤ}
use new_im.Bytes.{Bytes, eq_bytes, eq_bytes_sound}
use new_im.AuthSession.Identity.{ConnectionIdentity}
use new_im.Protocol.Types.{ErrorCode, Send, Ack, ServerFrame}
use new_im.Protocol.Send.{encode_send, encode_server_frame}
use new_im.Sending.Types.{
  invalid_input, storage_unavailable, SendFailure, Failure, fail, PersistedMessage,
}
use new_im.Sending.Service.{
  MediaValidator, Reads, Persist, valid_identity, validate_media, generate, redacted, as_invalid,
  ack_of, ack_frame, framed, answer_of, check_request, answered, send_checked, send,
}
use new_im.Sending.Repository.{StoredRow, persisted, Database, persist}
use new_im.Sending.Transaction.{IsCommitted, persist-IsCommitted}

redacted-eq-ok {ℓ} : {A : Type ℓ} (r : Result Failure A) (a : A) → redacted r ≡ ok a → r ≡ ok a
unfolding redacted
redacted-eq-ok (ok b) a h = cc h
redacted-eq-ok (err failure) a h = cc

-- A number that is not negative.
abbrev pub IsNatural : ℤ → Type 0
IsNatural z = (n : ℕ) × (z ≡ pos n)

natural : (z : ℤ) → ltb_ℤ z (pos 0) ≡ false → IsNatural z
natural (pos n) h = (n, refl)
natural (negsuc n) h = absurd (ground arith)

-- The row that a request is answered with is its own.
pub record IsOwn (identity : ConnectionIdentity) (request : Send) (row : StoredRow) : Type 0 where
  pub client : row.client_msg_id ≡ request.client_msg_id
  pub conversation : row.conversation_id ≡ request.conversation_id
  pub sender : row.sender_id ≡ identity.user_id
  pub sequence : IsNatural row.conversation_seq
  pub time : IsNatural row.server_time

framed-eq-ok :
    (a : Ack) (r : Result ErrorCode Bytes) (frame : ServerFrame)
    → framed a r ≡ ok frame
    → (frame ≡ ack_frame a) × (wire : Bytes) × (r ≡ ok wire)
unfolding framed
framed-eq-ok a (ok wire) frame h = (cc h, wire, refl)
framed-eq-ok a (err code) frame h = cc

answer_of-IsOwn :
    (identity : ConnectionIdentity) (request : Send) (row : StoredRow) (frame : ServerFrame)
    → answer_of identity request (persisted row) ≡ ok frame
    → IsOwn identity request row × (frame ≡ ack_frame (ack_of (persisted row)))
unfolding answer_of persisted
answer_of-IsOwn identity request row frame h =
    let (good, h1) =
      reject-eq-ok
        (not (eq_bytes row.client_msg_id request.client_msg_id)
          || not (eq_bytes row.conversation_id request.conversation_id)
          || not (eq_bytes row.sender_id identity.user_id)
          || ltb_ℤ row.conversation_seq (pos 0)
          || ltb_ℤ row.server_time (pos 0))
        (fail storage_unavailable) _ h in
    let framed_as =
      framed-eq-ok (ack_of (persisted row))
        (encode_server_frame (ack_frame (ack_of (persisted row)))) frame h1 in
    (
      record {
        client = eq_bytes_sound row.client_msg_id request.client_msg_id (ground (arith, good));
        conversation =
            eq_bytes_sound row.conversation_id request.conversation_id (ground (arith, good));
        sender = eq_bytes_sound row.sender_id identity.user_id (ground (arith, good));
        sequence = natural row.conversation_seq (ground (arith, good));
        time = natural row.server_time (ground (arith, good));
      },
      framed_as.0,
    )

pub answered-eq-ok :
    {S : Type 0} (identity : ConnectionIdentity) (request : Send)
    (answer : Result Failure PersistedMessage × S) (frame : ServerFrame) (s' : S)
    → answered identity request answer ≡ (ok frame, s')
    → (p : PersistedMessage) × (answer ≡ (ok p, s')) × (answer_of identity request p ≡ ok frame)
unfolding answered
answered-eq-ok identity request (persisted, s) frame s' h =
    let (p, e, h1) =
      >>=-eq-ok (redacted persisted) (answer_of identity request) (ap (λ a. a.0) h) in
    (p, λ i. (redacted-eq-ok persisted p e i, (h i).1), h1)

pub send_checked-eq-ok :
    {S : Type 0} (persist_on : Persist S) (validator : Option MediaValidator) (reads : Reads)
    (identity : ConnectionIdentity) (request : Send) (s s' : S)
    (checked : Result SendFailure (Unit {0})) (frame : ServerFrame)
    → send_checked persist_on validator reads identity request s checked ≡ (ok frame, s')
    → (checked ≡ ok tt)
      × (answered identity request (
            persist_on identity.user_id request
              (validate_media validator identity request)
              (generate reads)
              s)
          ≡ (ok frame, s'))
unfolding send_checked
send_checked-eq-ok persist_on validator reads identity request s s' (err e) frame h =
    absurd (cc (ap (λ a. a.0) h))
send_checked-eq-ok persist_on validator reads identity request s s' (ok _) frame h = (refl, h)

-- A request that passed the checks of the service.
pub record IsChecked (identity : ConnectionIdentity) (request : Send) : Type 0 where
  pub valid : valid_identity identity ≡ true
  pub wire : Bytes
  pub encoded : encode_send request ≡ ok wire

as_invalid-eq-ok {ℓ} :
    {E : Type 0} {A : Type ℓ} (r : Result E A) (a : A) → as_invalid r ≡ ok a → r ≡ ok a
unfolding as_invalid
as_invalid-eq-ok (ok b) a h = cc h
as_invalid-eq-ok (err e) a h = cc

check_request-IsChecked :
    (identity : ConnectionIdentity) (request : Send)
    → check_request identity request ≡ ok tt
    → IsChecked identity request
unfolding check_request
check_request-IsChecked identity request h =
    let (good, h1) = reject-eq-ok (not (valid_identity identity)) (fail invalid_input) _ h in
    let (wire, e, _) = >>=-eq-ok (as_invalid (encode_send request)) _ h1 in
    record {
      valid = ground (arith, good);
      wire = wire;
      encoded = as_invalid-eq-ok (encode_send request) wire e;
    }

module _ {S : Type 0} (db : Database S) where
  -- A request that was answered, and what stands behind the answer.
  pub record IsSent (validator : Option MediaValidator) (reads : Reads)
      (identity : ConnectionIdentity) (request : Send) (s s' : S) (row : StoredRow) : Type 0 where
    pub checked : IsChecked identity request
    pub own : IsOwn identity request row
    pub stored :
        IsCommitted db identity.user_id request
          (validate_media validator identity request)
          (generate reads)
          s
          s'
          row

  -- Whatever the database does: if `Send` answers with a frame, the request and the identity
  -- passed their checks, and there is a row that the database said it committed: the sender was
  -- found to be a member of the conversation, the row was found or written under identifiers that
  -- were generated and after the media was validated, its intent is the intent of the request, and
  -- it is of the same client identifier, conversation and sender, with numbers that are not
  -- negative; and the frame acknowledges exactly this row.
  pub send-IsSent :
      (validator : Option MediaValidator) (reads : Reads) (identity : ConnectionIdentity)
      (request : Send) (s s' : S) (frame : ServerFrame)
      → send (persist db) validator reads identity request s ≡ (ok frame, s')
      → (row : StoredRow) × IsSent validator reads identity request s s' row
        × (frame ≡ ack_frame (ack_of (persisted row)))
  unfolding send
  send-IsSent validator reads identity request s s' frame h =
      let (checked, h1) =
        send_checked-eq-ok (persist db) validator reads identity request s s'
          (check_request identity request) frame h in
      let (p, e, h2) =
        answered-eq-ok identity request
          (persist db identity.user_id request (validate_media validator identity request)
            (generate reads) s)
          frame s' h1 in
      let (row, stored, same) =
        persist-IsCommitted db identity.user_id request (validate_media validator identity request)
          (generate reads) s s' p e in
      let (own, shown) =
        answer_of-IsOwn identity request row frame
          (sym (ap (answer_of identity request) same) ∙ h2) in
      (
        row,
        record {
          checked = check_request-IsChecked identity request checked;
          own = own;
          stored = stored;
        },
        shown,
      )
