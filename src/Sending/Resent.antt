-- ===== src/Sending/Resent.antt =====
-- A request that is sent again (server/message/service.go over
-- server/storage/message/repository.go).
use new_im.Common.{◌≡◌, ap, sym, ◌∙◌, subst, true, Option, some, Result, ok, ◌>>◌, arith}
use new_im.Bytes.{Bytes}
use new_im.AuthSession.Identity.{ConnectionIdentity}
use new_im.Protocol.Types.{Send, ServerFrame}
use new_im.Protocol.Intent.{same_intent}
use new_im.Sending.Types.{SendFailure, Generated}
use new_im.Sending.Service.{
  MediaValidator, Reads, validate_media, generate, redacted, answer_of, check_request, answered,
  send_checked, send,
}
use new_im.Sending.Repository.{
  StoredRow, intent, persisted, Database, mapped, fixed_result, authorize, load_message, own_intent,
  check_same, row_of, transact, check_input, told, conclude, persist,
}
use new_im.Sending.Transaction.{IsMember, Source, found, written, persist-IsCommitted}
use new_im.Sending.Sent.{answered-eq-ok, send_checked-eq-ok}

-- A database that is reachable and keeps what is committed: a commit leaves what the transaction
-- made; a row that was written is found by its sender and its client's identifier, and the
-- conversation and its members are as they were.
pub record IsKeeping {S : Type 0} (db : Database S) : Type 0 where
  pub begins : (s : S) → db.begin s ≡ ok tt
  pub idle : (s : S) → db.commit s s ≡ (true, s)
  pub commits : (s after s' : S) → db.commit s after ≡ (true, s') → s' ≡ after
  pub loads :
      (sender : Bytes) (request : Send) (g : Generated) (s after : S) (row : StoredRow)
      → db.insert sender request g s ≡ ok (row, after)
      → db.load sender request.client_msg_id after ≡ ok (some row)
  pub conversations :
      (sender id : Bytes) (request : Send) (g : Generated) (s after : S) (row : StoredRow)
      → db.insert sender request g s ≡ ok (row, after)
      → db.conversation id after ≡ db.conversation id s
  pub members :
      (sender id : Bytes) (request : Send) (g : Generated) (s after : S) (row : StoredRow)
      → db.insert sender request g s ≡ ok (row, after)
      → db.member id sender after ≡ db.member id sender s

-- A later state, whatever happened in between, in which what the request meets is as it was left:
-- the conversation, the sender's membership and the sender's row under the client's identifier.
pub record IsAsLeft {S : Type 0} (db : Database S) (sender : Bytes) (request : Send)
    (left later : S) : Type 0 where
  pub conversation :
      db.conversation request.conversation_id later ≡ db.conversation request.conversation_id left
  pub member :
      db.member request.conversation_id sender later ≡ db.member request.conversation_id sender left
  pub row : db.load sender request.client_msg_id later ≡ db.load sender request.client_msg_id left

module _ {S : Type 0} (db : Database S) (law : IsKeeping db) where
  -- What a second attempt meets.
  record IsThere (sender : Bytes) (request : Send) (row : StoredRow) (s : S) : Type 0 where
    allowed : IsMember db sender request.conversation_id s
    loaded : db.load sender request.client_msg_id s ≡ ok (some row)

  Source-IsThere :
      (sender : Bytes) (request : Send) (validated : Result SendFailure (Unit {0}))
      (generated : Result SendFailure Generated) (s after : S) (row : StoredRow)
      → IsMember db sender request.conversation_id s
      → Source db sender request validated generated s after row
      → IsThere sender request row after
  Source-IsThere sender request validated generated s after row allowed (found loaded same) =
      record {
        allowed = record {
          locked_id = allowed.locked_id;
          locked = ap (db.conversation request.conversation_id) same ∙ allowed.locked;
          member_id = allowed.member_id;
          member = ap (db.member request.conversation_id sender) same ∙ allowed.member;
        };
        loaded = ap (db.load sender request.client_msg_id) same ∙ loaded;
      }
  Source-IsThere sender request validated generated s after row allowed (written g _ _ _ _ done) =
      record {
        allowed = record {
          locked_id = allowed.locked_id;
          locked =
              law.conversations sender request.conversation_id request g s after row done
              ∙ allowed.locked;
          member_id = allowed.member_id;
          member =
              law.members sender request.conversation_id request g s after row done
              ∙ allowed.member;
        };
        loaded = law.loads sender request g s after row done;
      }

  IsThere-later :
      (sender : Bytes) (request : Send) (row : StoredRow) (left later : S)
      → IsAsLeft db sender request left later
      → IsThere sender request row left
      → IsThere sender request row later
  IsThere-later sender request row left later same there = record {
    allowed = record {
      locked_id = there.allowed.locked_id;
      locked = same.conversation ∙ there.allowed.locked;
      member_id = there.allowed.member_id;
      member = same.member ∙ there.allowed.member;
    };
    loaded = same.row ∙ there.loaded;
  }

  authorize-again :
      (sender id : Bytes) (s : S) → IsMember db sender id s → authorize db sender id s ≡ ok tt
  unfolding authorize mapped
  authorize-again sender id s m = ground (arith, m.locked, m.member)

  check_same-again :
      (row : StoredRow) (request : Send)
      → same_intent (intent row) request ≡ ok true
      → check_same db row request ≡ ok tt
  unfolding check_same own_intent
  check_same-again row request h = ap own_intent h

  transact-again :
      (sender : Bytes) (request : Send) (validated : Result SendFailure (Unit {0}))
      (generated : Result SendFailure Generated) (s : S) (row : StoredRow)
      → IsThere sender request row s
      → same_intent (intent row) request ≡ ok true
      → transact db sender request validated generated s ≡ ok (row, s)
  unfolding transact load_message mapped fixed_result row_of
  transact-again sender request validated generated s row there same = ground (
    arith,
    law.begins s,
    authorize-again sender request.conversation_id s there.allowed,
    there.loaded,
    check_same-again row request same,
  )

  persist-again :
      (sender : Bytes) (request : Send) (validated : Result SendFailure (Unit {0}))
      (generated : Result SendFailure Generated) (s : S) (row : StoredRow)
      → check_input db sender request ≡ ok tt
      → IsThere sender request row s
      → same_intent (intent row) request ≡ ok true
      → persist db sender request validated generated s ≡ (ok (persisted row), s)
  unfolding persist conclude told
  persist-again sender request validated generated s row input there same =
      ap (λ r. conclude db s (r >> transact db sender request validated generated s)) input
      ∙ ap (conclude db s) (transact-again sender request validated generated s row there same)
      ∙ ap (told db row) (law.idle s)

  -- For a database that is reachable and keeps what is committed: if `Send` answers with a frame,
  -- the same request sent again by the same identity, in any later state in which the
  -- conversation, the sender's membership and the sender's row under the client's identifier are
  -- read as in the state that the first send left, and whatever the clock, the identifiers and the
  -- media validator then give, is answered with the same frame and changes nothing.
  pub send-again :
      (validator later_validator : Option MediaValidator) (reads later_reads : Reads)
      (identity : ConnectionIdentity) (request : Send) (s s' later : S) (frame : ServerFrame)
      → send (persist db) validator reads identity request s ≡ (ok frame, s')
      → IsAsLeft db identity.user_id request s' later
      → send (persist db) later_validator later_reads identity request later ≡ (ok frame, later)
  unfolding send send_checked answered redacted
  send-again validator later_validator reads later_reads identity request s s' later frame h
        as_left =
      let (checked, h1) =
        send_checked-eq-ok (persist db) validator reads identity request s s'
          (check_request identity request) frame h in
      let validated = validate_media validator identity request in
      let (p, e, h2) =
        answered-eq-ok identity request
          (persist db identity.user_id request validated (generate reads) s) frame s' h1 in
      let (row, stored, same) =
        persist-IsCommitted db identity.user_id request validated (generate reads) s s' p e in
      let t = stored.transacted in
      let there =
        Source-IsThere identity.user_id request validated (generate reads) s stored.after row
          t.allowed t.source in
      let kept : IsThere identity.user_id request row later =
        IsThere-later identity.user_id request row s' later as_left (
          subst (IsThere identity.user_id request row)
            (sym (law.commits s stored.after s' stored.committed)) there) in
      ap (send_checked (persist db) later_validator later_reads identity request later) checked
      ∙ ap (answered identity request) (
          persist-again identity.user_id request (validate_media later_validator identity request)
            (generate later_reads) later row stored.input kept t.same)
      ∙ ap (λ q. (answer_of identity request q, later)) (sym same)
      ∙ ap (λ r. (r, later)) h2
