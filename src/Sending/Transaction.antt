-- ===== src/Sending/Transaction.antt =====
-- What a transaction that succeeds has done (server/storage/message/repository.go).
use new_im.Common.{
  ◌≡◌, refl, ap, sym, ◌∙◌, Bool, true, false, not, Option, none, some, Result, ok, err, ◌>>◌,
  reject-eq-ok, or_fail-eq-ok, >>=-eq-ok, arith,
}
use new_im.Bytes.{Bytes}
use new_im.Protocol.Types.{ErrorCode, Send}
use new_im.Protocol.Intent.{same_intent}
use new_im.Sending.Types.{
  invalid_input, conversation_missing, unauthorized, SendFailure, fail, Generated, PersistedMessage,
}
use new_im.Sending.Repository.{
  StoredRow, intent, persisted, StorageError, Database, mapped, fixed_result, valid_generated,
  authorize, load_message, own_intent, check_same, row_of, transact, check_input, told, conclude,
  persist,
}

pub mapped-eq-ok {ℓ} : {A : Type ℓ} (r : Result StorageError A) (a : A) → mapped r ≡ ok a → r ≡ ok a
unfolding mapped
mapped-eq-ok (ok b) a h = cc h
mapped-eq-ok (err e) a h = cc

pub fixed_result-eq-ok {ℓ} :
    {A : Type ℓ} (r : Result SendFailure A) (a : A) → fixed_result r ≡ ok a → r ≡ ok a
unfolding fixed_result
fixed_result-eq-ok (ok b) a h = cc h
fixed_result-eq-ok (err e) a h = cc

own_intent-eq-ok : (r : Result ErrorCode Bool) → own_intent r ≡ ok tt → r ≡ ok true
unfolding own_intent
own_intent-eq-ok (ok true) h = refl
own_intent-eq-ok (ok false) h = cc
own_intent-eq-ok (err code) h = cc

module _ {S : Type 0} (db : Database S) where
  -- The sender may write to the conversation.
  pub record IsMember (sender conversation_id : Bytes) (s : S) : Type 0 where
    pub locked_id : Bytes
    pub locked : db.conversation conversation_id s ≡ ok (some locked_id)
    pub member_id : Bytes
    pub member : db.member conversation_id sender s ≡ ok (some member_id)

  -- Where the row of a request comes from: it was there, or it was written under new identifiers.
  pub data Source (sender : Bytes) (request : Send) (validated : Result SendFailure (Unit {0}))
      (generated : Result SendFailure Generated) (s after : S) (row : StoredRow) : Type 0 where
    found :
        db.load sender request.client_msg_id s ≡ ok (some row)
        → after ≡ s
        → Source sender request validated generated s after row
    written :
        (g : Generated)
        → db.load sender request.client_msg_id s ≡ ok none
        → validated ≡ ok tt
        → generated ≡ ok g
        → valid_generated g ≡ true
        → db.insert sender request g s ≡ ok (row, after)
        → Source sender request validated generated s after row

  pub record IsTransacted (sender : Bytes) (request : Send)
      (validated : Result SendFailure (Unit {0})) (generated : Result SendFailure Generated)
      (s after : S) (row : StoredRow) : Type 0 where
    pub allowed : IsMember sender request.conversation_id s
    pub source : Source sender request validated generated s after row
    pub same : same_intent (intent row) request ≡ ok true

  authorize-IsMember :
      (sender conversation_id : Bytes) (s : S)
      → authorize db sender conversation_id s ≡ ok tt
      → IsMember sender conversation_id s
  unfolding authorize
  authorize-IsMember sender conversation_id s h =
      let (locked, e1, h1) = >>=-eq-ok (mapped (db.conversation conversation_id s)) _ h in
      let (id, e2, h2) = or_fail-eq-ok locked (fail conversation_missing) _ h1 in
      let (member, e3, h3) = >>=-eq-ok (mapped (db.member conversation_id sender s)) _ h2 in
      let (who, e4, _) = or_fail-eq-ok member (fail unauthorized) _ h3 in
      record {
        locked_id = id;
        locked = mapped-eq-ok (db.conversation conversation_id s) locked e1 ∙ ap ok e2;
        member_id = who;
        member = mapped-eq-ok (db.member conversation_id sender s) member e3 ∙ ap ok e4;
      }

  check_same-same :
      (row : StoredRow) (request : Send)
      → check_same db row request ≡ ok tt
      → same_intent (intent row) request ≡ ok true
  unfolding check_same
  check_same-same row request h = own_intent-eq-ok (same_intent (intent row) request) h

  row_of-Source :
      (sender : Bytes) (request : Send) (validated : Result SendFailure (Unit {0}))
      (generated : Result SendFailure Generated) (s after : S) (row : StoredRow)
      (existing : Option StoredRow)
      → db.load sender request.client_msg_id s ≡ ok existing
      → row_of db sender request validated generated s existing ≡ ok (row, after)
      → Source sender request validated generated s after row
  unfolding row_of
  row_of-Source sender request validated generated s after row (some there) loaded h =
      found (loaded ∙ ap (λ r. ok (some r)) (cc h)) (cc h)
  row_of-Source sender request validated generated s after row none loaded h =
      let (_, e1, h1) = >>=-eq-ok (fixed_result validated) _ h in
      let (g, e2, h2) = >>=-eq-ok (fixed_result generated) _ h1 in
      let (good, h3) = reject-eq-ok (not (valid_generated g)) (fail invalid_input) _ h2 in
      written g loaded (fixed_result-eq-ok validated tt e1) (fixed_result-eq-ok generated g e2)
        (ground (arith, good)) (mapped-eq-ok (db.insert sender request g s) (row, after) h3)

  pub transact-IsTransacted :
      (sender : Bytes) (request : Send) (validated : Result SendFailure (Unit {0}))
      (generated : Result SendFailure Generated) (s after : S) (row : StoredRow)
      → transact db sender request validated generated s ≡ ok (row, after)
      → IsTransacted sender request validated generated s after row
  unfolding transact load_message
  transact-IsTransacted sender request validated generated s after row h =
      let (_, e1, h1) = >>=-eq-ok (mapped (db.begin s)) _ h in
      let (_, e2, h2) =
        >>=-eq-ok (fixed_result (authorize db sender request.conversation_id s)) _ h1 in
      let (existing, e3, h3) = >>=-eq-ok (mapped (db.load sender request.client_msg_id s)) _ h2 in
      let (stored, e4, h4) =
        >>=-eq-ok (row_of db sender request validated generated s existing) _ h3 in
      let (_, e5, h5) = >>=-eq-ok (check_same db stored.0 request) _ h4 in
      let whole : stored ≡ (row, after) = cc h5 in
      record {
        allowed =
            authorize-IsMember sender request.conversation_id s
              (fixed_result-eq-ok (authorize db sender request.conversation_id s) tt e2);
        source =
            row_of-Source sender request validated generated s after row existing
              (mapped-eq-ok (db.load sender request.client_msg_id s) existing e3)
              (e4 ∙ ap ok whole);
        same =
            sym (ap (λ r. same_intent (intent r.0) request) whole)
            ∙ check_same-same stored.0 request e5;
      }

  -- A transaction that is committed.
  pub record IsCommitted (sender : Bytes) (request : Send)
      (validated : Result SendFailure (Unit {0})) (generated : Result SendFailure Generated)
      (s s' : S) (row : StoredRow) : Type 0 where
    pub after : S
    pub input : check_input db sender request ≡ ok tt
    pub transacted : IsTransacted sender request validated generated s after row
    pub committed : db.commit s after ≡ (true, s')

  told-eq-ok :
      (row : StoredRow) (answer : Bool × S) (p : PersistedMessage) (s' : S)
      → told db row answer ≡ (ok p, s')
      → (p ≡ persisted row) × (answer ≡ (true, s'))
  unfolding told
  told-eq-ok row (true, s) p s' h = (cc (ap (λ a. a.0) h), ap (λ a. (true, a.1)) h)
  told-eq-ok row (false, s) p s' h = absurd (cc (ap (λ a. a.0) h))

  conclude-eq-ok :
      (s : S) (r : Result SendFailure (StoredRow × S)) (p : PersistedMessage) (s' : S)
      → conclude db s r ≡ (ok p, s')
      → (row : StoredRow) × (after : S) × (r ≡ ok (row, after))
        × (p ≡ persisted row)
        × (db.commit s after ≡ (true, s'))
  unfolding conclude
  conclude-eq-ok s (err e) p s' h = absurd (cc (ap (λ a. a.0) h))
  conclude-eq-ok s (ok (row, after)) p s' h =
      let (same, done) = told-eq-ok row (db.commit s after) p s' h in (row, after, refl, same, done)

  -- What a call of `Persist` that succeeds has committed.
  pub persist-IsCommitted :
      (sender : Bytes) (request : Send) (validated : Result SendFailure (Unit {0}))
      (generated : Result SendFailure Generated) (s s' : S) (p : PersistedMessage)
      → persist db sender request validated generated s ≡ (ok p, s')
      → (row : StoredRow) × IsCommitted sender request validated generated s s' row
        × (p ≡ persisted row)
  unfolding persist
  persist-IsCommitted sender request validated generated s s' p h =
      let (row, after, e, same, done) =
        conclude-eq-ok s
          (check_input db sender request >> transact db sender request validated generated s) p s'
          h in
      let (_, e0, e1) = >>=-eq-ok (check_input db sender request) _ e in
      (
        row,
        record {
          after = after;
          input = e0;
          transacted = transact-IsTransacted sender request validated generated s after row e1;
          committed = done;
        },
        same,
      )
