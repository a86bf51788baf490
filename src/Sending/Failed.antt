-- ===== src/Sending/Failed.antt =====
-- What an error of `Send` leaves behind, and what it tells the client
-- (server/message/service.go over server/storage/message/repository.go).
use new_im.Common.{
  ◌≡◌, refl, ap, sym, ◌∙◌, subst, ◌⊎◌, inl, inr, Option, Bool, true, false, Option, Result, ok, err,
  ◌>>◌, reject,
}
use new_im.Bytes.{Bytes}
use new_im.AuthSession.Identity.{ConnectionIdentity}
use new_im.Protocol.Types.{ErrorCode, Send, Ack, ServerFrame}
use new_im.Protocol.Send.{encode_server_frame}
use new_im.Sending.Types.{
  storage_unavailable, SendFailure, Failure, known, fail, error_code, retry_disposition,
  PersistedMessage,
}
use new_im.Sending.Service.{
  MediaValidator, Reads, validate_media, generate, redacted, redacted_error, ack_of, ack_frame,
  framed, answer_of, check_request, answered, send_checked, send,
}
use new_im.Sending.Repository.{StoredRow, Database, transact, check_input, told, conclude, persist}
use new_im.Sending.Frozen.{
  IsFrozen, Frozen, check_request-Frozen, answered-Frozen, conclude-AsFrozen, result-Frozen,
}

err_inj : {e f : SendFailure} → ◌≡◌ {A = Result SendFailure ServerFrame} (err e) (err f) → e ≡ f
err_inj h = cc h

redacted_lost : redacted_error (known (fail storage_unavailable)) ≡ fail storage_unavailable
unfolding redacted_error error_code retry_disposition fail
redacted_lost = refl

framed-eq-err :
    (a : Ack) (r : Result ErrorCode Bytes) (e : SendFailure)
    → framed a r ≡ err e
    → e ≡ fail storage_unavailable
unfolding framed
framed-eq-err a (ok wire) e h = cc
framed-eq-err a (err code) e h = cc h

rejected-eq-err :
    (test : Bool) (failure : SendFailure) (rest : Result SendFailure ServerFrame) (e : SendFailure)
    → (reject test failure >> rest) ≡ err e
    → (rest ≡ err e → e ≡ failure)
    → e ≡ failure
rejected-eq-err true failure rest e h k = cc h
rejected-eq-err false failure rest e h k = k h

answer_of-eq-err :
    (identity : ConnectionIdentity) (request : Send) (p : PersistedMessage) (e : SendFailure)
    → answer_of identity request p ≡ err e
    → e ≡ fail storage_unavailable
unfolding answer_of
answer_of-eq-err identity request p e h =
    rejected-eq-err _ (fail storage_unavailable) _ e h
      (framed-eq-err (ack_of p) (encode_server_frame (ack_frame (ack_of p))) e)

module _ {S : Type 0} (db : Database S) where
  told-eq-err :
      (row : StoredRow) (answer : Bool × S) (e : Failure) (s' : S)
      → told db row answer ≡ (err e, s')
      → e ≡ known (fail storage_unavailable)
  unfolding told
  told-eq-err row (true, s) e s' h = absurd (cc (ap (λ a. a.0) h))
  told-eq-err row (false, s) e s' h = cc (ap (λ a. a.0) h)

  conclude-eq-err :
      (s : S) (r : Result SendFailure (StoredRow × S)) (e : Failure) (s' : S)
      → conclude db s r ≡ (err e, s')
      → (s' ≡ s) ⊎ (e ≡ known (fail storage_unavailable))
  unfolding conclude
  conclude-eq-err s (err e0) e s' h = inl (sym (ap (λ a. a.1) h))
  conclude-eq-err s (ok (row, after)) e s' h = inr (told-eq-err row (db.commit s after) e s' h)

  answered-eq-err :
      (identity : ConnectionIdentity) (request : Send) (s : S)
      (answer : Result Failure PersistedMessage × S) (e : SendFailure) (s' : S)
      → ((f : Failure) (t : S)
          → answer ≡ (err f, t)
          → (t ≡ s) ⊎ (f ≡ known (fail storage_unavailable)))
      → answered identity request answer ≡ (err e, s')
      → (s' ≡ s) ⊎ (e ≡ fail storage_unavailable)
  unfolding answered redacted
  answered-eq-err identity request s (ok p, t) e s' k h =
      inr (answer_of-eq-err identity request p e (ap (λ a. a.0) h))
  answered-eq-err identity request s (err f, t) e s' k h = elim (k f t refl) [
    | inl same ↦ inl (sym (ap (λ a. a.1) h) ∙ same)
    | inr lost ↦ inr (sym (err_inj (ap (λ a. a.0) h)) ∙ ap redacted_error lost ∙ redacted_lost)
  ]

  send_checked-eq-err :
      (validator : Option MediaValidator) (reads : Reads) (identity : ConnectionIdentity)
      (request : Send) (s s' : S) (checked : Result SendFailure (Unit {0})) (e : SendFailure)
      → Frozen checked
      → send_checked (persist db) validator reads identity request s checked ≡ (err e, s')
      → IsFrozen e × ((s' ≡ s) ⊎ (e ≡ fail storage_unavailable))
  unfolding send_checked persist
  send_checked-eq-err validator reads identity request s s' (err e0) e frozen h =
      (subst IsFrozen (err_inj (ap (λ a. a.0) h)) frozen, inl (sym (ap (λ a. a.1) h)))
  send_checked-eq-err validator reads identity request s s' (ok _) e frozen h =
      let validated = validate_media validator identity request in
      let result =
        check_input db identity.user_id request
        >> transact db identity.user_id request validated (generate reads) s in
      (
        subst Frozen (ap (λ a. a.0) h) (
            answered-Frozen identity request (conclude db s result) (
              conclude-AsFrozen db s result
                (result-Frozen db identity.user_id request validated (generate reads) s))),
        answered-eq-err identity request s (conclude db s result) e s'
            (λ f t. conclude-eq-err s result f t) h,
      )

  -- Whatever the database does: if `Send` answers with an error, it carries the disposition of its
  -- code, and the database is as it was, or the error says that the storage is unavailable.
  pub send-eq-err :
      (validator : Option MediaValidator) (reads : Reads) (identity : ConnectionIdentity)
      (request : Send) (s s' : S) (e : SendFailure)
      → send (persist db) validator reads identity request s ≡ (err e, s')
      → IsFrozen e × ((s' ≡ s) ⊎ (e ≡ fail storage_unavailable))
  unfolding send
  send-eq-err validator reads identity request s s' e h =
      send_checked-eq-err validator reads identity request s s' (check_request identity request) e
        (check_request-Frozen identity request) h
