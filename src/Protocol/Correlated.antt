-- ===== src/Protocol/Correlated.antt =====
-- Results that answer a request (Correlate of core/protocol/go/intent.go).
use new_im.Common.{
  ◌≡◌, ◌≢◌, refl, sym, ◌∙◌, Bool, true, false, not, ◌&&◌, Option, none, some, Result, ok, err,
  ◌>>=◌, reject, arith, subst, reject-eq-ok,
}
use new_im.Bytes.{Bytes, eq_bytes_sound}
use new_im.Protocol.Types.{ErrorCode, invalid_message, Message, Send, Ack, SendError, ServerFrame}
use new_im.Protocol.Checks.{identifier}
use new_im.Protocol.Send.{encode_send, encode_server_frame}
use new_im.Protocol.Intent.{equal_payload}
use new_im.Protocol.Results.{
  ResultError, protocol_error, correlation_mismatch, checked, result_ack, answers_error,
  answers_ack, same_message, answers, correlate, compare_results,
}
use new_im.Protocol.Compared.{
  Verdict, same, conflict, mismatch, first_refused, second_refused, failure, Acknowledges,
  compare_results-Verdict,
}

-- The message of a result carries what the request asked to send.
abbrev pub CarriesIntent : Send → Option Message → Type 0
CarriesIntent request none = Unit
CarriesIntent request (some m) =
    (request.protocol_version ≡ m.protocol_version)
    × (request.version ≡ m.version)
    × (request.type ≡ m.type)
    × (equal_payload request.payload m.payload ≡ true)

pub record AnswersWithAck (request : Send) (sender : Bytes) (f : ServerFrame) (a : Ack)
    : Type 0 where
  pub acknowledged : result_ack f ≡ some a
  pub client : a.client_msg_id ≡ request.client_msg_id
  pub conversation : a.conversation_id ≡ request.conversation_id
  pub sent_by : a.sender_id ≡ sender
  pub carried : CarriesIntent request f.message

abbrev pub Answers : Send → Bytes → ServerFrame → Option SendError → Type 0
Answers request sender f none = (a : Ack) × AnswersWithAck request sender f a
Answers request sender f (some v) =
    (v.client_msg_id ≡ request.client_msg_id) × (v.conversation_id ≡ request.conversation_id)

pub record IsAnswer (request : Send) (sender : Bytes) (f : ServerFrame) : Type 0 where
  pub sent : Bytes
  pub sent_so : encode_send request ≡ ok sent
  pub sender_valid : identifier sender 128 false ≡ true
  pub wire : Bytes
  pub written : encode_server_frame f ≡ ok wire
  pub answered : Answers request sender f f.error

checked-eq-ok :
    {A B : Type 0} (r : Result ErrorCode A) (rest : Result ResultError B) (b : B)
    → (checked r >>= λ _. rest) ≡ ok b
    → ((a : A) × (r ≡ ok a)) × (rest ≡ ok b)
unfolding checked
checked-eq-ok (ok a) rest b h = ((a, refl), h)
checked-eq-ok (err code) rest b h = cc

reject-eq-tt : {E : Type 0} (test : Bool) (code : E) → reject test code ≡ ok tt → test ≡ false
reject-eq-tt false code h = refl
reject-eq-tt true code h = cc

same_message-CarriesIntent :
    (request : Send) (m : Option Message) → same_message request m ≡ true → CarriesIntent request m
unfolding same_message
same_message-CarriesIntent request none h = tt
same_message-CarriesIntent request (some m) h = ground (arith, eq_bytes_sound request.type m.type)

answers_ack_sound :
    (request : Send) (sender : Bytes) (a : Ack)
    → answers_ack request sender a ≡ true
    → (a.client_msg_id ≡ request.client_msg_id)
      × (a.conversation_id ≡ request.conversation_id)
      × (a.sender_id ≡ sender)
unfolding answers_ack
answers_ack_sound request sender a h = ground (
  arith,
  eq_bytes_sound a.client_msg_id request.client_msg_id,
  eq_bytes_sound a.conversation_id request.conversation_id,
  eq_bytes_sound a.sender_id sender,
)

with_ack :
    (request : Send) (sender : Bytes) (f : ServerFrame) (found : Option Ack)
    → result_ack f ≡ found
    → elim found [
      | none ↦ false
      | some a ↦ answers_ack request sender a && same_message request f.message
    ]
      ≡ true
    → Answers request sender f none
with_ack request sender f none e h = cc
with_ack request sender f (some a) e h =
    let both : (answers_ack request sender a ≡ true) × (same_message request f.message ≡ true) =
      ground arith in
    let (client, conversation, sent_by) = answers_ack_sound request sender a both.0 in
    (
      a,
      record {
        acknowledged = e;
        client = client;
        conversation = conversation;
        sent_by = sent_by;
        carried = same_message-CarriesIntent request f.message both.1;
      },
    )

answers-Answers :
    (request : Send) (sender : Bytes) (f : ServerFrame) (e : Option SendError)
    → answers request sender f e ≡ true
    → Answers request sender f e
unfolding answers answers_error
answers-Answers request sender f (some v) h = ground (
  arith,
  eq_bytes_sound v.client_msg_id request.client_msg_id,
  eq_bytes_sound v.conversation_id request.conversation_id,
)
answers-Answers request sender f none h = with_ack request sender f (result_ack f) refl h

-- A result that Correlate accepts answers the request: the request and the result can be written,
-- the trusted sender is an identifier, and either an error carries the client identifier and the
-- conversation of the request, or the acknowledgement carries them and the trusted sender; a
-- message carries the versions, the type and an equal payload. The condition is that Correlate
-- accepts.
pub correlate-IsAnswer :
    (request : Send) (sender : Bytes) (f : ServerFrame)
    → correlate request sender f ≡ ok tt
    → IsAnswer request sender f
unfolding correlate
correlate-IsAnswer request sender f h =
    let ((sent, sent_so), h1) = checked-eq-ok (encode_send request) _ tt h in
    let (valid, h2) =
      reject-eq-ok (not (identifier sender 128 false)) (protocol_error invalid_message) _ h1 in
    let ((wire, written), h3) = checked-eq-ok (encode_server_frame f) _ tt h2 in
    let fits = reject-eq-tt (not (answers request sender f f.error)) correlation_mismatch h3 in
    record {
      sent = sent;
      sent_so = sent_so;
      sender_valid = ground arith;
      wire = wire;
      written = written;
      answered = answers-Answers request sender f f.error (ground arith);
    }

-- The acknowledgement of a frame that holds no error agrees with the request.
answered-ack :
    (request : Send) (sender : Bytes) (f : ServerFrame) (a : Ack)
    → correlate request sender f ≡ ok tt
    → Acknowledges f a
    → AnswersWithAck request sender f a
answered-ack request sender f a h known =
    let answer = correlate-IsAnswer request sender f h in
    let (found, fits) = subst (Answers request sender f) known.no_error answer.answered in
    let eq : found ≡ a = cc (fits.acknowledged, known.acknowledged) in
    subst (AnswersWithAck request sender f) eq fits

never_mismatch :
    (request : Send) (sender : Bytes) (first second : ServerFrame)
    (r : Result ResultError (Unit {0}))
    → correlate request sender first ≡ ok tt
    → correlate request sender second ≡ ok tt
    → Verdict first second r
    → r ≢ err correlation_mismatch
never_mismatch request sender first second r h k (same a one other) e = cc
never_mismatch request sender first second r h k (conflict a b one other alike apart) e = cc
never_mismatch request sender first second r h k (first_refused code refused) e = cc
never_mismatch request sender first second r h k (second_refused code refused) e = cc
never_mismatch request sender first second r h k (failure errors) e = cc
never_mismatch request sender first second r h k (mismatch a b one other apart) e =
    let x = answered-ack request sender first a h one in
    let y = answered-ack request sender second b k other in
    apart (x.client ∙ sym y.client, x.conversation ∙ sym y.conversation, x.sent_by ∙ sym y.sent_by)

-- Two results that Correlate accepts for the same request and sender are never a mismatch for
-- CompareResults. The conditions are that Correlate accepts both.
pub correlate-comparable :
    (request : Send) (sender : Bytes) (first second : ServerFrame)
    → correlate request sender first ≡ ok tt
    → correlate request sender second ≡ ok tt
    → compare_results first second ≢ err correlation_mismatch
correlate-comparable request sender first second h k =
    never_mismatch request sender first second (compare_results first second) h k
      (compare_results-Verdict first second)
