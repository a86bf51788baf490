-- ===== src/Protocol/Compared.antt =====
-- What a comparison of two results says (CompareResults of core/protocol/go/intent.go).
use new_im.Common.{
  ◌≡◌, ◌≢◌, refl, ap, sym, ◌∙◌, ◌⊎◌, inl, inr, Bool, true, false, not, ◌||◌, Option, none, some,
  Result, ok, err, ◌>>=◌, ◌>>◌, reject, arith, subst, >>=-eq-ok,
}
use new_im.Bytes.{Bytes, eq_bytes, eq_bytes_refl, eq_bytes_sound}
use new_im.Protocol.Types.{ErrorCode, invalid_message, Message, Ack, SendError, ServerFrame}
use new_im.Protocol.Send.{frame_wire, encode_server_frame}
use new_im.Protocol.Results.{
  ResultError, protocol_error, correlation_mismatch, result_conflict, checked, result_ack,
  has_error, compare_acks, compare_results,
}

-- A frame that can be written and that acknowledges a send, alone or in a message.
pub record Acknowledges (f : ServerFrame) (a : Ack) : Type 0 where
  pub wire : Bytes
  pub written : encode_server_frame f ≡ ok wire
  pub no_error : f.error ≡ none
  pub acknowledged : result_ack f ≡ some a

-- The same send of the same sender.
abbrev pub SameRequest : Ack → Ack → Type 0
SameRequest a b =
    (a.client_msg_id ≡ b.client_msg_id)
    × (a.conversation_id ≡ b.conversation_id)
    × (a.sender_id ≡ b.sender_id)

pub data Verdict (first second : ServerFrame) : Result ResultError (Unit {0}) → Type 0 where
  same : (a : Ack) → Acknowledges first a → Acknowledges second a → Verdict first second (ok tt)
  conflict :
      (a b : Ack)
      → Acknowledges first a
      → Acknowledges second b
      → SameRequest a b
      → a ≢ b
      → Verdict first second (err result_conflict)
  mismatch :
      (a b : Ack)
      → Acknowledges first a
      → Acknowledges second b
      → ¬ SameRequest a b
      → Verdict first second (err correlation_mismatch)
  first_refused :
      (code : ErrorCode)
      → encode_server_frame first ≡ err code
      → Verdict first second (err (protocol_error code))
  second_refused :
      (code : ErrorCode)
      → encode_server_frame second ≡ err code
      → Verdict first second (err (protocol_error code))
  failure :
      (first.error ≢ none) ⊎ (second.error ≢ none)
      → Verdict first second (err (protocol_error invalid_message))

abbrev differs : (x x' y y' z z' : Bytes) → Bool
differs x x' y y' z z' = not (eq_bytes x x') || not (eq_bytes y y') || not (eq_bytes z z')

differs-eq-false :
    (x x' y y' z z' : Bytes) → differs x x' y y' z z' ≡ false → (x ≡ x') × (y ≡ y') × (z ≡ z')
differs-eq-false x x' y y' z z' h =
    ground (arith, eq_bytes_sound x x', eq_bytes_sound y y', eq_bytes_sound z z')

differs_same :
    (x x' y y' z z' : Bytes) → (x ≡ x') × (y ≡ y') × (z ≡ z') → differs x x' y y' z z' ≡ false
differs_same x x' y y' z z' (h, k, l) =
    rw (h, k, l, eq_bytes_refl x', eq_bytes_refl y', eq_bytes_refl z') refl

-- A frame that can be written holds an acknowledgement or a message where it holds no error.
acknowledged-of :
    (a : Option Ack) (m : Option Message) (wire : Bytes)
    → frame_wire a none m ≡ ok wire
    → (found : Ack) × (result_ack (record { ack = a; error = none; message = m }) ≡ some found)
unfolding frame_wire result_ack
acknowledged-of (some a) none wire h = (a, refl)
acknowledged-of none (some m) wire h = (_, refl)
acknowledged-of (some a) (some m) wire h = cc
acknowledged-of none none wire h = cc

Acknowledges-of :
    (f : ServerFrame) (wire : Bytes)
    → encode_server_frame f ≡ ok wire
    → f.error ≡ none
    → (a : Ack) × Acknowledges f a
unfolding encode_server_frame
Acknowledges-of f wire h no_error =
    let (sent, written, _) = >>=-eq-ok (frame_wire f.ack f.error f.message) _ h in
    let written_so = sym (ap (λ e. frame_wire f.ack e f.message) no_error) ∙ written in
    let (a, acknowledged) = acknowledged-of f.ack f.message sent written_so in
    let as_given =
      ap (λ e. result_ack (record { ack = f.ack; error = e; message = f.message })) no_error in
    (
      a,
      record {
        wire = wire;
        written = h;
        no_error = no_error;
        acknowledged = as_given ∙ acknowledged;
      },
    )

module _ (first second : ServerFrame) where
  module _ (a b : Ack) (one : Acknowledges first a) (other : Acknowledges second b) where
    by_identity :
        (moved : Bool)
        → differs a.server_msg_id b.server_msg_id a.conversation_seq b.conversation_seq
            a.server_time b.server_time
          ≡ moved
        → SameRequest a b
        → Verdict first second (reject moved result_conflict)
    by_identity true h request = conflict a b one other request λ eq.
        let none_differs =
          differs_same a.server_msg_id b.server_msg_id a.conversation_seq b.conversation_seq
            a.server_time b.server_time
            (
              ap (λ x. x.server_msg_id) eq,
              ap (λ x. x.conversation_seq) eq,
              ap (λ x. x.server_time) eq,
            ) in
        cc
    by_identity false h (client, conversation, sender) =
        let (server, seq, time) = differs-eq-false _ _ _ _ _ _ h in
        let eq : a ≡ b = cc in same a one (subst (Acknowledges second) (sym eq) other)

    by_request :
        (moved : Bool)
        → differs a.client_msg_id b.client_msg_id a.conversation_id b.conversation_id a.sender_id
            b.sender_id
          ≡ moved
        → Verdict first second (
            reject moved correlation_mismatch
            >> reject
                (differs a.server_msg_id b.server_msg_id a.conversation_seq b.conversation_seq
                  a.server_time b.server_time)
                result_conflict)
    by_request true h =
        mismatch a b one other λ request. let none_differs = differs_same _ _ _ _ _ _ request in cc
    by_request false h = by_identity _ refl (differs-eq-false _ _ _ _ _ _ h)

  by_acks :
      (x y : Option Ack) (a b : Ack)
      → Acknowledges first a
      → Acknowledges second b
      → x ≡ some a
      → y ≡ some b
      → Verdict first second (compare_acks x y)
  unfolding compare_acks
  by_acks x y a b one other hx hy = rw (hx, hy) (by_request a b one other _ refl)

  by_errors :
      (e f : Option SendError) (wire wire' : Bytes)
      → encode_server_frame first ≡ ok wire
      → encode_server_frame second ≡ ok wire'
      → first.error ≡ e
      → second.error ≡ f
      → Verdict first second (
          reject (has_error e || has_error f) (protocol_error invalid_message)
          >> compare_acks (result_ack first) (result_ack second))
  unfolding has_error
  by_errors (some v) f wire wire' h k he hf = failure (inl cc)
  by_errors none (some v) wire wire' h k he hf = failure (inr cc)
  by_errors none none wire wire' h k he hf =
      let (a, one) = Acknowledges-of first wire h he in
      let (b, other) = Acknowledges-of second wire' k hf in
      by_acks _ _ a b one other one.acknowledged other.acknowledged

  by_wires :
      (r s : Result ErrorCode Bytes)
      → encode_server_frame first ≡ r
      → encode_server_frame second ≡ s
      → Verdict first second (do
        _ ← checked r
        _ ← checked s
        reject (has_error first.error || has_error second.error) (protocol_error invalid_message)
        compare_acks (result_ack first) (result_ack second))
  unfolding checked
  by_wires (err code) s h k = first_refused code h
  by_wires (ok wire) (err code) h k = second_refused code k
  by_wires (ok wire) (ok wire') h k = by_errors _ _ wire wire' h k refl refl

  -- What CompareResults says of two frames, on every branch: where it accepts, both can be
  -- written, hold no error and have the same acknowledgement; a conflict is between two different
  -- acknowledgements of the same send of the same sender; a mismatch is between two that differ in
  -- the client identifier, the conversation or the sender; otherwise a frame cannot be written,
  -- and the code is the one of its encoder, or one of them holds an error.
  pub compare_results-Verdict : Verdict first second (compare_results first second)
  unfolding compare_results
  compare_results-Verdict = by_wires _ _ refl refl
