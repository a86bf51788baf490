-- ===== src/Protocol/RoundTrip/Wrapped.antt =====
-- The frame around an object of strings, and what is read of it (core/protocol/go/send.go).
use new_im.Common.{
  ℕ, suc, ◌-◌, ◌≤◌, ◌≡◌, refl, ap, ◌∙◌, List, [], ◌∷◌, ◌++◌, some, length, length-append, arith,
}
use new_im.Bytes.{Bytes}
use new_im.Bytes.Text.{text, decimal}
use new_im.Protocol.Json.Scan.{skip_space, scan_number}
use new_im.Protocol.Json.Decoder.{
  delim, number, TokenState, top, object_start, object_colon, object_value, object_comma, separated,
  separated_at, moved, after_colon, token, token_at, scalar_token, number_token, value_allowed,
  key_allowed, depth_after, members, Fields, unmarshal_object,
}
use new_im.Protocol.Send.{wire_byte, wire_bytes, quoted_wire_string, Pairs, string_object, wrap}
use new_im.Protocol.RoundTrip.Quoted.{over, token-first_name, token-later_name, separated-value}
use new_im.Protocol.RoundTrip.Objects.{
  skip_value-last, members-step, members-end, more_name, more_behind_comma, skip_one-quoted,
}
use new_im.Protocol.RoundTrip.Skipped.{
  token-close, quoted-length, skip_one-object, unmarshal_object-read,
}

-- The text of a frame of version 1 behind its bracket.
abbrev pub behind_kind : Bytes → Bytes
behind_kind body = b',' ∷ (quoted_wire_string (text "body") ++ (b':' ∷ (body ++ (b'}' ∷ []))))

abbrev pub behind_version : Bytes → Bytes → Bytes
behind_version kind body =
    b','
    ∷ (quoted_wire_string (text "kind") ++ (b':' ∷ (quoted_wire_string kind ++ behind_kind body)))

abbrev pub frame_text : Bytes → Bytes → Bytes
frame_text kind body =
    quoted_wire_string (text "protocolVersion") ++ (b':' ∷ b'1' ∷ behind_version kind body)

-- The fields of such a frame.
abbrev pub frame_fields : Bytes → Bytes → Fields
frame_fields kind body =
    (text "protocolVersion", b'1' ∷ [])
    ∷ (text "kind", quoted_wire_string kind)
    ∷ (text "body", body)
    ∷ []

token-one :
    (stack : List TokenState) (kind body : Bytes)
    → token (over object_value stack (b'1' ∷ behind_version kind body))
      ≡ some (number (b'1' ∷ []), over object_comma stack (behind_version kind body))
unfolding token token_at scalar_token number_token scan_number separated separated_at skip_space
    value_allowed key_allowed
token-one stack kind body = refl

separated-one :
    (stack : List TokenState) (rest : Bytes)
    → separated (over object_colon stack (b':' ∷ b'1' ∷ rest))
      ≡ some (over object_value stack (b'1' ∷ rest))
unfolding separated separated_at moved after_colon skip_space
separated-one stack rest = refl

separated-object :
    (stack : List TokenState) (ps : Pairs) (rest : Bytes)
    → separated (over object_colon stack (b':' ∷ (string_object ps ++ rest)))
      ≡ some (over object_value stack (string_object ps ++ rest))
unfolding separated separated_at moved after_colon skip_space string_object
separated-object stack ps rest = refl

module _ (stack : List TokenState) (kind : Bytes) (p : Bytes × Bytes) (ps : Pairs) where
  members-body :
      (fuel : ℕ)
      → members (suc (suc fuel)) (over object_comma stack (behind_kind (string_object (p ∷ ps))))
        ≡ some ((text "body", string_object (p ∷ ps)) ∷ [], over object_comma stack (b'}' ∷ []))
  members-body fuel =
      let body = string_object (p ∷ ps) in
      members-step (suc fuel) (over object_comma stack (behind_kind body))
        (over object_colon stack (b':' ∷ (body ++ (b'}' ∷ []))))
        (over object_value stack (body ++ (b'}' ∷ []))) (over object_comma stack (b'}' ∷ []))
        (over object_comma stack (b'}' ∷ [])) (text "body") body (b'}' ∷ []) []
        (more_behind_comma stack (text "body") (b':' ∷ (body ++ (b'}' ∷ []))))
        (token-later_name stack (text "body") (b':' ∷ (body ++ (b'}' ∷ []))))
        (separated-object stack (p ∷ ps) (b'}' ∷ [])) (skip_one-object stack p ps (b'}' ∷ [])) refl
        refl (members-end fuel object_comma stack [])

  members-kind :
      (fuel : ℕ)
      → members
          (suc (suc (suc fuel)))
          (over object_comma stack (behind_version kind (string_object (p ∷ ps))))
        ≡ some (
          (text "kind", quoted_wire_string kind) ∷ (text "body", string_object (p ∷ ps)) ∷ [],
          over object_comma stack (b'}' ∷ []),
        )
  members-kind fuel =
      let rest = behind_kind (string_object (p ∷ ps)) in
      let after_kind = b':' ∷ (quoted_wire_string kind ++ rest) in
      members-step (suc (suc fuel))
        (over object_comma stack (behind_version kind (string_object (p ∷ ps))))
        (over object_colon stack after_kind)
        (over object_value stack (quoted_wire_string kind ++ rest)) (over object_comma stack rest)
        (over object_comma stack (b'}' ∷ [])) (text "kind") (quoted_wire_string kind) rest
        ((text "body", string_object (p ∷ ps)) ∷ [])
        (more_behind_comma stack (text "kind") after_kind)
        (token-later_name stack (text "kind") after_kind) (separated-value stack kind rest)
        (skip_one-quoted stack kind rest) refl refl (members-body fuel)

  members-frame :
      (fuel : ℕ)
      → members
          (suc (suc (suc (suc fuel))))
          (over object_start stack (frame_text kind (string_object (p ∷ ps))))
        ≡ some (frame_fields kind (string_object (p ∷ ps)), over object_comma stack (b'}' ∷ []))
  unfolding depth_after
  members-frame fuel =
      let rest = behind_version kind (string_object (p ∷ ps)) in
      members-step (suc (suc (suc fuel)))
        (over object_start stack (frame_text kind (string_object (p ∷ ps))))
        (over object_colon stack (b':' ∷ b'1' ∷ rest)) (over object_value stack (b'1' ∷ rest))
        (over object_comma stack rest) (over object_comma stack (b'}' ∷ []))
        (text "protocolVersion") (b'1' ∷ []) rest
        ((text "kind", quoted_wire_string kind) ∷ (text "body", string_object (p ∷ ps)) ∷ [])
        (more_name stack (text "protocolVersion") (b':' ∷ b'1' ∷ rest))
        (token-first_name stack (text "protocolVersion") (b':' ∷ b'1' ∷ rest))
        (separated-one stack rest)
        (skip_value-last (length (b'1' ∷ rest)) 0 _ _ (number (b'1' ∷ []))
          (token-one stack kind (string_object (p ∷ ps))) refl)
        refl refl (members-kind fuel)

frame_text-length : (kind body : Bytes) → 3 ≤ length (frame_text kind body)
frame_text-length kind body = omega (
  arith,
  quoted-length (text "protocolVersion"),
  length-append (quoted_wire_string (text "protocolVersion"))
      (b':' ∷ b'1' ∷ behind_version kind body),
)

pub unmarshal_object-frame :
    (kind : Bytes) (p : Bytes × Bytes) (ps : Pairs)
    → unmarshal_object (b'{' ∷ frame_text kind (string_object (p ∷ ps)))
      ≡ some (frame_fields kind (string_object (p ∷ ps)))
unmarshal_object-frame kind p ps =
    let rest = frame_text kind (string_object (p ∷ ps)) in
    let size : suc (length rest) ≡ suc (suc (suc (suc (length rest - 3)))) =
      omega (arith, frame_text-length kind (string_object (p ∷ ps))) in
    unmarshal_object-read rest (frame_fields kind (string_object (p ∷ ps)))
      (over object_comma (top ∷ []) (b'}' ∷ [])) (delim b'}')
      (ap (λ n. members n (over object_start (top ∷ []) rest)) size
        ∙ members-frame (top ∷ []) kind p ps (length rest - 3))
      (token-close top [] [])

-- The two kinds of results.
pub wrap-ack :
    (body : Bytes) → wrap 1 (text "send_ack") body ≡ b'{' ∷ frame_text (text "send_ack") body
unfolding wrap decimal quoted_wire_string wire_bytes wire_byte
wrap-ack body = refl

pub wrap-error :
    (body : Bytes) → wrap 1 (text "send_error") body ≡ b'{' ∷ frame_text (text "send_error") body
unfolding wrap decimal quoted_wire_string wire_bytes wire_byte
wrap-error body = refl
