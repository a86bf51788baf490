-- ===== src/Protocol/RoundTrip/Skipped.antt =====
-- The objects that are written for the wire, read as values and as maps (core/protocol/go/send.go).
use new_im.Common.{
  ℕ, zero, suc, ◌+◌, ◌*◌, ◌≤◌, ◌<◌, ◌≡◌, refl, ap, ◌∙◌, List, [], ◌∷◌, ◌++◌, append_assoc, Option,
  none, some, if◌then◌else◌, length, length-append, arith,
}
use new_im.Bytes.{Bytes}
use new_im.Protocol.Json.Scan.{skip_space}
use new_im.Protocol.Json.Decoder.{
  Token, delim, string, TokenState, top, object_start, object_value, object_comma, Decoder,
  separated, separated_at, token, token_at, opened, closed, can_close, value_allowed, value_end,
  depth_after, skip_value, skip_one, members, Fields, unmarshal_object, object_at, at_end,
}
use new_im.Protocol.Send.{
  wire_bytes, quoted_wire_string, Pairs, pair_text, more_pairs, pairs_text, string_object,
}
use new_im.Protocol.RoundTrip.Quoted.{over, token-first_name, token-later_name, token-after_colon}
use new_im.Protocol.RoundTrip.Objects.{
  raw_fields, skip_value-last, skip_value-on, more_pairs-append, pairs_text-append,
  members-pairs_text,
}

pub token-close :
    (outer : TokenState) (stack : List TokenState) (rest : Bytes)
    → token (over object_comma (outer ∷ stack) (b'}' ∷ rest))
      ≡ some (delim b'}', over (value_end outer) stack rest)
unfolding token token_at separated separated_at skip_space can_close closed
token-close outer stack rest = refl

token-open :
    (rest : Bytes)
    → token (over top [] (b'{' ∷ rest)) ≡ some (delim b'{', over object_start (top ∷ []) rest)
unfolding token token_at separated separated_at skip_space value_allowed opened
token-open rest = refl

token-open_value :
    (stack : List TokenState) (rest : Bytes)
    → token (over object_value stack (b'{' ∷ rest))
      ≡ some (delim b'{', over object_start (object_value ∷ stack) rest)
unfolding token token_at separated separated_at skip_space value_allowed opened
token-open_value stack rest = refl

skip_value-more_pairs :
    (fuel : ℕ) (outer : TokenState) (stack : List TokenState) (ps : Pairs) (rest : Bytes)
    → 2 * length ps < fuel
    → skip_value fuel 1 (over object_comma (outer ∷ stack) (more_pairs ps ++ (b'}' ∷ rest)))
      ≡ some (over (value_end outer) stack rest)
unfolding depth_after
skip_value-more_pairs zero outer stack ps rest h = absurd (omega (arith, h))
skip_value-more_pairs (suc fuel) outer stack [] rest h =
    unfold more_pairs in skip_value-last fuel 1 _ _ (delim b'}') (token-close outer stack rest) refl
skip_value-more_pairs (suc zero) outer stack (p ∷ ps) rest h = absurd (omega (arith, h))
skip_value-more_pairs (suc (suc fuel)) outer stack ((key, v) ∷ ps) rest h =
    let tail = more_pairs ps ++ (b'}' ∷ rest) in
    rw (more_pairs-append (key, v) ps (b'}' ∷ rest)) (
      skip_value-on (suc fuel) 1 0 _ _ (string key)
        (token-later_name (outer ∷ stack) key (b':' ∷ (quoted_wire_string v ++ tail))) refl
      ∙ skip_value-on fuel 1 0 _ _ (string v) (token-after_colon (outer ∷ stack) v tail) refl
      ∙ skip_value-more_pairs fuel outer stack ps rest (omega (arith, h)))

pub quoted-length : (s : Bytes) → 2 ≤ length (quoted_wire_string s)
unfolding quoted_wire_string
quoted-length s = omega (arith, length-append (wire_bytes s) (b'"' ∷ []))

more_pairs-length : (ps : Pairs) → 2 * length ps ≤ length (more_pairs ps)
unfolding more_pairs
more_pairs-length [] = omega arith
more_pairs-length ((key, v) ∷ ps) = omega (
  arith,
  more_pairs-length ps,
  length-append (pair_text (key, v)) (more_pairs ps),
  length-append (quoted_wire_string key) (b':' ∷ quoted_wire_string v),
  quoted-length key,
)

pairs_text-length :
    (p : Bytes × Bytes) (ps : Pairs) (rest : Bytes)
    → 2 * length ps + 5 ≤ length (pairs_text (p ∷ ps) ++ rest)
unfolding pairs_text
pairs_text-length (key, v) ps rest = omega (
  arith,
  more_pairs-length ps,
  length-append (pair_text (key, v) ++ more_pairs ps) rest,
  length-append (pair_text (key, v)) (more_pairs ps),
  length-append (quoted_wire_string key) (b':' ∷ quoted_wire_string v),
  quoted-length key,
  quoted-length v,
)

string_object-append :
    (p : Bytes × Bytes) (ps : Pairs) (rest : Bytes)
    → string_object (p ∷ ps) ++ rest ≡ b'{' ∷ (pairs_text (p ∷ ps) ++ (b'}' ∷ rest))
unfolding string_object
string_object-append p ps rest =
    ap (λ bs. b'{' ∷ bs) (append_assoc (pairs_text (p ∷ ps)) (b'}' ∷ []) rest)

skip_value-object :
    (fuel : ℕ) (stack : List TokenState) (p : Bytes × Bytes) (ps : Pairs) (rest : Bytes)
    → 2 * length ps + 4 ≤ fuel
    → skip_value fuel 0 (over object_value stack (b'{' ∷ (pairs_text (p ∷ ps) ++ (b'}' ∷ rest))))
      ≡ some (over object_comma stack rest)
unfolding depth_after
skip_value-object zero stack p ps rest h = absurd (omega (arith, h))
skip_value-object (suc zero) stack p ps rest h = absurd (omega (arith, h))
skip_value-object (suc (suc zero)) stack p ps rest h = absurd (omega (arith, h))
skip_value-object (suc (suc (suc fuel))) stack (key, v) ps rest h =
    let tail = more_pairs ps ++ (b'}' ∷ rest) in
    skip_value-on (suc (suc fuel)) 0 0 _ _ (delim b'{') (token-open_value stack _) refl
    ∙ ap (λ bs. skip_value (suc (suc fuel)) 1 (over object_start (object_value ∷ stack) bs))
        (pairs_text-append (key, v) ps (b'}' ∷ rest))
    ∙ skip_value-on (suc fuel) 1 0 _ _ (string key)
        (token-first_name (object_value ∷ stack) key (b':' ∷ (quoted_wire_string v ++ tail))) refl
    ∙ skip_value-on fuel 1 0 _ _ (string v) (token-after_colon (object_value ∷ stack) v tail) refl
    ∙ skip_value-more_pairs fuel object_value stack ps rest (omega (arith, h))

-- An object of strings is one value.
pub skip_one-object :
    (stack : List TokenState) (p : Bytes × Bytes) (ps : Pairs) (rest : Bytes)
    → skip_one (over object_value stack (string_object (p ∷ ps) ++ rest))
      ≡ some (over object_comma stack rest)
skip_one-object stack (key, v) ps rest =
    let whole = b'{' ∷ (pairs_text ((key, v) ∷ ps) ++ (b'}' ∷ rest)) in
    ap (λ bs. skip_value (suc (length bs)) 0 (over object_value stack bs))
      (string_object-append (key, v) ps rest)
    ∙ skip_value-object (suc (length whole)) stack (key, v) ps rest
        (omega (arith, pairs_text-length (key, v) ps (b'}' ∷ rest)))

-- The map that an object fills, once its members are read and it is closed.
pub unmarshal_object-read :
    (rest : Bytes) (fields : Fields) (e : Decoder) (t : Token)
    → members (suc (length rest)) (over object_start (top ∷ []) rest) ≡ some (fields, e)
    → token e ≡ some (t, over top [] [])
    → unmarshal_object (b'{' ∷ rest) ≡ some fields
unfolding unmarshal_object object_at at_end skip_space
unmarshal_object-read rest fields e t h k =
    ap
      (λ (o : Option (Fields × Decoder)). elim o [
        | none ↦ none
        | some (found, f) ↦ elim (token f) [
          | none ↦ none
          | some (_, after) ↦ if at_end after then some found else none
        ]
      ])
      h
    ∙ ap
        (λ (o : Option (Token × Decoder)). elim o [
          | none ↦ none
          | some (_, after) ↦ if at_end after then some fields else none
        ])
        k

pub unmarshal_object-string_object :
    (p : Bytes × Bytes) (ps : Pairs)
    → unmarshal_object (string_object (p ∷ ps)) ≡ some (raw_fields (p ∷ ps))
unfolding string_object
unmarshal_object-string_object p ps =
    let rest = pairs_text (p ∷ ps) ++ (b'}' ∷ []) in
    unmarshal_object-read rest (raw_fields (p ∷ ps)) (over object_comma (top ∷ []) (b'}' ∷ []))
      (delim b'}')
      (members-pairs_text (length rest) (top ∷ []) p ps []
        (omega (arith, pairs_text-length p ps (b'}' ∷ []))))
      (token-close top [] [])
