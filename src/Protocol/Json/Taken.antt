-- ===== src/Protocol/Json/Taken.antt =====
-- Every token of a decoder takes bytes of its input.
use new_im.Common.{
  ℕ, suc, ◌≤◌, ◌<◌, ◌≡◌, ap, inl, inr, Bool, true, false, ◌&&◌, List, [], ◌∷◌, Option, none, some,
  Option-cases, ◌==◌, if◌then◌else◌, length, arith,
}
use new_im.Bytes.{Bytes}
use new_im.Bytes.Text.{text}
use new_im.Protocol.Json.Scan.{
  skip_space, Piece, plain, scan_string, scan_number, scan_literal, unquoted,
}
use new_im.Protocol.Json.Decoder.{
  Token, string, TokenState, object_colon, Decoder, separated, token, value_allowed, value_end,
  key_allowed, moved, after_comma, after_colon, separated_at, closed, opened, can_close,
  string_token, literal_token, number_token, scalar_token, token_at,
}
use new_im.Protocol.Json.Scanned.{skip_space-le, Took, scan_string-Took, scan_number-Took}

-- A token that leaves fewer bytes than these.
abbrev pub TokenTook : ℕ → Option (Token × Decoder) → Type 0
TokenTook n none = Unit
TokenTook n (some (t, d)) = length d.rest < n

TokenTook-if :
    (n : ℕ) (test : Bool) (x y : Option (Token × Decoder))
    → TokenTook n x
    → TokenTook n y
    → TokenTook n (if test then x else y)
TokenTook-if n true x y h k = h
TokenTook-if n false x y h k = k

string_token-TokenTook :
    (d : Decoder) (next : TokenState) (cs : Bytes)
    → TokenTook (suc (length cs)) (string_token d next cs)
unfolding string_token
string_token-TokenTook d next cs = go (scan_string plain cs) (scan_string-Took plain cs)
  where
    go :
        (o : Option (List Piece × Bytes))
        → Took (length cs) o
        → TokenTook (suc (length cs)) (elim o [
          | none ↦ none
          | some (pieces, rest) ↦
              some (string (unquoted pieces), record { state = next; stack = d.stack; rest = rest })
        ])
    go none h = tt
    go (some (pieces, rest)) h = omega (arith, h)

scan_literal-le : (ls cs rest : Bytes) → scan_literal ls cs ≡ some rest → length rest ≤ length cs
unfolding scan_literal
scan_literal-le [] cs rest h = let same : cs ≡ rest = cc h in omega (arith, ap length same)
scan_literal-le (l ∷ ls) [] rest h = cc
scan_literal-le (l ∷ ls) (c ∷ cs) rest h = ground (arith, scan_literal-le ls cs rest)

literal_token-TokenTook :
    (d : Decoder) (ls cs : Bytes)
    → TokenTook (suc (length cs)) (literal_token d (scan_literal ls cs))
unfolding literal_token
literal_token-TokenTook d ls cs = elim (Option-cases (scan_literal ls cs)) [
  | inl bad ↦ rw bad tt
  | inr (rest, good) ↦ rw good (omega (arith, scan_literal-le ls cs rest good))
]

number_token-TokenTook :
    (d : Decoder) (cs : Bytes) (o : Option (Bytes × Bytes))
    → Took (length cs) o
    → TokenTook (length cs) (number_token d o)
unfolding number_token
number_token-TokenTook d cs none h = tt
number_token-TokenTook d cs (some (ds, rest)) h = h

scalar_token-TokenTook : (d : Decoder) (cs : Bytes) → TokenTook (length cs) (scalar_token d cs)
unfolding scalar_token
scalar_token-TokenTook d [] = tt
scalar_token-TokenTook d (c ∷ cs) =
    TokenTook-if (suc (length cs)) (c == b'"') _ _ (string_token-TokenTook d (value_end d.state) cs)
      (TokenTook-if (suc (length cs)) (c == b't') _ _ (literal_token-TokenTook d (text "rue") cs) (
        TokenTook-if (suc (length cs)) (c == b'f') _ _ (literal_token-TokenTook d (text "alse") cs)
          (TokenTook-if (suc (length cs)) (c == b'n') _ _
            (literal_token-TokenTook d (text "ull") cs)
            (number_token-TokenTook d (c ∷ cs) (scan_number (c ∷ cs))
              (scan_number-Took (c ∷ cs))))))

closed-TokenTook :
    (c : ℕ) (stack : List TokenState) (cs : Bytes) → TokenTook (suc (length cs)) (closed c stack cs)
unfolding closed
closed-TokenTook c [] cs = tt
closed-TokenTook c (outer ∷ stack) cs = omega arith

token_at-TokenTook : (d : Decoder) (cs : Bytes) → TokenTook (length cs) (token_at d cs)
unfolding token_at opened
token_at-TokenTook d [] = tt
token_at-TokenTook d (c ∷ cs) =
    let n = suc (length cs) in
    TokenTook-if n (c == b'[') _ _ (TokenTook-if n (value_allowed d.state) _ none (omega arith) tt)
      (TokenTook-if n (c == b'{') _ _
        (TokenTook-if n (value_allowed d.state) _ none (omega arith) tt)
        (TokenTook-if n (c == b']') _ _
          (TokenTook-if n (can_close true d.state) _ none (closed-TokenTook c d.stack cs) tt)
          (TokenTook-if n (c == b'}') _ _
            (TokenTook-if n (can_close false d.state) _ none (closed-TokenTook c d.stack cs) tt)
            (TokenTook-if n (c == b'"' && key_allowed d.state) _ _
              (string_token-TokenTook d object_colon cs)
              (TokenTook-if n (value_allowed d.state) _ none (scalar_token-TokenTook d (c ∷ cs))
                tt)))))

-- A decoder that is left with at most so many bytes.
abbrev Left : ℕ → Option Decoder → Type 0
Left n none = Unit
Left n (some d) = length d.rest ≤ n

moved-Left :
    (n : ℕ) (state : Option TokenState) (stack : List TokenState) (cs : Bytes)
    → length cs ≤ n
    → Left n (moved state stack cs)
unfolding moved
moved-Left n none stack cs h = tt
moved-Left n (some state) stack cs h = omega (arith, h, skip_space-le cs)

Left-if :
    (n : ℕ) (test : Bool) (x y : Option Decoder)
    → Left n x
    → Left n y
    → Left n (if test then x else y)
Left-if n true x y h k = h
Left-if n false x y h k = k

separated_at-Left : (n : ℕ) (cs : Bytes) (d : Decoder) → length cs ≤ n → Left n (separated_at cs d)
unfolding separated_at
separated_at-Left n [] d h = omega arith
separated_at-Left n (c ∷ cs) d h =
    Left-if n (c == b',') _ _ (moved-Left n (after_comma d.state) d.stack cs (omega (arith, h))) (
      Left-if n (c == b':') _ _ (moved-Left n (after_colon d.state) d.stack cs (omega (arith, h)))
        (omega (arith, h)))

pub token-TokenTook : (d : Decoder) → TokenTook (length d.rest) (token d)
unfolding token separated
token-TokenTook d =
    behind_separator (separated_at (skip_space d.rest) d)
      (separated_at-Left (length d.rest) (skip_space d.rest) d (skip_space-le d.rest))
  where
    fewer :
        (n : ℕ) (o : Option (Token × Decoder))
        → n ≤ length d.rest
        → TokenTook n o
        → TokenTook (length d.rest) o
    fewer n none h k = tt
    fewer n (some (t, e)) h k = omega (arith, h, k)

    behind_separator :
        (o : Option Decoder)
        → Left (length d.rest) o
        → TokenTook (length d.rest) (elim o [ none ↦ none | some e ↦ token_at e e.rest ])
    behind_separator none h = tt
    behind_separator (some e) h =
        fewer (length e.rest) (token_at e e.rest) h (token_at-TokenTook e e.rest)
