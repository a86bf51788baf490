-- ===== src/Protocol/RoundTrip/Objects.antt =====
-- The objects that are written for the wire (core/protocol/go/send.go).
use new_im.Common.{
  ℕ, zero, suc, ◌-◌, ◌<◌, ◌≡◌, refl, ap, ◌∙◌, true, List, [], ◌∷◌, ◌++◌, append_assoc, some, length,
  take, length-append, take-append, map, arith,
}
use new_im.Bytes.{Bytes}
use new_im.Protocol.Json.Scan.{skip_space}
use new_im.Protocol.Json.Decoder.{
  Token, string, TokenState, object_start, object_colon, object_value, object_comma, Decoder,
  separated, token, more, more_at, read_between, depth_after, skip_value, skip_one, members, Fields,
}
use new_im.Protocol.Send.{quoted_wire_string, Pairs, pair_text, more_pairs, pairs_text}
use new_im.Protocol.RoundTrip.Quoted.{
  over, token-first_name, token-later_name, token-value, separated-value, quoted-starts,
}

-- What was read is the text before what is left.
pub read_between-append :
    (raw rest : Bytes) (before after : Decoder)
    → before.rest ≡ raw ++ rest
    → after.rest ≡ rest
    → read_between before after ≡ raw
unfolding read_between
read_between-append raw rest before after h k =
    let size : length before.rest - length after.rest ≡ length raw =
      omega (arith, ap length h, ap length k, length-append raw rest) in
    ap (λ n. take n before.rest) size ∙ ap (take (length raw)) h ∙ take-append raw rest

-- One member of an object, before the others.
pub members-step :
    (fuel : ℕ) (d e v after end : Decoder) (key raw rest : Bytes) (fields : Fields)
    → more d ≡ true
    → token d ≡ some (string key, e)
    → separated e ≡ some v
    → skip_one v ≡ some after
    → v.rest ≡ raw ++ rest
    → after.rest ≡ rest
    → members fuel after ≡ some (fields, end)
    → members (suc fuel) d ≡ some ((key, raw) ∷ fields, end)
unfolding members
members-step fuel d e v after end key raw rest fields m t s k h i others =
    rw (m, t, s, k, others, read_between-append raw rest v after h i) refl

-- The raw values of an object of strings.
abbrev pub raw_fields : Pairs → Fields
raw_fields = map (λ (p : Bytes × Bytes). (p.0, quoted_wire_string p.1))

pub skip_value-last :
    (fuel depth : ℕ) (d e : Decoder) (t : Token)
    → token d ≡ some (t, e)
    → depth_after t depth ≡ zero
    → skip_value (suc fuel) depth d ≡ some e
unfolding skip_value
skip_value-last fuel depth d e t h k = rw (h, k, skip_value) refl

pub skip_value-on :
    (fuel depth left : ℕ) (d e : Decoder) (t : Token)
    → token d ≡ some (t, e)
    → depth_after t depth ≡ suc left
    → skip_value (suc fuel) depth d ≡ skip_value fuel (suc left) e
unfolding skip_value
skip_value-on fuel depth left d e t h k = rw (h, k, skip_value) refl

pub skip_one-quoted :
    (stack : List TokenState) (s rest : Bytes)
    → skip_one (over object_value stack (quoted_wire_string s ++ rest))
      ≡ some (over object_comma stack rest)
unfolding depth_after
skip_one-quoted stack s rest =
    skip_value-last (length (quoted_wire_string s ++ rest)) 0 _ _ (string s)
      (token-value stack s rest) refl

pair-append :
    (p : Bytes × Bytes) (rest : Bytes)
    → pair_text p ++ rest ≡ quoted_wire_string p.0 ++ (b':' ∷ (quoted_wire_string p.1 ++ rest))
pair-append p rest = append_assoc (quoted_wire_string p.0) (b':' ∷ quoted_wire_string p.1) rest

-- A member behind its comma, as the decoder meets it.
abbrev pub behind_comma : Bytes × Bytes → Bytes → Bytes
behind_comma p rest = b',' ∷ (quoted_wire_string p.0 ++ (b':' ∷ (quoted_wire_string p.1 ++ rest)))

pub more_pairs-append :
    (p : Bytes × Bytes) (ps : Pairs) (rest : Bytes)
    → more_pairs (p ∷ ps) ++ rest ≡ behind_comma p (more_pairs ps ++ rest)
unfolding more_pairs
more_pairs-append p ps rest =
    ap (λ bs. b',' ∷ bs)
      (append_assoc (pair_text p) (more_pairs ps) rest ∙ pair-append p (more_pairs ps ++ rest))

pub members-end :
    (fuel : ℕ) (state : TokenState) (stack : List TokenState) (rest : Bytes)
    → members (suc fuel) (over state stack (b'}' ∷ rest))
      ≡ some ([], over state stack (b'}' ∷ rest))
unfolding members more more_at skip_space
members-end fuel state stack rest = refl

pub more_behind_comma :
    (stack : List TokenState) (key rest : Bytes)
    → more (over object_comma stack (b',' ∷ (quoted_wire_string key ++ rest))) ≡ true
unfolding more more_at skip_space
more_behind_comma stack key rest = refl

pub more_name :
    (stack : List TokenState) (key rest : Bytes)
    → more (over object_start stack (quoted_wire_string key ++ rest)) ≡ true
unfolding more more_at skip_space
more_name stack key rest = rw ((quoted-starts key rest).1) refl

pub pairs_text-append :
    (p : Bytes × Bytes) (ps : Pairs) (rest : Bytes)
    → pairs_text (p ∷ ps) ++ rest
      ≡ quoted_wire_string p.0 ++ (b':' ∷ (quoted_wire_string p.1 ++ (more_pairs ps ++ rest)))
unfolding pairs_text
pairs_text-append p ps rest =
    append_assoc (pair_text p) (more_pairs ps) rest ∙ pair-append p (more_pairs ps ++ rest)

members-more_pairs :
    (fuel : ℕ) (stack : List TokenState) (ps : Pairs) (rest : Bytes)
    → length ps < fuel
    → members fuel (over object_comma stack (more_pairs ps ++ (b'}' ∷ rest)))
      ≡ some (raw_fields ps, over object_comma stack (b'}' ∷ rest))
members-more_pairs zero stack ps rest h = absurd (omega (arith, h))
members-more_pairs (suc fuel) stack [] rest h =
    unfold more_pairs in members-end fuel object_comma stack rest
members-more_pairs (suc fuel) stack ((key, v) ∷ ps) rest h =
    let tail = more_pairs ps ++ (b'}' ∷ rest) in
    rw (more_pairs-append (key, v) ps (b'}' ∷ rest)) (
      members-step fuel (over object_comma stack (behind_comma (key, v) tail))
        (over object_colon stack (b':' ∷ (quoted_wire_string v ++ tail)))
        (over object_value stack (quoted_wire_string v ++ tail)) (over object_comma stack tail)
        (over object_comma stack (b'}' ∷ rest)) key (quoted_wire_string v) tail (raw_fields ps)
        (more_behind_comma stack key (b':' ∷ (quoted_wire_string v ++ tail)))
        (token-later_name stack key (b':' ∷ (quoted_wire_string v ++ tail)))
        (separated-value stack v tail) (skip_one-quoted stack v tail) refl refl
        (members-more_pairs fuel stack ps rest (omega (arith, h))))

-- The members of an object, its first and the others.
pub members-pairs_text :
    (fuel : ℕ) (stack : List TokenState) (p : Bytes × Bytes) (ps : Pairs) (rest : Bytes)
    → length ps < fuel
    → members (suc fuel) (over object_start stack (pairs_text (p ∷ ps) ++ (b'}' ∷ rest)))
      ≡ some (raw_fields (p ∷ ps), over object_comma stack (b'}' ∷ rest))
members-pairs_text fuel stack (key, v) ps rest h =
    let tail = more_pairs ps ++ (b'}' ∷ rest) in
    rw (pairs_text-append (key, v) ps (b'}' ∷ rest)) (
      members-step fuel
        (over object_start stack
          (quoted_wire_string key ++ (b':' ∷ (quoted_wire_string v ++ tail))))
        (over object_colon stack (b':' ∷ (quoted_wire_string v ++ tail)))
        (over object_value stack (quoted_wire_string v ++ tail)) (over object_comma stack tail)
        (over object_comma stack (b'}' ∷ rest)) key (quoted_wire_string v) tail (raw_fields ps)
        (more_name stack key (b':' ∷ (quoted_wire_string v ++ tail)))
        (token-first_name stack key (b':' ∷ (quoted_wire_string v ++ tail)))
        (separated-value stack v tail) (skip_one-quoted stack v tail) refl refl
        (members-more_pairs fuel stack ps rest h))
