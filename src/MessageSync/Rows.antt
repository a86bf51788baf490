-- ===== src/MessageSync/Rows.antt =====
-- Rows with consecutive sequence numbers, as `validateRows` and the loop of `assemble` leave them
-- (server/sync/message/service.go).
use new_im.Common.{
  ℕ, suc, ◌+◌, ◌≤◌, ◌<◌, ◌≡◌, refl, sym, ap, ◌∙◌, subst, ◌⊎◌, inl, inr, Bool, true, false, List, [],
  ◌∷◌, ◌++◌, Option, none, some, ok, >>=-eq-ok, length, append_assoc, append-nil, ltb, arith,
}
use new_im.Common.Int.{ℤ, pos, pos_part, eqb_ℤ, eqb_ℤ_sound}
use new_im.Bytes.{Bytes, eq_bytes_sound}
use new_im.MessageSync.Types.{Item, ReadRequest, ReadResult, max_response_bytes}
use new_im.MessageSync.Service.{
  next_int64, breaks_run, bad_ids, validate_each, expected_first, validate_empty, validate_rows,
  item_cost, fill, last_seq,
}

-- The rows carry the numbers `from + 1`, `from + 2`, … and the last carries `to`.
abbrev pub SeqRun : ℕ → List Item → ℕ → Type 0
SeqRun from [] to = from ≡ to
SeqRun from (i ∷ is) to = (i.conversation_seq ≡ pos (suc from)) × SeqRun (suc from) is to

abbrev pub cost : List Item → ℕ
cost [] = 0
cost (i ∷ is) = item_cost i + cost is

pub cost-append : (is js : List Item) → cost (is ++ js) ≡ cost is + cost js
cost-append [] js = omega arith
cost-append (i ∷ is) js = omega (arith, cost-append is js)

-- All the rows are of one conversation.
abbrev pub Within : Bytes → List Item → Type 0
Within id [] = Unit
Within id (i ∷ is) = (i.conversation_id ≡ id) × Within id is

pub SeqRun-split :
    (from to : ℕ) (is js : List Item)
    → SeqRun from (is ++ js) to
    → (mid : ℕ) × SeqRun from is mid × SeqRun mid js to
SeqRun-split from to [] js h = (from, refl, h)
SeqRun-split from to (i ∷ is) js h =
    let (mid, left, right) = SeqRun-split (suc from) to is js h.1 in (mid, (h.0, left), right)

pub SeqRun-length : (from to : ℕ) (is : List Item) → SeqRun from is to → to ≡ from + length is
SeqRun-length from to [] h = omega arith
SeqRun-length from to (i ∷ is) h = omega (arith, SeqRun-length (suc from) to is h.1)

pub Within-split : (id : Bytes) (is js : List Item) → Within id (is ++ js) → Within id is
Within-split id [] js h = tt
Within-split id (i ∷ is) js h = (h.0, Within-split id is js h.1)

validate_each-step :
    (request : ReadRequest) (latest after : ℕ) (previous : Option ℤ) (row : Item) (rows : List Item)
    → request.after_seq ≡ pos after
    → validate_each request (pos latest) previous (row ∷ rows) ≡ ok tt
    → (n : ℕ) × (row.conversation_seq ≡ pos n)
      × (after < n)
      × (n ≤ latest)
      × (breaks_run previous (pos n) ≡ false)
      × (bad_ids request row ≡ false)
      × (validate_each request (pos latest) (some (pos n)) rows ≡ ok tt)
unfolding validate_each
validate_each-step request latest after previous row rows a h = ground arith

breaks_run-next : (p n : ℕ) → breaks_run (some (pos p)) (pos n) ≡ false → n ≡ suc p
unfolding breaks_run next_int64
breaks_run-next p n h = ground arith

bad_ids-same :
    (request : ReadRequest) (row : Item)
    → bad_ids request row ≡ false
    → row.conversation_id ≡ request.conversation_id
unfolding bad_ids
bad_ids-same request row h =
    eq_bytes_sound row.conversation_id request.conversation_id (ground arith)

-- What `validateRows` makes sure of, from the second row on.
validate_each-SeqRun :
    (request : ReadRequest) (latest after p : ℕ) (rows : List Item)
    → request.after_seq ≡ pos after
    → p ≤ latest
    → validate_each request (pos latest) (some (pos p)) rows ≡ ok tt
    → (to : ℕ) × SeqRun p rows to × (to ≤ latest) × Within request.conversation_id rows
validate_each-SeqRun request latest after p [] a b h = (p, refl, b, tt)
validate_each-SeqRun request latest after p (row ∷ rows) a b h =
    let (n, seq, _, within, run, ids, rest) =
      validate_each-step request latest after (some (pos p)) row rows a h in
    let next = breaks_run-next p n run in
    let (to, is_run, bound, same) =
      validate_each-SeqRun request latest after (suc p) rows a (omega arith)
        (subst (λ m. validate_each request (pos latest) (some (pos m)) rows ≡ ok tt) next rest) in
    (
      to,
      (subst (λ m. row.conversation_seq ≡ pos m) next seq, is_run),
      bound,
      (bad_ids-same request row ids, same),
    )

-- The position that the first row follows.
abbrev pub start : ReadRequest → ℕ
start request = pos_part request.after_seq

expected_first-next :
    (request : ReadRequest) (after : ℕ) (z : ℤ)
    → request.after_seq ≡ pos after
    → (request.has_after_seq ≡ false → after ≡ 0)
    → expected_first request ≡ ok z
    → z ≡ pos (suc after)
unfolding expected_first next_int64
expected_first-next request after z a absent h = ground arith

pub validate_rows-parts :
    (request : ReadRequest) (latest limit : ℤ) (row : Item) (rows : List Item)
    → validate_rows request (record { latest_seq = latest; limit = limit; rows = row ∷ rows })
      ≡ ok tt
    → (validate_each request latest none (row ∷ rows) ≡ ok tt)
      × (z : ℤ) × (expected_first request ≡ ok z)
      × (eqb_ℤ row.conversation_seq z ≡ true)
unfolding validate_rows
validate_rows-parts request latest limit row rows h =
    let (_, each, rest) = >>=-eq-ok (validate_each request latest none (row ∷ rows)) _ h in
    let (z, expected, same) = >>=-eq-ok (expected_first request) _ rest in
    (each, z, expected, ground arith)

validate_rows-list :
    (request : ReadRequest) (limit : ℤ) (latest after : ℕ) (rows : List Item)
    → request.after_seq ≡ pos after
    → (request.has_after_seq ≡ false → after ≡ 0)
    → after ≤ latest
    → validate_rows request (record { latest_seq = pos latest; limit = limit; rows = rows }) ≡ ok tt
    → (to : ℕ) × SeqRun after rows to
      × (to ≤ latest)
      × Within request.conversation_id rows
      × (rows ≡ [] → after ≡ latest)
validate_rows-list request limit latest after [] a absent b h =
    (after, refl, b, tt, λ _. unfold validate_rows validate_empty in ground arith)
validate_rows-list request limit latest after (row ∷ rows) a absent b h =
    let (each, z, expected, same) = validate_rows-parts request (pos latest) limit row rows h in
    let (n, seq, _, within, _, ids, rest) =
      validate_each-step request latest after none row rows a each in
    let first = expected_first-next request after z a absent expected in
    let next : n ≡ suc after = ground (arith, eqb_ℤ_sound row.conversation_seq z same) in
    let (to, run, bound, all) =
      validate_each-SeqRun request latest after (suc after) rows a (omega arith)
        (subst (λ m. validate_each request (pos latest) (some (pos m)) rows ≡ ok tt) next rest) in
    (
      to,
      (subst (λ m. row.conversation_seq ≡ pos m) next seq, run),
      bound,
      (bad_ids-same request row ids, all),
      λ e. absurd (cc e),
    )

-- `validateRows` accepts only the rows that follow the position without a gap, up to the latest; no
-- row at all only at the latest.
pub validate_rows-SeqRun :
    (request : ReadRequest) (result : ReadResult) (latest after : ℕ)
    → request.after_seq ≡ pos after
    → (request.has_after_seq ≡ false → after ≡ 0)
    → result.latest_seq ≡ pos latest
    → after ≤ latest
    → validate_rows request result ≡ ok tt
    → (to : ℕ) × SeqRun after result.rows to
      × (to ≤ latest)
      × Within request.conversation_id result.rows
      × (result.rows ≡ [] → after ≡ latest)
validate_rows-SeqRun request result latest after a absent l b h =
    validate_rows-list request result.limit latest after result.rows a absent b (
      subst
        (λ l'.
          validate_rows request
            (record { latest_seq = l'; limit = result.limit; rows = result.rows })
          ≡ ok tt)
        l h)

fill-step :
    (items rows out : List Item) (row : Item) (used : ℕ) (stopped : Bool)
    → fill items used (row ∷ rows) ≡ ok (out, stopped)
    → ((0 < length items) × (out ≡ items) × (stopped ≡ true))
      ⊎ ((used + item_cost row ≤ max_response_bytes)
          × (fill (items ++ row ∷ []) (used + item_cost row) rows ≡ ok (out, stopped)))
unfolding fill
fill-step items rows out row used stopped h = ground arith

-- The loop of `assemble` takes a part of the rows, within the budget; it stops early only where
-- something was taken and something is left.
pub fill-taken :
    (items rows out : List Item) (used : ℕ) (stopped : Bool)
    → used ≤ max_response_bytes
    → fill items used rows ≡ ok (out, stopped)
    → (new : List Item) × (rest : List Item) × (out ≡ items ++ new)
      × (rows ≡ new ++ rest)
      × (used + cost new ≤ max_response_bytes)
      × (stopped ≡ ltb 0 (length rest))
      × (stopped ≡ true → 0 < length out)
fill-taken items [] out used stopped b h =
    unfold fill in
    ([], [], ground (arith, append-nil items), refl, omega arith, cc h, λ e. absurd (cc (e, h)))
fill-taken items (row ∷ rows) out used stopped b h =
    elim (fill-step items rows out row used stopped h) [
      | inl (some_taken, same, stop) ↦ (
        [],
        row ∷ rows,
        ground (arith, same, append-nil items),
        refl,
        omega arith,
        ground (arith, stop),
        λ _. subst (λ o. 0 < length o) (sym same) some_taken,
      )
      | inr (fits, go_on) ↦
          let (new, rest, o, r, c, s, t) =
            fill-taken (items ++ row ∷ []) rows out (used + item_cost row) stopped fits go_on in
          (
            row ∷ new,
            rest,
            o ∙ append_assoc items (row ∷ []) new,
            ap (◌∷◌ row) r,
            omega arith,
            s,
            t,
          )
    ]

pub SeqRun-last_seq :
    (from to : ℕ) (is : List Item)
    → SeqRun from is to
    → ((is ≡ []) × (last_seq is ≡ none)) ⊎ ((from < to) × (last_seq is ≡ some (pos to)))
unfolding last_seq
SeqRun-last_seq from to [] h = inl (refl, refl)
SeqRun-last_seq from to (i ∷ []) h =
    inr (omega (arith, h.1), ap some h.0 ∙ ap (λ n. some (pos n)) h.1)
SeqRun-last_seq from to (i ∷ j ∷ is) h = elim (SeqRun-last_seq (suc from) to (j ∷ is) h.1) [
  | inl (e, _) ↦ absurd (cc e)
  | inr (b, e) ↦ inr (omega arith, e)
]
