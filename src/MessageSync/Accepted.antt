-- ===== src/MessageSync/Accepted.antt =====
-- Which positions and rows the service accepts (server/sync/message/service.go).
use new_im.Common.{
  ℕ, suc, ◌≤◌, ◌<◌, ◌≡◌, refl, ap, ◌∙◌, ◌⊎◌, inl, inr, false, List, [], ◌∷◌, Option, none, some, ok,
  length, All, arith,
}
use new_im.Common.Int.{ℤ, pos}
use new_im.MessageSync.Types.{Item, ReadRequest, max_sequence, max_page_items}
use new_im.MessageSync.Service.{
  next_int64, bad_row, bad_ids, breaks_run, validate_each, expected_first, validate_empty,
  validate_rows, check_position,
}
use new_im.MessageSync.Rows.{SeqRun, SeqRun-length}

-- A row that the service does not reject.
abbrev pub IsGood : ReadRequest → Item → Type 0
IsGood request row = (bad_ids request row ≡ false) × (bad_row row ≡ false)

breaks_run_next : (p : ℕ) → p < max_sequence → breaks_run (some (pos p)) (pos (suc p)) ≡ false
unfolding breaks_run next_int64
breaks_run_next p h = ground arith

no_break :
    (previous : Option ℤ) (p : ℕ)
    → (previous ≡ none) ⊎ (previous ≡ some (pos p))
    → p < max_sequence
    → breaks_run previous (pos (suc p)) ≡ false
no_break previous p (inl e) h = ap (λ o. breaks_run o (pos (suc p))) e ∙ unfold breaks_run in refl
no_break previous p (inr e) h = ap (λ o. breaks_run o (pos (suc p))) e ∙ breaks_run_next p h

validate_each-accepts :
    (request : ReadRequest) (latest after p to : ℕ) (previous : Option ℤ) (rows : List Item)
    → request.after_seq ≡ pos after
    → after ≤ p
    → to ≤ latest
    → latest ≤ max_sequence
    → SeqRun p rows to
    → All (IsGood request) rows
    → (previous ≡ none) ⊎ (previous ≡ some (pos p))
    → validate_each request (pos latest) previous rows ≡ ok tt
unfolding validate_each
validate_each-accepts request latest after p to previous [] a b c d run good before = refl
validate_each-accepts request latest after p to previous (row ∷ rows) a b c d run good before =
    let bound = SeqRun-length (suc p) to rows run.1 in
    let unbroken = no_break previous p before (omega arith) in
    let rest =
      validate_each-accepts request latest after (suc p) to (some (pos (suc p))) rows a
        (omega arith) c d run.1 good.1 (inr refl) in
    ground (arith, a, run.0, bound, good.0.0, good.0.1, unbroken, rest)

expected_first-accepts :
    (request : ReadRequest) (after : ℕ)
    → request.after_seq ≡ pos after
    → (request.has_after_seq ≡ false → after ≡ 0)
    → after < max_sequence
    → expected_first request ≡ ok (pos (suc after))
unfolding expected_first next_int64
expected_first-accepts request after a absent h = ground arith

-- The rows that follow a position up to the latest one, or the first of them, are accepted.
pub validate_rows-accepts :
    (request : ReadRequest) (limit : ℤ) (latest after to : ℕ) (rows : List Item)
    → request.after_seq ≡ pos after
    → (request.has_after_seq ≡ false → after ≡ 0)
    → latest ≤ max_sequence
    → to ≤ latest
    → (rows ≡ [] → after ≡ latest)
    → SeqRun after rows to
    → All (IsGood request) rows
    → validate_rows request (record { latest_seq = pos latest; limit = limit; rows = rows }) ≡ ok tt
unfolding validate_rows validate_empty
validate_rows-accepts request limit latest after to [] a absent d c none_left run good =
    ground (arith, none_left refl)
validate_rows-accepts request limit latest after to (row ∷ rows) a absent d c none_left run good =
    let bound = SeqRun-length (suc after) to rows run.1 in
    let each =
      validate_each-accepts request latest after after to none (row ∷ rows) a (omega arith) c d run
        good (inl refl) in
    let expected = expected_first-accepts request after a absent (omega arith) in
    ground (arith, each, expected, run.0)

pub check_position-accepts :
    (request : ReadRequest) (limit latest after : ℕ) (rows : List Item)
    → request.after_seq ≡ pos after
    → (request.has_after_seq ≡ false → after ≡ 0)
    → after ≤ latest
    → latest ≤ max_sequence
    → 0 < limit
    → limit ≤ max_page_items
    → length rows ≤ suc limit
    → check_position request (record { latest_seq = pos latest; limit = pos limit; rows = rows })
      ≡ ok tt
unfolding check_position
check_position-accepts request limit latest after rows a absent b c d e f = ground arith
