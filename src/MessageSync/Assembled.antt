-- ===== src/MessageSync/Assembled.antt =====
-- The parts of a page that `assemble` makes (server/sync/message/service.go).
use new_im.Common.{
  ℕ, ◌+◌, ◌≤◌, ◌<◌, ◌≡◌, refl, inl, inr, Bool, true, ◌&&◌, ◌||◌, List, [], ◌∷◌, ◌++◌, ok, >>=-eq-ok,
  length, append-nil, take, drop, take-drop, length-take, length-drop, ltb, if◌then◌else◌, arith,
  Bool-cases,
}
use new_im.Common.Int.{pos_part}
use new_im.MessageSync.Types.{Item, Page, ReadRequest, ReadResult, page_overhead}
use new_im.MessageSync.Service.{check_position, validate_rows, fill, last_seq, assemble}

-- What the first page is cut from.
abbrev pub rows_within : ReadResult → List Item
rows_within r =
    if ltb (pos_part r.limit) (length r.rows) then take (pos_part r.limit) r.rows else r.rows

-- A page that the code made from what the loop took.
abbrev pub page_of : ReadResult → List Item → Bool → Page
page_of r items stopped = record {
  items = items;
  latest_seq = r.latest_seq;
  has_next =
      ltb (pos_part r.limit) (length r.rows)
      || stopped
      || (ltb (length items) (length (rows_within r)) && ltb 0 (length items));
  next_after_seq = last_seq items;
}

pub assemble-parts :
    (request : ReadRequest) (result : ReadResult) (page : Page)
    → assemble request result ≡ ok page
    → (check_position request result ≡ ok tt)
      × (validate_rows request result ≡ ok tt)
      × (items : List Item) × (stopped : Bool) × (fill [] page_overhead (rows_within result)
          ≡ ok (items, stopped))
      × (page ≡ page_of result items stopped)
unfolding assemble
assemble-parts request result page h =
    let (_, checked, h1) = >>=-eq-ok (check_position request result) _ h in
    let (_, valid, h2) = >>=-eq-ok (validate_rows request result) _ h1 in
    let ((items, stopped), filled, same) =
      >>=-eq-ok (fill [] page_overhead (rows_within result)) _ h2 in
    (checked, valid, items, stopped, filled, ground (arith, same))

-- What is within the limit, and the rows that the limit cut off.
pub rows_within-split :
    (r : ReadResult)
    → (cut : List Item) × (r.rows ≡ rows_within r ++ cut)
      × (ltb (pos_part r.limit) (length r.rows) ≡ ltb 0 (length cut))
      × (length (rows_within r) ≤ pos_part r.limit)
      × (0 < length cut → length (rows_within r) ≡ pos_part r.limit)
rows_within-split r =
    let n = pos_part r.limit in
    elim (Bool-cases (ltb n (length r.rows))) [
      | inl long ↦ (
        drop n r.rows,
        ground (arith, long, take-drop n r.rows),
        ground (arith, long, length-drop n r.rows),
        ground (arith, long, length-take n r.rows),
        λ _. ground (arith, long, length-take n r.rows),
      )
      | inr short ↦ (
        [],
        ground (arith, short, append-nil r.rows),
        short,
        ground (arith, short),
        λ some_cut. absurd (omega arith),
      )
    ]

-- More are left exactly where the limit or the budget left something.
pub more_left :
    (limit rows within items rest cut : ℕ) (stopped : Bool)
    → rows ≡ within + cut
    → within ≡ items + rest
    → ltb limit rows ≡ ltb 0 cut
    → stopped ≡ ltb 0 rest
    → (stopped ≡ true → 0 < items)
    → (ltb limit rows || stopped || (ltb items within && ltb 0 items)) ≡ ltb 0 (rest + cut)
more_left limit rows within items rest cut stopped a b c d e = ground arith

pub none_left :
    (limit rows within items rest cut : ℕ) (stopped : Bool)
    → rows ≡ within + cut
    → within ≡ items + rest
    → 0 < limit
    → (0 < cut → within ≡ limit)
    → stopped ≡ ltb 0 rest
    → (stopped ≡ true → 0 < items)
    → items ≡ 0
    → rows ≡ 0
none_left limit rows within items rest cut stopped a b c d e f g = ground arith

pub length-empty {ℓ} : {A : Type ℓ} (xs : List A) → length xs ≡ 0 → xs ≡ []
length-empty [] h = refl
length-empty (x ∷ xs) h = absurd (omega arith)
