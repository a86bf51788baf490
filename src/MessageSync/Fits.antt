-- ===== src/MessageSync/Fits.antt =====
-- Every row that `validateRows` accepts fits an empty page (server/sync/message/service.go).
use new_im.Common.{
  ℕ, ◌+◌, ◌≤◌, ◌<◌, ◌≡◌, refl, ap, ◌∙◌, subst, inl, inr, Bool, true, false, List, [], ◌∷◌, ◌++◌,
  Option, none, ok, length, length-append, ltb, arith, Bool-cases,
}
use new_im.Common.Int.{ℤ}
use new_im.Bytes.{Bytes}
use new_im.MessageSync.Rows.{validate_rows-parts}
use new_im.MessageSync.Assembled.{rows_within, rows_within-split, page_of}
use new_im.MessageSync.Types.{
  Item, Page, ReadRequest, ReadResult, max_response_bytes, page_overhead,
}
use new_im.MessageSync.Service.{
  identifier, valid_message_type, item_cost, bad_row, bad_ids, validate_each, validate_rows, fill,
  check_position, assemble,
}

identifier-length : (value : Bytes) → identifier value ≡ true → length value ≤ 128
unfolding identifier
identifier-length value h = ground arith

valid_message_type-length : (value : Bytes) → valid_message_type value ≡ true → length value ≤ 64
unfolding valid_message_type
valid_message_type-length [] h = omega arith
valid_message_type-length (c ∷ cs) h = ground arith

bad_ids-lengths :
    (request : ReadRequest) (row : Item)
    → bad_ids request row ≡ false
    → length row.server_msg_id
        + length row.client_msg_id
        + length row.sender_id
        + length row.conversation_id
      ≤ 512
unfolding bad_ids
bad_ids-lengths request row h = omega (
  arith,
  identifier-length row.server_msg_id (ground arith),
  identifier-length row.client_msg_id (ground arith),
  identifier-length row.sender_id (ground arith),
  identifier-length row.conversation_id (ground arith),
)

bad_row-lengths :
    (row : Item) → bad_row row ≡ false → length row.message_type + length row.payload ≤ 65600
unfolding bad_row
bad_row-lengths row h =
    let payload : length row.payload ≤ 65536 = ground arith in
    omega (arith, payload, valid_message_type-length row.message_type (ground arith))

validate_each-lengths :
    (request : ReadRequest) (latest : ℤ) (previous : Option ℤ) (row : Item) (rows : List Item)
    → validate_each request latest previous (row ∷ rows) ≡ ok tt
    → (bad_ids request row ≡ false) × (bad_row row ≡ false)
unfolding validate_each
validate_each-lengths request latest previous row rows h = ground arith

-- The cost of an accepted row.
item_cost-bound :
    (request : ReadRequest) (latest : ℤ) (previous : Option ℤ) (row : Item) (rows : List Item)
    → validate_each request latest previous (row ∷ rows) ≡ ok tt
    → item_cost row ≤ 66240
unfolding item_cost
item_cost-bound request latest previous row rows h =
    let (ids, good) = validate_each-lengths request latest previous row rows h in
    omega (arith, bad_ids-lengths request row ids, bad_row-lengths row good)

-- Behind the first item the loop always ends with an answer.
fill-answers :
    (items rows : List Item) (used : ℕ)
    → 0 < length items
    → (out : List Item × Bool) × (fill items used rows ≡ ok out)
unfolding fill
fill-answers items [] used h = ((items, false), refl)
fill-answers items (row ∷ rows) used h =
    let (out, answered) =
      fill-answers (items ++ row ∷ []) rows (used + item_cost row)
        (omega (arith, length-append items (row ∷ []))) in
    elim (Bool-cases (ltb max_response_bytes (used + item_cost row))) [
      | inl full ↦ ((items, true), ground (arith, full))
      | inr space ↦ (out, ground (arith, space, answered))
    ]

fill_first :
    (row : Item) (rows : List Item)
    → item_cost row ≤ 66240
    → (out : List Item × Bool) × (fill [] page_overhead (row ∷ rows) ≡ ok out)
fill_first row rows h =
    let (out, answered) =
      fill-answers (row ∷ []) rows (page_overhead + item_cost row) (omega arith) in
    (out, unfold fill in ground (arith, answered))

fill_kept :
    (rows : List Item)
    → ((row : Item) (rest : List Item) → rows ≡ row ∷ rest → item_cost row ≤ 66240)
    → (out : List Item × Bool) × (fill [] page_overhead rows ≡ ok out)
fill_kept [] h = (([], false), unfold fill in refl)
fill_kept (row ∷ rows) h = fill_first row rows (h row rows refl)

first-bound :
    (request : ReadRequest) (result : ReadResult) (row : Item) (rest : List Item)
    → validate_rows request result ≡ ok tt
    → result.rows ≡ row ∷ rest
    → item_cost row ≤ 66240
first-bound request result row rest v e =
    let list =
      subst
        (λ rs.
          validate_rows request
            (record { latest_seq = result.latest_seq; limit = result.limit; rows = rs })
          ≡ ok tt)
        e v in
    item_cost-bound request result.latest_seq none row rest
      (validate_rows-parts request result.latest_seq result.limit row rest list).0

-- The rows that are kept of those that the validation accepted, all of them or some first ones.
fill_valid :
    (request : ReadRequest) (result : ReadResult)
    → validate_rows request result ≡ ok tt
    → (out : List Item × Bool) × (fill [] page_overhead (rows_within result) ≡ ok out)
fill_valid request result v =
    let (cut, whole, _, _, _) = rows_within-split result in
    fill_kept (rows_within result) (λ row rest e.
      first-bound request result row (rest ++ cut) v (whole ∙ ap (λ rs. rs ++ cut) e))

-- Whatever the store answered: if the answer passes the checks of the position and of the rows,
-- the assembly gives a page, since no accepted row is too large for an empty page.
pub assemble-answers :
    (request : ReadRequest) (result : ReadResult)
    → check_position request result ≡ ok tt
    → validate_rows request result ≡ ok tt
    → (page : Page) × (assemble request result ≡ ok page)
unfolding assemble
assemble-answers request result checked valid =
    let ((items, stopped), filled) = fill_valid request result valid in
    (page_of result items stopped, ground (arith, checked, valid, filled))
