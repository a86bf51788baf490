-- ===== src/MessageSync/Pages.antt =====
-- What a page of messages holds (server/sync/message/service.go).
use new_im.Common.{
  ℕ, ◌+◌, ◌≤◌, ◌<◌, ◌≡◌, refl, sym, ap, ◌∙◌, subst, ◌⊎◌, inl, inr, Bool, false, not, ◌||◌, List, [],
  ◌++◌, none, some, ok, err, Result, reject-eq-ok, length, length-append, append_assoc, ltb, arith,
}
use new_im.Common.Int.{pos, pos_part}
use new_im.Bytes.{Bytes}
use new_im.AuthSession.Identity.{ConnectionIdentity}
use new_im.MessageSync.Types.{
  forbidden, Failure, Item, Page, ReadRequest, ReadResult, Store, max_page_items,
  max_response_bytes, page_overhead,
}
use new_im.MessageSync.Service.{
  check_position, validate_rows, fill, answer, identifier, valid_identity, assemble, read_after_seq,
}
use new_im.MessageSync.Rows.{
  SeqRun, SeqRun-split, SeqRun-length, SeqRun-last_seq, Within, Within-split, cost,
  validate_rows-SeqRun, fill-taken,
}
use new_im.MessageSync.Assembled.{
  rows_within, page_of, assemble-parts, rows_within-split, more_left, none_left, length-empty,
}

-- A page behind the number `after`, up to `reached`, of what the store answered.
pub record IsMessagePage (id : Bytes) (result : ReadResult) (after reached : ℕ) (page : Page)
    : Type 0 where
  pub run : SeqRun after page.items reached
  pub within : Within id page.items
  pub latest : page.latest_seq ≡ result.latest_seq
  pub bound : reached ≤ pos_part page.latest_seq
  pub rest : List Item
  pub split : result.rows ≡ page.items ++ rest
  pub more : page.has_next ≡ ltb 0 (length rest)
  pub size : length page.items ≤ pos_part result.limit
  pub limited : pos_part result.limit ≤ max_page_items
  pub budget : page_overhead + cost page.items ≤ max_response_bytes
  pub next :
      ((page.items ≡ []) × (page.next_after_seq ≡ none) × (page.latest_seq ≡ pos after))
      ⊎ ((after < reached) × (page.next_after_seq ≡ some (pos reached)))

-- The numbers of a request and of the store's answer that passed the check.
pub record IsPositioned (request : ReadRequest) (result : ReadResult) : Type 0 where
  pub after : request.after_seq ≡ pos (pos_part request.after_seq)
  pub latest : result.latest_seq ≡ pos (pos_part result.latest_seq)
  pub limit : pos_part result.limit ≤ max_page_items
  pub positive : 0 < pos_part result.limit
  pub behind : pos_part request.after_seq ≤ pos_part result.latest_seq
  pub absent : request.has_after_seq ≡ false → pos_part request.after_seq ≡ 0

pub check_position-IsPositioned :
    (request : ReadRequest) (result : ReadResult)
    → check_position request result ≡ ok tt
    → IsPositioned request result
unfolding check_position
check_position-IsPositioned request result h = record {
  after = ground arith;
  latest = ground arith;
  limit = ground arith;
  positive = ground arith;
  behind = ground arith;
  absent = λ e. ground arith;
}

-- The page of what the loop took: the rows that follow the position, as far as it goes.
page_of-IsMessagePage :
    (request : ReadRequest) (result : ReadResult) (items : List Item) (stopped : Bool)
    → IsPositioned request result
    → validate_rows request result ≡ ok tt
    → fill [] page_overhead (rows_within result) ≡ ok (items, stopped)
    → (reached : ℕ) × IsMessagePage request.conversation_id result
        (pos_part request.after_seq)
        reached
        (page_of result items stopped)
page_of-IsMessagePage request result items stopped p valid filled =
    let after = pos_part request.after_seq in
    let (to, run, bound, within, nothing) =
      validate_rows-SeqRun request result (pos_part result.latest_seq) after p.after p.absent
        p.latest p.behind valid in
    let (cut, whole, is_cut, size, full) = rows_within-split result in
    let (new, rest, same, parts, budget, stop, early) =
      fill-taken [] (rows_within result) items page_overhead stopped (omega arith) filled in
    let split : result.rows ≡ items ++ (rest ++ cut) =
      whole
      ∙ ap (λ rs. rs ++ cut) (parts ∙ ap (λ n. n ++ rest) (sym same))
      ∙ append_assoc items rest cut in
    let (reached, taken, beyond) =
      SeqRun-split after to items (rest ++ cut) (subst (λ rs. SeqRun after rs to) split run) in
    let within_length : length result.rows ≡ length (rows_within result) + length cut =
      ap length whole ∙ length-append (rows_within result) cut in
    let items_length : length (rows_within result) ≡ length items + length rest =
      ap length parts ∙ length-append new rest ∙ ap (λ n. length n + length rest) (sym same) in
    let all_read = λ (e : items ≡ []). nothing (
      length-empty result.rows (
        none_left (pos_part result.limit) (length result.rows) (length (rows_within result))
          (length items) (length rest) (length cut) stopped within_length items_length p.positive
          full stop early (ap length e))) in
    (
      reached,
      record {
        run = taken;
        within =
            Within-split request.conversation_id items (rest ++ cut)
              (subst (Within request.conversation_id) split within);
        latest = refl;
        bound = omega (arith, bound, SeqRun-length reached to (rest ++ cut) beyond);
        rest = rest ++ cut;
        split = split;
        more =
            more_left (pos_part result.limit) (length result.rows) (length (rows_within result))
              (length items) (length rest) (length cut) stopped within_length items_length is_cut
              stop early
            ∙ ap (ltb 0) (sym (length-append rest cut));
        size = omega (arith, size, items_length);
        limited = p.limit;
        budget = subst (λ is. page_overhead + cost is ≤ max_response_bytes) (sym same) budget;
        next = elim (SeqRun-last_seq after reached items taken) [
          | inl (e, no_last) ↦ inl (e, no_last, p.latest ∙ ap pos (sym (all_read e)))
          | inr behind ↦ inr behind
        ];
      },
    )

answer-assemble :
    (request : ReadRequest) (r : Result Failure ReadResult) (page : Page)
    → answer request r ≡ ok page
    → (result : ReadResult) × (r ≡ ok result) × (assemble request result ≡ ok page)
unfolding answer
answer-assemble request (err failure) page h = cc
answer-assemble request (ok result) page h = (result, refl, h)

read_after_seq-answered :
    (store : Store) (identity : ConnectionIdentity) (request : ReadRequest) (page : Page)
    → read_after_seq store identity request ≡ ok page
    → (result : ReadResult) × (store identity.user_id request ≡ ok result)
      × (assemble request result ≡ ok page)
unfolding read_after_seq
read_after_seq-answered store identity request page h =
    answer-assemble request (store identity.user_id request) page
      (reject-eq-ok (not (valid_identity identity) || not (identifier request.conversation_id))
        forbidden _ h).1

-- If `ReadAfterSeq` answers a page, whatever the store is: the position asked for is not negative,
-- and the page holds the first of the rows that the store gave, all of the conversation, with the
-- numbers that follow the position without a gap and none past the latest, no more than the limit
-- of at most 100, and with a cost of at most 262144; it says that there are more exactly when a
-- row is left over; and it gives the number of its last message as the next position, or is empty,
-- and then nothing follows the position.
pub read_after_seq-IsMessagePage :
    (store : Store) (identity : ConnectionIdentity) (request : ReadRequest) (page : Page)
    → read_after_seq store identity request ≡ ok page
    → (result : ReadResult) × (store identity.user_id request ≡ ok result)
      × (request.after_seq ≡ pos (pos_part request.after_seq))
      × (reached : ℕ) × IsMessagePage request.conversation_id result
          (pos_part request.after_seq)
          reached
          page
read_after_seq-IsMessagePage store identity request page h =
    let (result, answered, made) = read_after_seq-answered store identity request page h in
    let (checked, valid, items, stopped, filled, same) = assemble-parts request result page made in
    let p = check_position-IsPositioned request result checked in
    let (reached, is_page) = page_of-IsMessagePage request result items stopped p valid filled in
    (
      result,
      answered,
      p.after,
      reached,
      subst (IsMessagePage request.conversation_id result (pos_part request.after_seq) reached)
          (sym same) is_page,
    )
