-- ===== src/MessageSync/Served.antt =====
-- A conversation can always be read to its end (server/sync/message/service.go).
use new_im.Common.{
  ℕ, zero, suc, ◌+◌, ◌≤◌, ◌<◌, ◌≡◌, refl, sym, ap, ◌∙◌, subst, inl, inr, true, false, List, [], ◌∷◌,
  ◌++◌, some, ok, length, take, drop, take-drop, length-take, length-drop, length-append, ltb→lt,
  All, Bool-cases, arith,
}
use new_im.Common.Int.{pos, pos_part}
use new_im.Bytes.{Bytes}
use new_im.AuthSession.Identity.{ConnectionIdentity}
use new_im.MessageSync.Types.{
  Item, Page, ReadRequest, ReadResult, Store, max_sequence, max_page_items,
}
use new_im.MessageSync.Service.{identifier, valid_identity, answer, read_after_seq}
use new_im.MessageSync.Rows.{SeqRun, SeqRun-split, SeqRun-length}
use new_im.MessageSync.Pages.{read_after_seq-IsMessagePage}
use new_im.MessageSync.Fits.{assemble-answers}
use new_im.MessageSync.Reading.{Reading, finished, go_on, after_page, IsLogStore, Reading-complete}
use new_im.MessageSync.Accepted.{IsGood, validate_rows-accepts, check_position-accepts}

-- A log of rows that the service accepts, numbered from 1 on.
pub record IsValidLog (id : Bytes) (log : List Item) : Type 0 where
  pub run : SeqRun 0 log (length log)
  pub good : (request : ReadRequest) → request.conversation_id ≡ id → All (IsGood request) log
  pub small : length log ≤ max_sequence

-- A request for a page that lies in the log: with a position up to its end, none where no position
-- is given, and a limit of at most 100, where 0 asks for the store's own.
pub record IsServable (id : Bytes) (log : List Item) (request : ReadRequest) (after : ℕ)
    : Type 0 where
  pub conversation : request.conversation_id ≡ id
  pub position : request.after_seq ≡ pos after
  pub absent : request.has_after_seq ≡ false → after ≡ 0
  pub inside : after ≤ length log
  pub asked : ℕ
  pub limit : request.limit ≡ pos asked
  pub few : asked ≤ max_page_items

-- A store that keeps the log and answers such requests: it names a limit from 1 to 100 and the end
-- of the log.
pub record ServesLog (store : Store) (user id : Bytes) (log : List Item) : Type 0 where
  pub keeps : IsLogStore store user id log
  pub serves :
      (request : ReadRequest) (after : ℕ)
      → IsServable id log request after
      → (result : ReadResult) × (store user request ≡ ok result)
        × (limit : ℕ) × (result.limit ≡ pos limit)
        × (0 < limit)
        × (limit ≤ max_page_items)
        × (result.latest_seq ≡ pos (length log))

All-append-left {ℓ κ} : {A : Type ℓ} (P : A → Type κ) (xs ys : List A) → All P (xs ++ ys) → All P xs
All-append-left P [] ys h = tt
All-append-left P (x ∷ xs) ys h = (h.0, All-append-left P xs ys h.1)

All-append-right {ℓ κ} :
    {A : Type ℓ} (P : A → Type κ) (xs ys : List A) → All P (xs ++ ys) → All P ys
All-append-right P [] ys h = h
All-append-right P (x ∷ xs) ys h = All-append-right P xs ys h.1

-- The part of a log that a page is cut from.
part-SeqRun :
    (log : List Item) (after n : ℕ)
    → SeqRun 0 log (length log)
    → after ≤ length log
    → (to : ℕ) × SeqRun after (take n (drop after log)) to × (to ≤ length log)
part-SeqRun log after n run b =
    let (mid, front, back) =
      SeqRun-split 0 (length log) (take after log) (drop after log)
        (subst (λ xs. SeqRun 0 xs (length log)) (sym (take-drop after log)) run) in
    let at : mid ≡ after =
      omega (arith, SeqRun-length 0 mid (take after log) front, length-take after log) in
    let (to, part, rest) =
      SeqRun-split after (length log) (take n (drop after log)) (drop n (drop after log)) (
        subst (λ xs. SeqRun after xs (length log)) (sym (take-drop n (drop after log)))
          (subst (λ m. SeqRun m (drop after log) (length log)) at back)) in
    (to, part, omega (arith, SeqRun-length to (length log) (drop n (drop after log)) rest))

part-All {κ} :
    (P : Item → Type κ) (log : List Item) (after n : ℕ)
    → All P log
    → All P (take n (drop after log))
part-All P log after n h = All-append-left P (take n (drop after log)) (drop n (drop after log)) (
    subst (All P) (sym (take-drop n (drop after log))) (
      All-append-right P (take after log) (drop after log)
        (subst (All P) (sym (take-drop after log)) h)))

module _ (store : Store) (identity : ConnectionIdentity) (id : Bytes) (log : List Item)
    (serving : ServesLog store identity.user_id id log) (valid : IsValidLog id log)
    (trusted : valid_identity identity ≡ true) (named : identifier id ≡ true) where
  -- What the store answers.
  abbrev logged : ℕ → ℕ → ReadResult
  logged limit after = record {
    latest_seq = pos (length log);
    limit = pos limit;
    rows = take (suc limit) (drop after log);
  }

  store-logged :
      (request : ReadRequest) (after : ℕ)
      → IsServable id log request after
      → (limit : ℕ) × (0 < limit)
        × (limit ≤ max_page_items)
        × (store identity.user_id request ≡ ok (logged limit after))
  store-logged request after s =
      let (result, answered, limit, is_limit, some_limit, few, latest) =
        serving.serves request after s in
      let rows =
        serving.keeps.answers request after result s.conversation s.position answered
        ∙ ap (λ z. take (suc (pos_part z)) (drop after log)) is_limit in
      (
        limit,
        some_limit,
        few,
        answered ∙ λ i. ok (record { latest_seq = latest i; limit = is_limit i; rows = rows i }),
      )

  page_exists :
      (request : ReadRequest) (after : ℕ)
      → IsServable id log request after
      → (page : Page) × (read_after_seq store identity request ≡ ok page)
  unfolding read_after_seq answer
  page_exists request after s =
      let (limit, some_limit, few, served) = store-logged request after s in
      let rows = take (suc limit) (drop after log) in
      let (to, run, bound) = part-SeqRun log after (suc limit) valid.run s.inside in
      let accepted =
        validate_rows-accepts request (pos limit) (length log) after to rows s.position s.absent
          valid.small bound
          (λ e. omega (
            arith,
            s.inside,
            ap length e,
            length-take (suc limit) (drop after log),
            length-drop after log,
          ))
          run
          (part-All (IsGood request) log after (suc limit) (valid.good request s.conversation)) in
      let checked =
        check_position-accepts request limit (length log) after rows s.position s.absent s.inside
          valid.small some_limit few (omega (arith, length-take (suc limit) (drop after log))) in
      let (page, made) = assemble-answers request (logged limit after) checked accepted in
      let known : identifier request.conversation_id ≡ true =
        ap identifier s.conversation ∙ named in
      (page, ground (arith, served, made, known, trusted))

  -- A page that says that there is more gives a further position of the log.
  next_position :
      (request : ReadRequest) (after : ℕ) (page : Page)
      → IsServable id log request after
      → read_after_seq store identity request ≡ ok page
      → page.has_next ≡ true
      → (reached : ℕ) × (page.next_after_seq ≡ some (pos reached))
        × (after < reached)
        × (reached ≤ length log)
  next_position request after page s h more =
      let (result, answered, at, reached, p) =
        read_after_seq-IsMessagePage store identity request page h in
      let (limit, _, _, served) = store-logged request after s in
      let after_same : pos_part request.after_seq ≡ after = ap pos_part s.position in
      let latest : pos (length log) ≡ page.latest_seq = cc (answered, served, p.latest) in
      let rows : take (suc limit) (drop after log) ≡ page.items ++ p.rest =
        cc (answered, served, p.split) in
      elim p.next [
        | inl (no_items, _, ended) ↦
            let end : length log ≡ pos_part request.after_seq = ap pos_part (latest ∙ ended) in
            absurd (
              omega (
                arith,
                ltb→lt 0 (length p.rest) (sym p.more ∙ more),
                ap length rows,
                length-append page.items p.rest,
                length-take (suc limit) (drop after log),
                length-drop after log,
                end,
                after_same,
              ))
        | inr (further, next) ↦ (
          reached,
          next,
          omega (arith, further, after_same),
          omega (arith, p.bound, ap pos_part latest),
        )
      ]

  read_from :
      (n : ℕ) (request : ReadRequest) (after : ℕ)
      → IsServable id log request after
      → length log < after + n
      → (items : List Item) × Reading store identity request items
  read_from zero request after s enough = absurd (omega (arith, s.inside))
  read_from (suc n) request after s enough =
      let (page, h) = page_exists request after s in
      elim (Bool-cases page.has_next) [
        | inr done ↦ (page.items, finished request page h done)
        | inl more ↦
            let (reached, next, further, bound) = next_position request after page s h more in
            let onward : IsServable id log (after_page request (pos reached)) reached = record {
              conversation = s.conversation;
              position = refl;
              absent = λ e. absurd (cc e);
              inside = bound;
              asked = s.asked;
              limit = s.limit;
              few = s.few;
            } in
            let (items, rest) =
              read_from n (after_page request (pos reached)) reached onward (omega arith) in
            (page.items ++ items, go_on request page (pos reached) items h more next rest)
      ]

  -- For a trusted caller and a request for the start of a conversation with a limit of at most
  -- 100, or 0 for the store's own; and a store that, where it answers, gives the rows of the
  -- conversation's log behind the position, one more than the limit that it names, and that
  -- answers every such request, and every one with a position in the log, naming a limit from 1 to
  -- 100 and the end of the log; where the log's rows are ones that the service accepts, numbered
  -- from 1 on, and fit the numbers of the service: the conversation can be read with
  -- `ReadAfterSeq` from the start, page by page, until a page says that there is no more, and the
  -- reading brings exactly the log.
  pub Reading-log :
      (request : ReadRequest) (asked : ℕ)
      → request.conversation_id ≡ id
      → request.has_after_seq ≡ false
      → request.after_seq ≡ pos 0
      → request.limit ≡ pos asked
      → asked ≤ max_page_items
      → Reading store identity request log
  Reading-log request asked same first a limit few =
      let start : IsServable id log request 0 = record {
        conversation = same;
        position = a;
        absent = λ _. refl;
        inside = omega arith;
        asked = asked;
        limit = limit;
        few = few;
      } in
      let (items, reading) = read_from (suc (length log)) request 0 start (omega arith) in
      let whole = Reading-complete store identity id log serving.keeps request items same reading in
      subst (Reading store identity request) (whole ∙ ap (λ z. drop (pos_part z) log) a) reading
