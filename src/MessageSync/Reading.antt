-- ===== src/MessageSync/Reading.antt =====
-- Reading a conversation page by page with `ReadAfterSeq` (server/sync/message/service.go), each page
-- after the number that the page before it gives.
use new_im.Common.{
  ℕ, zero, suc, ◌+◌, ◌≤◌, ◌≡◌, refl, sym, ap, ◌∙◌, inl, inr, true, false, List, [], ◌∷◌, ◌++◌, some,
  ok, length, append-nil, take, drop, take_all, drop-drop, length-take, ltb, arith,
}
use new_im.Common.Int.{ℤ, pos, pos_part}
use new_im.Bytes.{Bytes}
use new_im.AuthSession.Identity.{ConnectionIdentity}
use new_im.MessageSync.Types.{Item, Page, ReadRequest, ReadResult, Store}
use new_im.MessageSync.Service.{read_after_seq}
use new_im.MessageSync.Rows.{SeqRun-length}
use new_im.MessageSync.Pages.{read_after_seq-IsMessagePage}

-- The request for the page after `seq`.
abbrev pub after_page : ReadRequest → ℤ → ReadRequest
after_page request seq = record request { has_after_seq = true; after_seq = seq }

-- A reading that starts with a request, and the items that it brings.
pub data Reading (store : Store) (identity : ConnectionIdentity)
    : ReadRequest → List Item → Type 0 where
  finished :
      (request : ReadRequest) (page : Page)
      → read_after_seq store identity request ≡ ok page
      → page.has_next ≡ false
      → Reading store identity request page.items
  go_on :
      (request : ReadRequest) (page : Page) (seq : ℤ) (items : List Item)
      → read_after_seq store identity request ≡ ok page
      → page.has_next ≡ true
      → page.next_after_seq ≡ some seq
      → Reading store identity (after_page request seq) items
      → Reading store identity request (page.items ++ items)

-- A store that keeps the log of a conversation: where it answers, it gives the rows behind the
-- position, one more than the limit that it names. It may refuse any request.
pub record IsLogStore (store : Store) (user id : Bytes) (log : List Item) : Type 0 where
  pub answers :
      (request : ReadRequest) (after : ℕ) (result : ReadResult)
      → request.conversation_id ≡ id
      → request.after_seq ≡ pos after
      → store user request ≡ ok result
      → result.rows ≡ take (suc (pos_part result.limit)) (drop after log)

cut_short {ℓ} :
    {A : Type ℓ} (n : ℕ) (xs : List A) → length (take (suc n) xs) ≤ n → take (suc n) xs ≡ xs
cut_short n xs h = take_all (suc n) xs (omega (arith, length-take (suc n) xs))

-- A prefix of what was taken is a prefix of the whole.
taken-prefix {ℓ} :
    {A : Type ℓ} (n : ℕ) (xs is rest : List A)
    → take n xs ≡ is ++ rest
    → xs ≡ is ++ drop (length is) xs
taken-prefix n xs [] rest h = refl
taken-prefix zero xs (i ∷ is) rest h = absurd (cc h)
taken-prefix (suc n) [] (i ∷ is) rest h = absurd (cc h)
taken-prefix (suc n) (x ∷ xs) (i ∷ is) rest h =
    let (same, rest_same) : (x ≡ i) × (take n xs ≡ is ++ rest) = (cc h, cc h) in
    ap (λ y. y ∷ xs) same ∙ ap (◌∷◌ i) (taken-prefix n xs is rest rest_same)

no_rest {ℓ} : {A : Type ℓ} (xs : List A) → ltb 0 (length xs) ≡ false → xs ≡ []
no_rest [] h = refl
no_rest (x ∷ xs) h = absurd (ground arith)

-- What a page holds of the log.
record IsLogPage (log : List Item) (after : ℕ) (page : Page) : Type 0 where
  prefix : drop after log ≡ page.items ++ drop (after + length page.items) log
  whole : page.has_next ≡ false → page.items ≡ drop after log
  next : (seq : ℤ) → page.next_after_seq ≡ some seq → seq ≡ pos (after + length page.items)

module _ (store : Store) (identity : ConnectionIdentity) (id : Bytes) (log : List Item)
    (is_log : IsLogStore store identity.user_id id log) where
  page-IsLogPage :
      (request : ReadRequest) (page : Page)
      → request.conversation_id ≡ id
      → read_after_seq store identity request ≡ ok page
      → IsLogPage log (pos_part request.after_seq) page
  page-IsLogPage request page same h =
      let after = pos_part request.after_seq in
      let (result, answered, positive, reached, p) =
        read_after_seq-IsMessagePage store identity request page h in
      let limit = pos_part result.limit in
      let rows : take (suc limit) (drop after log) ≡ page.items ++ p.rest =
        sym (is_log.answers request after result same positive answered) ∙ p.split in
      record {
        prefix =
            taken-prefix (suc limit) (drop after log) page.items p.rest rows
            ∙ ap (λ xs. page.items ++ xs) (drop-drop after (length page.items) log);
        whole = λ done.
            let all =
              rows
              ∙ ap (λ r. page.items ++ r) (no_rest p.rest (sym p.more ∙ done))
              ∙ append-nil page.items in
            sym all ∙ cut_short limit (drop after log) (omega (arith, ap length all, p.size));
        next = λ seq e. elim p.next [
          | inl (_, no_next, _) ↦ absurd (cc (no_next, e))
          | inr (_, at) ↦
              let reached_same : seq ≡ pos reached = cc (at, e) in
              reached_same ∙ ap pos (SeqRun-length after reached page.items p.run)
        ];
      }

  -- For a store that may refuse any request and that gives, where it answers, the rows of the
  -- conversation's log behind the position, one more than the limit that it names: a reading of
  -- the conversation with `ReadAfterSeq`, each page after the number that the page before it
  -- gives, that ends with a page that says that there is no more, brings exactly the messages of
  -- the log behind the first position, each once and in order.
  pub Reading-complete :
      (request : ReadRequest) (items : List Item)
      → request.conversation_id ≡ id
      → Reading store identity request items
      → items ≡ drop (pos_part request.after_seq) log
  Reading-complete _ _ same (finished request page h done) =
      (page-IsLogPage request page same h).whole done
  Reading-complete _ _ same (go_on request page seq items h more next rest) =
      let p = page-IsLogPage request page same h in
      let tail = Reading-complete (after_page request seq) items same rest in
      ap (λ xs. page.items ++ xs) (tail ∙ ap (λ z. drop (pos_part z) log) (p.next seq next))
      ∙ sym p.prefix
