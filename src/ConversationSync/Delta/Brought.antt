-- ===== src/ConversationSync/Delta/Brought.antt =====
-- The items of a delta page are the states that the store gave (server/sync/conversation/service.go).
use new_im.Common.{
  ℕ, zero, suc, ◌<◌, ◌≡◌, refl, sym, ap, ◌∙◌, inl, inr, List, [], ◌∷◌, ◌++◌, none, some, ok,
  Result-cases, Option-cases, length, length-append, append_assoc, append-nil, take, arith,
}
use new_im.Bytes.{Bytes}
use new_im.ConversationSync.Types.{Item, Candidate, ReadRequest, ReadResult}
use new_im.ConversationSync.Cursor.{SyncCursor, ItemEnvelope}
use new_im.ConversationSync.Assemble.{
  Assembly, at_seq, append_item, envelope, delta_loop, assemble_delta,
}
use new_im.ConversationSync.Service.{Service, read}
use new_im.ConversationSync.Render.{items_of}
use new_im.ConversationSync.Delta.Runs.{select_delta_candidate-state}
use new_im.ConversationSync.Delta.Assembled.{delta_loop-step}

abbrev pub states : List Candidate → List Item
states [] = []
states (c ∷ cs) = elim c.state [ none ↦ states cs | some item ↦ item ∷ states cs ]

items_of-snoc :
    (es : List ItemEnvelope) (e : ItemEnvelope)
    → items_of (es ++ e ∷ []) ≡ items_of es ++ e.item ∷ []
items_of-snoc [] e = refl
items_of-snoc (x ∷ es) e = ap (◌∷◌ x.item) (items_of-snoc es e)

-- The candidates that a loop read.
record AreRead (a b : Assembly) (cs : List Candidate) : Type 0 where
  done : List Candidate
  rest : List Candidate
  split : cs ≡ done ++ rest
  items : items_of b.entries ≡ items_of a.entries ++ states done

states_some :
    (c : Candidate) (cs : List Candidate) (item : Item)
    → c.state ≡ some item
    → states (c ∷ cs) ≡ item ∷ states cs
states_some c cs item h = ground (arith, h)

delta_loop-AreRead :
    (limit : ℕ) (a b : Assembly) (cs : List Candidate)
    → length a.entries < limit
    → delta_loop limit a cs ≡ ok b
    → AreRead a b cs
delta_loop-AreRead limit a b [] space h =
    let same : a ≡ b = unfold delta_loop in ground arith in
    record {
      done = [];
      rest = [];
      split = refl;
      items = ap (λ x. items_of x.entries) (sym same) ∙ sym (append-nil (items_of a.entries));
    }
delta_loop-AreRead limit a b (c ∷ cs) space h =
    let (item, selected, next) = delta_loop-step limit a b c cs space h in
    let state = select_delta_candidate-state c item selected in
    let e = envelope item a.position (at_seq item.revision) in
    elim next [
      | inl (stop, _) ↦ record {
        done = c ∷ [];
        rest = cs;
        split = refl;
        items =
            ap (λ x. items_of x.entries) stop
            ∙ items_of-snoc a.entries e
            ∙ ap (λ xs. items_of a.entries ++ xs) (sym (states_some c [] item state));
      }
      | inr (go_on, left) ↦
          let r =
            delta_loop-AreRead limit (append_item a item (at_seq item.revision)) b cs
              (omega (arith, length-append a.entries (e ∷ []))) go_on in
          record {
            done = c ∷ r.done;
            rest = r.rest;
            split = ap (◌∷◌ c) r.split;
            items =
                r.items
                ∙ ap (λ xs. xs ++ states r.done) (items_of-snoc a.entries e)
                ∙ append_assoc (items_of a.entries) (item ∷ []) (states r.done)
                ∙ ap (λ xs. items_of a.entries ++ xs) (sym (states_some c r.done item state));
          }
    ]

-- The first items are those of the first candidates.
take-states :
    (keep : ℕ) (cs : List Candidate)
    → (front : List Candidate) × (back : List Candidate) × (cs ≡ front ++ back)
      × (take keep (states cs) ≡ states front)
take-states zero cs = ([], cs, refl, refl)
take-states (suc keep) [] = ([], [], refl, refl)
take-states (suc keep) (c ∷ cs) = elim (Option-cases c.state) [
  | inl missing ↦
      let (front, back, split, same) = take-states (suc keep) cs in
      (c ∷ front, back, ap (◌∷◌ c) split, ground (arith, missing, same))
  | inr (item, found) ↦
      let (front, back, split, same) = take-states keep cs in
      (
        c ∷ front,
        back,
        ap (◌∷◌ c) split,
        ap (take (suc keep)) (states_some c cs item found)
            ∙ ap (◌∷◌ item) same
            ∙ sym (states_some c front item found),
      )
]

take-map : (keep : ℕ) (es : List ItemEnvelope) → items_of (take keep es) ≡ take keep (items_of es)
take-map zero es = refl
take-map (suc keep) [] = refl
take-map (suc keep) (e ∷ es) = ap (◌∷◌ e.item) (take-map keep es)

-- The states of the first candidates that the store gave behind a position.
pub record IsBrought (s : Service) (user : Bytes) (after : ℕ) (items : List Item) : Type 0 where
  pub request : ReadRequest
  pub behind : request.after_seq ≡ after
  pub result : ReadResult
  pub answered : s.store user request ≡ ok result
  pub front : List Candidate
  pub back : List Candidate
  pub split : result.candidates ≡ front ++ back
  pub brought : items ≡ states front

read-answered :
    (s : Service) (user : Bytes) (request : ReadRequest) (r : ReadResult)
    → read s user request ≡ ok r
    → s.store user request ≡ ok r
unfolding read
read-answered s user request r h = elim (Result-cases (s.store user request)) [
  | inl (a, e) ↦ ground (arith, e, h)
  | inr (failure, e) ↦ absurd (ground (arith, e, h))
]

pub assembled-IsBrought :
    (s : Service) (user : Bytes) (request : ReadRequest) (r : ReadResult) (base : SyncCursor)
    (a : Assembly) (keep : ℕ) (items : List Item)
    → read s user request ≡ ok r
    → 0 < base.limit
    → assemble_delta r base ≡ ok a
    → items ≡ items_of (take keep a.entries)
    → IsBrought s user request.after_seq items
unfolding assemble_delta
assembled-IsBrought s user request r base a keep items answered some_limit h kept =
    let d = delta_loop-AreRead base.limit _ a r.candidates some_limit h in
    let (front, back, split, same) = take-states keep d.done in
    record {
      request = request;
      behind = refl;
      result = r;
      answered = read-answered s user request r answered;
      front = front;
      back = back ++ d.rest;
      split = d.split ∙ ap (λ xs. xs ++ d.rest) split ∙ append_assoc front back d.rest;
      brought = kept ∙ take-map keep a.entries ∙ ap (take keep) d.items ∙ same;
    }
