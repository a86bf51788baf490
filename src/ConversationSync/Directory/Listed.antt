-- ===== src/ConversationSync/Directory/Listed.antt =====
-- The items of a directory, and the entries that the assembly makes of its candidates
-- (server/sync/conversation/service.go).
use new_im.Common.{
  ℕ, zero, suc, ◌≤◌, ◌≡◌, refl, sym, ap, ◌∙◌, ◌⊎◌, inl, inr, true, List, [], ◌∷◌, ◌++◌, Option,
  none, some, ok, length, take, if◌then◌else◌, arith,
}
use new_im.Bytes.{Bytes, lt_bytes}
use new_im.ConversationSync.Types.{Item, upsert, Candidate}
use new_im.ConversationSync.Cursor.{ItemEnvelope}
use new_im.ConversationSync.Assemble.{at_key, select_bootstrap_candidate, refuse_latest}
use new_im.ConversationSync.Render.{items_of, position_at}

-- What a candidate brings to the directory: its state, if the account is a member.
abbrev pub listed_item : Candidate → Option Item
listed_item c = elim c.state [
  | none ↦ none
  | some item ↦ elim item.kind [ upsert ↦ if c.member then some item else none | _ ↦ none ]
]

abbrev pub with_item : Option Item → List Item → List Item
with_item none items = items
with_item (some item) items = item ∷ items

abbrev pub listed : List Candidate → List Item
listed [] = []
listed (c ∷ cs) = with_item (listed_item c) (listed cs)

-- The key of the last candidate, or the one before them all.
abbrev pub last_key : Bytes → List Candidate → Bytes
last_key from [] = from
last_key from (c ∷ cs) = last_key c.key cs

-- The keys rise from one candidate to the next.
abbrev pub Rising : Bytes → List Candidate → Type 0
Rising from [] = Unit
Rising from (c ∷ cs) = (lt_bytes from c.key ≡ true) × Rising c.key cs

pub Rising-front : (from : Bytes) (cs ds : List Candidate) → Rising from (cs ++ ds) → Rising from cs
Rising-front from [] ds h = tt
Rising-front from (c ∷ cs) ds h = (h.0, Rising-front c.key cs ds h.1)

-- The entries that candidates bring, each with the position behind the candidate before it.
abbrev pub EntriesOf : Bytes → List Candidate → List ItemEnvelope → Type 0
EntriesOf from [] es = es ≡ []
EntriesOf from (c ∷ cs) es =
    ((listed_item c ≡ none) × EntriesOf c.key cs es)
    ⊎ ((e : ItemEnvelope) × (rest : List ItemEnvelope) × (es ≡ e ∷ rest)
        × (listed_item c ≡ some e.item)
        × (e.before ≡ at_key from)
        × EntriesOf c.key cs rest)

-- What is selected is what the candidate brings.
pub select_bootstrap_candidate-listed :
    (c : Candidate) (fence : ℕ) (o : Option Item)
    → select_bootstrap_candidate c fence ≡ ok o
    → listed_item c ≡ o
unfolding select_bootstrap_candidate refuse_latest
select_bootstrap_candidate-listed c fence o h = ground arith

-- The first candidates, which bring the first entries.
pub record Front (from : Bytes) (cs : List Candidate) (es : List ItemEnvelope) (keep : ℕ)
    : Type 0 where
  pub front : List Candidate
  pub back : List Candidate
  pub split : cs ≡ front ++ back
  pub items : items_of (take keep es) ≡ listed front
  pub position : position_at es (at_key (last_key from cs)) keep ≡ at_key (last_key from front)
  pub all : keep ≡ length es → back ≡ []

pub EntriesOf-Front :
    (from : Bytes) (cs : List Candidate) (es : List ItemEnvelope) (keep : ℕ)
    → EntriesOf from cs es
    → keep ≤ length es
    → Front from cs es keep
unfolding position_at
EntriesOf-Front from [] es keep h b =
    let none_kept : keep ≡ 0 = omega (arith, ap length h) in
    record {
      front = [];
      back = [];
      split = refl;
      items = ap (λ n. items_of (take n es)) none_kept;
      position = ap (λ xs. position_at xs (at_key from) keep) h;
      all = λ _. refl;
    }
EntriesOf-Front from (c ∷ cs) es keep (inl (skip, h)) b =
    let f = EntriesOf-Front c.key cs es keep h b in
    record {
      front = c ∷ f.front;
      back = f.back;
      split = ap (◌∷◌ c) f.split;
      items = f.items ∙ ap (λ o. with_item o (listed f.front)) (sym skip);
      position = f.position;
      all = f.all;
    }
EntriesOf-Front from (c ∷ cs) es zero (inr (e, rest, same, item, before, h)) b = record {
  front = [];
  back = c ∷ cs;
  split = refl;
  items = refl;
  position = ap (λ xs. position_at xs (at_key (last_key from (c ∷ cs))) 0) same ∙ before;
  all = λ z. absurd (omega (arith, z, ap length same));
}
EntriesOf-Front from (c ∷ cs) es (suc keep) (inr (e, rest, same, item, before, h)) b =
    let f = EntriesOf-Front c.key cs rest keep h (omega (arith, ap length same)) in
    record {
      front = c ∷ f.front;
      back = f.back;
      split = ap (◌∷◌ c) f.split;
      items =
          ap (λ xs. items_of (take (suc keep) xs)) same
          ∙ ap (◌∷◌ e.item) f.items
          ∙ ap (λ o. with_item o (listed f.front)) (sym item);
      position =
          ap (λ xs. position_at xs (at_key (last_key c.key cs)) (suc keep)) same ∙ f.position;
      all = λ z. f.all (omega (arith, z, ap length same));
    }
