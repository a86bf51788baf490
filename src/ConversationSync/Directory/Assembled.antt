-- ===== src/ConversationSync/Directory/Assembled.antt =====
-- What `assembleBootstrap` gives: what the next candidates bring, as many as the limit allows.
use new_im.Common.{
  ℕ, ◌+◌, ◌≤◌, ◌<◌, ◌≡◌, refl, sym, ap, ◌∙◌, subst, ◌⊎◌, inl, inr, Bool, true, false, not, ◌||◌,
  List, [], ◌∷◌, ◌++◌, none, some, ok, >>=-eq-ok, length, length-append, append_assoc, append-nil,
  arith, Option-cases,
}
use new_im.Bytes.{Bytes}
use new_im.ConversationSync.Types.{Item, Candidate, ReadResult}
use new_im.ConversationSync.Cursor.{SyncCursor, ItemEnvelope}
use new_im.ConversationSync.Assemble.{
  Assembly, at_key, append_item, envelope, any_left, select_bootstrap_candidate, directory_loop,
  assemble_bootstrap,
}
use new_im.ConversationSync.Directory.Listed.{
  listed_item, last_key, EntriesOf, select_bootstrap_candidate-listed,
}

-- An assembly that read the candidates `done` of those it was given behind the key `from`.
pub record IsListed (limit : ℕ) (from : Bytes) (exhausted : Bool) (taken : List ItemEnvelope)
    (cs : List Candidate) (b : Assembly) : Type 0 where
  pub new : List ItemEnvelope
  pub done : List Candidate
  pub rest : List Candidate
  pub appended : b.entries ≡ taken ++ new
  pub split : cs ≡ done ++ rest
  pub entries : EntriesOf from done new
  pub position : b.position ≡ at_key (last_key from done)
  pub size : length b.entries ≤ limit
  pub finished : b.has_more ≡ false → (rest ≡ []) × (exhausted ≡ true)

directory_loop-step :
    (limit fence : ℕ) (exhausted : Bool) (a b : Assembly) (c : Candidate) (cs : List Candidate)
    → length a.entries < limit
    → directory_loop limit fence exhausted a (c ∷ cs) ≡ ok b
    → ((listed_item c ≡ none)
        × (directory_loop limit fence exhausted (record a { position = at_key c.key }) cs ≡ ok b))
      ⊎ ((item : Item) × (listed_item c ≡ some item)
          × (((b ≡ record (append_item a item (at_key c.key)) {
            has_more = any_left cs || not exhausted;
          })
                × (length a.entries + 1 ≡ limit))
              ⊎ ((directory_loop limit fence exhausted (append_item a item (at_key c.key)) cs
                    ≡ ok b)
                  × (length a.entries + 1 < limit))))
unfolding directory_loop
directory_loop-step limit fence exhausted a b c cs space h =
    let (o, selected, rest) = >>=-eq-ok (select_bootstrap_candidate c fence) _ h in
    let listed = select_bootstrap_candidate-listed c fence o selected in
    elim (Option-cases o) [
      | inl e ↦ inl (listed ∙ e, ground (arith, e, rest))
      | inr (item, e) ↦ inr (
        item,
        listed ∙ e,
        ground (
          arith,
          e,
          rest,
          length-append a.entries (envelope item a.position (at_key c.key) ∷ []),
        ),
      )
    ]

none_left :
    (cs : List Candidate) (exhausted : Bool)
    → (any_left cs || not exhausted) ≡ false
    → (cs ≡ []) × (exhausted ≡ true)
none_left [] exhausted h = (refl, ground arith)
none_left (c ∷ cs) exhausted h = cc

module _ (limit : ℕ) (exhausted : Bool) (from : Bytes) (c : Candidate) (cs : List Candidate)
    (taken : List ItemEnvelope) (b : Assembly) where
  -- A candidate that brings nothing, before those that were read.
  IsListed-skip :
      listed_item c ≡ none
      → IsListed limit c.key exhausted taken cs b
      → IsListed limit from exhausted taken (c ∷ cs) b
  IsListed-skip skip i = record {
    new = i.new;
    done = c ∷ i.done;
    rest = i.rest;
    appended = i.appended;
    split = ap (◌∷◌ c) i.split;
    entries = inl (skip, i.entries);
    position = i.position;
    size = i.size;
    finished = i.finished;
  }

  -- A candidate that brings an entry, before those that were read.
  IsListed-more :
      (e : ItemEnvelope)
      → listed_item c ≡ some e.item
      → e.before ≡ at_key from
      → IsListed limit c.key exhausted (taken ++ e ∷ []) cs b
      → IsListed limit from exhausted taken (c ∷ cs) b
  IsListed-more e brings at i = record {
    new = e ∷ i.new;
    done = c ∷ i.done;
    rest = i.rest;
    appended = i.appended ∙ append_assoc taken (e ∷ []) i.new;
    split = ap (◌∷◌ c) i.split;
    entries = inr (e, i.new, refl, brings, at, i.entries);
    position = i.position;
    size = i.size;
    finished = i.finished;
  }

directory_loop-IsListed :
    (limit fence : ℕ) (exhausted : Bool) (from : Bytes) (a b : Assembly) (cs : List Candidate)
    → a.position ≡ at_key from
    → a.has_more ≡ not exhausted
    → length a.entries < limit
    → directory_loop limit fence exhausted a cs ≡ ok b
    → IsListed limit from exhausted a.entries cs b
directory_loop-IsListed limit fence exhausted from a b [] at more space h =
    let same : a ≡ b = unfold directory_loop in ground arith in
    subst (IsListed limit from exhausted a.entries []) same (record {
      new = [];
      done = [];
      rest = [];
      appended = sym (append-nil a.entries);
      split = refl;
      entries = refl;
      position = at;
      size = omega arith;
      finished = λ f. (refl, ground (arith, more, f));
    })
directory_loop-IsListed limit fence exhausted from a b (c ∷ cs) at more space h =
    elim (directory_loop-step limit fence exhausted a b c cs space h) [
      | inl (skip, go_on) ↦ IsListed-skip limit exhausted from c cs a.entries b skip (
          directory_loop-IsListed limit fence exhausted c.key (record a { position = at_key c.key })
            b cs refl more space go_on)
      | inr (item, brings, inl (stop, full)) ↦
          let e = envelope item a.position (at_key c.key) in
          subst (IsListed limit from exhausted a.entries (c ∷ cs)) (sym stop) (record {
            new = e ∷ [];
            done = c ∷ [];
            rest = cs;
            appended = refl;
            split = refl;
            entries = inr (e, [], refl, brings, at, refl);
            position = refl;
            size = omega (arith, length-append a.entries (e ∷ []));
            finished = none_left cs exhausted;
          })
      | inr (item, brings, inr (go_on, left)) ↦
          let e = envelope item a.position (at_key c.key) in
          IsListed-more limit exhausted from c cs a.entries b e brings at (
            directory_loop-IsListed limit fence exhausted c.key (append_item a item (at_key c.key))
              b cs refl more (omega (arith, length-append a.entries (e ∷ []))) go_on)
    ]

-- The assembly of a directory read takes the next candidates as far as the limit allows, and says
-- that nothing is left only where the directory is exhausted.
pub assemble_bootstrap-IsListed :
    (r : ReadResult) (base : SyncCursor) (a : Assembly)
    → 0 < base.limit
    → assemble_bootstrap r base ≡ ok a
    → IsListed base.limit base.after_key r.directory_exhausted [] r.candidates a
unfolding assemble_bootstrap
assemble_bootstrap-IsListed r base a some_limit h =
    let start : Assembly = record {
      entries = [];
      position = at_key base.after_key;
      has_more = not r.directory_exhausted;
    } in
    let (b, looped, made) =
      >>=-eq-ok (directory_loop base.limit r.fence r.directory_exhausted start r.candidates) _ h in
    let i =
      directory_loop-IsListed base.limit r.fence r.directory_exhausted base.after_key start b
        r.candidates refl refl some_limit looped in
    let entries_same : a.entries ≡ b.entries = ground (arith, made) in
    let position_same : a.position ≡ b.position = ground (arith, made) in
    record {
      new = i.new;
      done = i.done;
      rest = i.rest;
      appended = entries_same ∙ i.appended;
      split = i.split;
      entries = i.entries;
      position = position_same ∙ i.position;
      size = subst (λ es. length es ≤ base.limit) (sym entries_same) i.size;
      finished = λ f. i.finished (ground (arith, made, f));
    }
