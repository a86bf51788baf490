-- ===== src/ConversationSync/Delta/Assembled.antt =====
-- What `assembleDelta` gives: the next revisions, as many as the limit allows.
use new_im.Common.{
  ℕ, ◌+◌, ◌≤◌, ◌<◌, ◌≡◌, refl, sym, subst, ◌∙◌, ◌⊎◌, inl, inr, List, [], ◌∷◌, ok, >>=-eq-ok, ltb,
  length, length-append, arith,
}
use new_im.ConversationSync.Types.{Item, Candidate, ReadResult}
use new_im.ConversationSync.Cursor.{SyncCursor}
use new_im.ConversationSync.Validate.{validate_delta_candidates, validate_revisions}
use new_im.ConversationSync.Assemble.{
  Assembly, at_seq, append_item, envelope, any_left, select_delta_candidate, delta_loop,
  assemble_delta,
}
use new_im.ConversationSync.Delta.Runs.{
  EntryRun, EntryRun-snoc, EntryRun-length, StateRun, StateRun-length, validate_revisions-StateRun,
  select_delta_candidate-state,
}

-- An assembly that took the revisions behind `start` up to `reached`, of those up to `last`.
pub record IsAssembled (limit start last reached : ℕ) (a : Assembly) : Type 0 where
  pub run : EntryRun start a.entries reached
  pub position : a.position ≡ at_seq reached
  pub within : reached ≤ last
  pub size : length a.entries ≤ limit
  pub more : a.has_more ≡ ltb reached last

any_left-ltb : (p last : ℕ) (cs : List Candidate) → StateRun p cs last → any_left cs ≡ ltb p last
any_left-ltb p last [] h = ground arith
any_left-ltb p last (c ∷ cs) h = ground (arith, StateRun-length p last (c ∷ cs) h)

pub delta_loop-step :
    (limit : ℕ) (a b : Assembly) (c : Candidate) (cs : List Candidate)
    → length a.entries < limit
    → delta_loop limit a (c ∷ cs) ≡ ok b
    → (item : Item) × (select_delta_candidate c ≡ ok item)
      × (((b ≡ record (append_item a item (at_seq item.revision)) { has_more = any_left cs })
            × (length a.entries + 1 ≡ limit))
          ⊎ ((delta_loop limit (append_item a item (at_seq item.revision)) cs ≡ ok b)
              × (length a.entries + 1 < limit)))
unfolding delta_loop
delta_loop-step limit a b c cs room h =
    let (item, selected, rest) = >>=-eq-ok (select_delta_candidate c) _ h in
    (
      item,
      selected,
      ground (
        arith,
        rest,
        length-append a.entries (envelope item a.position (at_seq item.revision) ∷ []),
      ),
    )

selected-StateRun :
    (p last : ℕ) (c : Candidate) (cs : List Candidate) (item : Item)
    → StateRun p (c ∷ cs) last
    → select_delta_candidate c ≡ ok item
    → (item.revision ≡ p + 1) × StateRun item.revision cs last
selected-StateRun p last c cs item (other_item, state, next, rest) h =
    let same : other_item ≡ item = cc (select_delta_candidate-state c item h) in
    (subst (λ i. i.revision ≡ p + 1) same next, subst (λ i. StateRun i.revision cs last) same rest)

-- Appending the next item keeps the assembly in order.
append_item-run :
    (start p : ℕ) (a : Assembly) (item : Item)
    → EntryRun start a.entries p
    → a.position ≡ at_seq p
    → item.revision ≡ p + 1
    → EntryRun start (append_item a item (at_seq item.revision)).entries item.revision
append_item-run start p a item run at next =
    EntryRun-snoc start p a.entries (envelope item a.position (at_seq item.revision)) run at next

length-append_item :
    (a : Assembly) (item : Item)
    → length (append_item a item (at_seq item.revision)).entries ≡ length a.entries + 1
length-append_item a item =
    omega (arith, length-append a.entries (envelope item a.position (at_seq item.revision) ∷ []))

delta_loop-IsAssembled :
    (limit start p last : ℕ) (a b : Assembly) (cs : List Candidate)
    → EntryRun start a.entries p
    → a.position ≡ at_seq p
    → StateRun p cs last
    → length a.entries < limit
    → a.has_more ≡ ltb limit (length a.entries + length cs)
    → delta_loop limit a cs ≡ ok b
    → (reached : ℕ) × IsAssembled limit start last reached b
delta_loop-IsAssembled limit start p last a b [] run at states room more h =
    let same : a ≡ b = unfold delta_loop in ground arith in
    (
      p,
      record {
        run = ground (arith, run);
        position = ground arith;
        within = omega arith;
        size = ground arith;
        more = ground arith;
      },
    )
delta_loop-IsAssembled limit start p last a b (c ∷ cs) run at states room more h =
    let (item, selected, rest) = delta_loop-step limit a b c cs room h in
    let (next, after) = selected-StateRun p last c cs item states selected in
    let longer = length-append_item a item in
    let run' = append_item-run start p a item run at next in
    elim rest [
      | inl (stop, full) ↦ (
        item.revision,
        subst (IsAssembled limit start last item.revision) (sym stop) (record {
          run = run';
          position = refl;
          within = omega (arith, StateRun-length item.revision last cs after);
          size = omega (arith, longer);
          more = any_left-ltb item.revision last cs after;
        }),
      )
      | inr (go_on, space) ↦
          delta_loop-IsAssembled limit start item.revision last
            (append_item a item (at_seq item.revision)) b cs run' refl after (omega (arith, longer))
            (more ∙ rw longer (ground arith)) go_on
    ]

validate_delta_candidates-parts :
    (r : ReadResult) (after fence limit : ℕ)
    → validate_delta_candidates r after fence limit ≡ ok tt
    → (last : ℕ) × (validate_revisions fence after r.candidates ≡ ok last)
      × (after ≤ fence)
      × ((last ≡ fence) ⊎ (limit < length r.candidates))
unfolding validate_delta_candidates
validate_delta_candidates-parts r after fence limit h = ground arith

-- A cut at the limit leaves the bound of the fence.
widen :
    (limit start last fence reached : ℕ) (a : Assembly) (cs : List Candidate)
    → StateRun start cs last
    → last ≤ fence
    → (last ≡ fence) ⊎ (limit < length cs)
    → IsAssembled limit start last reached a
    → IsAssembled limit start fence reached a
widen limit start last fence reached a cs states bound (inl e) h =
    subst (λ l. IsAssembled limit start l reached a) e h
widen limit start last fence reached a cs states bound (inr long) h = record {
  run = h.run;
  position = h.position;
  within = omega (arith, h.within);
  size = h.size;
  more = ground (
    arith,
    h.more,
    h.size,
    EntryRun-length start reached a.entries h.run,
    StateRun-length start last cs states,
  );
}

-- The validated answer of the store to a delta read is assembled to the revisions behind the
-- position, up to the fence unless the limit cuts it, and says exactly whether more are left.
pub assemble_delta-IsAssembled :
    (r : ReadResult) (base : SyncCursor) (fence : ℕ) (a : Assembly)
    → 0 < base.limit
    → validate_delta_candidates r base.after_seq fence base.limit ≡ ok tt
    → assemble_delta r base ≡ ok a
    → (reached : ℕ) × IsAssembled base.limit base.after_seq fence reached a
unfolding assemble_delta
assemble_delta-IsAssembled r base fence a pos valid h =
    let (last, revisions, bound, cut) =
      validate_delta_candidates-parts r base.after_seq fence base.limit valid in
    let (states, within) =
      validate_revisions-StateRun fence base.after_seq last r.candidates bound revisions in
    let (reached, assembled) =
      delta_loop-IsAssembled base.limit base.after_seq base.after_seq last _ a r.candidates refl
        refl states pos (ground arith) h in
    (
      reached,
      widen base.limit base.after_seq last fence reached a r.candidates states within cut assembled,
    )
