-- ===== src/ConversationSync/Delta/Pages.antt =====
-- A delta page: the next revisions in order, and a cursor behind the last of them.
use new_im.Common.{
  ℕ, zero, suc, ◌+◌, ◌≤◌, ◌<◌, ◌≡◌, sym, ap, subst, ◌∙◌, true, ◌||◌, List, [], ◌∷◌, ok, ltb, length,
  take, length-map, length-take, arith,
}
use new_im.Bytes.{Bytes}
use new_im.ConversationSync.Types.{Page, ReadResult, max_response_bytes}
use new_im.ConversationSync.Cursor.{SyncCursor, ItemEnvelope}
use new_im.ConversationSync.Codec.{encode_cursor}
use new_im.ConversationSync.Validate.{validate_delta_candidates}
use new_im.ConversationSync.Assemble.{Assembly, at_seq, assemble_delta}
use new_im.ConversationSync.Json.{page_json}
use new_im.ConversationSync.Service.{Service}
use new_im.ConversationSync.Render.{
  next_token, items_of, position_at, render_assembled_page, cursor_advanced,
}
use new_im.ConversationSync.Render.Kept.{IsKept, render_assembled_page-IsKept}
use new_im.ConversationSync.Delta.Runs.{Run, EntryRun, EntryRun-length}
use new_im.ConversationSync.Delta.Assembled.{IsAssembled, assemble_delta-IsAssembled}

-- The first entries of a run are a run, and the position behind them is theirs.
EntryRun-take :
    (from to keep : ℕ) (es : List ItemEnvelope)
    → EntryRun from es to
    → keep ≤ length es
    → Run from (items_of (take keep es)) (from + keep)
      × (position_at es (at_seq to) keep ≡ at_seq (from + keep))
unfolding position_at
EntryRun-take from to zero [] h b = (omega arith, ap at_seq (omega arith))
EntryRun-take from to zero (e ∷ es) h b = (omega arith, h.0 ∙ ap at_seq (omega arith))
EntryRun-take from to (suc keep) [] h b = absurd (omega arith)
EntryRun-take from to (suc keep) (e ∷ es) h b =
    let (run, place) = EntryRun-take e.item.revision to keep es h.2 (omega arith) in
    let same : e.item.revision + keep ≡ from + suc keep = omega (arith, h.1) in
    ((h.1, subst (Run e.item.revision (items_of (take keep es))) same run), place ∙ ap at_seq same)

more_left :
    (from keep count last fence : ℕ)
    → last ≡ from + count
    → keep ≤ count
    → last ≤ fence
    → (ltb last fence || ltb keep count) ≡ ltb (from + keep) fence
more_left from keep count last fence e k w = ground arith

-- A page that holds the revisions behind `from` up to `reached`, of those up to the fence.
pub record IsDeltaPage (limit from fence reached : ℕ) (page : Page) : Type 0 where
  pub run : Run from page.items reached
  pub within : reached ≤ fence
  pub more : page.has_more ≡ ltb reached fence
  pub size : length page.items ≤ limit
  pub advanced : page.has_more ≡ true → from < reached
  pub fits : length (page_json page) ≤ max_response_bytes

-- The cursor that the page hands on, signed by the service.
pub record HasNext (mac : Bytes → Bytes → Bytes) (s : Service) (base : SyncCursor) (reached now : ℕ)
    (page : Page) : Type 0 where
  pub token : SyncCursor
  pub next : next_token s base (at_seq reached) page.has_more now ≡ ok token
  pub encoded : encode_cursor mac s.keys token ≡ ok page.next_cursor

module _ (mac : Bytes → Bytes → Bytes) (s : Service) (base : SyncCursor) where
  advanced_seq :
      (seq : ℕ) → base.kind ≡ 2 → cursor_advanced base (at_seq seq) ≡ true → base.after_seq < seq
  unfolding cursor_advanced
  advanced_seq seq k h = ground arith

  kept_page :
      (fence last keep now : ℕ) (a : Assembly) (page : Page)
      → base.kind ≡ 2
      → IsAssembled base.limit base.after_seq fence last a
      → IsKept mac s base a now keep page
      → IsDeltaPage base.limit base.after_seq fence (base.after_seq + keep) page
        × HasNext mac s base (base.after_seq + keep) now page
  kept_page fence last keep now a page k assembled kept =
      let (run, place') =
        EntryRun-take base.after_seq last keep a.entries assembled.run kept.bound in
      let place : position_at a.entries a.position keep ≡ at_seq (base.after_seq + keep) =
        ap (λ p. position_at a.entries p keep) assembled.position ∙ place' in
      let full = EntryRun-length base.after_seq last a.entries assembled.run in
      (
        record {
          run = subst (λ is. Run base.after_seq is (base.after_seq + keep)) (sym kept.items) run;
          within = omega (arith, assembled.within, kept.bound);
          more =
              kept.more
              ∙ rw assembled.more (
                  more_left base.after_seq keep (length a.entries) last fence full kept.bound
                    assembled.within);
          size = rw kept.items (
              omega (
                arith,
                length-map (take keep a.entries) (λ (e : ItemEnvelope). e.item),
                length-take keep a.entries,
                assembled.size,
              ));
          advanced = λ m.
              advanced_seq (base.after_seq + keep) k
                (subst (λ p. cursor_advanced base p ≡ true) place (kept.advanced m));
          fits = kept.fits;
        },
        record {
          token = kept.token;
          next = subst (λ p. next_token s base p page.has_more now ≡ ok kept.token) place kept.next;
          encoded = kept.encoded;
        },
      )

  -- An assembled delta that renders gives a delta page.
  pub rendered_page :
      (fence now : ℕ) (r : ReadResult) (a : Assembly) (page : Page)
      → base.kind ≡ 2
      → 0 < base.limit
      → validate_delta_candidates r base.after_seq fence base.limit ≡ ok tt
      → assemble_delta r base ≡ ok a
      → render_assembled_page mac s base a now ≡ ok page
      → (reached : ℕ) × IsDeltaPage base.limit base.after_seq fence reached page
        × HasNext mac s base reached now page
        × (keep : ℕ) × (page.items ≡ items_of (take keep a.entries))
  rendered_page fence now r a page k pos valid assembly rendered =
      let (last, assembled) = assemble_delta-IsAssembled r base fence a pos valid assembly in
      let (keep, kept) = render_assembled_page-IsKept mac s base a now page rendered in
      let (is_page, next) = kept_page fence last keep now a page k assembled kept in
      (base.after_seq + keep, is_page, next, keep, kept.items)
