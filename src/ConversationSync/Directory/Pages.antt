-- ===== src/ConversationSync/Directory/Pages.antt =====
-- A page of the directory: what the next candidates bring, and a cursor behind the last of them
-- (server/sync/conversation/service.go).
use new_im.Common.{
  ℕ, ◌≤◌, ◌<◌, ◌≡◌, sym, ap, ◌∙◌, subst, Bool, true, false, ◌||◌, List, [], ◌++◌, ok, ltb, length,
  append-nil, append_assoc, take, length-map, length-take, arith,
}
use new_im.Bytes.{Bytes, lt_bytes, nonempty}
use new_im.ConversationSync.Types.{Candidate, Page, ReadResult, max_response_bytes}
use new_im.ConversationSync.Cursor.{SyncCursor, ItemEnvelope}
use new_im.ConversationSync.Codec.{encode_cursor}
use new_im.ConversationSync.Validate.{validate_bootstrap_candidates}
use new_im.ConversationSync.Assemble.{Assembly, at_key, assemble_bootstrap}
use new_im.ConversationSync.Json.{page_json}
use new_im.ConversationSync.Service.{Service}
use new_im.ConversationSync.Render.{next_token, position_at, render_assembled_page, cursor_advanced}
use new_im.ConversationSync.Render.Kept.{render_assembled_page-IsKept}
use new_im.ConversationSync.Directory.Listed.{
  listed, last_key, Rising, Rising-front, EntriesOf, EntriesOf-Front,
}
use new_im.ConversationSync.Directory.Assembled.{assemble_bootstrap-IsListed}
use new_im.ConversationSync.Directory.Checked.{validate_bootstrap_candidates-IsDirectory}

-- A page that holds what the candidates `front` bring, the first of those that the store gave behind
-- the key `from`.
pub record IsDirectoryPage (limit : ℕ) (from terminal : Bytes) (r : ReadResult)
    (front : List Candidate) (page : Page) : Type 0 where
  pub back : List Candidate
  pub split : r.candidates ≡ front ++ back
  pub rising : Rising from front
  pub items : page.items ≡ listed front
  pub size : length page.items ≤ limit
  pub advanced : page.has_more ≡ true → lt_bytes from (last_key from front) ≡ true
  pub finished :
      page.has_more ≡ false
      → (back ≡ []) × (nonempty terminal ≡ true → last_key from front ≡ terminal)
  pub fits : length (page_json page) ≤ max_response_bytes

-- The cursor that the page hands on, signed by the service.
pub record HasNextKey (mac : Bytes → Bytes → Bytes) (s : Service) (base : SyncCursor) (key : Bytes)
    (now : ℕ) (page : Page) : Type 0 where
  pub token : SyncCursor
  pub next : next_token s base (at_key key) page.has_more now ≡ ok token
  pub encoded : encode_cursor mac s.keys token ≡ ok page.next_cursor

module _ (mac : Bytes → Bytes → Bytes) (s : Service) (base : SyncCursor) where
  advanced_key :
      (key : Bytes)
      → base.kind ≡ 1
      → cursor_advanced base (at_key key) ≡ true
      → lt_bytes base.after_key key ≡ true
  unfolding cursor_advanced
  advanced_key key k h = ground arith

  kept_all :
      (more : Bool) (keep count : ℕ)
      → keep ≤ count
      → (more || ltb keep count) ≡ false
      → (more ≡ false) × (keep ≡ count)
  kept_all more keep count b h = ground arith

  pub rendered_directory :
      (terminal : Bytes) (now : ℕ) (r : ReadResult) (a : Assembly) (page : Page)
      → base.kind ≡ 1
      → 0 < base.limit
      → validate_bootstrap_candidates r base.after_key terminal ≡ ok tt
      → assemble_bootstrap r base ≡ ok a
      → render_assembled_page mac s base a now ≡ ok page
      → (front : List Candidate) × IsDirectoryPage base.limit base.after_key terminal r front page
        × HasNextKey mac s base (last_key base.after_key front) now page
  rendered_directory terminal now r a page k some_limit valid assembly rendered =
      let from = base.after_key in
      let d = validate_bootstrap_candidates-IsDirectory r from terminal valid in
      let i = assemble_bootstrap-IsListed r base a some_limit assembly in
      let (keep, kept) = render_assembled_page-IsKept mac s base a now page rendered in
      let entries : EntriesOf from i.done a.entries =
        subst (EntriesOf from i.done) (sym i.appended) i.entries in
      let f = EntriesOf-Front from i.done a.entries keep entries kept.bound in
      let split : r.candidates ≡ f.front ++ (f.back ++ i.rest) =
        i.split ∙ ap (λ xs. xs ++ i.rest) f.split ∙ append_assoc f.front f.back i.rest in
      let place : position_at a.entries a.position keep ≡ at_key (last_key from f.front) =
        ap (λ p. position_at a.entries p keep) i.position ∙ f.position in
      let whole : page.has_more ≡ false → (f.back ++ i.rest ≡ []) × (r.directory_exhausted ≡ true) =
        λ done.
          let (no_more, all) =
            kept_all a.has_more keep (length a.entries) kept.bound (sym kept.more ∙ done) in
          let (no_rest, exhausted) = i.finished no_more in
          (ap (λ xs. xs ++ i.rest) (f.all all) ∙ no_rest, exhausted) in
      (
        f.front,
        record {
          back = f.back ++ i.rest;
          split = split;
          rising =
              Rising-front from f.front (f.back ++ i.rest) (subst (Rising from) split d.rising);
          items = kept.items ∙ f.items;
          size = rw kept.items (
              omega (
                arith,
                length-map (take keep a.entries) (λ (e : ItemEnvelope). e.item),
                length-take keep a.entries,
                i.size,
              ));
          advanced = λ m.
              advanced_key (last_key from f.front) k
                (subst (λ p. cursor_advanced base p ≡ true) place (kept.advanced m));
          finished = λ done.
              let (no_back, exhausted) = whole done in
              let all_front : f.front ≡ r.candidates =
                sym (split ∙ ap (λ xs. f.front ++ xs) no_back ∙ append-nil f.front) in
              (no_back, λ some_key. ap (last_key from) all_front ∙ d.ended exhausted some_key);
          fits = kept.fits;
        },
        record {
          token = kept.token;
          next = subst (λ p. next_token s base p page.has_more now ≡ ok kept.token) place kept.next;
          encoded = kept.encoded;
        },
      )
