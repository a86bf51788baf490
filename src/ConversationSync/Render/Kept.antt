-- ===== src/ConversationSync/Render/Kept.antt =====
-- What `renderAssembledPage` returns: a prefix of the entries, with a cursor behind it.
use new_im.Common.{
  ℕ, zero, suc, ◌≤◌, ◌≡◌, sym, ap, subst, ◌∙◌, ◌⊎◌, inl, inr, Bool, true, ◌||◌, List, some, ok,
  >>=-eq-ok, reject-eq-ok, ltb, length, take, arith,
}
use new_im.Bytes.{Bytes}
use new_im.ConversationSync.Types.{limit_exceeded, Page, max_response_bytes}
use new_im.ConversationSync.Cursor.{SyncCursor, CursorPosition, ItemEnvelope}
use new_im.ConversationSync.Codec.{encode_cursor}
use new_im.ConversationSync.Assemble.{Assembly}
use new_im.ConversationSync.Json.{page_json}
use new_im.ConversationSync.Service.{Service}
use new_im.ConversationSync.Render.{
  next_token, items_of, cursor_advanced, position_at, render_page, try_render, render_loop,
  render_assembled_page,
}

-- A page made of the first `keep` entries of an assembly.
pub record IsKept (mac : Bytes → Bytes → Bytes) (s : Service) (base : SyncCursor) (a : Assembly)
    (now : ℕ) (keep : ℕ) (page : Page) : Type 0 where
  pub bound : keep ≤ length a.entries
  pub token : SyncCursor
  pub items : page.items ≡ items_of (take keep a.entries)
  pub more : page.has_more ≡ (a.has_more || ltb keep (length a.entries))
  pub advanced :
      page.has_more ≡ true → cursor_advanced base (position_at a.entries a.position keep) ≡ true
  pub next : next_token s base (position_at a.entries a.position keep) page.has_more now ≡ ok token
  pub encoded : encode_cursor mac s.keys token ≡ ok page.next_cursor
  pub fits : length (page_json page) ≤ max_response_bytes

module _ (mac : Bytes → Bytes → Bytes) (s : Service) (base : SyncCursor) where
  render_page-parts :
      (entries : List ItemEnvelope) (position : CursorPosition) (more : Bool) (now : ℕ)
      (page : Page)
      → render_page mac s base entries position more now ≡ ok page
      → (token : SyncCursor) × (next_token s base position more now ≡ ok token)
        × (encode_cursor mac s.keys token ≡ ok page.next_cursor)
        × (page.items ≡ items_of entries)
        × (page.has_more ≡ more)
        × (length (page_json page) ≤ max_response_bytes)
  unfolding render_page
  render_page-parts entries position more now page h =
      let (token, next, h1) = >>=-eq-ok (next_token s base position more now) _ h in
      let (text, encoded, h2) = >>=-eq-ok (encode_cursor mac s.keys token) _ h1 in
      let page' : Page = record { items = items_of entries; next_cursor = text; has_more = more } in
      let (size, same) =
        reject-eq-ok (ltb max_response_bytes (length (page_json page'))) limit_exceeded _ h2 in
      let e : page' ≡ page = cc same in
      (
        token,
        next,
        encoded ∙ ap (λ p. ok p.next_cursor) e,
        ap (λ p. p.items) (sym e),
        ap (λ p. p.has_more) (sym e),
        subst (λ p. length (page_json p) ≤ max_response_bytes) e (ground arith),
      )

  try_render-ok :
      (a : Assembly) (now keep : ℕ) (page : Page)
      → try_render mac s base a now keep ≡ some (ok page)
      → let position = position_at a.entries a.position keep in
        let more = a.has_more || ltb keep (length a.entries) in
        (render_page mac s base (take keep a.entries) position more now ≡ ok page)
        × (more ≡ true → cursor_advanced base position ≡ true)
  unfolding try_render
  try_render-ok a now keep page h = ground arith

  try_render-IsKept :
      (a : Assembly) (now keep : ℕ) (page : Page)
      → keep ≤ length a.entries
      → try_render mac s base a now keep ≡ some (ok page)
      → IsKept mac s base a now keep page
  try_render-IsKept a now keep page bound h =
      let position = position_at a.entries a.position keep in
      let more = a.has_more || ltb keep (length a.entries) in
      let (rendered, went) = try_render-ok a now keep page h in
      let (token, next, encoded, items, has_more, size) =
        render_page-parts (take keep a.entries) position more now page rendered in
      record {
        bound = bound;
        token = token;
        items = items;
        more = has_more;
        advanced = λ m. went (sym has_more ∙ m);
        next = subst (λ b. next_token s base position b now ≡ ok token) (sym has_more) next;
        encoded = encoded;
        fits = size;
      }

  render_loop-zero :
      (a : Assembly) (now minimum : ℕ) (page : Page)
      → render_loop mac s base a now minimum 0 ≡ ok page
      → try_render mac s base a now 0 ≡ some (ok page)
  unfolding render_loop
  render_loop-zero a now minimum page h = ground arith

  render_loop-suc :
      (a : Assembly) (now minimum keep : ℕ) (page : Page)
      → render_loop mac s base a now minimum (suc keep) ≡ ok page
      → (try_render mac s base a now (suc keep) ≡ some (ok page))
        ⊎ (render_loop mac s base a now minimum keep ≡ ok page)
  unfolding render_loop
  render_loop-suc a now minimum keep page h = ground arith

  render_loop-IsKept :
      (a : Assembly) (now minimum keep : ℕ) (page : Page)
      → keep ≤ length a.entries
      → render_loop mac s base a now minimum keep ≡ ok page
      → (kept : ℕ) × IsKept mac s base a now kept page
  render_loop-IsKept a now minimum zero page bound h =
      (0, try_render-IsKept a now 0 page bound (render_loop-zero a now minimum page h))
  render_loop-IsKept a now minimum (suc keep) page bound h =
      elim (render_loop-suc a now minimum keep page h) [
        | inl here ↦ (suc keep, try_render-IsKept a now (suc keep) page bound here)
        | inr later ↦ render_loop-IsKept a now minimum keep page (omega arith) later
      ]

  -- Whatever is returned is a page of a prefix of the entries.
  pub render_assembled_page-IsKept :
      (a : Assembly) (now : ℕ) (page : Page)
      → render_assembled_page mac s base a now ≡ ok page
      → (kept : ℕ) × IsKept mac s base a now kept page
  unfolding render_assembled_page
  render_assembled_page-IsKept a now page h =
      render_loop-IsKept a now _ (length a.entries) page (omega arith) h
