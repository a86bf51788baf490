-- ===== src/ConversationSync/Directory/Answers.antt =====
-- What the answers of `BeginBootstrap` and `ContinueBootstrap` are
-- (server/sync/conversation/service.go).
use new_im.Common.{
  ℕ, ◌≤◌, ◌≡◌, refl, not, true, false, List, [], ok, >>=-eq-ok, reject-eq-ok, Result-cases, inl,
  inr, arith,
}
use new_im.Common.Int.{ℤ}
use new_im.Bytes.{Bytes}
use new_im.ConversationSync.Types.{
  forbidden, Candidate, Page, ReadRequest, ReadResult, bootstrap_read,
}
use new_im.ConversationSync.Cursor.{
  SyncCursor, bootstrap_round_lifetime, cursor_kind_bootstrap_page, valid_identifier,
}
use new_im.ConversationSync.Codec.{decode_cursor}
use new_im.ConversationSync.Codec.Sound.{decode_cursor-IsDecoded}
use new_im.ConversationSync.Validate.{
  Time, normalize_limit, add_seconds, current_unix, validate_bootstrap_candidates,
}
use new_im.ConversationSync.Assemble.{assemble_bootstrap}
use new_im.ConversationSync.Service.{Service, read}
use new_im.ConversationSync.Operations.{
  first_directory, accept_first_directory, accept_next_directory, begin_bootstrap,
  continue_bootstrap,
}
use new_im.ConversationSync.Delta.Answers.{normalize_limit_bounds}
use new_im.ConversationSync.Directory.Listed.{last_key}
use new_im.ConversationSync.Directory.Pages.{IsDirectoryPage, HasNextKey, rendered_directory}

accept_first_directory-valid :
    (r : ReadResult)
    → accept_first_directory r ≡ ok tt
    → validate_bootstrap_candidates r [] r.terminal_key ≡ ok tt
unfolding accept_first_directory
accept_first_directory-valid r h = ground arith

accept_next_directory-valid :
    (r : ReadResult) (token : SyncCursor)
    → accept_next_directory r token ≡ ok tt
    → validate_bootstrap_candidates r token.after_key token.terminal_key ≡ ok tt
unfolding accept_next_directory
accept_next_directory-valid r token h = ground arith

abbrev start_request : ℕ → ReadRequest
start_request page_limit = record {
  kind = bootstrap_read;
  start = true;
  epoch = 0;
  fence = 0;
  after_seq = 0;
  after_key = [];
  terminal_key = [];
  limit = page_limit;
}

abbrev next_request : SyncCursor → ReadRequest
next_request token = record {
  kind = bootstrap_read;
  start = false;
  epoch = token.epoch;
  fence = token.fence;
  after_seq = 0;
  after_key = token.after_key;
  terminal_key = token.terminal_key;
  limit = token.limit;
}

read-answered :
    (s : Service) (user : Bytes) (request : ReadRequest) (r : ReadResult)
    → read s user request ≡ ok r
    → s.store user request ≡ ok r
unfolding read
read-answered s user request r h = elim (Result-cases (s.store user request)) [
  | inl (a, e) ↦ ground (arith, e, h)
  | inr (failure, e) ↦ absurd (ground (arith, e, h))
]

module _ (mac : Bytes → Bytes → Bytes) (s : Service) (user : Bytes) where
  -- If `ContinueBootstrap` answers a page, its cursor decodes to a token for the user, and the
  -- store answered a request behind the token's key; the page holds what the first of the store's
  -- candidates bring, the states of the conversations that the account is a member of, in the
  -- order of their keys, which rise from the token's key on, and no more than the limit of the
  -- token; if it says that there are more, it has moved on; if it does not, no candidate is left,
  -- and the last one has the terminal key, where there is one; its JSON fits the response; and its
  -- next cursor is signed for the key of the last of those candidates, or is a checkpoint where
  -- there is no more.
  pub continue_bootstrap-IsDirectoryPage :
      (cursor : Bytes) (time : Time) (page : Page)
      → continue_bootstrap mac s user cursor time ≡ ok page
      → (now : ℕ) × (token : SyncCursor) × (decode_cursor mac s.keys cursor
            cursor_kind_bootstrap_page user now
          ≡ ok token)
        × (request : ReadRequest) × (request.after_key ≡ token.after_key)
        × (r : ReadResult) × (s.store user request ≡ ok r)
        × (front : List Candidate) × IsDirectoryPage token.limit token.after_key token.terminal_key
            r front page
        × HasNextKey mac s token (last_key token.after_key front) now page
  unfolding continue_bootstrap
  continue_bootstrap-IsDirectoryPage cursor time page h =
      let (_, h1) = reject-eq-ok (not (valid_identifier user)) forbidden _ h in
      let (now, _, h2) = >>=-eq-ok (current_unix time) _ h1 in
      let (token, decoded, h3) =
        >>=-eq-ok (decode_cursor mac s.keys cursor cursor_kind_bootstrap_page user now) _ h2 in
      let (r, answered, h4) = >>=-eq-ok (read s user (next_request token)) _ h3 in
      let (_, accepted, h5) = >>=-eq-ok (accept_next_directory r token) _ h4 in
      let (a, assembly, rendered) = >>=-eq-ok (assemble_bootstrap r token) _ h5 in
      let d =
        decode_cursor-IsDecoded mac s.keys cursor cursor_kind_bootstrap_page user now token
          decoded in
      let (front, is_page, next) =
        rendered_directory mac s token token.terminal_key now r a page d.kind_same
          d.bounded.limit_pos (accept_next_directory-valid r token accepted) assembly rendered in
      (
        now,
        token,
        decoded,
        next_request token,
        refl,
        r,
        read-answered s user (next_request token) r answered,
        front,
        is_page,
        next,
      )

  -- If `BeginBootstrap` answers a page, the store answered a request from the start of the
  -- directory; the page holds what the first of the store's candidates bring, the states of the
  -- conversations that the account is a member of, in the order of their keys, which rise from the
  -- start on, and no more than the limit, which is at most 100; if it says that there are more, it
  -- has moved on; if it does not, no candidate is left, and the last one has the terminal key,
  -- where there is one; its JSON fits the response; and its next cursor is signed for the key of
  -- the last of those candidates, or is a checkpoint where there is no more.
  pub begin_bootstrap-IsDirectoryPage :
      (limit : ℤ) (time : Time) (page : Page)
      → begin_bootstrap mac s user limit time ≡ ok page
      → (base : SyncCursor) × (base.kind ≡ cursor_kind_bootstrap_page)
        × (base.account ≡ user)
        × (base.limit ≤ 100)
        × (now : ℕ) × (request : ReadRequest) × (request.after_key ≡ [])
        × (r : ReadResult) × (s.store user request ≡ ok r)
        × (front : List Candidate) × IsDirectoryPage base.limit [] r.terminal_key r front page
        × HasNextKey mac s base (last_key [] front) now page
  unfolding begin_bootstrap
  begin_bootstrap-IsDirectoryPage limit time page h =
      let (_, h1) = reject-eq-ok (not (valid_identifier user)) forbidden _ h in
      let (page_limit, normal, h2) = >>=-eq-ok (normalize_limit limit) _ h1 in
      let (now, _, h3) = >>=-eq-ok (current_unix time) _ h2 in
      let (expires, _, h4) = >>=-eq-ok (add_seconds now bootstrap_round_lifetime) _ h3 in
      let (r, answered, h5) = >>=-eq-ok (read s user (start_request page_limit)) _ h4 in
      let (_, accepted, h6) = >>=-eq-ok (accept_first_directory r) _ h5 in
      let base = first_directory s user page_limit now expires r in
      let (a, assembly, rendered) = >>=-eq-ok (assemble_bootstrap r base) _ h6 in
      let (lo, hi) = normalize_limit_bounds limit page_limit normal in
      let (front, is_page, next) =
        rendered_directory mac s base r.terminal_key now r a page refl lo
          (accept_first_directory-valid r accepted) assembly rendered in
      (
        base,
        refl,
        refl,
        hi,
        now,
        start_request page_limit,
        refl,
        r,
        read-answered s user (start_request page_limit) r answered,
        front,
        is_page,
        next,
      )
