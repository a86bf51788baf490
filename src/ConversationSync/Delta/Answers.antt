-- ===== src/ConversationSync/Delta/Answers.antt =====
-- What the answers of `BeginDelta` and `ContinueDelta` are.
use new_im.Common.{refl, ℕ, ◌≤◌, ◌<◌, ◌≡◌, not, true, false, [], ok, >>=-eq-ok, reject-eq-ok, arith}
use new_im.Bytes.{Bytes}
use new_im.ConversationSync.Types.{forbidden, Page, ReadRequest, ReadResult, delta_read}
use new_im.ConversationSync.Delta.Brought.{IsBrought, assembled-IsBrought}
use new_im.ConversationSync.Cursor.{
  bootstrap_round_lifetime, cursor_kind_checkpoint, SyncCursor, valid_identifier,
  cursor_kind_delta_page,
}
use new_im.Common.Int.{ℤ}
use new_im.ConversationSync.Codec.Sound.{decode_cursor-IsDecoded}
use new_im.ConversationSync.Codec.{decode_cursor}
use new_im.ConversationSync.Validate.{
  add_seconds, normalize_limit, Time, current_unix, validate_delta_candidates,
}
use new_im.ConversationSync.Assemble.{Assembly, assemble_delta}
use new_im.ConversationSync.Service.{Service, read}
use new_im.ConversationSync.Render.{render_assembled_page}
use new_im.ConversationSync.Operations.{
  first_delta, accept_first_delta, begin_delta, continue_delta, accept_next_delta,
}
use new_im.ConversationSync.Delta.Pages.{IsDeltaPage, HasNext, rendered_page}

accept_first_delta-valid :
    (r : ReadResult) (token : SyncCursor) (page_limit : ℕ)
    → accept_first_delta r token page_limit ≡ ok tt
    → validate_delta_candidates r token.fence r.fence page_limit ≡ ok tt
unfolding accept_first_delta
accept_first_delta-valid r token page_limit h = ground arith

pub normalize_limit_bounds :
    (limit : ℤ) (n : ℕ) → normalize_limit limit ≡ ok n → (0 < n) × (n ≤ 100)
unfolding normalize_limit
normalize_limit_bounds limit n h = ground arith

accept_next_delta-valid :
    (r : ReadResult) (token : SyncCursor)
    → accept_next_delta r token ≡ ok tt
    → validate_delta_candidates r token.after_seq token.fence token.limit ≡ ok tt
unfolding accept_next_delta
accept_next_delta-valid r token h = ground arith

abbrev next_request : SyncCursor → ReadRequest
next_request token = record {
  kind = delta_read;
  start = false;
  epoch = token.epoch;
  fence = token.fence;
  after_seq = token.after_seq;
  after_key = [];
  terminal_key = [];
  limit = token.limit;
}

abbrev start_request : SyncCursor → ℕ → ReadRequest
start_request token page_limit = record {
  kind = delta_read;
  start = true;
  epoch = token.epoch;
  fence = token.fence;
  after_seq = token.fence;
  after_key = [];
  terminal_key = [];
  limit = page_limit;
}

module _ (mac : Bytes → Bytes → Bytes) (s : Service) (user : Bytes) where
  continue_delta-parts :
      (cursor : Bytes) (time : Time) (page : Page)
      → continue_delta mac s user cursor time ≡ ok page
      → (now : ℕ) × (current_unix time ≡ ok now)
        × (token : SyncCursor) × (decode_cursor mac s.keys cursor cursor_kind_delta_page user now
            ≡ ok token)
        × (r : ReadResult) × (read s user (next_request token) ≡ ok r)
        × (validate_delta_candidates r token.after_seq token.fence token.limit ≡ ok tt)
        × (a : Assembly) × (assemble_delta r token ≡ ok a)
        × (render_assembled_page mac s token a now ≡ ok page)
  unfolding continue_delta
  continue_delta-parts cursor time page h =
      let (_, h1) = reject-eq-ok (not (valid_identifier user)) forbidden _ h in
      let (now, clock, h2) = >>=-eq-ok (current_unix time) _ h1 in
      let (token, decoded, h3) =
        >>=-eq-ok (decode_cursor mac s.keys cursor cursor_kind_delta_page user now) _ h2 in
      let (r, answered, h4) = >>=-eq-ok (read s user (next_request token)) _ h3 in
      let (_, accepted, h5) = >>=-eq-ok (accept_next_delta r token) _ h4 in
      let (a, assembly, rendered) = >>=-eq-ok (assemble_delta r token) _ h5 in
      (
        now,
        clock,
        token,
        decoded,
        r,
        answered,
        accept_next_delta-valid r token accepted,
        a,
        assembly,
        rendered,
      )

  -- If `ContinueDelta` answers a page, its cursor decodes to a token for the user, and the page
  -- holds the states of the first candidates that the store gave behind the token's position,
  -- whose revisions follow that position in order and without a gap, no more than its limit and
  -- none past its fence; it says that there are more exactly when the fence is not reached, and
  -- then it has moved on; its JSON fits the response; and its next cursor is signed for the
  -- position behind the last item, or is a checkpoint where there is no more.
  pub continue_delta-IsDeltaPage :
      (cursor : Bytes) (time : Time) (page : Page)
      → continue_delta mac s user cursor time ≡ ok page
      → (now : ℕ) × (token : SyncCursor) × (decode_cursor mac s.keys cursor cursor_kind_delta_page
            user now
          ≡ ok token)
        × (reached : ℕ) × IsDeltaPage token.limit token.after_seq token.fence reached page
        × HasNext mac s token reached now page
        × IsBrought s user token.after_seq page.items
  continue_delta-IsDeltaPage cursor time page h =
      let (now, _, token, decoded, r, answered, valid, a, assembly, rendered) =
        continue_delta-parts cursor time page h in
      let d =
        decode_cursor-IsDecoded mac s.keys cursor cursor_kind_delta_page user now token decoded in
      let (reached, is_page, next, keep, kept) =
        rendered_page mac s token token.fence now r a page d.kind_same d.bounded.limit_pos valid
          assembly rendered in
      (
        now,
        token,
        decoded,
        reached,
        is_page,
        next,
        assembled-IsBrought s user (next_request token) r token a keep page.items answered
            d.bounded.limit_pos assembly kept,
      )

  begin_delta-parts :
      (checkpoint : Bytes) (limit : ℤ) (time : Time) (page : Page)
      → begin_delta mac s user checkpoint limit time ≡ ok page
      → (page_limit : ℕ) × (normalize_limit limit ≡ ok page_limit)
        × (now : ℕ) × (token : SyncCursor) × (decode_cursor mac s.keys checkpoint
              cursor_kind_checkpoint user now
            ≡ ok token)
        × (expires : ℕ) × (r : ReadResult) × (read s user (start_request token page_limit) ≡ ok r)
        × (accept_first_delta r token page_limit ≡ ok tt)
        × (a : Assembly) × (assemble_delta r (first_delta s user page_limit now expires r token)
            ≡ ok a)
        × (render_assembled_page mac s (first_delta s user page_limit now expires r token) a now
            ≡ ok page)
  unfolding begin_delta
  begin_delta-parts checkpoint limit time page h =
      let (_, h1) = reject-eq-ok (not (valid_identifier user)) forbidden _ h in
      let (page_limit, normal, h2) = >>=-eq-ok (normalize_limit limit) _ h1 in
      let (now, clock, h3) = >>=-eq-ok (current_unix time) _ h2 in
      let (token, decoded, h4) =
        >>=-eq-ok (decode_cursor mac s.keys checkpoint cursor_kind_checkpoint user now) _ h3 in
      let (expires, _, h5) = >>=-eq-ok (add_seconds now bootstrap_round_lifetime) _ h4 in
      let (r, answered, h6) = >>=-eq-ok (read s user (start_request token page_limit)) _ h5 in
      let (_, accepted, h7) = >>=-eq-ok (accept_first_delta r token page_limit) _ h6 in
      let (a, assembly, rendered) =
        >>=-eq-ok (assemble_delta r (first_delta s user page_limit now expires r token)) _ h7 in
      (
        page_limit, normal, now, token, decoded, expires, r, answered, accepted, a, assembly,
        rendered,
      )

  -- If `BeginDelta` answers a page, its checkpoint decodes to a token for the user, and the page
  -- holds the states of the first candidates that the store gave behind the token's fence, whose
  -- revisions follow that fence in order and without a gap, up to the fence of the round that it
  -- starts and no more than 100; it says that there are more exactly when that fence is not
  -- reached; its JSON fits the response; and its next cursor is signed for the position behind the
  -- last item, or is a checkpoint where there is no more.
  pub begin_delta-IsDeltaPage :
      (checkpoint : Bytes) (limit : ℤ) (time : Time) (page : Page)
      → begin_delta mac s user checkpoint limit time ≡ ok page
      → (now : ℕ) × (token : SyncCursor) × (decode_cursor mac s.keys checkpoint
            cursor_kind_checkpoint user now
          ≡ ok token)
        × (base : SyncCursor) × (base.kind ≡ cursor_kind_delta_page)
        × (base.account ≡ user)
        × (base.after_seq ≡ token.fence)
        × (base.limit ≤ 100)
        × (reached : ℕ) × IsDeltaPage base.limit token.fence base.fence reached page
        × HasNext mac s base reached now page
        × IsBrought s user token.fence page.items
  begin_delta-IsDeltaPage checkpoint limit time page h =
      let (
        page_limit, normal, now, token, decoded, expires, r, answered, accepted, a, assembly,
        rendered,
      ) =
        begin_delta-parts checkpoint limit time page h in
      let base = first_delta s user page_limit now expires r token in
      let (lo, hi) = normalize_limit_bounds limit page_limit normal in
      let (reached, is_page, next, keep, kept) =
        rendered_page mac s base r.fence now r a page refl lo
          (accept_first_delta-valid r token page_limit accepted) assembly rendered in
      (
        now,
        token,
        decoded,
        base,
        refl,
        refl,
        refl,
        hi,
        reached,
        is_page,
        next,
        assembled-IsBrought s user (start_request token page_limit) r base a keep page.items
            answered lo assembly kept,
      )
