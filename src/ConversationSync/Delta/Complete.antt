-- ===== src/ConversationSync/Delta/Complete.antt =====
-- A round of delta pages brings every revision between its two checkpoints, once and in order.
use new_im.Common.{>>=-eq-ok, ℕ, ◌≡◌, refl, ap, subst, ◌∙◌, true, false, List, ok, arith}
use new_im.Common.Int.{ℤ}
use new_im.Bytes.{Bytes}
use new_im.ConversationSync.Types.{Item, Page}
use new_im.ConversationSync.Cursor.{
  SyncCursor, cursor_kind_delta_page, cursor_kind_checkpoint, checkpoint_lifetime,
}
use new_im.ConversationSync.Cursor.Valid.{validate_cursor_for_encoding_sound}
use new_im.ConversationSync.Codec.{Keys, encode_cursor, decode_cursor}
use new_im.ConversationSync.Codec.RoundTrip.{IsMac, decode-encode_cursor, encode_cursor-parts}
use new_im.ConversationSync.Codec.Sound.{decode_cursor-IsDecoded, decode_cursor_same}
use new_im.ConversationSync.Validate.{Time, add_seconds}
use new_im.ConversationSync.Assemble.{at_seq}
use new_im.ConversationSync.Service.{Service}
use new_im.ConversationSync.Render.{next_token, page_token, checkpoint_token}
use new_im.ConversationSync.Operations.{begin_delta, continue_delta}
use new_im.ConversationSync.Delta.Runs.{Run, Run-append}
use new_im.ConversationSync.Delta.Pages.{IsDeltaPage, HasNext}
use new_im.ConversationSync.Delta.Answers.{continue_delta-IsDeltaPage, begin_delta-IsDeltaPage}
use new_im.ConversationSync.Delta.Rounds.{Rest, last, more, Round, single, several, IsCheckpointAt}

next_token-true :
    (s : Service) (base token : SyncCursor) (seq now : ℕ)
    → base.kind ≡ 2
    → next_token s base (at_seq seq) true now ≡ ok token
    → token ≡ page_token s base (at_seq seq)
unfolding next_token
next_token-true s base token seq now k h = ground arith

next_token-false :
    (s : Service) (base token : SyncCursor) (seq now : ℕ)
    → next_token s base (at_seq seq) false now ≡ ok token
    → (expires : ℕ) × (token ≡ checkpoint_token s base now expires)
unfolding next_token
next_token-false s base token seq now h =
    let (expires, _, e) = >>=-eq-ok (add_seconds now checkpoint_lifetime) _ h in (expires, cc e)

module _ (mac : Bytes → Bytes → Bytes) (law : IsMac mac) (user : Bytes) where
  -- An encoded cursor is decoded at the time of its issue.
  decode_issued :
      (keys : Keys) (c : SyncCursor) (encoded : Bytes) (kind : ℕ)
      → encode_cursor mac keys c ≡ ok encoded
      → c.kind ≡ kind
      → c.account ≡ user
      → decode_cursor mac keys encoded kind user c.issued ≡ ok c
  decode_issued keys c encoded kind h k a =
      let e =
        validate_cursor_for_encoding_sound c (encode_cursor-parts mac law keys c encoded h).0 in
      subst (λ kind'. decode_cursor mac keys encoded kind' user c.issued ≡ ok c) k
        (subst (λ user'. decode_cursor mac keys encoded c.kind user' c.issued ≡ ok c) a
          (decode-encode_cursor mac law keys c encoded c.issued h (omega arith)
            e.bounded.issued_lt))

  next_page :
      (s : Service) (base : SyncCursor) (reached now : ℕ) (page : Page)
      → base.kind ≡ 2
      → base.account ≡ user
      → page.has_more ≡ true
      → HasNext mac s base reached now page
      → (c : SyncCursor) × (decode_cursor mac s.keys page.next_cursor cursor_kind_delta_page user
            c.issued
          ≡ ok c)
        × (c.after_seq ≡ reached)
        × (c.fence ≡ base.fence)
  unfolding page_token
  next_page s base reached now page k a m next =
      let c = page_token s base (at_seq reached) in
      let same =
        next_token-true s base next.token reached now k
          (subst (λ b. next_token s base (at_seq reached) b now ≡ ok next.token) m next.next) in
      let encoded =
        subst (λ t. encode_cursor mac s.keys t ≡ ok page.next_cursor) same next.encoded in
      (c, decode_issued s.keys c page.next_cursor 2 encoded k a, refl, refl)

  next_checkpoint :
      (s : Service) (base : SyncCursor) (reached now : ℕ) (page : Page)
      → base.account ≡ user
      → page.has_more ≡ false
      → HasNext mac s base reached now page
      → IsCheckpointAt mac s.keys user base.fence page.next_cursor
  unfolding checkpoint_token
  next_checkpoint s base reached now page a m next =
      let (expires, same) =
        next_token-false s base next.token reached now
          (subst (λ b. next_token s base (at_seq reached) b now ≡ ok next.token) m next.next) in
      record {
        token = next.token;
        encoded = next.encoded;
        kind = ap (λ t. t.kind) same;
        account = ap (λ t. t.account) same ∙ a;
        fence_same = ap (λ t. t.fence) same;
      }

  -- The page that a cursor gets, and what the cursor decodes to.
  rest_page :
      (s : Service) (keys : Keys) (cursor : Bytes) (time : Time) (page : Page) (c : SyncCursor)
      (now : ℕ)
      → s.keys ≡ keys
      → continue_delta mac s user cursor time ≡ ok page
      → decode_cursor mac keys cursor cursor_kind_delta_page user now ≡ ok c
      → (reached : ℕ) × (at : ℕ) × IsDeltaPage c.limit c.after_seq c.fence reached page
        × HasNext mac s c reached at page
  rest_page s keys cursor time page c now sk h d =
      let (at, token, decoded, reached, is_page, next, _) =
        continue_delta-IsDeltaPage mac s user cursor time page h in
      let same = decode_cursor_same mac keys cursor cursor_kind_delta_page user now at c token d (
        subst (λ k. decode_cursor mac k cursor cursor_kind_delta_page user at ≡ ok token) sk
          decoded) in
      (
        reached,
        at,
        subst (λ t. IsDeltaPage t.limit t.after_seq t.fence reached page) same is_page,
        subst (λ t. HasNext mac s t reached at page) same next,
      )

  -- A page that says that there is no more has reached the fence.
  last_reached :
      (limit from fence reached : ℕ) (page : Page)
      → IsDeltaPage limit from fence reached page
      → page.has_more ≡ false
      → reached ≡ fence
  last_reached limit from fence reached page p m = ground (arith, p.more, p.within)

  -- The rest of a round, from a cursor that decodes to `c`.
  Rest-complete :
      (keys : Keys) (cursor checkpoint : Bytes) (items : List Item) (c : SyncCursor) (now : ℕ)
      → Rest mac keys user cursor items checkpoint
      → decode_cursor mac keys cursor cursor_kind_delta_page user now ≡ ok c
      → Run c.after_seq items c.fence × IsCheckpointAt mac keys user c.fence checkpoint
  Rest-complete keys cursor checkpoint items c now (last s _ time page sk h m) d =
      let (reached, at, p, next) = rest_page s keys cursor time page c now sk h d in
      let i = decode_cursor-IsDecoded mac keys cursor cursor_kind_delta_page user now c d in
      (
        subst (Run c.after_seq items) (last_reached c.limit c.after_seq c.fence reached page p m)
            p.run,
        subst (λ k. IsCheckpointAt mac k user c.fence checkpoint) sk
            (next_checkpoint s c reached at page i.account_same m next),
      )
  Rest-complete keys cursor checkpoint items c now (more s _ time page rest _ sk h m r) d =
      let (reached, at, p, next) = rest_page s keys cursor time page c now sk h d in
      let i = decode_cursor-IsDecoded mac keys cursor cursor_kind_delta_page user now c d in
      let (c', d', from, to) = next_page s c reached at page i.kind_same i.account_same m next in
      let (run, final) = Rest-complete keys page.next_cursor checkpoint rest c' c'.issued r (
        subst
          (λ k. decode_cursor mac k page.next_cursor cursor_kind_delta_page user c'.issued ≡ ok c')
          sk d') in
      (
        Run-append c.after_seq reached c.fence page.items rest p.run
            (subst (λ f. Run f rest c.fence) from (subst (Run c'.after_seq rest) to run)),
        subst (λ f. IsCheckpointAt mac keys user f checkpoint) to final,
      )

  -- The first page of a round from a checkpoint at `fence`.
  begun_page :
      (s : Service) (keys : Keys) (checkpoint : Bytes) (limit : ℤ) (time : Time) (page : Page)
      (fence : ℕ)
      → s.keys ≡ keys
      → begin_delta mac s user checkpoint limit time ≡ ok page
      → IsCheckpointAt mac keys user fence checkpoint
      → (base : SyncCursor) × (base.kind ≡ cursor_kind_delta_page)
        × (base.account ≡ user)
        × (reached : ℕ) × (now : ℕ) × IsDeltaPage base.limit fence base.fence reached page
        × HasNext mac s base reached now page
  begun_page s keys checkpoint limit time page fence sk h at =
      let (now, token, decoded, base, k, a, _, _, reached, p, next, _) =
        begin_delta-IsDeltaPage mac s user checkpoint limit time page h in
      let issued =
        decode_issued keys at.token checkpoint cursor_kind_checkpoint at.encoded at.kind
          at.account in
      let same =
        decode_cursor_same mac keys checkpoint cursor_kind_checkpoint user at.token.issued now
          at.token token issued
          (subst (λ k. decode_cursor mac k checkpoint cursor_kind_checkpoint user now ≡ ok token) sk
            decoded) in
      (
        base,
        k,
        a,
        reached,
        now,
        subst (λ f. IsDeltaPage base.limit f base.fence reached page)
            (ap (λ t. t.fence) same ∙ at.fence_same) p,
        next,
      )

  -- For a message authentication code with tags of 32 bytes and a checkpoint that the keys signed
  -- for a user and a fence: a round of delta pages from it that ends, each page asked for with the
  -- next cursor of the page before it and by any service with these keys, whatever its store
  -- answers, brings exactly the revisions behind the fence up to some new fence, each once and in
  -- order, and its last cursor is a checkpoint signed for the user and the new fence.
  pub Round-complete :
      (keys : Keys) (checkpoint final : Bytes) (items : List Item) (fence : ℕ)
      → IsCheckpointAt mac keys user fence checkpoint
      → Round mac keys user checkpoint items final
      → (fence' : ℕ) × Run fence items fence' × IsCheckpointAt mac keys user fence' final
  Round-complete keys checkpoint final items fence at (single s _ limit time page sk h m) =
      let (base, k, a, reached, now, p, next) =
        begun_page s keys checkpoint limit time page fence sk h at in
      (
        base.fence,
        subst (Run fence items) (last_reached base.limit fence base.fence reached page p m) p.run,
        subst (λ k. IsCheckpointAt mac k user base.fence final) sk
            (next_checkpoint s base reached now page a m next),
      )
  Round-complete keys checkpoint final items fence at
        (several s _ limit time page rest _ sk h m r) =
      let (base, k, a, reached, now, p, next) =
        begun_page s keys checkpoint limit time page fence sk h at in
      let (c, d, from, to) = next_page s base reached now page k a m next in
      let (run, checked) = Rest-complete keys page.next_cursor final rest c c.issued r (
        subst
          (λ k. decode_cursor mac k page.next_cursor cursor_kind_delta_page user c.issued ≡ ok c) sk
          d) in
      (
        c.fence,
        Run-append fence reached c.fence page.items rest p.run
            (subst (λ f. Run f rest c.fence) from run),
        checked,
      )
