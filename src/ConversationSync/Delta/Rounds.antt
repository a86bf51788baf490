-- ===== src/ConversationSync/Delta/Rounds.antt =====
-- A whole round of delta pages, as a client makes it that follows each page's cursor.
use new_im.Common.{ℕ, ◌≡◌, true, false, List, ◌++◌, ok}
use new_im.Common.Int.{ℤ}
use new_im.Bytes.{Bytes}
use new_im.ConversationSync.Types.{Item, Page}
use new_im.ConversationSync.Cursor.{SyncCursor, cursor_kind_checkpoint}
use new_im.ConversationSync.Codec.{Keys, encode_cursor}
use new_im.ConversationSync.Validate.{Time}
use new_im.ConversationSync.Service.{Service}
use new_im.ConversationSync.Operations.{begin_delta, continue_delta}

-- The rest of a round from a page's cursor, with the items it brings and the checkpoint it ends at.
-- Between two calls the store may change, as may all of the service but its keys.
pub data Rest (mac : Bytes → Bytes → Bytes) (keys : Keys) (user : Bytes)
    : Bytes → List Item → Bytes → Type 0 where
  last :
      (s : Service) (cursor : Bytes) (time : Time) (page : Page)
      → s.keys ≡ keys
      → continue_delta mac s user cursor time ≡ ok page
      → page.has_more ≡ false
      → Rest mac keys user cursor page.items page.next_cursor
  more :
      (s : Service) (cursor : Bytes) (time : Time) (page : Page) (items : List Item)
      (checkpoint : Bytes)
      → s.keys ≡ keys
      → continue_delta mac s user cursor time ≡ ok page
      → page.has_more ≡ true
      → Rest mac keys user page.next_cursor items checkpoint
      → Rest mac keys user cursor (page.items ++ items) checkpoint

-- A whole round, from a checkpoint to the next.
pub data Round (mac : Bytes → Bytes → Bytes) (keys : Keys) (user : Bytes)
    : Bytes → List Item → Bytes → Type 0 where
  single :
      (s : Service) (checkpoint : Bytes) (limit : ℤ) (time : Time) (page : Page)
      → s.keys ≡ keys
      → begin_delta mac s user checkpoint limit time ≡ ok page
      → page.has_more ≡ false
      → Round mac keys user checkpoint page.items page.next_cursor
  several :
      (s : Service) (checkpoint : Bytes) (limit : ℤ) (time : Time) (page : Page) (items : List Item)
      (final : Bytes)
      → s.keys ≡ keys
      → begin_delta mac s user checkpoint limit time ≡ ok page
      → page.has_more ≡ true
      → Rest mac keys user page.next_cursor items final
      → Round mac keys user checkpoint (page.items ++ items) final

-- The checkpoint stands at the fence, for the user.
pub record IsCheckpointAt (mac : Bytes → Bytes → Bytes) (keys : Keys) (user : Bytes) (fence : ℕ)
    (checkpoint : Bytes) : Type 0 where
  pub token : SyncCursor
  pub encoded : encode_cursor mac keys token ≡ ok checkpoint
  pub kind : token.kind ≡ cursor_kind_checkpoint
  pub account : token.account ≡ user
  pub fence_same : token.fence ≡ fence
