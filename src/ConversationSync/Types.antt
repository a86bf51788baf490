-- ===== src/ConversationSync/Types.antt =====
-- server/sync/conversation/types.go: the codes, the pages and the port to the store.
use new_im.Common.{ℕ, Bool, List, Option, Result}
use new_im.Bytes.{Bytes}

-- The stable codes; `no_code` is the empty one.
pub data Code : Type 0 where
  no_code : Code
  cursor_expired : Code
  invalid_cursor : Code
  forbidden : Code
  not_ready : Code
  limit_exceeded : Code
  storage_unavailable : Code
  sequence_exhausted : Code

-- An `error` that another package hands over: one of ours, or any other.
pub data Failure : Type 0 where
  coded : Code → Failure
  foreign : Failure

unfoldable pub error_code : Failure → Code
error_code (coded c) = c
error_code foreign = storage_unavailable

abbrev pub max_sequence : ℕ
max_sequence = 9223372036854775807

abbrev pub max_response_bytes : ℕ
max_response_bytes = 65536

abbrev pub max_cursor_bytes : ℕ
max_cursor_bytes = 2048

abbrev pub max_directory_candidates : ℕ
max_directory_candidates = 200

abbrev pub max_page_items : ℕ
max_page_items = 100

-- `Item.Kind`, a string: the two that the code names, and any other.
pub data ItemKind : Type 0 where
  upsert : ItemKind
  remove : ItemKind
  other : Bytes → ItemKind

pub record Item : Type 0 where
  pub conversation_id : Bytes
  pub revision : ℕ
  pub kind : ItemKind
  pub latest_conversation_seq : Option ℕ
  pub latest_server_msg_id : Option Bytes

pub record Page : Type 0 where
  pub items : List Item
  pub next_cursor : Bytes
  pub has_more : Bool

pub data ReadKind : Type 0 where
  bootstrap_read : ReadKind
  delta_read : ReadKind

pub record ReadRequest : Type 0 where
  pub kind : ReadKind
  pub start : Bool
  pub epoch : ℕ
  pub fence : ℕ
  pub after_seq : ℕ
  pub after_key : Bytes
  pub terminal_key : Bytes
  pub limit : ℕ

pub record Candidate : Type 0 where
  pub key : Bytes
  pub state : Option Item
  pub member : Bool
  pub latest : Option Item

pub record ReadResult : Type 0 where
  pub epoch : ℕ
  pub head : ℕ
  pub floor : ℕ
  pub fence : ℕ
  pub terminal_key : Bytes
  pub candidates : List Candidate
  pub directory_exhausted : Bool

-- The interface `Store`: what a read of one user's data answers.
abbrev pub Store : Type 0
Store = Bytes → ReadRequest → Result Failure ReadResult
