-- ===== src/MessageSync/Types.antt =====
-- server/sync/message/types.go: the codes, the rows, the pages and the port to the store.
use new_im.Common.{ℕ, Bool, List, Option, Result}
use new_im.Common.Int.{ℤ}
use new_im.Bytes.{Bytes}

pub data Code : Type 0 where
  forbidden : Code
  invalid_cursor : Code
  limit_exceeded : Code
  storage_unavailable : Code

-- An `error` that another package hands over: one of ours, or any other.
pub data Failure : Type 0 where
  coded : Code → Failure
  foreign : Failure

abbrev pub max_page_items : ℕ
max_page_items = 100

abbrev pub max_response_bytes : ℕ
max_response_bytes = 262144

abbrev pub page_overhead : ℕ
page_overhead = 64

abbrev pub item_overhead : ℕ
item_overhead = 128

abbrev pub max_sequence : ℕ
max_sequence = 9223372036854775807

pub record ReadRequest : Type 0 where
  pub conversation_id : Bytes
  pub has_after_seq : Bool
  pub after_seq : ℤ
  pub limit : ℤ

pub record Item : Type 0 where
  pub server_msg_id : Bytes
  pub client_msg_id : Bytes
  pub sender_id : Bytes
  pub conversation_id : Bytes
  pub conversation_seq : ℤ
  pub protocol_version : ℕ
  pub schema_version : ℕ
  pub message_type : Bytes
  pub server_time : ℤ
  pub payload : Bytes

pub record Page : Type 0 where
  pub items : List Item
  pub latest_seq : ℤ
  pub has_next : Bool
  pub next_after_seq : Option ℤ

pub record ReadResult : Type 0 where
  pub latest_seq : ℤ
  pub limit : ℤ
  pub rows : List Item

-- The answer of the store to a user's request.
abbrev pub Store : Type 0
Store = Bytes → ReadRequest → Result Failure ReadResult
