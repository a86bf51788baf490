-- ===== src/ConversationSync/Service.antt =====
-- server/sync/conversation/service.go: the service, its construction and its read of the
-- store. The context (a deadline for the store) and the observer (which changes no answer) are left
-- out.
use new_im.Common.{
  Bool, true, not, ◌&&◌, ◌||◌, [], ◌∷◌, Option, Result, ok, err, ◌>>=◌, ◌>>◌, reject, or_fail, ◌==◌,
  ltb, if◌then◌else◌, length,
}
use new_im.Common.Int.{ℤ, pos, ltb_ℤ, eqb_ℤ}
use new_im.Bytes.{Bytes}
use new_im.ConversationSync.Types.{Code, storage_unavailable, ReadRequest, ReadResult, Store}
use new_im.ConversationSync.Cursor.{valid_key_id}
use new_im.ConversationSync.Codec.{Keys, key_of}
use new_im.ConversationSync.Validate.{redact_error}

-- 5 seconds, in nanoseconds.
abbrev pub default_request_timeout : ℤ
default_request_timeout = pos 5000000000

pub record Config : Type 0 where
  pub keys : Keys
  pub active_key_id : Bytes
  pub request_timeout : ℤ

pub record Service : Type 0 where
  pub store : Store
  pub keys : Keys
  pub active_key_id : Bytes
  pub request_timeout : ℤ

-- The loop over `config.Keys`.
unfoldable pub valid_keys : Keys → Bool
valid_keys [] = true
valid_keys ((id, key) ∷ rest) =
    not (not (valid_key_id id) || ltb (length key) 32) && valid_keys rest

-- `none` is a nil store.
unfoldable pub new_service : Option Store → Config → Result Code Service
new_service store config = do
  s ← or_fail store storage_unavailable
  reject (length config.keys == 0 || not (valid_key_id config.active_key_id)) storage_unavailable
  reject (not (valid_keys config.keys)) storage_unavailable
  _ ← or_fail (key_of config.keys config.active_key_id) storage_unavailable
  let timeout =
      if eqb_ℤ config.request_timeout (pos 0)
      then default_request_timeout
      else config.request_timeout
  reject (ltb_ℤ timeout (pos 0) || ltb_ℤ default_request_timeout timeout) storage_unavailable
  ok (record {
    store = s;
    keys = config.keys;
    active_key_id = config.active_key_id;
    request_timeout = timeout;
  })

-- `Service.read`.
unfoldable pub read : Service → Bytes → ReadRequest → Result Code ReadResult
read s user request = elim (s.store user request) [
  | ok result ↦ ok result
  | err failure ↦ err (redact_error failure)
]
