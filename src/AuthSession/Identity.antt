-- ===== src/AuthSession/Identity.antt =====
-- server/auth/session/types.go and token.go: identifiers and identities.
use new_im.Common.{ℕ, Bool, not, ◌&&◌, ◌||◌, ◌==◌, ltb, length}
use new_im.Bytes.{Bytes, every, is_identifier_char, is_hex_char}

-- `TokenIDHexLen`, two digits for each of `tokenIDHexBytes`.
abbrev pub token_id_hex_len : ℕ
token_id_hex_len = 32

unfoldable pub valid_token_id : Bytes → Bool
valid_token_id value = length value == token_id_hex_len && every is_hex_char value

unfoldable pub valid_id : Bytes → Bool
valid_id value = not (length value == 0 || ltb 128 (length value)) && every is_identifier_char value

pub record SessionBinding : Type 0 where
  pub user_id : Bytes
  pub device_id : Bytes
  pub session_id : Bytes

-- `SessionBinding.Valid`.
unfoldable pub valid_binding : SessionBinding → Bool
valid_binding b = valid_id b.user_id && valid_id b.device_id && valid_id b.session_id

pub record ConnectionIdentity : Type 0 where
  pub user_id : Bytes
  pub device_id : Bytes
  pub session_id : Bytes
  pub connection_id : Bytes
  pub token_id : Bytes
