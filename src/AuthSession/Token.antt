-- ===== src/AuthSession/Token.antt =====
-- server/auth/session/token.go: the making and the reading of raw tokens. SHA-256 is a parameter,
-- and so is what a read of the entropy gives.
use new_im.Common.{
  ℕ, ◌+◌, ◌-◌, ◌/◌, ◌%◌, Bool, not, ◌||◌, [], ◌∷◌, ◌++◌, Option, Result, ok, ◌>>=◌, ◌>>◌, reject,
  or_fail, ◌==◌, ltb, length, take, drop,
}
use new_im.Common.Int.{ℤ, pos, ltb_ℤ, pos_part}
use new_im.Bytes.{Bytes, eq_bytes}
use new_im.Bytes.Base64.{raw_url_encode, raw_url_decode}
use new_im.Bytes.Text.{text, hex_digit}
use new_im.AuthSession.Identity.{valid_token_id}
use new_im.AuthSession.Types.{Code, invalid_input, token_malformed, entropy_unavailable}

abbrev pub token_prefix : Bytes
token_prefix = text "n1_"

-- `len(TokenPrefix) + TokenIDHexLen + 1 + TokenSecretLen`.
abbrev pub raw_token_len : ℕ
raw_token_len = 79

-- A second and a day, in nanoseconds.
abbrev pub min_ttl : ℤ
min_ttl = pos 1000000000

abbrev pub max_ttl : ℤ
max_ttl = pos 86400000000000

pub record IssuedToken : Type 0 where
  pub token_id : Bytes
  pub raw_token : Bytes
  pub digest : Bytes
  pub issued_at : ℕ
  pub expires_at : ℕ

unfoldable pub new_issued_token : Bytes → Bytes → Bytes → ℕ → ℕ → Result Code IssuedToken
new_issued_token token_id raw digest issued_at expires_at = do
  reject
      (not (valid_token_id token_id)
        || not (length raw == raw_token_len)
        || issued_at == 0
        || expires_at == 0
        || not (ltb issued_at expires_at))
      invalid_input
  ok (record {
    token_id = token_id;
    raw_token = raw;
    digest = digest;
    issued_at = issued_at;
    expires_at = expires_at;
  })

-- `hex.EncodeToString`.
unfoldable pub hex_encode : Bytes → Bytes
hex_encode [] = []
hex_encode (b ∷ bs) = hex_digit (b / 16) ∷ hex_digit (b % 16) ∷ hex_encode bs

-- The raw token of an identifier and a secret.
unfoldable pub raw_token_of : Bytes → Bytes → Bytes
raw_token_of token_id secret = token_prefix ++ (token_id ++ b'_' ∷ raw_url_encode secret)

-- What `io.ReadFull` gives for the two buffers; `none` is an error.
pub record Reads : Type 0 where
  pub token_id_bytes : Option Bytes
  pub secret_bytes : Option Bytes

-- The checks on the frame; `raw[35] != '_'` is read after the length.
unfoldable pub bad_frame : Bytes → Bool
bad_frame raw =
    not (length raw == raw_token_len)
    || not (eq_bytes (take 3 raw) token_prefix)
    || not (eq_bytes (take 1 (drop 35 raw)) (b'_' ∷ []))

module _ (sha256 : Bytes → Bytes) where
  -- `now.UTC().Truncate(time.Microsecond)` drops what is over a thousand nanoseconds.
  unfoldable pub generate_issued_token : Option Reads → ℕ → ℤ → Result Code IssuedToken
  generate_issued_token entropy now ttl = do
    reads ← or_fail entropy entropy_unavailable
    reject (now == 0 || ltb_ℤ ttl min_ttl || ltb_ℤ max_ttl ttl) invalid_input
    token_id_bytes ← or_fail reads.token_id_bytes entropy_unavailable
    secret_bytes ← or_fail reads.secret_bytes entropy_unavailable
    let token_id = hex_encode token_id_bytes
    let raw = raw_token_of token_id secret_bytes
    let issued_at = now - now % 1000
    let expires_at = issued_at + pos_part ttl
    reject (not (ltb issued_at expires_at)) invalid_input
    new_issued_token token_id raw (sha256 raw) issued_at expires_at

  unfoldable pub parse_raw_token : Bytes → Result Code (Bytes × Bytes)
  parse_raw_token raw = do
    reject (bad_frame raw) token_malformed
    let token_id = take 32 (drop 3 raw)
    reject (not (valid_token_id token_id)) token_malformed
    let secret = drop 36 raw
    decoded ← or_fail (raw_url_decode secret) token_malformed
    reject (not (length decoded == 32) || not (eq_bytes (raw_url_encode decoded) secret))
        token_malformed
    ok (token_id, sha256 raw)
