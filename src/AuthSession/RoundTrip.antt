-- ===== src/AuthSession/RoundTrip.antt =====
-- A token that was made is read back (server/auth/session/token.go).
use new_im.Common.{
  ℕ, ◌+◌, ◌-◌, ◌*◌, ◌/◌, ◌%◌, ◌≤◌, ◌<◌, ◌≡◌, refl, sym, ap, ◌∙◌, subst, true, false, not, ◌||◌, [],
  ◌∷◌, ◌++◌, some, ok, reject-eq-ok, or_fail-eq-ok, length, length-append, take, drop, drop-drop,
  take-append, drop-append, All, ◌==◌, ltb, arith,
}
use new_im.Common.Int.{ℤ, pos_part, ltb_ℤ}
use new_im.Bytes.{Bytes, eq_bytes_refl, every, is_hex_char}
use new_im.Bytes.Base64.{raw_url_encode, decode-encode, length-encode}
use new_im.Bytes.Text.{hex_digit}
use new_im.AuthSession.Identity.{valid_token_id}
use new_im.AuthSession.Types.{invalid_input, entropy_unavailable}
use new_im.AuthSession.Token.{
  token_prefix, IssuedToken, new_issued_token, hex_encode, raw_token_of, Reads, max_ttl,
  generate_issued_token, bad_frame, parse_raw_token, min_ttl,
}

length-hex_encode : (bs : Bytes) → length (hex_encode bs) ≡ 2 * length bs
unfolding hex_encode
length-hex_encode [] = refl
length-hex_encode (b ∷ bs) = omega (arith, length-hex_encode bs)

hex_digit-is_hex_char : (d : ℕ) → d < 16 → is_hex_char (hex_digit d) ≡ true
unfolding hex_digit is_hex_char
hex_digit-is_hex_char d h = ground arith

-- The bytes that a read gives.
abbrev pub AreBytes : Bytes → Type 0
AreBytes bs = All (λ b. b < 256) bs

every-hex_encode : (bs : Bytes) → AreBytes bs → every is_hex_char (hex_encode bs) ≡ true
unfolding hex_encode every
every-hex_encode [] h = refl
every-hex_encode (b ∷ bs) h = ground (
  arith,
  hex_digit-is_hex_char (b / 16) (omega (arith, h.0)),
  hex_digit-is_hex_char (b % 16) (omega arith),
  every-hex_encode bs h.1,
)

valid_token_id-hex_encode :
    (bs : Bytes) → length bs ≡ 16 → AreBytes bs → valid_token_id (hex_encode bs) ≡ true
unfolding valid_token_id
valid_token_id-hex_encode bs l h =
    let size : length (hex_encode bs) ≡ 32 = omega (arith, length-hex_encode bs) in
    ground (arith, size, every-hex_encode bs h)

valid_token_id-length : (id : Bytes) → valid_token_id id ≡ true → length id ≡ 32
unfolding valid_token_id
valid_token_id-length id h = ground arith

-- Reading the two parts of a raw token.
module _ (id secret : Bytes) (size : length id ≡ 32) where
  id_part : take 32 (drop 3 (raw_token_of id secret)) ≡ id
  unfolding raw_token_of
  id_part =
      subst (λ n. take n (id ++ b'_' ∷ raw_url_encode secret) ≡ id) size
        (take-append id (b'_' ∷ raw_url_encode secret))

  behind_id : drop 32 (id ++ b'_' ∷ raw_url_encode secret) ≡ b'_' ∷ raw_url_encode secret
  behind_id =
      subst (λ n. drop n (id ++ b'_' ∷ raw_url_encode secret) ≡ b'_' ∷ raw_url_encode secret) size
        (drop-append id (b'_' ∷ raw_url_encode secret))

  secret_part : drop 36 (raw_token_of id secret) ≡ raw_url_encode secret
  unfolding raw_token_of
  secret_part = sym (drop-drop 32 1 (id ++ b'_' ∷ raw_url_encode secret)) ∙ ap (drop 1) behind_id

  good_frame : length secret ≡ 32 → bad_frame (raw_token_of id secret) ≡ false
  unfolding raw_token_of bad_frame
  good_frame l =
      let whole : length (id ++ b'_' ∷ raw_url_encode secret) ≡ 76 =
        omega (arith, length-append id (b'_' ∷ raw_url_encode secret), length-encode secret) in
      let mark : take 1 (drop 32 (id ++ b'_' ∷ raw_url_encode secret)) ≡ b'_' ∷ [] =
        ap (take 1) behind_id in
      ground (arith, whole, mark, eq_bytes_refl token_prefix, eq_bytes_refl (b'_' ∷ []))

pub parse-raw_token_of :
    (sha256 : Bytes → Bytes) (id secret : Bytes)
    → valid_token_id id ≡ true
    → length secret ≡ 32
    → AreBytes secret
    → parse_raw_token sha256 (raw_token_of id secret) ≡ ok (id, sha256 (raw_token_of id secret))
unfolding parse_raw_token
parse-raw_token_of sha256 id secret valid l h =
    let size = valid_token_id-length id valid in
    rw
      (
        good_frame id secret size l,
        id_part id secret size,
        secret_part id secret size,
        valid,
        decode-encode secret h,
        l,
        eq_bytes_refl (raw_url_encode secret),
      )
      refl

-- What the reads of the entropy give, where they give something: 16 and 32 bytes.
pub record IsFull (reads : Reads) : Type 0 where
  pub ids : (bs : Bytes) → reads.token_id_bytes ≡ some bs → (length bs ≡ 16) × AreBytes bs
  pub secrets : (bs : Bytes) → reads.secret_bytes ≡ some bs → (length bs ≡ 32) × AreBytes bs

-- A token that can be read back, and that lives for `ttl` from the microsecond of its issue on.
pub record IsIssued (sha256 : Bytes → Bytes) (now : ℕ) (ttl : ℤ) (token : IssuedToken)
    : Type 0 where
  pub parsed : parse_raw_token sha256 token.raw_token ≡ ok (token.token_id, token.digest)
  pub valid : valid_token_id token.token_id ≡ true
  pub lifetime : token.expires_at ≡ token.issued_at + pos_part ttl
  pub issued_within : (token.issued_at ≤ now) × (now < token.issued_at + 1000)

generate-parts :
    (sha256 : Bytes → Bytes) (reads : Reads) (now : ℕ) (ttl : ℤ) (token : IssuedToken)
    → generate_issued_token sha256 (some reads) now ttl ≡ ok token
    → (id : Bytes) × (reads.token_id_bytes ≡ some id)
      × (secret : Bytes) × (reads.secret_bytes ≡ some secret)
      × (new_issued_token
            (hex_encode id)
            (raw_token_of (hex_encode id) secret)
            (sha256 (raw_token_of (hex_encode id) secret))
            (now - now % 1000)
            (now - now % 1000 + pos_part ttl)
          ≡ ok token)
unfolding generate_issued_token
generate-parts sha256 reads now ttl token h =
    let (_, h1) =
      reject-eq-ok (now == 0 || ltb_ℤ ttl min_ttl || ltb_ℤ max_ttl ttl) invalid_input _ h in
    let (id, read, h2) = or_fail-eq-ok reads.token_id_bytes entropy_unavailable _ h1 in
    let (secret, read', h3) = or_fail-eq-ok reads.secret_bytes entropy_unavailable _ h2 in
    let (_, made) =
      reject-eq-ok (not (ltb (now - now % 1000) (now - now % 1000 + pos_part ttl))) invalid_input _
        h3 in
    (id, read, secret, read', made)

new_issued_token-same :
    (id raw digest : Bytes) (issued expires : ℕ) (token : IssuedToken)
    → new_issued_token id raw digest issued expires ≡ ok token
    → token ≡ record {
      token_id = id;
      raw_token = raw;
      digest = digest;
      issued_at = issued;
      expires_at = expires;
    }
unfolding new_issued_token
new_issued_token-same id raw digest issued expires token h = ground arith

pub generate-IsIssued :
    (sha256 : Bytes → Bytes) (reads : Reads) (now : ℕ) (ttl : ℤ) (token : IssuedToken)
    → IsFull reads
    → generate_issued_token sha256 (some reads) now ttl ≡ ok token
    → IsIssued sha256 now ttl token
generate-IsIssued sha256 reads now ttl token full h =
    let (id, read, secret, read', made) = generate-parts sha256 reads now ttl token h in
    let (id_size, id_bytes) = full.ids id read in
    let (secret_size, secret_are) = full.secrets secret read' in
    let valid = valid_token_id-hex_encode id id_size id_bytes in
    subst (IsIssued sha256 now ttl)
      (sym (
        new_issued_token-same (hex_encode id) (raw_token_of (hex_encode id) secret)
          (sha256 (raw_token_of (hex_encode id) secret)) (now - now % 1000)
          (now - now % 1000 + pos_part ttl) token made))
      (record {
        parsed = parse-raw_token_of sha256 (hex_encode id) secret valid secret_size secret_are;
        valid = valid;
        lifetime = refl;
        issued_within = (omega arith, omega arith);
      })
