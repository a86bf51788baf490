-- ===== src/Bytes.antt =====
-- Go strings and byte slices as lists of bytes: equality, the byte order of Go's string
-- comparison, the character classes of identifiers, and big-endian numbers (encoding/binary).
pub mod BigEndian
pub mod Base64
pub mod Text
use new_im.Common.{
  ℕ, zero, suc, ◌+◌, ◌≤◌, ◌<◌, ◌≡◌, refl, ap, ◌↔◌, Bool, true, false, ◌&&◌, ◌||◌, List, [], ◌∷◌,
  ◌==◌, ltb, leb, if◌then◌else◌, arith,
}

abbrev pub Bytes : Type 0
Bytes = List ℕ

-- Go's `a == b` on strings.
unfoldable pub eq_bytes : Bytes → Bytes → Bool
eq_bytes [] [] = true
eq_bytes [] (y ∷ ys) = false
eq_bytes (x ∷ xs) [] = false
eq_bytes (x ∷ xs) (y ∷ ys) = x == y && eq_bytes xs ys

pub eq_bytes_refl : (xs : Bytes) → eq_bytes xs xs ≡ true
unfolding eq_bytes
eq_bytes_refl [] = refl
eq_bytes_refl (x ∷ xs) = ground (arith, eq_bytes_refl xs)

pub eq_bytes_sound : (xs ys : Bytes) → eq_bytes xs ys ≡ true → xs ≡ ys
unfolding eq_bytes
eq_bytes_sound [] [] h = refl
eq_bytes_sound [] (y ∷ ys) h = cc
eq_bytes_sound (x ∷ xs) [] h = cc
eq_bytes_sound (x ∷ xs) (y ∷ ys) h = ground (arith, eq_bytes_sound xs ys)

-- Go's `a < b` on strings: the order of the bytes.
unfoldable pub lt_bytes : Bytes → Bytes → Bool
lt_bytes [] [] = false
lt_bytes [] (y ∷ ys) = true
lt_bytes (x ∷ xs) [] = false
lt_bytes (x ∷ xs) (y ∷ ys) = ltb x y || (x == y && lt_bytes xs ys)

pub lt_bytes_irrefl : (xs : Bytes) → lt_bytes xs xs ≡ false
unfolding lt_bytes
lt_bytes_irrefl [] = refl
lt_bytes_irrefl (x ∷ xs) = ground (arith, lt_bytes_irrefl xs)

pub lt_bytes_trans :
    (xs ys zs : Bytes) → lt_bytes xs ys ≡ true → lt_bytes ys zs ≡ true → lt_bytes xs zs ≡ true
unfolding lt_bytes
lt_bytes_trans [] [] zs p q = cc
lt_bytes_trans [] (y ∷ ys) [] p q = cc
lt_bytes_trans [] (y ∷ ys) (z ∷ zs) p q = refl
lt_bytes_trans (x ∷ xs) [] zs p q = cc
lt_bytes_trans (x ∷ xs) (y ∷ ys) [] p q = cc
lt_bytes_trans (x ∷ xs) (y ∷ ys) (z ∷ zs) p q = ground (arith, lt_bytes_trans xs ys zs)

pub lt_bytes_total : (xs ys : Bytes) → lt_bytes xs ys ≡ false → lt_bytes ys xs ≡ false → xs ≡ ys
unfolding lt_bytes
lt_bytes_total [] [] p q = refl
lt_bytes_total [] (y ∷ ys) p q = cc
lt_bytes_total (x ∷ xs) [] p q = cc
lt_bytes_total (x ∷ xs) (y ∷ ys) p q = ground (arith, lt_bytes_total xs ys)

-- `s != ""`.
abbrev pub nonempty : Bytes → Bool
nonempty [] = false
nonempty (x ∷ xs) = true

abbrev pub is_upper : ℕ → Bool
is_upper c = leb b'A' c && leb c b'Z'

abbrev pub is_lower : ℕ → Bool
is_lower c = leb b'a' c && leb c b'z'

abbrev pub is_digit : ℕ → Bool
is_digit c = leb b'0' c && leb c b'9'

-- `(c >= 'A' && c <= 'Z') || (c >= 'a' && c <= 'z') || (c >= '0' && c <= '9') || c == '_' || c == '-'`.
unfoldable pub is_identifier_char : ℕ → Bool
is_identifier_char c = is_upper c || is_lower c || is_digit c || c == b'_' || c == b'-'

-- The loop `for i := 0; i < len(s); i++ { if !test(s[i]) { return false } }; return true`.
unfoldable pub every : (ℕ → Bool) → Bytes → Bool
every test [] = true
every test (c ∷ cs) = test c && every test cs

-- `(c >= '0' && c <= '9') || (c >= 'a' && c <= 'f')`.
unfoldable pub is_hex_char : ℕ → Bool
is_hex_char c = is_digit c || (leb b'a' c && leb c b'f')
