-- ===== src/Bytes/Base64.antt =====
-- encoding/base64's RawURLEncoding: no padding, `-` and `_` for 62 and 63. The decoder is the one
-- that is not strict: it passes over line breaks and ignores the last symbol's unused bits.
use new_im.Common.{
  ℕ, ◌+◌, ◌-◌, ◌*◌, ◌/◌, ◌%◌, ◌<◌, ◌≡◌, refl, ◌||◌, List, [], ◌∷◌, Option, none, some, All, ◌==◌,
  ltb, length, if◌then◌else◌, arith,
}

unfoldable pub symbol : ℕ → ℕ
symbol v =
    if ltb v 26
    then v + 65
    else if ltb v 52
    then v + 71
    else if ltb v 62
    then v - 4
    else if v == 62
    then b'-'
    else b'_'

unfoldable pub value : ℕ → Option ℕ
value c =
    if ltb c 45
    then none
    else if c == 45
    then some 62
    else if ltb c 48
    then none
    else if ltb c 58
    then some (c + 4)
    else if ltb c 65
    then none
    else if ltb c 91
    then some (c - 65)
    else if c == 95
    then some 63
    else if ltb c 97
    then none
    else if ltb c 123
    then some (c - 71)
    else none

unfoldable pub raw_url_encode : List ℕ → List ℕ
raw_url_encode [] = []
raw_url_encode (a ∷ []) = symbol (a / 4) ∷ symbol (a % 4 * 16) ∷ []
raw_url_encode (a ∷ b ∷ []) =
    symbol (a / 4) ∷ symbol (a % 4 * 16 + b / 16) ∷ symbol (b % 16 * 4) ∷ []
raw_url_encode (a ∷ b ∷ c ∷ rest) =
    symbol (a / 4)
    ∷ symbol (a % 4 * 16 + b / 16)
    ∷ symbol (b % 16 * 4 + c / 64)
    ∷ symbol (c % 64)
    ∷ raw_url_encode rest

unfoldable pub skip_breaks : List ℕ → List ℕ
skip_breaks [] = []
skip_breaks (c ∷ cs) = if c == 10 || c == 13 then skip_breaks cs else c ∷ skip_breaks cs

infixl 5 ◌>>=◌
abbrev ◌>>=◌ : {A B : Type 0} → Option A → (A → Option B) → Option B
none >>= f = none
some a >>= f = f a

unfoldable pub decode_symbols : List ℕ → Option (List ℕ)
decode_symbols [] = some []
decode_symbols (p ∷ []) = none
decode_symbols (p ∷ q ∷ []) = do a ← value p; b ← value q; some ((a * 4 + b / 16) ∷ [])
decode_symbols (p ∷ q ∷ r ∷ []) = do
  a ← value p
  b ← value q
  c ← value r
  some ((a * 4 + b / 16) ∷ (b % 16 * 16 + c / 4) ∷ [])
decode_symbols (p ∷ q ∷ r ∷ s ∷ rest) =
    let later = decode_symbols rest in
    do
      a ← value p
      b ← value q
      c ← value r
      d ← value s
      bytes ← later
      some ((a * 4 + b / 16) ∷ (b % 16 * 16 + c / 4) ∷ (c % 4 * 64 + d) ∷ bytes)

unfoldable pub raw_url_decode : List ℕ → Option (List ℕ)
unfolding decode_symbols skip_breaks
raw_url_decode s = decode_symbols (skip_breaks s)

value-symbol : (v : ℕ) → v < 64 → value (symbol v) ≡ some v
unfolding value symbol
value-symbol v h = ground arith

-- No symbol is a line break.
symbol_keeps :
    (v : ℕ) (cs : List ℕ) {ds : List ℕ}
    → v < 64
    → skip_breaks cs ≡ ds
    → skip_breaks (symbol v ∷ cs) ≡ symbol v ∷ ds
unfolding skip_breaks symbol
symbol_keeps v cs h e = ground arith

skip_breaks-encode :
    (bs : List ℕ) → All (λ b. b < 256) bs → skip_breaks (raw_url_encode bs) ≡ raw_url_encode bs
unfolding raw_url_encode
skip_breaks-encode [] h = unfold skip_breaks in refl
skip_breaks-encode (a ∷ []) h =
    symbol_keeps _ _ (omega arith) (symbol_keeps _ _ (omega arith) (unfold skip_breaks in refl))
skip_breaks-encode (a ∷ b ∷ []) h =
    symbol_keeps _ _ (omega arith)
      (symbol_keeps _ _ (omega arith) (symbol_keeps _ _ (omega arith) (unfold skip_breaks in refl)))
skip_breaks-encode (a ∷ b ∷ c ∷ rest) h = symbol_keeps _ _ (omega arith) (
    symbol_keeps _ _ (omega arith) (
      symbol_keeps _ _ (omega arith)
        (symbol_keeps _ _ (omega arith) (skip_breaks-encode rest h.1.1.1))))

decode_symbols-encode :
    (bs : List ℕ) → All (λ b. b < 256) bs → decode_symbols (raw_url_encode bs) ≡ some bs
unfolding decode_symbols raw_url_encode
decode_symbols-encode [] h = refl
decode_symbols-encode (a ∷ []) h = ground (arith, value-symbol (a / 4), value-symbol (a % 4 * 16))
decode_symbols-encode (a ∷ b ∷ []) h =
    ground
      (arith, value-symbol (a / 4), value-symbol (a % 4 * 16 + b / 16), value-symbol (b % 16 * 4))
decode_symbols-encode (a ∷ b ∷ c ∷ rest) h = ground (
  arith,
  value-symbol (a / 4),
  value-symbol (a % 4 * 16 + b / 16),
  value-symbol (b % 16 * 4 + c / 64),
  value-symbol (c % 64),
  decode_symbols-encode rest h.1.1.1,
)

-- What was encoded is decoded again.
pub decode-encode :
    (bs : List ℕ) → All (λ b. b < 256) bs → raw_url_decode (raw_url_encode bs) ≡ some bs
unfolding raw_url_decode
decode-encode bs h = rw (skip_breaks-encode bs h) (decode_symbols-encode bs h)

-- Four symbols for three bytes.
pub length-encode : (bs : List ℕ) → length (raw_url_encode bs) ≡ (length bs * 4 + 2) / 3
unfolding raw_url_encode
length-encode [] = omega arith
length-encode (a ∷ []) = omega arith
length-encode (a ∷ b ∷ []) = omega arith
length-encode (a ∷ b ∷ c ∷ rest) = omega (arith, length-encode rest)
