-- ===== src/Protocol/Json/Utf8.antt =====
-- unicode/utf8: `Valid`, and the bytes of a code point.
use new_im.Common.{
  ℕ, zero, suc, ◌+◌, ◌/◌, ◌%◌, Bool, true, false, ◌&&◌, [], ◌∷◌, ◌==◌, ltb, leb, if◌then◌else◌,
}
use new_im.Bytes.{Bytes}

between : ℕ → ℕ → ℕ → Bool
between lo hi c = leb lo c && leb c hi

-- The bytes that must follow: each within its bounds, which only the second byte narrows.
pub data Awaited : Type 0 where
  nothing : Awaited
  bytes : (lo hi more : ℕ) → Awaited

-- What the first byte of a character asks for.
first_byte : ℕ → Bool × Awaited
unfolding between
first_byte c =
    if ltb c 0x80
    then (true, nothing)
    else if between 0xC2 0xDF c
    then (true, bytes 0x80 0xBF 0)
    else if c == 0xE0
    then (true, bytes 0xA0 0xBF 1)
    else if c == 0xED
    then (true, bytes 0x80 0x9F 1)
    else if between 0xE1 0xEF c
    then (true, bytes 0x80 0xBF 1)
    else if c == 0xF0
    then (true, bytes 0x90 0xBF 2)
    else if between 0xF1 0xF3 c
    then (true, bytes 0x80 0xBF 2)
    else if c == 0xF4
    then (true, bytes 0x80 0x8F 2)
    else (false, nothing)

after_byte : ℕ → Awaited
after_byte zero = nothing
after_byte (suc more) = bytes 0x80 0xBF more

valid_from : Awaited → Bytes → Bool
unfolding first_byte after_byte between
valid_from nothing [] = true
valid_from (bytes lo hi more) [] = false
valid_from nothing (c ∷ cs) = (first_byte c).0 && valid_from (first_byte c).1 cs
valid_from (bytes lo hi more) (c ∷ cs) = between lo hi c && valid_from (after_byte more) cs

unfoldable pub valid_utf8 : Bytes → Bool
unfolding valid_from
valid_utf8 = valid_from nothing

unfoldable pub rune_bytes : ℕ → Bytes
rune_bytes r =
    if ltb r 0x80
    then r ∷ []
    else if ltb r 0x800
    then (0xC0 + r / 0x40) ∷ (0x80 + r % 0x40) ∷ []
    else if ltb r 0x10000
    then (0xE0 + r / 0x1000) ∷ (0x80 + r / 0x40 % 0x40) ∷ (0x80 + r % 0x40) ∷ []
    else (0xF0 + r / 0x40000)
      ∷ (0x80 + r / 0x1000 % 0x40)
      ∷ (0x80 + r / 0x40 % 0x40)
      ∷ (0x80 + r % 0x40)
      ∷ []
