-- ===== src/Protocol/RoundTrip/Written.antt =====
-- A string that is written for the wire is read back (core/protocol/go/send.go).
use new_im.Common.{
  ℕ, ◌+◌, ◌*◌, ◌/◌, ◌%◌, ◌<◌, ◌≡◌, refl, ap, sym, subst, ==_iff, ltb→lt, ◌∙◌, inl, inr, Bool, true,
  false, ◌&&◌, ◌||◌, List, [], ◌∷◌, ◌++◌, append_assoc, some, Bool-cases, ◌==◌, ltb, if◌then◌else◌,
  arith,
}
use new_im.Bytes.{Bytes}
use new_im.Bytes.Text.{hex_digit}
use new_im.Protocol.Json.Utf8.{rune_bytes}
use new_im.Protocol.Json.Scan.{
  hex_value, escape_of, Piece, byte, unit, plain, digits, add_piece, is_high, is_low, scan_string,
  unquoted, unit_bytes,
}
use new_im.Protocol.Send.{wire_byte, wire_bytes}

hex_value-hex_digit : (d : ℕ) → d < 16 → hex_value (hex_digit d) ≡ some d
unfolding hex_value hex_digit
hex_value-hex_digit d h = ground arith

hex_value-hex_digit_zero : hex_value b'0' ≡ some 0
unfolding hex_value
hex_value-hex_digit_zero = refl

digits_of : (c : ℕ) → c / 16 * 16 + c % 16 ≡ c
digits_of c = omega arith

scan_backslash_u :
    (cs : Bytes) → scan_string plain (b'\\' ∷ b'u' ∷ cs) ≡ scan_string (digits 0 0) cs
unfolding scan_string
scan_backslash_u cs = refl

scan_digit :
    (read value c d : ℕ) (cs : Bytes)
    → hex_value c ≡ some d
    → read < 3
    → scan_string (digits read value) (c ∷ cs) ≡ scan_string (digits (read + 1) (value * 16 + d)) cs
unfolding scan_string
scan_digit read value c d cs h k =
    let early : (read == 3) ≡ false = ground (arith, k) in rw (h, early, scan_string) refl

scan_last_digit :
    (value c d : ℕ) (cs : Bytes)
    → hex_value c ≡ some d
    → scan_string (digits 3 value) (c ∷ cs)
      ≡ add_piece (unit (value * 16 + d)) (scan_string plain cs)
unfolding scan_string
scan_last_digit value c d cs h = rw (h, scan_string) refl

scan_u :
    (cs : Bytes) → scan_string plain (b'\\' ∷ b'u' ∷ b'0' ∷ b'0' ∷ cs) ≡ scan_string (digits 2 0) cs
scan_u cs =
    start
    ∙ scan_digit 0 0 b'0' 0 (b'0' ∷ cs) zero_digit (omega arith)
    ∙ scan_digit 1 0 b'0' 0 cs zero_digit (omega arith)
  where
    zero_digit : hex_value b'0' ≡ some 0
    zero_digit = hex_value-hex_digit_zero

    start :
        scan_string plain (b'\\' ∷ b'u' ∷ b'0' ∷ b'0' ∷ cs)
        ≡ scan_string (digits 0 0) (b'0' ∷ b'0' ∷ cs)
    start = scan_backslash_u (b'0' ∷ b'0' ∷ cs)

zero_add : (n : ℕ) → 0 + n ≡ n
zero_add n = omega arith

scan_unit :
    (c : ℕ) (cs : Bytes)
    → c < 256
    → scan_string plain (b'\\' ∷ b'u' ∷ b'0' ∷ b'0' ∷ hex_digit (c / 16) ∷ hex_digit (c % 16) ∷ cs)
      ≡ add_piece (unit c) (scan_string plain cs)
scan_unit c cs h =
    scan_u (hex_digit (c / 16) ∷ hex_digit (c % 16) ∷ cs)
    ∙ scan_digit 2 0 (hex_digit (c / 16)) (c / 16) (hex_digit (c % 16) ∷ cs)
        (hex_value-hex_digit (c / 16) (omega arith)) (omega arith)
    ∙ ap (λ v. scan_string (digits 3 v) (hex_digit (c % 16) ∷ cs)) (zero_add (c / 16))
    ∙ scan_last_digit (c / 16) (hex_digit (c % 16)) (c % 16) cs
        (hex_value-hex_digit (c % 16) (omega arith))
    ∙ ap (λ n. add_piece (unit n) (scan_string plain cs)) (digits_of c)

-- These bytes are scanned as this piece, whatever follows.
abbrev Scans : Bytes → Bytes → Piece → Type 0
Scans cs written p = scan_string plain (written ++ cs) ≡ add_piece p (scan_string plain cs)

Scans-if :
    (cs : Bytes) (test : Bool) (x y : Bytes) (p q : Piece)
    → (test ≡ true → Scans cs x p)
    → (test ≡ false → Scans cs y q)
    → Scans cs (if test then x else y) (if test then p else q)
Scans-if cs true x y p q h k = h refl
Scans-if cs false x y p q h k = k refl

Scans-quote :
    (cs : Bytes) (c : ℕ) → (c == b'"' || c == b'\\') ≡ true → Scans cs (b'\\' ∷ c ∷ []) (byte c)
unfolding scan_string escape_of
Scans-quote cs c h = elim (Bool-cases (c == b'"')) [
  | inl e ↦ subst (λ d. Scans cs (b'\\' ∷ d ∷ []) (byte d)) (sym ((==_iff c b'"').0 e)) refl
  | inr n ↦
      let is_backslash : c ≡ b'\\' = ground (arith, h, n) in
      subst (λ d. Scans cs (b'\\' ∷ d ∷ []) (byte d)) (sym is_backslash) refl
]

Scans-letter :
    (cs : Bytes) (letter c : ℕ)
    → escape_of letter ≡ some c
    → (letter == b'u') ≡ false
    → Scans cs (b'\\' ∷ letter ∷ []) (byte c)
unfolding scan_string
Scans-letter cs letter c h k = rw (h, k, scan_string) refl

Scans-plain :
    (cs : Bytes) (c : ℕ)
    → (c == b'"') ≡ false
    → (c == b'\\') ≡ false
    → ltb c 0x20 ≡ false
    → Scans cs (c ∷ []) (byte c)
unfolding scan_string
Scans-plain cs c p q r = rw (p, q, r, scan_string) refl

unfoldable pub piece_of : ℕ → Piece
piece_of c =
    if c == b'"' || c == b'\\'
    then byte c
    else if c == 8
    then byte 8
    else if c == 12
    then byte 12
    else if c == 10
    then byte 10
    else if c == 13
    then byte 13
    else if c == 9
    then byte 9
    else if ltb c 32
    then unit c
    else byte c

Scans-wire_byte : (cs : Bytes) (c : ℕ) → Scans cs (wire_byte c) (piece_of c)
unfolding wire_byte piece_of escape_of
Scans-wire_byte cs c =
    Scans-if cs (c == b'"' || c == b'\\') _ _ _ _ (Scans-quote cs c) (λ plain_char.
      Scans-if cs (c == 8) _ _ _ _ (λ _. Scans-letter cs b'b' 8 refl refl)
        (λ _.
          Scans-if cs (c == 12) _ _ _ _ (λ _. Scans-letter cs b'f' 12 refl refl)
            (λ _.
              Scans-if cs (c == 10) _ _ _ _ (λ _. Scans-letter cs b'n' 10 refl refl)
                (λ _.
                  Scans-if cs (c == 13) _ _ _ _ (λ _. Scans-letter cs b'r' 13 refl refl)
                    (λ _.
                      Scans-if cs (c == 9) _ _ _ _ (λ _. Scans-letter cs b't' 9 refl refl)
                        (λ _.
                          Scans-if cs (ltb c 32) _ _ _ _
                            (λ low. scan_unit c cs (ground (arith, low)))
                            (λ high.
                              Scans-plain cs c (ground (arith, plain_char))
                                (ground (arith, plain_char)) high)))))))

abbrev pub pieces_of : Bytes → List Piece
pieces_of [] = []
pieces_of (c ∷ cs) = piece_of c ∷ pieces_of cs

pub scan_wire_bytes :
    (s rest : Bytes) → scan_string plain (wire_bytes s ++ (b'"' ∷ rest)) ≡ some (pieces_of s, rest)
unfolding wire_bytes
scan_wire_bytes [] rest = unfold scan_string in refl
scan_wire_bytes (c ∷ cs) rest =
    ap (scan_string plain) (append_assoc (wire_byte c) (wire_bytes cs) (b'"' ∷ rest))
    ∙ Scans-wire_byte (wire_bytes cs ++ (b'"' ∷ rest)) c
    ∙ ap (add_piece (piece_of c)) (scan_wire_bytes cs rest)

unit_bytes-low : (u : ℕ) → u < 32 → unit_bytes u ≡ u ∷ []
unfolding unit_bytes rune_bytes
unit_bytes-low u h = ground (arith, h)

unquoted-unit : (u : ℕ) (ps : List Piece) → u < 32 → unquoted (unit u ∷ ps) ≡ u ∷ unquoted ps
unfolding unquoted
unquoted-unit u [] h = unit_bytes-low u h
unquoted-unit u (byte c ∷ ps) h = ap (λ bs. bs ++ c ∷ unquoted ps) (unit_bytes-low u h)
unquoted-unit u (unit v ∷ ps) h =
    let single : (is_high u && is_low v) ≡ false = ground (arith, h) in
    rw single (ap (λ bs. bs ++ unquoted (unit v ∷ ps)) (unit_bytes-low u h))

-- A piece that stands for this byte.
abbrev Stands : List Piece → ℕ → Piece → Type 0
Stands ps c p = unquoted (p ∷ ps) ≡ c ∷ unquoted ps

Stands-if :
    (ps : List Piece) (c : ℕ) (test : Bool) (p q : Piece)
    → (test ≡ true → Stands ps c p)
    → (test ≡ false → Stands ps c q)
    → Stands ps c (if test then p else q)
Stands-if ps c true p q h k = h refl
Stands-if ps c false p q h k = k refl

Stands-byte : (ps : List Piece) (c d : ℕ) → (c == d) ≡ true → Stands ps c (byte d)
unfolding unquoted
Stands-byte ps c d h = ap (λ b. b ∷ unquoted ps) (sym ((==_iff c d).0 h))

Stands-piece_of : (ps : List Piece) (c : ℕ) → Stands ps c (piece_of c)
unfolding piece_of unquoted
Stands-piece_of ps c =
    Stands-if ps c (c == b'"' || c == b'\\') _ _ (λ _. refl)
      (λ _. Stands-if ps c (c == 8) _ _ (Stands-byte ps c 8) (λ _.
        Stands-if ps c (c == 12) _ _ (Stands-byte ps c 12) (λ _.
          Stands-if ps c (c == 10) _ _ (Stands-byte ps c 10) (λ _.
            Stands-if ps c (c == 13) _ _ (Stands-byte ps c 13) (λ _.
              Stands-if ps c (c == 9) _ _ (Stands-byte ps c 9) (λ _.
                Stands-if ps c (ltb c 32) _ _ (λ low. unquoted-unit c ps (ltb→lt c 32 low))
                  (λ _. refl)))))))

pub unquoted-pieces_of : (s : Bytes) → unquoted (pieces_of s) ≡ s
unquoted-pieces_of [] = unfold unquoted in refl
unquoted-pieces_of (c ∷ cs) =
    Stands-piece_of (pieces_of cs) c ∙ ap (λ bs. c ∷ bs) (unquoted-pieces_of cs)
