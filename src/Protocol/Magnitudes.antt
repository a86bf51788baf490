-- ===== src/Protocol/Magnitudes.antt =====
-- Sums and differences of decimal numbers (addMagnitude and subtractMagnitude of
-- core/protocol/go/intent.go).
use new_im.Common.{
  subst, ℕ, ◌+◌, ◌-◌, ◌*◌, ◌/◌, ◌%◌, ◌≤◌, ◌<◌, ◌≡◌, refl, ap, sym, ◌∙◌, ◌⊎◌, inl, inr, Bool, true,
  Bool-cases, ◌&&◌, [], ◌∷◌, ◌++◌, ◌==◌, ltb, arith,
}
use mathlib.Core.List.{reverse, reverse-cons, reverse-reverse}
use new_im.Bytes.{Bytes, every, is_digit}
use new_im.Protocol.Checks.{number_from}
use new_im.Protocol.Numbers.{
  trim_left, digit_of, is_zero, add_reversed, add_magnitude, take_digit, subtract_reversed,
  subtract_magnitude, zero_if_empty,
}

-- The number of digits that begin with the last one.
abbrev low_first : Bytes → ℕ
low_first [] = 0
low_first (c ∷ cs) = c - b'0' + 10 * low_first cs

number_from-append :
    (acc : ℕ) (xs : Bytes) (c : ℕ)
    → number_from acc (xs ++ c ∷ []) ≡ number_from acc xs * 10 + (c - b'0')
unfolding number_from
number_from-append acc [] c = refl
number_from-append acc (x ∷ xs) c = number_from-append (acc * 10 + (x - b'0')) xs c

number_from-reverse : (r : Bytes) → number_from 0 (reverse r) ≡ low_first r
unfolding number_from
number_from-reverse [] = refl
number_from-reverse (c ∷ cs) =
    ap (number_from 0) (reverse-cons c cs)
    ∙ omega (arith, number_from-append 0 (reverse cs) c, number_from-reverse cs)

number_from-low_first : (s : Bytes) → low_first (reverse s) ≡ number_from 0 s
number_from-low_first s =
    sym (number_from-reverse (reverse s)) ∙ ap (number_from 0) (reverse-reverse s)

every-append :
    (test : ℕ → Bool) (xs : Bytes) (c : ℕ) → every test (xs ++ c ∷ []) ≡ (every test xs && test c)
unfolding every
every-append test [] c = ground arith
every-append test (x ∷ xs) c = ground (arith, every-append test xs c)

every-reverse : (test : ℕ → Bool) (s : Bytes) → every test s ≡ true → every test (reverse s) ≡ true
unfolding every
every-reverse test [] h = refl
every-reverse test (c ∷ cs) h =
    let (here, there) : (test c ≡ true) × (every test cs ≡ true) = ground arith in
    ap (every test) (reverse-cons c cs)
    ∙ (every-append test (reverse cs) c ∙ ground (arith, here, every-reverse test cs there))

digit_of-digit : (c : ℕ) → is_digit c ≡ true → (digit_of c ≡ c - b'0') × (digit_of c ≤ 9)
digit_of-digit c h = (ground arith, ground arith)

first_and_rest :
    (c : ℕ) (cs : Bytes)
    → every is_digit (c ∷ cs) ≡ true
    → (digit_of c ≡ c - b'0') × (digit_of c ≤ 9) × (every is_digit cs ≡ true)
unfolding every
first_and_rest c cs h =
    let (here, there) : (is_digit c ≡ true) × (every is_digit cs ≡ true) = ground arith in
    let (same, small) = digit_of-digit c here in (same, small, there)

-- The digits of a sum that is written from the last one on, with a carry of at most 1.
IsSum : Bytes → ℕ → Type 0
IsSum s n = (every is_digit s ≡ true) × (low_first s ≡ n)

written_digit :
    (v rest : ℕ) (s : Bytes) → IsSum s (v / 10 + rest) → IsSum ((b'0' + v % 10) ∷ s) (v + 10 * rest)
unfolding IsSum every
written_digit v rest s (digits, sum) =
    let small : v % 10 < 10 = omega arith in (ground (arith, small, digits), omega (arith, sum))

add_reversed-IsSum :
    (carry : ℕ) (xs ys : Bytes)
    → carry ≤ 1
    → every is_digit xs ≡ true
    → every is_digit ys ≡ true
    → IsSum (add_reversed carry xs ys) (carry + low_first xs + low_first ys)
unfolding add_reversed every
add_reversed-IsSum carry [] [] one ds es = unfold IsSum every in (ground arith, ground arith)
add_reversed-IsSum carry (a ∷ xs) [] one ds es =
    let (same, small, there) = first_and_rest a xs ds in
    let v = carry + digit_of a in
    subst (IsSum ((b'0' + v % 10) ∷ add_reversed (v / 10) xs [])) (omega (arith, same)) (
      written_digit v (low_first xs + 0) (add_reversed (v / 10) xs []) (
        subst (IsSum (add_reversed (v / 10) xs [])) (omega arith)
          (add_reversed-IsSum (v / 10) xs [] (omega (arith, small, one)) there refl)))
add_reversed-IsSum carry [] (b ∷ ys) one ds es =
    let (same, small, there) = first_and_rest b ys es in
    let v = carry + digit_of b in
    subst (IsSum ((b'0' + v % 10) ∷ add_reversed (v / 10) [] ys)) (omega (arith, same)) (
      written_digit v (0 + low_first ys) (add_reversed (v / 10) [] ys) (
        subst (IsSum (add_reversed (v / 10) [] ys)) (omega arith)
          (add_reversed-IsSum (v / 10) [] ys (omega (arith, small, one)) refl there)))
add_reversed-IsSum carry (a ∷ xs) (b ∷ ys) one ds es =
    let (same, small, there) = first_and_rest a xs ds in
    let (same', small', there') = first_and_rest b ys es in
    let v = carry + digit_of a + digit_of b in
    subst (IsSum ((b'0' + v % 10) ∷ add_reversed (v / 10) xs ys)) (omega (arith, same, same')) (
      written_digit v (low_first xs + low_first ys) (add_reversed (v / 10) xs ys) (
        subst (IsSum (add_reversed (v / 10) xs ys)) (omega arith)
          (add_reversed-IsSum (v / 10) xs ys (omega (arith, small, small', one)) there there')))

-- For two texts of decimal digits, of any lengths: addMagnitude gives decimal digits, and their
-- number is the sum of the numbers of the two.
pub add_magnitude-sum :
    (a b : Bytes)
    → every is_digit a ≡ true
    → every is_digit b ≡ true
    → (every is_digit (add_magnitude a b) ≡ true)
      × (number_from 0 (add_magnitude a b) ≡ number_from 0 a + number_from 0 b)
unfolding add_magnitude IsSum
add_magnitude-sum a b ds es =
    let digits = add_reversed 0 (reverse a) (reverse b) in
    let (written, sum) =
      add_reversed-IsSum 0 (reverse a) (reverse b) (omega arith) (every-reverse is_digit a ds)
        (every-reverse is_digit b es) in
    (
      every-reverse is_digit digits written,
      number_from-reverse digits
          ∙ omega (arith, sum, number_from-low_first a, number_from-low_first b),
    )

-- A digit that is left, and the borrow.
take_digit-difference :
    (d t : ℕ)
    → d ≤ 9
    → t ≤ 10
    → ((take_digit d t).0 - b'0' + t ≡ d + 10 * (take_digit d t).1)
      × ((take_digit d t).1 ≤ 1)
      × (((d < t) × ((take_digit d t).1 ≡ 1)) ⊎ ((t ≤ d) × ((take_digit d t).1 ≡ 0)))
unfolding take_digit
take_digit-difference d t small most = elim (Bool-cases (ltb d t)) [
  | inl less ↦
      let lt : d < t = ground arith in
      rw (less, take_digit) (omega arith, omega arith, inl (lt, refl))
  | inr enough ↦
      let le : t ≤ d = ground arith in
      rw (enough, take_digit) (omega arith, omega arith, inr (le, refl))
]

borrow_left :
    (d t x y next : ℕ)
    → ((d < t) × (next ≡ 1)) ⊎ ((t ≤ d) × (next ≡ 0))
    → d ≤ 9
    → t + 10 * y ≤ d + 10 * x
    → next + y ≤ x
borrow_left d t x y next (inl (less, borrowed)) most enough =
    omega (arith, less, borrowed, most, enough)
borrow_left d t x y next (inr (more, kept)) most enough = omega (arith, more, kept, most, enough)

subtract_reversed-difference :
    (borrow : ℕ) (xs ys : Bytes)
    → borrow ≤ 1
    → every is_digit xs ≡ true
    → every is_digit ys ≡ true
    → borrow + low_first ys ≤ low_first xs
    → low_first (subtract_reversed borrow xs ys) + (borrow + low_first ys) ≡ low_first xs
unfolding subtract_reversed every
subtract_reversed-difference borrow [] ys one ds es enough = omega (arith, enough)
subtract_reversed-difference borrow (a ∷ xs) [] one ds es enough =
    let (same, small, there) = first_and_rest a xs ds in
    let d = digit_of a in
    let (left, next, borrowed) = take_digit-difference d borrow small (omega (arith, one)) in
    let rest =
      subtract_reversed-difference (take_digit d borrow).1 xs [] next there refl
        (borrow_left d borrow (low_first xs) 0 _ borrowed small (omega (arith, enough, same))) in
    omega (arith, left, rest, same)
subtract_reversed-difference borrow (a ∷ xs) (b ∷ ys) one ds es enough =
    let (same, small, there) = first_and_rest a xs ds in
    let (same', small', there') = first_and_rest b ys es in
    let d = digit_of a in
    let t = borrow + digit_of b in
    let (left, next, borrowed) = take_digit-difference d t small (omega (arith, one, small')) in
    let rest = subtract_reversed-difference (take_digit d t).1 xs ys next there there' (
      borrow_left d t (low_first xs) (low_first ys) _ borrowed small
        (omega (arith, enough, same, same'))) in
    omega (arith, left, rest, same, same')

trim_left-number : (s : Bytes) → number_from 0 (trim_left is_zero s) ≡ number_from 0 s
unfolding trim_left number_from
trim_left-number [] = refl
trim_left-number (c ∷ cs) = elim (Bool-cases (c == b'0')) [
  | inl zero_first ↦
      let is : c ≡ b'0' = ground arith in rw (is, trim_left, number_from) (trim_left-number cs)
  | inr other ↦ rw (other, trim_left) refl
]

zero_if_empty-number : (s : Bytes) → number_from 0 (zero_if_empty s) ≡ number_from 0 s
unfolding number_from
zero_if_empty-number [] = refl
zero_if_empty-number (c ∷ cs) = refl

-- For decimal digits a and b, with leading zeros or without, where the number of b is at most that
-- of a: subtractMagnitude gives a text whose number is their difference.
pub subtract_magnitude-difference :
    (a b : Bytes)
    → every is_digit a ≡ true
    → every is_digit b ≡ true
    → number_from 0 b ≤ number_from 0 a
    → number_from 0 (subtract_magnitude a b) ≡ number_from 0 a - number_from 0 b
unfolding subtract_magnitude
subtract_magnitude-difference a b ds es enough =
    let digits = reverse (subtract_reversed 0 (reverse a) (reverse b)) in
    let left =
      subtract_reversed-difference 0 (reverse a) (reverse b) (omega arith)
        (every-reverse is_digit a ds) (every-reverse is_digit b es)
        (omega (arith, enough, number_from-low_first a, number_from-low_first b)) in
    zero_if_empty-number (trim_left is_zero digits)
    ∙ (trim_left-number digits
        ∙ (number_from-reverse (subtract_reversed 0 (reverse a) (reverse b))
            ∙ omega (arith, left, number_from-low_first a, number_from-low_first b)))
