-- ===== src/Bytes/BigEndian.antt =====
-- encoding/binary's BigEndian numbers of a fixed width, and their round trip.
use new_im.Common.{
  ℕ, zero, suc, ◌+◌, ◌*◌, ◌/◌, ◌%◌, ◌^◌, ◌<◌, ◌≡◌, refl, ◌∙◌, List, [], ◌∷◌, ◌++◌, All, All-append,
  length, length-append, arith,
}

-- The low `k` bytes of `v`, the most significant first.
unfoldable pub put_be : ℕ → ℕ → List ℕ
put_be zero v = []
put_be (suc k) v = put_be k (v / 256) ++ v % 256 ∷ []

be_from : ℕ → List ℕ → ℕ
be_from acc [] = acc
be_from acc (b ∷ bs) = be_from (acc * 256 + b) bs

unfoldable pub get_be : List ℕ → ℕ
unfolding be_from
get_be = be_from 0

be_from-append :
    (acc : ℕ) (xs : List ℕ) (b : ℕ) → be_from acc (xs ++ b ∷ []) ≡ be_from acc xs * 256 + b
unfolding be_from
be_from-append acc [] b = refl
be_from-append acc (x ∷ xs) b = be_from-append (acc * 256 + x) xs b

abbrev pub power_256 : ℕ → ℕ
power_256 zero = 1
power_256 (suc k) = 256 * power_256 k

-- Reading back what was written gives the number modulo the width.
get_be-put_be : (k v : ℕ) → v < power_256 k → get_be (put_be k v) ≡ v
unfolding get_be put_be
get_be-put_be zero v h = omega arith
get_be-put_be (suc k) v h =
    be_from-append 0 (put_be k (v / 256)) (v % 256)
    ∙ omega (arith, get_be-put_be k (v / 256) (omega arith))

pub length-put_be : (k v : ℕ) → length (put_be k v) ≡ k
unfolding put_be
length-put_be zero v = refl
length-put_be (suc k) v =
    omega (arith, length-append (put_be k (v / 256)) (v % 256 ∷ []), length-put_be k (v / 256))

pub put_be-All : (k v : ℕ) → All (λ b. b < 256) (put_be k v)
unfolding put_be
put_be-All zero v = tt
put_be-All (suc k) v =
    All-append (λ b. b < 256) (put_be k (v / 256)) (v % 256 ∷ []) (put_be-All k (v / 256))
      (omega arith, tt)

-- `binary.BigEndian.PutUint16` on a `uint16(v)`, and `PutUint64`.
unfoldable pub put_uint16 : ℕ → List ℕ
unfolding put_be
put_uint16 v = put_be 2 (v % 65536)

unfoldable pub put_uint64 : ℕ → List ℕ
unfolding put_be
put_uint64 v = put_be 8 v

pub get_be-put_uint16 : (v : ℕ) → v < 65536 → get_be (put_uint16 v) ≡ v
unfolding put_uint16
get_be-put_uint16 v h = get_be-put_be 2 (v % 65536) (omega arith) ∙ omega arith

pub get_be-put_uint64 : (v : ℕ) → v < 2 ^ 64 → get_be (put_uint64 v) ≡ v
unfolding put_uint64
get_be-put_uint64 v h = get_be-put_be 8 v (omega arith)

pub length-put_uint16 : (v : ℕ) → length (put_uint16 v) ≡ 2
unfolding put_uint16
length-put_uint16 v = length-put_be 2 (v % 65536)

pub length-put_uint64 : (v : ℕ) → length (put_uint64 v) ≡ 8
unfolding put_uint64
length-put_uint64 v = length-put_be 8 v

pub put_uint16-All : (v : ℕ) → All (λ b. b < 256) (put_uint16 v)
unfolding put_uint16
put_uint16-All v = put_be-All 2 (v % 65536)

pub put_uint64-All : (v : ℕ) → All (λ b. b < 256) (put_uint64 v)
unfolding put_uint64
put_uint64-All v = put_be-All 8 v
