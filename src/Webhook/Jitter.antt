-- ===== src/Webhook/Jitter.antt =====
-- server/webhook/worker.go: the default jitter, which spreads a delay by the delivery's hash.
use Prim.Native.Nat.{bit_xor}
use new_im.Common.{
  ℕ, ◌+◌, ◌-◌, ◌*◌, ◌/◌, ◌%◌, ◌^◌, ◌≤◌, ◌<◌, ◌≡◌, refl, inl, inr, not, [], ◌∷◌, ◌==◌, if◌then◌else◌,
  Bool-cases, arith,
}
use new_im.Common.Int.{ℤ, pos, pos_part, ltb_ℤ}
use native.Mathlib.Nat.{mod-lt}
use new_im.Bytes.{Bytes}

-- `fnv.New64a`: FNV-1a on 64 bits, over the bytes that are written.
unfoldable pub fnv_from : ℕ → Bytes → ℕ
fnv_from hash [] = hash
fnv_from hash (b ∷ bs) = fnv_from (bit_xor hash b * 1099511628211 % 2 ^ 64) bs

unfoldable pub fnv_64a : Bytes → ℕ
fnv_64a = fnv_from 14695981039346656037

-- A base is at most the greatest delay, an hour, so no sum of the source leaves int64.
unfoldable pub default_jitter : Bytes → ℤ → ℤ
default_jitter delivery_id base =
    let span = pos_part base / 4 in
    if not (ltb_ℤ (pos 0) base)
    then pos 0
    else if span == 0
    then base
    else pos (pos_part base - span / 2 + fnv_64a delivery_id % span)

spread :
    (b span r : ℕ)
    → span ≡ b / 4
    → r < span
    → (b - b / 8 ≤ b - span / 2 + r) × (b - span / 2 + r ≤ b + b / 8)
spread b span r h k = ground arith

-- For a base greater than 0: the default jitter gives a delay that is within an eighth of the
-- base, whatever the delivery is.
pub default_jitter-near :
    (delivery_id : Bytes) (b : ℕ)
    → 0 < b
    → (d : ℕ) × (default_jitter delivery_id (pos b) ≡ pos d) × (b - b / 8 ≤ d) × (d ≤ b + b / 8)
unfolding default_jitter
default_jitter-near delivery_id b b_pos = elim (Bool-cases (b / 4 == 0)) [
  | inl none_left ↦ (b, ground arith, ground arith, ground arith)
  | inr some_left ↦
      let span_pos : 0 < b / 4 = ground arith in
      let near = spread b (b / 4) _ refl (mod-lt (fnv_64a delivery_id) span_pos) in
      (b - b / 4 / 2 + fnv_64a delivery_id % (b / 4), ground arith, near.0, near.1)
]
