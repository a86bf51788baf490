-- ===== src/ConversationSync/Codec/Fields.antt =====
-- Each method of the cursor reader reads back what the encoder wrote for its field.
use new_im.Common.{
  ℕ, ◌+◌, ◌≤◌, ◌<◌, ◌≡◌, refl, sym, ap, subst, ◌∙◌, true, false, [], ◌∷◌, ◌++◌, append_assoc,
  append-nil, ok, length, take, drop, take-append, drop-append, drop-drop, length-append,
  length-drop, arith, not, ◌&&◌,
}
use new_im.Bytes.{Bytes, nonempty}
use new_im.Bytes.BigEndian.{
  put_uint16, put_uint64, get_be-put_uint16, get_be-put_uint64, length-put_uint16,
  length-put_uint64,
}
use new_im.ConversationSync.Types.{max_sequence}
use new_im.ConversationSync.Cursor.{valid_identifier}
use new_im.ConversationSync.Codec.{put_text}
use new_im.ConversationSync.Cursor.Reader.{
  CursorReader, Read, ◌>>=◌, pure, uint16, sequence, identifier, identifier_or_empty, done, ◌>>◌,
}

abbrev pub reader_at : Bytes → ℕ → CursorReader
reader_at payload at = record { payload = payload; at = at }

-- At the bytes `bs` the method answers `a` and moves behind them, whatever comes after.
abbrev pub Reads : {A : Type 0} → Read A → Bytes → A → Type 0
Reads m bs a =
    (payload : Bytes) (at : ℕ) (rest : Bytes)
    → drop at payload ≡ bs ++ rest
    → m (reader_at payload at) ≡ ok (a, reader_at payload (at + length bs))

at_step :
    (payload bs rest : Bytes) (at : ℕ)
    → drop at payload ≡ bs ++ rest
    → drop (at + length bs) payload ≡ rest
at_step payload bs rest at e =
    sym (drop-drop at (length bs) payload) ∙ ap (drop (length bs)) e ∙ drop-append bs rest

pub Reads-pure : {A : Type 0} (a : A) → Reads (pure a) [] a
Reads-pure a payload at rest e = rw (plus_zero at)
  where
    plus_zero : (n : ℕ) → n + 0 ≡ n
    plus_zero n = omega arith

pub Reads-bind :
    {A B : Type 0} (m : Read A) (f : A → Read B) (bs cs : Bytes) (a : A) (b : B)
    → Reads m bs a
    → Reads (f a) cs b
    → Reads (m >>= f) (bs ++ cs) b
unfolding ◌>>=◌
Reads-bind m f bs cs a b hm hf payload at rest e =
    rw (hm payload at (cs ++ rest) (e ∙ append_assoc bs cs rest), ◌>>=◌)
      (hf payload (at + length bs) rest
          (at_step payload bs (cs ++ rest) at (e ∙ append_assoc bs cs rest))
        ∙ ap (λ n. ok (b, reader_at payload n)) (omega (arith, length-append bs cs)))

pub Reads-map :
    {A B : Type 0} (m : Read A) (g : A → B) (bs : Bytes) (a : A)
    → Reads m bs a
    → Reads (m >>= λ x. pure (g x)) bs (g a)
unfolding ◌>>=◌
Reads-map m g bs a hm payload at rest e = rw (hm payload at rest e, ◌>>=◌)

-- The bytes that a slice takes, and that there are enough of them.
slice_fits :
    (payload bs rest : Bytes) (at : ℕ)
    → drop at payload ≡ bs ++ rest
    → 0 < length bs
    → at + length bs ≤ length payload
slice_fits payload bs rest at e h =
    omega (arith, ap length e, length-drop at payload, length-append bs rest)

slice_takes :
    (payload bs rest : Bytes) (at n : ℕ)
    → drop at payload ≡ bs ++ rest
    → length bs ≡ n
    → take n (drop at payload) ≡ bs
slice_takes payload bs rest at n e h = rw (← h, e) (take-append bs rest)

pub Reads-uint16 : (v : ℕ) → v < 65536 → Reads uint16 (put_uint16 v) v
unfolding uint16
Reads-uint16 v h payload at rest e = ground (
  arith,
  length-put_uint16 v,
  slice_fits payload (put_uint16 v) rest at e,
  slice_takes payload (put_uint16 v) rest at 2 e,
  get_be-put_uint16 v,
)

pub Reads-sequence : (v : ℕ) → v ≤ max_sequence → Reads sequence (put_uint64 v) v
unfolding sequence
Reads-sequence v h payload at rest e = ground (
  arith,
  length-put_uint64 v,
  slice_fits payload (put_uint64 v) rest at e,
  slice_takes payload (put_uint64 v) rest at 8 e,
  get_be-put_uint64 v,
)

module _ (value : Bytes) (short_enough : length value ≤ 128) where
  counted :
      {A : Type 0} (f : ℕ → Read A) (a : A)
      → Reads (f (length value)) value a
      → Reads (uint16 >>= f) (put_uint16 (length value) ++ value) a
  counted f a h =
      Reads-bind uint16 f (put_uint16 (length value)) value (length value) a
        (Reads-uint16 (length value) (omega arith)) h

  pub Reads-identifier :
      valid_identifier value ≡ true → 0 < length value → Reads identifier (put_text value) value
  unfolding identifier put_text
  Reads-identifier v some_byte = counted _ value λ payload at rest e. ground (
    arith,
    slice_fits payload value rest at e,
    slice_takes payload value rest at (length value) e refl,
  )

  Reads-identifier_or_empty_some :
      valid_identifier value ≡ true
      → 0 < length value
      → Reads identifier_or_empty (put_text value) value
  unfolding identifier_or_empty put_text
  Reads-identifier_or_empty_some v some_byte = counted _ value λ payload at rest e. ground (
    arith,
    slice_fits payload value rest at e,
    slice_takes payload value rest at (length value) e refl,
  )

Reads-identifier_or_empty_none : Reads identifier_or_empty (put_text []) []
unfolding identifier_or_empty put_text
Reads-identifier_or_empty_none payload at rest e = ground (
  arith,
  append-nil (put_uint16 0),
  Reads-uint16 0 (omega arith) payload at rest
      (subst (λ bs. drop at payload ≡ bs ++ rest) (append-nil (put_uint16 0)) e),
  length-put_uint16 0,
  slice_fits payload (put_uint16 0) rest at
      (subst (λ bs. drop at payload ≡ bs ++ rest) (append-nil (put_uint16 0)) e),
)

-- Empty, or an identifier.
abbrev pub IsIdentifierOrEmpty : Bytes → Type 0
IsIdentifierOrEmpty value = (nonempty value && not (valid_identifier value)) ≡ false

pub valid_identifier-length :
    (value : Bytes) → valid_identifier value ≡ true → (0 < length value) × (length value ≤ 128)
unfolding valid_identifier
valid_identifier-length value h = ground arith

pub Reads-identifier_or_empty :
    (value : Bytes) → IsIdentifierOrEmpty value → Reads identifier_or_empty (put_text value) value
Reads-identifier_or_empty [] h = Reads-identifier_or_empty_none
Reads-identifier_or_empty (b ∷ bs) h =
    let v : valid_identifier (b ∷ bs) ≡ true = ground arith in
    let (lo, hi) = valid_identifier-length (b ∷ bs) v in
    Reads-identifier_or_empty_some (b ∷ bs) hi v lo

-- At the last bytes `bs` of its payload the method answers `a` and ends at the end.
abbrev pub ReadsEnd : {A : Type 0} → Read A → Bytes → A → Type 0
ReadsEnd m bs a =
    (payload : Bytes) (at : ℕ)
    → drop at payload ≡ bs
    → at + length bs ≡ length payload
    → m (reader_at payload at) ≡ ok (a, reader_at payload (length payload))

pub ReadsEnd-bind :
    {A B : Type 0} (m : Read A) (f : A → Read B) (bs cs : Bytes) (a : A) (b : B)
    → Reads m bs a
    → ReadsEnd (f a) cs b
    → ReadsEnd (m >>= f) (bs ++ cs) b
unfolding ◌>>=◌
ReadsEnd-bind m f bs cs a b hm hf payload at e fits =
    rw (hm payload at cs e, ◌>>=◌)
      (hf payload (at + length bs) (at_step payload bs cs at e)
        (omega (arith, length-append bs cs)))

pub ReadsEnd-last :
    {A B : Type 0} (m : Read A) (f : A → Read B) (bs : Bytes) (a : A) (b : B)
    → Reads m bs a
    → ReadsEnd (f a) [] b
    → ReadsEnd (m >>= f) bs b
ReadsEnd-last m f bs a b hm hf =
    subst (λ cs. ReadsEnd (m >>= f) cs b) (append-nil bs) (ReadsEnd-bind m f bs [] a b hm hf)

pub ReadsEnd-done : {A : Type 0} (a : A) → ReadsEnd (done >> pure a) [] a
unfolding done ◌>>=◌
ReadsEnd-done a payload at e fits = ground arith
