-- ===== src/ConversationSync/Cursor/Valid.antt =====
-- What the two validations of a cursor check, as facts.
use new_im.Common.{
  ℕ, ◌-◌, ◌≤◌, ◌<◌, ◌≡◌, refl, ◌⊎◌, inl, inr, true, false, not, ◌&&◌, [], ◌∷◌, ok, arith,
}
use new_im.Bytes.{Bytes, eq_bytes_refl, nonempty}
use new_im.ConversationSync.Types.{max_sequence, max_page_items}
use new_im.ConversationSync.Cursor.{
  SyncCursor, valid_identifier, valid_key_id, cursor_kind_bootstrap_page, cursor_kind_delta_page,
  cursor_kind_checkpoint, check_bounds, check_lifetime, max_lifetime, position_for_encoding,
  decoded_position, keys_out_of_order, validate_cursor_for_encoding, validate_decoded_cursor,
}

-- The bounds on the numbers of a cursor.
pub record IsBounded (c : SyncCursor) : Type 0 where
  pub epoch_pos : 0 < c.epoch
  pub epoch_le : c.epoch ≤ max_sequence
  pub expires_le : c.expires ≤ max_sequence
  pub issued_lt : c.issued < c.expires
  pub limit_pos : 0 < c.limit
  pub limit_le : c.limit ≤ max_page_items
  pub fence_le : c.fence ≤ max_sequence

pub check_bounds_sound : (c : SyncCursor) → check_bounds c ≡ ok tt → IsBounded c
unfolding check_bounds
check_bounds_sound c h = ground arith

pub check_bounds_complete : (c : SyncCursor) → IsBounded c → check_bounds c ≡ ok tt
unfolding check_bounds
check_bounds_complete c h = ground arith

-- Where a page of each kind may stand.
pub data HasPosition (c : SyncCursor) : Type 0 where
  bootstrap :
      c.kind ≡ cursor_kind_bootstrap_page
      → c.after_seq ≡ 0
      → (nonempty c.after_key && not (valid_identifier c.after_key)) ≡ false
      → (nonempty c.terminal_key && not (valid_identifier c.terminal_key)) ≡ false
      → keys_out_of_order c ≡ false
      → HasPosition c
  delta :
      c.kind ≡ cursor_kind_delta_page
      → c.after_key ≡ []
      → c.terminal_key ≡ []
      → c.after_seq ≤ c.fence
      → HasPosition c
  checkpoint :
      c.kind ≡ cursor_kind_checkpoint
      → c.after_seq ≡ 0
      → c.after_key ≡ []
      → c.terminal_key ≡ []
      → HasPosition c

nonempty-false : (bs : Bytes) → nonempty bs ≡ false → bs ≡ []
nonempty-false [] h = refl
nonempty-false (b ∷ bs) h = cc

position_sound :
    (c : SyncCursor)
    → (c.kind ≡ 1) ⊎ ((c.kind ≡ 2) ⊎ (c.kind ≡ 3))
    → position_for_encoding c ≡ ok tt
    → HasPosition c
unfolding position_for_encoding
position_sound c (inl k) h = bootstrap k (ground arith) (ground arith) (ground arith) (ground arith)
position_sound c (inr (inl k)) h =
    delta k (ground (arith, nonempty-false c.after_key))
      (ground (arith, nonempty-false c.terminal_key)) (ground arith)
position_sound c (inr (inr k)) h =
    checkpoint k (ground arith) (ground (arith, nonempty-false c.after_key))
      (ground (arith, nonempty-false c.terminal_key))

position_complete : (c : SyncCursor) → HasPosition c → IsBounded c → position_for_encoding c ≡ ok tt
unfolding position_for_encoding
position_complete c (bootstrap k s a t o) b = ground arith
position_complete c (delta k a t s) b = ground arith
position_complete c (checkpoint k s a t) b = ground arith

-- Everything that the encoder requires of a cursor.
pub record IsEncodable (c : SyncCursor) : Type 0 where
  pub key_id_valid : valid_key_id c.key_id ≡ true
  pub account_valid : valid_identifier c.account ≡ true
  pub bounded : IsBounded c
  pub position : HasPosition c
  pub lifetime : c.expires - c.issued ≤ max_lifetime c.kind

pub HasPosition-kind :
    (c : SyncCursor) → HasPosition c → (c.kind ≡ 1) ⊎ ((c.kind ≡ 2) ⊎ (c.kind ≡ 3))
HasPosition-kind c (bootstrap k s a t o) = inl k
HasPosition-kind c (delta k a t s) = inr (inl k)
HasPosition-kind c (checkpoint k s a t) = inr (inr k)

pub check_lifetime_sound :
    (c : SyncCursor) → check_lifetime c ≡ ok tt → c.expires - c.issued ≤ max_lifetime c.kind
unfolding check_lifetime
check_lifetime_sound c h = ground arith

check_lifetime_complete :
    (c : SyncCursor) → c.expires - c.issued ≤ max_lifetime c.kind → check_lifetime c ≡ ok tt
unfolding check_lifetime
check_lifetime_complete c h = ground arith

validate_parts :
    (c : SyncCursor)
    → validate_cursor_for_encoding c ≡ ok tt
    → ((c.kind ≡ 1) ⊎ ((c.kind ≡ 2) ⊎ (c.kind ≡ 3)))
      × (valid_key_id c.key_id ≡ true)
      × (valid_identifier c.account ≡ true)
      × (check_bounds c ≡ ok tt)
      × (position_for_encoding c ≡ ok tt)
      × (check_lifetime c ≡ ok tt)
unfolding validate_cursor_for_encoding
validate_parts c h = ground arith

pub validate_cursor_for_encoding_sound :
    (c : SyncCursor) → validate_cursor_for_encoding c ≡ ok tt → IsEncodable c
validate_cursor_for_encoding_sound c h =
    let (kind, key, account, bounds, place, time) = validate_parts c h in
    record {
      key_id_valid = key;
      account_valid = account;
      bounded = check_bounds_sound c bounds;
      position = position_sound c kind place;
      lifetime = check_lifetime_sound c time;
    }

pub validate_cursor_for_encoding_complete :
    (c : SyncCursor) → IsEncodable c → validate_cursor_for_encoding c ≡ ok tt
unfolding validate_cursor_for_encoding
validate_cursor_for_encoding_complete c e = ground (
  arith,
  HasPosition-kind c e.position,
  check_bounds_complete c e.bounded,
  position_complete c e.position e.bounded,
  check_lifetime_complete c e.lifetime,
)

decoded_position_complete :
    (c : SyncCursor) → HasPosition c → IsBounded c → decoded_position c ≡ ok tt
unfolding decoded_position
decoded_position_complete c (bootstrap k s a t o) b = ground arith
decoded_position_complete c (delta k a t s) b = ground arith
decoded_position_complete c (checkpoint k s a t) b = ground arith

-- In its lifetime an encodable cursor passes the decoder's validation for its account.
pub validate_decoded_cursor_complete :
    (c : SyncCursor) (now : ℕ)
    → IsEncodable c
    → c.issued ≤ now
    → now < c.expires
    → validate_decoded_cursor c c.account now ≡ ok tt
unfolding validate_decoded_cursor
validate_decoded_cursor_complete c now e from until = ground (
  arith,
  eq_bytes_refl c.account,
  check_bounds_complete c e.bounded,
  decoded_position_complete c e.position e.bounded,
  check_lifetime_complete c e.lifetime,
  e.bounded.expires_le,
)
