-- ===== src/ConversationSync/Assemble.antt =====
-- server/sync/conversation/service.go: which candidates become items of a page.
use new_im.Common.{
  ℕ, Bool, true, false, not, ◌||◌, List, [], ◌∷◌, ◌++◌, Option, none, some, Result, ok, err, ◌>>=◌,
  ltb, leb, if◌then◌else◌, length,
}
use new_im.Bytes.{Bytes}
use new_im.ConversationSync.Types.{
  Code, not_ready, cursor_expired, storage_unavailable, Item, upsert, remove, other, Candidate,
  ReadResult,
}
use new_im.ConversationSync.Cursor.{SyncCursor, CursorPosition, ItemEnvelope}

-- The `switch candidate.Latest.Kind` of an account that is no longer a member: `bound` is the fence
-- of a directory, the state's own revision in a delta.
unfoldable pub refuse_latest {ℓ} : {A : Type ℓ} → ℕ → Option Item → Result Code A
refuse_latest bound none = err not_ready
refuse_latest bound (some latest) = elim latest.kind [
  | remove ↦ if ltb bound latest.revision then err cursor_expired else err storage_unavailable
  | upsert ↦ err not_ready
  | other _ ↦ err storage_unavailable
]

abbrev pub is_some {ℓ} : {A : Type ℓ} → Option A → Bool
is_some none = false
is_some (some _) = true

-- `none` where the candidate is passed over.
unfoldable pub select_bootstrap_candidate : Candidate → ℕ → Result Code (Option Item)
select_bootstrap_candidate c fence = elim c.state [
  | none ↦ ok none
  | some item ↦ elim item.kind [
    | remove ↦ if is_some c.latest then err storage_unavailable else ok none
    | upsert ↦
        if c.member
        then (if is_some c.latest then err storage_unavailable else ok (some item))
        else refuse_latest fence c.latest
    | other _ ↦ err storage_unavailable
  ]
]

unfoldable pub select_delta_candidate : Candidate → Result Code Item
select_delta_candidate c = elim c.state [
  | none ↦ err storage_unavailable
  | some item ↦ elim item.kind [
    | remove ↦ if is_some c.latest then err storage_unavailable else ok item
    | upsert ↦
        if c.member
        then (if is_some c.latest then err storage_unavailable else ok item)
        else refuse_latest item.revision c.latest
    | other _ ↦ err storage_unavailable
  ]
]

-- What an assembly answers.
pub record Assembly : Type 0 where
  pub entries : List ItemEnvelope
  pub position : CursorPosition
  pub has_more : Bool

abbrev pub at_key : Bytes → CursorPosition
at_key key = record { key = key; seq = 0 }

abbrev pub at_seq : ℕ → CursorPosition
at_seq seq = record { key = []; seq = seq }

abbrev pub envelope : Item → CursorPosition → CursorPosition → ItemEnvelope
envelope item before after = record { item = item; before = before; after = after }

-- `index+1 < len(result.Candidates)`.
abbrev pub any_left {ℓ} : {A : Type ℓ} → List A → Bool
any_left [] = false
any_left (_ ∷ _) = true

-- An item is appended, and the position moves behind it.
abbrev pub append_item : Assembly → Item → CursorPosition → Assembly
append_item a item after = record a {
  entries = a.entries ++ envelope item a.position after ∷ [];
  position = after;
}

-- The loop of `assembleBootstrap`.
unfoldable pub directory_loop : ℕ → ℕ → Bool → Assembly → List Candidate → Result Code Assembly
directory_loop limit fence exhausted a [] = ok a
directory_loop limit fence exhausted a (c ∷ cs) = select_bootstrap_candidate c fence >>= λ selected.
    elim selected [
      | none ↦ directory_loop limit fence exhausted (record a { position = at_key c.key }) cs
      | some item ↦
          let added = append_item a item (at_key c.key) in
          let rest = directory_loop limit fence exhausted added cs in
          if leb limit (length a.entries)
          then ok (record a { has_more = true })
          else if leb limit (length added.entries)
          then ok (record added { has_more = any_left cs || not exhausted })
          else rest
    ]

unfoldable pub assemble_bootstrap : ReadResult → SyncCursor → Result Code Assembly
assemble_bootstrap r base = do
  a ←
      directory_loop base.limit r.fence r.directory_exhausted
        (record {
          entries = [];
          position = at_key base.after_key;
          has_more = not r.directory_exhausted;
        })
        r.candidates
  ok (if not r.directory_exhausted then record a { has_more = true } else a)

-- The loop of `assembleDelta`.
unfoldable pub delta_loop : ℕ → Assembly → List Candidate → Result Code Assembly
delta_loop limit a [] = ok a
delta_loop limit a (c ∷ cs) = select_delta_candidate c >>= λ item.
    let added = append_item a item (at_seq item.revision) in
    let rest = delta_loop limit added cs in
    if leb limit (length a.entries)
    then ok (record a { has_more = true })
    else if leb limit (length added.entries)
    then ok (record added { has_more = any_left cs })
    else rest

unfoldable pub assemble_delta : ReadResult → SyncCursor → Result Code Assembly
assemble_delta r base =
    delta_loop base.limit
      (record {
        entries = [];
        position = at_seq base.after_seq;
        has_more = ltb base.limit (length r.candidates);
      })
      r.candidates
