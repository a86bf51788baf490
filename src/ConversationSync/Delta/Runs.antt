-- ===== src/ConversationSync/Delta/Runs.antt =====
-- Runs of revisions: each is the one before it plus one.
use new_im.Common.{
  ℕ, ◌+◌, ◌≤◌, ◌≡◌, refl, sym, ap, ◌∙◌, List, [], ◌∷◌, ◌++◌, some, ok, length, arith,
}
use new_im.ConversationSync.Types.{Item, Candidate}
use new_im.ConversationSync.Cursor.{ItemEnvelope}
use new_im.ConversationSync.Validate.{validate_revisions}
use new_im.ConversationSync.Assemble.{at_seq, select_delta_candidate, refuse_latest}

-- The items carry the revisions `from + 1`, `from + 2`, … and the last carries `to`.
abbrev pub Run : ℕ → List Item → ℕ → Type 0
Run from [] to = from ≡ to
Run from (i ∷ is) to = (i.revision ≡ from + 1) × Run i.revision is to

pub Run-append : (a b c : ℕ) (is js : List Item) → Run a is b → Run b js c → Run a (is ++ js) c
Run-append a b c [] js h k = ground (arith, k)
Run-append a b c (i ∷ is) js h k = (h.0, Run-append i.revision b c is js h.1 k)

pub Run-length : (a b : ℕ) (is : List Item) → Run a is b → b ≡ a + length is
Run-length a b [] h = omega arith
Run-length a b (i ∷ is) h = omega (arith, h.0, Run-length i.revision b is h.1)

-- The same of the entries of an assembly, each between its two positions.
abbrev pub EntryRun : ℕ → List ItemEnvelope → ℕ → Type 0
EntryRun from [] to = from ≡ to
EntryRun from (e ∷ es) to =
    (e.before ≡ at_seq from) × (e.item.revision ≡ from + 1) × EntryRun e.item.revision es to

pub EntryRun-snoc :
    (a b : ℕ) (es : List ItemEnvelope) (e : ItemEnvelope)
    → EntryRun a es b
    → e.before ≡ at_seq b
    → e.item.revision ≡ b + 1
    → EntryRun a (es ++ e ∷ []) e.item.revision
EntryRun-snoc a b [] e h p q = (p ∙ ap at_seq (sym h), omega arith, refl)
EntryRun-snoc a b (x ∷ es) e h p q = (h.0, h.1, EntryRun-snoc x.item.revision b es e h.2 p q)

pub EntryRun-length :
    (from to : ℕ) (es : List ItemEnvelope) → EntryRun from es to → to ≡ from + length es
EntryRun-length from to [] h = omega arith
EntryRun-length from to (e ∷ es) h = omega (arith, h.1, EntryRun-length e.item.revision to es h.2)

-- And of the candidates of a delta read.
abbrev pub StateRun : ℕ → List Candidate → ℕ → Type 0
StateRun from [] to = from ≡ to
StateRun from (c ∷ cs) to =
    (item : Item) × (c.state ≡ some item)
    × (item.revision ≡ from + 1)
    × StateRun item.revision cs to

validate_revisions-step :
    (fence from to : ℕ) (c : Candidate) (cs : List Candidate)
    → validate_revisions fence from (c ∷ cs) ≡ ok to
    → (item : Item) × (c.state ≡ some item)
      × (item.revision ≡ from + 1)
      × (item.revision ≤ fence)
      × (validate_revisions fence item.revision cs ≡ ok to)
unfolding validate_revisions
validate_revisions-step fence from to c cs h = ground arith

-- The validation of a delta read establishes the run, within the fence.
pub validate_revisions-StateRun :
    (fence from to : ℕ) (cs : List Candidate)
    → from ≤ fence
    → validate_revisions fence from cs ≡ ok to
    → StateRun from cs to × (to ≤ fence)
validate_revisions-StateRun fence from to [] h e =
    unfold validate_revisions in (ground arith, ground arith)
validate_revisions-StateRun fence from to (c ∷ cs) h e =
    let (item, state, next, within, rest) = validate_revisions-step fence from to c cs e in
    let (run, bound) = validate_revisions-StateRun fence item.revision to cs within rest in
    ((item, state, next, run), bound)

-- What is selected is the candidate's state.
pub select_delta_candidate-state :
    (c : Candidate) (item : Item) → select_delta_candidate c ≡ ok item → c.state ≡ some item
unfolding select_delta_candidate refuse_latest
select_delta_candidate-state c item h = ground arith

pub StateRun-length :
    (from to : ℕ) (cs : List Candidate) → StateRun from cs to → to ≡ from + length cs
StateRun-length from to [] h = omega arith
StateRun-length from to (c ∷ cs) h = omega (arith, h.2, StateRun-length h.0.revision to cs h.3)
