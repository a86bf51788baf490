-- ===== src/ConversationSync/Directory/Checked.antt =====
-- What the validation of a directory read makes sure of (server/sync/conversation/service.go).
use new_im.Common.{
  ℕ, ◌≡◌, refl, sym, ◌∙◌, subst, true, not, ◌&&◌, ◌||◌, List, [], ◌∷◌, ok, >>=-eq-ok, reject-eq-ok,
  ltb, length, arith, Bool-cases, inl, inr,
}
use new_im.Bytes.{Bytes, lt_bytes, nonempty, eq_bytes_sound}
use new_im.ConversationSync.Types.{
  Candidate, ReadResult, storage_unavailable, max_directory_candidates, invalid_cursor,
}
use new_im.ConversationSync.Cursor.{valid_identifier}
use new_im.ConversationSync.Validate.{
  validate_directory_state, validate_latest, validate_directory, no_candidates, validate_exhausted,
  validate_bootstrap_candidates,
}
use new_im.ConversationSync.Directory.Listed.{last_key, Rising}

validate_directory-step :
    (fence : ℕ) (terminal previous last : Bytes) (c : Candidate) (cs : List Candidate)
    → validate_directory fence terminal previous (c ∷ cs) ≡ ok last
    → (lt_bytes previous c.key ≡ true) × (validate_directory fence terminal c.key cs ≡ ok last)
unfolding validate_directory
validate_directory-step fence terminal previous last c cs h =
    let (rises, h1) =
      reject-eq-ok (not (valid_identifier c.key) || not (lt_bytes previous c.key))
        storage_unavailable _ h in
    let (_, h2) =
      reject-eq-ok (nonempty terminal && lt_bytes terminal c.key) storage_unavailable _ h1 in
    let (_, _, h3) = >>=-eq-ok (validate_directory_state fence c c.state) _ h2 in
    let (_, _, h4) = >>=-eq-ok (validate_latest c.key c.latest) _ h3 in (ground (arith, rises), h4)

validate_directory-Rising :
    (fence : ℕ) (terminal previous last : Bytes) (cs : List Candidate)
    → validate_directory fence terminal previous cs ≡ ok last
    → Rising previous cs × (last ≡ last_key previous cs)
validate_directory-Rising fence terminal previous last [] h =
    (tt, unfold validate_directory in cc h)
validate_directory-Rising fence terminal previous last (c ∷ cs) h =
    let (rises, rest) = validate_directory-step fence terminal previous last c cs h in
    let (rising, same) = validate_directory-Rising fence terminal c.key last cs rest in
    ((rises, rising), same)

no_candidates_sound : (cs : List Candidate) → no_candidates cs ≡ true → cs ≡ []
unfolding no_candidates
no_candidates_sound [] h = refl
no_candidates_sound (c ∷ cs) h = cc

-- What the validation of a directory read makes sure of.
pub record IsDirectory (after terminal : Bytes) (r : ReadResult) : Type 0 where
  pub rising : Rising after r.candidates
  pub ended :
      r.directory_exhausted ≡ true
      → nonempty terminal ≡ true
      → last_key after r.candidates ≡ terminal

validate_exhausted-ended :
    (r : ReadResult) (terminal previous : Bytes)
    → validate_exhausted r terminal previous ≡ ok tt
    → r.directory_exhausted ≡ true
    → previous ≡ terminal
unfolding validate_exhausted
validate_exhausted-ended r terminal previous h e =
    eq_bytes_sound previous terminal (ground (arith, h, e))

pub validate_bootstrap_candidates-IsDirectory :
    (r : ReadResult) (after terminal : Bytes)
    → validate_bootstrap_candidates r after terminal ≡ ok tt
    → IsDirectory after terminal r
unfolding validate_bootstrap_candidates
validate_bootstrap_candidates-IsDirectory r after terminal h =
    let (_, h1) =
      reject-eq-ok (ltb max_directory_candidates (length r.candidates)) storage_unavailable _ h in
    let (_, h2) =
      reject-eq-ok (nonempty after && not (valid_identifier after)) invalid_cursor _ h1 in
    let (_, h3) =
      reject-eq-ok (nonempty terminal && not (valid_identifier terminal)) invalid_cursor _ h2 in
    elim (Bool-cases (nonempty terminal)) [
      | inl some_key ↦
          let (previous, checked, exhausted) =
            >>=-eq-ok (validate_directory r.fence terminal after r.candidates)
              (λ p. validate_exhausted r terminal p) (ground (arith, some_key, h3)) in
          let (rising, same) =
            validate_directory-Rising r.fence terminal after previous r.candidates checked in
          record {
            rising = rising;
            ended = λ e _. sym same ∙ validate_exhausted-ended r terminal previous exhausted e;
          }
      | inr no_key ↦
          let empty = no_candidates_sound r.candidates (ground (arith, no_key, h3)) in
          record {
            rising = subst (Rising after) (sym empty) tt;
            ended = λ _ some_key. absurd (cc (no_key, some_key));
          }
    ]
