-- ===== src/Tests/Messages.antt =====
-- A conversation of three messages, read two at a time.
use new_im.Common.{
  All, arith, sym, ap, ◌∙◌, inl, inr, suc, ◌≤◌, ◌<◌, Bool, Bool-cases, not, ◌||◌, ◌&&◌, ◌==◌,
  if◌then◌else◌, err, ℕ, ◌≡◌, refl, subst, true, false, List, [], ◌∷◌, some, ok, Result, take, drop,
}
use new_im.Common.Int.{ltb_ℤ, eqb_ℤ, ℤ, pos, pos_part}
use new_im.Bytes.{every, is_identifier_char, is_hex_char, eq_bytes}
use new_im.Bytes.Text.{text}
use new_im.AuthSession.Identity.{ConnectionIdentity}
use new_im.MessageSync.Types.{
  Failure, coded, invalid_cursor, limit_exceeded, Code, Item, Page, ReadRequest, ReadResult, Store,
}
use new_im.MessageSync.Service.{
  identifier, is_type_char, valid_message_type, valid_identity, item_cost, next_int64, bad_row,
  bad_ids, breaks_run, validate_each, expected_first, validate_empty, validate_rows, fill, last_seq,
  check_position, assemble, answer, read_after_seq,
}
use new_im.MessageSync.Pages.{IsMessagePage, read_after_seq-IsMessagePage}
use new_im.MessageSync.Reading.{Reading, finished, go_on, after_page, IsLogStore, Reading-complete}
use new_im.MessageSync.Fits.{assemble-answers}
use new_im.MessageSync.Accepted.{IsGood}
use new_im.MessageSync.Served.{IsValidLog, ServesLog, Reading-log}

abbrev message : ℕ → Item
message n = record {
  server_msg_id = text "s1";
  client_msg_id = text "c1";
  sender_id = text "u1";
  conversation_id = text "room";
  conversation_seq = pos n;
  protocol_version = 1;
  schema_version = 1;
  message_type = text "text";
  server_time = pos 1700000000;
  payload = text "{}";
}

abbrev log : List Item
log = message 1 ∷ message 2 ∷ message 3 ∷ []

-- A position is refused past the end, and where the request says that it has none.
abbrev bad_position : Bool → ℤ → Bool
bad_position has_after after =
    ltb_ℤ (pos 3) after || ltb_ℤ after (pos 0) || (not has_after && not (eqb_ℤ after (pos 0)))

abbrev bad_limit : ℤ → Bool
bad_limit limit = ltb_ℤ limit (pos 0) || ltb_ℤ (pos 100) limit

abbrev page_limit : ℤ → ℤ
page_limit limit = if eqb_ℤ limit (pos 0) then pos 2 else limit

abbrev rows_behind : ℤ → ℤ → ReadResult
rows_behind limit after = record {
  latest_seq = pos 3;
  limit = limit;
  rows = take (suc (pos_part limit)) (drop (pos_part after) log);
}

abbrev or_refused : Bool → Bool → ReadResult → Result Failure ReadResult
or_refused true _ made = err (coded invalid_cursor)
or_refused false true made = err (coded limit_exceeded)
or_refused false false made = ok made

-- A store that refuses as the repository's own does; where no limit is asked for, it takes 2.
abbrev log_store : Store
log_store user request =
    or_refused (bad_position request.has_after_seq request.after_seq) (bad_limit request.limit)
      (rows_behind (page_limit request.limit) request.after_seq)

abbrev caller : ConnectionIdentity
caller = record {
  user_id = text "u1";
  device_id = text "d1";
  session_id = text "s1";
  connection_id = text "k1";
  token_id = text "0123456789abcdef0123456789abcdef";
}

abbrev request : ReadRequest
request = record {
  conversation_id = text "room";
  has_after_seq = false;
  after_seq = pos 0;
  limit = pos 0;
}

abbrev first_page : Page
first_page = record {
  items = message 1 ∷ message 2 ∷ [];
  latest_seq = pos 3;
  has_next = true;
  next_after_seq = some (pos 2);
}

abbrev last_page : Page
last_page = record {
  items = message 3 ∷ [];
  latest_seq = pos 3;
  has_next = false;
  next_after_seq = some (pos 3);
}

-- Everything that the runs below compute.
abbrev run : ConnectionIdentity → ReadRequest → Result Code Page
unfolding read_after_seq answer assemble check_position validate_rows validate_each validate_empty
    expected_first breaks_run bad_row bad_ids next_int64 item_cost fill last_seq identifier
    valid_identity valid_message_type is_type_char every is_identifier_char is_hex_char eq_bytes
run = read_after_seq log_store

first_run : read_after_seq log_store caller request ≡ ok first_page
unfolding run
first_run = refl

last_run : read_after_seq log_store caller (after_page request (pos 2)) ≡ ok last_page
unfolding run
last_run = refl

or_refused-eq-ok :
    (bad many : Bool) (made result : ReadResult)
    → or_refused bad many made ≡ ok result
    → made ≡ result
or_refused-eq-ok true many made result h = cc
or_refused-eq-ok false true made result h = cc
or_refused-eq-ok false false made result h = cc h

log_store-IsLogStore : IsLogStore log_store caller.user_id (text "room") log
log_store-IsLogStore = record {
  answers = λ request after result same at h.
      let made =
        or_refused-eq-ok (bad_position request.has_after_seq request.after_seq)
          (bad_limit request.limit) (rows_behind (page_limit request.limit) request.after_seq)
          result h in
      sym (ap (λ r. r.rows) made)
      ∙ ap (λ r. take (suc (pos_part r.limit)) (drop (pos_part request.after_seq) log)) made
      ∙ ap (λ z. take (suc (pos_part result.limit)) (drop (pos_part z) log)) at;
}

read_after_seq-IsMessagePage_example :
    (result : ReadResult) × (log_store caller.user_id request ≡ ok result)
    × (request.after_seq ≡ pos (pos_part request.after_seq))
    × (reached : ℕ) × IsMessagePage request.conversation_id result
        (pos_part request.after_seq)
        reached
        first_page
read_after_seq-IsMessagePage_example =
    read_after_seq-IsMessagePage log_store caller request first_page first_run

reading : Reading log_store caller request log
reading =
    go_on request first_page (pos 2) (message 3 ∷ []) first_run refl refl
      (finished (after_page request (pos 2)) last_page last_run refl)

Reading-complete_example : log ≡ drop (pos_part request.after_seq) log
Reading-complete_example =
    Reading-complete log_store caller (text "room") log log_store-IsLogStore request log refl
      reading

answered : ReadResult
answered = record { latest_seq = pos 3; limit = pos 2; rows = log }

checked : check_position request answered ≡ ok tt
unfolding run answered
checked = refl

validated : validate_rows request answered ≡ ok tt
unfolding run answered
validated = refl

assemble-answers_example : (page : Page) × (assemble request answered ≡ ok page)
assemble-answers_example = assemble-answers request answered checked validated

IsGood-log :
    (request : ReadRequest) → request.conversation_id ≡ text "room" → All (IsGood request) log
unfolding run
IsGood-log asked same =
    let here : eq_bytes (text "room") asked.conversation_id ≡ true =
      subst (λ id. eq_bytes (text "room") id ≡ true) (sym same) refl in
    (
      (ground (arith, here), refl),
      ((ground (arith, here), refl), ((ground (arith, here), refl), tt)),
    )

log-IsValidLog : IsValidLog (text "room") log
log-IsValidLog = record {
  run = (refl, (refl, (refl, refl)));
  good = IsGood-log;
  small = omega arith;
}

good_position :
    (has_after : Bool) (after : ℕ)
    → (has_after ≡ false → after ≡ 0)
    → after ≤ 3
    → bad_position has_after (pos after) ≡ false
good_position true after absent inside = ground arith
good_position false after absent inside = let none_given = absent refl in ground arith

limit_taken :
    (asked : ℕ)
    → asked ≤ 100
    → (bad_limit (pos asked) ≡ false)
      × (limit : ℕ) × (page_limit (pos asked) ≡ pos limit)
      × (0 < limit)
      × (limit ≤ 100)
limit_taken asked few = elim (Bool-cases (asked == 0)) [
  | inl own ↦ (ground arith, 2, ground arith, omega arith, omega arith)
  | inr given ↦ (ground arith, asked, ground arith, ground arith, few)
]

log_store-ServesLog : ServesLog log_store caller.user_id (text "room") log
log_store-ServesLog = record {
  keeps = log_store-IsLogStore;
  serves = λ request after s.
      let (fine, limit, taken, some_limit, few) = limit_taken s.asked s.few in
      let inside =
        ap (bad_position request.has_after_seq) s.position
        ∙ good_position request.has_after_seq after s.absent s.inside in
      let made = rows_behind (page_limit request.limit) request.after_seq in
      (
        made,
        ap (λ bad. or_refused bad (bad_limit request.limit) made) inside
            ∙ ap (λ many. or_refused false many made) (ap bad_limit s.limit ∙ fine),
        limit,
        ap page_limit s.limit ∙ taken,
        some_limit,
        few,
        refl,
      );
}

known_caller : valid_identity caller ≡ true
unfolding run
known_caller = refl

known_room : identifier (text "room") ≡ true
unfolding run
known_room = refl

Reading-log_example : Reading log_store caller request log
Reading-log_example =
    Reading-log log_store caller (text "room") log log_store-ServesLog log-IsValidLog known_caller
      known_room request 0 refl refl refl refl (omega arith)
