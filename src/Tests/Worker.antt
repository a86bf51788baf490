-- ===== src/Tests/Worker.antt =====
-- A worker with one destination: its attempts, its cycles and its pause.
use new_im.Common.{
  ◌⊎◌, none, ℕ, ◌+◌, ◌≤◌, ◌≡◌, ◌↔◌, refl, true, false, List, [], ◌∷◌, none, some, length, ok, arith,
}
use new_im.Common.Int.{pos}
use new_im.Bytes.{Bytes}
use new_im.Bytes.Text.{text}
use new_im.Webhook.Counted.{active_in}
use new_im.Webhook.Types.{QueueCounts, Delivery, WorkerConfig}
use new_im.Webhook.Deliver.{History, Ports, Envelopes, deliver}
use new_im.Webhook.Cycle.{next_paused, begin_cycle, Round, acquired, started}
use new_im.Webhook.Rounds.{going_to, held_for, Steps, no_step, one_more, Steps-bounded}
use new_im.Webhook.Paused.{
  FansOut, reading, readings, paused_after, PausedSince, paused_after_iff, fanouts-PausedSince,
}
use new_im.Webhook.Delivered.{Course, deliver-Course}
use new_im.Tests.Deliveries.{whole, fresh, busy, config, first_granted, fresh-Reached}

abbrev worker : WorkerConfig ℕ
worker = record {
  owner = text "w";
  batch_size = 10;
  max_concurrent = 4;
  max_per_destination = 1;
  retries = config;
  max_response_bytes = 1024;
  lease_ttl = 60000000000;
  request_timeout = 5000000000;
  high_water = 20;
  low_water = 10;
  max_destination_queue = 15;
  rate_per_second = 1;
  rate_burst = 5;
  idle_delay = 100000000;
}

abbrev to_d : Delivery
to_d = record {
  id = text "d1";
  event = record {
    id = text "e1";
    server_msg_id = text "s1";
    client_msg_id = text "c1";
    sender_id = text "ann";
    conversation_id = text "room";
    conversation_seq = pos 7;
    server_time = pos 1700000000000;
    protocol_version = pos 1;
    schema_version = pos 1;
    message_type = text "text";
    payload = text "{\"text\":\"hi\"}";
  };
  destination_id = text "d";
  endpoint_revision = pos 1;
  url = text "https://hook";
  key_id = text "k1";
  secret = record {
    destination_id = text "d";
    revision = pos 1;
    url = text "https://hook";
    key_id = text "k1";
    nonce = text "n";
    ciphertext = text "c";
  };
  attempts = 0;
  lease_token = text "lease";
  status = text "leased";
  next_attempt_at = pos 0;
}

-- Ports over a queue of this length that answer every request with 204.
abbrev ports : ℕ → Ports
ports total = record {
  now = λ h. pos 1000;
  cancelled = λ h. false;
  revoked = λ h. ok 0;
  queue = λ h. ok (record { total = total; max_destination = 0 });
  claimed = λ h. ok (to_d ∷ []);
  allowed = λ h. ok true;
  secret = λ h. ok (text "0123456789abcdef0123456789abcdef");
  response = λ h. some (record { status_code = 204; retry_after = pos 0 });
}

abbrev envelopes : Envelopes
envelopes = record {
  build_envelope = λ event. ok event.payload;
  signed_headers = λ h secret d body now. some ((text "X-Key", d.key_id) ∷ []);
}

deliver-Course_example :
    Course worker
      (ports 5)
      envelopes
      to_d
      (pos 1000)
      []
      (deliver worker (ports 5) envelopes [] to_d)
deliver-Course_example = deliver-Course worker (ports 5) envelopes [] to_d

abbrev cycles : List (Ports × History)
cycles = (ports 12, []) ∷ (ports 20, []) ∷ (ports 5, []) ∷ []

still_paused : paused_after worker cycles ≡ true
unfolding paused_after begin_cycle next_paused
still_paused = refl

paused_after_iff_example :
    (paused_after worker cycles ≡ true) ↔ PausedSince worker (readings cycles)
paused_after_iff_example = paused_after_iff worker cycles

fanouts-PausedSince_example :
    (FansOut worker (ports 12) [] ((ports 20, []) ∷ []) 1
      × ((q : QueueCounts) × (reading (ports 12) [] ≡ some q))
      × (¬ PausedSince worker (readings ((ports 12, []) ∷ (ports 20, []) ∷ []))))
    ⊎ (FansOut worker (ports 12) [] ((ports 20, []) ∷ []) 0
        × ((reading (ports 12) [] ≡ none)
            ⊎ PausedSince worker (readings ((ports 12, []) ∷ (ports 20, []) ∷ []))))
fanouts-PausedSince_example = fanouts-PausedSince worker (ports 12) [] ((ports 20, []) ∷ [])

-- The delivery of the claim is granted and started.
abbrev Rounds : Type 0
Rounds = Round whole worker (ports 5) envelopes

abbrev begun : Rounds
begun = record { waiting = to_d ∷ []; held = none; running = []; limiter = fresh; history = [] }

abbrev under_way : Rounds
under_way = record { waiting = []; held = none; running = to_d ∷ []; limiter = busy; history = [] }

begun-Steps : Steps whole worker (ports 5) envelopes (pos 1000) 10 begun under_way
begun-Steps =
    one_more _ _ (one_more _ _ no_step (acquired to_d [] [] fresh busy [] first_granted))
      (started to_d [] [] busy [] (omega arith))

Steps-bounded_example :
    (length (to_d ∷ []) ≤ 4)
    × ((e : Bytes) → going_to e (to_d ∷ []) ≤ 1)
    × ((e : Bytes) → active_in whole busy.states e ≡ held_for e none + going_to e (to_d ∷ []))
Steps-bounded_example =
    Steps-bounded whole worker (ports 5) envelopes (pos 1000) 10 (to_d ∷ []) fresh [] under_way
      fresh-Reached begun-Steps
