-- ===== src/Webhook/Types.antt =====
-- server/webhook/types.go: the data of the worker and its ports.
use new_im.Common.{ℕ, ◌+◌, ◌*◌, ◌/◌, Bool, ◌||◌, ltb, leb, length, Result, reject}
use new_im.Common.Int.{ℤ, pos, ltb_ℤ}
use new_im.Bytes.{Bytes}
use new_im.Webhook.Retry.{Code, invalid_config, Config}

-- `ConversationSeq` and the like are written only.
pub record Event : Type 0 where
  pub id : Bytes
  pub server_msg_id : Bytes
  pub client_msg_id : Bytes
  pub sender_id : Bytes
  pub conversation_id : Bytes
  pub conversation_seq : ℤ
  pub server_time : ℤ
  pub protocol_version : ℤ
  pub schema_version : ℤ
  pub message_type : Bytes
  pub payload : Bytes

pub record SecretMaterial : Type 0 where
  pub destination_id : Bytes
  pub revision : ℤ
  pub url : Bytes
  pub key_id : Bytes
  pub nonce : Bytes
  pub ciphertext : Bytes

pub record Delivery : Type 0 where
  pub id : Bytes
  pub event : Event
  pub destination_id : Bytes
  pub endpoint_revision : ℤ
  pub url : Bytes
  pub key_id : Bytes
  pub secret : SecretMaterial
  pub attempts : ℕ
  pub lease_token : Bytes
  pub status : Bytes
  pub next_attempt_at : ℤ

-- The numbers of the queue that the worker reads; the others are observed only.
pub record QueueCounts : Type 0 where
  pub total : ℕ
  pub max_destination : ℕ

-- The body of a response is not read.
pub record Response : Type 0 where
  pub status_code : ℕ
  pub retry_after : ℤ

-- What the checks of the configuration use of float64.
pub record FloatChecks (F : Type 0) : Type 0 where
  pub is_nan : F → Bool
  pub is_inf : F → Bool
  pub less : F → F → Bool
  pub tenth : F
  pub one : F
  pub thousand : F

-- `Config`; its fields on retries stand in a record of their own. Durations are nanoseconds; the
-- clock is a port.
pub record WorkerConfig (F : Type 0) : Type 0 where
  pub owner : Bytes
  pub batch_size : ℕ
  pub max_concurrent : ℕ
  pub max_per_destination : ℕ
  pub retries : Config
  pub max_response_bytes : ℕ
  pub lease_ttl : ℕ
  pub request_timeout : ℕ
  pub high_water : ℕ
  pub low_water : ℕ
  pub max_destination_queue : ℕ
  pub rate_per_second : F
  pub rate_burst : F
  pub idle_delay : ℕ

abbrev outside : ℕ → ℕ → ℕ → Bool
outside n least greatest = ltb n least || ltb greatest n

abbrev millisecond : ℕ
millisecond = 1000000

abbrev minute : ℕ
minute = 60000000000

abbrev rate_outside : {F : Type 0} → FloatChecks F → F → F → Bool
rate_outside floats rate least =
    floats.is_nan rate
    || floats.is_inf rate
    || floats.less rate least
    || floats.less floats.thousand rate

-- `Config.Validate`. A number that is not negative by its type has no check against 0.
unfoldable pub validate : {F : Type 0} → FloatChecks F → WorkerConfig F → Result Code (Unit {0})
validate floats c =
    reject
      (outside (length c.owner) 1 128
        || outside c.batch_size 1 1000
        || outside c.max_concurrent 1 64
        || outside c.max_per_destination 1 c.max_concurrent
        || outside c.retries.max_attempts 1 8
        || outside c.max_response_bytes 1 1048576
        || leb c.lease_ttl (c.request_timeout + c.request_timeout / 2)
        || ltb (10 * minute) c.lease_ttl
        || outside c.request_timeout millisecond minute
        || ltb_ℤ c.retries.base_backoff (pos millisecond)
        || ltb_ℤ (pos minute) c.retries.base_backoff
        || ltb_ℤ c.retries.max_backoff c.retries.base_backoff
        || ltb_ℤ (pos (60 * minute)) c.retries.max_backoff
        || outside c.high_water 1 1000000
        || leb c.high_water c.low_water
        || outside c.max_destination_queue 1 1000000
        || rate_outside floats c.rate_per_second floats.tenth
        || rate_outside floats c.rate_burst floats.one
        || outside c.idle_delay millisecond minute)
      invalid_config
