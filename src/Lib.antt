-- ===== src/Lib.antt =====
-- A model of the server of NewIM, an instant messenger whose clients fetch what changed page by page,
-- with signed cursors, and whose operations all run against a store that other code provides.
--
-- The parts and their files:
--
-- - Bytes: Go strings and byte slices as lists of numbers below 256; big-endian numbers
--   (BigEndian), base64url without padding (Base64), literals, decimal numbers, JSON strings and
--   hexadecimal digits (Text). They stand for what the code uses of Go and its standard library.
-- - ConversationSync: the sync of an account's conversation list, server/sync/conversation.
--   Types is types.go; Cursor (with its Reader) and Codec are cursor.go; Validate, Assemble, Render,
--   Json, Service and Operations are service.go. Operations has BeginBootstrap, ContinueBootstrap,
--   BeginDelta and ContinueDelta as begin_bootstrap, continue_bootstrap, begin_delta and
--   continue_delta. Delta holds the specification of a page and of a round of pages of changes,
--   Directory that of a page of the whole directory.
-- - MessageSync: the messages of a conversation after a sequence number, server/sync/message.
--   Types is types.go, Service is service.go (ReadAfterSeq is read_after_seq). Rows, Assembled, Pages,
--   Reading, Fits, Accepted and Served hold the specifications of rows, of a page and of a reading.
-- - AuthSession: access tokens, server/auth/session. Identity and Types are types.go and store.go,
--   Token is token.go, Service is service.go and bearer.go, Login is PlanLogin. RoundTrip, Verified,
--   Sound, Issue, Refused and Plans hold the specifications.
-- - Protocol: the wire protocol, core/protocol/go. Json is what it uses of encoding/json and
--   unicode/utf8; Strict, Checks and Message are message.go; Frame (reading) and Send (writing) are
--   send.go; Media is media.go; Numbers, Intent and Results are intent.go. Json/Scanned, Json/Taken and
--   Terminates show that the scan ends; RoundTrip holds what is read of a frame that was
--   written, Magnitudes the arithmetic of numbers, and Compared and Correlated what the comparisons of
--   results say.
-- - Sending: the sending of messages. Types and Service are server/message (Send is send), Repository
--   is Persist of server/storage/message/repository.go. Transaction, Sent, Resent, Frozen and Failed
--   hold the specifications.
-- - Webhook: the delivery of webhooks, server/webhook. Limiter is limiter.go; Types is types.go; Retry
--   is the part of worker.go that decides what becomes of a delivery, and Jitter its default jitter;
--   Deliver (deliver, finish, deferDelivery) and Cycle (cycle) are the rest of worker.go. Counted,
--   InFlight, Backoff, Delivered, Rounds and Paused hold the specifications.
-- - Tests: every theorem that has hypotheses at a concrete input.
--
-- How the parts interact: MessageSync and Sending take the identity that AuthSession makes; Sending
-- checks requests and writes answers with Protocol. All services take their store as a function or a
-- record of functions, and the theorems say what they need of it as named laws: IsLogStore, ServesLog,
-- IsTokenStore, IsIssueStore, IsAnswering, IsReporting and IsKeeping.
-- The ports of the webhook worker answer from the history of all calls, and no law of them is needed.
-- HMAC-SHA256 (IsMac), SHA-256, the entropy (IsFull), the login policy, the jitter that a retry uses
-- and the arithmetic of float64 are parameters.
--
-- Conventions: a function that returns `(value, error)` gives a Result with the package's code; an
-- early return is `reject` or `or_fail`; a nil pointer is none. An int64 that the code has checked
-- not to be negative is a native number, and one that it has not is an integer of Common.Int. The
-- clock is an argument, one reading for each operation. Uint64 fields of cursors keep their
-- wrap-around in the codec.
--
-- Bounds and fuel: decimal numbers are printed with fuel 20, since a number below 2 ^ 64 has 20 digits
-- at most. `Issue` makes 3 attempts, which is the code's own bound and its fuel. The loop of the
-- backoff runs as many rounds as the source's counter allows. The strict scan of JSON has fuel for four
-- calls and rounds per byte of its input. All other loops are by recursion on a list or, over a
-- decoder, have fuel for a round per byte, since every token takes a byte.
--
-- Not modelled: contexts and their deadlines (a store call that is cut off is an error of the store),
-- observers and metrics, nil receivers, the storage adapters (SQL text) other than that of messages,
-- HTTP, the file system, the start of the process, the media service and the codec of webhooks. What
-- the webhook worker uses of that codec, the bytes of an envelope and its signed headers, is the record
-- Envelopes, and its theorems hold for all such functions.
pub mod AuthSession
pub mod Bytes
pub mod Common
pub mod ConversationSync
pub mod MessageSync
pub mod Protocol
pub mod Sending
pub mod Tests
pub mod Webhook
