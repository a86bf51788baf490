-- ===== src/Protocol/Json.antt =====
-- What core/protocol/go uses of encoding/json and unicode/utf8: tokens, objects and strings.
pub mod Utf8
pub mod Scan
pub mod Decoder
pub mod Scanned
pub mod Taken
