-- ===== src/Protocol/Media.antt =====
-- The metadata of a media object: core/protocol/go/media.go.
use new_im.Common.{
  ◌++◌, ℕ, suc, Bool, false, not, ◌&&◌, ◌||◌, [], ◌∷◌, Option, none, some, ◌==◌, ltb, leb,
  if◌then◌else◌, length, Result, ok, ◌>>=◌, ◌>>◌, reject, or_fail,
}
use new_im.Bytes.{Bytes, eq_bytes, every, is_digit, is_lower, is_hex_char}
use new_im.Bytes.Text.{json_string, text}
use new_im.Protocol.Json.Decoder.{Fields, unmarshal_object}
use new_im.Protocol.Types.{ErrorCode, invalid_message, too_large, max_depth, MediaMetadata}
use new_im.Protocol.Checks.{identifier, string_field, number_from, sized}
use new_im.Protocol.Strict.{strict_json_limits}

abbrev pub max_media_payload_bytes : ℕ
max_media_payload_bytes = 4096

abbrev pub max_media_size : ℕ
max_media_size = 104857600

unfoldable pub supported_media_kind : Bytes → Bool
supported_media_kind kind =
    eq_bytes kind (text "image")
    || eq_bytes kind (text "video")
    || eq_bytes kind (text "audio")
    || eq_bytes kind (text "file")

unfoldable pub valid_media_key : Bytes → Bool
unfolding identifier
valid_media_key value = identifier value 128 false

-- The parts before and behind the first slash.
split_slash : Bytes → Option (Bytes × Bytes)
split_slash [] = none
split_slash (c ∷ cs) = elim (split_slash cs) [
  | none ↦ if c == b'/' then some ([], cs) else none
  | some (before, behind) ↦ if c == b'/' then some ([], cs) else some (c ∷ before, behind)
]

mime_first : ℕ → Bool
mime_first c = is_lower c || is_digit c

mime_char : ℕ → Bool
mime_char c =
    is_lower c
    || is_digit c
    || c == b'!'
    || c == b'#'
    || c == b'$'
    || c == b'&'
    || c == b'^'
    || c == b'_'
    || c == b'.'
    || c == b'+'
    || c == b'-'

-- One of the two names: its first character, and those behind it. A slash is none of them.
mime_name : ℕ → Bytes → Bool
unfolding mime_first mime_char
mime_name limit [] = false
mime_name limit (c ∷ cs) = leb (length (c ∷ cs)) limit && mime_first c && every mime_char cs

unfoldable pub valid_media_content_type : Bytes → Bool
unfolding split_slash mime_name
valid_media_content_type value = sized 128 value && elim (split_slash value) [
  | none ↦ false
  | some (before, behind) ↦ mime_name 63 before && mime_name 64 behind
]

starts_positive : Bytes → Bool
starts_positive [] = false
starts_positive (c ∷ cs) = leb b'1' c && leb c b'9'

unfoldable pub valid_media_size : Bytes → Bool
unfolding starts_positive
valid_media_size value =
    sized 9 value
    && starts_positive value
    && every is_digit value
    && leb 1 (number_from 0 value)
    && leb (number_from 0 value) max_media_size

unfoldable pub valid_media_sha256 : Bytes → Bool
valid_media_sha256 value = length value == 64 && every is_hex_char value

unfoldable pub valid_media_metadata : MediaMetadata → Bool
valid_media_metadata m =
    valid_media_key m.media_key
    && supported_media_kind m.kind
    && valid_media_content_type m.content_type
    && valid_media_size m.size
    && valid_media_sha256 m.sha256

unfoldable pub decode_media_fields : Fields → Result ErrorCode MediaMetadata
decode_media_fields fields = do
  media_key ← string_field fields (text "mediaKey")
  kind ← string_field fields (text "kind")
  content_type ← string_field fields (text "contentType")
  size ← string_field fields (text "size")
  sha256 ← string_field fields (text "sha256")
  ok (record {
    media_key = media_key;
    kind = kind;
    content_type = content_type;
    size = size;
    sha256 = sha256;
  })

has_name : Fields → Bytes → Bool
has_name [] name = false
has_name ((other, raw) ∷ fs) name = eq_bytes other name || has_name fs name

-- `len` of the map that an object fills.
map_size : Fields → ℕ
unfolding has_name
map_size [] = 0
map_size ((name, raw) ∷ fs) = let size = map_size fs in if has_name fs name then size else suc size

unfoldable pub media_fields : Bytes → Result ErrorCode MediaMetadata
unfolding map_size
media_fields raw = do
  reject (ltb max_media_payload_bytes (length raw)) too_large
  fields ← or_fail (unmarshal_object raw) invalid_message
  reject (not (map_size fields == 5)) invalid_message
  metadata ← decode_media_fields fields
  reject (not (valid_media_metadata metadata)) invalid_message
  ok metadata

unfoldable pub validate_media_payload : Bytes → Result ErrorCode (Unit {0})
validate_media_payload raw = do _ ← media_fields raw; ok tt

-- The last `json.Unmarshal` fills the struct from the five fields that were checked.
unfoldable pub decode_media_payload : Bytes → Result ErrorCode MediaMetadata
decode_media_payload raw = do
  strict_json_limits raw max_media_payload_bytes max_depth
  media_fields raw

-- `json.Marshal` of the five strings.
media_wire : MediaMetadata → Bytes
media_wire m =
    text "{\"mediaKey\":"
    ++ (json_string m.media_key
        ++ (text ",\"kind\":"
            ++ (json_string m.kind
                ++ (text ",\"contentType\":"
                    ++ (json_string m.content_type
                        ++ (text ",\"size\":"
                            ++ (json_string m.size
                                ++ (text ",\"sha256\":"
                                    ++ (json_string m.sha256 ++ text "}")))))))))

unfoldable pub encode_media_payload : MediaMetadata → Result ErrorCode Bytes
unfolding media_wire
encode_media_payload m = do
  reject (not (valid_media_metadata m)) invalid_message
  reject (ltb max_media_payload_bytes (length (media_wire m))) too_large
  validate_media_payload (media_wire m)
  ok (media_wire m)
