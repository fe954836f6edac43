-- ===== src/Mqtt/Topic.antt =====
-- Topic patterns of backend/pkg/mqtt/helpers.go: validation and the MQTT wildcard form.
pub mod Slashes
pub mod Levels
pub mod Filters
use go_http_mqtt_boilerplate.Prelude.{
  ℕ, Bool, not, ◌&&◌, ◌||◌, List, [], ◌∷◌, map, Text, contains, has_prefix, has_suffix, split, join,
  if◌then◌else◌, Result, ok, ◌>>=◌, ◌>>◌, fail_if,
}
use go_http_mqtt_boilerplate.Generate.Params.{is_valid_parameter_name}

pub data TopicError : Type 0 where
  empty_topic leading_slash trailing_slash empty_segment : TopicError
  multi_level_wildcard single_level_wildcard invalid_syntax : TopicError
  invalid_name : Text → TopicError

abbrev pub is_empty : Text → Bool
is_empty [] = Bool.true
is_empty (c ∷ s) = Bool.false

-- a text without its last character
unfoldable pub init : Text → Text
init [] = []
init (c ∷ []) = []
init (c ∷ d ∷ s) = c ∷ init (d ∷ s)

-- segment[1 : len(segment)-1]
unfoldable pub inner : Text → Text
unfolding init
inner [] = []
inner (c ∷ s) = init s

unfoldable pub is_braced : Text → Bool
unfolding has_prefix has_suffix
is_braced segment = has_prefix b'{' segment && has_suffix b'}' segment

module _ (is_digit : ℕ → Bool) where
  unfoldable pub validate_segment : Text → Result TopicError (Unit {0})
  unfolding is_braced inner
  validate_segment segment = do
    fail_if (is_empty segment) empty_segment
    fail_if (contains b'#' segment) multi_level_wildcard
    fail_if (contains b'+' segment) single_level_wildcard
    let name = inner segment
    if is_braced segment
        then fail_if (not (is_valid_parameter_name is_digit name)) (invalid_name name)
        else fail_if (contains b'{' segment || contains b'}' segment) invalid_syntax

  unfoldable pub validate_segments : List Text → Result TopicError (Unit {0})
  validate_segments [] = ok tt
  validate_segments (segment ∷ segments) = do validate_segment segment; validate_segments segments

  unfoldable pub validate_topic_pattern : Text → Result TopicError (Unit {0})
  unfolding validate_segments
  validate_topic_pattern topic = do
    fail_if (is_empty topic) empty_topic
    fail_if (has_prefix b'/' topic) leading_slash
    fail_if (has_suffix b'/' topic) trailing_slash
    validate_segments (split b'/' topic)

unfoldable pub wildcard : Text → Text
unfolding is_braced
wildcard segment = if is_braced segment then b'+' ∷ [] else segment

unfoldable pub convert_topic_to_mqtt : Text → Text
unfolding wildcard
convert_topic_to_mqtt topic = join b'/' (map wildcard (split b'/' topic))
