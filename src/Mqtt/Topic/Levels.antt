-- ===== src/Mqtt/Topic/Levels.antt =====
-- Which patterns `validateTopicPattern` accepts.
use go_http_mqtt_boilerplate.Prelude.{
  ℕ, ◌<◌, ◌≡◌, ◌≢◌, refl, ap, ◌∙◌, ◌↔◌, ◌⊎◌, inl, inr, Bool, true, false, List, [], ◌∷◌, ◌++◌, Text,
  contains, has_prefix, has_suffix, split, All, nat_eq, Bool-cases, ok, arith, Lacks,
}
use go_http_mqtt_boilerplate.Generate.Params.{
  is_ascii_letter, is_ascii_digit, AgreesOnAscii, is_valid_parameter_name,
}
use go_http_mqtt_boilerplate.Generate.Params.Laws.{contains-append, is_valid_parameter_name-Lacks}
use go_http_mqtt_boilerplate.Generate.Sanitize.{sanitize_path}
use go_http_mqtt_boilerplate.Generate.Sanitize.Laws.{sanitize_path-eq_self_iff}
use go_http_mqtt_boilerplate.Mqtt.Topic.Slashes.{
  IsFilled, IsJoined, split-IsJoined, IsJoined-IsClean,
}
use go_http_mqtt_boilerplate.Mqtt.Topic.{
  init, inner, is_braced, is_empty, validate_segment, validate_segments, validate_topic_pattern,
}

init-append : (c : ℕ) (s : Text) → init (s ++ c ∷ []) ≡ s
unfolding init
init-append c [] = refl
init-append c (x ∷ []) = refl
init-append c (x ∷ y ∷ s) = ap (λ t. x ∷ t) (init-append c (y ∷ s))

has_suffix-append : (c : ℕ) (s : Text) → has_suffix c (s ++ c ∷ []) ≡ true
unfolding has_suffix
has_suffix-append c [] = ground arith
has_suffix-append c (x ∷ []) = ground arith
has_suffix-append c (x ∷ y ∷ s) = has_suffix-append c (y ∷ s)

append-init : (c : ℕ) (s : Text) → has_suffix c s ≡ true → init s ++ c ∷ [] ≡ s
unfolding has_suffix init
append-init c [] h = ground arith
append-init c (x ∷ []) h = ground arith
append-init c (x ∷ y ∷ s) h = ap (λ t. x ∷ t) (append-init c (y ∷ s) h)

-- The text of the placeholder `{name}`.
abbrev pub braced : Text → Text
braced name = b'{' ∷ (name ++ b'}' ∷ [])

has_suffix_cons : (c x : ℕ) (s : Text) → has_suffix c s ≡ true → has_suffix c (x ∷ s) ≡ true
unfolding has_suffix
has_suffix_cons c x [] h = ground arith
has_suffix_cons c x (y ∷ s) h = h

pub is_braced-braced : (name : Text) → is_braced (braced name) ≡ true
unfolding is_braced
is_braced-braced name = has_suffix_cons b'}' b'{' (name ++ b'}' ∷ []) (has_suffix-append b'}' name)

pub inner-braced : (name : Text) → inner (braced name) ≡ name
unfolding inner
inner-braced name = init-append b'}' name

pub braced-inner : (segment : Text) → is_braced segment ≡ true → segment ≡ braced (inner segment)
unfolding is_braced inner has_suffix
braced-inner [] h = ground arith
braced-inner (x ∷ []) h = ground arith
braced-inner (x ∷ y ∷ s) h = ground (arith, append-init b'}' (y ∷ s))

has_prefix_lacking : (c : ℕ) (s : Text) → Lacks c s → has_prefix c s ≡ false
unfolding has_prefix contains
has_prefix_lacking c [] h = refl
has_prefix_lacking c (x ∷ s) h = ground arith

pub is_braced_literal : (segment : Text) → Lacks b'{' segment → is_braced segment ≡ false
is_braced_literal segment h = unfold is_braced in ground (arith, has_prefix_lacking b'{' segment h)

is_empty_lem : (s : Text) → s ≢ [] → is_empty s ≡ false
is_empty_lem [] h = absurd (h refl)
is_empty_lem (x ∷ s) h = refl

module _ (is_digit : ℕ → Bool) where
  abbrev pub IsPlaceholder : Text → Type 0
  IsPlaceholder segment =
      (name : Text) × (segment ≡ braced name) × (is_valid_parameter_name is_digit name ≡ true)

  -- A level of a pattern that `validateTopicPattern` accepts: a placeholder with a valid name, or
  -- text without wildcards and braces.
  abbrev pub IsLevel : Text → Type 0
  IsLevel segment =
      IsPlaceholder segment
      ⊎ ((segment ≢ [])
          × Lacks b'#' segment
          × Lacks b'+' segment
          × Lacks b'{' segment
          × Lacks b'}' segment)

  validate_topic_pattern_ok :
      (topic : Text)
      → validate_topic_pattern is_digit topic ≡ ok tt
      → validate_segments is_digit (split b'/' topic) ≡ ok tt
  validate_topic_pattern_ok topic h = unfold validate_topic_pattern in ground arith

  module _ (agrees : AgreesOnAscii is_digit) where
    Lacks-braced :
        (c : ℕ) (name : Text)
        → c < 128
        → is_ascii_letter c ≡ false
        → is_ascii_digit c ≡ false
        → c ≢ b'_'
        → c ≢ b'{'
        → c ≢ b'}'
        → is_valid_parameter_name is_digit name ≡ true
        → Lacks c (braced name)
    Lacks-braced c name small letter digit under opening closing valid =
        let plain =
          is_valid_parameter_name-Lacks is_digit c name letter (agrees c small ∙ digit) under
            valid in
        let closed = contains-append c name (b'}' ∷ []) plain (unfold contains in ground arith) in
        unfold contains in ground arith

    validate_segment_sound :
        (segment : Text) → validate_segment is_digit segment ≡ ok tt → IsLevel segment
    validate_segment_sound segment h = elim (Bool-cases (is_braced segment)) [
      | inl e ↦ inl (inner segment, braced-inner segment e, unfold validate_segment in ground arith)
      | inr e ↦ inr (unfold validate_segment in ground arith)
    ]

    validate_segment-braced :
        (name : Text)
        → is_valid_parameter_name is_digit name ≡ true
        → validate_segment is_digit (braced name) ≡ ok tt
    unfolding is_ascii_letter
    validate_segment-braced name valid =
        let lacks = λ (c : ℕ) (small : c < 128). Lacks-braced c name small in
        let no_hash =
          lacks b'#' (omega arith) refl refl (omega arith) (omega arith) (omega arith) valid in
        let no_plus =
          lacks b'+' (omega arith) refl refl (omega arith) (omega arith) (omega arith) valid in
        unfold validate_segment in
        ground (arith, no_hash, no_plus, is_braced-braced name, inner-braced name)

    validate_segment_complete :
        (segment : Text) → IsLevel segment → validate_segment is_digit segment ≡ ok tt
    validate_segment_complete segment (inl (name, e, valid)) =
        rw e (validate_segment-braced name valid)
    validate_segment_complete segment (inr h) =
        unfold validate_segment in
        ground (arith, has_prefix_lacking b'{' segment, is_empty_lem segment)

    validate_segments_iff :
        (segments : List Text)
        → (validate_segments is_digit segments ≡ ok tt) ↔ All IsLevel segments
    unfolding validate_segments
    validate_segments_iff [] = (λ _. tt, λ _. refl)
    validate_segments_iff (segment ∷ segments) = ground (
      arith,
      validate_segment_sound segment,
      validate_segment_complete segment,
      validate_segments_iff segments,
    )

    IsLevel-IsFilled : (segment : Text) → IsLevel segment → IsFilled segment
    IsLevel-IsFilled segment (inl (name, e, valid)) k = cc (e, k)
    IsLevel-IsFilled segment (inr h) k = h.0 k

    All-IsLevel-IsFilled : (segments : List Text) → All IsLevel segments → All IsFilled segments
    All-IsLevel-IsFilled [] h = tt
    All-IsLevel-IsFilled (s ∷ ss) (l, h) = (IsLevel-IsFilled s l, All-IsLevel-IsFilled ss h)

    pub IsLevel-IsJoined : (topic : Text) → All IsLevel (split b'/' topic) → IsJoined topic
    IsLevel-IsJoined topic h = split-IsJoined topic (All-IsLevel-IsFilled _ h)

    validate_topic_pattern_segments :
        (topic : Text)
        → IsJoined topic
        → validate_topic_pattern is_digit topic ≡ validate_segments is_digit (split b'/' topic)
    validate_topic_pattern_segments topic j =
        unfold validate_topic_pattern in
        ground (arith, is_empty_lem topic j.filled, j.start, j.finish)

    -- A pattern is accepted exactly when each of its levels is a placeholder `{name}` with a valid
    -- name, or is not empty and free of wildcards and braces. So the checks of the whole topic, for
    -- emptiness and for slashes at its ends, refuse nothing that the levels do not.
    pub validate_topic_pattern_iff :
        (topic : Text)
        → (validate_topic_pattern is_digit topic ≡ ok tt) ↔ All IsLevel (split b'/' topic)
    validate_topic_pattern_iff topic =
        let segments = validate_segments_iff (split b'/' topic) in
        (
          λ h. segments.0 (validate_topic_pattern_ok topic h),
          λ h. validate_topic_pattern_segments topic (IsLevel-IsJoined topic h) ∙ segments.1 h,
        )

    -- An accepted pattern is its own sanitized form, so the check for it in `RegisterSubscribe`
    -- refuses no pattern that the validation accepts, and `RegisterPublish` needs none.
    pub validate_topic_pattern-sanitize_path :
        (topic : Text) → validate_topic_pattern is_digit topic ≡ ok tt → sanitize_path topic ≡ topic
    validate_topic_pattern-sanitize_path topic h =
        let levels = (validate_topic_pattern_iff topic).0 h in
        (sanitize_path-eq_self_iff topic).1 (IsJoined-IsClean topic (IsLevel-IsJoined topic levels))
