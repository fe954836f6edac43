-- ===== src/Mqtt/Topic/Filters.antt =====
-- The wildcard form of a pattern as an MQTT topic filter.
use go_http_mqtt_boilerplate.Prelude.{
  ℕ, ◌≡◌, ◌≢◌, refl, ap, ◌∙◌, ◌↔◌, ◌⊎◌, inl, inr, Bool, true, false, not, ◌&&◌, ◌||◌, List, [], ◌∷◌,
  map, Text, contains, split, join, All, Lacks, ◌==◌, text_eq_inst, nat_eq, text_eq_iff, Bool-cases,
  ok, arith,
}
use go_http_mqtt_boilerplate.Prelude.Texts.{split-All-Lacks, split-join, split-ne-nil}
use go_http_mqtt_boilerplate.Generate.Params.{AgreesOnAscii}
use go_http_mqtt_boilerplate.Mqtt.Topic.{
  is_braced, wildcard, convert_topic_to_mqtt, validate_topic_pattern,
}
use go_http_mqtt_boilerplate.Mqtt.Topic.Levels.{
  is_braced-braced, IsLevel, validate_topic_pattern_iff,
}

-- Section 4.7.1 of the MQTT standard, for filters without `#`: a level `+` of a filter matches every
-- level of a topic, any other level only itself.
unfoldable pub levels_match : List Text → List Text → Bool
levels_match [] [] = true
levels_match (f ∷ fs) (t ∷ ts) = (f == b'+' ∷ [] || f == t) && levels_match fs ts
levels_match _ _ = false

abbrev pub starts_with : ℕ → Text → Bool
starts_with c [] = false
starts_with c (x ∷ s) = x == c

-- Section 4.7.2: a filter that starts with a wildcard matches no topic that starts with `$`.
abbrev pub is_hidden : Text → Text → Bool
is_hidden filter topic = starts_with b'+' filter && starts_with b'$' topic

unfoldable pub filter_matches : Text → Text → Bool
unfolding levels_match
filter_matches filter topic =
    not (is_hidden filter topic) && levels_match (split b'/' filter) (split b'/' topic)

-- A topic that a pattern stands for: the literal levels are the same, and each placeholder has been
-- replaced by some level.
abbrev pub Instance : List Text → List Text → Type 0
Instance [] [] = Unit
Instance (p ∷ ps) (t ∷ ts) = ((is_braced p ≡ true) ⊎ (p ≡ t)) × Instance ps ts
Instance _ _ = ⊥

-- The pattern starts with a placeholder.
abbrev pub is_placed_first : List Text → Bool
is_placed_first [] = false
is_placed_first (p ∷ ps) = is_braced p

abbrev IsNoPlus : Text → Type 0
IsNoPlus p = (is_braced p ≡ true) ⊎ Lacks b'+' p

plus_free : (p : Text) → Lacks b'+' p → p ≢ b'+' ∷ []
unfolding contains
plus_free p h e = cc (ap (contains b'+') e)

wildcard_matches_iff :
    (p t : Text)
    → IsNoPlus p
    → ((wildcard p == b'+' ∷ [] || wildcard p == t) ≡ true) ↔ ((is_braced p ≡ true) ⊎ (p ≡ t))
wildcard_matches_iff p t h = elim (Bool-cases (is_braced p)) [
  | inl e ↦ unfold wildcard in ground (arith, text_eq_iff (b'+' ∷ []) (b'+' ∷ []))
  | inr e ↦
      unfold wildcard in ground (arith, text_eq_iff p t, text_eq_iff p (b'+' ∷ []), plus_free p)
]

levels_match-wildcard :
    (ps ts : List Text)
    → All IsNoPlus ps
    → (levels_match (map wildcard ps) ts ≡ true) ↔ Instance ps ts
unfolding levels_match
levels_match-wildcard [] [] h = ground arith
levels_match-wildcard [] (t ∷ ts) h = ground arith
levels_match-wildcard (p ∷ ps) [] h = ground arith
levels_match-wildcard (p ∷ ps) (t ∷ ts) (h, hs) =
    ground (arith, wildcard_matches_iff p t h, levels_match-wildcard ps ts hs)

wildcard-Lacks : (ps : List Text) → All (Lacks b'/') ps → All (Lacks b'/') (map wildcard ps)
unfolding wildcard contains
wildcard-Lacks [] h = tt
wildcard-Lacks (p ∷ ps) h = ground (arith, wildcard-Lacks ps h.1)

pub split-convert :
    (topic : Text) → split b'/' (convert_topic_to_mqtt topic) ≡ map wildcard (split b'/' topic)
unfolding convert_topic_to_mqtt
split-convert topic =
    parts (split b'/' topic) (split-ne-nil b'/' topic) (split-All-Lacks b'/' topic)
  where
    parts :
        (ps : List Text)
        → ps ≢ []
        → All (Lacks b'/') ps
        → split b'/' (join b'/' (map wildcard ps)) ≡ map wildcard ps
    parts [] n h = absurd (n refl)
    parts (p ∷ ps) n h = split-join b'/' (wildcard p) (map wildcard ps) (wildcard-Lacks (p ∷ ps) h)

starts_with-join :
    (ps : List Text)
    → All IsNoPlus ps
    → starts_with b'+' (join b'/' (map wildcard ps)) ≡ is_placed_first ps
unfolding join wildcard contains
starts_with-join [] h = refl
starts_with-join (p ∷ []) (h, hs) = ground (arith, h)
starts_with-join ([] ∷ q ∷ ps) (h, hs) = ground (arith, h)
starts_with-join ((c ∷ p) ∷ q ∷ ps) (h, hs) = ground (arith, h)

starts_with-convert :
    (pattern : Text)
    → All IsNoPlus (split b'/' pattern)
    → starts_with b'+' (convert_topic_to_mqtt pattern) ≡ is_placed_first (split b'/' pattern)
unfolding convert_topic_to_mqtt
starts_with-convert pattern h = starts_with-join (split b'/' pattern) h

module _ (is_digit : ℕ → Bool) (agrees : AgreesOnAscii is_digit) where
  IsLevel-IsNoPlus : (ps : List Text) → All (IsLevel is_digit) ps → All IsNoPlus ps
  IsLevel-IsNoPlus [] h = tt
  IsLevel-IsNoPlus (p ∷ ps) (inl (name, e, valid), h) =
      (inl (ap is_braced e ∙ is_braced-braced name), IsLevel-IsNoPlus ps h)
  IsLevel-IsNoPlus (p ∷ ps) (inr l, h) = (inr l.2, IsLevel-IsNoPlus ps h)

  -- By the rules of the MQTT standard, the filter of an accepted pattern matches a topic exactly when
  -- the topic is an instance of the pattern, which agrees with the pattern level by level, except
  -- that a level stands in place of each placeholder; and the pattern does not start with a
  -- placeholder where the topic starts with `$`.
  pub convert_topic_to_mqtt-matches_iff :
      (pattern topic : Text)
      → validate_topic_pattern is_digit pattern ≡ ok tt
      → (filter_matches (convert_topic_to_mqtt pattern) topic ≡ true) ↔ (
          Instance (split b'/' pattern) (split b'/' topic)
          × ((is_placed_first (split b'/' pattern) && starts_with b'$' topic) ≡ false))
  convert_topic_to_mqtt-matches_iff pattern topic h =
      let levels = (validate_topic_pattern_iff is_digit agrees pattern).0 h in
      let no_plus = IsLevel-IsNoPlus (split b'/' pattern) levels in
      let matched = levels_match-wildcard (split b'/' pattern) (split b'/' topic) no_plus in
      let first = starts_with-convert pattern no_plus in
      unfold filter_matches in rw (split-convert pattern) (ground (arith, matched, first))
