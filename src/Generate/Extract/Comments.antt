-- ===== src/Generate/Extract/Comments.antt =====
-- The texts of backend/pkg/generate/collector_ast.go: comments, deprecations, display types and JSON
-- tags. A text is a list of characters here, where Go counts bytes: `parseDeprecation` cuts the
-- comments at an index into their lower-case form, which is the same place where lower-casing keeps
-- the width of each character, as it does in ASCII.
use go_http_mqtt_boilerplate.Prelude.{
  ℕ, suc, ◌+◌, Bool, true, false, ◌||◌, ◌&&◌, leb, Option, none, some, List, [], ◌∷◌, ◌++◌, map,
  length, Text, codes, text_eq_inst, nat_eq, ◌==◌, is_some, take, drop, member, split, join,
  if◌then◌else◌, Result, ok, err, ◌>>=◌,
}
use go_http_mqtt_boilerplate.Mqtt.Topic.{is_empty}
use go_http_mqtt_boilerplate.Generate.DocTypes.{FieldKind, FieldType, field_type, null, ref}
use go_http_mqtt_boilerplate.Generate.Extract.Ast.{CommentGroup}

-- What the extraction takes from Go's standard library and from `golang.org/x/text`: `ast.IsExported`,
-- `strings.ToLower`, the title caser, the value of the key json in the literal of a struct tag, the
-- sorted keys of a set, `strconv.Unquote`, and `strconv.ParseInt` in base 10 to 64 bits, with the
-- number in digits.
pub record Library : Type 0 where
  pub is_exported : Text → Bool
  pub to_lower : Text → Text
  pub title : Text → Text
  pub json_tag : Text → Option Text
  pub sorted_keys : List Text → List Text
  pub unquote : Text → Option Text
  pub parse_int : Text → Option Text

-- unicode.IsSpace
abbrev pub is_space : ℕ → Bool
is_space c =
    (leb 9 c && leb c 13)
    || (c == 32
        || (c == 133
            || (c == 160
                || (c == 5760
                    || ((leb 8192 c && leb c 8202)
                        || (c == 8232
                            || (c == 8233 || (c == 8239 || (c == 8287 || c == 12288)))))))))

unfoldable pub trim_left : Text → Text
trim_left [] = []
trim_left (c ∷ s) = let rest = trim_left s in if is_space c then rest else c ∷ s

unfoldable pub trim_right : Text → Text
trim_right [] = []
trim_right (c ∷ s) = let rest = trim_right s in if is_space c && is_empty rest then [] else c ∷ rest

-- strings.TrimSpace
unfoldable pub trim_space : Text → Text
unfolding trim_left trim_right
trim_space s = trim_right (trim_left s)

-- the rest of a text that starts with the prefix
unfoldable pub strip_prefix : Text → Text → Option Text
strip_prefix [] s = some s
strip_prefix (p ∷ ps) [] = none
strip_prefix (p ∷ ps) (c ∷ s) = let rest = strip_prefix ps s in if c == p then rest else none

-- strings.TrimPrefix at a text of any length
unfoldable pub trim_text : Text → Text → Text
unfolding strip_prefix
trim_text prefix s = elim (strip_prefix prefix s) [ none ↦ s | some rest ↦ rest ]

unfoldable pub comment_line : Text → Text
unfolding trim_space trim_text strip_prefix
comment_line line =
    let text = trim_space (trim_text (codes "//") line) in
    if is_empty text
    then []
    else if is_some (strip_prefix (codes "nolint:") text)
    then []
    else trim_space text

unfoldable pub extract_comments_from_doc : CommentGroup → Text
unfolding comment_line trim_space
extract_comments_from_doc doc = trim_space (join b' ' (map comment_line doc))

abbrev one_more : Option ℕ → Option ℕ
one_more none = none
one_more (some i) = some (suc i)

-- strings.Index, as the number of characters before the first match
unfoldable pub index : Text → Text → Option ℕ
index pattern [] = if is_empty pattern then some 0 else none
index pattern (c ∷ s) =
    let later = one_more (index pattern s) in
    if is_some (strip_prefix pattern (c ∷ s)) then some 0 else later

abbrev pub deprecated_prefix : Text
deprecated_prefix = codes "deprecated:"

pub data CommentError : Type 0 where
  empty_deprecation : CommentError

-- the message, and the description without it
unfoldable pub parse_deprecation : (Text → Text) → Text → Result CommentError (Text × Text)
unfolding index trim_space
parse_deprecation to_lower [] = ok ([], [])
parse_deprecation to_lower (c ∷ comments) =
    elim (index deprecated_prefix (to_lower (c ∷ comments))) [
      | none ↦ ok ([], c ∷ comments)
      | some i ↦
          let message = trim_space (drop (i + length deprecated_prefix) (c ∷ comments)) in
          if is_empty message
          then err empty_deprecation
          else ok (message, trim_space (take i (c ∷ comments)))
    ]

unfoldable pub generate_display_type : (Text → Text) → FieldType → Result FieldKind Text
generate_display_type title (field_type FieldKind.reference type f r n i a k) = ok type
generate_display_type title (field_type FieldKind.enum type f r n i a k) = ok type
generate_display_type title (field_type FieldKind.primitive type f r n i a k) = ok (title type)
generate_display_type title (field_type FieldKind.array type f r n null a k) = ok (codes "Array")
generate_display_type title (field_type FieldKind.array type f r n (ref item) a k) = do
  shown ← generate_display_type title item
  ok (shown ++ codes "[]")
generate_display_type title (field_type FieldKind.object type f r n i a k) = ok (codes "Object")
generate_display_type title (field_type (FieldKind.other kind) type f r n i a k) =
    err (FieldKind.other kind)

pub record JsonTagInfo : Type 0 where
  pub name : Text
  pub omitempty : Bool
  pub skip : Bool

-- the parts of the tag's text
unfoldable pub tag_info : Text → List Text → JsonTagInfo
tag_info default_name [] = record { name = default_name; omitempty = false; skip = false }
tag_info default_name (first ∷ options) =
    if first == codes "-"
    then record { name = default_name; omitempty = false; skip = true }
    else record {
      name = (if is_empty first then default_name else first);
      omitempty = member (codes "omitempty") options;
      skip = false;
    }

-- the text under the key json, in the literal of the tag
abbrev pub json_value : (Text → Option Text) → Option Text → Option Text
json_value json_tag none = none
json_value json_tag (some literal) = json_tag literal

unfoldable pub parse_json_tag : (Text → Option Text) → Option Text → Text → JsonTagInfo
unfolding tag_info
parse_json_tag json_tag tag default_name = elim (json_value json_tag tag) [
  | none ↦ record { name = default_name; omitempty = false; skip = false }
  | some text ↦ tag_info default_name (split b',' text)
]
