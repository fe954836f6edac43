-- ===== src/Generate/Params.antt =====
-- Parameter names of backend/pkg/generate/helpers.go: the placeholders of a path section, and the
-- character tests on names and operation ids.
pub mod Laws
use go_http_mqtt_boilerplate.Prelude.{
  ℕ, ◌<◌, ◌≡◌, Bool, true, false, ◌&&◌, ◌||◌, Option, none, some, List, [], ◌∷◌, ◌++◌, Text, count,
  split, leb, ◌==◌, nat_eq, if◌then◌else◌, Result, ok, err,
}

pub data ParamError : Type 0 where
  mismatched : ParamError

-- the `range` loop: `none` is `start == -1`, `some t` has the text from `start` to the position
unfoldable pub scan : Option Text → Text → List Text
scan cur [] = []
scan none (c ∷ s) = scan (if c == b'{' then some [] else none) s
scan (some t) (c ∷ s) =
    let opened = scan (some []) s in
    let closed = t ∷ scan none s in
    let longer = scan (some (t ++ c ∷ [])) s in
    if c == b'{' then opened else if c == b'}' then closed else longer

-- parts[0] of strings.Split(param, ":")
abbrev pub first : List Text → Text
first [] = []
first (p ∷ ps) = p

unfoldable pub clean_params : List Text → List Text
clean_params [] = []
clean_params (param ∷ params) =
    let name = first (split b':' param) in
    let rest = clean_params params in elim name [ [] ↦ rest | c ∷ s ↦ (c ∷ s) ∷ rest ]

unfoldable pub extract_param_name : Text → Result ParamError (List Text)
unfolding scan clean_params split count
extract_param_name path =
    if count b'{' path == count b'}' path
    then ok (clean_params (scan none path))
    else err mismatched

unfoldable pub is_ascii_letter : ℕ → Bool
is_ascii_letter r = (leb b'a' r && leb r b'z') || (leb b'A' r && leb r b'Z')

unfoldable pub all_letters : Text → Bool
unfolding is_ascii_letter
all_letters [] = true
all_letters (r ∷ s) = is_ascii_letter r && all_letters s

unfoldable pub is_ascii_letter_string : Text → Bool
unfolding all_letters
is_ascii_letter_string [] = false
is_ascii_letter_string (r ∷ s) = all_letters (r ∷ s)

-- `unicode.IsDigit` on ASCII; beyond ASCII its table is a parameter of the functions that call it.
abbrev pub is_ascii_digit : ℕ → Bool
is_ascii_digit r = leb b'0' r && leb r b'9'

-- What the documentation of the package `unicode` says of `IsDigit` for the ASCII characters.
abbrev pub AgreesOnAscii : (ℕ → Bool) → Type 0
AgreesOnAscii is_digit = (r : ℕ) → r < 128 → is_digit r ≡ is_ascii_digit r

module _ (is_digit : ℕ → Bool) where
  unfoldable pub name_rest : Text → Bool
  unfolding is_ascii_letter
  name_rest [] = true
  name_rest (r ∷ s) = (is_ascii_letter r || is_digit r || r == b'_') && name_rest s

  unfoldable pub is_valid_parameter_name : Text → Bool
  unfolding name_rest is_ascii_letter
  is_valid_parameter_name [] = false
  is_valid_parameter_name (r ∷ s) = is_ascii_letter r && name_rest s
