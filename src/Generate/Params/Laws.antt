-- ===== src/Generate/Params/Laws.antt =====
-- What `ExtractParamName` returns on sections that are built from literal text and placeholders,
-- and what the name tests accept.
use go_http_mqtt_boilerplate.Prelude.{
  ℕ, ◌+◌, ◌≡◌, ◌≢◌, refl, ◌∙◌, ap, ◌↔◌, Bool, true, false, none, some, List, [], ◌∷◌, ◌++◌,
  append_assoc, append-nil, Text, contains, count, split, All, nat_eq, nat_beq_iff, ok, err, arith,
}
use go_http_mqtt_boilerplate.Prelude.Texts.{Lacks, split_lacking, split-append}
use go_http_mqtt_boilerplate.Generate.Params.{
  mismatched, scan, clean_params, extract_param_name, is_ascii_letter, name_rest,
  is_valid_parameter_name,
}

count_lacking : (c : ℕ) (s : Text) → Lacks c s → count c s ≡ 0
unfolding count contains
count_lacking c [] h = refl
count_lacking c (x ∷ s) h = ground (arith, count_lacking c s)

count-append : (c : ℕ) (s t : Text) → count c (s ++ t) ≡ count c s + count c t
unfolding count
count-append c [] t = omega arith
count-append c (x ∷ s) t = ground (arith, count-append c s t)

pub contains-append : (c : ℕ) (s t : Text) → Lacks c s → Lacks c t → Lacks c (s ++ t)
unfolding contains
contains-append c [] t h k = k
contains-append c (x ∷ s) t h k = ground (arith, contains-append c s t)

-- Literal text opens nothing.
scan_literal : (p s : Text) → Lacks b'{' p → scan none (p ++ s) ≡ scan none s
unfolding scan contains
scan_literal [] s h = refl
scan_literal (c ∷ p) s h = ground (arith, scan_literal p s)

-- An open placeholder runs up to the next closing brace.
scan_placeholder :
    (p s t : Text)
    → Lacks b'{' p
    → Lacks b'}' p
    → scan (some t) (p ++ b'}' ∷ s) ≡ (t ++ p) ∷ scan none s
unfolding scan contains
scan_placeholder [] s t h k = rw append-nil refl
scan_placeholder (c ∷ p) s t h k =
    ground (arith, scan_placeholder p s (t ++ c ∷ []), append_assoc t (c ∷ []) p)

scan_braced :
    (p s : Text)
    → Lacks b'{' p
    → Lacks b'}' p
    → scan none (b'{' ∷ (p ++ b'}' ∷ s)) ≡ p ∷ scan none s
scan_braced p s h k = unfold scan in scan_placeholder p s [] h k

-- A section as the author of a route writes it.
pub data Piece : Type 0 where
  literal : Text → Piece
  placeholder : Text → Piece
  matcher : (name regex : Text) → Piece

-- the text between the braces
abbrev pub body : Piece → Text
body (literal t) = t
body (placeholder name) = name
body (matcher name regex) = name ++ b':' ∷ regex

abbrev pub render : List Piece → Text
render [] = []
render (literal t ∷ ps) = t ++ render ps
render (p ∷ ps) = b'{' ∷ (body p ++ b'}' ∷ render ps)

abbrev pub names : List Piece → List Text
names [] = []
names (literal t ∷ ps) = names ps
names (placeholder name ∷ ps) = name ∷ names ps
names (matcher name regex ∷ ps) = name ∷ names ps

abbrev pub IsName : Text → Type 0
IsName name = (name ≢ []) × Lacks b'{' name × Lacks b'}' name × Lacks b':' name

-- Braces stand only round the placeholders, and names are not empty and have no colon.
abbrev pub IsWellFormed : Piece → Type 0
IsWellFormed (literal t) = Lacks b'{' t × Lacks b'}' t
IsWellFormed (placeholder name) = IsName name
IsWellFormed (matcher name regex) = IsName name × Lacks b'{' regex × Lacks b'}' regex

count-render :
    (ps : List Piece) → All IsWellFormed ps → count b'{' (render ps) ≡ count b'}' (render ps)
unfolding count
count-render [] h = refl
count-render (literal t ∷ ps) h = ground (
  arith,
  count-append b'{' t (render ps),
  count-append b'}' t (render ps),
  count_lacking b'{' t,
  count_lacking b'}' t,
  count-render ps,
)
count-render (placeholder name ∷ ps) h = ground (
  arith,
  count-append b'{' name (b'}' ∷ render ps),
  count-append b'}' name (b'}' ∷ render ps),
  count_lacking b'{' name,
  count_lacking b'}' name,
  count-render ps,
)
count-render (matcher name regex ∷ ps) h = ground (
  arith,
  count-append b'{' (name ++ b':' ∷ regex) (b'}' ∷ render ps),
  count-append b'}' (name ++ b':' ∷ regex) (b'}' ∷ render ps),
  count-append b'{' name (b':' ∷ regex),
  count-append b'}' name (b':' ∷ regex),
  count_lacking b'{' name,
  count_lacking b'}' name,
  count_lacking b'{' regex,
  count_lacking b'}' regex,
  count-render ps,
)

clean_params-split :
    (param name : Text) (more params : List Text)
    → split b':' param ≡ name ∷ more
    → name ≢ []
    → clean_params (param ∷ params) ≡ name ∷ clean_params params
unfolding clean_params
clean_params-split param name more params e h = ground arith

Lacks-matcher :
    (c : ℕ) (name regex : Text)
    → c ≢ b':'
    → Lacks c name
    → Lacks c regex
    → Lacks c (name ++ b':' ∷ regex)
Lacks-matcher c name regex ne h k =
    contains-append c name (b':' ∷ regex) h (unfold contains in ground arith)

clean_params-scan-render :
    (ps : List Piece) → All IsWellFormed ps → clean_params (scan none (render ps)) ≡ names ps
clean_params-scan-render [] h = unfold clean_params scan in refl
clean_params-scan-render (literal t ∷ ps) (h, hs) =
    rw (scan_literal t (render ps) h.0) (clean_params-scan-render ps hs)
clean_params-scan-render (placeholder name ∷ ps) (h, hs) =
    let scanned = scan_braced name (render ps) h.1 h.2 in
    let cleaned =
      clean_params-split name name [] (scan none (render ps)) (split_lacking b':' name h.3) h.0 in
    ap clean_params scanned ∙ cleaned ∙ ap (λ r. name ∷ r) (clean_params-scan-render ps hs)
clean_params-scan-render (matcher name regex ∷ ps) (h, hs) =
    let text = name ++ b':' ∷ regex in
    let open_free = Lacks-matcher b'{' name regex (omega arith) h.0.1 h.1 in
    let close_free = Lacks-matcher b'}' name regex (omega arith) h.0.2 h.2 in
    let scanned = scan_braced text (render ps) open_free close_free in
    let parts = split-append b':' name regex h.0.3 in
    let cleaned =
      clean_params-split text name (split b':' regex) (scan none (render ps)) parts h.0.0 in
    ap clean_params scanned ∙ cleaned ∙ ap (λ r. name ∷ r) (clean_params-scan-render ps hs)

-- From a section of literal text and placeholders, `{name}` or `{name:regex}`, where braces stand
-- only round the placeholders and no name is empty or has a colon, `ExtractParamName` returns the
-- names in their order, without the regular expressions.
pub extract_param_name-render :
    (ps : List Piece) → All IsWellFormed ps → extract_param_name (render ps) ≡ ok (names ps)
extract_param_name-render ps h =
    let extracted = clean_params-scan-render ps h in
    let balanced = (nat_beq_iff _ _).1 (count-render ps h) in
    unfold extract_param_name in rw (balanced, extracted) refl

-- With unequal numbers of braces `ExtractParamName` returns its error, and otherwise never.
pub extract_param_name-eq-err_iff :
    (path : Text) → (extract_param_name path ≡ err mismatched) ↔ (count b'{' path ≢ count b'}' path)
extract_param_name-eq-err_iff path = unfold extract_param_name in ground arith

module _ (is_digit : ℕ → Bool) where
  name_rest_lacking :
      (c : ℕ) (s : Text)
      → is_ascii_letter c ≡ false
      → is_digit c ≡ false
      → c ≢ b'_'
      → name_rest is_digit s ≡ true
      → Lacks c s
  unfolding name_rest contains
  name_rest_lacking c [] h k n v = refl
  name_rest_lacking c (r ∷ s) h k n v = ground (arith, name_rest_lacking c s h k n)

  -- A valid parameter name has no character of the topic and path syntax.
  pub is_valid_parameter_name-Lacks :
      (c : ℕ) (s : Text)
      → is_ascii_letter c ≡ false
      → is_digit c ≡ false
      → c ≢ b'_'
      → is_valid_parameter_name is_digit s ≡ true
      → Lacks c s
  unfolding is_valid_parameter_name contains
  is_valid_parameter_name-Lacks c [] h k n v = refl
  is_valid_parameter_name-Lacks c (r ∷ s) h k n v = ground (arith, name_rest_lacking c s h k n)

  pub is_valid_parameter_name-ne-nil :
      (s : Text) → is_valid_parameter_name is_digit s ≡ true → s ≢ []
  unfolding is_valid_parameter_name
  is_valid_parameter_name-ne-nil s v = ground arith
