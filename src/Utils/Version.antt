-- ===== src/Utils/Version.antt =====
-- backend/pkg/utils/version.go. The build information of `debug.ReadBuildInfo` is a parameter: the Go
-- version and the settings, if there is one. A revision is a text of ASCII letters and digits, whose
-- bytes are its characters.
use go_http_mqtt_boilerplate.Prelude.{
  ℕ, zero, suc, ap, ◌∙◌, ◌≤◌, ◌≡◌, refl, Bool, true, false, Bool-cases, inl, inr, Option, none,
  some, [], ◌∷◌, ◌++◌, length, take, ltb, Text, codes, Map, insert, text_eq_inst, text_eq_iff, ◌==◌,
  ◌||◌, if◌then◌else◌, arith,
}

-- the variables that the linker sets
pub record Build : Type 0 where
  pub version : Text
  pub commit : Text
  pub build_time : Text

pub record BuildInfo : Type 0 where
  pub go_version : Text
  pub settings : Map Text

pub record VcsInfo : Type 0 where
  pub commit : Text
  pub build_time : Text
  pub modified : Text

abbrev pub unknown : Text
unknown = codes "unknown"

-- a variable that was not set
abbrev pub is_unset : Text → Bool
is_unset s = s == unknown || s == []

unfoldable pub short_hash : Text → Text
short_hash commit = if ltb 7 (length commit) then take 7 commit else commit

-- the switch over the key of a setting
unfoldable pub add_setting : Build → Text → Text → VcsInfo → VcsInfo
unfolding short_hash
add_setting build key value info =
    if key == codes "vcs.revision"
    then (if is_unset build.commit then record info { commit = short_hash value } else info)
    else if key == codes "vcs.time"
    then (if is_unset build.build_time then record info { build_time = value } else info)
    else if key == codes "vcs.modified"
    then record info { modified = value }
    else info

unfoldable pub add_settings : Build → Map Text → VcsInfo → VcsInfo
unfolding add_setting
add_settings build [] info = info
add_settings build ((key, value) ∷ settings) info =
    add_settings build settings (add_setting build key value info)

abbrev pub settings_of : Option BuildInfo → Map Text
settings_of none = []
settings_of (some info) = info.settings

unfoldable pub get_vcs_info : Build → Option BuildInfo → VcsInfo
unfolding add_settings
get_vcs_info build info =
    add_settings build (settings_of info)
      (record { commit = build.commit; build_time = build.build_time; modified = codes "false" })

abbrev pub dirty_suffix : Text → Text
dirty_suffix modified = if modified == codes "true" then codes "-dirty" else []

unfoldable pub get_version_short : Build → Option BuildInfo → Text
unfolding get_vcs_info
get_version_short build info =
    let vcs = get_vcs_info build info in
    b'v' ∷ build.version ++ codes " (" ++ vcs.commit ++ dirty_suffix vcs.modified ++ codes ")"

unfoldable pub get_build_version : Build → Option BuildInfo → Text
unfolding get_version_short get_vcs_info
get_build_version build info =
    let vcs = get_vcs_info build info in
    b'v' ∷ build.version
    ++ codes " ("
    ++ vcs.commit
    ++ dirty_suffix vcs.modified
    ++ codes ") built at "
    ++ vcs.build_time

unfoldable pub get_build_info : Build → Option BuildInfo → Map Text
unfolding get_vcs_info
get_build_info build info =
    let vcs = get_vcs_info build info in
    let fields =
      (codes "version", build.version)
      ∷ (codes "commit", vcs.commit)
      ∷ (codes "build_time", vcs.build_time)
      ∷ (codes "vcs_modified", vcs.modified)
      ∷ [] in
    elim info [ none ↦ fields | some b ↦ insert (codes "go_version") b.go_version fields ]

take-all : (n : ℕ) (xs : Text) → length xs ≤ n → take n xs ≡ xs
take-all zero [] h = refl
take-all zero (x ∷ xs) h = ground arith
take-all (suc n) [] h = refl
take-all (suc n) (x ∷ xs) h = ap (◌∷◌ x) (take-all n xs (omega (arith, h)))

short_hash-take : (commit : Text) → short_hash commit ≡ take 7 commit
unfolding short_hash
short_hash-take commit = elim (Bool-cases (ltb 7 (length commit))) [
  | inl long ↦ ground (arith, long)
  | inr short ↦ ground (arith, short, take-all 7 commit (ground (arith, short)))
]

-- The value of the last setting with the key, or what was there before the settings.
unfoldable pub last_setting : Text → Option Text → Map Text → Option Text
last_setting key before [] = before
last_setting key before ((k, value) ∷ settings) =
    last_setting key (if k == key then some value else before) settings

abbrev pub or_else : Text → Option Text → Text
or_else default none = default
or_else default (some value) = value

-- a revision by its first seven characters
abbrev pub shortened : Option Text → Option Text
shortened none = none
shortened (some value) = some (take 7 value)

-- What is shown: what the linker has set, and otherwise what the last settings of the build say, of a
-- revision its first seven characters.
pub record IsShown (build : Build) (settings : Map Text) (info : VcsInfo) : Type 0 where
  pub linked_commit : is_unset build.commit ≡ false → info.commit ≡ build.commit
  pub commit :
      is_unset build.commit ≡ true
      → info.commit
        ≡ or_else build.commit (shortened (last_setting (codes "vcs.revision") none settings))
  pub linked_time : is_unset build.build_time ≡ false → info.build_time ≡ build.build_time
  pub time :
      is_unset build.build_time ≡ true
      → info.build_time ≡ or_else build.build_time (last_setting (codes "vcs.time") none settings)
  pub modified :
      info.modified ≡ or_else (codes "false") (last_setting (codes "vcs.modified") none settings)

add_settings-linked :
    (build : Build) (settings : Map Text) (info : VcsInfo)
    → (is_unset build.commit ≡ false → (add_settings build settings info).commit ≡ info.commit)
      × (is_unset build.build_time ≡ false
          → (add_settings build settings info).build_time ≡ info.build_time)
unfolding add_settings add_setting
add_settings-linked build [] info = (λ h. refl, λ h. refl)
add_settings-linked build ((key, value) ∷ settings) info =
    let later = add_settings-linked build settings (add_setting build key value info) in
    (λ h. later.0 h ∙ ground (arith, h), λ h. later.1 h ∙ ground (arith, h))

add_settings-commit :
    (build : Build) (settings : Map Text) (info : VcsInfo) (before : Option Text)
    → is_unset build.commit ≡ true
    → info.commit ≡ or_else build.commit (shortened before)
    → (add_settings build settings info).commit
      ≡ or_else build.commit (shortened (last_setting (codes "vcs.revision") before settings))
unfolding add_settings add_setting last_setting
add_settings-commit build [] info before unset h = h
add_settings-commit build ((key, value) ∷ settings) info before unset h =
    add_settings-commit build settings (add_setting build key value info) _ unset
      (ground (arith, h, unset, short_hash-take value))

add_settings-time :
    (build : Build) (settings : Map Text) (info : VcsInfo) (before : Option Text)
    → is_unset build.build_time ≡ true
    → info.build_time ≡ or_else build.build_time before
    → (add_settings build settings info).build_time
      ≡ or_else build.build_time (last_setting (codes "vcs.time") before settings)
unfolding add_settings add_setting last_setting
add_settings-time build [] info before unset h = h
add_settings-time build ((key, value) ∷ settings) info before unset h =
    add_settings-time build settings (add_setting build key value info) _ unset (
      ground (
        arith,
        h,
        unset,
        text_eq_iff key (codes "vcs.revision"),
        text_eq_iff key (codes "vcs.time"),
      ))

add_settings-modified :
    (build : Build) (settings : Map Text) (info : VcsInfo) (before : Option Text)
    → info.modified ≡ or_else (codes "false") before
    → (add_settings build settings info).modified
      ≡ or_else (codes "false") (last_setting (codes "vcs.modified") before settings)
unfolding add_settings add_setting last_setting
add_settings-modified build [] info before h = h
add_settings-modified build ((key, value) ∷ settings) info before h =
    add_settings-modified build settings (add_setting build key value info) _ (
      ground (
        arith,
        h,
        text_eq_iff key (codes "vcs.revision"),
        text_eq_iff key (codes "vcs.time"),
        text_eq_iff key (codes "vcs.modified"),
      ))

-- The commit and the time of the version texts are those of the linker where it set one, and otherwise
-- those of the last settings `vcs.revision` and `vcs.time`, the revision cut to its first seven
-- characters; without such a setting they stay as the linker left them. The mark of a modified tree
-- is that of the last setting `vcs.modified`, or `false`.
pub get_vcs_info-IsShown :
    (build : Build) (info : Option BuildInfo)
    → IsShown build (settings_of info) (get_vcs_info build info)
unfolding get_vcs_info
get_vcs_info-IsShown build info =
    let settings = settings_of info in
    let linked = add_settings-linked build settings _ in
    record {
      linked_commit = linked.0;
      commit = λ unset. add_settings-commit build settings _ none unset refl;
      linked_time = linked.1;
      time = λ unset. add_settings-time build settings _ none unset refl;
      modified = add_settings-modified build settings _ none refl;
    }
