-- ===== src/Generate/Sanitize.antt =====
-- `SanitizePath` of backend/pkg/generate/helpers.go. Its `for` loop takes fuel: the length of the
-- path, since each round that runs makes the path shorter.
pub mod Laws
use go_http_mqtt_boilerplate.Prelude.{
  ℕ, zero, suc, Bool, false, ◌&&◌, ◌||◌, [], ◌∷◌, length, Text, trim_suffix, ◌==◌, nat_eq,
  if◌then◌else◌,
}

-- strings.Contains(path, "//")
unfoldable pub has_double : Text → Bool
has_double [] = false
has_double (x ∷ []) = false
has_double (x ∷ y ∷ s) = (x == b'/' && y == b'/') || has_double (y ∷ s)

-- strings.ReplaceAll(path, "//", "/"): the occurrences do not overlap
unfoldable pub squeeze : Text → Text
squeeze [] = []
squeeze (x ∷ []) = x ∷ []
squeeze (x ∷ y ∷ s) =
    let replaced = b'/' ∷ squeeze s in
    let kept = x ∷ squeeze (y ∷ s) in if x == b'/' && y == b'/' then replaced else kept

unfoldable pub sanitize_loop : ℕ → Text → Text
sanitize_loop zero path = path
sanitize_loop (suc fuel) path =
    let rest = sanitize_loop fuel (squeeze path) in if has_double path then rest else path

-- `if cleanPath == "" { cleanPath = "/" }`
abbrev pub or_root : Text → Text
or_root [] = b'/' ∷ []
or_root (x ∷ s) = x ∷ s

unfoldable pub sanitize_path : Text → Text
unfolding sanitize_loop squeeze has_double trim_suffix
sanitize_path path = or_root (trim_suffix b'/' (sanitize_loop (length path) path))
