-- ===== src/Generate/Sanitize/Laws.antt =====
-- What `SanitizePath` returns: every run of slashes becomes one slash, one slash at the end goes,
-- and the empty path becomes the root.
use go_http_mqtt_boilerplate.Prelude.{
  ℕ, zero, suc, ◌≤◌, ◌<◌, ◌≡◌, refl, ap, ◌≢◌, ◌↔◌, ◌⊎◌, inl, inr, true, false, ◌&&◌, [], ◌∷◌,
  length, Text, trim_suffix, has_prefix, has_suffix, ◌==◌, nat_eq, if◌then◌else◌, arith,
}
use mathlib.Core.Path.{subst}
use native.Mathlib.Nat.{le_refl}
use go_http_mqtt_boilerplate.Generate.Sanitize.{
  has_double, squeeze, sanitize_loop, or_root, sanitize_path,
}

-- The specification: one slash for each run of slashes.
unfoldable pub collapse : Text → Text
collapse [] = []
collapse (x ∷ []) = x ∷ []
collapse (x ∷ y ∷ s) =
    let rest = collapse (y ∷ s) in if x == b'/' && y == b'/' then rest else x ∷ rest

length-squeeze : (s : Text) → length (squeeze s) ≤ length s
unfolding squeeze
length-squeeze [] = omega arith
length-squeeze (x ∷ []) = omega arith
length-squeeze (x ∷ y ∷ s) = ground (arith, length-squeeze s, length-squeeze (y ∷ s))

length-squeeze_lt : (s : Text) → has_double s ≡ true → length (squeeze s) < length s
unfolding squeeze has_double
length-squeeze_lt (x ∷ y ∷ s) h = ground (arith, length-squeeze s, length-squeeze_lt (y ∷ s))
length-squeeze_lt [] h = ground arith
length-squeeze_lt (x ∷ []) h = ground arith

collapse_of_no_double : (s : Text) → has_double s ≡ false → collapse s ≡ s
unfolding collapse has_double
collapse_of_no_double [] h = refl
collapse_of_no_double (x ∷ []) h = refl
collapse_of_no_double (x ∷ y ∷ s) h = ground (arith, collapse_of_no_double (y ∷ s))

has_double-collapse : (s : Text) → has_double (collapse s) ≡ false
unfolding collapse has_double
has_double-collapse [] = refl
has_double-collapse (x ∷ []) = refl
has_double-collapse (x ∷ y ∷ []) = ground arith
has_double-collapse (x ∷ y ∷ z ∷ s) = ground (arith, has_double-collapse (y ∷ z ∷ s))

collapse-cons :
    (x : ℕ) (t : Text)
    → collapse (x ∷ t) ≡ (if x == b'/' && has_prefix b'/' t then collapse t else x ∷ collapse t)
unfolding collapse has_prefix
collapse-cons x [] = ground arith
collapse-cons x (y ∷ t) = refl

has_prefix-squeeze : (s : Text) → has_prefix b'/' (squeeze s) ≡ has_prefix b'/' s
unfolding has_prefix squeeze
has_prefix-squeeze [] = refl
has_prefix-squeeze (x ∷ []) = refl
has_prefix-squeeze (x ∷ y ∷ s) = ground arith

collapse-squeeze : (s : Text) → collapse (squeeze s) ≡ collapse s
unfolding squeeze has_prefix
collapse-squeeze [] = refl
collapse-squeeze (x ∷ []) = refl
collapse-squeeze (x ∷ y ∷ s) = ground (
  arith,
  collapse-cons x (y ∷ s),
  collapse-cons y s,
  collapse-cons b'/' (squeeze s),
  collapse-cons x (squeeze (y ∷ s)),
  has_prefix-squeeze s,
  has_prefix-squeeze (y ∷ s),
  collapse-squeeze s,
  collapse-squeeze (y ∷ s),
)

-- With fuel for the length of the path the loop reaches a path without double slashes.
sanitize_loop-eq-collapse :
    (fuel : ℕ) (s : Text) → length s ≤ fuel → sanitize_loop fuel s ≡ collapse s
unfolding sanitize_loop
sanitize_loop-eq-collapse zero [] h = unfold collapse in refl
sanitize_loop-eq-collapse zero (x ∷ s) h = absurd (omega arith)
sanitize_loop-eq-collapse (suc fuel) s h = ground (
  arith,
  collapse-squeeze s,
  collapse_of_no_double s,
  length-squeeze_lt s,
  sanitize_loop-eq-collapse fuel (squeeze s),
)

-- The path that `SanitizePath` returns is the one of the specification: each run of slashes is one
-- slash, a slash at the end is dropped, and "/" stands for the empty path.
pub sanitize_path-eq-collapse :
    (path : Text) → sanitize_path path ≡ or_root (trim_suffix b'/' (collapse path))
unfolding sanitize_path
sanitize_path-eq-collapse path =
    ap (λ t. or_root (trim_suffix b'/' t))
      (sanitize_loop-eq-collapse (length path) path (le_refl _))

has_double-trim_suffix : (s : Text) → has_double s ≡ false → has_double (trim_suffix b'/' s) ≡ false
unfolding has_double trim_suffix
has_double-trim_suffix [] h = refl
has_double-trim_suffix (x ∷ []) h = ground arith
has_double-trim_suffix (x ∷ y ∷ []) h = ground arith
has_double-trim_suffix (x ∷ y ∷ z ∷ s) h = ground (arith, has_double-trim_suffix (y ∷ z ∷ s))

has_suffix-trim_suffix :
    (s : Text) → has_double s ≡ false → has_suffix b'/' (trim_suffix b'/' s) ≡ false
unfolding has_double trim_suffix has_suffix
has_suffix-trim_suffix [] h = refl
has_suffix-trim_suffix (x ∷ []) h = ground arith
has_suffix-trim_suffix (x ∷ y ∷ []) h = ground arith
has_suffix-trim_suffix (x ∷ y ∷ z ∷ s) h = ground (arith, has_suffix-trim_suffix (y ∷ z ∷ s))

trim_suffix_of_no_suffix : (s : Text) → has_suffix b'/' s ≡ false → trim_suffix b'/' s ≡ s
unfolding trim_suffix has_suffix
trim_suffix_of_no_suffix [] h = refl
trim_suffix_of_no_suffix (x ∷ []) h = ground arith
trim_suffix_of_no_suffix (x ∷ y ∷ s) h = ground (arith, trim_suffix_of_no_suffix (y ∷ s))

-- The paths that the callers of `SanitizePath` accept: the root, or a path that is not empty and
-- has no double slash and no slash at its end.
abbrev pub IsClean : Text → Type 0
IsClean s = (s ≡ b'/' ∷ []) ⊎ ((s ≢ []) × (has_double s ≡ false) × (has_suffix b'/' s ≡ false))

or_root-IsClean :
    (s : Text) → has_double s ≡ false → has_suffix b'/' s ≡ false → IsClean (or_root s)
or_root-IsClean [] h k = inl refl
or_root-IsClean (x ∷ s) h k = inr (ground arith, h, k)

-- Whatever the path, the sanitized path is clean.
pub sanitize_path-IsClean : (path : Text) → IsClean (sanitize_path path)
sanitize_path-IsClean path = rw (sanitize_path-eq-collapse path) (
    or_root-IsClean _ (has_double-trim_suffix _ (has_double-collapse path))
      (has_suffix-trim_suffix _ (has_double-collapse path)))

sanitize_path_of_IsClean : (path : Text) → IsClean path → sanitize_path path ≡ path
sanitize_path_of_IsClean path (inl root) = rw root (unfold sanitize_path in refl)
sanitize_path_of_IsClean [] (inr h) = absurd (h.0 refl)
sanitize_path_of_IsClean (x ∷ s) (inr h) =
    rw (sanitize_path-eq-collapse, collapse_of_no_double _ h.1, trim_suffix_of_no_suffix _ h.2) refl

-- A path is its own sanitized form exactly when it is clean: this is the check that `RouteBuilder.add`
-- and `RegisterSubscribe` make.
pub sanitize_path-eq_self_iff : (path : Text) → (sanitize_path path ≡ path) ↔ IsClean path
sanitize_path-eq_self_iff path =
    (λ e. subst IsClean e (sanitize_path-IsClean path), sanitize_path_of_IsClean path)

-- Sanitizing twice is sanitizing once.
pub sanitize_path_idempotent :
    (path : Text) → sanitize_path (sanitize_path path) ≡ sanitize_path path
sanitize_path_idempotent path =
    sanitize_path_of_IsClean (sanitize_path path) (sanitize_path-IsClean path)
