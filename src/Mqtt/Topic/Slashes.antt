-- ===== src/Mqtt/Topic/Slashes.antt =====
-- A text whose parts between the slashes are not empty is a clean path.
use go_http_mqtt_boilerplate.Prelude.{
  ℕ, ◌≡◌, ◌≢◌, refl, ◌∙◌, inr, false, List, [], ◌∷◌, ◌++◌, append-nil, Text, contains, has_prefix,
  has_suffix, split, join, All, Lacks, nat_eq, arith,
}
use go_http_mqtt_boilerplate.Prelude.Texts.{join-split, split-All-Lacks, split-ne-nil}
use mathlib.Core.Path.{subst}
use go_http_mqtt_boilerplate.Generate.Sanitize.{has_double}
use go_http_mqtt_boilerplate.Generate.Sanitize.Laws.{IsClean}

abbrev pub IsFilled : Text → Type 0
IsFilled p = p ≢ []

has_prefix_filled : (p s : Text) → IsFilled p → Lacks b'/' p → has_prefix b'/' (p ++ s) ≡ false
unfolding has_prefix contains
has_prefix_filled [] s h k = absurd (h refl)
has_prefix_filled (x ∷ p) s h k = ground arith

has_suffix-append_filled : (p t : Text) → IsFilled t → has_suffix b'/' (p ++ t) ≡ has_suffix b'/' t
unfolding has_suffix
has_suffix-append_filled [] t h = refl
has_suffix-append_filled (x ∷ []) [] h = absurd (h refl)
has_suffix-append_filled (x ∷ []) (y ∷ t) h = refl
has_suffix-append_filled (x ∷ y ∷ p) t h = has_suffix-append_filled (y ∷ p) t h

has_suffix_lacking : (c : ℕ) (s : Text) → Lacks c s → has_suffix c s ≡ false
unfolding has_suffix contains
has_suffix_lacking c [] h = refl
has_suffix_lacking c (x ∷ []) h = ground arith
has_suffix_lacking c (x ∷ y ∷ s) h = ground (arith, has_suffix_lacking c (y ∷ s))

has_double_lacking : (s : Text) → Lacks b'/' s → has_double s ≡ false
unfolding has_double contains
has_double_lacking [] h = refl
has_double_lacking (x ∷ []) h = refl
has_double_lacking (x ∷ y ∷ s) h = ground (arith, has_double_lacking (y ∷ s))

has_double-append_slash :
    (p t : Text)
    → Lacks b'/' p
    → has_prefix b'/' t ≡ false
    → has_double t ≡ false
    → has_double (p ++ b'/' ∷ t) ≡ false
unfolding has_double has_prefix contains
has_double-append_slash [] [] h k d = refl
has_double-append_slash [] (y ∷ t) h k d = ground arith
has_double-append_slash (x ∷ []) t h k d = ground (arith, has_double-append_slash [] t)
has_double-append_slash (x ∷ y ∷ p) t h k d = ground (arith, has_double-append_slash (y ∷ p) t)

append-ne-nil : (p s : Text) → IsFilled p → IsFilled (p ++ s)
append-ne-nil [] s h = absurd (h refl)
append-ne-nil (x ∷ p) s h = ground arith

-- What joining filled parts gives.
pub record IsJoined (s : Text) : Type 0 where
  pub filled : s ≢ []
  pub start : has_prefix b'/' s ≡ false
  pub finish : has_suffix b'/' s ≡ false
  pub single : has_double s ≡ false

join-IsJoined :
    (p : Text) (ps : List Text)
    → All IsFilled (p ∷ ps)
    → All (Lacks b'/') (p ∷ ps)
    → IsJoined (join b'/' (p ∷ ps))
unfolding join
join-IsJoined p [] h k = record {
  filled = h.0;
  start = rw append-nil at (has_prefix_filled p [] h.0 k.0);
  finish = has_suffix_lacking b'/' p k.0;
  single = has_double_lacking p k.0;
}
join-IsJoined p (q ∷ ps) h k =
    let rest = join b'/' (q ∷ ps) in
    let joined = join-IsJoined q ps h.1 k.1 in
    record {
      filled = append-ne-nil p (b'/' ∷ rest) h.0;
      start = has_prefix_filled p (b'/' ∷ rest) h.0 k.0;
      finish =
          has_suffix-append_filled p (b'/' ∷ rest) (λ e. cc e)
          ∙ has_suffix-append_filled (b'/' ∷ []) rest joined.filled
          ∙ joined.finish;
      single = has_double-append_slash p rest k.0 joined.start joined.single;
    }

-- The parts of a text decide whether the text is joined from filled parts.
pub split-IsJoined : (s : Text) → All IsFilled (split b'/' s) → IsJoined s
split-IsJoined s h =
    parts (split b'/' s) (split-ne-nil b'/' s) (join-split b'/' s) h (split-All-Lacks b'/' s)
  where
    parts :
        (ps : List Text)
        → ps ≢ []
        → join b'/' ps ≡ s
        → All IsFilled ps
        → All (Lacks b'/') ps
        → IsJoined s
    parts [] n e f l = absurd (n refl)
    parts (p ∷ ps) n e f l = subst IsJoined e (join-IsJoined p ps f l)

pub IsJoined-IsClean : (s : Text) → IsJoined s → IsClean s
IsJoined-IsClean s j = inr (j.filled, j.single, j.finish)
