-- ===== src/Prelude/Texts/Defs.antt =====
-- The text operations. The second argument of the Go function is a text of one character.
use Prim.Native.Nat.{ℕ, suc}
use Prim.Native.Char.{code}
use Prim.Native.String.{String}
use mathlib.Core.Path.{◌≡◌}
use mathlib.Core.Logic.{◌↔◌}
use mathlib.Core.Bool.{Bool, true, false, ◌&&◌, ◌||◌}
use mathlib.Core.List.{List, [], ◌∷◌, ◌++◌}
use native.Mathlib.Omega.{arith}
use go_http_mqtt_boilerplate.Prelude.Tests.{Eq, ◌==◌, nat_beq, nat_eq, if◌then◌else◌}

abbrev pub Text : Type 0
Text = List ℕ

-- A literal of the source.
abbrev pub codes : String → Text
codes String.[] = []
codes (String.◌∷◌ c s) = code c ∷ codes s

unfoldable pub text_eq : Text → Text → Bool
text_eq [] [] = true
text_eq (x ∷ s) (y ∷ t) = nat_beq x y && text_eq s t
text_eq _ _ = false

pub text_eq_iff : (s t : Text) → (text_eq s t ≡ true) ↔ (s ≡ t)
unfolding text_eq
text_eq_iff [] [] = ground arith
text_eq_iff [] (y ∷ t) = ground arith
text_eq_iff (x ∷ s) [] = ground arith
text_eq_iff (x ∷ s) (y ∷ t) = ground (arith, text_eq_iff s t)

instance abbrev pub text_eq_inst : Eq Text
text_eq_inst = record { same = text_eq; same_iff = text_eq_iff }

-- strings.Contains
unfoldable pub contains : ℕ → Text → Bool
contains c [] = false
contains c (x ∷ s) = (x == c) || contains c s

-- strings.Count
unfoldable pub count : ℕ → Text → ℕ
count c [] = 0
count c (x ∷ s) = let n = count c s in if x == c then suc n else n

-- strings.HasPrefix
unfoldable pub has_prefix : ℕ → Text → Bool
has_prefix c [] = false
has_prefix c (x ∷ s) = x == c

-- strings.HasSuffix
unfoldable pub has_suffix : ℕ → Text → Bool
has_suffix c [] = false
has_suffix c (x ∷ []) = x == c
has_suffix c (x ∷ y ∷ s) = has_suffix c (y ∷ s)

-- strings.TrimSuffix
unfoldable pub trim_suffix : ℕ → Text → Text
trim_suffix c [] = []
trim_suffix c (x ∷ []) = if x == c then [] else x ∷ []
trim_suffix c (x ∷ y ∷ s) = x ∷ trim_suffix c (y ∷ s)

-- strings.TrimPrefix
unfoldable pub trim_prefix : ℕ → Text → Text
trim_prefix c [] = []
trim_prefix c (x ∷ s) = if x == c then s else x ∷ s

abbrev pub cons_head : ℕ → List Text → List Text
cons_head x [] = (x ∷ []) ∷ []
cons_head x (p ∷ ps) = (x ∷ p) ∷ ps

-- strings.Split and strings.SplitSeq
unfoldable pub split : ℕ → Text → List Text
split c [] = [] ∷ []
split c (x ∷ s) = let rest = split c s in if x == c then [] ∷ rest else cons_head x rest

-- strings.Join
unfoldable pub join : ℕ → List Text → Text
join c [] = []
join c (p ∷ []) = p
join c (p ∷ q ∷ ps) = p ++ c ∷ join c (q ∷ ps)
