-- ===== src/Prelude/Texts/Split.antt =====
-- Splitting and joining are inverse.
use Prim.Native.Nat.{ℕ}
use mathlib.Core.Path.{◌≡◌, refl, ap, ◌∙◌}
use mathlib.Core.Logic.{◌≢◌, inl, inr}
use mathlib.Core.Bool.{false}
use mathlib.Core.List.{List, [], ◌∷◌, ◌++◌}
use native.Mathlib.Omega.{arith}
use go_http_mqtt_boilerplate.Prelude.Tests.{◌==◌, nat_eq, Bool-cases}
use go_http_mqtt_boilerplate.Prelude.Lists.{All}
use go_http_mqtt_boilerplate.Prelude.Texts.Defs.{Text, cons_head, contains, split, join}

abbrev pub Lacks : ℕ → Text → Type 0
Lacks c s = contains c s ≡ false

pub split-ne-nil : (c : ℕ) (s : Text) → split c s ≢ []
unfolding split
split-ne-nil c [] = ground arith
split-ne-nil c (x ∷ s) = ground (arith, split-ne-nil c s)

pub split-All-Lacks : (c : ℕ) (s : Text) → All (Lacks c) (split c s)
unfolding split contains
split-All-Lacks c [] = (refl, tt)
split-All-Lacks c (x ∷ s) = ground (arith, split-All-Lacks c s)

join-cons_head : (c x : ℕ) (ps : List Text) → join c (cons_head x ps) ≡ x ∷ join c ps
unfolding join
join-cons_head c x [] = refl
join-cons_head c x (p ∷ []) = refl
join-cons_head c x (p ∷ q ∷ ps) = refl

join-nil-cons : (c : ℕ) (ps : List Text) → ps ≢ [] → join c ([] ∷ ps) ≡ c ∷ join c ps
unfolding join
join-nil-cons c [] h = absurd (h refl)
join-nil-cons c (p ∷ ps) h = refl

pub join-split : (c : ℕ) (s : Text) → join c (split c s) ≡ s
unfolding split
join-split c [] = unfold join in refl
join-split c (x ∷ s) = elim (Bool-cases (x == c)) [
  | inl same ↦ ground (arith, join-split c s, join-nil-cons c (split c s) (split-ne-nil c s))
  | inr other ↦ rw other (join-cons_head c x (split c s) ∙ ap (λ t. x ∷ t) (join-split c s))
]

pub split_lacking : (c : ℕ) (p : Text) → Lacks c p → split c p ≡ p ∷ []
unfolding split contains
split_lacking c [] h = refl
split_lacking c (x ∷ p) h = ground (arith, split_lacking c p)

pub split-append : (c : ℕ) (p s : Text) → Lacks c p → split c (p ++ c ∷ s) ≡ p ∷ split c s
unfolding split contains
split-append c [] s h = ground arith
split-append c (x ∷ p) s h = ground (arith, split-append c p s)

pub split-join :
    (c : ℕ) (p : Text) (ps : List Text)
    → All (Lacks c) (p ∷ ps)
    → split c (join c (p ∷ ps)) ≡ p ∷ ps
unfolding join
split-join c p [] h = split_lacking c p h.0
split-join c p (q ∷ ps) h =
    ground (arith, split-append c p (join c (q ∷ ps)) h.0, split-join c q ps h.1)
