-- ===== src/Prelude/Maps.antt =====
-- Go maps with text keys as association lists, in the order in which `range` visits them. Go leaves
-- that order open, so the theorems hold for every list.
use mathlib.Core.Path.{◌≡◌, refl, subst}
use mathlib.Core.Logic.{◌⊎◌, inl, inr}
use mathlib.Core.Bool.{Bool, true, false}
use mathlib.Core.Option.{Option, none, some}
use mathlib.Core.List.{List, [], ◌∷◌}
use native.Mathlib.Omega.{arith}
use go_http_mqtt_boilerplate.Prelude.Tests.{◌==◌, if◌then◌else◌, is_some, Bool-cases}
use go_http_mqtt_boilerplate.Prelude.Lists.{All, All-imp}
use go_http_mqtt_boilerplate.Prelude.Texts.{Text, text_eq_iff, text_eq_inst}

abbrev pub Map {ℓ} : Type ℓ → Type ℓ
Map V = List (Text × V)

module _ {ℓ} {V : Type ℓ} where
  -- m[k], with `ok`
  unfoldable pub lookup : Text → Map V → Option V
  lookup key [] = none
  lookup key ((k, v) ∷ entries) = if k == key then some v else lookup key entries

  -- _, exists := m[k]
  abbrev pub has_key : Text → Map V → Bool
  has_key key entries = is_some (lookup key entries)

  -- m[k] = v
  unfoldable pub insert : Text → V → Map V → Map V
  insert key new [] = (key, new) ∷ []
  insert key new ((k, v) ∷ entries) =
      let rest = insert key new entries in if k == key then (key, new) ∷ entries else (k, v) ∷ rest

  pub lookup-insert :
      (key asked : Text) (new : V) (entries : Map V)
      → lookup asked (insert key new entries)
        ≡ (if key == asked then some new else lookup asked entries)
  unfolding lookup insert
  lookup-insert key asked new [] = refl
  lookup-insert key asked new ((k, v) ∷ entries) = ground (
    arith,
    lookup-insert key asked new entries,
    text_eq_iff k key,
    text_eq_iff key asked,
    text_eq_iff k asked,
  )

  -- Where an entry of an updated map comes from.
  pub lookup-insert_inv :
      (k j : Text) (v w : V) (m : Map V)
      → lookup j (insert k v m) ≡ some w
      → ((k ≡ j) × (v ≡ w)) ⊎ (lookup j m ≡ some w)
  lookup-insert_inv k j v w m h = ground (arith, lookup-insert k j v m, text_eq_iff k j)

-- A property of all values is kept by an update to a value that has it.
pub All-insert {ℓ κ} :
    {V : Type ℓ} (Q : V → Type κ) (k : Text) (v : V) (m : Map V)
    → Q v
    → All (λ e. Q e.1) m
    → All (λ e. Q e.1) (insert k v m)
unfolding insert
All-insert Q k v [] q h = (q, tt)
All-insert Q k v ((j, w) ∷ m) q (p, h) =
    let rest = All-insert Q k v m q h in
    elim (j == k) as (λ b. All (λ e. Q e.1) (if b then (k, v) ∷ m else (j, w) ∷ insert k v m)) [
      | true ↦ (q, h)
      | false ↦ (p, rest)
    ]

module _ {ℓ} {V : Type ℓ} where
  -- The keys of the entries differ, as those of a Go map do.
  abbrev pub Distinct : Map V → Type 0
  Distinct [] = Unit
  Distinct ((k, v) ∷ m) = (has_key k m ≡ false) × Distinct m

  pub has_key-insert :
      (k asked : Text) (v : V) (m : Map V)
      → has_key asked (insert k v m) ≡ (if k == asked then true else has_key asked m)
  has_key-insert k asked v m = ground (arith, lookup-insert k asked v m)

  pub Distinct-insert : (k : Text) (v : V) (m : Map V) → Distinct m → Distinct (insert k v m)
  unfolding insert lookup
  Distinct-insert k v [] d = (refl, tt)
  Distinct-insert k v ((j, w) ∷ m) (d, ds) = elim (Bool-cases (j == k)) [
    | inl same ↦
        let e : (k, v) ∷ m ≡ insert k v ((j, w) ∷ m) = ground (arith, same) in
        subst Distinct e (subst (λ i. has_key i m ≡ false) ((text_eq_iff j k).0 same) d, ds)
    | inr other ↦
        let e : (j, w) ∷ insert k v m ≡ insert k v ((j, w) ∷ m) = ground (arith, other) in
        subst Distinct e (
          ground (arith, has_key-insert k j v m, d, other, text_eq_iff j k, text_eq_iff k j),
          Distinct-insert k v m ds,
        )
  ]

  pub Distinct-lookup : (m : Map V) → Distinct m → All (λ e. lookup e.0 m ≡ some e.1) m
  unfolding lookup
  Distinct-lookup [] d = tt
  Distinct-lookup ((k, v) ∷ m) (d, ds) = (
    ground (arith, text_eq_iff k k),
    All-imp (λ e. lookup e.0 m ≡ some e.1) _
        (λ e found. ground (arith, found, d, text_eq_iff k e.0)) m (Distinct-lookup m ds),
  )

-- A property of all entries holds of those that are found.
pub All-lookup {ℓ κ} :
    {V : Type ℓ} (P : Text → V → Type κ) (m : Map V) (k : Text) (v : V)
    → All (λ e. P e.0 e.1) m
    → lookup k m ≡ some v
    → P k v
unfolding lookup
All-lookup P [] k v h found = ground (arith, found)
All-lookup P ((j, w) ∷ m) k v (p, h) found = elim (Bool-cases (j == k)) [
  | inl same ↦
      let e : w ≡ v = ground (arith, found, same) in
      subst (λ u. P k u) e (subst (λ i. P i w) ((text_eq_iff j k).0 same) p)
  | inr other ↦ All-lookup P m k v h (ground (arith, found, other))
]
