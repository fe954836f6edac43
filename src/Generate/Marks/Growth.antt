-- ===== src/Generate/Marks/Growth.antt =====
-- What the marks of types and their references are, and what a change of the marks keeps.
use go_http_mqtt_boilerplate.Prelude.{
  ℕ, suc, ◌≤◌, ◌≡◌, ◌≢◌, refl, sym, ◌∙◌, Bool, true, false, Option, none, some, List, [], ◌∷◌, All,
  length, Text, lookup, insert, has_key, lookup-insert, text_eq_iff, text_eq_inst, ◌==◌,
  if◌then◌else◌, arith,
}
use go_http_mqtt_boilerplate.Generate.DocTypes.{TypeInfo}
use go_http_mqtt_boilerplate.Generate.Marks.{Types, ProtocolType, http, mqtt, is_used_by, use_by}

-- the type without its mark for the protocol
abbrev pub erased : ProtocolType → TypeInfo → TypeInfo
erased http info = record info { used_by_http = false }
erased mqtt info = record info { used_by_mqtt = false }

module _ (p : ProtocolType) where
  abbrev used : Option TypeInfo → Bool
  used none = false
  used (some info) = is_used_by p info

  abbrev references_in : Option TypeInfo → List Text
  references_in none = []
  references_in (some info) = info.references

  -- the type is known and has the mark
  unfoldable pub is_marked : Text → Types → Bool
  is_marked k types = used (lookup k types)

  unfoldable pub references_of : Text → Types → List Text
  references_of k types = references_in (lookup k types)

  -- A name that, if a known type has it, has the mark.
  abbrev pub IsReached : Types → Text → Type 0
  IsReached types k = k ≢ [] → has_key k types ≡ true → is_marked k types ≡ true

  -- Everything that a marked type refers to has the mark.
  unfoldable pub IsClosed : Types → Type 0
  IsClosed types =
      (k : Text) → is_marked k types ≡ true → All (IsReached types) (references_of k types)

  abbrev erased_in : Option TypeInfo → Option TypeInfo
  erased_in none = none
  erased_in (some info) = some (erased p info)

  -- the known type without its mark
  unfoldable pub rest_of : Text → Types → Option TypeInfo
  rest_of k types = erased_in (lookup k types)

  -- Types are only marked, as far as their names, their references and the marks go.
  pub record Grows (before after : Types) : Type 0 where
    pub keys : (k : Text) → has_key k after ≡ has_key k before
    pub references : (k : Text) → references_of k after ≡ references_of k before
    pub marks : (k : Text) → is_marked k before ≡ true → is_marked k after ≡ true

  -- Apart from the marks, the types are the same.
  abbrev pub SameRest : Types → Types → Type 0
  SameRest before after = (k : Text) → rest_of k after ≡ rest_of k before

  pub open_count : Types → ℕ
  open_count [] = 0
  open_count ((k, info) ∷ types) =
      let rest = open_count types in if is_used_by p info then rest else suc rest

  pub use_by-marks : (info : TypeInfo) → is_used_by p (use_by p info) ≡ true
  unfolding is_used_by use_by
  use_by-marks info = elim p as (λ q. is_used_by q (use_by q info) ≡ true) [
    | http ↦ refl
    | mqtt ↦ refl
  ]

  pub use_by-references : (info : TypeInfo) → (use_by p info).references ≡ info.references
  unfolding use_by
  use_by-references info = elim p as (λ q. (use_by q info).references ≡ info.references) [
    | http ↦ refl
    | mqtt ↦ refl
  ]

  pub erased-use_by : (info : TypeInfo) → erased p (use_by p info) ≡ erased p info
  unfolding use_by
  erased-use_by info = elim p as (λ q. erased q (use_by q info) ≡ erased q info) [
    | http ↦ refl
    | mqtt ↦ refl
  ]

  pub open_count-length : (types : Types) → open_count types ≤ length types
  unfolding open_count
  open_count-length [] = ground arith
  open_count-length ((k, info) ∷ types) = ground (arith, open_count-length types)

  pub open_count-insert :
      (name : Text) (info : TypeInfo) (types : Types)
      → lookup name types ≡ some info
      → is_used_by p info ≡ false
      → suc (open_count (insert name (use_by p info) types)) ≡ open_count types
  unfolding open_count insert lookup
  open_count-insert name info [] h u = ground arith
  open_count-insert name info ((k, old) ∷ types) h u =
      ground (arith, open_count-insert name info types, use_by-marks info, text_eq_iff k name)

  module _ (name : Text) (info : TypeInfo) (types : Types) (h : lookup name types ≡ some info) where
    pub is_marked-insert :
        (k : Text)
        → is_marked k (insert name (use_by p info) types)
          ≡ (if name == k then true else is_marked k types)
    unfolding is_marked
    is_marked-insert k =
        ground (arith, lookup-insert name k (use_by p info) types, use_by-marks info)

    pub Grows-insert : Grows types (insert name (use_by p info) types)
    unfolding is_marked references_of
    Grows-insert = record {
      keys = λ k. ground (arith, lookup-insert name k (use_by p info) types, text_eq_iff name k);
      references = λ k. ground (
        arith,
        lookup-insert name k (use_by p info) types,
        text_eq_iff name k,
        use_by-references info,
      );
      marks = λ k m. ground (arith, lookup-insert name k (use_by p info) types, use_by-marks info);
    }

    pub SameRest-insert : SameRest types (insert name (use_by p info) types)
    unfolding rest_of
    SameRest-insert k =
        ground (
          arith,
          lookup-insert name k (use_by p info) types,
          text_eq_iff name k,
          erased-use_by info,
        )

  pub Grows-refl : (types : Types) → Grows types types
  Grows-refl types = record { keys = λ k. refl; references = λ k. refl; marks = λ k m. m }

  pub Grows-trans : {a b c : Types} → Grows a b → Grows b c → Grows a c
  Grows-trans g g' = record {
    keys = λ k. g'.keys k ∙ g.keys k;
    references = λ k. g'.references k ∙ g.references k;
    marks = λ k m. g'.marks k (g.marks k m);
  }

  pub IsReached-Grows : {a b : Types} (k : Text) → Grows a b → IsReached a k → IsReached b k
  IsReached-Grows k g r nonempty known = g.marks k (r nonempty (sym (g.keys k) ∙ known))

  pub All-IsReached :
      {a b : Types} (ks : List Text) → Grows a b → All (IsReached a) ks → All (IsReached b) ks
  All-IsReached [] g r = tt
  All-IsReached (k ∷ ks) g (r, rs) = (IsReached-Grows k g r, All-IsReached ks g rs)
