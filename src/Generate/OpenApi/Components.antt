-- ===== src/Generate/OpenApi/Components.antt =====
-- The components of the document: a schema for each type that HTTP uses, and no `$ref` that dangles.
use go_http_mqtt_boilerplate.Prelude.{
  ◌≡◌, refl, true, false, Bool-cases, inl, inr, some, [], ◌∷◌, All, All-imp, All-member, All-insert,
  Distinct, Distinct-lookup, Text, Map, lookup, insert, has_key, lookup-insert, member, text_eq_iff,
  text_eq_inst, ◌==◌, ok, ◌>>=◌, wrap, bind-ok_inv, wrap-ok_inv, ok-inj, arith,
}
use mathlib.Core.Path.{subst}
use go_http_mqtt_boilerplate.Generate.DocTypes.{TypeInfo}
use go_http_mqtt_boilerplate.Generate.Marks.{Types, http, is_used_by}
use go_http_mqtt_boilerplate.Generate.Marks.Growth.{is_marked, references_of, IsReached, IsClosed}
use go_http_mqtt_boilerplate.Generate.OpenApi.Schema.{Schema, SchemaRef, value, ref_text}
use go_http_mqtt_boilerplate.Generate.OpenApi.Types.{to_open_api_schema}
use go_http_mqtt_boilerplate.Generate.OpenApi.Refs.{schema_refs, refs_in}
use go_http_mqtt_boilerplate.Generate.OpenApi.Closed.{type_refs, to_open_api_schema-All}
use go_http_mqtt_boilerplate.Generate.OpenApi.Document.{
  in_component, add_component_schemas, build_component_schemas,
}

-- Types as they are extracted from Go packages that declare all that they name: the keys are
-- distinct and not empty, and the declaration of a type names only known types, which its
-- references list.
pub record IsResolved (types : Types) : Type 0 where
  pub unnamed : has_key [] types ≡ false
  pub distinct : Distinct types
  pub known :
      (name : Text) (info : TypeInfo)
      → lookup name types ≡ some info
      → All (λ n. (member n info.references ≡ true) × (has_key n types ≡ true)) (type_refs info)

-- The text is the `$ref` of a component.
abbrev pub IsComponent : Map SchemaRef → Text → Type 0
IsComponent schemas t = (n : Text) × (t ≡ ref_text n) × (has_key n schemas ≡ true)

module _ (types : Types) (resolved : IsResolved types) (closed : IsClosed http types) where
  -- What the declaration of a marked type names has the mark.
  pub type_refs-marked :
      (name : Text) (info : TypeInfo)
      → lookup name types ≡ some info
      → info.used_by_http ≡ true
      → All (λ n. is_marked http n types ≡ true) (type_refs info)
  unfolding IsClosed is_marked references_of is_used_by
  type_refs-marked name info found used =
      let reached : All (IsReached http types) info.references =
        subst (All (IsReached http types)) (ground (arith, found))
          (closed name (ground (arith, found, used))) in
      All-imp _ _
        (λ n (listed, here).
          All-member (IsReached http types) n info.references reached listed
            (λ empty. ground (arith, empty, here, resolved.unnamed)) here)
        (type_refs info) (resolved.known name info found)

has_key-kept :
    (n k : Text) (v : SchemaRef) (m : Map SchemaRef)
    → has_key n m ≡ true
    → has_key n (insert k v m) ≡ true
has_key-kept n k v m h = ground (arith, lookup-insert k n v m)

has_key-inserted : {V : Type 0} (k : Text) (v : V) (m : Map V) → has_key k (insert k v m) ≡ true
has_key-inserted k v m = ground (arith, lookup-insert k k v m, text_eq_iff k k)

-- What a successful round of the loop over a type has done.
module _ (name : Text) (info : TypeInfo) (types : Types) (schemas done : Map SchemaRef)
    (h : add_component_schemas ((name, info) ∷ types) schemas ≡ ok done) where
  component-skipped : info.used_by_http ≡ false → add_component_schemas types schemas ≡ ok done
  unfolding add_component_schemas
  component-skipped unused = ground (arith, h, unused)

  component-added :
      info.used_by_http ≡ true
      → (s : Schema) × (to_open_api_schema info ≡ ok s)
        × (add_component_schemas types (insert name (value s) schemas) ≡ ok done)
  unfolding add_component_schemas
  component-added used =
      let e : (wrap (in_component name) (to_open_api_schema info) >>= λ s.
      add_component_schemas types (insert name (value s) schemas))
          ≡ ok done =
        ground (arith, h, used) in
      let (s, built, rest) =
        bind-ok_inv (wrap (in_component name) (to_open_api_schema info)) _ done e in
      (s, wrap-ok_inv _ _ s built, rest)

-- The loop keeps the components that it has.
add_component_schemas-has_key :
    (types : Types) (schemas done : Map SchemaRef) (n : Text)
    → add_component_schemas types schemas ≡ ok done
    → has_key n schemas ≡ true
    → has_key n done ≡ true
unfolding add_component_schemas
add_component_schemas-has_key [] schemas done n h k = ground (arith, h, k)
add_component_schemas-has_key ((name, info) ∷ types) schemas done n h k =
    elim (Bool-cases info.used_by_http) [
      | inr unused ↦
          add_component_schemas-has_key types schemas done n
            (component-skipped name info types schemas done h unused) k
      | inl used ↦
          let (s, built, rest) = component-added name info types schemas done h used in
          add_component_schemas-has_key types (insert name (value s) schemas) done n rest
            (has_key-kept n name (value s) schemas k)
    ]

add_component_schemas-marked :
    (types : Types) (schemas done : Map SchemaRef) (n : Text)
    → add_component_schemas types schemas ≡ ok done
    → is_marked http n types ≡ true
    → has_key n done ≡ true
unfolding is_marked is_used_by lookup
add_component_schemas-marked [] schemas done n h k = ground (arith, k)
add_component_schemas-marked ((name, info) ∷ types) schemas done n h k =
    elim (Bool-cases info.used_by_http) [
      | inr unused ↦
          add_component_schemas-marked types schemas done n
            (component-skipped name info types schemas done h unused) (ground (arith, k, unused))
      | inl used ↦
          let (s, built, rest) = component-added name info types schemas done h used in
          elim (Bool-cases (name == n)) [
            | inl same ↦
                add_component_schemas-has_key types (insert name (value s) schemas) done n rest (
                  subst (λ m. has_key m (insert name (value s) schemas) ≡ true)
                    ((text_eq_iff name n).0 same) (has_key-inserted name (value s) schemas))
            | inr other ↦
                add_component_schemas-marked types (insert name (value s) schemas) done n rest
                  (ground (arith, k, other))
          ]
    ]

-- a property of the values of all components
add_component_schemas-All :
    (Q : SchemaRef → Type 0) (types : Types) (schemas done : Map SchemaRef)
    → add_component_schemas types schemas ≡ ok done
    → All
        (λ e. e.1.used_by_http ≡ true → (s : Schema) → to_open_api_schema e.1 ≡ ok s → Q (value s))
        types
    → All (λ e. Q e.1) schemas
    → All (λ e. Q e.1) done
unfolding add_component_schemas
add_component_schemas-All Q [] schemas done h each all = subst (All (λ e. Q e.1)) (ok-inj h) all
add_component_schemas-All Q ((name, info) ∷ types) schemas done h (here, each) all =
    elim (Bool-cases info.used_by_http) [
      | inr unused ↦
          add_component_schemas-All Q types schemas done
            (component-skipped name info types schemas done h unused) each all
      | inl used ↦
          let (s, built, rest) = component-added name info types schemas done h used in
          add_component_schemas-All Q types (insert name (value s) schemas) done rest each
            (All-insert Q name (value s) schemas (here used s built) all)
    ]

-- For types that name only known types, and marks that reach everything that a marked type refers
-- to, `buildComponentSchemas` gives each marked type a component, and each `$ref` in a component is
-- that of a component.
pub build_component_schemas-IsComponent :
    (types : Types) (schemas : Map SchemaRef)
    → IsResolved types
    → IsClosed http types
    → build_component_schemas types ≡ ok schemas
    → ((n : Text) → is_marked http n types ≡ true → has_key n schemas ≡ true)
      × All (λ e. All (IsComponent schemas) (refs_in e.1)) schemas
unfolding build_component_schemas schema_refs
build_component_schemas-IsComponent types schemas resolved closed h =
    let marked : (n : Text) → is_marked http n types ≡ true → has_key n schemas ≡ true =
      λ n m. add_component_schemas-marked types [] schemas n h m in
    (
      marked,
      add_component_schemas-All (λ r. All (IsComponent schemas) (refs_in r)) types [] schemas h
          (All-imp _ _
            (λ e found used s built. to_open_api_schema-All (IsComponent schemas) e.1 s built (
              All-imp _ _ (λ n m. (n, refl, marked n m)) (type_refs e.1)
                (type_refs-marked types resolved closed e.0 e.1 found used)))
            types (Distinct-lookup types resolved.distinct))
          tt,
    )
