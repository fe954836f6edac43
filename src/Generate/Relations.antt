-- ===== src/Generate/Relations.antt =====
-- `buildReferencedBy` of backend/pkg/generate/collector_relations.go. `sort.Strings` is a parameter.
-- The set of the modified types only spares the sorting of lists that are empty, so every list is
-- sorted here.
use go_http_mqtt_boilerplate.Prelude.{
  ◌≡◌, refl, ◌∙◌, Option-cases, inl, inr, Bool, true, false, ◌||◌, Option, none, some, List, [],
  ◌∷◌, ◌++◌, Text, lookup, insert, has_key, lookup-insert, member, text_eq_iff, text_eq_inst, ◌==◌,
  if◌then◌else◌, arith,
}
use go_http_mqtt_boilerplate.Generate.DocTypes.{TypeInfo}
use go_http_mqtt_boilerplate.Generate.Marks.{Types}

-- the first loop
unfoldable pub clear : Types → Types
clear [] = []
clear ((name, info) ∷ types) = (name, record info { referenced_by = [] }) ∷ clear types

abbrev pub append_name : Text → TypeInfo → TypeInfo
append_name name info = record info { referenced_by = info.referenced_by ++ name ∷ [] }

-- if refType, exists := g.types[ref]; exists { append }
unfoldable pub refer : Text → Text → Types → Types
refer name reference types = elim (lookup reference types) [
  | none ↦ types
  | some info ↦ insert reference (append_name name info) types
]

-- the references of one type
unfoldable pub refer_each : Text → List Text → Types → Types
refer_each name [] types = types
refer_each name (reference ∷ references) types =
    refer_each name references (refer name reference types)

-- the second loop, over the entries of the map
unfoldable pub refer_all : Types → Types → Types
refer_all [] types = types
refer_all ((name, info) ∷ entries) types = refer_all entries (refer_each name info.references types)

-- the last loop
unfoldable pub sort_each : (List Text → List Text) → Types → Types
sort_each sort [] = []
sort_each sort ((name, info) ∷ types) =
    (name, record info { referenced_by = sort info.referenced_by }) ∷ sort_each sort types

unfoldable pub build_referenced_by : (List Text → List Text) → Types → Types
build_referenced_by sort types = sort_each sort (refer_all types (clear types))

-- the names that refer to a type
abbrev names_in : Option TypeInfo → List Text
names_in none = []
names_in (some info) = info.referenced_by

unfoldable pub referenced_by_of : Text → Types → List Text
referenced_by_of k types = names_in (lookup k types)

-- Some entry of the name has the reference.
unfoldable pub refers : Text → Text → Types → Bool
refers name reference [] = false
refers name reference ((k, info) ∷ types) =
    let rest = refers name reference types in
    if k == name then member reference info.references || rest else rest

member-append : (k n : Text) (xs : List Text) → member k (xs ++ n ∷ []) ≡ (member k xs || n == k)
member-append k n [] = ground arith
member-append k n (x ∷ xs) = ground (arith, member-append k n xs)

refer-member :
    (name reference k r : Text) (types : Types)
    → has_key r types ≡ true
    → (member k (referenced_by_of r (refer name reference types))
        ≡ (member k (referenced_by_of r types) || (if reference == r then name == k else false)))
      × (has_key r (refer name reference types) ≡ true)
unfolding refer referenced_by_of
refer-member name reference k r types known = elim (Option-cases (lookup reference types)) [
  | inl absent ↦ rw (absent, refer) (ground (arith, text_eq_iff reference r), known)
  | inr (info, found) ↦
      rw (found, refer)
        (
          ground (
            arith,
            lookup-insert reference r (append_name name info) types,
            text_eq_iff reference r,
            member-append k name info.referenced_by,
          ),
          ground (arith, lookup-insert reference r (append_name name info) types),
        )
]

-- what one type's references add
refer_each-member :
    (name k r : Text) (references : List Text) (types : Types)
    → has_key r types ≡ true
    → (member k (referenced_by_of r (refer_each name references types)) ≡ (
        member k (referenced_by_of r types) || (if name == k then member r references else false)))
      × (has_key r (refer_each name references types) ≡ true)
unfolding refer_each
refer_each-member name k r [] types known = (ground arith, known)
refer_each-member name k r (reference ∷ references) types known =
    let one = refer-member name reference k r types known in
    let others = refer_each-member name k r references (refer name reference types) one.1 in
    (ground (arith, one.0, others.0), others.1)

refer_all-member :
    (k r : Text) (entries types : Types)
    → has_key r types ≡ true
    → (member k (referenced_by_of r (refer_all entries types))
        ≡ (member k (referenced_by_of r types) || refers k r entries))
      × (has_key r (refer_all entries types) ≡ true)
unfolding refer_all refers
refer_all-member k r [] types known = (ground arith, known)
refer_all-member k r ((name, info) ∷ entries) types known =
    let one = refer_each-member name k r info.references types known in
    let others = refer_all-member k r entries (refer_each name info.references types) one.1 in
    (ground (arith, one.0, others.0, text_eq_iff name k), others.1)

lookup-clear :
    (r : Text) (types : Types)
    → (referenced_by_of r (clear types) ≡ []) × (has_key r (clear types) ≡ has_key r types)
unfolding clear referenced_by_of lookup
lookup-clear r [] = (refl, refl)
lookup-clear r ((k, info) ∷ types) =
    (ground (arith, lookup-clear r types), ground (arith, lookup-clear r types))

sort_each-member :
    (sort : List Text → List Text)
    → ((k : Text) (xs : List Text) → member k (sort xs) ≡ member k xs)
    → (k r : Text) (types : Types)
    → member k (referenced_by_of r (sort_each sort types)) ≡ member k (referenced_by_of r types)
unfolding sort_each referenced_by_of lookup
sort_each-member sort kept k r [] = refl
sort_each-member sort kept k r ((name, info) ∷ types) =
    ground (arith, sort_each-member sort kept k r types, kept k info.referenced_by)

-- If sorting keeps the elements, then after `buildReferencedBy` the `ReferencedBy` of a known type has
-- exactly the names of the types whose references have that type, whatever it was before.
pub build_referenced_by-inverse :
    (sort : List Text → List Text)
    → ((k : Text) (xs : List Text) → member k (sort xs) ≡ member k xs)
    → (k r : Text) (types : Types) → has_key r types ≡ true
    → member k (referenced_by_of r (build_referenced_by sort types)) ≡ refers k r types
unfolding build_referenced_by
build_referenced_by-inverse sort kept k r types known =
    let cleared = lookup-clear r types in
    let linked = refer_all-member k r types (clear types) (cleared.1 ∙ known) in
    ground
      (arith, sort_each-member sort kept k r (refer_all types (clear types)), linked.0, cleared.0)
