-- ===== src/Generate/Extract/Documented.antt =====
-- From the Go sources to the document.
use go_http_mqtt_boilerplate.Prelude.{
  ℕ, ◌≡◌, true, false, Option-cases, inl, inr, some, List, [], All, All-both, Text, Map, lookup,
  has_key, text_eq_inst, ok, arith,
}
use go_http_mqtt_boilerplate.Generate.DocTypes.{TypeInfo}
use go_http_mqtt_boilerplate.Generate.Marks.{Types, http, is_used_by}
use go_http_mqtt_boilerplate.Generate.Marks.Growth.{is_marked}
use go_http_mqtt_boilerplate.Generate.Collector.Ids.{Operation}
use go_http_mqtt_boilerplate.Generate.OpenApi.Closed.{type_refs}
use go_http_mqtt_boilerplate.Generate.OpenApi.Paths.{ApiInfo, Spec, generate_spec}
use go_http_mqtt_boilerplate.Generate.OpenApi.Components.{IsResolved}
use go_http_mqtt_boilerplate.Generate.OpenApi.Dangling.{IsLinked}
use go_http_mqtt_boilerplate.Generate.OpenApi.Registered.{
  register_operations, new_collector, register_operations-IsLinked,
}
use go_http_mqtt_boilerplate.Generate.Extract.Ast.{File}
use go_http_mqtt_boilerplate.Generate.Extract.Comments.{Library}
use go_http_mqtt_boilerplate.Generate.Extract.Files.{extract_all_types_from_go}
use go_http_mqtt_boilerplate.Generate.Extract.Listed.{IsIn}
use go_http_mqtt_boilerplate.Generate.Extract.Names.{AreExtracted, found-IsExtracted}
use go_http_mqtt_boilerplate.Generate.Extract.Passes.{extract_all_types_from_go-AreExtracted}

-- Every name of a type in a declaration is that of a known type.
abbrev pub IsComplete : Types → Type 0
IsComplete types =
    (name : Text) (info : TypeInfo)
    → lookup name types ≡ some info
    → All (λ n. has_key n types ≡ true) (type_refs info)

pub AreExtracted-IsResolved :
    (types : Types)
    → AreExtracted types
    → has_key [] types ≡ false
    → IsComplete types
    → IsResolved types
AreExtracted-IsResolved types a unnamed complete = record {
  unnamed = unnamed;
  distinct = a.distinct;
  known = λ name info h.
      All-both (IsIn info.references) (λ n. has_key n types ≡ true) (type_refs info)
        (found-IsExtracted name info types a h).listed (complete name info h);
}

pub AreExtracted-unmarked :
    (types : Types) → AreExtracted types → (k : Text) → is_marked http k types ≡ false
unfolding is_marked is_used_by
AreExtracted-unmarked types a k = elim (Option-cases (lookup k types)) [
  | inl missing ↦ ground (arith, missing)
  | inr (info, found) ↦ ground (arith, found, (found-IsExtracted k info types a found).unused)
]

-- Where the extraction from Go files succeeds, and the files declare each type that a declaration
-- names, then after every sequence of registrations, refused ones among them, a document that is
-- generated has no `$ref` but those of its components.
pub extract_all_types_from_go-IsLinked :
    (lib : Library)
    (keeps : (n : Text) (names : List Text) → IsIn names n → IsIn (lib.sorted_keys names) n)
    (packages : List (Map Text)) (formats : Map Text) (files : List File) (types : Types)
    (itoa : ℕ → Text) (info : ApiInfo) (ops : List Operation) (spec : Spec)
    → extract_all_types_from_go lib packages formats files ≡ ok types
    → has_key [] types ≡ false
    → IsComplete types
    → generate_spec itoa info (register_operations ops (new_collector types)) ≡ ok spec
    → IsLinked spec
extract_all_types_from_go-IsLinked lib keeps packages formats files types itoa info ops spec h
      unnamed complete made =
    let a = extract_all_types_from_go-AreExtracted lib keeps packages formats files types h in
    register_operations-IsLinked itoa info types ops spec
      (AreExtracted-IsResolved types a unnamed complete) (AreExtracted-unmarked types a) made
