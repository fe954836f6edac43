-- ===== src/Generate/OpenApi/Sound.antt =====
-- The operations on the types of the collector keep what the document needs of them.
use go_http_mqtt_boilerplate.Prelude.{
  ◌≡◌, refl, true, false, ◌||◌, some, Text, lookup, insert, text_eq_inst, if◌then◌else◌, ltb,
}
use go_http_mqtt_boilerplate.Mqtt.Topic.{is_empty}
use go_http_mqtt_boilerplate.Generate.DocTypes.{TypeInfo}
use go_http_mqtt_boilerplate.Generate.Marks.{
  Types, http, mqtt, use_by, mark_type_as_used_by, byte_length, with_representation,
}
use go_http_mqtt_boilerplate.Generate.Marks.Growth.{IsReached, IsClosed, Grows}
use go_http_mqtt_boilerplate.Generate.Marks.Closure.{mark_type_as_used_by-IsClosed}
use go_http_mqtt_boilerplate.Generate.OpenApi.Closed.{type_refs}
use go_http_mqtt_boilerplate.Generate.OpenApi.Components.{IsResolved}
use go_http_mqtt_boilerplate.Generate.OpenApi.Shape.{
  Shape, Shape-refl, Shape-trans, Shape-insert, Shape-IsResolved, use_by-type_refs,
  use_by-references, mark_type_as_used_by-by, Quiet, Quiet-refl, Quiet-trans, Quiet-insert,
  Quiet-Grows, Quiet-IsClosed,
}

use_by_mqtt-http : (info : TypeInfo) → (use_by mqtt info).used_by_http ≡ info.used_by_http
unfolding use_by
use_by_mqtt-http info = refl

-- What the document needs of the types.
pub record IsSound (types : Types) : Type 0 where
  pub resolved : IsResolved types
  pub closed : IsClosed http types

-- What an operation keeps and does.
pub record Advances (before after : Types) : Type 0 where
  pub sound : IsSound after
  pub grows : Grows http before after

pub mark_http-Advances :
    (name : Text) (types : Types)
    → IsSound types
    → Advances types (mark_type_as_used_by http name types)
      × IsReached http (mark_type_as_used_by http name types) name
mark_http-Advances name types s =
    let (closed, reached, grows, rest) = mark_type_as_used_by-IsClosed http name types s.closed in
    let shape =
      mark_type_as_used_by-by http Shape Shape-refl (λ a b c x y. Shape-trans x y)
        (λ n info now h.
          Shape-insert n info (use_by http info) now h (use_by-references http info)
            (use_by-type_refs http info))
        name types in
    (
      record {
        sound = record { resolved = Shape-IsResolved shape s.resolved; closed = closed };
        grows = grows;
      },
      reached,
    )

-- an operation that changes neither the declarations nor what HTTP uses
Quiet-Advances : {a b : Types} → Shape a b → Quiet a b → IsSound a → Advances a b
Quiet-Advances shape quiet s = record {
  sound = record {
    resolved = Shape-IsResolved shape s.resolved;
    closed = Quiet-IsClosed quiet s.closed;
  };
  grows = Quiet-Grows quiet;
}

pub mark_mqtt-Advances :
    (name : Text) (types : Types)
    → IsSound types
    → Advances types (mark_type_as_used_by mqtt name types)
mark_mqtt-Advances name types s =
    Quiet-Advances
      (mark_type_as_used_by-by mqtt Shape Shape-refl (λ a b c x y. Shape-trans x y)
        (λ n info now h.
          Shape-insert n info (use_by mqtt info) now h (use_by-references mqtt info)
            (use_by-type_refs mqtt info))
        name types)
      (mark_type_as_used_by-by mqtt Quiet Quiet-refl (λ a b c x y. Quiet-trans x y)
        (λ n info now h.
          Quiet-insert n info (use_by mqtt info) now h (use_by-references mqtt info)
            (use_by_mqtt-http info))
        name types)
      s

-- what a new representation leaves as it is
with_representation-keeps :
    (json : Text) (info : TypeInfo)
    → ((with_representation json info).references ≡ info.references)
      × (type_refs (with_representation json info) ≡ type_refs info)
      × ((with_representation json info).used_by_http ≡ info.used_by_http)
unfolding with_representation type_refs
with_representation-keeps json info =
    elim (is_empty info.representations.json
        || ltb (byte_length info.representations.json) (byte_length json))
      as (λ b.
        let i =
          if b
          then record info { representations = record info.representations { json = json } }
          else info in
        (i.references ≡ info.references)
        × (type_refs i ≡ type_refs info)
        × (i.used_by_http ≡ info.used_by_http)) [
          | true ↦ (refl, refl, refl)
          | false ↦ (refl, refl, refl)
        ]

pub with_representation-Advances :
    (json name : Text) (info : TypeInfo) (types : Types)
    → lookup name types ≡ some info
    → IsSound types
    → Advances types (insert name (with_representation json info) types)
with_representation-Advances json name info types h s =
    let (references, declared, used) = with_representation-keeps json info in
    Quiet-Advances
      (Shape-insert name info (with_representation json info) types h references declared)
      (Quiet-insert name info (with_representation json info) types h references used) s
