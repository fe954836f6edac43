-- ===== src/Generate/OpenApi/Runs.antt =====
-- What the processing of values by backend/pkg/generate/collector_register.go does with types that
-- are sound for the document.
use go_http_mqtt_boilerplate.Prelude.{
  ◌≡◌, refl, Bool, true, false, Option, none, some, [], ◌∷◌, Text, Map, lookup, insert, member,
  text_eq_inst, if◌then◌else◌, ok, err,
}
use go_http_mqtt_boilerplate.Generate.Values.{
  Value, is_nil_or_nil_pointer, extract_type_name, to_json_indent,
}
use go_http_mqtt_boilerplate.Generate.DocTypes.{TypeInfo}
use go_http_mqtt_boilerplate.Generate.Marks.{
  Types, http, mqtt, CollectorError, bad_value, unknown_type, example_nil, message_nil,
  parameter_nil, Outcome, next, name_of, primitive_names, with_representation, mark_type_as_used_by,
  register_json_representation, register_examples, stringify_examples, process_value,
  process_http_type, process_mqtt_message_type, process_mqtt_topic_parameter,
}
use go_http_mqtt_boilerplate.Generate.Marks.Growth.{
  IsReached, Grows-refl, Grows-trans, IsReached-Grows,
}
use go_http_mqtt_boilerplate.Generate.OpenApi.Sound.{
  IsSound, Advances, mark_http-Advances, mark_mqtt-Advances, with_representation-Advances,
}

-- of the value of an operation, with the types after it
abbrev pub Post : {A : Type 0} → (A → Types → Type 0) → Outcome A → Type 0
Post Q (types, ok a) = Q a types
Post Q (types, err e) = Unit

-- The operation keeps the types sound, and its value has the property.
pub record Runs {A : Type 0} (before : Types) (Q : A → Types → Type 0) (out : Outcome A)
    : Type 0 where
  pub advances : Advances before out.0
  pub post : Post Q out

pub stays : (types : Types) → IsSound types → Advances types types
stays types s = record { sound = s; grows = Grows-refl http types }

Advances-trans : {a b c : Types} → Advances a b → Advances b c → Advances a c
Advances-trans m n = record { sound = n.sound; grows = Grows-trans http m.grows n.grows }

module _ {A B : Type 0} (before : Types) (Q : A → Types → Type 0) (R : B → Types → Type 0)
    (rest : A → Types → Outcome B) where
  pub next-Runs :
      (m : Outcome A)
      → Runs before Q m
      → ((a : A) (now : Types) → Advances before now → Q a now → Runs now R (rest a now))
      → Runs before R (next m rest)
  next-Runs (now, ok a) m f =
      let r = f a now m.advances m.post in
      record { advances = Advances-trans m.advances r.advances; post = r.post }
  next-Runs (now, err e) m f = record { advances = m.advances; post = tt }

abbrev pub Done : {A : Type 0} → A → Types → Type 0
Done a types = Unit

-- an operation that leaves the types as they are
module _ {A : Type 0} (types : Types) (s : IsSound types) (Q : A → Types → Type 0) where
  pub ok-Runs : (a : A) → Q a types → Runs types Q (types, ok a)
  ok-Runs a q = record { advances = stays types s; post = q }

  pub err-Runs : (e : CollectorError) → Runs types Q (types, err e)
  err-Runs e = record { advances = stays types s; post = tt }

  pub guarded-Runs :
      (bad : Bool) (e : CollectorError) (out : Outcome A)
      → Runs types Q out
      → Runs types Q (if bad then (types, err e) else out)
  guarded-Runs true e out r = err-Runs e
  guarded-Runs false e out r = r

name_of-Runs :
    (value : Value) (types : Types) → IsSound types → Runs types Done (name_of value types)
name_of-Runs value types s =
    elim (extract_type_name value)
      as (λ r.
        Runs types Done
          (elim r [ ok name ↦ (types, ok name) | err e ↦ (types, err (bad_value e)) ])) [
            | ok name ↦ ok-Runs types s Done name tt
            | err e ↦ err-Runs types s Done (bad_value e)
          ]

representation-Runs :
    (value : Value) (name : Text) (types : Types)
    → IsSound types
    → (o : Option TypeInfo) → lookup name types ≡ o
    → Runs types Done (elim o [
      | none ↦ (types, err (unknown_type name))
      | some info ↦ (insert name (with_representation (to_json_indent value) info) types, ok tt)
    ])
representation-Runs value name types s none h = err-Runs types s Done (unknown_type name)
representation-Runs value name types s (some info) h = record {
  advances = with_representation-Advances (to_json_indent value) name info types h s;
  post = tt;
}

register_json_representation-Runs :
    (value : Value) (types : Types)
    → IsSound types
    → Runs types Done (register_json_representation value types)
unfolding register_json_representation
register_json_representation-Runs value types s =
    next-Runs types Done Done _ (name_of value types) (name_of-Runs value types s) (λ name now m _.
      let stored = representation-Runs value name now m.sound (lookup name now) refl in
      elim (member name primitive_names)
        as (λ b. Runs now Done (
          if b then (now, ok tt) else elim (lookup name now) [
            | none ↦ (now, err (unknown_type name))
            | some info ↦ (insert name (with_representation (to_json_indent value) info) now, ok tt)
          ])) [ true ↦ ok-Runs now m.sound Done tt tt | false ↦ stored ])

pub register_examples-Runs :
    (examples : Map Value) (types : Types)
    → IsSound types
    → Runs types Done (register_examples examples types)
unfolding register_examples
register_examples-Runs [] types s = ok-Runs types s Done tt tt
register_examples-Runs ((name, example) ∷ examples) types s =
    let registered =
      next-Runs types Done Done _ (register_json_representation example types)
        (register_json_representation-Runs example types s)
        (λ _ now m _. register_examples-Runs examples now m.sound) in
    guarded-Runs types s Done (is_nil_or_nil_pointer example) (example_nil name) _ registered

-- the type of the name has the mark of HTTP, if it is known
abbrev pub Reached : Text → Types → Type 0
Reached name types = IsReached http types name

marked_http-Runs :
    (value : Value) (types : Types)
    → IsSound types
    → Runs types Reached (process_value http value types)
unfolding process_value
marked_http-Runs value types s =
    next-Runs types Done Reached _ (name_of value types) (name_of-Runs value types s)
      (λ name now m _.
        let (marked, reached) = mark_http-Advances name now m.sound in
        let after =
          next-Runs (mark_type_as_used_by http name now) Done Reached _
            (register_json_representation value (mark_type_as_used_by http name now))
            (register_json_representation-Runs value (mark_type_as_used_by http name now)
              marked.sound)
            (λ _ last n _.
              ok-Runs last n.sound Reached name (IsReached-Grows http name n.grows reached)) in
        record { advances = Advances-trans marked after.advances; post = after.post })

marked_mqtt-Runs :
    (value : Value) (types : Types)
    → IsSound types
    → Runs types Done (process_value mqtt value types)
unfolding process_value
marked_mqtt-Runs value types s =
    next-Runs types Done Done _ (name_of value types) (name_of-Runs value types s) (λ name now m _.
      let marked = mark_mqtt-Advances name now m.sound in
      let after =
        next-Runs (mark_type_as_used_by mqtt name now) Done Done _
          (register_json_representation value (mark_type_as_used_by mqtt name now))
          (register_json_representation-Runs value (mark_type_as_used_by mqtt name now)
            marked.sound)
          (λ _ last n _. ok-Runs last n.sound Done name tt) in
      record { advances = Advances-trans marked after.advances; post = after.post })

pub process_http_type-Runs :
    (value : Value) (examples : Map Value) (types : Types)
    → IsSound types
    → Runs types (λ named. Reached named.0) (process_http_type value examples types)
unfolding process_http_type
process_http_type-Runs value examples types s =
    next-Runs types Reached _ _ (process_value http value types) (marked_http-Runs value types s)
      (λ name now m reached.
        next-Runs now Done _ _ (register_examples examples now)
          (register_examples-Runs examples now m.sound)
          (λ _ last n _.
            ok-Runs last n.sound _ (name, stringify_examples examples)
              (IsReached-Grows http name n.grows reached)))

pub process_mqtt_message_type-Runs :
    (value : Value) (examples : Map Value) (types : Types)
    → IsSound types
    → Runs types Done (process_mqtt_message_type value examples types)
unfolding process_mqtt_message_type
process_mqtt_message_type-Runs value examples types s =
    let processed =
      next-Runs types Done Done _ (process_value mqtt value types) (marked_mqtt-Runs value types s)
        (λ name now m _.
          next-Runs now Done Done _ (register_examples examples now)
            (register_examples-Runs examples now m.sound)
            (λ _ last n _. ok-Runs last n.sound Done (name, stringify_examples examples) tt)) in
    guarded-Runs types s Done (is_nil_or_nil_pointer value) message_nil _ processed

pub process_mqtt_topic_parameter-Runs :
    (value : Value) (types : Types)
    → IsSound types
    → Runs types Done (process_mqtt_topic_parameter value types)
unfolding process_mqtt_topic_parameter
process_mqtt_topic_parameter-Runs value types s =
    guarded-Runs types s Done (is_nil_or_nil_pointer value) parameter_nil _
      (marked_mqtt-Runs value types s)
