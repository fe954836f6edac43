-- ===== src/Generate/Values.antt =====
-- Values of Go's type `any`, as the reflection and the JSON encoder that the program calls report
-- them, with `isNilOrNilPointer` and `isZeroValueStruct` of backend/pkg/generate/collector.go and
-- `extractTypeNameFromValue` of backend/pkg/generate/collector_ast.go.
use go_http_mqtt_boilerplate.Prelude.{
  Bool, true, false, ◌&&◌, [], ◌∷◌, Text, codes, Result, ok, err,
}

-- A value that is no pointer: the name of its type, empty for an anonymous type, whether it is a
-- struct and has the zero value, and the indented JSON text of it.
pub record Plain : Type 0 where
  pub name : Text
  pub is_struct : Bool
  pub is_zero : Bool
  pub json : Text

-- `nil` is the interface without a value; a nil pointer still has a type.
pub data Value : Type 0 where
  nil : Value
  nil_pointer : (name : Text) → Value
  pointer : Value → Value
  plain : Plain → Value

pub data ValueError : Type 0 where
  anonymous_type : ValueError

unfoldable pub is_nil : Value → Bool
is_nil nil = true
is_nil _ = false

unfoldable pub is_nil_or_nil_pointer : Value → Bool
is_nil_or_nil_pointer nil = true
is_nil_or_nil_pointer (nil_pointer name) = true
is_nil_or_nil_pointer _ = false

-- reflect's `IsZero` at a struct, behind one pointer at most
unfoldable pub is_zero_value_struct : Value → Bool
is_zero_value_struct (plain p) = p.is_struct && p.is_zero
is_zero_value_struct (pointer (plain p)) = p.is_struct && p.is_zero
is_zero_value_struct _ = false

-- the name of the type under all pointers
unfoldable pub type_name : Value → Text
type_name nil = []
type_name (nil_pointer name) = name
type_name (pointer v) = type_name v
type_name (plain p) = p.name

abbrev named : Text → Result ValueError Text
named [] = err anonymous_type
named (c ∷ s) = ok (c ∷ s)

unfoldable pub extract_type_name : Value → Result ValueError Text
unfolding type_name
extract_type_name nil = ok []
extract_type_name v = named (type_name v)

-- string(utils.MustToJSONIndent(value))
unfoldable pub to_json_indent : Value → Text
to_json_indent nil = codes "null"
to_json_indent (nil_pointer name) = codes "null"
to_json_indent (pointer v) = to_json_indent v
to_json_indent (plain p) = p.json
