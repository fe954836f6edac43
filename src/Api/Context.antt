-- ===== src/Api/Context.antt =====
-- Request contexts: backend/internal/shared/api/context.go. A context is the list of its values, the
-- newest first. `contextKey` is a struct without fields, so all its values are equal, and the two
-- keys of the file are one key: `Value` finds the newest entry under it.
use go_http_mqtt_boilerplate.Prelude.{
  ℕ, ◌≡◌, refl, Bool, true, Option, none, some, List, [], ◌∷◌, Text, codes, if◌then◌else◌,
}

pub data ContextKey : Type 0 where
  context_key : ContextKey

abbrev logger_key : ContextKey
logger_key = context_key

abbrev request_id_key : ContextKey
request_id_key = context_key

-- the equality of Go's interface values at this type
abbrev same_key : ContextKey → ContextKey → Bool
same_key context_key context_key = true

-- A logger is a number that stands for it.
pub data ContextValue : Type 0 where
  logger : ℕ → ContextValue
  request_id : Text → ContextValue

abbrev pub Context : Type 0
Context = List (ContextKey × ContextValue)

abbrev pub zero_uuid : Text
zero_uuid = codes "00000000-0000-0000-0000-000000000000"

-- ctx.Value(key)
unfoldable pub value : ContextKey → Context → Option ContextValue
value key [] = none
value key ((k, v) ∷ ctx) = if same_key k key then some v else value key ctx

unfoldable pub with_logger : Context → ℕ → Context
with_logger ctx l = (logger_key, logger l) ∷ ctx

abbrev as_logger : Option ContextValue → Option ℕ
as_logger (some (logger l)) = some l
as_logger (some (request_id id)) = none
as_logger none = none

unfoldable pub get_logger_from_context_or_nil : Context → Option ℕ
unfolding value
get_logger_from_context_or_nil ctx = as_logger (value logger_key ctx)

-- `default` is slog.Default()
unfoldable pub get_logger_from_context : ℕ → Context → ℕ
unfolding get_logger_from_context_or_nil
get_logger_from_context default ctx = elim (get_logger_from_context_or_nil ctx) [
  | some l ↦ l
  | none ↦ default
]

unfoldable pub with_request_id : Context → Text → Context
with_request_id ctx id = (request_id_key, request_id id) ∷ ctx

abbrev as_request_id : Option ContextValue → Text
as_request_id (some (request_id id)) = id
as_request_id (some (logger l)) = zero_uuid
as_request_id none = zero_uuid

unfoldable pub get_request_id_from_context : Context → Text
unfolding value
get_request_id_from_context ctx = as_request_id (value request_id_key ctx)

-- A request id that was stored last is read back; but a logger that is stored after it hides it, and
-- the zero UUID is read instead. A request id hides a logger in the same way.
pub context_shadowing :
    (ctx : Context) (l default : ℕ) (id : Text)
    → (get_request_id_from_context (with_request_id ctx id) ≡ id)
      × (get_logger_from_context default (with_logger ctx l) ≡ l)
      × (get_request_id_from_context (with_logger (with_request_id ctx id) l) ≡ zero_uuid)
      × (get_logger_from_context default (with_request_id (with_logger ctx l) id) ≡ default)
unfolding get_request_id_from_context get_logger_from_context with_request_id with_logger
context_shadowing ctx l default id = (refl, refl, refl, refl)
