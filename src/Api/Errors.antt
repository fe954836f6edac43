-- ===== src/Api/Errors.antt =====
-- `ErrorResponse` of backend/internal/shared/types/types.go and `NewAPIError` of
-- backend/internal/shared/api/api.go. The map of field errors may be nil, which is empty here: both
-- have length 0.
use go_http_mqtt_boilerplate.Prelude.{
  ℕ, ◌≡◌, refl, [], ◌∷◌, ◌++◌, Text, codes, text_eq_inst, ◌==◌, Map, lookup, insert, lookup-insert,
  some, if◌then◌else◌,
}

pub record ErrorResponse : Type 0 where
  pub status_code : ℕ
  pub request_id : Text
  pub message : Text
  pub errors : Map Text

unfoldable pub new_api_error : ℕ → Text → ErrorResponse
new_api_error status_code message = record {
  status_code = status_code;
  request_id = [];
  message = message;
  errors = [];
}

-- field=message; further fields behind "; "
unfoldable pub field_texts : Map Text → Text
field_texts [] = []
field_texts ((field, message) ∷ []) = field ++ codes "=" ++ message
field_texts ((field, message) ∷ e ∷ es) =
    field ++ codes "=" ++ message ++ codes "; " ++ field_texts (e ∷ es)

unfoldable pub error_text : ErrorResponse → Text
unfolding field_texts
error_text e = elim e.errors [
  | [] ↦ e.message
  | x ∷ xs ↦ e.message ++ codes ": " ++ field_texts (x ∷ xs)
]

unfoldable pub add_error : Text → Text → ErrorResponse → ErrorResponse
add_error field message e = record e { errors = insert field message e.errors }

-- `AddError` sets the message of its field, leaves the other fields' messages, and changes neither
-- the status nor the message of the response.
pub add_error_lem :
    (field message k : Text) (e : ErrorResponse)
    → (lookup k (add_error field message e).errors
        ≡ (if field == k then some message else lookup k e.errors))
      × ((add_error field message e).status_code ≡ e.status_code)
      × ((add_error field message e).message ≡ e.message)
unfolding add_error
add_error_lem field message k e = (lookup-insert field k message e.errors, refl, refl)
