-- ===== src/Api/Handlers.antt =====
-- `ErrorHandler` and `RespondJSON` of backend/internal/shared/api/api.go and the middlewares of
-- middleware_recoverer.go, middleware_requestid.go and middleware_logger.go beside it. A handler
-- works on its context and its writer; a panic is an outcome that carries what was written before.
-- The JSON encoder, `none` for its error, and the counts that net/http's `Write` returns are
-- parameters. Logging is left out, but for the entry of the request logger.
pub mod Failures
use go_http_mqtt_boilerplate.Prelude.{
  ℕ, Bool, Option, none, some, List, [], ◌∷◌, Text, codes, text_eq_inst, ◌==◌, if◌then◌else◌,
  Result, ok, err,
}
use go_http_mqtt_boilerplate.Generate.Values.{Value}
use go_http_mqtt_boilerplate.Api.Context.{
  Context, zero_uuid, with_logger, with_request_id, get_request_id_from_context,
}
use go_http_mqtt_boilerplate.Api.Writer.{
  Raw, raw_writer, Wrapped, wrapped_writer, wrap_response_writer, ResponseWriter,
}
use go_http_mqtt_boilerplate.Api.Errors.{ErrorResponse}

pub data Body : Type 0 where
  no_body : Body
  error_body : ErrorResponse → Body
  payload : Value → Body

-- An error of a handler: `errors.As` finds an `ErrorResponse` in it, or it does not.
pub data HandlerError : Type 0 where
  http_error : ErrorResponse → HandlerError
  internal : Text → HandlerError

pub data Returned (W : Type 0) : Type 0 where
  returned : W → Option HandlerError → Returned W
  panicked : W → Returned W

-- The end of a `http.Handler`.
pub data Served (W : Type 0) : Type 0 where
  done : W → Served W
  panicking : W → Served W

abbrev pub HandlerFunc : Type 0 → Type 0
HandlerFunc W = Context → W → Returned W

abbrev pub Handler : Type 0 → Type 0
Handler W = Context → W → Served W

abbrev pub request_id_header : Text
request_id_header = codes "X-Request-ID"

-- the body of a response whose error is not told to the client
abbrev pub opaque_error : Text → Text → ErrorResponse
opaque_error id message = record {
  status_code = 0;
  request_id = id;
  message = message;
  errors = [];
}

abbrev pub internal_server_error : Text
internal_server_error = codes "Internal Server Error"

abbrev pub service_unavailable : Text
service_unavailable = codes "Service Unavailable"

pub record LogEntry : Type 0 where
  pub status : ℕ
  pub response_bytes : ℕ

module _ (encode : Body → Option Text) (count : Text → ℕ) where
  module _ {W : Type 0} ⦃i : ResponseWriter W⦄ where
    unfoldable pub write_encoded : Option Text → W → W
    write_encoded none w = w
    write_encoded (some bytes) w = i.write bytes (count bytes) w

    unfoldable pub write_body : Body → W → W
    unfolding write_encoded
    write_body no_body w = w
    write_body (error_body e) w = write_encoded (encode (error_body e)) w
    write_body (payload v) w = write_encoded (encode (payload v)) w

    unfoldable pub respond_json : ℕ → Body → W → W
    unfolding write_body
    respond_json status_code body w = write_body body (
        i.write_header status_code
          (i.set_header (codes "Content-Type") (codes "application/json") w))

    unfoldable pub respond_error : Text → HandlerError → W → W
    unfolding respond_json
    respond_error id (http_error e) w =
        respond_json e.status_code (error_body (record e { request_id = id })) w
    respond_error id (internal text) w =
        respond_json 500 (error_body (opaque_error id internal_server_error)) w

    unfoldable pub after_handler : Text → Returned W → Served W
    unfolding respond_error
    after_handler id (returned w none) = done w
    after_handler id (returned w (some e)) = done (respond_error id e w)
    after_handler id (panicked w) = panicking w

    unfoldable pub error_handler : HandlerFunc W → Handler W
    unfolding after_handler
    error_handler fn ctx w = after_handler (get_request_id_from_context ctx) (fn ctx w)

    unfoldable pub recovered : Text → Served W → Served W
    unfolding respond_json
    recovered id (done w) = done w
    recovered id (panicking w) =
        done (respond_json 500 (error_body (opaque_error id internal_server_error)) w)

    unfoldable pub recovery_middleware : Handler W → Handler W
    unfolding recovered
    recovery_middleware next ctx w = recovered (get_request_id_from_context ctx) (next ctx w)

    -- with the id of the request known
    unfoldable pub with_id : Handler W → Text → Handler W
    with_id next id ctx w = next (with_request_id ctx id) (i.set_header request_id_header id w)

    -- `header` is the request's X-Request-ID, and `fresh` what uuid.NewV7 returns
    unfoldable pub request_id_middleware :
        {U : Type 0} → Text → Result U Text → Handler W → Handler W
    unfolding with_id respond_json
    request_id_middleware [] (ok id) next ctx w = with_id next id ctx w
    request_id_middleware [] (err e) next ctx w =
        done (respond_json 503 (error_body (opaque_error zero_uuid service_unavailable)) w)
    request_id_middleware (x ∷ header) fresh next ctx w = with_id next (x ∷ header) ctx w

-- a panic passes the log line by
unfoldable pub logged : Served Wrapped → Served Raw × Option LogEntry
logged (done w) =
    (done w.inner, some (record { status = w.status_code; response_bytes = w.bytes_written }))
logged (panicking w) = (panicking w.inner, none)

-- `logger` is the request's logger
unfoldable pub logger_middleware :
    ℕ → Handler Wrapped → Context → Raw → Served Raw × Option LogEntry
unfolding logged
logger_middleware logger next ctx w =
    logged (next (with_logger ctx logger) (wrap_response_writer w))

-- The middlewares in the order in which `registerHTTPHandlers` of backend/cmd/local/main.go adds them
-- for "/api", around a handler of a route.
module _ (encode : Body → Option Text) (count : Text → ℕ) where
  unfoldable pub serve_api :
      {U : Type 0} → Text → Result U Text → ℕ → HandlerFunc Wrapped → Handler Raw
  unfolding recovery_middleware request_id_middleware logger_middleware error_handler
  serve_api header fresh logger fn = recovery_middleware encode count (
      request_id_middleware encode count header fresh
        (λ ctx w. (logger_middleware logger (error_handler encode count fn) ctx w).0))
