-- ===== src/Api/Handlers/Failures.antt =====
-- What a client learns of a failed request.
use go_http_mqtt_boilerplate.Prelude.{
  ℕ, ◌≡◌, ◌≢◌, ◌⊎◌, refl, ap, sym, inl, inr, Option, none, some, List, [], ◌∷◌, ◌++◌, append-nil,
  Text, codes, Map, insert, Result, ok,
}
use go_http_mqtt_boilerplate.Api.Context.{
  Context, zero_uuid, with_logger, with_request_id, get_request_id_from_context,
}
use go_http_mqtt_boilerplate.Api.Writer.{
  Raw, Wrapped, wrap_response_writer, Call, header_sent, body_sent, write_header, write, raw_writer,
  wrapped_writer,
}
use go_http_mqtt_boilerplate.Api.Errors.{ErrorResponse}
use go_http_mqtt_boilerplate.Api.Handlers.{
  Body, error_body, HandlerError, http_error, internal, returned, panicked, Served, done, panicking,
  HandlerFunc, serve_api, request_id_header, opaque_error, internal_server_error, recovered, logged,
  after_handler, recovery_middleware, respond_json, write_encoded, with_id, respond_error,
  write_body, request_id_middleware, logger_middleware, error_handler,
}

-- A handler fails with the error before it writes anything.
abbrev pub IsFailing : HandlerError → HandlerFunc Wrapped → Type 0
IsFailing e fn = (ctx : Context) (w : Wrapped) → fn ctx w ≡ returned w (some e)

abbrev pub IsPanicking : HandlerFunc Wrapped → Type 0
IsPanicking fn = (ctx : Context) (w : Wrapped) → fn ctx w ≡ panicked w

-- The request has the id, or it has none and the id is a fresh one.
abbrev pub IsRequestId : {U : Type 0} → Text → Result U Text → Text → Type 0
IsRequestId header fresh id = ((header ≡ id) × (header ≢ [])) ⊎ ((header ≡ []) × (fresh ≡ ok id))

abbrev pub body_calls : (Text → ℕ) → Option Text → List Call
body_calls count none = []
body_calls count (some text) = body_sent text (count text) ∷ []

-- a status and a body, with the headers that go with them
unfoldable pub answered : (Text → ℕ) → Text → ℕ → Option Text → Map Text → Raw
answered count id code body headers = record {
  headers =
      insert (codes "Content-Type") (codes "application/json")
        (insert request_id_header id headers);
  calls = header_sent code ∷ body_calls count body;
}

module _ (encode : Body → Option Text) (count : Text → ℕ) where
  recovered-done : (id : Text) (s : Served Raw) → (w : Raw) × (recovered encode count id s ≡ done w)
  unfolding recovered
  recovered-done id (done w) = (w, refl)
  recovered-done id (panicking w) =
      (respond_json encode count 500 (error_body (opaque_error id internal_server_error)) w, refl)

  -- Whatever the handler does, a panic included, and whatever the request and its id are, the handler
  -- of "/api" ends without a panic.
  pub serve_api-done :
      {U : Type 0} (header : Text) (fresh : Result U Text) (l : ℕ) (fn : HandlerFunc Wrapped)
      (ctx : Context) (w : Raw)
      → (after : Raw) × (serve_api encode count header fresh l fn ctx w ≡ done after)
  unfolding serve_api recovery_middleware
  serve_api-done header fresh l fn ctx w = recovered-done (get_request_id_from_context ctx) _

  pub serve_api_with :
      {U : Type 0} (header : Text) (fresh : Result U Text) (id : Text) (l : ℕ)
      (fn : HandlerFunc Wrapped) (ctx : Context) (w : Raw)
      → IsRequestId header fresh id
      → serve_api encode count header fresh l fn ctx w
        ≡ recovered encode count
            (get_request_id_from_context ctx)
            (logged (
              after_handler encode count zero_uuid (
                fn (with_logger (with_request_id ctx id) l) (
                  wrap_response_writer
                    (record w { headers = insert request_id_header id w.headers }))))).0
  unfolding serve_api recovery_middleware request_id_middleware logger_middleware error_handler
      with_id get_request_id_from_context with_logger
  serve_api_with [] fresh id l fn ctx w (inl (h, k)) = elim (k refl) [ ]
  serve_api_with [] fresh id l fn ctx w (inr (h, k)) = rw k refl
  serve_api_with (x ∷ xs) fresh id l fn ctx w (inl (h, k)) = rw (sym h) refl
  serve_api_with (x ∷ xs) fresh id l fn ctx w (inr (h, k)) = cc h

  unfoldable respond_raw : ℕ → ErrorResponse → Raw → Raw
  respond_raw code e w = record {
    headers = insert (codes "Content-Type") (codes "application/json") w.headers;
    calls = header_sent code ∷ body_calls count (encode (error_body e));
  }

  pub write_encoded_wrapped :
      (o : Option Text) (w : Wrapped)
      → (write_encoded encode count o w).inner
        ≡ record w.inner { calls = w.inner.calls ++ body_calls count o }
  unfolding write_encoded write
  write_encoded_wrapped none w = rw append-nil refl
  write_encoded_wrapped (some text) w = refl

  write_encoded_raw :
      (o : Option Text) (w : Raw)
      → write_encoded encode count o w ≡ record w { calls = w.calls ++ body_calls count o }
  unfolding write_encoded
  write_encoded_raw none w = rw append-nil refl
  write_encoded_raw (some text) w = refl

  respond_json_wrapped :
      (code : ℕ) (e : ErrorResponse) (w : Raw)
      → w.calls ≡ []
      → (respond_json encode count code (error_body e) (wrap_response_writer w)).inner
        ≡ respond_raw code e w
  unfolding respond_json write_body wrap_response_writer write_header respond_raw
  respond_json_wrapped code e w h = rw (write_encoded_wrapped, h) refl

  respond_json_raw :
      (code : ℕ) (e : ErrorResponse) (w : Raw)
      → w.calls ≡ []
      → respond_json encode count code (error_body e) w ≡ respond_raw code e w
  unfolding respond_json write_body respond_raw
  respond_json_raw code e w h = rw (write_encoded_raw, h) refl

  -- If the request has an id or gets a fresh one, a handler that fails with an error meant for the
  -- client, before it has written anything, is answered with the status and the texts of that
  -- error, and with the id in the header; but the body has the zero UUID in its place, since the
  -- logger's context hides the id.
  pub serve_api-http_error :
      {U : Type 0} (header : Text) (fresh : Result U Text) (id : Text) (l : ℕ)
      (fn : HandlerFunc Wrapped) (ctx : Context) (w : Raw) (e : ErrorResponse)
      → IsRequestId header fresh id
      → w.calls ≡ []
      → IsFailing (http_error e) fn
      → serve_api encode count header fresh l fn ctx w
        ≡ done (
            answered count id e.status_code
              (encode (error_body (record e { request_id = zero_uuid })))
              w.headers)
  unfolding recovered logged after_handler respond_error answered respond_raw
  serve_api-http_error header fresh id l fn ctx w e known unwritten fails =
      rw (serve_api_with header fresh id l fn ctx w known, fails)
        (ap done (
          respond_json_wrapped e.status_code (record e { request_id = zero_uuid })
            (record w { headers = insert request_id_header id w.headers }) unwritten))

  -- If the request has an id or gets a fresh one, and its context had none before, a handler that
  -- fails with any other error, and one that panics, before it has written anything, are answered
  -- in the same way: 500 with a fixed text, so that nothing of the error is told.
  pub serve_api-opaque :
      {U : Type 0} (header : Text) (fresh : Result U Text) (id : Text) (l : ℕ)
      (fn : HandlerFunc Wrapped) (ctx : Context) (w : Raw)
      → IsRequestId header fresh id
      → w.calls ≡ []
      → get_request_id_from_context ctx ≡ zero_uuid
      → ((text : Text) × IsFailing (internal text) fn) ⊎ IsPanicking fn
      → serve_api encode count header fresh l fn ctx w
        ≡ done (
            answered count id 500
              (encode (error_body (opaque_error zero_uuid internal_server_error)))
              w.headers)
  unfolding recovered logged after_handler respond_error answered respond_raw wrap_response_writer
  serve_api-opaque header fresh id l fn ctx w known unwritten outer (inl (text, fails)) =
      rw (serve_api_with header fresh id l fn ctx w known, fails)
        (ap done (
          respond_json_wrapped 500 (opaque_error zero_uuid internal_server_error)
            (record w { headers = insert request_id_header id w.headers }) unwritten))
  serve_api-opaque header fresh id l fn ctx w known unwritten outer (inr panics) =
      rw (serve_api_with header fresh id l fn ctx w known, panics, outer)
        (ap done (
          respond_json_raw 500 (opaque_error zero_uuid internal_server_error)
            (record w { headers = insert request_id_header id w.headers }) unwritten))
