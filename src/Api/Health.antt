-- ===== src/Api/Health.antt =====
-- `Ping` and `Health` of backend/internal/local/api/handlers_core.go, and the service beneath the latter
-- in backend/internal/local/services/core.go. Whether the database answers the ping is a parameter.
use go_http_mqtt_boilerplate.Prelude.{
  ℕ, ◌≡◌, refl, ap, ◌∙◌, Bool, true, false, not, ◌||◌, ◌&&◌, Option, none, [], ◌∷◌, ◌++◌, Text,
  codes, insert, if◌then◌else◌, Result,
}
use go_http_mqtt_boilerplate.Generate.Interface.{MetadataCollector}
use go_http_mqtt_boilerplate.Generate.Values.{Value, plain}
use go_http_mqtt_boilerplate.Mqtt.Builder.{Builder}
use go_http_mqtt_boilerplate.Mqtt.Client.{is_connected}
use go_http_mqtt_boilerplate.Api.Context.{Context}
use go_http_mqtt_boilerplate.Api.Writer.{
  Raw, Wrapped, wrap_response_writer, header_sent, write_header, wrapped_writer,
}
use go_http_mqtt_boilerplate.Api.Handlers.{
  Body, payload, returned, done, HandlerFunc, serve_api, request_id_header, recovered, logged,
  after_handler, respond_json, write_body,
}
use go_http_mqtt_boilerplate.Api.Handlers.Failures.{
  IsRequestId, body_calls, answered, serve_api_with, write_encoded_wrapped,
}

pub record HealthStatus : Type 0 where
  pub database : Bool
  pub mqtt : Bool

-- `Health` of the service: the database has answered, or not
unfoldable pub health_status : (c : MetadataCollector) → Bool → Builder c → HealthStatus
unfolding is_connected
health_status c answers mb = record { database = answers; mqtt = is_connected c mb }

abbrev bool_text : Bool → Text
bool_text true = codes "true"
bool_text false = codes "false"

abbrev pub health_response : HealthStatus → Value
health_response status = plain (record {
  name = codes "HealthResponse";
  is_struct = true;
  is_zero = not status.database && not status.mqtt;
  json =
      codes "{\n  \"database\": "
      ++ bool_text status.database
      ++ codes ",\n  \"mqtt\": "
      ++ bool_text status.mqtt
      ++ codes "\n}";
})

abbrev pub health_code : HealthStatus → ℕ
health_code status = if not status.database || not status.mqtt then 503 else 200

health_code-eq :
    (a b : Bool) → health_code (record { database = a; mqtt = b }) ≡ (if a && b then 200 else 503)
health_code-eq true true = refl
health_code-eq true false = refl
health_code-eq false b = refl

abbrev pub pong : Value
pong = plain (record {
  name = codes "PingResponse";
  is_struct = true;
  is_zero = false;
  json = codes "{\n  \"message\": \"Pong\",\n  \"status\": \"OK\"\n}";
})

module _ (encode : Body → Option Text) (count : Text → ℕ) where
  unfoldable pub ping : HandlerFunc Wrapped
  ping ctx w = returned (respond_json encode count 200 (payload pong) w) none

  unfoldable pub health : HealthStatus → HandlerFunc Wrapped
  health status ctx w =
      returned (respond_json encode count (health_code status) (payload (health_response status)) w)
        none

  respond_payload :
      (code : ℕ) (v : Value) (w : Raw)
      → w.calls ≡ []
      → (respond_json encode count code (payload v) (wrap_response_writer w)).inner ≡ record {
        headers = insert (codes "Content-Type") (codes "application/json") w.headers;
        calls = header_sent code ∷ body_calls count (encode (payload v));
      }
  unfolding respond_json write_body wrap_response_writer write_header
  respond_payload code v w h = rw (write_encoded_wrapped, h) refl

  -- A request for the health, with an id or a fresh one, is answered by 200 if the database has
  -- answered and the connection to the broker is up, and else by 503, with a body that tells which of
  -- the two is missing.
  pub serve_api-health :
      {U : Type 0} (c : MetadataCollector) (mb : Builder c) (answers : Bool) (header : Text)
      (fresh : Result U Text) (id : Text) (l : ℕ) (ctx : Context) (w : Raw)
      → IsRequestId header fresh id
      → w.calls ≡ []
      → serve_api encode count header fresh l (health (health_status c answers mb)) ctx w
        ≡ done (
            answered count id
              (if answers && mb.connected then 200 else 503)
              (encode
                (payload (health_response (record { database = answers; mqtt = mb.connected }))))
              w.headers)
  unfolding health health_status is_connected recovered logged after_handler answered
  serve_api-health c mb answers header fresh id l ctx w known unwritten =
      let status : HealthStatus = record { database = answers; mqtt = mb.connected } in
      rw (serve_api_with encode count header fresh id l (health status) ctx w known) (
        ap done (
          respond_payload (health_code status) (health_response status)
            (record w { headers = insert request_id_header id w.headers }) unwritten
          ∙ ap
              (λ code. record {
                headers =
                    insert (codes "Content-Type") (codes "application/json")
                      (insert request_id_header id w.headers);
                calls =
                    header_sent code ∷ body_calls count (encode (payload (health_response status)));
              })
              (health_code-eq answers mb.connected)))
