-- ===== src/Lib.antt =====
-- The backend of the boilerplate: HTTP routes and MQTT operations are registered with builders, which
-- check them, report them to a documentation collector, and store what the running program needs.
--
-- Parts and files:
-- * Generate models backend/pkg/generate. Generate.Sanitize has `SanitizePath` and Generate.Params the
--   parameter names of helpers.go; Generate.DocTypes the records of doctypes.go; Generate.Values the
--   tests on values of type `any` of collector.go and collector_ast.go; Generate.Interface the interface
--   `MetadataCollector` of generator.go, a record of a state and operations that the builders take.
--   Generate.Marks has the marks and representations of types, and Generate.Collector the registrations
--   of `OpenAPICollector`, both of collector_register.go; it is a `MetadataCollector`.
--   Generate.Relations has `buildReferencedBy` and Generate.Usages `buildUsedBy` of
--   collector_relations.go.
-- * Generate.Extract models the extraction of types from Go files: Generate.Extract.Ast the syntax that
--   is read, Generate.Extract.Analyze, Comments, Fields and Files collector_ast.go, and
--   Generate.Extract.Enums collector_enum.go.
-- * Generate.OpenApi models openapi.go: Generate.OpenApi.Schema the schemas of types, Document the
--   components and operations, and Paths the whole document, with the method `generateOpenAPISpec` of
--   collector.go. The extraction gives the collector its types; the registrations mark those that HTTP
--   uses; and the document has a component for each of these.
-- * Mqtt models backend/pkg/mqtt. Mqtt.Topic has the patterns and Mqtt.Parameters the topic parameters
--   of helpers.go, Mqtt.Specs the specifications of specs.go, Mqtt.Builder the registrations of
--   mqtt_builder.go, Mqtt.Client `Publish` and `SubscribeAll` of client.go, and Mqtt.Connection `Connect`,
--   its callbacks and the registrations as a step relation, since autopaho runs the callbacks at the
--   same time; a registration loads the flag in one step and stores in another.
-- * Router models backend/pkg/router: Router.Spec and Router.Parameters helpers.go, and Router.Builder
--   `RouteBuilder` of route_builder.go with its nested groups.
-- * Api models backend/internal/shared/api and ErrorResponse of backend/internal/shared/types: contexts,
--   the writer of the request logger, error responses, the middlewares in the order of
--   backend/cmd/local/main.go, `DecodeJSON` with backend/pkg/utils/json.go, and `GenerateResponses`.
--   Api.Health has `Ping` and `Health` of backend/internal/local/api/handlers_core.go, with the service of
--   backend/internal/local/services/core.go.
-- * Utils models url.go and version.go of backend/pkg/utils and the environment that
--   backend/internal/config/config.go reads.
-- * Prelude has what these share: tests, lists, texts, results, maps.
--
-- Conventions: a text is the list of its code points. A Go map is an association list in the order in
-- which `range` visits it; Go leaves this order open, so nothing rests on it. A pointer that may be nil
-- is an `Option`. A method returns the next state beside its result. A handler is a number that stands
-- for the function. Log lines are left out, but for the entry of the request logger.
--
-- Parameters: `unicode.IsDigit` beyond ASCII, the JSON encoder, the JSON decoder with the limited
-- reader of the body, the byte counts of net/http, the answers of autopaho's connection manager,
-- uuid.NewV7, `sort.Strings`, `strconv.Itoa`, the ping of the database, and the records `Library`,
-- `UrlLibrary` and `EnvLibrary` of functions of Go's standard library.
--
-- Fuel: the loop of `SanitizePath` has the length of the path as fuel, which is enough since each round
-- that runs makes the path shorter; the equation with the specification does not mention it. The
-- recursion of `markTypeAsUsedBy` has one more than the number of types, since each call that recurs marks
-- one type more.
--
-- Not modelled: the loading of Go packages and the rendering of sources, which are calls of go/packages,
-- go/printer and guts; the writing of the documents; the registrations of the two programs, database
-- access, migrations and start-up; the web application.
pub mod Prelude
pub mod Generate
pub mod Mqtt
pub mod Router
pub mod Api
pub mod Utils
