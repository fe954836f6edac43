-- ===== src/Generate/OpenApi/Registered.antt =====
-- The registrations with the collector, and the document that they lead to.
use go_http_mqtt_boilerplate.Prelude.{
  ℕ, ◌≡◌, false, Result-cases, inl, inr, List, [], ◌∷◌, All, All-imp, All-insert, Text, ok, err,
  arith,
}
use go_http_mqtt_boilerplate.Generate.DocTypes.{
  RouteInfo, MqttPublicationInfo, MqttSubscriptionInfo,
}
use go_http_mqtt_boilerplate.Generate.Marks.{Types, http, Outcome}
use go_http_mqtt_boilerplate.Generate.Marks.Growth.{is_marked, IsClosed}
use go_http_mqtt_boilerplate.Generate.Collector.{
  OpenApiCollector, process_route, process_publication, process_subscription, stored, keep_route,
  keep_publication, keep_subscription, check_operation_id, register_route,
  register_mqtt_publication, register_mqtt_subscription,
}
use go_http_mqtt_boilerplate.Generate.Collector.Ids.{
  Operation, route, publication, subscription, register_operation,
}
use go_http_mqtt_boilerplate.Generate.OpenApi.Paths.{ApiInfo, Spec, generate_spec}
use go_http_mqtt_boilerplate.Generate.OpenApi.Components.{IsResolved}
use go_http_mqtt_boilerplate.Generate.OpenApi.Operations.{IsRouteReached}
use go_http_mqtt_boilerplate.Generate.OpenApi.Dangling.{IsLinked, generate_spec-IsLinked}
use go_http_mqtt_boilerplate.Generate.OpenApi.Sound.{IsSound, Advances}
use go_http_mqtt_boilerplate.Generate.OpenApi.Runs.{Runs, Done}
use go_http_mqtt_boilerplate.Generate.OpenApi.Processes.{
  RouteReached, IsRouteReached-Grows, process_route-Runs, process_publication-Runs,
  process_subscription-Runs,
}

-- What the document needs of the collector.
pub record IsReady (g : OpenApiCollector) : Type 0 where
  pub sound : IsSound g.types
  pub routes : All (λ e. IsRouteReached g.types e.1) g.http_ops

-- Registered routes stay so when the types advance.
kept :
    (g : OpenApiCollector) (types : Types)
    → IsReady g
    → Advances g.types types
    → All (λ e. IsRouteReached types e.1) g.http_ops
kept g types r a = All-imp _ _ (λ e s. IsRouteReached-Grows e.1 a.grows s) g.http_ops r.routes

register_route-IsReady :
    (info : RouteInfo) (g : OpenApiCollector) → IsReady g → IsReady (register_route info g).0
unfolding register_route
register_route-IsReady info g r = elim (Result-cases (check_operation_id info.operation_id g)) [
  | inl (a, h) ↦
      rw (h, register_route)
        (stored_route (process_route info g.types) (process_route-Runs info g.types r.sound))
  | inr (e, h) ↦ rw (h, register_route) r
]
  where
    stored_route :
        (o : Outcome RouteInfo)
        → Runs g.types RouteReached o
        → IsReady (stored (keep_route info.operation_id) g o).0
    stored_route (types, ok done) m = record {
      sound = m.advances.sound;
      routes =
          All-insert (λ i. IsRouteReached types i) info.operation_id done g.http_ops m.post
            (kept g types r m.advances);
    }
    stored_route (types, err e) m = record {
      sound = m.advances.sound;
      routes = kept g types r m.advances;
    }

register_mqtt_publication-IsReady :
    (info : MqttPublicationInfo) (g : OpenApiCollector)
    → IsReady g
    → IsReady (register_mqtt_publication info g).0
unfolding register_mqtt_publication
register_mqtt_publication-IsReady info g r =
    elim (Result-cases (check_operation_id info.operation_id g)) [
      | inl (a, h) ↦
          rw (h, register_mqtt_publication)
            (stored_publication (process_publication info g.types)
              (process_publication-Runs info g.types r.sound))
      | inr (e, h) ↦ rw (h, register_mqtt_publication) r
    ]
  where
    stored_publication :
        (o : Outcome MqttPublicationInfo)
        → Runs g.types Done o
        → IsReady (stored (keep_publication info.operation_id) g o).0
    stored_publication (types, ok done) m = record {
      sound = m.advances.sound;
      routes = kept g types r m.advances;
    }
    stored_publication (types, err e) m = record {
      sound = m.advances.sound;
      routes = kept g types r m.advances;
    }

register_mqtt_subscription-IsReady :
    (info : MqttSubscriptionInfo) (g : OpenApiCollector)
    → IsReady g
    → IsReady (register_mqtt_subscription info g).0
unfolding register_mqtt_subscription
register_mqtt_subscription-IsReady info g r =
    elim (Result-cases (check_operation_id info.operation_id g)) [
      | inl (a, h) ↦
          rw (h, register_mqtt_subscription)
            (stored_subscription (process_subscription info g.types)
              (process_subscription-Runs info g.types r.sound))
      | inr (e, h) ↦ rw (h, register_mqtt_subscription) r
    ]
  where
    stored_subscription :
        (o : Outcome MqttSubscriptionInfo)
        → Runs g.types Done o
        → IsReady (stored (keep_subscription info.operation_id) g o).0
    stored_subscription (types, ok done) m = record {
      sound = m.advances.sound;
      routes = kept g types r m.advances;
    }
    stored_subscription (types, err e) m = record {
      sound = m.advances.sound;
      routes = kept g types r m.advances;
    }

register_operation-IsReady :
    (op : Operation) (g : OpenApiCollector) → IsReady g → IsReady (register_operation op g)
unfolding register_operation
register_operation-IsReady (route info) g r = register_route-IsReady info g r
register_operation-IsReady (publication info) g r = register_mqtt_publication-IsReady info g r
register_operation-IsReady (subscription info) g r = register_mqtt_subscription-IsReady info g r

unfoldable pub register_operations : List Operation → OpenApiCollector → OpenApiCollector
register_operations [] g = g
register_operations (op ∷ ops) g = register_operations ops (register_operation op g)

register_operations-IsReady :
    (ops : List Operation) (g : OpenApiCollector) → IsReady g → IsReady (register_operations ops g)
unfolding register_operations
register_operations-IsReady [] g r = r
register_operations-IsReady (op ∷ ops) g r =
    register_operations-IsReady ops (register_operation op g) (register_operation-IsReady op g r)

-- the collector before any registration
abbrev pub new_collector : Types → OpenApiCollector
new_collector types = record {
  types = types;
  http_ops = [];
  mqtt_publications = [];
  mqtt_subscriptions = [];
}

-- For types that name only known types and carry no mark of HTTP, after every sequence of
-- registrations, refused ones among them, a document that is generated has no `$ref`, in a
-- component or in an operation, but those of its components.
pub register_operations-IsLinked :
    (itoa : ℕ → Text) (info : ApiInfo) (types : Types) (ops : List Operation) (spec : Spec)
    → IsResolved types
    → ((k : Text) → is_marked http k types ≡ false)
    → generate_spec itoa info (register_operations ops (new_collector types)) ≡ ok spec
    → IsLinked spec
unfolding IsClosed
register_operations-IsLinked itoa info types ops spec resolved unmarked h =
    let ready = register_operations-IsReady ops (new_collector types) (record {
      sound = record {
        resolved = resolved;
        closed = λ k marked. ground (arith, unmarked k, marked);
      };
      routes = tt;
    }) in
    generate_spec-IsLinked itoa info (register_operations ops (new_collector types)) spec
      ready.sound.resolved ready.sound.closed ready.routes h
