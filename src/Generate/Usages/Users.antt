-- ===== src/Generate/Usages/Users.antt =====
-- Which operations use a type, and in which roles, without the order of the loops of `buildUsedBy`.
use go_http_mqtt_boilerplate.Prelude.{
  ℕ, ◌≡◌, refl, ◌∙◌, Bool, false, ◌&&◌, ◌||◌, Option, none, some, List, [], ◌∷◌, ◌++◌, Text, codes,
  text_eq_inst, ◌==◌, if◌then◌else◌, Map, arith,
}
use mathlib.Core.Path.{ap₂}
use go_http_mqtt_boilerplate.Generate.DocTypes.{
  UsageInfo, RouteInfo, RequestInfo, ResponseInfo, ParameterInfo, MqttPublicationInfo,
  MqttSubscriptionInfo,
}
use go_http_mqtt_boilerplate.Generate.Collector.{OpenApiCollector}
use go_http_mqtt_boilerplate.Generate.Usages.{
  usage_key, request_usages, response_usages, parameter_usages, route_usages, publication_usages,
  subscription_usages, all_usages,
}

abbrev any : {A : Type 0} → (A → Bool) → List A → Bool
any test [] = false
any test (x ∷ xs) = test x || any test xs

-- Some usage with the key is of the type.
unfoldable pub uses : Text → Text → List (Text × UsageInfo) → Bool
uses key r [] = false
uses key r ((name, usage) ∷ usages) =
    let rest = uses key r usages in if name == r then usage_key usage == key || rest else rest

-- The key is that of the operation in the role.
abbrev is_key : Text → Text → Text → Bool
is_key key operation_id role = (operation_id ++ codes ":" ++ role) == key

abbrev takes : Text → Option RequestInfo → Bool
takes r none = false
takes r (some request) = request.type_name == r

module _ (key r : Text) where
  -- The route has the type in its request, in a response or in a parameter, in the role of the key.
  abbrev is_route_user : Text × RouteInfo → Bool
  is_route_user (k, route) =
      takes r route.request && is_key key route.operation_id (codes "request")
      || any
          (λ (response : ℕ × ResponseInfo).
            response.1.type_name == r && is_key key route.operation_id (codes "response"))
          route.responses
      || any
          (λ (parameter : ParameterInfo).
            parameter.type_name == r && is_key key route.operation_id (codes "parameter"))
          route.parameters

  abbrev is_publication_user : Text × MqttPublicationInfo → Bool
  is_publication_user (k, info) =
      info.type_name == r && is_key key info.operation_id (codes "mqtt_publication")

  abbrev is_subscription_user : Text × MqttSubscriptionInfo → Bool
  is_subscription_user (k, info) =
      info.type_name == r && is_key key info.operation_id (codes "mqtt_subscription")

  -- Some registered operation has the type in the role that the key names.
  unfoldable pub is_used_as : OpenApiCollector → Bool
  is_used_as g =
      any is_route_user g.http_ops
      || any is_publication_user g.mqtt_publications
      || any is_subscription_user g.mqtt_subscriptions

  uses-append :
      (xs ys : List (Text × UsageInfo)) → uses key r (xs ++ ys) ≡ (uses key r xs || uses key r ys)
  unfolding uses
  uses-append [] ys = refl
  uses-append ((name, usage) ∷ xs) ys = ground (arith, uses-append xs ys)

  uses-request_usages :
      (id : Text) (request : Option RequestInfo)
      → uses key r (request_usages id request)
        ≡ (takes r request && is_key key id (codes "request"))
  unfolding uses usage_key
  uses-request_usages id none = refl
  uses-request_usages id (some request) = ground arith

  uses-response_usages :
      (id : Text) (responses : List (ℕ × ResponseInfo))
      → uses key r (response_usages id responses)
        ≡ any
            (λ (response : ℕ × ResponseInfo).
              response.1.type_name == r && is_key key id (codes "response"))
            responses
  unfolding uses usage_key
  uses-response_usages id [] = refl
  uses-response_usages id ((code, response) ∷ responses) =
      ground (arith, uses-response_usages id responses)

  uses-parameter_usages :
      (id : Text) (parameters : List ParameterInfo)
      → uses key r (parameter_usages id parameters)
        ≡ any
            (λ (parameter : ParameterInfo).
              parameter.type_name == r && is_key key id (codes "parameter"))
            parameters
  unfolding uses usage_key
  uses-parameter_usages id [] = refl
  uses-parameter_usages id (parameter ∷ parameters) =
      ground (arith, uses-parameter_usages id parameters)

  uses-route_usages :
      (routes : Map RouteInfo) → uses key r (route_usages routes) ≡ any is_route_user routes
  unfolding route_usages uses
  uses-route_usages [] = refl
  uses-route_usages ((k, route) ∷ routes) =
      let requested = request_usages route.operation_id route.request in
      let answered = response_usages route.operation_id route.responses in
      let given = parameter_usages route.operation_id route.parameters in
      uses-append (requested ++ answered ++ given) (route_usages routes)
      ∙ ap₂ ◌||◌
          (uses-append (requested ++ answered) given
            ∙ ap₂ ◌||◌
                (uses-append requested answered
                  ∙ ap₂ ◌||◌ (uses-request_usages route.operation_id route.request)
                      (uses-response_usages route.operation_id route.responses))
                (uses-parameter_usages route.operation_id route.parameters))
          (uses-route_usages routes)

  uses-publication_usages :
      (infos : Map MqttPublicationInfo)
      → uses key r (publication_usages infos) ≡ any is_publication_user infos
  unfolding publication_usages uses usage_key
  uses-publication_usages [] = refl
  uses-publication_usages ((k, info) ∷ infos) = ground (arith, uses-publication_usages infos)

  uses-subscription_usages :
      (infos : Map MqttSubscriptionInfo)
      → uses key r (subscription_usages infos) ≡ any is_subscription_user infos
  unfolding subscription_usages uses usage_key
  uses-subscription_usages [] = refl
  uses-subscription_usages ((k, info) ∷ infos) = ground (arith, uses-subscription_usages infos)

  pub uses-all_usages : (g : OpenApiCollector) → uses key r (all_usages g) ≡ is_used_as g
  unfolding all_usages is_used_as
  uses-all_usages g =
      uses-append (route_usages g.http_ops ++ publication_usages g.mqtt_publications) _
      ∙ ap₂ ◌||◌
          (uses-append (route_usages g.http_ops) _
            ∙ ap₂ ◌||◌ (uses-route_usages g.http_ops) (uses-publication_usages g.mqtt_publications))
          (uses-subscription_usages g.mqtt_subscriptions)
