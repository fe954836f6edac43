-- ===== src/Generate/Collector/Ids.antt =====
-- The operation ids of the collector: one id names one operation, whatever its kind.
use go_http_mqtt_boilerplate.Prelude.{
  ◌≡◌, ◌↔◌, true, false, ◌&&◌, ◌||◌, [], ◌∷◌, Text, Map, insert, has_key, lookup-insert,
  text_eq_iff, text_eq_inst, ok, err, Result-cases, inl, inr, arith,
}
use go_http_mqtt_boilerplate.Generate.Params.{is_ascii_letter_string}
use go_http_mqtt_boilerplate.Generate.DocTypes.{
  TypeInfo, RouteInfo, MqttPublicationInfo, MqttSubscriptionInfo,
}
use go_http_mqtt_boilerplate.Generate.Marks.{Outcome}
use go_http_mqtt_boilerplate.Generate.Collector.{
  OpenApiCollector, check_operation_id, validate_operation_id_format, validate_unique_operation_id,
  stored, keep_route, keep_publication, keep_subscription, process_route, process_publication,
  process_subscription, register_route, register_mqtt_publication, register_mqtt_subscription,
}

-- Each key of the three tables is a word of ASCII letters, and no two tables share a key.
pub record IsIndexed (g : OpenApiCollector) : Type 0 where
  pub letters :
      (k : Text)
      → (has_key k g.http_ops || has_key k g.mqtt_publications || has_key k g.mqtt_subscriptions)
        ≡ true
      → is_ascii_letter_string k ≡ true
  pub http_publications :
      (k : Text) → (has_key k g.http_ops && has_key k g.mqtt_publications) ≡ false
  pub http_subscriptions :
      (k : Text) → (has_key k g.http_ops && has_key k g.mqtt_subscriptions) ≡ false
  pub publications_subscriptions :
      (k : Text) → (has_key k g.mqtt_publications && has_key k g.mqtt_subscriptions) ≡ false

-- an id that no operation has yet
abbrev pub IsFresh : Text → OpenApiCollector → Type 0
IsFresh id g =
    (has_key id g.http_ops ≡ false)
    × (has_key id g.mqtt_publications ≡ false)
    × (has_key id g.mqtt_subscriptions ≡ false)

-- The two validations accept an operation id exactly when it is a word of ASCII letters and no
-- registered operation of any kind has it.
pub check_operation_id_iff :
    (id : Text) (g : OpenApiCollector)
    → (check_operation_id id g ≡ ok tt) ↔ ((is_ascii_letter_string id ≡ true) × IsFresh id g)
unfolding check_operation_id validate_operation_id_format validate_unique_operation_id
    is_ascii_letter_string
check_operation_id_iff [] g = (λ h. ground arith, λ h. ground arith)
check_operation_id_iff (c ∷ id) g = (λ h. ground arith, λ h. ground arith)

stored-IsIndexed :
    {A : Type 0} (store : A → OpenApiCollector → OpenApiCollector) (g : OpenApiCollector)
    (o : Outcome A)
    → ((a : A) (types : Map TypeInfo) → IsIndexed (store a (record g { types = types })))
    → IsIndexed g
    → IsIndexed (stored store g o).0
stored-IsIndexed store g (types, ok a) kept v = kept a types
stored-IsIndexed store g (types, err e) kept v = record {
  letters = v.letters;
  http_publications = v.http_publications;
  http_subscriptions = v.http_subscriptions;
  publications_subscriptions = v.publications_subscriptions;
}

module _ (g : OpenApiCollector) (v : IsIndexed g) (types : Map TypeInfo) (id : Text)
    (word : is_ascii_letter_string id ≡ true) (fresh : IsFresh id g) where
  with_route :
      (info : RouteInfo)
      → IsIndexed (record g { types = types; http_ops = insert id info g.http_ops })
  with_route info = record {
    letters =
        λ k h. ground (arith, v.letters k, lookup-insert id k info g.http_ops, text_eq_iff id k);
    http_publications = λ k.
        ground (arith, v.http_publications k, lookup-insert id k info g.http_ops, text_eq_iff id k);
    http_subscriptions = λ k.
        ground
          (arith, v.http_subscriptions k, lookup-insert id k info g.http_ops, text_eq_iff id k);
    publications_subscriptions = v.publications_subscriptions;
  }

  with_publication :
      (info : MqttPublicationInfo)
      → IsIndexed
          (record g { types = types; mqtt_publications = insert id info g.mqtt_publications })
  with_publication info = record {
    letters = λ k h.
        ground (arith, v.letters k, lookup-insert id k info g.mqtt_publications, text_eq_iff id k);
    http_publications = λ k. ground (
      arith,
      v.http_publications k,
      lookup-insert id k info g.mqtt_publications,
      text_eq_iff id k,
    );
    http_subscriptions = v.http_subscriptions;
    publications_subscriptions = λ k. ground (
      arith,
      v.publications_subscriptions k,
      lookup-insert id k info g.mqtt_publications,
      text_eq_iff id k,
    );
  }

  with_subscription :
      (info : MqttSubscriptionInfo)
      → IsIndexed
          (record g { types = types; mqtt_subscriptions = insert id info g.mqtt_subscriptions })
  with_subscription info = record {
    letters = λ k h.
        ground (arith, v.letters k, lookup-insert id k info g.mqtt_subscriptions, text_eq_iff id k);
    http_publications = v.http_publications;
    http_subscriptions = λ k. ground (
      arith,
      v.http_subscriptions k,
      lookup-insert id k info g.mqtt_subscriptions,
      text_eq_iff id k,
    );
    publications_subscriptions = λ k. ground (
      arith,
      v.publications_subscriptions k,
      lookup-insert id k info g.mqtt_subscriptions,
      text_eq_iff id k,
    );
  }

register_route-IsIndexed :
    (info : RouteInfo) (g : OpenApiCollector) → IsIndexed g → IsIndexed (register_route info g).0
unfolding register_route
register_route-IsIndexed info g v = elim (Result-cases (check_operation_id info.operation_id g)) [
  | inl (a, h) ↦
      let checked = (check_operation_id_iff info.operation_id g).0 h in
      rw (h, register_route)
        (stored-IsIndexed (keep_route info.operation_id) g (process_route info g.types)
          (λ done types. with_route g v types info.operation_id checked.0 checked.1 done) v)
  | inr (e, h) ↦ rw (h, register_route) v
]

register_mqtt_publication-IsIndexed :
    (info : MqttPublicationInfo) (g : OpenApiCollector)
    → IsIndexed g
    → IsIndexed (register_mqtt_publication info g).0
unfolding register_mqtt_publication
register_mqtt_publication-IsIndexed info g v =
    elim (Result-cases (check_operation_id info.operation_id g)) [
      | inl (a, h) ↦
          let checked = (check_operation_id_iff info.operation_id g).0 h in
          rw (h, register_mqtt_publication)
            (stored-IsIndexed (keep_publication info.operation_id) g
              (process_publication info g.types)
              (λ done types. with_publication g v types info.operation_id checked.0 checked.1 done)
              v)
      | inr (e, h) ↦ rw (h, register_mqtt_publication) v
    ]

register_mqtt_subscription-IsIndexed :
    (info : MqttSubscriptionInfo) (g : OpenApiCollector)
    → IsIndexed g
    → IsIndexed (register_mqtt_subscription info g).0
unfolding register_mqtt_subscription
register_mqtt_subscription-IsIndexed info g v =
    elim (Result-cases (check_operation_id info.operation_id g)) [
      | inl (a, h) ↦
          let checked = (check_operation_id_iff info.operation_id g).0 h in
          rw (h, register_mqtt_subscription)
            (stored-IsIndexed (keep_subscription info.operation_id) g
              (process_subscription info g.types)
              (λ done types. with_subscription g v types info.operation_id checked.0 checked.1 done)
              v)
      | inr (e, h) ↦ rw (h, register_mqtt_subscription) v
    ]

-- A registration with the collector.
pub data Operation : Type 0 where
  route : RouteInfo → Operation
  publication : MqttPublicationInfo → Operation
  subscription : MqttSubscriptionInfo → Operation

unfoldable pub register_operation : Operation → OpenApiCollector → OpenApiCollector
register_operation (route info) g = (register_route info g).0
register_operation (publication info) g = (register_mqtt_publication info g).0
register_operation (subscription info) g = (register_mqtt_subscription info g).0

-- Every registration, refused or not, keeps the operation ids words of ASCII letters, and different
-- for routes, publications and subscriptions.
pub register_operation-IsIndexed :
    (op : Operation) (g : OpenApiCollector) → IsIndexed g → IsIndexed (register_operation op g)
unfolding register_operation
register_operation-IsIndexed (route info) g v = register_route-IsIndexed info g v
register_operation-IsIndexed (publication info) g v = register_mqtt_publication-IsIndexed info g v
register_operation-IsIndexed (subscription info) g v = register_mqtt_subscription-IsIndexed info g v
