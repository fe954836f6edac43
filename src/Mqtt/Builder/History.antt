-- ===== src/Mqtt/Builder/History.antt =====
-- A sequence of registrations on one builder, whatever each of them returns.
use go_http_mqtt_boilerplate.Prelude.{
  ℕ, ◌≡◌, refl, ap, ◌∙◌, inl, inr, Bool, true, some, List, [], ◌∷◌, Text, text_eq_iff, text_eq_inst,
  lookup, Result-cases, arith,
}
use go_http_mqtt_boilerplate.Generate.Interface.{MetadataCollector}
use go_http_mqtt_boilerplate.Mqtt.Specs.{PublicationSpec, SubscriptionSpec}
use go_http_mqtt_boilerplate.Mqtt.Builder.{Builder, register_publish, register_subscribe}
use go_http_mqtt_boilerplate.Mqtt.Builder.Invariant.{IsConsistent}
use go_http_mqtt_boilerplate.Mqtt.Builder.Preserve.{
  register_publish-IsConsistent, register_subscribe-IsConsistent,
}
use go_http_mqtt_boilerplate.Mqtt.Builder.Outcomes.{
  register_publish-completed, register_subscribe-completed, register_publish-err,
  register_subscribe-err, register_publish-ok, register_subscribe-ok,
}

pub data Registration : Type 0 where
  publish : Text → PublicationSpec → Registration
  subscribe : Text → SubscriptionSpec → Registration

module _ (c : MetadataCollector) (is_digit : ℕ → Bool) where
  unfoldable pub register : Registration → Builder c → Builder c
  register (publish topic spec) mb = (register_publish c is_digit topic spec mb).0
  register (subscribe topic spec) mb = (register_subscribe c is_digit topic spec mb).0

  unfoldable pub register_all : List Registration → Builder c → Builder c
  unfolding register
  register_all [] mb = mb
  register_all (r ∷ rs) mb = register_all rs (register r mb)

  -- After `Connect` has begun, no registration changes the builder, and so no operation can be added.
  pub register_all-completed :
      (rs : List Registration) (mb : Builder c)
      → mb.registrations_completed ≡ true
      → register_all rs mb ≡ mb
  unfolding register_all
  register_all-completed [] mb h = refl
  register_all-completed (publish topic spec ∷ rs) mb h =
      ap (λ r. register_all rs r.0) (register_publish-completed c is_digit topic spec mb h)
      ∙ register_all-completed rs mb h
  register_all-completed (subscribe topic spec ∷ rs) mb h =
      ap (λ r. register_all rs r.0) (register_subscribe-completed c is_digit topic spec mb h)
      ∙ register_all-completed rs mb h

  pub register-completed :
      (r : Registration) (mb : Builder c) → mb.registrations_completed ≡ true → register r mb ≡ mb
  unfolding register_all
  register-completed r mb h = register_all-completed (r ∷ []) mb h

  register-IsConsistent :
      (r : Registration) (mb : Builder c)
      → IsConsistent c is_digit mb
      → IsConsistent c is_digit (register r mb)
  unfolding register
  register-IsConsistent (publish topic spec) mb v =
      register_publish-IsConsistent c is_digit mb v topic spec
  register-IsConsistent (subscribe topic spec) mb v =
      register_subscribe-IsConsistent c is_digit mb v topic spec

  -- Any sequence of calls of `RegisterPublish` and `RegisterSubscribe`, some refused perhaps, keeps
  -- the builder consistent: the operation ids are the keys of the two tables, which share no key;
  -- each stored operation has a legal QoS and the filter of an accepted pattern; and each stored
  -- subscription has a handler, registered with the router for that filter.
  pub register_all-IsConsistent :
      (rs : List Registration) (mb : Builder c)
      → IsConsistent c is_digit mb
      → IsConsistent c is_digit (register_all rs mb)
  unfolding register_all
  register_all-IsConsistent [] mb v = v
  register_all-IsConsistent (r ∷ rs) mb v =
      register_all-IsConsistent rs (register r mb) (register-IsConsistent r mb v)

  -- What a builder has stored, another one has too.
  pub record Extends (mb mb' : Builder c) : Type 0 where
    pub publications :
        (k : Text) (s : PublicationSpec)
        → lookup k mb.publications ≡ some s
        → lookup k mb'.publications ≡ some s
    pub subscriptions :
        (k : Text) (s : SubscriptionSpec)
        → lookup k mb.subscriptions ≡ some s
        → lookup k mb'.subscriptions ≡ some s

  register_publish-keeps :
      (topic : Text) (spec : PublicationSpec) (mb : Builder c)
      → IsConsistent c is_digit mb
      → Extends mb (register_publish c is_digit topic spec mb).0
  register_publish-keeps topic spec mb v =
      elim (Result-cases (register_publish c is_digit topic spec mb).1) [
        | inl (done, e) ↦
            let p = register_publish-ok c is_digit topic spec mb e in
            record {
              publications = λ k s h.
                  ground
                    (arith, p.stored k, v.ids k, p.allowed.fresh, text_eq_iff spec.operation_id k);
              subscriptions = λ k s h. ap (lookup k) p.subscriptions ∙ h;
            }
        | inr (error, e) ↦
            let same = register_publish-err c is_digit topic spec mb error e in
            record {
              publications = λ k s h. ap (λ (b : Builder c). lookup k b.publications) same ∙ h;
              subscriptions = λ k s h. ap (λ (b : Builder c). lookup k b.subscriptions) same ∙ h;
            }
      ]

  register_subscribe-keeps :
      (topic : Text) (spec : SubscriptionSpec) (mb : Builder c)
      → IsConsistent c is_digit mb
      → Extends mb (register_subscribe c is_digit topic spec mb).0
  register_subscribe-keeps topic spec mb v =
      elim (Result-cases (register_subscribe c is_digit topic spec mb).1) [
        | inl (done, e) ↦
            let p = register_subscribe-ok c is_digit topic spec mb e in
            record {
              publications = λ k s h. ap (lookup k) p.publications ∙ h;
              subscriptions = λ k s h.
                  ground
                    (arith, p.stored k, v.ids k, p.allowed.fresh, text_eq_iff spec.operation_id k);
            }
        | inr (error, e) ↦
            let same = register_subscribe-err c is_digit topic spec mb error e in
            record {
              publications = λ k s h. ap (λ (b : Builder c). lookup k b.publications) same ∙ h;
              subscriptions = λ k s h. ap (λ (b : Builder c). lookup k b.subscriptions) same ∙ h;
            }
      ]

  register-keeps :
      (r : Registration) (mb : Builder c) → IsConsistent c is_digit mb → Extends mb (register r mb)
  unfolding register
  register-keeps (publish topic spec) mb v = register_publish-keeps topic spec mb v
  register-keeps (subscribe topic spec) mb v = register_subscribe-keeps topic spec mb v

  -- In a consistent builder, no later sequence of registrations removes or replaces a stored
  -- publication or subscription.
  pub register_all-Extends :
      (rs : List Registration) (mb : Builder c)
      → IsConsistent c is_digit mb
      → Extends mb (register_all rs mb)
  unfolding register_all
  register_all-Extends [] mb v = record { publications = λ k s h. h; subscriptions = λ k s h. h }
  register_all-Extends (r ∷ rs) mb v =
      let one = register-keeps r mb v in
      let rest = register_all-Extends rs (register r mb) (register-IsConsistent r mb v) in
      record {
        publications = λ k s h. rest.publications k s (one.publications k s h);
        subscriptions = λ k s h. rest.subscriptions k s (one.subscriptions k s h);
      }
