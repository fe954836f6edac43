-- ===== src/Mqtt/Connection/Requests.antt =====
-- Once Connect has begun and no registration is on its way, each request of the client is for all
-- registered subscriptions.
use go_http_mqtt_boilerplate.Prelude.{
  ℕ, ◌≡◌, ◌≢◌, refl, sym, ap, ◌∙◌, Bool, true, false, some, List, [], ◌∷◌, ◌++◌, Text, Map, lookup,
  All, All-append, is_some, Option-cases, inl, inr, arith,
}
use mathlib.Core.Path.{subst}
use go_http_mqtt_boilerplate.Generate.Interface.{MetadataCollector}
use go_http_mqtt_boilerplate.Mqtt.Builder.{
  Builder, register_publish, register_subscribe, store_publication, store_subscription,
}
use go_http_mqtt_boilerplate.Mqtt.Specs.{SubscriptionSpec}
use go_http_mqtt_boilerplate.Mqtt.Builder.Invariant.{Has}
use go_http_mqtt_boilerplate.Mqtt.Client.Laws.{subscribe_options-Has}
use go_http_mqtt_boilerplate.Mqtt.Builder.History.{Registration, publish, subscribe, register}
use go_http_mqtt_boilerplate.Mqtt.Client.{
  Answer, SubscribeOptions, subscribe_options, subscribe_all, subscribe_some,
}
use go_http_mqtt_boilerplate.Mqtt.Connection.{
  System, Step, Reach, loads, finishes, begins, opens, stores, goes_up, goes_down, subscribes, here,
  next, close_registrations, store_manager, on_connect, on_connection_down, run_subscribe, finish,
}

module _ (c : MetadataCollector) (is_digit : ℕ → Bool) where
  -- Registrations leave the connection alone.
  record SameConnection (mb mb' : Builder c) : Type 0 where
    manager : mb'.client_conn_mgr ≡ mb.client_conn_mgr
    connected : mb'.connected ≡ mb.connected
    completed : mb'.registrations_completed ≡ mb.registrations_completed

  register-SameConnection :
      (r : Registration) (mb : Builder c) → SameConnection mb (register c is_digit r mb)
  unfolding register register_publish register_subscribe store_publication store_subscription
  register-SameConnection (publish topic spec) mb = ground arith
  register-SameConnection (subscribe topic spec) mb = ground arith

  finish-SameConnection :
      (r : Registration) (mb : Builder c) → SameConnection mb (finish c is_digit r mb)
  unfolding finish
  finish-SameConnection r mb =
      let same = register-SameConnection r (record mb { registrations_completed = false }) in
      record { manager = same.manager; connected = same.connected; completed = refl }

  -- The order of the flags, and when requests are sent.
  pub record IsOrdered (s : System c is_digit) : Type 0 where
    pub opened : s.opened ≡ true → s.builder.registrations_completed ≡ true
    pub connected : s.builder.connected ≡ true → s.opened ≡ true
    pub managed : is_some s.builder.client_conn_mgr ≡ true → s.opened ≡ true
    pub unsent : is_some s.builder.client_conn_mgr ≡ false → s.requests ≡ []

  -- The request asks for the filter of every stored subscription at its QoS.
  abbrev pub Covers : Map SubscriptionSpec → List SubscribeOptions → Type 0
  Covers subscriptions options =
      (id : Text) (spec : SubscriptionSpec)
      → lookup id subscriptions ≡ some spec
      → Has (record { topic = spec.topic_mqtt; qos = spec.qos }) options

  -- Connect has begun, no registration is on its way, and every request asked for all subscriptions.
  pub record IsSettled (subscriptions : Map SubscriptionSpec) (s : System c is_digit) : Type 0 where
    pub closed : s.builder.registrations_completed ≡ true
    pub quiet : s.loaded ≡ []
    pub kept : s.builder.subscriptions ≡ subscriptions
    pub covered : All (Covers subscriptions) s.requests

  finish-IsOrdered :
      (r : Registration) (left : List Registration) (s : System c is_digit)
      → IsOrdered s
      → IsOrdered (record s { builder = finish c is_digit r s.builder; loaded = left })
  finish-IsOrdered r left s v =
      let same = finish-SameConnection r s.builder in
      record {
        opened = λ o. same.completed ∙ v.opened o;
        connected = λ o. v.connected (sym same.connected ∙ o);
        managed = λ o. v.managed (ap is_some (sym same.manager) ∙ o);
        unsent = λ o. v.unsent (ap is_some (sym same.manager) ∙ o);
      }

  not_quiet :
      (before : List Registration) (r : Registration) (after : List Registration)
      → before ++ r ∷ after ≢ []
  not_quiet [] r after e = cc e
  not_quiet (b ∷ before) r after e = cc e

  module _ {F : Type 0} (request : List SubscribeOptions → Answer F) where
    subscribe_some-Covers :
        (subscriptions : Map SubscriptionSpec) (options : List SubscribeOptions)
        → Covers subscriptions options
        → All (Covers subscriptions) (subscribe_some c {J = F} request options).0
    unfolding subscribe_some
    subscribe_some-Covers subscriptions [] h = tt
    subscribe_some-Covers subscriptions (o ∷ os) h = (h, tt)

    subscribe_all-Covers :
        (mb : Builder c) → All (Covers mb.subscriptions) (subscribe_all c {J = F} request mb).0
    unfolding subscribe_all
    subscribe_all-Covers mb = elim (Option-cases mb.client_conn_mgr) [
      | inl unset ↦ rw (unset, subscribe_all) tt
      | inr (m, set) ↦
          rw (set, subscribe_all)
            (subscribe_some-Covers mb.subscriptions (subscribe_options mb.subscriptions)
              (λ id spec e. subscribe_options-Has id spec mb.subscriptions e))
    ]

    subscribe_all-unmanaged :
        (mb : Builder c)
        → is_some mb.client_conn_mgr ≡ false
        → (subscribe_all c {J = F} request mb).0 ≡ []
    unfolding subscribe_all
    subscribe_all-unmanaged mb h = ground arith

    Step-IsOrdered :
        {s t : System c is_digit} → Step c is_digit request s t → IsOrdered s → IsOrdered t
    unfolding close_registrations store_manager on_connect on_connection_down run_subscribe
    Step-IsOrdered (loads {s} r h) v = record {
      opened = v.opened;
      connected = v.connected;
      managed = v.managed;
      unsent = v.unsent;
    }
    Step-IsOrdered (finishes {s} before r after h) v = finish-IsOrdered r (before ++ after) s v
    Step-IsOrdered (begins {s}) v = record {
      opened = λ o. refl;
      connected = v.connected;
      managed = v.managed;
      unsent = v.unsent;
    }
    Step-IsOrdered (opens {s} h) v = record {
      opened = λ o. h;
      connected = λ u. refl;
      managed = λ m. refl;
      unsent = v.unsent;
    }
    Step-IsOrdered (stores {s} m h) v = record {
      opened = v.opened;
      connected = v.connected;
      managed = λ e. h;
      unsent = λ e. cc e;
    }
    Step-IsOrdered (goes_up {s} h) v = record {
      opened = v.opened;
      connected = λ e. h;
      managed = v.managed;
      unsent = v.unsent;
    }
    Step-IsOrdered (goes_down {s} h) v = record {
      opened = v.opened;
      connected = λ e. cc e;
      managed = v.managed;
      unsent = v.unsent;
    }
    Step-IsOrdered (subscribes {s} left h) v = record {
      opened = v.opened;
      connected = v.connected;
      managed = v.managed;
      unsent = λ e. rw (subscribe_all-unmanaged s.builder e) (v.unsent e);
    }

    Step-IsSettled :
        {s t : System c is_digit} {subscriptions : Map SubscriptionSpec}
        → Step c is_digit request s t
        → IsSettled subscriptions s
        → IsSettled subscriptions t
    unfolding close_registrations store_manager on_connect on_connection_down run_subscribe
    Step-IsSettled (loads {s} r h) v = absurd (cc (h, v.closed))
    Step-IsSettled (finishes {s} before r after h) v =
        elim (not_quiet before r after (sym h ∙ v.quiet)) [ ]
    Step-IsSettled (begins {s}) v = record {
      closed = refl;
      quiet = v.quiet;
      kept = v.kept;
      covered = v.covered;
    }
    Step-IsSettled (opens {s} h) v = record {
      closed = v.closed;
      quiet = v.quiet;
      kept = v.kept;
      covered = v.covered;
    }
    Step-IsSettled (stores {s} m h) v = record {
      closed = v.closed;
      quiet = v.quiet;
      kept = v.kept;
      covered = v.covered;
    }
    Step-IsSettled (goes_up {s} h) v = record {
      closed = v.closed;
      quiet = v.quiet;
      kept = v.kept;
      covered = v.covered;
    }
    Step-IsSettled (goes_down {s} h) v = record {
      closed = v.closed;
      quiet = v.quiet;
      kept = v.kept;
      covered = v.covered;
    }
    Step-IsSettled (subscribes {s} left h) v = record {
      closed = v.closed;
      quiet = v.quiet;
      kept = v.kept;
      covered =
          All-append _ _ _
            (subst (λ m. All (Covers m) (subscribe_all c {J = F} request s.builder).0) v.kept
              (subscribe_all-Covers s.builder))
            v.covered;
    }

    pub Reach-IsOrdered :
        {s t : System c is_digit} → IsOrdered s → Reach c is_digit request s t → IsOrdered t
    Reach-IsOrdered v here = v
    Reach-IsOrdered v (next r st) = Step-IsOrdered st (Reach-IsOrdered v r)

    run-IsSettled :
        {s t : System c is_digit} {subscriptions : Map SubscriptionSpec}
        → IsSettled subscriptions s
        → Reach c is_digit request s t
        → IsSettled subscriptions t
    run-IsSettled v here = v
    run-IsSettled v (next r st) = Step-IsSettled st (run-IsSettled v r)

    -- In every run from an ordered state where Connect has begun, no registration is on its way and
    -- nothing has been requested yet, however the callbacks, the goroutines, Connect and further
    -- calls of registrations interleave: the subscriptions stay as they are; every request asks for
    -- the filter of each of them, at its QoS; a connection is up only after `NewConnection` has
    -- begun; and nothing is requested before the manager is stored.
    pub Reach-IsSettled :
        {s t : System c is_digit}
        → IsOrdered s
        → s.builder.registrations_completed ≡ true
        → s.loaded ≡ []
        → s.requests ≡ []
        → Reach c is_digit request s t
        → IsSettled s.builder.subscriptions t × IsOrdered t
    Reach-IsSettled v closed quiet unsent run = (
      run-IsSettled (record { closed = closed; quiet = quiet; kept = refl; covered = rw unsent tt })
          run,
      Reach-IsOrdered v run,
    )
