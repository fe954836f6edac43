-- ===== src/Mqtt/Connection.antt =====
-- `Connect`, the registrations, the connection callbacks and the goroutines of
-- backend/pkg/mqtt/mqtt_builder.go as a step relation. A registration is two steps: it loads the flag
-- `registrationsCompleted`, and, where it was unset, it later checks the rest and stores; steps of
-- others come between. The rest is one step, since the maps that it works on have no lock and so
-- must not be used by two at a time. A registration that finds the flag set changes nothing and is
-- no step. `autopaho.NewConnection` starts a connection in the background, so its callbacks run
-- between the statements of `Connect`; `onConnect` starts a goroutine for `SubscribeAll`.
pub mod Requests
pub mod Race
use go_http_mqtt_boilerplate.Prelude.{
  ℕ, suc, ◌+◌, ◌≡◌, Bool, true, false, Option, none, some, List, [], ◌∷◌, ◌++◌, Text, is_some,
}
use go_http_mqtt_boilerplate.Generate.Interface.{MetadataCollector}
use go_http_mqtt_boilerplate.Mqtt.Builder.{Builder}
use go_http_mqtt_boilerplate.Mqtt.Builder.History.{Registration, register}
use go_http_mqtt_boilerplate.Mqtt.Client.{Answer, SubscribeOptions, subscribe_all}

module _ (c : MetadataCollector) (is_digit : ℕ → Bool) where
  -- `loaded`: the registrations that have found the flag unset and have not stored yet;
  -- `opened`: NewConnection has started the connection; `pending`: the goroutines of `onConnect` that
  -- have not run `SubscribeAll` yet; `requests`: what was handed to the manager, the newest first.
  pub record System : Type 0 where
    pub builder : Builder c
    pub loaded : List Registration
    pub opened : Bool
    pub pending : ℕ
    pub requests : List (List SubscribeOptions)

  -- the first statement of `Connect`
  unfoldable pub close_registrations : Builder c → Builder c
  close_registrations mb = record mb { registrations_completed = true }

  -- mb.connMgr = connMgr; mb.wrappedClient.connMgr = connMgr
  unfoldable pub store_manager : ℕ → Builder c → Builder c
  store_manager m mb = record mb { conn_mgr = some m; client_conn_mgr = some m }

  -- the rest of a registration, which has found the flag unset
  unfoldable pub finish : Registration → Builder c → Builder c
  finish r mb = record (register c is_digit r (record mb { registrations_completed = false })) {
    registrations_completed = mb.registrations_completed;
  }

  unfoldable pub on_connect : System → System
  on_connect s = record s {
    builder = record s.builder { connected = true };
    pending = suc s.pending;
  }

  unfoldable pub on_connection_down : System → System
  on_connection_down s = record s { builder = record s.builder { connected = false } }

  -- one goroutine of `onConnect` runs, and logs its error if there is one
  unfoldable pub run_subscribe :
      {F : Type 0} → (List SubscribeOptions → Answer F) → ℕ → System → System
  run_subscribe {F} request left s = record s {
    pending = left;
    requests = (subscribe_all c {J = F} request s.builder).0 ++ s.requests;
  }

  module _ {F : Type 0} (request : List SubscribeOptions → Answer F) where
    pub data Step : System → System → Type 0 where
      loads :
          {s : System} (r : Registration)
          → s.builder.registrations_completed ≡ false
          → Step s (record s { loaded = r ∷ s.loaded })
      finishes :
          {s : System} (before : List Registration) (r : Registration) (after : List Registration)
          → s.loaded ≡ before ++ r ∷ after
          → Step s (record s { builder = finish r s.builder; loaded = before ++ after })
      begins : {s : System} → Step s (record s { builder = close_registrations s.builder })
      opens :
          {s : System}
          → s.builder.registrations_completed ≡ true
          → Step s (record s { opened = true })
      stores :
          {s : System} (m : ℕ)
          → s.opened ≡ true
          → Step s (record s { builder = store_manager m s.builder })
      goes_up : {s : System} → s.opened ≡ true → Step s (on_connect s)
      goes_down : {s : System} → s.builder.connected ≡ true → Step s (on_connection_down s)
      subscribes :
          {s : System} (left : ℕ) → s.pending ≡ suc left → Step s (run_subscribe request left s)

    pub data Reach (s : System) : System → Type 0 where
      here : Reach s s
      next : {t u : System} → Reach s t → Step t u → Reach s u
