-- ===== src/Mqtt/Connection/Race.antt =====
-- The first connection can come up before `Connect` has stored the connection manager. Then the
-- goroutine of `onConnect` finds no manager, and nothing is subscribed until the next reconnect.
use go_http_mqtt_boilerplate.Prelude.{ℕ, ◌≡◌, refl, Bool, true, none, List, [], is_some, arith}
use go_http_mqtt_boilerplate.Generate.Interface.{MetadataCollector}
use go_http_mqtt_boilerplate.Mqtt.Client.{Answer, SubscribeOptions, subscribe_all}
use go_http_mqtt_boilerplate.Mqtt.Connection.{
  System, Reach, begins, opens, stores, goes_up, subscribes, here, next, close_registrations,
  store_manager, on_connect, run_subscribe,
}

module _ (c : MetadataCollector) (is_digit : ℕ → Bool) where
  -- The connection is up and its manager is stored, and no goroutine is left to subscribe.
  pub record IsSilent (s : System c is_digit) : Type 0 where
    pub up : s.builder.connected ≡ true
    pub managed : is_some s.builder.client_conn_mgr ≡ true
    pub idle : s.pending ≡ 0
    pub unsubscribed : s.requests ≡ []

  -- From every builder that has not connected yet, with any subscriptions, some run connects and
  -- leaves `Connect` with the connection up, the subscriptions as registered, and nothing
  -- subscribed at the broker.
  pub Reach-IsSilent :
      {F : Type 0} (request : List SubscribeOptions → Answer F) (m : ℕ) (s : System c is_digit)
      → s.builder.client_conn_mgr ≡ none
      → s.pending ≡ 0
      → s.requests ≡ []
      → (t : System c is_digit) × Reach c is_digit request s t
        × IsSilent t
        × (t.builder.subscriptions ≡ s.builder.subscriptions)
  unfolding close_registrations store_manager on_connect run_subscribe subscribe_all
  Reach-IsSilent request m s unmanaged idle unsent =
      let begun : System c is_digit = record s {
        builder = close_registrations c is_digit s.builder;
      } in
      let opening : System c is_digit = record begun { opened = true } in
      let up : System c is_digit = on_connect c is_digit opening in
      let missed : System c is_digit = run_subscribe c is_digit request s.pending up in
      let t : System c is_digit = record missed {
        builder = store_manager c is_digit m missed.builder;
      } in
      let run : Reach c is_digit request s t =
        next
          (next (next (next (next here begins) (opens refl)) (goes_up refl))
            (subscribes s.pending refl))
          (stores m refl) in
      (t, run, record { up = refl; managed = refl; idle = idle; unsubscribed = ground arith }, refl)
