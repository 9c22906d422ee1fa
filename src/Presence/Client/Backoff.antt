-- ===== src/Presence/Client/Backoff.antt =====
-- lib/mqtt_presence/src/MqttPresenceClient.cpp: the delay before the next attempt to connect.
use kinetic_mirror_matrix_es.Prelude.{
  ℕ, ◌+◌, ◌*◌, ◌≤◌, ◌≡◌, refl, sym, subst, Bool, true, List, [], ◌∷◌, Option, some, none, arith,
  ltb, u32, if◌then◌else◌,
}
use kinetic_mirror_matrix_es.Text.{Bytes}
use kinetic_mirror_matrix_es.Net.{Status}
use kinetic_mirror_matrix_es.PublishQueue.{PublishMessage}
use kinetic_mirror_matrix_es.ConfigStore.{
  BrokerConfig, ConfigStore, ConfigUpdate, apply_update, current_config,
}
use kinetic_mirror_matrix_es.Presence.Client.{AsyncMqttClient, DisconnectReason, Impl}
use kinetic_mirror_matrix_es.Presence.Client.Operations.{
  advance, attempt, begin, drain_publish_queue, enqueue_publish, is_online, log, loop, loop_logic,
  make_impl, on_connect, on_disconnect, plan_reconnect, schedule_reconnect, subscribe,
  update_motion_state, update_power_state,
}
use kinetic_mirror_matrix_es.Presence.Client.Broker.{
  apply_broker_config, maybe_refresh_broker_config, refresh_client_id, refresh_client_identity,
  refresh_will,
}

pub data Call : Type 0 where
  begin_call : Bytes → Status → Call
  loop_call : Bytes → ℕ → Status → Call
  motion_call power_call : Bool → Call
  enqueue_call : PublishMessage → Call
  subscribe_call : Bytes → ℕ → Option ℕ → Call
  connect_call : ℕ → Call
  disconnect_call : ℕ → Status → DisconnectReason → Call
  settings_call : ConfigUpdate → Option Bytes → Call

module _ (l : AsyncMqttClient) where
  -- The library's calls back, the calls of the program, and updates of the settings.
  unfoldable pub apply : Call → ConfigStore × Impl l → ConfigStore × Impl l
  apply (begin_call prefix status) (store, i) = begin l prefix status store i
  apply (loop_call prefix now_ms status) (store, i) = loop l prefix now_ms status store i
  apply (motion_call active) (store, i) = (store, update_motion_state l active i)
  apply (power_call active) (store, i) = (store, update_power_state l active i)
  apply (enqueue_call m) (store, i) = (store, enqueue_publish l m i)
  apply (subscribe_call topic qos callback) (store, i) =
      (store, (subscribe l topic qos callback i).0)
  apply (connect_call now_ms) (store, i) = (store, on_connect l now_ms i)
  apply (disconnect_call now_ms status reason) (store, i) =
      (store, on_disconnect l now_ms status reason i)
  apply (settings_call u error) (store, i) = ((apply_update store u error).0, i)

  abbrev pub run : List Call → ConfigStore × Impl l → ConfigStore × Impl l
  run [] s = s
  run (x ∷ calls) s = run calls (apply x s)

  -- The delay that the next lost connection waits for.
  abbrev pub IsDelay : ℕ → Type 0
  IsDelay ms = (1000 ≤ ms) × (ms ≤ 30000)

  abbrev pub delay_of : Impl l → ℕ
  delay_of i = i.reconnect_backoff_ms

  apply_broker_config-IsDelay :
      (cfg : BrokerConfig) (force : Bool) (i : Impl l)
      → IsDelay (delay_of i)
      → IsDelay (delay_of (apply_broker_config l cfg force i))
  unfolding apply_broker_config
  apply_broker_config-IsDelay cfg force i h = ground arith

  maybe_refresh-IsDelay :
      (store : ConfigStore) (i : Impl l)
      → IsDelay (delay_of i)
      → IsDelay (delay_of (maybe_refresh_broker_config l store i).1)
  unfolding maybe_refresh_broker_config
  maybe_refresh-IsDelay store i h =
      ground (arith, apply_broker_config-IsDelay (current_config store).1 true i h)

  refresh_client_identity-delay :
      (prefix : Bytes) (i : Impl l) → delay_of (refresh_client_identity l prefix i) ≡ delay_of i
  unfolding refresh_client_identity refresh_client_id refresh_will
  refresh_client_identity-delay prefix i = ground arith

  advance-IsDelay :
      (now_ms : ℕ) (status : Status) (i : Impl l)
      → IsDelay (delay_of i)
      → IsDelay (delay_of (advance l now_ms status i))
  unfolding advance attempt log drain_publish_queue
  advance-IsDelay now_ms status i h = ground arith

  plan_reconnect-IsDelay :
      (now_ms : ℕ) (status : Status) (i : Impl l)
      → IsDelay (delay_of i)
      → IsDelay (delay_of (plan_reconnect l now_ms status i))
  unfolding plan_reconnect schedule_reconnect log
  plan_reconnect-IsDelay now_ms status i h = ground arith

  subscribe-delay :
      (topic : Bytes) (qos : ℕ) (callback : Option ℕ) (i : Impl l)
      → delay_of (subscribe l topic qos callback i).0 ≡ delay_of i
  unfolding subscribe
  subscribe-delay topic qos none i = refl
  subscribe-delay topic qos (some callback) i = ground arith

  apply-IsDelay :
      (x : Call) (store : ConfigStore) (i : Impl l)
      → IsDelay (delay_of i)
      → IsDelay (delay_of (apply x (store, i)).1)
  unfolding apply loop begin loop_logic update_motion_state update_power_state enqueue_publish
      on_connect on_disconnect log
  apply-IsDelay (begin_call prefix status) store i h =
      subst IsDelay (sym (refresh_client_identity-delay prefix _))
        (apply_broker_config-IsDelay (current_config store).1 true _ h)
  apply-IsDelay (loop_call prefix now_ms status) store i h = advance-IsDelay now_ms status _ (
      subst IsDelay (sym (refresh_client_identity-delay prefix _))
        (maybe_refresh-IsDelay store i h))
  apply-IsDelay (motion_call active) store i h = h
  apply-IsDelay (power_call active) store i h = h
  apply-IsDelay (enqueue_call m) store i h = h
  apply-IsDelay (subscribe_call topic qos callback) store i h =
      subst IsDelay (sym (subscribe-delay topic qos callback i)) h
  apply-IsDelay (connect_call now_ms) store i h = omega arith
  apply-IsDelay (disconnect_call now_ms status reason) store i h =
      plan_reconnect-IsDelay now_ms status _ h
  apply-IsDelay (settings_call u error) store i h = h

  run-IsDelay :
      (calls : List Call) (store : ConfigStore) (i : Impl l)
      → IsDelay (delay_of i)
      → IsDelay (delay_of (run calls (store, i)).1)
  run-IsDelay [] store i h = h
  run-IsDelay (x ∷ calls) store i h = run-IsDelay calls _ _ (apply-IsDelay x store i h)

  on_disconnect-waits :
      (now_ms : ℕ) (status : Status) (reason : DisconnectReason) (i : Impl l)
      → is_online status.state ≡ true
      → IsDelay (delay_of i)
      → ((on_disconnect l now_ms status reason i).next_reconnect_ms ≡ u32 (now_ms + delay_of i))
        × (delay_of (on_disconnect l now_ms status reason i)
            ≡ (if ltb 15000 (delay_of i) then 30000 else 2 * delay_of i))
  unfolding on_disconnect plan_reconnect schedule_reconnect log
  on_disconnect-waits now_ms status reason i on h = rw on (refl, ground arith)

  -- After any calls, a connection that is lost at a time while the network is up is planned to be
  -- tried again from 1 to 30 seconds later (in 32 bits), and the wait after the next loss is twice
  -- as long, up to 30 seconds.
  pub run-on_disconnect-waits :
      (client : l.Client) (mac : Bytes) (initial status : Status) (store : ConfigStore)
      (calls : List Call) (now_ms : ℕ) (reason : DisconnectReason)
      → is_online status.state ≡ true
      → let i = (run calls (store, make_impl l client mac initial)).1 in
        let after = on_disconnect l now_ms status reason i in
        (after.next_reconnect_ms ≡ u32 (now_ms + delay_of i))
        × (IsDelay (delay_of i)
            × (delay_of after ≡ (if ltb 15000 (delay_of i) then 30000 else 2 * delay_of i)))
  unfolding make_impl
  run-on_disconnect-waits client mac initial status store calls now_ms reason on =
      let h = run-IsDelay calls store (make_impl l client mac initial) (omega arith) in
      let i = (run calls (store, make_impl l client mac initial)).1 in
      let (next, doubled) = on_disconnect-waits now_ms status reason i on h in (next, (h, doubled))
