-- ===== src/Presence/Client/Operations.antt =====
-- lib/mqtt_presence/src/MqttPresenceClient.cpp: the operations of the class AsyncMqttPresenceClient,
-- those of its `Impl`, and the callbacks that it gives to the MQTT library.
use kinetic_mirror_matrix_es.Prelude.{
  ℕ, ◌+◌, ◌*◌, Bool, true, false, not, ◌&&◌, ◌||◌, List, [], ◌∷◌, ◌++◌, Option, some, none, length,
  ltb, leb, ◌==◌, u32, if◌then◌else◌,
}
use kinetic_mirror_matrix_es.Text.{Bytes, codes, eq_bytes, is_empty, to_string}
use kinetic_mirror_matrix_es.Net.{State, Status, connected}
use kinetic_mirror_matrix_es.PublishQueue.{PublishMessage, Queue, enqueue_publish_message}
use kinetic_mirror_matrix_es.ConfigStore.{ConfigStore, current_config}
use kinetic_mirror_matrix_es.Presence.{
  handle_connect_failure, handle_connected, handle_disconnected, make, offline_payload,
  set_motion_active, set_power_active, update_identity_if_needed,
}
use kinetic_mirror_matrix_es.Presence
use kinetic_mirror_matrix_es.Presence.Client.{
  AsyncMqttClient, DisconnectReason, Impl, Subscription, connecting_line, disconnected_line,
  failure_context, initial_reconnect_delay_ms, max_queued_messages, max_reconnect_delay_ms,
  reconnect_line, summary_of,
}
use kinetic_mirror_matrix_es.Presence.Client.Broker.{
  apply_broker_config, maybe_refresh_broker_config, refresh_client_identity, reset_connection,
  size16,
}

abbrev pub is_online : State → Bool
is_online connected = true
is_online _ = false

-- The callbacks that a message calls, with its topic and payload. Only the last part of a message
-- in parts calls them, with the bytes of that part.
unfoldable pub on_message : List Subscription → Bytes → Bytes → ℕ → ℕ → List (ℕ × (Bytes × Bytes))
on_message [] topic part index total = []
on_message (sub ∷ subs) topic part index total =
    let rest = on_message subs topic part index total in
    if not (index + length part == total)
    then []
    else if eq_bytes topic sub.topic
    then (sub.callback, (topic, part)) ∷ rest
    else rest

-- `MQTT_CLIENT_PREFIX` is the argument `prefix`.
module _ (l : AsyncMqttClient) where
  unfoldable pub log : Bytes → Impl l → Impl l
  log line i = record i { logic = record i.logic { log = i.logic.log ++ (line ∷ []) } }

  unfoldable pub connection_summary : Impl l → Bytes
  connection_summary i = summary_of i.broker_host i.broker_port i.broker_user i.client_id

  -- What the logic publishes with.
  unfoldable pub publish_now : l.Client → PublishMessage → l.Client × Bool
  publish_now client m =
      if not (l.connected client)
      then (client, false)
      else (let (client', packet_id) =
            l.publish client m.topic m.qos m.retain m.payload (size16 m.payload) in
          (client', not (packet_id == 0)))

  -- The client and the queue after the call.
  unfoldable pub drain : l.Client → Queue → l.Client × Queue
  drain client [] = (client, [])
  drain client (m ∷ queue) =
      let (client', packet_id) =
        l.publish client m.topic m.qos m.retain m.payload (size16 m.payload) in
      let rest = drain client' queue in if packet_id == 0 then (client', m ∷ queue) else rest

  unfoldable pub drain_publish_queue : Impl l → Impl l
  drain_publish_queue i =
      if not (l.connected i.client)
      then i
      else (let (client, queue) = drain i.client i.publish_queue in
          record i { client = client; publish_queue = queue })

  unfoldable pub schedule_reconnect : ℕ → Impl l → Impl l
  schedule_reconnect now_ms i =
      let scheduled = record i { next_reconnect_ms = u32 (now_ms + i.reconnect_backoff_ms) } in
      let logged = log (reconnect_line (connection_summary i) i.reconnect_backoff_ms) scheduled in
      record logged {
        reconnect_backoff_ms =
            if ltb max_reconnect_delay_ms (u32 (i.reconnect_backoff_ms * 2))
            then max_reconnect_delay_ms
            else u32 (i.reconnect_backoff_ms * 2);
      }

  -- The constructor, over a client of the library.
  unfoldable pub make_impl : l.Client → Bytes → Status → Impl l
  make_impl client mac status = record {
    client = client;
    logic = make mac status;
    publish_queue = [];
    subscriptions = [];
    last_will_topic = [];
    broker_host = [];
    broker_user = [];
    broker_pass = [];
    broker_port = 0;
    client_id = [];
    last_config_revision = 0;
    next_reconnect_ms = 0;
    reconnect_backoff_ms = initial_reconnect_delay_ms;
    connect_attempted = false;
    connect_succeeded = false;
  }

  unfoldable pub begin : Bytes → Status → ConfigStore → Impl l → ConfigStore × Impl l
  begin prefix status store i =
      let refreshed = record i { logic = update_identity_if_needed status i.logic } in
      let (loaded, cfg) = current_config store in
      let applied = apply_broker_config l cfg true refreshed in
      let named =
        refresh_client_identity l prefix
          (record applied { last_config_revision = loaded.revision }) in
      (
        loaded,
        record named { client = l.set_keep_alive (l.set_clean_session named.client true) 30 },
      )

  -- `logConnectAttempt`, `connect` and the two assignments.
  unfoldable pub attempt : Status → Impl l → Impl l
  attempt status i =
      let logged = log (connecting_line (connection_summary i) status) i in
      record logged {
        client = l.connect logged.client;
        connect_attempted = true;
        next_reconnect_ms = 0;
      }

  -- The part of `loop` behind `refreshClientIdentity`.
  unfoldable pub advance : ℕ → Status → Impl l → Impl l
  advance now_ms status i =
      if not (is_online status.state)
      then reset_connection l i
      else if l.connected i.client
      then drain_publish_queue i
      else if not i.connect_attempted
          && (i.next_reconnect_ms == 0 || leb i.next_reconnect_ms now_ms)
      then attempt status i
      else i

  -- The logic's `loop`, which publishes through the client.
  unfoldable pub loop_logic : ℕ → Status → Impl l → Impl l
  loop_logic now_ms status i =
      let (logic, client) = Presence.loop (publish_now) now_ms status i.logic i.client in
      record i { logic = logic; client = client }

  unfoldable pub loop : Bytes → ℕ → Status → ConfigStore → Impl l → ConfigStore × Impl l
  loop prefix now_ms status store i =
      let (store', refreshed) = maybe_refresh_broker_config l store i in
      (
        store',
        advance now_ms status
            (refresh_client_identity l prefix (loop_logic now_ms status refreshed)),
      )

  unfoldable pub update_motion_state : Bool → Impl l → Impl l
  update_motion_state active i = record i { logic = set_motion_active active i.logic }

  unfoldable pub update_power_state : Bool → Impl l → Impl l
  update_power_state active i = record i { logic = set_power_active active i.logic }

  unfoldable pub enqueue_publish : PublishMessage → Impl l → Impl l
  enqueue_publish m i = record i {
    publish_queue = enqueue_publish_message i.publish_queue max_queued_messages m;
  }

  unfoldable pub subscribe : Bytes → ℕ → Option ℕ → Impl l → Impl l × Bool
  subscribe topic qos none i = (i, false)
  subscribe topic qos (some callback) i = if is_empty topic then (i, false) else (
    record i {
      subscriptions =
          i.subscriptions ++ (record { topic = topic; qos = qos; callback = callback } ∷ []);
      client = if l.connected i.client then l.subscribe i.client topic qos else i.client;
    },
    true,
  )

  abbrev subscribe_all : List Subscription → l.Client → l.Client
  subscribe_all [] client = client
  subscribe_all (sub ∷ subs) client = subscribe_all subs (l.subscribe client sub.topic sub.qos)

  unfoldable pub on_connect : ℕ → Impl l → Impl l
  on_connect now_ms i = record i {
    connect_succeeded = true;
    connect_attempted = true;
    reconnect_backoff_ms = initial_reconnect_delay_ms;
    next_reconnect_ms = 0;
    logic =
        handle_connected now_ms (i.broker_host ++ (codes ":" ++ to_string i.broker_port)) i.logic;
    client = subscribe_all i.subscriptions i.client;
  }

  -- The part of `onDisconnect` that plans the next attempt.
  unfoldable pub plan_reconnect : ℕ → Status → Impl l → Impl l
  plan_reconnect now_ms status i =
      if is_online status.state
      then schedule_reconnect now_ms i
      else record i { next_reconnect_ms = 0; reconnect_backoff_ms = initial_reconnect_delay_ms }

  unfoldable pub on_disconnect : ℕ → Status → DisconnectReason → Impl l → Impl l
  on_disconnect now_ms status reason i =
      let down = record i {
        logic = handle_disconnected i.logic;
        connect_attempted = false;
        connect_succeeded = false;
      } in
      let logged = log (disconnected_line (connection_summary down) reason) down in
      let planned = plan_reconnect now_ms status logged in
      record planned {
        logic =
            handle_connect_failure (failure_context (connection_summary planned) reason)
              planned.logic;
      }
