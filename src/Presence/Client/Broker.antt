-- ===== src/Presence/Client/Broker.antt =====
-- lib/mqtt_presence/src/MqttPresenceClient.cpp: how `AsyncMqttPresenceClient::Impl` names itself to the
-- broker, and takes the settings of the broker over.
use kinetic_mirror_matrix_es.Prelude.{
  ℕ, ◌%◌, ◌^◌, Bool, true, false, not, ◌&&◌, ◌||◌, [], some, none, length, ◌==◌, if◌then◌else◌,
}
use kinetic_mirror_matrix_es.Text.{Bytes, eq_bytes, is_empty}
use kinetic_mirror_matrix_es.ConfigStore.{BrokerConfig, ConfigStore, current_config}
use kinetic_mirror_matrix_es.Presence.{offline_payload}
use kinetic_mirror_matrix_es.Presence.Client.{
  AsyncMqttClient, Impl, desired_client_id, initial_reconnect_delay_ms,
}

abbrev pub size16 : Bytes → ℕ
size16 payload = length payload % 2 ^ 16

module _ (l : AsyncMqttClient) where
  -- The two parts of `refreshClientIdentity`: the last will, and the client id.
  unfoldable pub refresh_will : Impl l → Impl l
  refresh_will i =
      if not (is_empty i.logic.topic) && not (eq_bytes i.logic.topic i.last_will_topic)
      then record i {
        last_will_topic = i.logic.topic;
        client = l.set_will i.client i.logic.topic 0 false offline_payload (size16 offline_payload);
      }
      else i

  unfoldable pub refresh_client_id : Bytes → Impl l → Impl l
  refresh_client_id prefix i =
      let desired = desired_client_id prefix i.logic.topic in
      if eq_bytes desired i.client_id
      then i
      else record i { client_id = desired; client = l.set_client_id i.client desired }

  unfoldable pub refresh_client_identity : Bytes → Impl l → Impl l
  refresh_client_identity prefix i =
      if l.connected i.client then i else refresh_client_id prefix (refresh_will i)

  abbrev pub reset_connection : Impl l → Impl l
  reset_connection i = record i {
    connect_attempted = false;
    connect_succeeded = false;
    next_reconnect_ms = 0;
    reconnect_backoff_ms = initial_reconnect_delay_ms;
  }

  abbrev pub credentials : BrokerConfig → l.Client → l.Client
  credentials cfg client =
      if not (is_empty cfg.user) || not (is_empty cfg.pass)
      then l.set_credentials client cfg.user (if is_empty cfg.pass then none else some cfg.pass)
      else l.set_credentials client [] none

  -- Where nothing has changed and no reconnection is forced, nothing is done; else all of it.
  unfoldable pub apply_broker_config : BrokerConfig → Bool → Impl l → Impl l
  apply_broker_config cfg force_reconnect i =
      if ((eq_bytes cfg.host i.broker_host && (cfg.port == i.broker_port))
          && (eq_bytes cfg.user i.broker_user && eq_bytes cfg.pass i.broker_pass))
        && not force_reconnect
      then i
      else (let client = credentials cfg (l.set_server i.client cfg.host cfg.port) in
          reset_connection (record i {
            broker_host = cfg.host;
            broker_port = cfg.port;
            broker_user = cfg.user;
            broker_pass = cfg.pass;
            client = if l.connected client then l.disconnect client else client;
          }))

  unfoldable pub maybe_refresh_broker_config : ConfigStore → Impl l → ConfigStore × Impl l
  maybe_refresh_broker_config store i =
      if store.revision == i.last_config_revision
      then (store, i)
      else (let (loaded, cfg) = current_config store in
          (
            loaded,
            record (apply_broker_config cfg true i) { last_config_revision = store.revision },
          ))
