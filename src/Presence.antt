-- ===== src/Presence.antt =====
-- lib/mqtt_presence: MqttPresenceClient.h and src/MqttPresenceClient.cpp, the class
-- MqttPresenceClient, which tells the broker that the node is there. The function that publishes is
-- a parameter: it takes and gives back a state of the world, with its answer. The status of the
-- network is an argument, and the lines that are logged are kept in order in the member `log`. The
-- configuration, of which no member is read, is left out.
pub mod Calls
pub mod Ready
pub mod Fresh
pub mod Current
pub mod Warnings
pub mod Client
use kinetic_mirror_matrix_es.Prelude.{
  ℕ, ◌+◌, Bool, true, false, not, ◌&&◌, ◌||◌, List, [], ◌∷◌, ◌++◌, leb, ◌==◌, if◌then◌else◌,
}
use kinetic_mirror_matrix_es.Text.{Bytes, codes, eq_bytes, is_empty, is_space}
use kinetic_mirror_matrix_es.Net.{Status, fit, no_ip}
use kinetic_mirror_matrix_es.PublishQueue.{PublishMessage}

abbrev pub topic_prefix : Bytes
topic_prefix = codes "devices/"

abbrev pub topic_suffix : Bytes
topic_suffix = codes "/status"

abbrev pub offline_payload : Bytes
offline_payload = codes "{\"node_state\":\"offline\",\"motors\":{}}"

-- The members.
pub record MqttPresenceClient : Type 0 where
  pub mac_topic : Bytes
  pub topic : Bytes
  pub ready_publish : PublishMessage
  pub last_payload : Bytes
  pub last_ip : Bytes
  pub motion_active : Bool
  pub power_active : Bool
  pub last_motion_active : Bool
  pub last_power_active : Bool
  pub connected : Bool
  pub failure_logged : Bool
  pub publish_pending : Bool
  pub immediate_requested : Bool
  pub last_publish_ms : ℕ
  pub log : List Bytes

-- `std::tolower` in the C locale.
abbrev pub to_lower : ℕ → ℕ
to_lower c = if leb b'A' c && leb c b'Z' then c + 32 else c

unfoldable pub normalize_mac_to_topic : Bytes → Bytes
normalize_mac_to_topic [] = []
normalize_mac_to_topic (c ∷ mac) =
    let rest = normalize_mac_to_topic mac in
    if c == 0
    then []
    else if (c == b':' || c == b'-') || is_space c
    then rest
    else to_lower c ∷ rest

abbrev pub status_topic : Bytes → Bytes
status_topic mac = topic_prefix ++ (mac ++ topic_suffix)

abbrev pub payload_start : Bytes
payload_start = codes "{\"node_state\":\"ready\",\"ip\":\""

abbrev pub payload_end : Bytes
payload_end = codes "\",\"motors\":{}}"

unfoldable pub build_ready_payload : Bytes → Bytes
build_ready_payload ip = payload_start ++ ((if is_empty ip then no_ip else ip) ++ payload_end)

unfoldable pub set_motion_active : Bool → MqttPresenceClient → MqttPresenceClient
set_motion_active active c = record c { motion_active = active }

unfoldable pub set_power_active : Bool → MqttPresenceClient → MqttPresenceClient
set_power_active active c = record c { power_active = active }

unfoldable pub force_immediate : MqttPresenceClient → MqttPresenceClient
force_immediate c = record c { immediate_requested = true }

abbrev pub ip_of : Status → Bytes
ip_of status = if is_empty status.ip then no_ip else status.ip

-- The first part of `updateIdentityIfNeeded`.
unfoldable pub update_ip : Bytes → MqttPresenceClient → MqttPresenceClient
update_ip ip c =
    if eq_bytes ip c.last_ip
    then c
    else record c { last_ip = ip; immediate_requested = c.connected || c.immediate_requested }

-- Its second part, with the normalized MAC.
unfoldable pub update_mac_topic : Bytes → MqttPresenceClient → MqttPresenceClient
update_mac_topic normalized c =
    if is_empty normalized || eq_bytes normalized c.mac_topic then c else record c {
      mac_topic = normalized;
      topic = status_topic normalized;
      ready_publish = record c.ready_publish { topic = status_topic normalized; is_status = true };
      publish_pending = true;
      immediate_requested = c.connected || c.immediate_requested;
    }

unfoldable pub update_identity_if_needed : Status → MqttPresenceClient → MqttPresenceClient
update_identity_if_needed status c =
    let c' = update_ip (ip_of status) c in
    if is_empty status.mac
    then c'
    else update_mac_topic (normalize_mac_to_topic (fit 18 status.mac)) c'

-- The constructor; `mac` is what `deviceMac` writes.
abbrev pub fresh : Bytes → MqttPresenceClient
fresh mac_topic = record {
  mac_topic = mac_topic;
  topic = status_topic mac_topic;
  ready_publish = record {
    topic = status_topic mac_topic;
    payload = [];
    qos = 0;
    retain = false;
    is_status = true;
  };
  last_payload = [];
  last_ip = no_ip;
  motion_active = false;
  power_active = false;
  last_motion_active = false;
  last_power_active = false;
  connected = false;
  failure_logged = false;
  publish_pending = false;
  immediate_requested = false;
  last_publish_ms = 0;
  log = [];
}

unfoldable pub make : Bytes → Status → MqttPresenceClient
make mac status = update_identity_if_needed status (fresh (normalize_mac_to_topic mac))

unfoldable pub handle_connected : ℕ → Bytes → MqttPresenceClient → MqttPresenceClient
handle_connected now_ms broker_info c = record c {
  connected = true;
  failure_logged = false;
  log =
      if is_empty broker_info
      then c.log
      else c.log ++ ((codes "CTRL: MQTT_CONNECTED broker=" ++ broker_info) ∷ []);
  publish_pending = true;
  immediate_requested = true;
  last_publish_ms = if c.last_publish_ms == 0 then now_ms else c.last_publish_ms;
}

unfoldable pub handle_disconnected : MqttPresenceClient → MqttPresenceClient
handle_disconnected c = record c { connected = false }

abbrev pub failure_line : Bytes → Bytes
failure_line details =
    codes "CTRL:WARN MQTT_CONNECT_FAILED" ++ (if is_empty details then [] else codes " " ++ details)

unfoldable pub handle_connect_failure : Bytes → MqttPresenceClient → MqttPresenceClient
handle_connect_failure details c =
    if c.failure_logged
    then c
    else record c { failure_logged = true; log = c.log ++ (failure_line details ∷ []) }

-- The message that `publishReady` prepares.
abbrev pub prepared : MqttPresenceClient → PublishMessage
prepared c = record c.ready_publish {
  topic = c.topic;
  payload = payload_start ++ (c.last_ip ++ payload_end);
}

abbrev pub published : ℕ → MqttPresenceClient → MqttPresenceClient
published now_ms c = record c {
  ready_publish = prepared c;
  last_payload = payload_start ++ (c.last_ip ++ payload_end);
  last_publish_ms = now_ms;
  publish_pending = false;
  immediate_requested = false;
  last_motion_active = c.motion_active;
  last_power_active = c.power_active;
}

abbrev pub differs : Bool → Bool → Bool
differs true b = not b
differs false b = b

-- `immediate_requested_` is set where the motion or the power has changed.
unfoldable pub note_changes : MqttPresenceClient → MqttPresenceClient
note_changes c =
    if differs c.motion_active c.last_motion_active || differs c.power_active c.last_power_active
    then record c { immediate_requested = true }
    else c

-- After `publishReady` has failed, the message stays pending.
unfoldable pub keep_pending :
    {W : Type 0} → (MqttPresenceClient × W) × Bool → MqttPresenceClient × W
keep_pending ((c, w), done) = (if not done then record c { publish_pending = true } else c, w)

module _ {W : Type 0} (publish : W → PublishMessage → W × Bool) where
  unfoldable pub publish_ready : ℕ → MqttPresenceClient → W → (MqttPresenceClient × W) × Bool
  publish_ready now_ms c w =
      let (w', accepted) = publish w (prepared c) in
      if not accepted
      then ((record c { ready_publish = prepared c }, w'), false)
      else ((published now_ms c, w'), true)

  -- What `loop` does while connected, after the changes were looked for.
  unfoldable pub publish_due : ℕ → MqttPresenceClient → W → MqttPresenceClient × W
  publish_due now_ms c w =
      if c.publish_pending || c.immediate_requested
      then keep_pending (publish_ready now_ms c w)
      else (c, w)

  unfoldable pub loop : ℕ → Status → MqttPresenceClient → W → MqttPresenceClient × W
  loop now_ms status c w =
      let c' = update_identity_if_needed status c in
      if not c'.connected then (c', w) else publish_due now_ms (note_changes c') w
