-- ===== src/Presence/Client.antt =====
-- lib/mqtt_presence/src/MqttPresenceClient.cpp: the class AsyncMqttPresenceClient, which joins the
-- logic of Presence to the MQTT library. The library's client is a parameter, a state with the
-- calls that the source makes; a call of it returns before the library calls back. The settings,
-- the status of the network and the time are arguments. The lines that are logged go to the `log`
-- of the logic, in order. `MQTT_CLIENT_PREFIX` is an argument.
pub mod Broker
pub mod Operations
pub mod Backoff
pub mod Drain
pub mod Settings
use kinetic_mirror_matrix_es.Prelude.{
  ℕ, ◌+◌, Bool, not, ◌||◌, List, [], ◌∷◌, ◌++◌, Option, some, none, ◌==◌, if◌then◌else◌,
}
use kinetic_mirror_matrix_es.Text.{Bytes, codes, is_empty, to_string}
use kinetic_mirror_matrix_es.Net.{State, Status, ap_active, connecting, connected}
use kinetic_mirror_matrix_es.PublishQueue.{Queue}
use kinetic_mirror_matrix_es.Presence.{MqttPresenceClient, topic_prefix}
use kinetic_mirror_matrix_es.Presence

abbrev pub initial_reconnect_delay_ms : ℕ
initial_reconnect_delay_ms = 1000

abbrev pub max_reconnect_delay_ms : ℕ
max_reconnect_delay_ms = 30000

abbrev pub max_queued_messages : ℕ
max_queued_messages = 32

-- The library's reasons that the source names, and any other.
pub data DisconnectReason : Type 0 where
  tcp_disconnected mqtt_unacceptable_protocol_version mqtt_identifier_rejected : DisconnectReason
  mqtt_server_unavailable mqtt_malformed_credentials mqtt_not_authorized : DisconnectReason
  esp8266_not_enough_space tls_bad_fingerprint other_reason : DisconnectReason

unfoldable pub disconnect_reason_to_string : DisconnectReason → Bytes
disconnect_reason_to_string tcp_disconnected = codes "tcp-disconnected"
disconnect_reason_to_string mqtt_unacceptable_protocol_version =
    codes "mqtt-unacceptable-protocol-version"
disconnect_reason_to_string mqtt_identifier_rejected = codes "mqtt-identifier-rejected"
disconnect_reason_to_string mqtt_server_unavailable = codes "mqtt-server-unavailable"
disconnect_reason_to_string mqtt_malformed_credentials = codes "mqtt-malformed-credentials"
disconnect_reason_to_string mqtt_not_authorized = codes "mqtt-not-authorized"
disconnect_reason_to_string esp8266_not_enough_space = codes "esp8266-not-enough-space"
disconnect_reason_to_string tls_bad_fingerprint = codes "tls-bad-fingerprint"
disconnect_reason_to_string other_reason = []

unfoldable pub net_state_to_string : State → Bytes
net_state_to_string ap_active = codes "ap-active"
net_state_to_string connecting = codes "connecting"
net_state_to_string connected = codes "connected"

-- The text without the prefix, where it has it: `rfind (prefix, 0) == 0` and `substr`.
unfoldable pub strip_prefix : Bytes → Bytes → Option Bytes
strip_prefix [] text = some text
strip_prefix (c ∷ prefix) [] = none
strip_prefix (c ∷ prefix) (d ∷ text) = if c == d then strip_prefix prefix text else none

unfoldable pub up_to_slash : Bytes → Bytes
up_to_slash [] = []
up_to_slash (c ∷ text) = if c == b'/' then [] else c ∷ up_to_slash text

unfoldable pub derive_client_id_from_topic : Bytes → Bytes
derive_client_id_from_topic topic = elim (strip_prefix topic_prefix topic) [
  | none ↦ topic
  | some rest ↦ up_to_slash rest
]

-- The calls of the library; `publish` answers with a packet id, which is 0 where it failed.
pub record AsyncMqttClient : Type 1 where
  pub Client : Type 0
  pub connected : Client → Bool
  pub connect : Client → Client
  pub disconnect : Client → Client
  pub publish : Client → Bytes → ℕ → Bool → Bytes → ℕ → Client × ℕ
  pub subscribe : Client → Bytes → ℕ → Client
  pub set_clean_session : Client → Bool → Client
  pub set_keep_alive : Client → ℕ → Client
  pub set_will : Client → Bytes → ℕ → Bool → Bytes → ℕ → Client
  pub set_client_id : Client → Bytes → Client
  pub set_server : Client → Bytes → ℕ → Client
  pub set_credentials : Client → Bytes → Option Bytes → Client

-- The callback of a subscription is known by a number.
pub record Subscription : Type 0 where
  pub topic : Bytes
  pub qos : ℕ
  pub callback : ℕ

-- The members of the class `Impl`.
pub record Impl (l : AsyncMqttClient) : Type 0 where
  pub client : l.Client
  pub logic : MqttPresenceClient
  pub publish_queue : Queue
  pub subscriptions : List Subscription
  pub last_will_topic : Bytes
  pub broker_host : Bytes
  pub broker_user : Bytes
  pub broker_pass : Bytes
  pub broker_port : ℕ
  pub client_id : Bytes
  pub last_config_revision : ℕ
  pub next_reconnect_ms : ℕ
  pub reconnect_backoff_ms : ℕ
  pub connect_attempted : Bool
  pub connect_succeeded : Bool

-- A part of the summary, behind what stands there.
abbrev joined : Bytes → Bytes → Bytes
joined summary part = summary ++ ((if is_empty summary then [] else codes " ") ++ part)

-- Members of all instances that do not depend on the client.
unfoldable pub summary_of : Bytes → ℕ → Bytes → Bytes → Bytes
summary_of host port user client_id =
    let broker =
      if not (is_empty host) || not (port == 0)
      then codes "broker=" ++ (host ++ (codes ":" ++ to_string port))
      else [] in
    let with_user = if is_empty user then broker else joined broker (codes "user=" ++ user) in
    if is_empty client_id then with_user else joined with_user (codes "client_id=" ++ client_id)

-- A line with the summary behind a blank, where there is one.
abbrev with_summary : Bytes → Bytes → Bytes
with_summary line summary = if is_empty summary then line else line ++ (codes " " ++ summary)

unfoldable pub disconnected_line : Bytes → DisconnectReason → Bytes
disconnected_line summary reason =
    with_summary (codes "CTRL: MQTT_DISCONNECTED") summary
    ++ (if is_empty (disconnect_reason_to_string reason)
        then []
        else codes " reason=" ++ disconnect_reason_to_string reason)

unfoldable pub reconnect_line : Bytes → ℕ → Bytes
reconnect_line summary delay_ms =
    with_summary (codes "CTRL: MQTT_RECONNECT") summary ++ (codes " delay=" ++ to_string delay_ms)

unfoldable pub connecting_line : Bytes → Status → Bytes
connecting_line summary status =
    with_summary (codes "CTRL: MQTT_CONNECTING") summary
    ++ (codes " wifi_state="
        ++ (net_state_to_string status.state
            ++ (if is_empty status.ip then [] else codes " ip=" ++ status.ip)))

-- The details of a failure in `onDisconnect`.
unfoldable pub failure_context : Bytes → DisconnectReason → Bytes
failure_context summary reason =
    if is_empty (disconnect_reason_to_string reason)
    then summary
    else joined summary (codes "reason=" ++ disconnect_reason_to_string reason)

unfoldable pub desired_client_id : Bytes → Bytes → Bytes
desired_client_id prefix topic =
    let base = derive_client_id_from_topic topic in
    prefix ++ (if is_empty base then codes "mqtt-presence" else base)
