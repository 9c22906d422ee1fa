-- ===== src/Presence/Calls.antt =====
-- lib/mqtt_presence/src/MqttPresenceClient.cpp: calls of the client, one after the other.
use kinetic_mirror_matrix_es.Prelude.{ℕ, ◌≡◌, refl, Bool, List, [], ◌∷◌, ◌++◌}
use kinetic_mirror_matrix_es.Text.{Bytes}
use kinetic_mirror_matrix_es.Net.{Status}
use kinetic_mirror_matrix_es.PublishQueue.{PublishMessage}
use kinetic_mirror_matrix_es.Presence.{
  MqttPresenceClient, force_immediate, handle_connect_failure, handle_connected,
  handle_disconnected, loop, set_motion_active, set_power_active, update_identity_if_needed,
}

pub data Call : Type 0 where
  motion_call power_call : Bool → Call
  force_call disconnected_call : Call
  loop_call : ℕ → Status → Call
  refresh_call : Status → Call
  connected_call : ℕ → Bytes → Call
  failure_call : Bytes → Call

module _ {W : Type 0} (publish : W → PublishMessage → W × Bool) where
  unfoldable pub apply : Call → MqttPresenceClient × W → MqttPresenceClient × W
  unfolding set_motion_active set_power_active force_immediate handle_disconnected loop
      update_identity_if_needed handle_connected handle_connect_failure
  apply (motion_call active) (c, w) = (set_motion_active active c, w)
  apply (power_call active) (c, w) = (set_power_active active c, w)
  apply force_call (c, w) = (force_immediate c, w)
  apply disconnected_call (c, w) = (handle_disconnected c, w)
  apply (loop_call now_ms status) (c, w) = loop publish now_ms status c w
  apply (refresh_call status) (c, w) = (update_identity_if_needed status c, w)
  apply (connected_call now_ms broker_info) (c, w) = (handle_connected now_ms broker_info c, w)
  apply (failure_call details) (c, w) = (handle_connect_failure details c, w)

  abbrev pub run : List Call → MqttPresenceClient × W → MqttPresenceClient × W
  run [] s = s
  run (x ∷ calls) s = run calls (apply x s)

  pub run-append :
      (calls : List Call) (x : Call) (s : MqttPresenceClient × W)
      → run (calls ++ x ∷ []) s ≡ apply x (run calls s)
  run-append [] x s = refl
  run-append (y ∷ calls) x s = run-append calls x (apply y s)
