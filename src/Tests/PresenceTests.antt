-- ===== src/Tests/PresenceTests.antt =====
-- The MQTT client at concrete inputs.
use kinetic_mirror_matrix_es.Prelude.{
  ℕ, ◌+◌, ◌≡◌, ◌≤◌, ◌⊎◌, refl, Bool, true, false, List, [], ◌∷◌, ◌++◌, Option, some, none,
}
use kinetic_mirror_matrix_es.Prelude.Int.{negsuc}
use kinetic_mirror_matrix_es.Text.{Bytes, codes}
use kinetic_mirror_matrix_es.Net.{Status, connected}
use kinetic_mirror_matrix_es.PublishQueue.{PublishMessage}
use kinetic_mirror_matrix_es.Presence.{
  ip_of, make, MqttPresenceClient, normalize_mac_to_topic, update_identity_if_needed, update_ip,
  update_mac_topic, loop, publish_due, publish_ready, keep_pending, note_changes, handle_connected,
  handle_connect_failure, set_motion_active,
}
use kinetic_mirror_matrix_es.Presence.Calls.{
  Call, apply, connected_call, failure_call, loop_call, motion_call, run,
}
use kinetic_mirror_matrix_es.Presence.Current.{run-loop-Told}
use kinetic_mirror_matrix_es.Presence.Fresh.{Refused, Told}
use kinetic_mirror_matrix_es.Presence.Warnings.{run-warnings, warnings}

-- A broker that takes all messages, and keeps them, newest first.
abbrev broker : List PublishMessage → PublishMessage → List PublishMessage × Bool
broker taken m = (m ∷ taken, true)

abbrev newest : List PublishMessage → Option PublishMessage
newest [] = none
newest (m ∷ taken) = some m

takes :
    (taken : List PublishMessage) (m : PublishMessage)
    → (broker taken m).1 ≡ true
    → newest (broker taken m).0 ≡ some m
takes taken m e = refl

refuses :
    (taken : List PublishMessage) (m : PublishMessage)
    → (broker taken m).1 ≡ false
    → newest (broker taken m).0 ≡ newest taken
refuses taken m e = cc

abbrev at_address : Bytes → Status
at_address ip = record {
  state = connected;
  rssi_dbm = negsuc 50;
  ip = ip;
  ssid = codes "mirrors";
  mac = codes "02:12:34:56:78:9A";
  ap_ssid = [];
}

abbrev calls : List Call
calls =
    failure_call []
    ∷ failure_call (codes "reason=tcp-disconnected")
    ∷ connected_call 10 (codes "broker:1883")
    ∷ loop_call 20 (at_address (codes "10.0.0.2"))
    ∷ motion_call true
    ∷ []

mac_is_normalized : normalize_mac_to_topic (codes "02:AB-cd 9") ≡ codes "02abcd9"
unfolding normalize_mac_to_topic
mac_is_normalized = refl

abbrev after : MqttPresenceClient × List PublishMessage
after =
    run broker (calls ++ loop_call 30 (at_address (codes "10.0.0.7")) ∷ [])
      (make (codes "02:12:34:56:78:9A") (at_address []), [])

run-loop-Told_example :
    (after.0.last_ip ≡ ip_of (at_address (codes "10.0.0.7")))
    × (Refused broker newest after.0 after.1 ⊎ Told broker newest after.0 after.1)
unfolding apply make update_identity_if_needed update_ip update_mac_topic loop note_changes
    publish_due publish_ready keep_pending normalize_mac_to_topic handle_connected
    handle_connect_failure set_motion_active
run-loop-Told_example =
    run-loop-Told broker newest takes refuses (codes "02:12:34:56:78:9A") (at_address [])
      (at_address (codes "10.0.0.7")) [] calls 30 refl

-- Two failures in a row.
abbrev fails : List Call
fails = failure_call (codes "timeout") ∷ failure_call (codes "timeout") ∷ []

run-warnings_example :
    let start = make (codes "02:12:34:56:78:9A") (at_address []) in
    (warnings (run broker (calls ++ fails) (start, [])).0.log
      ≤ warnings (run broker calls (start, [])).0.log + 1)
    × ((now_ms : ℕ) (broker_info details : Bytes)
        → warnings
            (run broker
              (calls ++ (connected_call now_ms broker_info ∷ failure_call details ∷ []))
              (start, [])).0.log
          ≡ warnings (run broker calls (start, [])).0.log + 1)
run-warnings_example =
    run-warnings broker (codes "02:12:34:56:78:9A") (at_address []) [] calls fails refl
