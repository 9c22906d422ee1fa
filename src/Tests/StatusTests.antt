-- ===== src/Tests/StatusTests.antt =====
-- The publisher of the status at concrete inputs.
use kinetic_mirror_matrix_es.Prelude.{
  ℕ, ◌+◌, ◌≡◌, refl, Bool, true, false, List, [], ◌∷◌, Option, some, none,
}
use kinetic_mirror_matrix_es.Prelude.Int.{negsuc}
use kinetic_mirror_matrix_es.Text.{Bytes, codes}
use kinetic_mirror_matrix_es.Motor.{MotorState, fresh_motor}
use kinetic_mirror_matrix_es.Net.{Status, connected}
use kinetic_mirror_matrix_es.PublishQueue.{PublishMessage}
use kinetic_mirror_matrix_es.StatusPublisher.{
  any_moving, as_long, build_snapshot, force, loop, make, publish_snapshot, set_topic, wants,
  MqttStatusPublisher,
}
use kinetic_mirror_matrix_es.StatusPublisher.Heartbeat.{
  Call, Current, apply, force_call, loop_call, run, run-loop-Current, topic_call,
}

-- A broker that takes all messages, and keeps them, newest first.
abbrev broker : List PublishMessage → PublishMessage → List PublishMessage × Bool
broker taken m = (m ∷ taken, true)

abbrev newest : List PublishMessage → Option PublishMessage
newest [] = none
newest (m ∷ taken) = some m

abbrev sum : Bytes → ℕ
sum [] = 0
sum (c ∷ s) = c + sum s

abbrev online : Status
online = record {
  state = connected;
  rssi_dbm = negsuc 50;
  ip = codes "10.0.0.2";
  ssid = codes "mirrors";
  mac = codes "02:12:34:56:78:9A";
  ap_ssid = [];
}

abbrev motors : List MotorState
motors = fresh_motor 0 ∷ record (fresh_motor 1) { moving = true } ∷ []

abbrev calls : List Call
calls = topic_call (codes "devices/a/status") ∷ loop_call 1000 online motors ∷ force_call ∷ []

-- The time at which an operation started, after 25 days.
started_is_negative : as_long 2160000000 ≡ negsuc 2134967295
started_is_negative = refl

takes :
    (taken : List PublishMessage) (m : PublishMessage)
    → (broker taken m).1 ≡ true
    → newest (broker taken m).0 ≡ some m
takes taken m e = refl

refuses :
    (taken : List PublishMessage) (m : PublishMessage)
    → (broker taken m).1 ≡ false
    → newest (broker taken m).0 ≡ newest taken
refuses taken m e = cc

abbrev before : MqttStatusPublisher × List PublishMessage
before = run sum broker calls (make 0 0, [])

run-loop-Current_example :
    Current sum broker newest takes refuses 1500
      (any_moving motors)
      (build_snapshot online motors)
      (loop sum broker 1500 online motors before.0 before.1).0
      (loop sum broker 1500 online motors before.0 before.1).1
unfolding apply make set_topic force loop wants publish_snapshot
run-loop-Current_example =
    run-loop-Current sum broker newest takes refuses 0 0 [] calls 1500 online motors refl refl
