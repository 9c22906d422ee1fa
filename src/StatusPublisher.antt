-- ===== src/StatusPublisher.antt =====
-- lib/mqtt_status: MqttStatusPublisher.h and src/MqttStatusPublisher.cpp, which publishes the state of
-- the motors. The controller is the list of its motors. The function that publishes and `std::hash`
-- are parameters: the first takes and gives back a state of the world, with its answer. `long` is
-- the 32-bit one of the ESP32.
pub mod Snapshots
pub mod Heartbeat
use kinetic_mirror_matrix_es.Prelude.{
  ℕ, zero, suc, ◌+◌, ◌-◌, ◌*◌, ◌/◌, ◌%◌, ◌^◌, Bool, true, false, not, ◌||◌, List, [], ◌∷◌, ◌++◌,
  ltb, leb, ◌==◌, sub32, if◌then◌else◌,
}
use kinetic_mirror_matrix_es.Prelude.Int.{ℤ, pos, negsuc, pos_part, neg_part, ◌-ℤ◌, ltb_ℤ, sub_ℕ}
use kinetic_mirror_matrix_es.Motor.{
  MotorState, budget_tenths_max, max_cool_down_time_s, refill_tenths_per_sec,
}
use kinetic_mirror_matrix_es.Net.{Status, no_ip}
use kinetic_mirror_matrix_es.PublishQueue.{PublishMessage}
use kinetic_mirror_matrix_es.Text.{Bytes, codes, eq_bytes, is_empty}

-- The loop fills the buffer from the last digit on; the buffer is printed from its end.
unfoldable pub digits_into : ℕ → Bytes → ℕ → Bytes
digits_into zero buffer value = buffer
digits_into (suc fuel) buffer value =
    let filled = (b'0' + value % 10) ∷ buffer in
    let rest = digits_into fuel filled (value / 10) in if value / 10 == 0 then filled else rest

-- A number has no more digits than its value and one.
unfoldable pub append_unsigned_digits : Bytes → ℕ → Bytes
append_unsigned_digits out value = out ++ digits_into (suc value) [] value

unfoldable pub append_signed_digits : Bytes → ℤ → Bytes
append_signed_digits out (pos value) = append_unsigned_digits out value
append_signed_digits out (negsuc value) = append_unsigned_digits (out ++ (b'-' ∷ [])) (value + 1)

-- A `uint32_t` that is passed as a `long`.
abbrev pub as_long : ℕ → ℤ
as_long n = if ltb n (2 ^ 31) then pos n else sub_ℕ n (2 ^ 32)

abbrev key : Bytes → Bytes
key name = b'"' ∷ (name ++ codes "\":")

unfoldable pub append_bool : Bytes → Bytes → Bool → Bytes
append_bool out name value =
    out ++ (key name ++ ((if value then codes "true" else codes "false") ++ codes ","))

unfoldable pub append_int : Bytes → Bytes → ℤ → Bytes
append_int out name value = append_signed_digits (out ++ key name) value ++ codes ","

unfoldable pub append_fixed_tenths : Bytes → ℤ → Bytes
append_fixed_tenths out tenths =
    let abs_value = pos_part tenths + neg_part tenths in
    let signed = if ltb_ℤ tenths (pos 0) then out ++ (b'-' ∷ []) else out in
    append_unsigned_digits signed (abs_value / 10) ++ (b'.' ∷ (b'0' + abs_value % 10) ∷ [])

unfoldable pub append_tenths_field : Bytes → Bytes → ℤ → Bytes
append_tenths_field out name tenths = append_fixed_tenths (out ++ key name) tenths ++ codes ","

unfoldable pub drop_last_comma : Bytes → Bytes
drop_last_comma [] = []
drop_last_comma (c ∷ []) = if c == b',' then [] else c ∷ []
drop_last_comma (c ∷ d ∷ out) = c ∷ drop_last_comma (d ∷ out)

abbrev motor_flags : Bytes → MotorState → Bytes
motor_flags out m =
    append_bool
      (append_bool
        (append_bool
          (append_int (append_int out (codes "id") (pos m.id)) (codes "position") m.position)
          (codes "moving") m.moving)
        (codes "awake") m.awake)
      (codes "homed") m.homed

abbrev motor_budget : Bytes → MotorState → ℤ → ℤ → Bytes
motor_budget out m budget_tenths ttfc_tenths =
    append_tenths_field
      (append_tenths_field (append_int out (codes "steps_since_home") (pos m.steps_since_home))
        (codes "budget_s") budget_tenths)
      (codes "ttfc_s") ttfc_tenths

abbrev motor_times : Bytes → MotorState → Bytes
motor_times out m =
    append_int
      (append_int (append_int (append_int out (codes "speed") m.speed) (codes "accel") m.accel)
        (codes "est_ms") (as_long m.last_op_est_ms))
      (codes "started_ms") (as_long m.last_op_started_ms)

unfoldable pub append_motor_json : MotorState → ℤ → ℤ → Bool → Bytes → Bytes
append_motor_json m budget_tenths ttfc_tenths include_actual_ms out =
    let times = motor_times (motor_budget (motor_flags out m) m budget_tenths ttfc_tenths) m in
    drop_last_comma (
      if include_actual_ms
      then append_int times (codes "actual_ms") (pos m.last_op_last_ms)
      else times)

-- The time to full cool-down of a motor, in tenths of a second, rounded up.
unfoldable pub ttfc_tenths : MotorState → ℕ
ttfc_tenths m =
    let missing = pos_part (pos budget_tenths_max -ℤ m.budget_tenths) in
    let ttfc =
      if missing == 0
      then 0
      else (missing * 10 + refill_tenths_per_sec - 1) / refill_tenths_per_sec in
    if ltb (max_cool_down_time_s * 10) ttfc then max_cool_down_time_s * 10 else ttfc

-- One pass of the loop over the motors; the comma stands before every motor but the first.
unfoldable pub append_motor : Bool → Bytes → MotorState → Bytes
append_motor first out m =
    let opened = (if first then out else out ++ codes ",") ++ codes "\"" in
    append_motor_json m m.budget_tenths (pos (ttfc_tenths m)) (not m.last_op_ongoing)
      (append_unsigned_digits opened m.id ++ codes "\":{")
    ++ codes "}"

unfoldable pub append_motors : Bool → Bytes → List MotorState → Bytes
append_motors first out [] = out
append_motors first out (m ∷ motors) = append_motors false (append_motor first out m) motors

abbrev pub any_moving : List MotorState → Bool
any_moving [] = false
any_moving (m ∷ motors) = m.moving || any_moving motors

-- The text that `buildSnapshot` leaves in `scratch_`; it never fails.
unfoldable pub build_snapshot : Status → List MotorState → Bytes
build_snapshot status motors =
    append_motors true
      (codes "{\"node_state\":\"ready\",\"ip\":\""
        ++ ((if is_empty status.ip then no_ip else status.ip) ++ codes "\",\"motors\":{"))
      motors
    ++ codes "}}"

pub record MqttStatusPublisher : Type 0 where
  pub idle_interval_ms : ℕ
  pub motion_interval_ms : ℕ
  pub topic : Bytes
  pub last_payload : Bytes
  pub last_hash : ℕ
  pub has_last_hash : Bool
  pub last_publish_ms : ℕ
  pub force_immediate : Bool

abbrev pub clamp_interval : ℕ → ℕ → ℕ
clamp_interval value fallback = if value == 0 then fallback else value

-- The constructor.
unfoldable pub make : ℕ → ℕ → MqttStatusPublisher
make idle_interval_ms motion_interval_ms = record {
  idle_interval_ms = clamp_interval idle_interval_ms 1000;
  motion_interval_ms = clamp_interval motion_interval_ms 200;
  topic = [];
  last_payload = [];
  last_hash = 0;
  has_last_hash = false;
  last_publish_ms = 0;
  force_immediate = true;
}

unfoldable pub set_topic : Bytes → MqttStatusPublisher → MqttStatusPublisher
set_topic topic p =
    if eq_bytes topic p.topic then p else record p { topic = topic; force_immediate = true }

unfoldable pub force : MqttStatusPublisher → MqttStatusPublisher
force p = record p { force_immediate = true }

abbrev pub interval_for : Bool → MqttStatusPublisher → ℕ
interval_for motion_active p = if motion_active then p.motion_interval_ms else p.idle_interval_ms

abbrev pub message : Bytes → Bytes → PublishMessage
message topic payload = record {
  topic = topic;
  payload = payload;
  qos = 0;
  retain = false;
  is_status = true;
}

module _ {W : Type 0} (hash : Bytes → ℕ) (publish : W → PublishMessage → W × Bool) where
  -- Whether a snapshot is published now.
  unfoldable pub wants : ℕ → Bool → Bytes → MqttStatusPublisher → Bool
  wants now_ms motion_active scratch p =
      let changed = not p.has_last_hash || not (hash scratch == p.last_hash) in
      let due =
        not p.has_last_hash
        || leb (interval_for motion_active p) (sub32 now_ms p.last_publish_ms) in
      (p.force_immediate || changed) || due

  -- `publish`, and what `loop` keeps of an accepted snapshot.
  unfoldable pub publish_snapshot : ℕ → Bytes → MqttStatusPublisher → W → MqttStatusPublisher × W
  publish_snapshot now_ms scratch p w =
      let (w', accepted) = publish w (message p.topic scratch) in
      if not accepted then (p, w') else (
        record p {
          last_hash = hash scratch;
          has_last_hash = true;
          last_payload = scratch;
          last_publish_ms = now_ms;
          force_immediate = false;
        },
        w',
      )

  unfoldable pub loop :
      ℕ → Status → List MotorState → MqttStatusPublisher → W → MqttStatusPublisher × W
  loop now_ms status motors p w =
      if is_empty p.topic
      then (p, w)
      else (let scratch = build_snapshot status motors in
          if wants now_ms (any_moving motors) scratch p
          then publish_snapshot now_ms scratch p w
          else (p, w))
