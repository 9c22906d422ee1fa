-- ===== src/SharedStep.antt =====
-- src/drivers/Esp32/SharedStepAdapterEsp32.cpp and include/drivers/Esp32/SharedStepAdapterEsp32.h:
-- the motion adapter of the ESP32, which drives all motors with one STEP signal and gates each by
-- its SLEEP bit. Here are its state, the latch and the generator. Bit i of `dir_bits_` and
-- `sleep_bits_`, slot i and flip i are the channel i. The calls of the shift register, of the RMT
-- generator and of `delayMicroseconds` are logged in order. Speeds are not negative in the source
-- either, so they are numbers. `micros()` is read once for an operation.
pub mod Ramp
pub mod Moves
pub mod Updates
pub mod Calls
pub mod Generator
pub mod Sound
pub mod Polls
pub mod Running
pub mod Limits
pub mod Holds
pub mod Progress
pub mod Landing
use kinetic_mirror_matrix_es.Prelude.{
  ℕ, zero, suc, ◌+◌, ◌-◌, ◌*◌, ◌/◌, Bool, true, false, not, ◌||◌, Option, none, some, List, [], ◌∷◌,
  ◌++◌, map, ltb, ◌==◌, if◌then◌else◌, get_elem?, set, replicate, u32,
}
use kinetic_mirror_matrix_es.Prelude.Int.{ℤ, pos}
use kinetic_mirror_matrix_es.Timing.{DirFlipWindow, step_period_us}

pub record Slot : Type 0 where
  pub moving : Bool
  pub awake : Bool
  -- set by `enableOutputs`; keeps a motor awake that has finished.
  pub forced_awake : Bool
  -- `dir_sign > 0`.
  pub dir_positive : Bool
  pub speed_sps : ℕ
  pub target : ℤ
  pub position : ℤ
  pub last_us : ℕ
  pub acc_us : ℕ

pub record FlipSchedule : Type 0 where
  pub active : Bool
  pub phase : ℕ
  pub w : DirFlipWindow
  pub new_dir_positive : Bool

pub record Channel : Type 0 where
  pub slot : Slot
  pub flip : FlipSchedule
  pub dir_bit : Bool
  pub sleep_bit : Bool

-- `setDirSleep` with all bits, `setSpeed`, `start` and `stop` of the generator, and a delay.
pub data Signal : Type 0 where
  latched : List Bool → List Bool → Signal
  speed_set : ℕ → Signal
  started stopped : Signal
  waited : ℕ → Signal

pub record Adapter : Type 0 where
  pub channels : List Channel
  -- `shift_ != nullptr`.
  pub attached : Bool
  pub signals : List Signal
  pub gen_running : Bool
  pub current_speed_sps : ℕ
  pub period_us : ℕ
  pub phase_anchor_us : ℕ
  pub ramp_last_us : ℕ
  pub v_cur_sps : ℕ
  pub v_max_sps : ℕ
  pub a_sps2 : ℕ
  pub d_sps2 : ℕ
  pub dv_accum : ℕ

abbrev pub motor_slots : ℕ
motor_slots = 8

abbrev pub min_gen_sps : ℕ
min_gen_sps = 20

abbrev pub idle_channel : Channel
idle_channel = record {
  slot = record {
    moving = false;
    awake = false;
    forced_awake = false;
    dir_positive = true;
    speed_sps = 0;
    target = pos 0;
    position = pos 0;
    last_us = 0;
    acc_us = 0;
  };
  flip = record {
    active = false;
    phase = 0;
    w = record { t_sleep_low = 0; t_dir_flip = 0; t_sleep_high = 0 };
    new_dir_positive = true;
  };
  dir_bit = false;
  sleep_bit = false;
}

-- The deceleration, the anchor and the shift register keep what they are, as do logged calls.
unfoldable pub begin : ℕ → Adapter → Adapter
begin now_us a = record a {
  channels = replicate motor_slots idle_channel;
  gen_running = false;
  current_speed_sps = 0;
  period_us = 0;
  v_cur_sps = 0;
  v_max_sps = 0;
  a_sps2 = 0;
  d_sps2 = 0;
  dv_accum = 0;
  ramp_last_us = now_us;
}

-- The edge hook, which the interrupt of the generator calls.
unfoldable pub on_rising_edge_hook : ℕ → Adapter → Adapter
on_rising_edge_hook now_us a = record a { phase_anchor_us = now_us }

-- No motor has an index beyond the slots.
unfoldable pub with_channel : ℕ → Adapter → (Channel → Adapter) → Adapter
with_channel i a f = elim (get_elem? a.channels i) [ none ↦ a | some c ↦ f c ]

abbrev pub put_channel : ℕ → Channel → Adapter → Adapter
put_channel i c a = record a { channels = set a.channels i c }

abbrev pub log : Signal → Adapter → Adapter
log s a = record a { signals = a.signals ++ s ∷ [] }

unfoldable pub flush_latch : Adapter → Adapter
flush_latch a =
    if a.attached
    then log (latched (map (λ c. c.dir_bit) a.channels) (map (λ c. c.sleep_bit) a.channels)) a
    else a

unfoldable pub speed_setting : ℕ → ℕ
speed_setting speed_sps =
    let positive = if ltb 0 speed_sps then speed_sps else min_gen_sps in
    if ltb positive min_gen_sps then min_gen_sps else positive

unfoldable pub set_gen_speed : ℕ → ℕ → Adapter → Adapter
set_gen_speed now_us setting a =
    let told = log (speed_set setting) a in
    record (if a.gen_running then told else log started told) {
      gen_running = true;
      current_speed_sps = setting;
      period_us = step_period_us setting;
      phase_anchor_us = now_us;
    }

unfoldable pub maybe_start_gen : ℕ → ℕ → Adapter → Adapter
unfolding speed_setting set_gen_speed
maybe_start_gen now_us speed_sps a =
    if not a.gen_running || not (speed_setting speed_sps == a.current_speed_sps)
    then set_gen_speed now_us (speed_setting speed_sps) a
    else a

-- A loop over the slots that asks for a moving one.
unfoldable pub any_moving : List Channel → Bool
any_moving [] = false
any_moving (c ∷ cs) = c.slot.moving || any_moving cs

unfoldable pub stop_gen : Adapter → Adapter
stop_gen a = if a.gen_running then log stopped (record a { gen_running = false }) else a

unfoldable pub maybe_stop_gen : Adapter → Adapter
unfolding any_moving stop_gen
maybe_stop_gen a = if any_moving a.channels then a else stop_gen a

unfoldable pub enable_outputs : ℕ → Adapter → Adapter
unfolding with_channel flush_latch
enable_outputs motor_id a = with_channel motor_id a (λ c. flush_latch (
    put_channel motor_id
      (record c { slot = record c.slot { awake = true; forced_awake = true }; sleep_bit = true })
      a))

unfoldable pub disable_outputs : ℕ → Adapter → Adapter
unfolding with_channel flush_latch
disable_outputs motor_id a = with_channel motor_id a (λ c. flush_latch (
    put_channel motor_id
      (record c { slot = record c.slot { awake = false; forced_awake = false }; sleep_bit = false })
      a))
