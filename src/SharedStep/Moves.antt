-- ===== src/SharedStep/Moves.antt =====
-- src/drivers/Esp32/SharedStepAdapterEsp32.cpp: the start of a move.
use kinetic_mirror_matrix_es.Prelude.{
  ℕ, ◌+◌, ◌-◌, Bool, true, false, not, ◌&&◌, Option, none, some, ltb, if◌then◌else◌,
}
use kinetic_mirror_matrix_es.Prelude.Int.{ℤ, pos, pos_part, ltb_ℤ}
use kinetic_mirror_matrix_es.Timing.{DirFlipWindow, compute_flip_window}
use kinetic_mirror_matrix_es.SharedStep.{
  Slot, Channel, waited, Adapter, min_gen_sps, motor_slots, with_channel, put_channel, log,
  flush_latch, maybe_start_gen,
}

abbrev pub at_least_one : ℤ → ℕ
at_least_one n = if ltb_ℤ (pos 0) n then pos_part n else 1

-- The difference of two clock readings counts from 0 where the anchor is ahead.
unfoldable pub planned_flip : ℕ → Bool → Adapter → Option DirFlipWindow
unfolding compute_flip_window
planned_flip now_us need_flip a =
    if need_flip && a.gen_running && ltb 0 a.period_us
    then elim (compute_flip_window (now_us - a.phase_anchor_us) a.period_us) [
      | none ↦ none
      | some w ↦ some (record {
        t_sleep_low = w.t_sleep_low + a.phase_anchor_us;
        t_dir_flip = w.t_dir_flip + a.phase_anchor_us;
        t_sleep_high = w.t_sleep_high + a.phase_anchor_us;
      })
    ]
    else none

-- What is kept of a move under way, once its direction is settled or scheduled.
abbrev pub begun : ℕ → Bool → Bool → Slot → Slot
begun now_us desired awake s = record s {
  awake = awake;
  dir_positive = desired;
  moving = true;
  last_us = now_us;
  acc_us = 0;
}

-- No flip is scheduled: the direction changes at once, while the motor sleeps.
abbrev pub turned_now : Bool → Bool → Channel → Channel
turned_now desired need_flip c = record c {
  flip = record c.flip { active = false; phase = 0; new_dir_positive = desired };
  dir_bit = if need_flip then desired else c.dir_bit;
}

unfoldable pub start_now : ℕ → ℕ → Bool → Bool → Channel → Adapter → Adapter
unfolding flush_latch
start_now now_us i desired need_flip c a =
    let turned = turned_now desired need_flip c in
    let a' = if need_flip then log (waited 3) (flush_latch (put_channel i turned a)) else a in
    flush_latch (
      put_channel i
        (record turned { sleep_bit = true; slot = begun now_us desired true turned.slot }) a')

-- The flip waits for a gap between two edges; until then the motor sleeps.
unfoldable pub start_later : ℕ → ℕ → Bool → DirFlipWindow → Channel → Adapter → Adapter
start_later now_us i desired w c a =
    put_channel i
      (record c {
        flip = record { active = true; phase = 0; w = w; new_dir_positive = desired };
        slot = begun now_us desired false c.slot;
      })
      a

unfoldable pub ensure_running : ℕ → Adapter → Adapter
unfolding maybe_start_gen
ensure_running now_us a =
    if a.gen_running
    then record a { phase_anchor_us = now_us }
    else record (maybe_start_gen now_us min_gen_sps (record a { v_cur_sps = min_gen_sps })) {
      ramp_last_us = now_us;
    }

-- The direction is changed at once or in the next gap.
unfoldable pub start_flip : ℕ → ℕ → Bool → Bool → Channel → Adapter → Adapter
unfolding planned_flip start_now start_later
start_flip now_us i desired need_flip c a = elim (planned_flip now_us need_flip a) [
  | none ↦ start_now now_us i desired need_flip c a
  | some w ↦ start_later now_us i desired w c a
]

-- A motor that has to turn sleeps first.
abbrev pub aimed : ℤ → ℤ → Bool → Channel → Channel
aimed target speed need_flip c = record c {
  slot = record c.slot { target = target; speed_sps = at_least_one speed };
  sleep_bit = if need_flip then false else c.sleep_bit;
}

unfoldable pub aim : ℕ → ℤ → ℤ → Bool → Channel → Adapter → Adapter
unfolding flush_latch
aim i speed accel need_flip c a =
    let asked =
      put_channel i c (record a { v_max_sps = at_least_one speed; a_sps2 = at_least_one accel }) in
    if need_flip then flush_latch asked else asked

unfoldable pub start_channel : ℕ → ℕ → ℤ → ℤ → ℤ → Channel → Adapter → Adapter
unfolding aim start_flip ensure_running
start_channel now_us i target speed accel c a =
    let desired = ltb_ℤ c.slot.position target in
    let need_flip = if desired then not c.dir_bit else c.dir_bit in
    let c' = aimed target speed need_flip c in
    ensure_running now_us
      (start_flip now_us i desired need_flip c' (aim i speed accel need_flip c' a))

abbrev pub halted : Channel → Channel
halted c = record c { slot = record c.slot { moving = false } }

-- A move to where the motor stands has no effect but that the motor no longer moves. The result is
-- whether there is such a motor.
unfoldable pub start_move_abs : ℕ → ℕ → ℤ → ℤ → ℤ → Adapter → Adapter × Bool
unfolding with_channel start_channel
start_move_abs now_us motor_id target speed accel a = (
  with_channel motor_id a (λ c.
      if not (ltb_ℤ c.slot.position target) && not (ltb_ℤ target c.slot.position)
      then put_channel motor_id (halted c) a
      else start_channel now_us motor_id target speed accel c a),
  ltb motor_id motor_slots,
)
