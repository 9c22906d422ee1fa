-- ===== src/SharedStep/Updates.antt =====
-- src/drivers/Esp32/SharedStepAdapterEsp32.cpp: the guarded change of a direction and the progress
-- of a motor, which each question about it brings up to date.
use kinetic_mirror_matrix_es.Prelude.{
  ℕ, ◌+◌, ◌*◌, ◌/◌, ◌%◌, ◌^◌, Bool, true, false, not, ◌&&◌, none, some, ltb, leb, ◌==◌,
  if◌then◌else◌, get_elem?, u32, sub32,
}
use kinetic_mirror_matrix_es.Prelude.Int.{ℤ, pos, pos_part, sub_ℕ, ◌+ℤ◌, ◌-ℤ◌, ltb_ℤ}
use kinetic_mirror_matrix_es.SharedStep.{
  Slot, Channel, Adapter, with_channel, put_channel, flush_latch, maybe_stop_gen,
}
use kinetic_mirror_matrix_es.SharedStep.Ramp.{update_ramp}

-- `runFlipScheduler_`: what its phases make of the channel, then the phases from the last on.
abbrev pub lowered : Channel → Channel
lowered c = record c { sleep_bit = false; flip = record c.flip { phase = 1 } }

abbrev pub turned : Channel → Channel
turned c = record c { dir_bit = c.flip.new_dir_positive; flip = record c.flip { phase = 2 } }

abbrev pub raised : Channel → Channel
raised c = record c {
  sleep_bit = true;
  slot = record c.slot { awake = true };
  flip = record c.flip { active = false };
}

unfoldable pub end_flip : ℕ → Channel → Adapter → Adapter
unfolding flush_latch
end_flip i c a = flush_latch (put_channel i (raised c) a)

unfoldable pub flip_high : ℕ → ℕ → Channel → Adapter → Adapter
unfolding end_flip
flip_high i now_us c a =
    if c.flip.phase == 2 && leb c.flip.w.t_sleep_high now_us then end_flip i c a else a

unfoldable pub flip_dir : ℕ → ℕ → Channel → Adapter → Adapter
unfolding flush_latch flip_high
flip_dir i now_us c a =
    if c.flip.phase == 1
    then if leb c.flip.w.t_dir_flip now_us
      then flip_high i now_us (turned c) (flush_latch (put_channel i (turned c) a))
      else a
    else flip_high i now_us c a

unfoldable pub flip_low : ℕ → ℕ → Channel → Adapter → Adapter
unfolding flush_latch flip_dir
flip_low i now_us c a =
    if c.flip.phase == 0
    then if leb c.flip.w.t_sleep_low now_us
      then flip_dir i now_us (lowered c) (flush_latch (put_channel i (lowered c) a))
      else a
    else flip_dir i now_us c a

unfoldable pub run_flip_scheduler : ℕ → ℕ → Channel → Adapter → Adapter
unfolding end_flip flip_low
run_flip_scheduler i now_us c a =
    if not c.flip.active
    then a
    else if a.period_us == 0
    then put_channel i (record c { flip = record c.flip { active = false } }) a
    else if leb c.flip.w.t_sleep_high now_us
    then end_flip i (record c { dir_bit = c.flip.new_dir_positive }) a
    else flip_low i now_us c a

-- `(int)steps`.
abbrev pub int_of : ℕ → ℤ
int_of n = if ltb n (2 ^ 31) then pos n else sub_ℕ n (2 ^ 32)

unfoldable pub stepped : ℕ → Slot → ℤ
stepped steps s = if s.dir_positive then s.position +ℤ int_of steps else s.position -ℤ int_of steps

abbrev pub reached : ℤ → Slot → Bool
reached new_pos s =
    if s.dir_positive then not (ltb_ℤ new_pos s.target) else not (ltb_ℤ s.target new_pos)

-- The new position, which stops at the target.
unfoldable pub advance : ℕ → Slot → Slot
unfolding stepped
advance steps s =
    if reached (stepped steps s) s
    then record s { position = s.target; moving = false }
    else record s { position = stepped steps s }

-- The steps since the last call at the shared speed.
unfoldable pub integrate : ℕ → ℕ → Slot → Slot
unfolding advance
integrate current_speed_sps dt_us s =
    if s.awake && ltb 0 current_speed_sps
    then (let total = dt_us * current_speed_sps + s.acc_us in
        let steps = u32 (total / 1000000) in
        let s' = record s { acc_us = total % 1000000 } in
        if ltb 0 steps then advance steps s' else s')
    else s

abbrev pub asleep : Channel → Channel
asleep c = record c { sleep_bit = false; slot = record c.slot { awake = false } }

-- Auto-sleep at the end of a move.
unfoldable pub settle_channel : ℕ → Channel → Adapter → Adapter
unfolding flush_latch maybe_stop_gen
settle_channel i c a =
    if c.slot.moving
    then a
    else maybe_stop_gen
        (if c.slot.forced_awake then a else flush_latch (put_channel i (asleep c) a))

-- The pending flip, then the position at the speed of the generator.
abbrev pub at_time : ℕ → Channel → Channel
at_time now_us c = record c { slot = record c.slot { last_us = now_us } }

unfoldable pub moved : ℕ → ℕ → Channel → Adapter → Adapter
unfolding with_channel run_flip_scheduler integrate
moved now_us i c a =
    let dt_us = sub32 now_us c.slot.last_us in
    let flipped =
      run_flip_scheduler i now_us (at_time now_us c) (put_channel i (at_time now_us c) a) in
    with_channel i flipped (λ d.
      put_channel i (record d { slot = integrate flipped.current_speed_sps dt_us d.slot }) flipped)

unfoldable pub update_progress : ℕ → ℕ → Adapter → Adapter
unfolding with_channel moved update_ramp settle_channel
update_progress now_us i a = with_channel i a (λ c.
    if not c.slot.moving
    then a
    else (let ramped = update_ramp now_us (moved now_us i c a) in
        with_channel i ramped (λ d. settle_channel i d ramped)))

-- The answers; each has brought the motor up to date.
unfoldable pub is_moving : ℕ → ℕ → Adapter → Adapter × Bool
unfolding update_progress
is_moving now_us i a =
    let a' = update_progress now_us i a in
    (a', elim (get_elem? a'.channels i) [ none ↦ false | some c ↦ c.slot.moving ])

unfoldable pub current_position : ℕ → ℕ → Adapter → Adapter × ℤ
unfolding update_progress
current_position now_us i a =
    let a' = update_progress now_us i a in
    (a', elim (get_elem? a'.channels i) [ none ↦ pos 0 | some c ↦ c.slot.position ])

unfoldable pub set_current_position : ℕ → ℤ → Adapter → Adapter
unfolding with_channel
set_current_position i position a =
    with_channel i a
      (λ c. put_channel i (record c { slot = record c.slot { position = position } }) a)

unfoldable pub set_deceleration : ℤ → Adapter → Adapter
set_deceleration decel_sps2 a = record a {
  d_sps2 = if ltb_ℤ (pos 0) decel_sps2 then pos_part decel_sps2 else 0;
}
