-- ===== src/SharedStep/Polls.antt =====
-- The ramp and the progress of a motor, for the state of the generator.
use kinetic_mirror_matrix_es.Prelude.{
  ℕ, ◌≡◌, ◌∙◌, Bool, true, false, not, ◌||◌, arith, leb, ◌==◌, ◌-◌, inl, inr, Option-cases,
}
use kinetic_mirror_matrix_es.SharedStep.{
  Adapter, Channel, any_moving, maybe_start_gen, maybe_stop_gen, put_channel, stop_gen,
}
use kinetic_mirror_matrix_es.SharedStep.Ramp.{
  timed, stopped_ramp, compute_motion_window, commanded_speed, next_speed, update_ramp,
  update_ramp_by,
}
use kinetic_mirror_matrix_es.SharedStep.Updates.{
  moved, asleep, at_time, run_flip_scheduler, settle_channel, update_progress,
}
use kinetic_mirror_matrix_es.SharedStep.Generator.{
  Agrees, Quiet, Quiet-Agrees, Quiet-refl, put-Quiet, run_flip-Quiet, start_gen-Agrees,
  stop_gen-Agrees, with_channel-elim,
}
use kinetic_mirror_matrix_es.SharedStep.Sound.{
  Sound, driven, any_moving-get, window-none, start_gen-running, stop_gen-stops, Agrees-if,
  running-if, Sound-if, Sound-running, Sound-still, stop-Sound, flush-Sound,
}

-- A running generator is kept by the ramp while a motor moves.
ramp_by-Sound :
    (now m dt : ℕ) (a : Adapter)
    → Agrees a
    → a.gen_running ≡ true
    → Sound (update_ramp_by now m dt a)
unfolding update_ramp_by
ramp_by-Sound now m dt a h r =
    Sound-running (update_ramp_by now m dt a) (Agrees-if t b c (start_gen-Agrees now speed c h) h)
      (running-if t b c (start_gen-running now speed c) r)
  where
    speed : ℕ
    speed = commanded_speed (next_speed m dt a)

    t : Bool
    t = not a.gen_running || not (speed == a.current_speed_sps)

    c : Adapter
    c = timed now m dt a

    b : Adapter
    b = maybe_start_gen now speed c

stopped_ramp-Sound :
    (now : ℕ) (a : Adapter) → Agrees a → any_moving a.channels ≡ false → Sound (stopped_ramp now a)
unfolding stopped_ramp
stopped_ramp-Sound now a h e =
    Sound-still _ (ground (arith, h, stop_gen-stops a, stop_gen-Agrees a h))
      (rw ((stop_gen-stops a).1) e)

update_ramp-Sound :
    (now : ℕ) (a : Adapter) → Agrees a → a.gen_running ≡ true → Sound (update_ramp now a)
unfolding update_ramp compute_motion_window
update_ramp-Sound now a h r = elim (Option-cases (compute_motion_window a.channels)) [
  | inl e ↦ rw (update_ramp, e) (stopped_ramp-Sound now a h (window-none false _ a.channels e))
  | inr (m, e) ↦
      rw (update_ramp, e)
        (Sound-if (leb now a.ramp_last_us) a _ (λ e. Sound-running a h r)
          (λ e. ramp_by-Sound now m (now - a.ramp_last_us) a h r))
]

maybe_stop-Sound : (a : Adapter) → Sound a → Sound (maybe_stop_gen a)
unfolding maybe_stop_gen
maybe_stop-Sound a s =
    Sound-if (any_moving a.channels) a _ (λ e. s)
      (λ e. Sound-still (stop_gen a) (stop_gen-Agrees a s.agreeing) (rw ((stop_gen-stops a).1) e))

settle-Sound : (i : ℕ) (c : Channel) (a : Adapter) → Sound a → Sound (settle_channel i c a)
unfolding settle_channel
settle-Sound i c a s =
    Sound-if c.slot.moving a _ (λ e. s)
      (λ e. maybe_stop-Sound _ (
        Sound-if c.slot.forced_awake a _ (λ f. s)
          (λ f. flush-Sound _ (stop-Sound a i (asleep c) e s))))

-- The flip and the position leave the generator alone.
moved-Quiet : (now i : ℕ) (c : Channel) (a : Adapter) → Quiet a (moved now i c a)
unfolding moved
moved-Quiet now i c a =
    let c' = at_time now c in
    let flipped = run_flip_scheduler i now c' (put_channel i c' a) in
    let q = run_flip-Quiet a i now c' (put_channel i c' a) (put-Quiet a i c' a (Quiet-refl a)) in
    with_channel-elim (Quiet a) i flipped _ q (λ d g. put-Quiet a i _ flipped q)

pub update_progress-Sound : (now i : ℕ) (a : Adapter) → Sound a → Sound (update_progress now i a)
unfolding update_progress
update_progress-Sound now i a s = with_channel-elim Sound i a _ s (λ c g.
    Sound-if (not c.slot.moving) a _ (λ e. s)
      (λ e.
        let ramped = update_ramp now (moved now i c a) in
        let q = moved-Quiet now i c a in
        let r = driven a s (any_moving-get a.channels i c g (ground (arith, e))) in
        let t =
          update_ramp-Sound now (moved now i c a) (Quiet-Agrees a _ q s.agreeing)
            (q.same_running ∙ r) in
        with_channel-elim Sound i ramped _ t (λ d h. settle-Sound i d ramped t)))
