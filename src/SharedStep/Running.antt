-- ===== src/SharedStep/Running.antt =====
-- Runs of calls, for the state of the generator.
use kinetic_mirror_matrix_es.Prelude.{
  ℕ, ◌≡◌, refl, Bool, not, List, [], ◌∷◌, some, none, if◌then◌else◌,
}
use kinetic_mirror_matrix_es.Prelude.Int.{ℤ, ltb_ℤ}
use kinetic_mirror_matrix_es.SharedStep.{
  Adapter, Channel, any_moving, begin, disable_outputs, enable_outputs, flush_latch,
  on_rising_edge_hook, put_channel, with_channel, min_gen_sps,
}
use kinetic_mirror_matrix_es.SharedStep.Moves.{
  aim, aimed, start_flip, halted, at_least_one, ensure_running, planned_flip, start_channel,
  start_later, start_move_abs, start_now,
}
use kinetic_mirror_matrix_es.SharedStep.Updates.{
  current_position, is_moving, set_current_position, set_deceleration,
}
use kinetic_mirror_matrix_es.SharedStep.Calls.{
  Call, asks_moving, asks_position, disables, edges, enables, moves, run, sets_deceleration,
  sets_position, step,
}
use kinetic_mirror_matrix_es.SharedStep.Generator.{
  Agrees, Quiet, Quiet-Agrees, Quiet-if, Quiet-refl, flush-Quiet, put-Quiet, start_gen-Agrees,
  start_now-Quiet, with_channel-elim,
}
use kinetic_mirror_matrix_es.SharedStep.Sound.{
  Sound, start_gen-running, Sound-if, Sound-running, stop-Sound, same-Sound, flush-Sound,
}
use kinetic_mirror_matrix_es.SharedStep.Polls.{update_progress-Sound}

ensure_running-Sound : (now : ℕ) (a : Adapter) → Agrees a → Sound (ensure_running now a)
unfolding ensure_running
ensure_running-Sound now a h =
    Sound-if a.gen_running _ _ (λ e. Sound-running (record a { phase_anchor_us = now }) h e)
      (λ e.
        let b = record a { v_cur_sps = min_gen_sps } in
        Sound-running _ (start_gen-Agrees now min_gen_sps b h)
          (start_gen-running now min_gen_sps b))

start_flip-Quiet :
    (now i : ℕ) (desired need : Bool) (c : Channel) (a : Adapter)
    → Quiet a (start_flip now i desired need c a)
unfolding start_flip start_later
start_flip-Quiet now i desired need c a =
    elim (planned_flip now need a)
      as (λ w. Quiet a (elim w [
        | none ↦ start_now now i desired need c a
        | some w ↦ start_later now i desired w c a
      ])) [
        | none ↦ start_now-Quiet a i now desired need c a (Quiet-refl a)
        | some w ↦ put-Quiet a i _ a (Quiet-refl a)
      ]

aim-Quiet :
    (i : ℕ) (speed accel : ℤ) (need : Bool) (c : Channel) (a : Adapter)
    → Quiet a (aim i speed accel need c a)
unfolding aim
aim-Quiet i speed accel need c a =
    let asked =
      put_channel i c (record a { v_max_sps = at_least_one speed; a_sps2 = at_least_one accel }) in
    let q : Quiet a asked = record {
      same_running = refl;
      same_speed = refl;
      same_period = refl;
      same_told = refl;
    } in
    Quiet-if need a (flush_latch asked) asked (flush-Quiet a asked q) q

start_channel-Sound :
    (now i : ℕ) (target speed accel : ℤ) (c : Channel) (a : Adapter)
    → Sound a
    → Sound (start_channel now i target speed accel c a)
unfolding start_channel
start_channel-Sound now i target speed accel c a s =
    let desired = ltb_ℤ c.slot.position target in
    let need = if desired then not c.dir_bit else c.dir_bit in
    let c' = aimed target speed need c in
    let b = aim i speed accel need c' a in
    ensure_running-Sound now (start_flip now i desired need c' b) (
      Quiet-Agrees b _ (start_flip-Quiet now i desired need c' b)
        (Quiet-Agrees a b (aim-Quiet i speed accel need c' a) s.agreeing))

start_move-Sound :
    (now i : ℕ) (target speed accel : ℤ) (a : Adapter)
    → Sound a
    → Sound ((start_move_abs now i target speed accel a).0)
unfolding start_move_abs with_channel
start_move-Sound now i target speed accel a s = with_channel-elim Sound i a _ s (λ c g.
    Sound-if _ _ _ (λ e. stop-Sound a i (halted c) refl s)
      (λ e. start_channel-Sound now i target speed accel c a s))

step-Sound : (call : Call) (a : Adapter) → Sound a → Sound (step call a)
unfolding enable_outputs disable_outputs set_current_position set_deceleration on_rising_edge_hook
    is_moving current_position
step-Sound (moves now id target speed accel) a s = start_move-Sound now id target speed accel a s
step-Sound (asks_moving now id) a s = update_progress-Sound now id a s
step-Sound (asks_position now id) a s = update_progress-Sound now id a s
step-Sound (sets_position id position) a s =
    with_channel-elim Sound id a _ s (λ c g. same-Sound a id c _ g refl s)
step-Sound (sets_deceleration decel) a s = record { agreeing = s.agreeing; driving = s.driving }
step-Sound (enables id) a s =
    with_channel-elim Sound id a _ s (λ c g. flush-Sound _ (same-Sound a id c _ g refl s))
step-Sound (disables id) a s =
    with_channel-elim Sound id a _ s (λ c g. flush-Sound _ (same-Sound a id c _ g refl s))
step-Sound (edges now) a s = record { agreeing = s.agreeing; driving = s.driving }

run-Sound : (calls : List Call) (a : Adapter) → Sound a → Sound (run calls a)
run-Sound [] a s = s
run-Sound (c ∷ cs) a s = run-Sound cs (step c a) (step-Sound c a s)

-- From `begin` on, where the generator has not been called before, whatever the calls: a motor
-- that moves finds the generator running, the generator has been told to run if and only if the
-- adapter keeps it as running, and then at the speed that the adapter keeps, which is at least 20
-- steps a second and has the period that the adapter keeps.
pub run-begin-Sound :
    (now : ℕ) (a : Adapter) (calls : List Call) → a.signals ≡ [] → Sound (run calls (begin now a))
unfolding begin any_moving
run-begin-Sound now a calls e =
    run-Sound calls (begin now a) (record { agreeing = rw e refl; driving = refl })
