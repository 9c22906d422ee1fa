-- ===== src/Hardware/Tick/Axes.antt =====
-- What a tick does to each motor, apart from the log: the first loop motor by motor.
use kinetic_mirror_matrix_es.Prelude.{
  ℕ, zero, suc, ◌+◌, ◌≡◌, refl, sym, ◌∙◌, Bool, true, false, List, [], ◌∷◌, ◌++◌, arith, get_elem?,
}
use mathlib.Core.List.{append-nil, append_assoc}
use mathlib.Core.Option
use kinetic_mirror_matrix_es.Prelude.Int.{ltb_ℤ}
use kinetic_mirror_matrix_es.Motor.{overrun_tenths, record_op}
use kinetic_mirror_matrix_es.Hardware.{FasAdapter, Axis, Event, update_each}
use kinetic_mirror_matrix_es.Hardware.Tick.{
  observe, idle_sleep, overrun_sleep, finish_op, sync_loop,
}

-- The body of the first loop.
pub sync_axis : (fas : FasAdapter) → Bool → ℕ → fas.State → ℕ → Axis → Axis
sync_axis fas enabled now_ms s i a =
    let running = fas.is_moving s i in
    let seen = record a { motor = observe now_ms running (fas.current_position s i) a.motor } in
    finish_op now_ms (overrun_sleep enabled now_ms (idle_sleep running seen))

pub sync_loop-update_each :
    (fas : FasAdapter) (enabled : Bool) (now : ℕ) (s : fas.State) (i : ℕ) (before axes : List Axis)
    (events : List Event)
    → (sync_loop fas enabled now s i before axes events).0
      ≡ before ++ update_each i (sync_axis fas enabled now s) axes
unfolding sync_loop sync_axis update_each
sync_loop-update_each fas enabled now s i before [] events = sym (append-nil before)
sync_loop-update_each fas enabled now s i before (a ∷ rest) events =
    sync_loop-update_each fas enabled now s (suc i) _ rest _ ∙ append_assoc before _ _

pub get_elem?-update_each :
    (i : ℕ) (f : ℕ → Axis → Axis) (axes : List Axis) (j : ℕ)
    → get_elem? (update_each i f axes) j ≡ Option.map (f (i + j)) (get_elem? axes j)
unfolding update_each
get_elem?-update_each i f [] j = refl
get_elem?-update_each i f (a ∷ axes) zero = let e : i + 0 ≡ i = omega arith in rw e refl
get_elem?-update_each i f (a ∷ axes) (suc j) =
    let e : i + suc j ≡ suc i + j = omega arith in rw e (get_elem?-update_each (suc i) f axes j)

-- A motor that has overrun its budget is off.
pub record IsOff (a : Axis) : Type 0 where
  pub asleep : a.motor.awake ≡ false
  pub stopped : a.motor.moving ≡ false
  pub unpowered : a.sleep_bit ≡ false
  pub unforced : a.forced_awake ≡ false
  pub no_homing : a.homing.active ≡ false

pub sync_axis-IsOff :
    (fas : FasAdapter) (now : ℕ) (s : fas.State) (i : ℕ) (a : Axis)
    → let r = sync_axis fas true now s i a in
      ltb_ℤ r.motor.budget_tenths overrun_tenths ≡ true → IsOff r
unfolding sync_axis overrun_sleep finish_op record_op
sync_axis-IsOff fas now s i a low = ground arith
