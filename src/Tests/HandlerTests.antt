-- ===== src/Tests/HandlerTests.antt =====
-- The handlers of MOVE, HOME and WAKE at concrete inputs, on the stub controller.
use kinetic_mirror_matrix_es.Prelude.{ℕ, ◌≡◌, refl, true, false, [], ◌∷◌, some, get_elem?}
use kinetic_mirror_matrix_es.Prelude.Int.{pos}
use kinetic_mirror_matrix_es.Kinematics.{ceil_div}
use kinetic_mirror_matrix_es.Motor.{MotorState, fresh_motor, update_budget}
use kinetic_mirror_matrix_es.Motor.Mask.{selected, any_masked}
use kinetic_mirror_matrix_es.Text.{Bytes, codes, parse_id_mask, trim}
use kinetic_mirror_matrix_es.Transport.{make_error_line}
use kinetic_mirror_matrix_es.Transport.Dispatcher.{no_sinks}
use kinetic_mirror_matrix_es.Stub.{
  MovePlan, StubMotorController, Slot, auto_sleep, complete, move_abs_mask, tick,
}
use kinetic_mirror_matrix_es.Stub.Interface.{stub_controller}
use kinetic_mirror_matrix_es.Handlers.{Context, handle_wake}
use kinetic_mirror_matrix_es.Handlers.Requests.{MoveRequest, accepted, home_request, move_request}
use kinetic_mirror_matrix_es.Handlers.Motion.{handle_home, handle_move, move_ms}
use kinetic_mirror_matrix_es.Handlers.Admitted.{Covered, handle_move-Covered}
use kinetic_mirror_matrix_es.Handlers.Replies.{
  Reports, handle_home-Reports, handle_move-Reports, home_mask, move_mask,
}
use kinetic_mirror_matrix_es.Handlers.Wake.{handle_wake-refused}

abbrev idle_plan : MovePlan
idle_plan = record {
  active = false;
  is_home = false;
  target = pos 0;
  end_ms = 0;
  start_pos = pos 0;
}

abbrev cold_slot : Slot
cold_slot = record { motor = fresh_motor 0; plan = idle_plan }

abbrev one_motor : StubMotorController
one_motor = record { slots = cold_slot ∷ []; thermal_limits_enabled = true }

abbrev context_of : StubMotorController → Context stub_controller
context_of c = record {
  controller = c;
  thermal_limits_enabled = true;
  default_speed = pos 4000;
  default_accel = pos 16000;
  default_decel = pos 0;
  in_batch = false;
  batch_initially_idle = false;
  pending = [];
  dispatcher = no_sinks;
  issued = 7;
}

abbrev id_of : ℕ → Bytes
id_of n = n ∷ []

abbrev args : Bytes
args = codes "0, 1200"

abbrev request : MoveRequest
request = record { mask = 1; target = pos 1200; speed = pos 4000; accel = pos 16000 }

parsed : move_request false 1 (pos 4000) (pos 16000) args ≡ accepted request
unfolding move_request
parsed = refl

accepted_move :
    (handle_move stub_controller 0 false id_of args 0 (context_of one_motor)).0.is_error ≡ false
unfolding handle_move tick complete auto_sleep update_budget ceil_div move_abs_mask any_masked
accepted_move = refl

first_motor : selected 1 0 ≡ true
unfolding selected
first_motor = refl

after_tick :
    get_elem? (stub_controller.motors (stub_controller.tick one_motor 0)) 0 ≡ some (fresh_motor 0)
unfolding tick complete auto_sleep update_budget
after_tick = refl

handle_move-Covered_example :
    Covered stub_controller 0
      (id_of 7)
      (handle_move stub_controller 0 false id_of args 0 (context_of one_motor)).0.lines
      (move_ms stub_controller 0 false (context_of one_motor) request (fresh_motor 0))
      (fresh_motor 0)
handle_move-Covered_example =
    handle_move-Covered stub_controller 0 false id_of args 0 (context_of one_motor) 0 refl
      accepted_move parsed after_tick first_motor

handle_move-Reports_example :
    Reports stub_controller 0
      (codes "MOVE")
      (id_of 7)
      (move_mask (move_request false 1 (pos 4000) (pos 16000) args))
      (context_of one_motor)
      (handle_move stub_controller 0 false id_of args 5 (context_of one_motor))
handle_move-Reports_example =
    handle_move-Reports stub_controller 0 false id_of args 5 (context_of one_motor)

handle_home-Reports_example :
    Reports stub_controller 0
      (codes "HOME")
      (id_of 7)
      (home_mask (home_request false 1 (pos 4000) (pos 16000) (codes "0,100")))
      (context_of one_motor)
      (handle_home stub_controller 0 false id_of (codes "0,100") 5 (context_of one_motor))
handle_home-Reports_example =
    handle_home-Reports stub_controller 0 false id_of (codes "0,100") 5 (context_of one_motor)

-- A motor with 0.9 s of budget.
abbrev short_motor : MotorState
short_motor = record (fresh_motor 0) { budget_tenths = pos 9 }

abbrev one_short : StubMotorController
one_short = record {
  slots = record { motor = short_motor; plan = idle_plan } ∷ [];
  thermal_limits_enabled = true;
}

all_of_one : parse_id_mask (trim (codes " all")) 1 ≡ some 1
unfolding parse_id_mask trim
all_of_one = refl

handle_wake-refused_example :
    ((handle_wake stub_controller id_of (codes " all") (context_of one_short)).1.controller
      ≡ one_short)
    × ((handle_wake stub_controller id_of (codes " all") (context_of one_short)).0.lines
        ≡ make_error_line (id_of 7) (codes "E12") (codes "THERMAL_NO_BUDGET_WAKE") [] ∷ [])
handle_wake-refused_example =
    handle_wake-refused stub_controller id_of (codes " all") (context_of one_short) 0 refl
      all_of_one refl first_motor refl
