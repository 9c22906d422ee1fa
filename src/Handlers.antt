-- ===== src/Handlers.antt =====
-- lib/MotorControl/src/command/CommandHandlers.cpp, the class `MotorCommandHandler`, with
-- CommandExecutionContext and CommandResult: the commands WAKE, SLEEP, MOVE and HOME. The modules
-- Handlers/Requests, Handlers/Admission and Handlers/Motion hold the parts of the last two.
-- `self` is the identity of the controller, `next_id` the sequence of the ids that
-- `message_id::Next` gives, and `shared_step` the switch `USE_SHARED_STEP`.
pub mod Requests
pub mod Admission
pub mod Motion
pub mod Execute
pub mod Query
pub mod MqttConfig
pub mod Replies
pub mod Admitted
pub mod Wake
use kinetic_mirror_matrix_es.Prelude.{
  ℕ, suc, ◌+◌, ◌/◌, ◌^◌, Bool, true, false, not, ◌&&◌, List, [], ◌∷◌, ◌++◌, Option, some, none, ltb,
  length, if◌then◌else◌,
}
use kinetic_mirror_matrix_es.Prelude.Int.{ℤ, pos_part}
use kinetic_mirror_matrix_es.Motor.{MotorState}
use kinetic_mirror_matrix_es.Motor.Mask.{selected}
use kinetic_mirror_matrix_es.Controller.{MotorController}
use kinetic_mirror_matrix_es.Text.{Bytes, codes, parse_id_mask, trim}
use kinetic_mirror_matrix_es.Transport.{
  Field, ResponseLine, make_error_line, make_warn_line, make_ack_line,
}
use kinetic_mirror_matrix_es.Transport.Events.{
  Event, done_event, build_event, event_to_line, assign,
}
use kinetic_mirror_matrix_es.Transport.Dispatcher.{ResponseDispatcher, emit}
use kinetic_mirror_matrix_es.Transport.Completion.{Pending}

pub record CommandResult : Type 0 where
  pub is_error : Bool
  pub lines : List ResponseLine

abbrev pub one_line : ResponseLine → CommandResult
one_line line = record { is_error = false; lines = line ∷ [] }

abbrev pub failed : ResponseLine → CommandResult
failed line = record { is_error = true; lines = line ∷ [] }

-- The execution context, with the objects that a command reaches through singletons: the tracker's
-- entries, the dispatcher, and how many ids are issued.
pub record Context (ctl : MotorController) : Type 0 where
  pub controller : ctl.Controller
  pub thermal_limits_enabled : Bool
  pub default_speed : ℤ
  pub default_accel : ℤ
  pub default_decel : ℤ
  pub in_batch : Bool
  pub batch_initially_idle : Bool
  pub pending : List Pending
  pub dispatcher : ResponseDispatcher
  pub issued : ℕ

-- The first selected motor with a property, from id i on.
unfoldable pub first_where : (MotorState → Bool) → ℕ → ℕ → List MotorState → Option (ℕ × MotorState)
unfolding selected
first_where p i mask [] = none
first_where p i mask (m ∷ ms) =
    if selected mask i && p m then some (i, m) else first_where p (suc i) mask ms

abbrev pub avail_s : MotorState → ℕ
avail_s m = pos_part m.budget_tenths / 10

module _ (ctl : MotorController) where
  unfoldable pub emit_line : Bytes → ResponseLine → Context ctl → Context ctl
  unfolding emit build_event
  emit_line action line x = record x { dispatcher = emit (build_event line action) x.dispatcher }

  -- `MakeResultWithLine`, which leaves `is_error` unset for an error line too.
  unfoldable pub make_result_with_line :
      Bytes → ResponseLine → Context ctl → CommandResult × Context ctl
  unfolding emit_line
  make_result_with_line action line x = (one_line line, emit_line action line x)

  abbrev pub done_event_of : Bytes → Bytes → Event
  done_event_of action msg_id = record {
    type = done_event;
    cmd_id = msg_id;
    action = action;
    code = [];
    reason = [];
    raw = [];
    attributes = record { key = codes "status"; value = codes "done" } ∷ [];
  }

  -- `MakeDoneResult`, without further fields.
  unfoldable pub make_done_result : Bytes → Bytes → Context ctl → CommandResult × Context ctl
  unfolding emit event_to_line
  make_done_result action msg_id x =
      let event = done_event_of action msg_id in
      (one_line (event_to_line event), record x { dispatcher = emit event x.dispatcher })

  -- `AppendDoneResult`, on the lines so far.
  unfoldable pub append_done_result :
      List ResponseLine → Bytes → Bytes → Context ctl → CommandResult × Context ctl
  unfolding make_done_result
  append_done_result before action msg_id x =
      let (done, y) = make_done_result action msg_id x in
      (record { is_error = false; lines = before ++ done.lines }, y)

  abbrev pub with_controller : ctl.Controller → Context ctl → Context ctl
  with_controller c x = record x { controller = c }

  abbrev pub ticked : ℕ → Context ctl → Context ctl
  ticked now_ms x = with_controller (ctl.tick x.controller now_ms) x

  abbrev pub issue : Context ctl → Context ctl
  issue x = record x { issued = suc x.issued }

  abbrev pub no_seconds_left : MotorState → Bool
  no_seconds_left m = not (ltb 0 (avail_s m))

  module _ (next_id : ℕ → Bytes) where
    unfoldable pub handle_wake : Bytes → Context ctl → CommandResult × Context ctl
    unfolding make_result_with_line make_done_result append_done_result emit_line parse_id_mask
        first_where trim
    handle_wake args x =
        let action = codes "WAKE" in
        let msg_id = next_id x.issued in
        let y = issue x in
        elim (parse_id_mask (trim args) (length (ctl.motors y.controller))) [
          | none ↦
              make_result_with_line action
                (make_error_line msg_id (codes "E02") (codes "BAD_ID") []) y
          | some mask ↦
              let woken = with_controller (ctl.wake_mask y.controller mask) y in
              elim (first_where no_seconds_left 0 mask (ctl.motors y.controller)) [
                | none ↦ make_done_result action msg_id woken
                | some _ ↦
                    if y.thermal_limits_enabled
                    then make_result_with_line action
                        (make_error_line msg_id (codes "E12") (codes "THERMAL_NO_BUDGET_WAKE") []) y
                    else (let warn = make_warn_line msg_id (codes "THERMAL_NO_BUDGET_WAKE") [] [] in
                        append_done_result (warn ∷ []) action msg_id (emit_line action warn woken))
              ]
        ]

    unfoldable pub handle_sleep : Bytes → Context ctl → CommandResult × Context ctl
    unfolding make_result_with_line make_done_result parse_id_mask trim
    handle_sleep args x =
        let action = codes "SLEEP" in
        let msg_id = next_id x.issued in
        let y = issue x in
        elim (parse_id_mask (trim args) (length (ctl.motors y.controller))) [
          | none ↦
              make_result_with_line action
                (make_error_line msg_id (codes "E02") (codes "BAD_ID") []) y
          | some mask ↦
              let (c, slept) = ctl.sleep_mask y.controller mask in
              if slept
              then make_done_result action msg_id (with_controller c y)
              else make_result_with_line action
                  (make_error_line msg_id (codes "E04") (codes "BUSY") []) (with_controller c y)
        ]
