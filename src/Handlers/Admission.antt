-- ===== src/Handlers/Admission.antt =====
-- lib/MotorControl/src/command/CommandHandlers.cpp: the checks of the thermal budget in
-- `handleMove` and `handleHome`, and the start of the motion that they let pass.
use kinetic_mirror_matrix_es.Prelude.{
  ℕ, suc, ◌+◌, ◌-◌, ◌*◌, ◌/◌, Bool, true, false, List, [], ◌∷◌, some, none, ltb, if◌then◌else◌, u32,
}
use kinetic_mirror_matrix_es.Prelude.Int.{pos, pos_part, ◌-ℤ◌}
use kinetic_mirror_matrix_es.Motor.{
  MotorState, max_running_time_s, max_cool_down_time_s, budget_tenths_max, refill_tenths_per_sec,
}
use kinetic_mirror_matrix_es.Motor.Mask.{selected}
use kinetic_mirror_matrix_es.Controller.{MotorController}
use kinetic_mirror_matrix_es.Text.{Bytes, codes, to_string}
use kinetic_mirror_matrix_es.Transport.{
  Field, ResponseLine, make_error_line, make_warn_line, make_ack_line,
}
use kinetic_mirror_matrix_es.Transport.Completion.{register_operation}
use kinetic_mirror_matrix_es.Handlers.{
  CommandResult, failed, Context, first_where, avail_s, emit_line, with_controller,
}

-- Milliseconds in whole seconds, rounded up.
abbrev pub req_s : ℕ → ℕ
req_s req_ms = u32 (req_ms + 999) / 1000

-- The time to full cooldown that a refusal reports.
unfoldable pub ttfc_s : MotorState → ℕ
unfolding ◌-ℤ◌
ttfc_s m =
    let missing_t = pos_part (pos budget_tenths_max -ℤ m.budget_tenths) in
    let ttfc_tenths = (missing_t * 10 + refill_tenths_per_sec - 1) / refill_tenths_per_sec in
    (if ltb (max_cool_down_time_s * 10) ttfc_tenths then max_cool_down_time_s * 10 else ttfc_tenths)
    / 10

-- The loop that estimates the motion of each motor: the longest estimate, or the first one that no
-- budget can cover.
pub data Durations : Type 0 where
  longest : ℕ → Durations
  too_long : ℕ → ℕ → Durations

unfoldable pub durations : (MotorState → ℕ) → ℕ → ℕ → ℕ → List MotorState → Durations
unfolding selected
durations estimate i mask max_req_ms [] = longest max_req_ms
durations estimate i mask max_req_ms (m ∷ ms) =
    let req_ms = estimate m in
    let more = if ltb max_req_ms req_ms then req_ms else max_req_ms in
    elim (selected mask i) [
      | false ↦ durations estimate (suc i) mask max_req_ms ms
      | true ↦ elim (ltb max_running_time_s (req_s req_ms)) [
        | true ↦ too_long i req_ms
        | false ↦ durations estimate (suc i) mask more ms
      ]
    ]

abbrev pub field : Bytes → ℕ → Field
field key value = record { key = key; value = to_string value }

abbrev pub too_long_fields : ℕ → ℕ → List Field
too_long_fields id req_ms =
    field (codes "id") id
    ∷ field (codes "req_ms") req_ms
    ∷ field (codes "max_budget_s") max_running_time_s
    ∷ []

abbrev pub no_budget_fields : ℕ → ℕ → MotorState → List Field
no_budget_fields id req_ms m =
    field (codes "id") id
    ∷ field (codes "req_ms") req_ms
    ∷ field (codes "budget_s") (avail_s m)
    ∷ field (codes "ttfc_s") (ttfc_s m)
    ∷ []

abbrev pub est_line : Bytes → ℕ → ResponseLine
est_line msg_id req_ms = make_ack_line msg_id (field (codes "est_ms") req_ms ∷ [])

-- The budget does not cover this many seconds.
abbrev pub lacks : ℕ → MotorState → Bool
lacks seconds m = ltb (avail_s m) seconds

-- One motion to start: the command's word, its id and its motors, and the call that starts it.
pub record Launch (ctl : MotorController) : Type 0 where
  pub action : Bytes
  pub msg_id : Bytes
  pub mask : ℕ
  pub start : ctl.Controller → ctl.Controller × Bool

module _ (ctl : MotorController) (self : ℕ) where
  unfoldable pub emit_lines : Bytes → List ResponseLine → Context ctl → Context ctl
  unfolding emit_line
  emit_lines action [] x = x
  emit_lines action (line ∷ lines) x = emit_lines action lines (emit_line ctl action line x)

  -- `emitError`
  unfoldable pub refuse :
      Bytes → Bytes → Bytes → Bytes → List Field → Context ctl → CommandResult × Context ctl
  unfolding emit_line
  refuse action msg_id code reason fields x =
      let line = make_error_line msg_id code reason fields in
      (failed line, emit_line ctl action line x)

  -- The motion is started and registered, and the lines are emitted; a controller that does not
  -- take it is busy.
  unfoldable pub launch : Launch ctl → List ResponseLine → Context ctl → CommandResult × Context ctl
  unfolding emit_lines refuse register_operation
  launch l lines x =
      let (c, taken) = l.start x.controller in
      let y = with_controller ctl c x in
      if taken
      then (
        record { is_error = false; lines = lines },
        emit_lines l.action lines
            (record y { pending = register_operation l.msg_id l.action l.mask self y.pending }),
      )
      else refuse l.action l.msg_id (codes "E04") (codes "BUSY") [] y

  -- A motion that no budget covers: an error, or a warning where the limits are off.
  unfoldable pub launch_too_long : Launch ctl → ℕ → ℕ → Context ctl → CommandResult × Context ctl
  unfolding refuse launch
  launch_too_long l id req_ms x =
      let fields = too_long_fields id req_ms in
      let reason = codes "THERMAL_REQ_GT_MAX" in
      if x.thermal_limits_enabled
      then refuse l.action l.msg_id (codes "E10") reason fields x
      else launch l (make_warn_line l.msg_id reason [] fields ∷ est_line l.msg_id req_ms ∷ []) x

  -- The loop over the budgets, and the start where each suffices.
  unfoldable pub launch_within_budget : Launch ctl → ℕ → Context ctl → CommandResult × Context ctl
  unfolding refuse launch first_where ttfc_s
  launch_within_budget l req_ms x =
      let reason = codes "THERMAL_NO_BUDGET" in
      elim (first_where (lacks (req_s req_ms)) 0 l.mask (ctl.motors x.controller)) [
        | none ↦ launch l (est_line l.msg_id req_ms ∷ []) x
        | some (id, m) ↦
            let fields = no_budget_fields id req_ms m in
            if x.thermal_limits_enabled
            then refuse l.action l.msg_id (codes "E11") reason fields x
            else launch l (make_warn_line l.msg_id reason [] fields ∷ est_line l.msg_id req_ms ∷ [])
                x
      ]
