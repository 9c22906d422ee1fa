-- ===== src/Handlers/Query.antt =====
-- lib/MotorControl/src/command/CommandHandlers.cpp, the class `QueryCommandHandler`: HELP, STATUS, GET
-- and SET. The help text and the free heap of the device, -1 where it is unknown, are arguments.
pub mod Lines
pub mod Defaults
use kinetic_mirror_matrix_es.Handlers.Query.Lines.{
  field, show_int, plain_line, cut_at, status_lines, timing_line, timing_lines, help_lines,
}
use kinetic_mirror_matrix_es.Prelude.{
  ℕ, ◌+◌, ◌-◌, Bool, true, false, not, ◌||◌, List, [], ◌∷◌, ◌++◌, Option, some, none, length, take,
  if◌then◌else◌,
}
use kinetic_mirror_matrix_es.Prelude.Int.{ℤ, pos, ltb_ℤ}
use kinetic_mirror_matrix_es.Motor.{max_running_time_s}
use kinetic_mirror_matrix_es.Controller.{MotorController}
use kinetic_mirror_matrix_es.Text.{
  Bytes, codes, eq_bytes, is_empty, parse_id_mask, parse_int, split, to_string, to_upper_copy, trim,
}
use kinetic_mirror_matrix_es.Transport.{
  Field, ResponseLine, info_line, make_ack_line, make_error_line,
}
use kinetic_mirror_matrix_es.Transport.Events.{event_to_line, fields_into}
use kinetic_mirror_matrix_es.Transport.Dispatcher.{emit}
use kinetic_mirror_matrix_es.Handlers.{
  CommandResult, Context, done_event_of, emit_line, first_where, issue, make_result_with_line,
  one_line, ticked,
}
use kinetic_mirror_matrix_es.Handlers.Motion.{any_moving}

unfoldable pub can_handle_query : Bytes → Bool
can_handle_query action =
    eq_bytes action (codes "HELP")
    || eq_bytes action (codes "STATUS")
    || eq_bytes action (codes "ST")
    || eq_bytes action (codes "GET")
    || eq_bytes action (codes "SET")

-- The parameters that SET knows, and GET one by one.
pub data Parameter : Type 0 where
  speed accel decel : Parameter

unfoldable pub parameter_of : Bytes → Option Parameter
parameter_of key =
    if eq_bytes key (codes "SPEED")
    then some speed
    else if eq_bytes key (codes "ACCEL")
    then some accel
    else if eq_bytes key (codes "DECEL")
    then some decel
    else none

-- The check of a value: `v <= 0` is refused, for DECEL `v < 0`.
abbrev pub allows : Parameter → ℤ → Bool
allows speed v = ltb_ℤ (pos 0) v
allows accel v = ltb_ℤ (pos 0) v
allows decel v = not (ltb_ℤ v (pos 0))

module _ (ctl : MotorController) where
  -- `MakeDoneResult` with its fields.
  unfoldable pub make_done_fields :
      Bytes → Bytes → List Field → Context ctl → CommandResult × Context ctl
  make_done_fields action msg_id fields x =
      let event = record (done_event_of ctl action msg_id) {
        attributes = fields_into (field (codes "status") (codes "done") ∷ []) fields;
      } in
      (one_line (event_to_line event), record x { dispatcher = emit event x.dispatcher })

  -- `AppendDoneResult` with its fields.
  unfoldable pub append_done_fields :
      List ResponseLine → Bytes → Bytes → List Field → Context ctl → CommandResult × Context ctl
  append_done_fields before action msg_id fields x =
      let (done, y) = make_done_fields action msg_id fields x in
      (record { is_error = false; lines = before ++ done.lines }, y)

  abbrev pub emit_lines : Bytes → List ResponseLine → Context ctl → Context ctl
  emit_lines action [] x = x
  emit_lines action (line ∷ lines) x = emit_lines action lines (emit_line ctl action line x)

  abbrev pub value_of : Parameter → Context ctl → ℤ
  value_of speed x = x.default_speed
  value_of accel x = x.default_accel
  value_of decel x = x.default_decel

  -- The deceleration is told to the controller too.
  unfoldable pub set_parameter : Parameter → ℤ → Context ctl → Context ctl
  set_parameter speed v x = record x { default_speed = v }
  set_parameter accel v x = record x { default_accel = v }
  set_parameter decel v x = record x {
    default_decel = v;
    controller = ctl.set_deceleration x.controller v;
  }

  unfoldable pub set_thermal_limits : Bool → Context ctl → Context ctl
  set_thermal_limits enabled x = record x {
    thermal_limits_enabled = enabled;
    controller = ctl.set_thermal_limits_enabled x.controller enabled;
  }

  unfoldable pub refuse_query :
      Bytes → Bytes → Bytes → Bytes → Context ctl → CommandResult × Context ctl
  refuse_query action msg_id code reason x =
      make_result_with_line ctl action (make_error_line msg_id code reason []) x

  abbrev pub bad_param : Bytes → Bytes → Context ctl → CommandResult × Context ctl
  bad_param action msg_id x = refuse_query action msg_id (codes "E03") (codes "BAD_PARAM") x

  -- The part of `handleSet` for one of the three parameters.
  unfoldable pub assign_parameter :
      Parameter → Bytes → Bytes → Context ctl → CommandResult × Context ctl
  assign_parameter p val msg_id x = elim (parse_int val) [
    | none ↦ bad_param (codes "SET") msg_id x
    | some v ↦
        if not (allows p v)
        then bad_param (codes "SET") msg_id x
        else if any_moving (ctl.motors x.controller)
        then refuse_query (codes "SET") msg_id (codes "E04") (codes "BUSY") x
        else make_done_fields (codes "SET") msg_id [] (set_parameter p v x)
  ]

  unfoldable pub assign_thermal : Bytes → Bytes → Context ctl → CommandResult × Context ctl
  assign_thermal val msg_id x =
      if eq_bytes val (codes "ON")
      then make_done_fields (codes "SET") msg_id [] (set_thermal_limits true x)
      else if eq_bytes val (codes "OFF")
      then make_done_fields (codes "SET") msg_id [] (set_thermal_limits false x)
      else bad_param (codes "SET") msg_id x

  -- The two texts of `handleSet`, trimmed.
  unfoldable pub set_value : Bytes → Bytes → Bytes → Context ctl → CommandResult × Context ctl
  set_value key val msg_id x =
      if eq_bytes key (codes "THERMAL_LIMITING")
      then assign_thermal val msg_id x
      else elim (parameter_of key) [
        | none ↦ bad_param (codes "SET") msg_id x
        | some p ↦ assign_parameter p val msg_id x
      ]

  abbrev on_or_off : Context ctl → Bytes
  on_or_off x = if x.thermal_limits_enabled then codes "ON" else codes "OFF"

  abbrev max_budget_field : Field
  max_budget_field = field (codes "max_budget_s") (to_string max_running_time_s)

  abbrev heap_text : ℤ → Bytes
  heap_text free_heap = if ltb_ℤ free_heap (pos 0) then codes "unknown" else show_int free_heap

  -- GET, and GET ALL.
  unfoldable pub all_fields : ℤ → Context ctl → List Field
  all_fields free_heap x =
      field (codes "SPEED") (show_int x.default_speed)
      ∷ field (codes "ACCEL") (show_int x.default_accel)
      ∷ field (codes "DECEL") (show_int x.default_decel)
      ∷ field (codes "THERMAL_LIMITING") (on_or_off x)
      ∷ max_budget_field
      ∷ field (codes "free_heap_bytes") (heap_text free_heap)
      ∷ []

  -- The first motor that the mask selects.
  unfoldable pub one_timing : Bytes → Bytes → Context ctl → CommandResult × Context ctl
  one_timing rest msg_id x = elim (parse_id_mask rest (length (ctl.motors x.controller))) [
    | none ↦ refuse_query (codes "GET") msg_id (codes "E02") (codes "BAD_ID") x
    | some mask ↦ elim (first_where (λ m. true) 0 mask (ctl.motors x.controller)) [
      | none ↦ refuse_query (codes "GET") msg_id (codes "E02") (codes "BAD_ID") x
      | some (i, m) ↦
          make_done_fields (codes "GET") msg_id
            (field (codes "LAST_OP_TIMING") (codes "1") ∷ (timing_line i m).fields) x
    ]
  ]

  module _ (next_id : ℕ → Bytes) where
    -- The list takes an id of its own.
    unfoldable pub all_timings : Context ctl → CommandResult × Context ctl
    all_timings x =
        let list_cid = next_id x.issued in
        let name = codes "LAST_OP_TIMING" in
        let section = record plain_line {
          type = info_line;
          msg_id = list_cid;
          code = name;
          raw = name;
        } in
        let lines =
          make_ack_line list_cid [] ∷ section ∷ timing_lines 0 (ctl.motors x.controller) in
        append_done_fields lines (codes "GET") list_cid []
          (emit_lines (codes "GET") lines (issue ctl x))

    abbrev after_colon : Bytes → Bytes
    after_colon key = elim (cut_at b':' key) [ none ↦ [] | some (before, after) ↦ trim after ]

    -- The part of `handleGet` behind the parameters.
    unfoldable pub get_timing : Bytes → Bytes → Context ctl → CommandResult × Context ctl
    get_timing key msg_id x =
        if not (eq_bytes (take 14 key) (codes "LAST_OP_TIMING"))
        then bad_param (codes "GET") msg_id x
        else if is_empty (after_colon key) || eq_bytes (after_colon key) (codes "ALL")
        then all_timings x
        else one_timing (after_colon key) msg_id x

    abbrev get_key : ℤ → Bytes → Bytes → Context ctl → CommandResult × Context ctl
    get_key free_heap key msg_id x =
        if is_empty key || eq_bytes key (codes "ALL")
        then make_done_fields (codes "GET") msg_id (all_fields free_heap x) x
        else if eq_bytes key (codes "THERMAL_LIMITING")
        then make_done_fields (codes "GET") msg_id
            (field (codes "THERMAL_LIMITING") (on_or_off x) ∷ max_budget_field ∷ []) x
        else elim (parameter_of key) [
          | none ↦ get_timing key msg_id x
          | some p ↦
              make_done_fields (codes "GET") msg_id (field key (show_int (value_of p x)) ∷ []) x
        ]

    unfoldable pub handle_get : ℤ → Bytes → Context ctl → CommandResult × Context ctl
    handle_get free_heap args x =
        get_key free_heap (to_upper_copy (trim args)) (next_id x.issued) (issue ctl x)

    unfoldable pub handle_set : Bytes → Context ctl → CommandResult × Context ctl
    handle_set args x = elim (cut_at b'=' (to_upper_copy (trim args))) [
      | none ↦ bad_param (codes "SET") (next_id x.issued) (issue ctl x)
      | some (key, val) ↦ set_value (trim key) (trim val) (next_id x.issued) (issue ctl x)
    ]

    unfoldable pub handle_status : Context ctl → CommandResult × Context ctl
    handle_status x =
        let msg_id = next_id x.issued in
        let lines = make_ack_line msg_id [] ∷ status_lines (ctl.motors x.controller) in
        (
          record { is_error = false; lines = lines },
          emit_lines (codes "STATUS") lines (issue ctl x),
        )

    unfoldable pub handle_help : Bytes → Context ctl → CommandResult × Context ctl
    handle_help help_text x =
        let lines = help_lines (split help_text b'\n') in
        append_done_fields lines (codes "HELP") (next_id x.issued) []
          (issue ctl (emit_lines (codes "HELP") lines x))

    unfoldable pub execute_query :
        Bytes → ℤ → Bytes → Bytes → ℕ → Context ctl → CommandResult × Context ctl
    execute_query help_text free_heap action args now_ms x =
        if eq_bytes action (codes "HELP")
        then handle_help help_text x
        else if eq_bytes action (codes "STATUS") || eq_bytes action (codes "ST")
        then handle_status (ticked ctl now_ms x)
        else if eq_bytes action (codes "GET")
        then handle_get free_heap args (ticked ctl now_ms x)
        else if eq_bytes action (codes "SET")
        then handle_set args (ticked ctl now_ms x)
        else refuse_query action (next_id x.issued) (codes "E01") (codes "BAD_CMD") (issue ctl x)
