-- ===== src/Handlers/Execute.antt =====
-- lib/MotorControl/src/command/CommandHandlers.cpp: the dispatch of `MotorCommandHandler`.
use kinetic_mirror_matrix_es.Prelude.{ℕ, Bool, ◌||◌, [], if◌then◌else◌}
use kinetic_mirror_matrix_es.Controller.{MotorController}
use kinetic_mirror_matrix_es.Text.{Bytes, codes, eq_bytes}
use kinetic_mirror_matrix_es.Transport.{make_error_line}
use kinetic_mirror_matrix_es.Handlers.{
  CommandResult, Context, handle_wake, handle_sleep, make_result_with_line, ticked, issue,
}
use kinetic_mirror_matrix_es.Handlers.Motion.{handle_move, handle_home}

unfoldable pub can_handle : Bytes → Bool
can_handle action =
    eq_bytes action (codes "MOVE")
    || eq_bytes action (codes "M")
    || eq_bytes action (codes "HOME")
    || eq_bytes action (codes "H")
    || eq_bytes action (codes "WAKE")
    || eq_bytes action (codes "SLEEP")

module _ (ctl : MotorController) (self : ℕ) (shared_step : Bool) (next_id : ℕ → Bytes) where
  unfoldable pub execute : Bytes → Bytes → ℕ → Context ctl → CommandResult × Context ctl
  unfolding handle_wake handle_sleep handle_move handle_home make_result_with_line
  execute action args now_ms x =
      if eq_bytes action (codes "WAKE")
      then handle_wake ctl next_id args (ticked ctl now_ms x)
      else if eq_bytes action (codes "SLEEP")
      then handle_sleep ctl next_id args (ticked ctl now_ms x)
      else if eq_bytes action (codes "MOVE") || eq_bytes action (codes "M")
      then handle_move ctl self shared_step next_id args now_ms x
      else if eq_bytes action (codes "HOME") || eq_bytes action (codes "H")
      then handle_home ctl self shared_step next_id args now_ms x
      else make_result_with_line ctl action
          (make_error_line (next_id x.issued) (codes "E01") (codes "BAD_CMD") []) (issue ctl x)
