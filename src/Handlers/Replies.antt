-- ===== src/Handlers/Replies.antt =====
-- The replies of `handleMove` and `handleHome`: what is sent to the sinks, and what is registered
-- for a later DONE.
use kinetic_mirror_matrix_es.Prelude.{
  ℕ, ◌≡◌, refl, Bool, true, false, not, ◌&&◌, List, [], ◌∷◌, ltb, length, Bool-cases, Option-cases,
  inl, inr, if◌then◌else◌,
}
use kinetic_mirror_matrix_es.Motor.{max_running_time_s}
use kinetic_mirror_matrix_es.Controller.{MotorController}
use kinetic_mirror_matrix_es.Text.{Bytes, codes}
use kinetic_mirror_matrix_es.Transport.{Field, ResponseLine, make_warn_line}
use kinetic_mirror_matrix_es.Transport.Events.{build_event}
use kinetic_mirror_matrix_es.Transport.Dispatcher.{ResponseDispatcher, emit}
use kinetic_mirror_matrix_es.Transport.Completion.{register_operation}
use kinetic_mirror_matrix_es.Handlers.{
  CommandResult, Context, emit_line, first_where, issue, ticked,
}
use kinetic_mirror_matrix_es.Handlers.Admitted.{Durations-cases}
use kinetic_mirror_matrix_es.Handlers.Requests.{
  Checked, accepted, rejected, MoveRequest, HomeRequest, move_request, home_request,
}
use kinetic_mirror_matrix_es.Handlers.Admission.{
  req_s, durations, Launch, lacks, emit_lines, refuse, launch, launch_too_long,
  launch_within_budget, est_line, too_long_fields, no_budget_fields,
}
use kinetic_mirror_matrix_es.Handlers.Motion.{
  handle_move, handle_home, start_move, start_home, move_launch, home_launch, move_ms, home_ms,
  any_moving, first_id,
}

Checked-cases :
    {A P : Type 0} (c : Checked A)
    → ((code reason : Bytes) → c ≡ rejected code reason → P)
    → ((a : A) → c ≡ accepted a → P)
    → P
Checked-cases (rejected code reason) f g = f code reason refl
Checked-cases (accepted a) f g = g a refl

-- Each line, in order, as one event to every sink.
abbrev pub send_lines : Bytes → List ResponseLine → ResponseDispatcher → ResponseDispatcher
send_lines action [] d = d
send_lines action (line ∷ lines) d = send_lines action lines (emit (build_event line action) d)

-- The motors of a request that is accepted.
abbrev pub move_mask : Checked MoveRequest → ℕ
move_mask (rejected code reason) = 0
move_mask (accepted r) = r.mask

abbrev pub home_mask : Checked HomeRequest → ℕ
home_mask (rejected code reason) = 0
home_mask (accepted r) = r.mask

module _ (ctl : MotorController) (self : ℕ) where
  -- A reply whose lines are what is sent, and that registers the operation unless it is an error.
  abbrev pub Reports : Bytes → Bytes → ℕ → Context ctl → CommandResult × Context ctl → Type 0
  Reports action msg_id mask x reply =
      (reply.1.dispatcher ≡ send_lines action reply.0.lines x.dispatcher)
      × (reply.1.pending ≡ (
          if reply.0.is_error
          then x.pending
          else register_operation msg_id action mask self x.pending))

  emit_lines-sends :
      (action : Bytes) (lines : List ResponseLine) (x : Context ctl)
      → ((emit_lines ctl self action lines x).dispatcher ≡ send_lines action lines x.dispatcher)
        × ((emit_lines ctl self action lines x).pending ≡ x.pending)
  unfolding emit_lines emit_line
  emit_lines-sends action [] x = (refl, refl)
  emit_lines-sends action (line ∷ lines) x =
      emit_lines-sends action lines (emit_line ctl action line x)

  refuse-Reports :
      (action msg_id code reason : Bytes) (fields : List Field) (mask : ℕ) (x : Context ctl)
      → Reports action msg_id mask x (refuse ctl self action msg_id code reason fields x)
  unfolding refuse emit_line
  refuse-Reports action msg_id code reason fields mask x = (refl, refl)

  launch-Reports :
      (l : Launch ctl) (lines : List ResponseLine) (x : Context ctl)
      → Reports l.action l.msg_id l.mask x (launch ctl self l lines x)
  unfolding launch refuse emit_line
  launch-Reports l lines x = elim (Bool-cases (l.start x.controller).1) [
    | inr busy ↦ rw (busy, launch) (refl, refl)
    | inl taken ↦ rw (taken, launch) (emit_lines-sends l.action lines _)
  ]

  either :
      (P : CommandResult × Context ctl → Type 0) (b : Bool) (u v : CommandResult × Context ctl)
      → P u
      → P v
      → P (if b then u else v)
  either P true u v h k = h
  either P false u v h k = k

  launch_too_long-Reports :
      (l : Launch ctl) (id req_ms : ℕ) (x : Context ctl)
      → Reports l.action l.msg_id l.mask x (launch_too_long ctl self l id req_ms x)
  unfolding launch_too_long
  launch_too_long-Reports l id req_ms x =
      let fields = too_long_fields id req_ms in
      let reason = codes "THERMAL_REQ_GT_MAX" in
      let warned = make_warn_line l.msg_id reason [] fields ∷ est_line l.msg_id req_ms ∷ [] in
      either (Reports l.action l.msg_id l.mask x) x.thermal_limits_enabled
        (refuse ctl self l.action l.msg_id (codes "E10") reason fields x)
        (launch ctl self l warned x)
        (refuse-Reports l.action l.msg_id (codes "E10") reason fields l.mask x)
        (launch-Reports l warned x)

  launch_within_budget-Reports :
      (l : Launch ctl) (req_ms : ℕ) (x : Context ctl)
      → Reports l.action l.msg_id l.mask x (launch_within_budget ctl self l req_ms x)
  unfolding launch_within_budget
  launch_within_budget-Reports l req_ms x =
      elim (Option-cases (first_where (lacks (req_s req_ms)) 0 l.mask (ctl.motors x.controller))) [
        | inl enough ↦
            rw (enough, launch_within_budget) (launch-Reports l (est_line l.msg_id req_ms ∷ []) x)
        | inr (short, found) ↦
            let fields = no_budget_fields short.0 req_ms short.1 in
            let reason = codes "THERMAL_NO_BUDGET" in
            let warned = make_warn_line l.msg_id reason [] fields ∷ est_line l.msg_id req_ms ∷ [] in
            rw (found, launch_within_budget)
              (either (Reports l.action l.msg_id l.mask x) x.thermal_limits_enabled
                (refuse ctl self l.action l.msg_id (codes "E11") reason fields x)
                (launch ctl self l warned x)
                (refuse-Reports l.action l.msg_id (codes "E11") reason fields l.mask x)
                (launch-Reports l warned x))
      ]

  module _ (shared_step : Bool) where
    start_move-Reports :
        (msg_id : Bytes) (r : MoveRequest) (now_ms : ℕ) (x : Context ctl)
        → Reports (codes "MOVE") msg_id r.mask x (start_move ctl self shared_step msg_id r now_ms x)
    unfolding start_move
    start_move-Reports msg_id r now_ms x =
        let l = move_launch ctl self shared_step msg_id r now_ms in
        let est = move_ms ctl self shared_step x r in
        Durations-cases (durations est 0 r.mask 0 (ctl.motors x.controller))
          (λ req_ms e. rw (e, start_move) (launch_within_budget-Reports l req_ms x))
          (λ id req_ms e. rw (e, start_move) (launch_too_long-Reports l id req_ms x))

    start_home-Reports :
        (msg_id : Bytes) (r : HomeRequest) (now_ms : ℕ) (x : Context ctl)
        → Reports (codes "HOME") msg_id r.mask x (start_home ctl self shared_step msg_id r now_ms x)
    unfolding start_home
    start_home-Reports msg_id r now_ms x =
        let l = home_launch ctl self shared_step msg_id r now_ms in
        let req_ms = home_ms ctl self shared_step x r in
        let id = first_id 0 r.mask (ctl.motors x.controller) in
        either (Reports (codes "HOME") msg_id r.mask x) (ltb max_running_time_s (req_s req_ms))
          (launch_too_long ctl self l id req_ms x) (launch_within_budget ctl self l req_ms x)
          (launch_too_long-Reports l id req_ms x) (launch_within_budget-Reports l req_ms x)

    module _ (next_id : ℕ → Bytes) where
      -- MOVE, on every branch: each line of the reply is sent to the sinks once, in order and
      -- under the word MOVE; the operation is registered for the motors of the request under the
      -- id of the command exactly where the reply is no error.
      pub handle_move-Reports :
          (args : Bytes) (now_ms : ℕ) (x : Context ctl)
          → Reports
              (codes "MOVE")
              (next_id x.issued)
              (move_mask (
                move_request shared_step
                  (length (ctl.motors x.controller))
                  x.default_speed
                  x.default_accel
                  args))
              x
              (handle_move ctl self shared_step next_id args now_ms x)
      unfolding handle_move
      handle_move-Reports args now_ms x =
          let y = issue ctl x in
          let id = next_id x.issued in
          let busy =
            shared_step
            && not (x.in_batch && x.batch_initially_idle)
            && any_moving (ctl.motors x.controller) in
          Checked-cases
            (move_request shared_step (length (ctl.motors x.controller)) x.default_speed
              x.default_accel args)
            (λ code reason e.
              rw (e, handle_move) (refuse-Reports (codes "MOVE") id code reason [] 0 y))
            (λ r e.
              rw (e, handle_move)
                (either (Reports (codes "MOVE") id r.mask x) busy
                  (refuse ctl self (codes "MOVE") id (codes "E04") (codes "BUSY") [] y)
                  (start_move ctl self shared_step id r now_ms (ticked ctl now_ms y))
                  (refuse-Reports (codes "MOVE") id (codes "E04") (codes "BUSY") [] r.mask y)
                  (start_move-Reports id r now_ms (ticked ctl now_ms y))))

      -- The same of HOME.
      pub handle_home-Reports :
          (args : Bytes) (now_ms : ℕ) (x : Context ctl)
          → Reports
              (codes "HOME")
              (next_id x.issued)
              (home_mask (
                home_request shared_step
                  (length (ctl.motors x.controller))
                  x.default_speed
                  x.default_accel
                  args))
              x
              (handle_home ctl self shared_step next_id args now_ms x)
      unfolding handle_home
      handle_home-Reports args now_ms x =
          let y = issue ctl x in
          let id = next_id x.issued in
          Checked-cases
            (home_request shared_step (length (ctl.motors x.controller)) x.default_speed
              x.default_accel args)
            (λ code reason e.
              rw (e, handle_home) (refuse-Reports (codes "HOME") id code reason [] 0 y))
            (λ r e. rw (e, handle_home) (start_home-Reports id r now_ms (ticked ctl now_ms y)))
