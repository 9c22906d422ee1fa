-- ===== src/Handlers/Admitted.antt =====
-- The thermal budget in `handleMove` and `handleWake`: what a motion that is let pass asks of the
-- motors.
use kinetic_mirror_matrix_es.Prelude.{
  ℕ, zero, suc, ◌+◌, ◌≤◌, ◌≡◌, refl, sym, ◌∙◌, Bool, true, false, not, ◌&&◌, List, [], ◌∷◌, some,
  none, arith, ltb, length, get_elem?, Bool-cases, Option-cases, inl, inr, if◌then◌else◌,
}
use mathlib.Core.Bool.{false≢true}
use kinetic_mirror_matrix_es.Motor.{MotorState, max_running_time_s}
use kinetic_mirror_matrix_es.Motor.Mask.{selected}
use kinetic_mirror_matrix_es.Controller.{MotorController}
use kinetic_mirror_matrix_es.Text.{Bytes}
use kinetic_mirror_matrix_es.Transport.{ResponseLine}
use kinetic_mirror_matrix_es.Handlers.{Context, first_where, avail_s, issue, ticked}
use kinetic_mirror_matrix_es.Handlers.Requests.{MoveRequest, move_request, accepted}
use kinetic_mirror_matrix_es.Handlers.Admission.{
  Durations, req_s, durations, longest, too_long, Launch, lacks, launch, launch_within_budget,
  launch_too_long, refuse, est_line,
}
use kinetic_mirror_matrix_es.Handlers.Motion.{
  handle_move, start_move, move_launch, move_ms, any_moving,
}

pub first_where-none :
    (p : MotorState → Bool) (i mask : ℕ) (ms : List MotorState) (j : ℕ) {m : MotorState}
    → first_where p i mask ms ≡ none
    → get_elem? ms j ≡ some m
    → selected mask (i + j) ≡ true
    → p m ≡ false
unfolding first_where
first_where-none p i mask [] j n e s = cc
first_where-none p i mask (x ∷ ms) zero {m} n e s =
    let here : i + 0 ≡ i = omega arith in
    let hit : selected mask i ≡ true = rw here at s in ground arith
first_where-none p i mask (x ∷ ms) (suc j) n e s =
    let there : i + suc j ≡ suc i + j = omega arith in
    first_where-none p (suc i) mask ms j (ground arith) e (rw there at s)

durations-max :
    (f : MotorState → ℕ) (i mask top : ℕ) (ms : List MotorState) {out : ℕ}
    → durations f i mask top ms ≡ longest out
    → top ≤ out
unfolding durations
durations-max f i mask top [] e = ground arith
durations-max f i mask top (x ∷ ms) {out} e = elim (Bool-cases (selected mask i)) [
  | inr miss ↦
      let on : durations f (suc i) mask top ms ≡ longest out = ground arith in
      durations-max f (suc i) mask top ms on
  | inl hit ↦ elim (Bool-cases (ltb max_running_time_s (req_s (f x)))) [
    | inl over ↦ ground arith
    | inr under ↦
        let on : durations f (suc i) mask (if ltb top (f x) then f x else top) ms ≡ longest out =
          ground arith in
        let rest = durations-max f (suc i) mask (if ltb top (f x) then f x else top) ms on in
        ground arith
  ]
]

durations-at :
    (f : MotorState → ℕ) (i mask top : ℕ) (ms : List MotorState) (j : ℕ) {out : ℕ} {m : MotorState}
    → durations f i mask top ms ≡ longest out
    → get_elem? ms j ≡ some m
    → selected mask (i + j) ≡ true
    → (f m ≤ out) × (req_s (f m) ≤ max_running_time_s)
unfolding durations
durations-at f i mask top [] j e at s = cc
durations-at f i mask top (x ∷ ms) zero {out} {m} e at s =
    let here : i + 0 ≡ i = omega arith in
    let hit : selected mask i ≡ true = rw here at s in
    elim (Bool-cases (ltb max_running_time_s (req_s (f x)))) [
      | inl over ↦ ground arith
      | inr under ↦
          let on : durations f (suc i) mask (if ltb top (f x) then f x else top) ms ≡ longest out =
            ground arith in
          let rest = durations-max f (suc i) mask (if ltb top (f x) then f x else top) ms on in
          ground arith
    ]
durations-at f i mask top (x ∷ ms) (suc j) {out} e at s =
    let there : i + suc j ≡ suc i + j = omega arith in
    let sel = rw there at s in
    elim (Bool-cases (selected mask i)) [
      | inr miss ↦
          let on : durations f (suc i) mask top ms ≡ longest out = ground arith in
          durations-at f (suc i) mask top ms j on at sel
      | inl hit ↦ elim (Bool-cases (ltb max_running_time_s (req_s (f x)))) [
        | inl over ↦ ground arith
        | inr under ↦
            let on : durations f (suc i) mask (if ltb top (f x) then f x else top) ms
                ≡ longest out =
              ground arith in
            durations-at f (suc i) mask (if ltb top (f x) then f x else top) ms j on at sel
      ]
    ]

pub Durations-cases :
    {P : Type 0} (d : Durations)
    → ((n : ℕ) → d ≡ longest n → P)
    → ((i n : ℕ) → d ≡ too_long i n → P)
    → P
Durations-cases (longest n) f g = f n refl
Durations-cases (too_long i n) f g = g i n refl

module _ (ctl : MotorController) (self : ℕ) where
  launch-accepted :
      (l : Launch ctl) (lines : List ResponseLine) (x : Context ctl)
      → (launch ctl self l lines x).0.is_error ≡ false
      → (launch ctl self l lines x).0.lines ≡ lines
  unfolding launch refuse
  launch-accepted l lines x ok = elim (Bool-cases (l.start x.controller).1) [
    | inl taken ↦ rw taken refl
    | inr busy ↦ absurd (false≢true (sym (rw busy at ok)))
  ]

  launch_within_budget-enough :
      (l : Launch ctl) (req_ms : ℕ) (x : Context ctl)
      → first_where (lacks (req_s req_ms)) 0 l.mask (ctl.motors x.controller) ≡ none
      → launch_within_budget ctl self l req_ms x
        ≡ launch ctl self l (est_line l.msg_id req_ms ∷ []) x
  unfolding launch_within_budget
  launch_within_budget-enough l req_ms x e = rw (e, launch_within_budget) refl

  launch_within_budget-short :
      (l : Launch ctl) (req_ms : ℕ) (x : Context ctl) {short : ℕ × MotorState}
      → first_where (lacks (req_s req_ms)) 0 l.mask (ctl.motors x.controller) ≡ some short
      → x.thermal_limits_enabled ≡ true
      → (launch_within_budget ctl self l req_ms x).0.is_error ≡ true
  unfolding launch_within_budget refuse
  launch_within_budget-short l req_ms x e on = rw (e, on, launch_within_budget) refl

  -- With the limits on, a launch that succeeds has a budget for each of its motors.
  launch_within_budget-accepted :
      (l : Launch ctl) (req_ms : ℕ) (x : Context ctl) (i : ℕ) {m : MotorState}
      → x.thermal_limits_enabled ≡ true
      → (launch_within_budget ctl self l req_ms x).0.is_error ≡ false
      → get_elem? (ctl.motors x.controller) i ≡ some m
      → selected l.mask i ≡ true
      → ((launch_within_budget ctl self l req_ms x).0.lines ≡ est_line l.msg_id req_ms ∷ [])
        × (req_s req_ms ≤ avail_s m)
  launch_within_budget-accepted l req_ms x i {m} on ok at s =
      elim (Option-cases (first_where (lacks (req_s req_ms)) 0 l.mask (ctl.motors x.controller))) [
        | inr (short, found) ↦
            absurd (false≢true (sym ok ∙ launch_within_budget-short l req_ms x found on))
        | inl enough ↦
            let same = launch_within_budget-enough l req_ms x enough in
            let here : 0 + i ≡ i = omega arith in
            let covered =
              first_where-none (lacks (req_s req_ms)) 0 l.mask (ctl.motors x.controller) i enough at
                (rw here s) in
            (
              rw same (launch-accepted l (est_line l.msg_id req_ms ∷ []) x (rw same at ok)),
              ground arith,
            )
      ]

  launch_too_long-refused :
      (l : Launch ctl) (id req_ms : ℕ) (x : Context ctl)
      → x.thermal_limits_enabled ≡ true
      → (launch_too_long ctl self l id req_ms x).0.is_error ≡ true
  unfolding launch_too_long refuse
  launch_too_long-refused l id req_ms x on = rw (on, launch_too_long) refl

  -- The reply is one ACK, with an estimate that is at least the motor's own and that the motor's
  -- budget covers; its own estimate is within the largest budget.
  abbrev pub Covered : Bytes → List ResponseLine → ℕ → MotorState → Type 0
  Covered msg_id lines est m =
      (req_ms : ℕ) × (lines ≡ est_line msg_id req_ms ∷ [])
      × (est ≤ req_ms)
      × (req_s req_ms ≤ avail_s m)
      × (req_s est ≤ max_running_time_s)

  module _ (shared_step : Bool) where
    start_move-Covered :
        (msg_id : Bytes) (r : MoveRequest) (now_ms : ℕ) (x : Context ctl) (i : ℕ) {m : MotorState}
        → x.thermal_limits_enabled ≡ true
        → (start_move ctl self shared_step msg_id r now_ms x).0.is_error ≡ false
        → get_elem? (ctl.motors x.controller) i ≡ some m
        → selected r.mask i ≡ true
        → Covered msg_id
            (start_move ctl self shared_step msg_id r now_ms x).0.lines
            (move_ms ctl self shared_step x r m)
            m
    unfolding start_move
    start_move-Covered msg_id r now_ms x i {m} on ok at s =
        let est = move_ms ctl self shared_step x r in
        let here : 0 + i ≡ i = omega arith in
        Durations-cases (durations est 0 r.mask 0 (ctl.motors x.controller))
          (λ req_ms e.
            let ok' = rw (e, start_move) at ok in
            let (lines, budget) =
              launch_within_budget-accepted (move_launch ctl self shared_step msg_id r now_ms)
                req_ms x i on ok' at s in
            let (less, short) =
              durations-at est 0 r.mask 0 (ctl.motors x.controller) i e at (rw here s) in
            (req_ms, rw (e, start_move) lines, less, budget, short))
          (λ id req_ms e. absurd (
            false≢true (
              sym (rw (e, start_move) at ok)
              ∙ launch_too_long-refused (move_launch ctl self shared_step msg_id r now_ms) id req_ms
                  x on)))

    module _ (next_id : ℕ → Bytes) where
      -- With the thermal limits on, a MOVE whose reply is no error: for each motor of its mask, in
      -- the state after the handler's tick, the reply's one line is an ACK with an estimate that is
      -- at least the estimate for this motor and whose whole seconds are within its budget, and
      -- the motor's own estimate is within the largest budget. The request is the parsed one.
      pub handle_move-Covered :
          (args : Bytes) (now_ms : ℕ) (x : Context ctl) {r : MoveRequest} (i : ℕ) {m : MotorState}
          → x.thermal_limits_enabled ≡ true
          → (handle_move ctl self shared_step next_id args now_ms x).0.is_error ≡ false
          → move_request shared_step
              (length (ctl.motors x.controller))
              x.default_speed
              x.default_accel
              args
            ≡ accepted r
          → get_elem? (ctl.motors (ctl.tick x.controller now_ms)) i ≡ some m
          → selected r.mask i ≡ true
          → Covered
              (next_id x.issued)
              (handle_move ctl self shared_step next_id args now_ms x).0.lines
              (move_ms ctl self shared_step x r m)
              m
      unfolding handle_move refuse move_ms
      handle_move-Covered args now_ms x {r} i on ok parsed at s =
          let y = ticked ctl now_ms (issue ctl x) in
          elim (Bool-cases (
            shared_step
            && not (x.in_batch && x.batch_initially_idle)
            && any_moving (ctl.motors x.controller))) [
              | inl busy ↦ absurd (false≢true (sym (rw (parsed, busy, handle_move) at ok)))
              | inr free ↦
                  rw (parsed, free, handle_move)
                    (start_move-Covered (next_id x.issued) r now_ms y i on
                      (rw (parsed, free, handle_move) at ok) at s)
            ]
