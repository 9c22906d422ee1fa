-- ===== src/Handlers/Query/Defaults.antt =====
-- lib/MotorControl/src/command/CommandHandlers.cpp, `handleSet`: the defaults for the motions.
use kinetic_mirror_matrix_es.Prelude.{
  ℕ, ◌≡◌, refl, sym, ◌∙◌, Bool, true, false, not, [], arith, Bool-cases, Option-cases, inl, inr,
}
use mathlib.Core.Bool.{false≢true}
use kinetic_mirror_matrix_es.Prelude.Int.{ℤ, pos, ltb_ℤ}
use kinetic_mirror_matrix_es.Controller.{MotorController}
use kinetic_mirror_matrix_es.Text.{Bytes, codes, eq_bytes, parse_int, to_upper_copy, trim}
use kinetic_mirror_matrix_es.Handlers.{Context, emit_line, issue, make_result_with_line}
use kinetic_mirror_matrix_es.Handlers.Motion.{any_moving}
use kinetic_mirror_matrix_es.Handlers.Query.{
  Parameter, accel, allows, assign_parameter, assign_thermal, decel, handle_set, make_done_fields,
  parameter_of, refuse_query, set_parameter, set_thermal_limits, set_value, speed,
}
use kinetic_mirror_matrix_es.Handlers.Query.Lines.{cut_at}

module _ (ctl : MotorController) where
  -- What a motion may take as its speed and its ramps.
  pub record Valid (x : Context ctl) : Type 0 where
    pub some_speed : ltb_ℤ (pos 0) x.default_speed ≡ true
    pub some_accel : ltb_ℤ (pos 0) x.default_accel ≡ true
    pub no_negative : ltb_ℤ x.default_decel (pos 0) ≡ false

  pub record SameDefaults (x y : Context ctl) : Type 0 where
    pub speed : y.default_speed ≡ x.default_speed
    pub accel : y.default_accel ≡ x.default_accel
    pub decel : y.default_decel ≡ x.default_decel

  pub record Safe (x y : Context ctl) : Type 0 where
    pub valid : Valid x → Valid y
    pub frozen : any_moving (ctl.motors x.controller) ≡ true → SameDefaults x y

  same-Safe : (x y : Context ctl) → SameDefaults x y → Safe x y
  same-Safe x y s = record {
    valid = λ v. record {
      some_speed = rw s.speed v.some_speed;
      some_accel = rw s.accel v.some_accel;
      no_negative = rw s.decel v.no_negative;
    };
    frozen = λ m. s;
  }

  refused-Safe :
      (action msg_id code reason : Bytes) (x : Context ctl)
      → Safe x (refuse_query ctl action msg_id code reason x).1
  unfolding refuse_query make_result_with_line emit_line
  refused-Safe action msg_id code reason x =
      same-Safe x _ (record { speed = refl; accel = refl; decel = refl })

  done-Safe :
      (action msg_id : Bytes) (x y : Context ctl)
      → Safe x y
      → Safe x (make_done_fields ctl action msg_id [] y).1
  unfolding make_done_fields
  done-Safe action msg_id x y s = record {
    valid = λ v. record {
      some_speed = (s.valid v).some_speed;
      some_accel = (s.valid v).some_accel;
      no_negative = (s.valid v).no_negative;
    };
    frozen = λ m. record {
      speed = (s.frozen m).speed;
      accel = (s.frozen m).accel;
      decel = (s.frozen m).decel;
    };
  }

  of_not : (b : Bool) → not b ≡ true → b ≡ false
  of_not b h = ground arith

  set_parameter-Valid :
      (p : Parameter) (v : ℤ) (x : Context ctl)
      → allows p v ≡ true
      → Valid x
      → Valid (set_parameter ctl p v x)
  unfolding set_parameter
  set_parameter-Valid speed v x h k = record {
    some_speed = h;
    some_accel = k.some_accel;
    no_negative = k.no_negative;
  }
  set_parameter-Valid accel v x h k = record {
    some_speed = k.some_speed;
    some_accel = h;
    no_negative = k.no_negative;
  }
  set_parameter-Valid decel v x h k = record {
    some_speed = k.some_speed;
    some_accel = k.some_accel;
    no_negative = of_not (ltb_ℤ v (pos 0)) h;
  }

  set_parameter-Safe :
      (p : Parameter) (v : ℤ) (x : Context ctl)
      → allows p v ≡ true
      → any_moving (ctl.motors x.controller) ≡ false
      → Safe x (set_parameter ctl p v x)
  set_parameter-Safe p v x h idle = record {
    valid = set_parameter-Valid p v x h;
    frozen = λ m. absurd (false≢true (sym idle ∙ m));
  }

  assign_parameter-Safe :
      (p : Parameter) (val msg_id : Bytes) (x : Context ctl)
      → Safe x (assign_parameter ctl p val msg_id x).1
  unfolding assign_parameter
  assign_parameter-Safe p val msg_id x = elim (Option-cases (parse_int val)) [
    | inl bad ↦ rw (assign_parameter, bad) (refused-Safe _ msg_id _ _ x)
    | inr (v, e) ↦ elim (Bool-cases (allows p v)) [
      | inr low ↦ rw (assign_parameter, e, low) (refused-Safe _ msg_id _ _ x)
      | inl good ↦ elim (Bool-cases (any_moving (ctl.motors x.controller))) [
        | inl busy ↦ rw (assign_parameter, e, good, busy) (refused-Safe _ msg_id _ _ x)
        | inr idle ↦
            rw (assign_parameter, e, good, idle)
              (done-Safe _ msg_id x _ (set_parameter-Safe p v x good idle))
      ]
    ]
  ]

  thermal-Safe : (on : Bool) (x : Context ctl) → Safe x (set_thermal_limits ctl on x)
  unfolding set_thermal_limits
  thermal-Safe on x = same-Safe x _ (record { speed = refl; accel = refl; decel = refl })

  assign_thermal-Safe :
      (val msg_id : Bytes) (x : Context ctl) → Safe x (assign_thermal ctl val msg_id x).1
  unfolding assign_thermal
  assign_thermal-Safe val msg_id x = elim (Bool-cases (eq_bytes val (codes "ON"))) [
    | inl on ↦ rw on (done-Safe _ msg_id x _ (thermal-Safe true x))
    | inr other ↦ elim (Bool-cases (eq_bytes val (codes "OFF"))) [
      | inl off ↦ rw (other, off) (done-Safe _ msg_id x _ (thermal-Safe false x))
      | inr bad ↦ rw (other, bad) (refused-Safe _ msg_id _ _ x)
    ]
  ]

  set_value-Safe :
      (key val msg_id : Bytes) (x : Context ctl) → Safe x (set_value ctl key val msg_id x).1
  unfolding set_value
  set_value-Safe key val msg_id x = elim (Bool-cases (eq_bytes key (codes "THERMAL_LIMITING"))) [
    | inl thermal ↦ rw thermal (assign_thermal-Safe val msg_id x)
    | inr other ↦ elim (Option-cases (parameter_of key)) [
      | inl unknown ↦ rw (other, set_value, unknown) (refused-Safe _ msg_id _ _ x)
      | inr (p, e) ↦ rw (other, set_value, e) (assign_parameter-Safe p val msg_id x)
    ]
  ]

  issued-Safe : (x y : Context ctl) → Safe (issue ctl x) y → Safe x y
  issued-Safe x y s = record {
    valid = λ v. s.valid (record {
      some_speed = v.some_speed;
      some_accel = v.some_accel;
      no_negative = v.no_negative;
    });
    frozen = λ m. record {
      speed = (s.frozen m).speed;
      accel = (s.frozen m).accel;
      decel = (s.frozen m).decel;
    };
  }

  -- Whatever the text of a SET: where the default speed and acceleration are positive and the
  -- default deceleration is not negative, they are so after it, and while any motor moves, it
  -- changes none of the three.
  pub handle_set-Safe :
      (next_id : ℕ → Bytes) (args : Bytes) (x : Context ctl)
      → Safe x (handle_set ctl next_id args x).1
  unfolding handle_set
  handle_set-Safe next_id args x = elim (Option-cases (cut_at b'=' (to_upper_copy (trim args)))) [
    | inl bad ↦
        rw (handle_set, bad) (issued-Safe x _ (refused-Safe _ (next_id x.issued) _ _ (issue ctl x)))
    | inr ((key, val), e) ↦
        rw (handle_set, e)
          (issued-Safe x _ (set_value-Safe (trim key) (trim val) (next_id x.issued) (issue ctl x)))
  ]
