-- ===== src/Handlers/Wake.antt =====
-- The thermal budget in `handleWake`.
use kinetic_mirror_matrix_es.Prelude.{
  ℕ, ◌+◌, ◌≡◌, refl, sym, ◌∙◌, true, false, [], ◌∷◌, some, arith, length, get_elem?, Bool-cases,
  Option-cases, inl, inr,
}
use mathlib.Core.Bool.{false≢true}
use kinetic_mirror_matrix_es.Motor.{MotorState}
use kinetic_mirror_matrix_es.Motor.Mask.{selected}
use kinetic_mirror_matrix_es.Controller.{MotorController}
use kinetic_mirror_matrix_es.Text.{Bytes, codes, parse_id_mask, trim}
use kinetic_mirror_matrix_es.Transport.{make_error_line}
use kinetic_mirror_matrix_es.Handlers.{
  Context, first_where, handle_wake, no_seconds_left, make_result_with_line, make_done_result,
  append_done_result, emit_line,
}
use kinetic_mirror_matrix_es.Handlers.Admitted.{first_where-none}

module _ (ctl : MotorController) (next_id : ℕ → Bytes) where
  -- With the thermal limits on, a WAKE that selects a motor without a whole second of budget
  -- leaves the controller as it is, so it wakes no motor at all, and answers with the error E12.
  pub handle_wake-refused :
      (args : Bytes) (x : Context ctl) (i : ℕ) {mask : ℕ} {m : MotorState}
      → x.thermal_limits_enabled ≡ true
      → parse_id_mask (trim args) (length (ctl.motors x.controller)) ≡ some mask
      → get_elem? (ctl.motors x.controller) i ≡ some m
      → selected mask i ≡ true
      → no_seconds_left ctl m ≡ true
      → ((handle_wake ctl next_id args x).1.controller ≡ x.controller)
        × ((handle_wake ctl next_id args x).0.lines
            ≡ make_error_line (next_id x.issued) (codes "E12") (codes "THERMAL_NO_BUDGET_WAKE") []
              ∷ [])
  unfolding handle_wake make_result_with_line emit_line
  handle_wake-refused args x i {mask} on parsed at s short =
      let here : 0 + i ≡ i = omega arith in
      elim (Option-cases (first_where (no_seconds_left ctl) 0 mask (ctl.motors x.controller))) [
        | inl enough ↦
            let ok =
              first_where-none (no_seconds_left ctl) 0 mask (ctl.motors x.controller) i enough at
                (rw here s) in
            absurd (false≢true (sym ok ∙ short))
        | inr (found, e) ↦
            (rw (parsed, e, on, handle_wake) refl, rw (parsed, e, on, handle_wake) refl)
      ]

  -- No branch of `handleWake` sets `is_error`, its two refusals neither.
  pub handle_wake-unflagged :
      (args : Bytes) (x : Context ctl) → (handle_wake ctl next_id args x).0.is_error ≡ false
  unfolding handle_wake make_result_with_line make_done_result append_done_result
  handle_wake-unflagged args x =
      elim (Option-cases (parse_id_mask (trim args) (length (ctl.motors x.controller)))) [
        | inl bad ↦ rw (bad, handle_wake) refl
        | inr (mask, parsed) ↦
            elim (Option-cases
              (first_where (no_seconds_left ctl) 0 mask (ctl.motors x.controller))) [
                | inl enough ↦ rw (parsed, enough, handle_wake) refl
                | inr (found, e) ↦ elim (Bool-cases x.thermal_limits_enabled) [
                  | inl on ↦ rw (parsed, e, on, handle_wake) refl
                  | inr off ↦ rw (parsed, e, off, handle_wake) refl
                ]
              ]
      ]
