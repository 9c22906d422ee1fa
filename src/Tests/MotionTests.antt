-- ===== src/Tests/MotionTests.antt =====
-- The timing helpers and the estimates at concrete inputs, as in test/test_MotorControl.
use kinetic_mirror_matrix_es.Prelude.{ℕ, ◌+◌, ◌*◌, ◌-◌, ◌%◌, ◌≤◌, ◌<◌, ◌≡◌, some, refl, arith}
use kinetic_mirror_matrix_es.Prelude.Int.{pos}
use kinetic_mirror_matrix_es.Kinematics.Sqrt.{isqrt_ceil_bounds}
use kinetic_mirror_matrix_es.Kinematics.{ceil_div, isqrt_ceil, estimate_move_time_ms}
use kinetic_mirror_matrix_es.Motor.Budget.{update_budget-twice}
use kinetic_mirror_matrix_es.Motor.{fresh_motor, update_budget}
use kinetic_mirror_matrix_es.Timing.Edges.{flip_window_between_edges}
use kinetic_mirror_matrix_es.Timing.{DirFlipWindow, compute_flip_window, align_to_next_edge_us}

abbrev window : DirFlipWindow
window = record { t_sleep_low = 372; t_dir_flip = 375; t_sleep_high = 378 }

flip_at_200 : compute_flip_window 200 250 ≡ some window
unfolding compute_flip_window align_to_next_edge_us
flip_at_200 = refl

square_root_of_five : isqrt_ceil 5 ≡ 2
unfolding isqrt_ceil
square_root_of_five = refl

move_of_1200 : estimate_move_time_ms (pos 1200) (pos 4000) (pos 16000) ≡ 550
unfolding estimate_move_time_ms ceil_div
move_of_1200 = refl

flip_window_example :
    (edge : ℕ) × (edge % 250 ≡ 0)
    × (200 ≤ edge)
    × (edge < 200 + 250)
    × (edge < window.t_sleep_low)
    × (window.t_sleep_low + 3 ≡ window.t_dir_flip)
    × (window.t_dir_flip + 3 ≡ window.t_sleep_high)
    × (window.t_sleep_high < edge + 250)
flip_window_example = flip_window_between_edges 200 250 window flip_at_200

isqrt_ceil_bounds_example :
    ((isqrt_ceil 75000 - 1) * (isqrt_ceil 75000 - 1) < 75000)
    × (75000 < isqrt_ceil 75000 * isqrt_ceil 75000 + isqrt_ceil 75000)
isqrt_ceil_bounds_example = isqrt_ceil_bounds 75000 (omega arith)

update_budget-twice_example :
    update_budget 9000 (update_budget 2500 (fresh_motor 3)) ≡ update_budget 9000 (fresh_motor 3)
update_budget-twice_example =
    update_budget-twice 2500 9000 (fresh_motor 3) (omega arith) (omega arith) (omega arith)
