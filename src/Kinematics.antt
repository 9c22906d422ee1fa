-- ===== src/Kinematics.antt =====
-- lib/MotorControl/src/MotionKinematics.cpp: the estimates of the time of a MOVE and of a HOME.
-- An `int64_t` argument is an integer, and becomes a natural number where the code clamps it or
-- takes its absolute value; so `ceil_div` never meets a negative numerator, nor a test `t_ms < 0`
-- a negative time. The 64-bit products are plain: where one is 2 ^ 63 or more, as the product of a
-- distance and two accelerations can be, the source leaves the result undefined, and the model
-- gives the value that was meant. Each result and each sum of `uint32_t` is taken modulo 2 ^ 32.
pub mod Sqrt
pub mod Profile
use kinetic_mirror_matrix_es.Prelude.{
  ℕ, zero, suc, ◌+◌, ◌-◌, ◌*◌, ◌/◌, ◌%◌, ◌^◌, Bool, true, false, ltb, leb, ◌==◌, if◌then◌else◌, u32,
}
use kinetic_mirror_matrix_es.Prelude.Int.{ℤ, pos, pos_part, neg_part}

abbrev pub iabs64 : ℤ → ℕ
iabs64 v = pos_part v + neg_part v

-- `if (x <= 0) x = 1;`
abbrev pub at_least_one : ℤ → ℕ
at_least_one v = if pos_part v == 0 then 1 else pos_part v

unfoldable pub ceil_div : ℕ → ℕ → ℕ
ceil_div num den = if den == 0 then 0 else (num + den - 1) / den

-- The exponential search of `isqrt_ceil`: the final x0 and x1.
unfoldable pub grow : ℕ → ℕ → ℕ → ℕ → ℕ × ℕ
grow zero x0 x1 n = (x0, x1)
grow (suc fuel) x0 x1 n = elim (ltb x1 (n / x1)) [
  | true ↦ grow fuel x1 (x1 * 2) n
  | false ↦ (x0, x1)
]

-- Its binary search.
unfoldable pub bisect : ℕ → ℕ → ℕ → ℕ → ℕ
bisect zero lo hi n = lo
bisect (suc fuel) lo hi n =
    let mid = lo + (hi - lo) / 2 in
    elim (ltb lo hi) [
      | true ↦ elim (mid == 0) [
        | true ↦ bisect fuel 1 hi n
        | false ↦ elim (leb n (mid * mid)) [
          | true ↦ bisect fuel lo mid n
          | false ↦ bisect fuel (mid + 1) hi n
        ]
      ]
      | false ↦ lo
    ]

unfoldable pub isqrt_ceil : ℕ → ℕ
unfolding grow bisect
isqrt_ceil n = if n == 0 then 0 else (let (lo, hi) = grow n 0 1 n in bisect (hi + 1) lo hi n)

unfoldable pub estimate_move_time_ms : ℤ → ℤ → ℤ → ℕ
estimate_move_time_ms distance_steps speed_sps accel_sps2 =
    let d = iabs64 distance_steps in
    let v = at_least_one speed_sps in
    let a = at_least_one accel_sps2 in
    if d == 0
    then 0
    else if leb (ceil_div (v * v) a) d
    then u32 (ceil_div (d * 1000) v + ceil_div (v * 1000) a)
    else u32 (2 * isqrt_ceil (ceil_div (d * 1000000) a))

-- The deceleration 0 stands for a stop with no ramp.
unfoldable pub estimate_move_time_ms_asym : ℤ → ℤ → ℤ → ℤ → ℕ
estimate_move_time_ms_asym distance_steps speed_sps accel_up_sps2 decel_down_sps2 =
    let d = iabs64 distance_steps in
    let v = at_least_one speed_sps in
    let a_up = at_least_one accel_up_sps2 in
    let a_dn = pos_part decel_down_sps2 in
    let s_up = ceil_div (v * v) (2 * a_up) in
    let s_dn = if ltb 0 a_dn then ceil_div (v * v) (2 * a_dn) else 0 in
    if d == 0
    then 0
    else if leb (s_up + s_dn) d
    then u32 (
        ceil_div (d * 1000) v
        + ceil_div (v * 1000) (2 * a_up)
        + (if ltb 0 a_dn then ceil_div (v * 1000) (2 * a_dn) else 0))
    else u32 (
        isqrt_ceil (
          if a_dn == 0
          then ceil_div (2 * d * 1000000) a_up
          else ceil_div (2 * d * (a_up + a_dn) * 1000000) (a_up * a_dn)))

-- Two legs, each an independent move.
unfoldable pub estimate_home_time_ms : ℤ → ℤ → ℤ → ℤ → ℕ
unfolding estimate_move_time_ms
estimate_home_time_ms overshoot backoff speed accel =
    let t1 = estimate_move_time_ms (pos (iabs64 overshoot)) speed accel in
    let t2 = estimate_move_time_ms (pos (iabs64 backoff)) speed accel in u32 (t1 + t2)

-- Three legs: the run to the end stop, the backoff, and the way to the middle of the range.
unfoldable pub estimate_home_time_ms_full_range : ℤ → ℤ → ℤ → ℤ → ℤ → ℕ
unfolding estimate_move_time_ms
estimate_home_time_ms_full_range overshoot backoff full_range speed accel =
    let o = iabs64 overshoot in
    let fr = iabs64 full_range in
    let t1 = estimate_move_time_ms (pos (fr + o)) speed accel in
    let t2 = estimate_move_time_ms (pos (iabs64 backoff)) speed accel in
    let t3 = estimate_move_time_ms (pos (fr / 2)) speed accel in u32 (t1 + t2 + t3)

unfoldable pub estimate_home_time_ms_full_range_asym : ℤ → ℤ → ℤ → ℤ → ℤ → ℤ → ℕ
unfolding estimate_move_time_ms_asym
estimate_home_time_ms_full_range_asym overshoot backoff full_range speed accel_up decel_down =
    let o = iabs64 overshoot in
    let fr = iabs64 full_range in
    let t1 = estimate_move_time_ms_asym (pos (fr + o)) speed accel_up decel_down in
    let t2 = estimate_move_time_ms_asym (pos (iabs64 backoff)) speed accel_up decel_down in
    let t3 = estimate_move_time_ms_asym (pos (fr / 2)) speed accel_up decel_down in
    u32 (t1 + t2 + t3)

-- The empirical overheads of shared STEP; their acceleration is the natural number that it is
-- where it is positive.
abbrev overhead_move_ms : ℤ → ℤ → ℕ
overhead_move_ms accel_up speed =
    let a = pos_part accel_up in
    if a == 0 then 10 else u32 (10 + a / 800 * 500 / at_least_one speed)

abbrev overhead_home_ms : ℤ → ℤ → ℕ
overhead_home_ms accel_up speed =
    let a = pos_part accel_up in
    if a == 0 then 40 else u32 (40 + a / 200 * 500 / at_least_one speed)

unfoldable pub estimate_move_time_ms_shared_step : ℤ → ℤ → ℤ → ℤ → ℕ
unfolding estimate_move_time_ms_asym
estimate_move_time_ms_shared_step distance speed accel_up decel_down =
    let t = estimate_move_time_ms_asym distance speed accel_up decel_down in
    u32 (t + overhead_move_ms accel_up speed)

unfoldable pub estimate_home_time_ms_full_range_shared_step : ℤ → ℤ → ℤ → ℤ → ℤ → ℤ → ℕ
unfolding estimate_home_time_ms_full_range_asym
estimate_home_time_ms_full_range_shared_step overshoot backoff full_range speed accel_up
      decel_down =
    let t =
      estimate_home_time_ms_full_range_asym overshoot backoff full_range speed accel_up
        decel_down in
    u32 (t + overhead_home_ms accel_up speed)
