-- ===== src/Timing.antt =====
-- include/MotorControl/SharedStepTiming.h and include/MotorControl/SharedStepGuards.h: the timing
-- of the shared STEP generator and of a DIR change between two STEP edges. Numbers are the
-- native ℕ; a cast to `uint32_t` is `% 2 ^ 32`. Timestamps are 64-bit microseconds, which do not
-- wrap within half a million years, so their sums are plain.
pub mod Edges
use kinetic_mirror_matrix_es.Prelude.{
  ℕ, ◌+◌, ◌-◌, ◌*◌, ◌/◌, ◌%◌, ◌^◌, Bool, ◌&&◌, Option, none, some, ltb, ◌==◌, if◌then◌else◌, u32,
}

pub record GuardWindow : Type 0 where
  pub pre_us : ℕ
  pub post_us : ℕ

pub record DirFlipWindow : Type 0 where
  pub t_sleep_low : ℕ
  pub t_dir_flip : ℕ
  pub t_sleep_high : ℕ

-- 0 tells the generator to stop.
unfoldable pub step_period_us : ℕ → ℕ
step_period_us speed_sps =
    if speed_sps == 0
    then 0
    else let rounded_period_us = (1000000 + speed_sps / 2) / speed_sps in
      u32 (if ltb 0 rounded_period_us then rounded_period_us else 1)

unfoldable pub align_to_next_edge_us : ℕ → ℕ → ℕ
align_to_next_edge_us timestamp_us period_us =
    if period_us == 0
    then timestamp_us
    else let remainder = timestamp_us % period_us in
      if remainder == 0 then timestamp_us else timestamp_us + (period_us - remainder)

unfoldable pub guard_fits_between_edges : ℕ → GuardWindow → Bool
guard_fits_between_edges period_us guard =
    ltb 0 period_us && ltb (guard.pre_us + guard.post_us + 2) period_us

unfoldable pub stop_distance_steps : ℕ → ℕ → ℕ
stop_distance_steps speed_sps accel_sps2 =
    if accel_sps2 == 0
    then 0
    else u32 ((speed_sps * speed_sps + 2 * accel_sps2 - 1) / (2 * accel_sps2))

-- The build flags DIR_GUARD_US_PRE and DIR_GUARD_US_POST are not set.
abbrev pub dir_guard_pre_us : ℕ
dir_guard_pre_us = 3

abbrev pub dir_guard_post_us : ℕ
dir_guard_post_us = 3

-- The last assignments of `compute_flip_window`, at the middle of the gap.
pub flip_window_at : ℕ → DirFlipWindow
flip_window_at t_mid = record {
  t_sleep_low = t_mid - dir_guard_pre_us;
  t_dir_flip = t_mid;
  t_sleep_high = t_mid + dir_guard_post_us;
}

-- `none` is the result `false`, which leaves the window alone.
unfoldable pub compute_flip_window : ℕ → ℕ → Option DirFlipWindow
unfolding guard_fits_between_edges flip_window_at
compute_flip_window now_us period_us =
    if guard_fits_between_edges period_us
      (record { pre_us = dir_guard_pre_us; post_us = dir_guard_post_us })
    then some (flip_window_at (align_to_next_edge_us now_us period_us + period_us / 2))
    else none
