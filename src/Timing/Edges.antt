-- ===== src/Timing/Edges.antt =====
-- What the timing helpers promise: edges, guard windows, periods and stopping distances.
use kinetic_mirror_matrix_es.Prelude.{
  ℕ, ◌+◌, ◌*◌, ◌/◌, ◌%◌, ◌^◌, ◌≤◌, ◌<◌, ◌≡◌, ◌↔◌, none, some, arith, ◌-◌, ◌∙◌, ceil_div-le,
  mul_mono_right,
}
use native.Mathlib.Nat.{div-add-mod, mod-lt, mod_self, mul-add-mod_self_left}
use kinetic_mirror_matrix_es.Timing.{
  DirFlipWindow, step_period_us, align_to_next_edge_us, stop_distance_steps, compute_flip_window,
}

round_up-mod : (t p : ℕ) → 0 < p → (t + (p - t % p)) % p ≡ 0
round_up-mod t p h =
    let e : t + (p - t % p) ≡ p * (t / p) + p = omega (arith, div-add-mod t p, mod-lt t h) in
    rw e (mul-add-mod_self_left p (t / p) p ∙ mod_self p)

-- For a positive period the aligned time is the first edge that is not before the timestamp: a
-- multiple of the period, at or after it, and less than one period away.
pub align_lem :
    (t p : ℕ)
    → 0 < p
    → (align_to_next_edge_us t p % p ≡ 0)
      × (t ≤ align_to_next_edge_us t p)
      × (align_to_next_edge_us t p < t + p)
unfolding align_to_next_edge_us
align_lem t p h = ground (arith, round_up-mod t p, mod-lt t h)

flip_window_around :
    (now p : ℕ) (w : DirFlipWindow)
    → compute_flip_window now p ≡ some w
    → (0 < p)
      × (align_to_next_edge_us now p < w.t_sleep_low)
      × (w.t_sleep_low + 3 ≡ w.t_dir_flip)
      × (w.t_dir_flip + 3 ≡ w.t_sleep_high)
      × (w.t_sleep_high < align_to_next_edge_us now p + p)
unfolding compute_flip_window
flip_window_around now p w e = ground arith

-- A flip window, when there is one, lies strictly between two neighbouring STEP edges, which are
-- multiples of the period, with the guard times before and after the flip. The first of the two
-- edges is the first one that is not before now.
pub flip_window_between_edges :
    (now p : ℕ) (w : DirFlipWindow)
    → compute_flip_window now p ≡ some w
    → (edge : ℕ) × (edge % p ≡ 0)
      × (now ≤ edge)
      × (edge < now + p)
      × (edge < w.t_sleep_low)
      × (w.t_sleep_low + 3 ≡ w.t_dir_flip)
      × (w.t_dir_flip + 3 ≡ w.t_sleep_high)
      × (w.t_sleep_high < edge + p)
flip_window_between_edges now p w e =
    let (positive, low, flip, high, last) = flip_window_around now p w e in
    let (multiple, after, first) = align_lem now p positive in
    (align_to_next_edge_us now p, multiple, after, first, low, flip, high, last)

-- There is no window exactly when the period is at most 8 us.
pub flip_window_none_iff : (now p : ℕ) → (compute_flip_window now p ≡ none) ↔ (p ≤ 8)
unfolding compute_flip_window
flip_window_none_iff now p = ground arith

-- Up to two million steps per second the period is the nearest number of microseconds: the time
-- of `speed` steps differs from one second by at most half of `speed`.
pub step_period_nearest :
    (speed : ℕ)
    → 0 < speed
    → speed ≤ 2000000
    → (2 * (step_period_us speed * speed) ≤ 2000000 + speed)
      × (2000000 ≤ 2 * (step_period_us speed * speed) + speed)
unfolding step_period_us
step_period_nearest speed h k = grind arith

-- The stopping distance is the least number of steps s with v ^ 2 ≤ 2 a s, where it fits 32 bits.
pub stop_distance_least :
    (v a s : ℕ) → 0 < a → v * v < 2 ^ 32 → (stop_distance_steps v a ≤ s) ↔ (v * v ≤ 2 * a * s)
unfolding stop_distance_steps
stop_distance_least v a s h k = ground (
  arith,
  ceil_div-le (v * v) (2 * a) s,
  ceil_div-le (v * v) (2 * a) (v * v),
  mul_mono_right (v * v) 1 (2 * a),
)
