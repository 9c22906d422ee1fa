-- ===== src/Kinematics/Profile.antt =====
-- The estimates against the motion profiles that they stand for.
use kinetic_mirror_matrix_es.Prelude.{
  ℕ, zero, suc, ◌+◌, ◌-◌, ◌*◌, ◌/◌, ◌%◌, ◌^◌, ◌≤◌, ◌<◌, ◌≡◌, ◌↔◌, arith, ceil_div-le,
  mul_mono_right, dec_lt,
}
use native.Mathlib.Nat.{div-add-mod, mod-lt}
use kinetic_mirror_matrix_es.Prelude.Int.{pos}
use kinetic_mirror_matrix_es.Kinematics.Sqrt.{square_mono, isqrt_ceil_bounds}
use kinetic_mirror_matrix_es.Kinematics.{ceil_div, isqrt_ceil, estimate_move_time_ms}

-- What rounding up a quotient does: at least the quotient, and less than one above it.
record Ceil (n d q : ℕ) : Type 0 where
  up : n ≤ d * q
  near : d * q < n + d

ceil_div-Ceil : (n d : ℕ) → 0 < d → Ceil n d (ceil_div n d)
unfolding ceil_div
ceil_div-Ceil n d h = ground (arith, div-add-mod (n + d - 1) d, mod-lt (n + d - 1) h)

ceil_div-le_self : (n d : ℕ) → 0 < d → ceil_div n d ≤ n
unfolding ceil_div
ceil_div-le_self n d h = ground (arith, ceil_div-le n d n, mul_mono_right n 1 d)

ceil_div-le_iff : (n d s : ℕ) → 0 < d → (ceil_div n d ≤ s) ↔ (n ≤ d * s)
unfolding ceil_div
ceil_div-le_iff n d s h = ground (arith, ceil_div-le n d s)

module _ (d v a : ℕ) (hd : 0 < d) (ha : 0 < a) where
  estimate_long :
      0 < v
      → v * v ≤ a * d
      → estimate_move_time_ms (pos d) (pos v) (pos a)
        ≡ (ceil_div (d * 1000) v + ceil_div (v * 1000) a) % 2 ^ 32
  unfolding estimate_move_time_ms
  estimate_long hv reach = ground (arith, ceil_div-le_iff (v * v) a d)

  estimate_short :
      a * d < v * v
      → estimate_move_time_ms (pos d) (pos v) (pos a)
        ≡ 2 * isqrt_ceil (ceil_div (d * 1000000) a) % 2 ^ 32
  unfolding estimate_move_time_ms
  estimate_short short = ground (arith, ceil_div-le_iff (v * v) a d)

two_ceils :
    (d v a p q : ℕ)
    → 0 < a
    → Ceil (d * 1000) v p
    → Ceil (v * 1000) a q
    → (1000 * (d * a + v * v) ≤ v * a * (p + q))
      × (v * a * (p + q) < 1000 * (d * a + v * v) + 2 * (v * a))
two_ceils d v a p q h c e = omega (
  arith,
  mul_mono_right a (d * 1000) (v * p) c.up,
  mul_mono_right a (suc (v * p)) (d * 1000 + v) c.near,
  mul_mono_right v (v * 1000) (a * q) e.up,
  mul_mono_right v (a * q) (v * 1000 + a) (omega arith),
)

root_scaled :
    (d a n s : ℕ)
    → 0 < a
    → Ceil (d * 1000000) a n
    → (s - 1) * (s - 1) < n
    → n < s * s + s
    → (a * ((s - 1) * (s - 1)) < 1000000 * d) × (1000000 * d < a * (s * s + s))
root_scaled d a n s h c lo hi = omega (
  arith,
  mul_mono_right a (suc ((s - 1) * (s - 1))) n lo,
  mul_mono_right a (suc n) (s * s + s) hi,
  c.up,
  c.near,
)

Ceil-pos : (n d q : ℕ) → 0 < n → Ceil n d q → 0 < q
Ceil-pos n d zero h c = absurd (omega (arith, c.up))
Ceil-pos n d (suc q) h c = omega arith

root-lt : (s n : ℕ) → s * s < n → n < 2 ^ 40 → s < 2 ^ 20
root-lt s n h k = elim (dec_lt s (2 ^ 20)) [
  | yes p ↦ p
  | no p ↦ absurd (omega (arith, square_mono (2 ^ 20) s (omega arith)))
]

-- A move that is long enough to reach its speed v, v ^ 2 ≤ d a, takes d / v + v / a seconds. The
-- estimate t in milliseconds is at least that, and less than 2 ms more; both are multiplied by
-- v a here. The bounds on d and v keep the result below 2 ^ 32.
pub estimate_trapezoid :
    (d v a : ℕ)
    → 0 < d
    → 0 < v
    → 0 < a
    → d < 2 ^ 20
    → v < 2 ^ 20
    → v * v ≤ a * d
    → (1000 * (d * a + v * v) ≤ v * a * estimate_move_time_ms (pos d) (pos v) (pos a))
      × (v * a * estimate_move_time_ms (pos d) (pos v) (pos a)
          < 1000 * (d * a + v * v) + 2 * (v * a))
estimate_trapezoid d v a hd hv ha bd bv reach =
    let p = ceil_div (d * 1000) v in
    let q = ceil_div (v * 1000) a in
    let t : estimate_move_time_ms (pos d) (pos v) (pos a) ≡ p + q = omega (
      arith,
      estimate_long d v a hd ha hv reach,
      ceil_div-le_self (d * 1000) v hv,
      ceil_div-le_self (v * 1000) a ha,
    ) in
    rw t (two_ceils d v a p q ha (ceil_div-Ceil (d * 1000) v hv) (ceil_div-Ceil (v * 1000) a ha))

-- A shorter move, a d < v ^ 2, takes 2 sqrt (d / a) seconds. The estimate is an even number 2 s of
-- milliseconds, with a (s - 1) ^ 2 < 10 ^ 6 d < a (s ^ 2 + s).
pub estimate_triangle :
    (d v a : ℕ)
    → 0 < d
    → 0 < a
    → d < 2 ^ 20
    → a * d < v * v
    → let s = estimate_move_time_ms (pos d) (pos v) (pos a) / 2 in
      (estimate_move_time_ms (pos d) (pos v) (pos a) ≡ 2 * s)
      × (a * ((s - 1) * (s - 1)) < 1000000 * d)
      × (1000000 * d < a * (s * s + s))
estimate_triangle d v a hd ha bd short =
    let n = ceil_div (d * 1000000) a in
    let s = isqrt_ceil n in
    let c = ceil_div-Ceil (d * 1000000) a ha in
    let b = isqrt_ceil_bounds n (Ceil-pos (d * 1000000) a n (omega arith) c) in
    let small : s - 1 < 2 ^ 20 =
      root-lt (s - 1) n b.0 (omega (arith, ceil_div-le_self (d * 1000000) a ha)) in
    let t : estimate_move_time_ms (pos d) (pos v) (pos a) ≡ 2 * s =
      omega (arith, estimate_short d v a hd ha short) in
    let half : estimate_move_time_ms (pos d) (pos v) (pos a) / 2 ≡ s = omega arith in
    let scaled = root_scaled d a n s ha c b.0 b.1 in rw half (t, scaled.0, scaled.1)
