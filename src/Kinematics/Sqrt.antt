-- ===== src/Kinematics/Sqrt.antt =====
-- The integer square root of the estimates: what the two searches find.
use kinetic_mirror_matrix_es.Prelude.{
  ℕ, zero, suc, ◌+◌, ◌-◌, ◌*◌, ◌/◌, ◌^◌, ◌≤◌, ◌<◌, ◌≡◌, ◌⊎◌, arith, mul_mono_right, ap,
}
use native.Mathlib.Nat.{pow-suc, div-lt_iff_lt-mul, le-div_iff_mul-le}
use kinetic_mirror_matrix_es.Kinematics.{grow, bisect, isqrt_ceil}

-- The loop test in products.
lt-div : (x n : ℕ) → 0 < x → x < n / x → x * x + x ≤ n
lt-div x n h k = omega (arith, (le-div_iff_mul-le {k = x} {x = suc x} {y = n} h).0 k)

not-lt-div : (x n : ℕ) → 0 < x → n / x ≤ x → n < x * x + x
not-lt-div x n h k =
    omega (arith, (div-lt_iff_lt-mul {k = x} {x = n} {y = suc x} h).0 (omega arith))

record Grown (n : ℕ) (x0 x1 : ℕ) : Type 0 where
  below : x0 * x0 < n
  ordered : x0 < x1
  enough : n < x1 * x1 + x1

grow-Grown :
    (fuel x0 x1 n : ℕ)
    → n < fuel + x1
    → x0 * x0 < n
    → x0 < x1
    → Grown n (grow fuel x0 x1 n).0 (grow fuel x0 x1 n).1
unfolding grow
grow-Grown zero x0 x1 n m b o = record { below = b; ordered = o; enough = omega arith }
grow-Grown (suc fuel) x0 x1 n m b o =
    ground (arith, lt-div x1 n, not-lt-div x1 n, grow-Grown fuel x1 (x1 * 2) n)

record Bisected (lo hi n r : ℕ) : Type 0 where
  tight : (r - 1) * (r - 1) < n
  within : r ≤ hi
  found : (n ≤ r * r) ⊎ (r ≡ hi)

bisect-Bisected :
    (fuel lo hi n : ℕ)
    → hi < fuel + lo
    → 0 < n
    → lo ≤ hi
    → (lo - 1) * (lo - 1) < n
    → Bisected lo hi n (bisect fuel lo hi n)
unfolding bisect
bisect-Bisected zero lo hi n m p o b = absurd (omega arith)
bisect-Bisected (suc fuel) lo hi n m p o b =
    let mid = lo + (hi - lo) / 2 in
    ground (
      arith,
      bisect-Bisected fuel 1 hi n,
      bisect-Bisected fuel lo mid n,
      bisect-Bisected fuel (mid + 1) hi n,
    )

pub square_mono : (x y : ℕ) → x ≤ y → x * x ≤ y * y
square_mono x y h = grind arith

square-pred : (a n : ℕ) → a * a < n → (a - 1) * (a - 1) < n
square-pred a n h = omega (arith, square_mono (a - 1) a (omega arith))

square-zero : (r n : ℕ) → 0 < n → n ≤ r * r → 0 < r
square-zero zero n h k = absurd (omega arith)
square-zero (suc r) n h k = omega arith

-- Both searches together, from the result of the first.
search_from : (lo hi n : ℕ) → 0 < n → Grown n lo hi → Bisected lo hi n (bisect (hi + 1) lo hi n)
search_from lo hi n h g =
    bisect-Bisected (hi + 1) lo hi n (omega arith) h (omega arith) (square-pred lo n g.below)

bounds_from :
    (lo hi n r : ℕ)
    → 0 < n
    → Grown n lo hi
    → Bisected lo hi n r
    → ((r - 1) * (r - 1) < n) × (n < r * r + r)
bounds_from lo hi n r h g b = ground (arith, square-zero r n h)

-- For a positive n the result r is the rounded-up square root or one less: (r - 1) ^ 2 < n, and
-- n < r ^ 2 + r. It is never too large, and too small by one at most.
pub isqrt_ceil_bounds :
    (n : ℕ)
    → 0 < n
    → ((isqrt_ceil n - 1) * (isqrt_ceil n - 1) < n)
      × (n < isqrt_ceil n * isqrt_ceil n + isqrt_ceil n)
unfolding isqrt_ceil
isqrt_ceil_bounds n h =
    let (lo, hi) = grow n 0 1 n in
    let g = grow-Grown n 0 1 n (omega arith) h (omega arith) in
    ground (arith, bounds_from lo hi n _ h g (search_from lo hi n h g))

le-square : (x : ℕ) → 0 < x → x ≤ x * x
le-square x h = omega (arith, mul_mono_right x 1 x h)

two_pow_pos : (k : ℕ) → 0 < 2 ^ k
two_pow_pos zero = omega arith
two_pow_pos (suc k) = omega (arith, pow-suc 2 k, two_pow_pos k)

-- One doubling, and room for it.
power_half : (j x1 x : ℕ) → x1 * 2 ^ suc j ≡ x → (x1 * 2 * 2 ^ j ≡ x) × (x1 * 2 ≤ x)
power_half j x1 x e =
    let same : x1 * 2 * 2 ^ j ≡ x = omega (arith, e, ap (λ (t : ℕ). x1 * t) (pow-suc 2 j)) in
    (same, omega (arith, same, mul_mono_right (x1 * 2) 1 (2 ^ j) (two_pow_pos j)))

grow-power :
    (j fuel x0 x1 x n : ℕ)
    → x1 * 2 ^ j ≡ x
    → 0 < x1
    → n < fuel + x1
    → x * x < n
    → n < x * x + x
    → (grow fuel x0 x1 n).1 ≡ x
unfolding grow
grow-power zero zero x0 x1 x n e p m lo hi =
    absurd (omega (arith, le-square x1 p, square_mono x1 x (omega arith)))
grow-power zero (suc fuel) x0 x1 x n e p m lo hi =
    let same : x1 ≡ x = omega arith in
    let stop : n / x1 < suc x1 =
      (div-lt_iff_lt-mul {k = x1} {x = n} {y = suc x1} p).1 (rw same (omega arith)) in
    ground arith
grow-power (suc j) zero x0 x1 x n e p m lo hi = absurd (
    omega (
      arith,
      power_half j x1 x e,
      square_mono x1 x (omega (arith, power_half j x1 x e)),
      le-square x1 p,
    ))
grow-power (suc j) (suc fuel) x0 x1 x n e p m lo hi =
    let half = power_half j x1 x e in
    let go : x1 < n / x1 =
      (le-div_iff_mul-le {k = x1} {x = suc x1} {y = n} p).1
        (omega (arith, square_mono (x1 * 2) x half.1, le-square x1 p)) in
    ground (arith, grow-power j fuel x1 (x1 * 2) x n half.0 (omega arith) (omega arith) lo hi)

low_from : (a hi x n r : ℕ) → 0 < n → hi ≡ x → x * x < n → Bisected a hi n r → (r ≡ x) × (r * r < n)
low_from a hi x n r h e lo b = ground (arith, square_mono r x)

-- The result is one too small in this range: above the square of a power of two by less than
-- that power. There the doubling search stops at the power itself, whose square is below n.
pub isqrt_ceil_low :
    (k n : ℕ)
    → 2 ^ k * 2 ^ k < n
    → n < 2 ^ k * 2 ^ k + 2 ^ k
    → (isqrt_ceil n ≡ 2 ^ k) × (isqrt_ceil n * isqrt_ceil n < n)
unfolding isqrt_ceil
isqrt_ceil_low k n lo hi =
    let r = grow n 0 1 n in
    let g = grow-Grown n 0 1 n (omega arith) (omega arith) (omega arith) in
    let e = grow-power k n 0 1 (2 ^ k) n (omega arith) (omega arith) (omega arith) lo hi in
    ground (
      arith,
      low_from r.0 r.1 (2 ^ k) n _ (omega arith) e lo (search_from r.0 r.1 n (omega arith) g),
    )
