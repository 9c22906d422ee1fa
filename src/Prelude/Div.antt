-- ===== src/Prelude/Div.antt =====
-- Division rounded up, and remainders, on the native numbers.
use Prim.Native.Nat.{ℕ, ◌+◌, ◌-◌, ◌*◌, ◌/◌, ◌≤◌, ◌<◌}
use mathlib.Core.Logic.{◌↔◌}
use native.Mathlib.Omega.{arith}
use native.Mathlib.Decide.{dec_le}
use native.Mathlib.Nat.{div-add-mod, mod-lt}

pub mul_mono_right : (d q s : ℕ) → q ≤ s → d * q ≤ d * s
mul_mono_right d q s h = grind arith

pub ceil_div-le : (n d s : ℕ) → 0 < d → ((n + d - 1) / d ≤ s) ↔ (n ≤ d * s)
ceil_div-le n d s h = (up, down)
  where
    up : (n + d - 1) / d ≤ s → n ≤ d * s
    up k = omega (
      arith,
      div-add-mod (n + d - 1) d,
      mod-lt (n + d - 1) h,
      mul_mono_right d ((n + d - 1) / d) s k,
    )

    down : n ≤ d * s → (n + d - 1) / d ≤ s
    down k = elim (dec_le ((n + d - 1) / d) s) [
      | yes p ↦ p
      | no p ↦ absurd (
          omega (
            arith,
            div-add-mod (n + d - 1) d,
            mod-lt (n + d - 1) h,
            mul_mono_right d (s + 1) ((n + d - 1) / d) (omega arith),
          ))
    ]
