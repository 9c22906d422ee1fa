-- ===== src/Motor/Budget.antt =====
-- The runtime budget of a motor: its bounds, and that it does not depend on how often `tick` runs.
use kinetic_mirror_matrix_es.Prelude.{ℕ, ◌+◌, ◌-◌, ◌*◌, ◌/◌, ◌^◌, ◌≤◌, ◌<◌, ◌≡◌, arith}
use kinetic_mirror_matrix_es.Prelude.Int.{ℤ, pos, ◌+ℤ◌, ◌-ℤ◌, ◌≤ℤ◌, +ℤ_parts, -ℤ_parts}
use kinetic_mirror_matrix_es.Motor.{
  MotorState, budget_floor, budget_tenths_max, spend, refill, update_budget,
}

-- The budget lies between the floor, 360 s below zero, and its maximum, 90 s.
pub record InRange (budget : ℤ) : Type 0 where
  pub low : budget_floor ≤ℤ budget
  pub high : budget ≤ℤ pos budget_tenths_max

spend-InRange : (b : ℤ) (s : ℕ) → InRange b → InRange (spend b s)
unfolding spend
spend-InRange b s h = ground (arith, -ℤ_parts b (pos (10 * s)))

refill-InRange : (b : ℤ) (s : ℕ) → InRange b → InRange (refill b s)
unfolding refill
refill-InRange b s h = ground (arith, +ℤ_parts b (pos (15 * s)))

pub update_budget-InRange :
    (now : ℕ) (m : MotorState)
    → InRange m.budget_tenths
    → InRange (update_budget now m).budget_tenths
unfolding update_budget
update_budget-InRange now m h =
    let s = (now - m.last_update_ms) / 1000 in
    ground (arith, spend-InRange m.budget_tenths s h, refill-InRange m.budget_tenths s h)

spend-add : (b : ℤ) (s t : ℕ) → spend (spend b s) t ≡ spend b (s + t)
unfolding spend ◌-ℤ◌
spend-add b s t = ground arith

refill-add : (b : ℤ) (s t : ℕ) → refill (refill b s) t ≡ refill b (s + t)
unfolding refill ◌+ℤ◌
refill-add b s t = ground arith

-- Two updates are one: with the same power state between them, the budget and the update time
-- after an update at t and one at u are those of the one at u. So the budget does not drift with
-- the rate of `tick`. Times do not wrap here.
pub update_budget-twice :
    (t u : ℕ) (m : MotorState)
    → m.last_update_ms ≤ t
    → t ≤ u
    → u < 2 ^ 32
    → update_budget u (update_budget t m) ≡ update_budget u m
unfolding update_budget
update_budget-twice t u m h k w =
    let s = (t - m.last_update_ms) / 1000 in
    let r = (u - (m.last_update_ms + s * 1000)) / 1000 in
    let total : s + r ≡ (u - m.last_update_ms) / 1000 = omega arith in
    ground (arith, total, spend-add m.budget_tenths s r, refill-add m.budget_tenths s r)
