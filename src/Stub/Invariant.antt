-- ===== src/Stub/Invariant.antt =====
-- The well-formedness of the stub controller, which every operation keeps.
use kinetic_mirror_matrix_es.Prelude.{
  ℕ, zero, suc, ◌≡◌, refl, Bool, true, false, List, [], ◌∷◌, arith, Bool-cases, inl, inr,
}
use kinetic_mirror_matrix_es.Prelude.Int.{ℤ}
use kinetic_mirror_matrix_es.Motor.{record_op, update_budget}
use kinetic_mirror_matrix_es.Motor.Mask.{
  All, All-update_masked, All-map, any_masked-none, update_masked, any_masked,
}
use kinetic_mirror_matrix_es.Motor.Budget.{InRange, update_budget-InRange}
use kinetic_mirror_matrix_es.Stub.{
  Slot, StubMotorController, init, fresh_slots, set_thermal_limits_enabled, is_moving, set_awake,
  wake_mask, sleep_mask, start_move, start_home, move_abs_mask, home_mask, auto_sleep, complete,
  tick_slot, tick,
}

-- A motor moves exactly while its plan is active, its operation is under way and it is awake;
-- its budget is in range.
pub record SlotInv (s : Slot) : Type 0 where
  pub planned : s.plan.active ≡ s.motor.moving
  pub ongoing : s.motor.last_op_ongoing ≡ s.motor.moving
  pub powered : s.motor.moving ≡ true → s.motor.awake ≡ true
  pub in_range : InRange s.motor.budget_tenths

abbrev pub Inv : StubMotorController → Type 0
Inv c = All SlotInv c.slots

set_awake-SlotInv :
    (b : Bool) (s : Slot) → s.motor.moving ≡ false → SlotInv s → SlotInv (set_awake b s)
set_awake-SlotInv b s m v = record {
  planned = v.planned;
  ongoing = v.ongoing;
  powered = λ e. ground arith;
  in_range = v.in_range;
}

wake-SlotInv : (s : Slot) → SlotInv s → SlotInv (set_awake true s)
wake-SlotInv s v = record {
  planned = v.planned;
  ongoing = v.ongoing;
  powered = λ _. refl;
  in_range = v.in_range;
}

start_move-SlotInv :
    (target speed accel : ℤ) (now : ℕ) (s : Slot)
    → SlotInv s
    → SlotInv (start_move target speed accel now s)
unfolding start_move
start_move-SlotInv target speed accel now s v = record {
  planned = refl;
  ongoing = refl;
  powered = λ _. refl;
  in_range = v.in_range;
}

start_home-SlotInv :
    (dur : ℕ) (speed accel : ℤ) (now : ℕ) (s : Slot)
    → SlotInv s
    → SlotInv (start_home dur speed accel now s)
unfolding start_home
start_home-SlotInv dur speed accel now s v = record {
  planned = refl;
  ongoing = refl;
  powered = λ _. refl;
  in_range = v.in_range;
}

update_budget-SlotInv :
    (now : ℕ) (s : Slot) → SlotInv s → SlotInv (record s { motor = update_budget now s.motor })
update_budget-SlotInv now s v = record {
  planned = unfold update_budget in ground arith;
  ongoing = unfold update_budget in ground arith;
  powered = λ e. unfold update_budget in ground arith;
  in_range = update_budget-InRange now s.motor v.in_range;
}

auto_sleep-SlotInv :
    (enabled : Bool) (now : ℕ) (s : Slot) → SlotInv s → SlotInv (auto_sleep enabled now s)
unfolding auto_sleep record_op
auto_sleep-SlotInv enabled now s v = ground arith

complete-SlotInv : (now : ℕ) (s : Slot) → SlotInv s → SlotInv (complete now s)
unfolding complete record_op
complete-SlotInv now s v = ground arith

tick_slot-SlotInv :
    (enabled : Bool) (now : ℕ) (s : Slot) → SlotInv s → SlotInv (tick_slot enabled now s)
unfolding tick_slot
tick_slot-SlotInv enabled now s v =
    complete-SlotInv now _ (auto_sleep-SlotInv enabled now _ (update_budget-SlotInv now s v))

fresh_slots-SlotInv : (i n : ℕ) → All SlotInv (fresh_slots i n)
unfolding fresh_slots
fresh_slots-SlotInv i zero = tt
fresh_slots-SlotInv i (suc n) = (
  record {
    planned = refl;
    ongoing = refl;
    powered = λ e. cc;
    in_range = record { low = omega arith; high = omega arith };
  },
  fresh_slots-SlotInv (suc i) n,
)

-- The calls of the controller, as a client makes them in turn.
pub data Call : Type 0 where
  wakes sleeps : ℕ → Call
  moves : ℕ → ℤ → ℤ → ℤ → ℕ → Call
  homes : ℕ → ℤ → ℤ → ℤ → ℤ → ℤ → ℕ → Call
  limits : Bool → Call
  ticks : ℕ → Call

pub step : StubMotorController → Call → StubMotorController
unfolding wake_mask sleep_mask move_abs_mask home_mask set_thermal_limits_enabled tick
step c (wakes mask) = wake_mask c mask
step c (sleeps mask) = (sleep_mask c mask).0
step c (moves mask target speed accel now) = (move_abs_mask c mask target speed accel now).0
step c (homes mask overshoot backoff speed accel range now) =
    (home_mask c mask overshoot backoff speed accel range now).0
step c (limits enabled) = set_thermal_limits_enabled c enabled
step c (ticks now) = tick c now

pub run : StubMotorController → List Call → StubMotorController
unfolding step
run c [] = c
run c (call ∷ calls) = run (step c call) calls

-- The laws of a loop over the selected motors, at a body that needs no guard.
All-always :
    (mask : ℕ) (f : Slot → Slot) (xs : List Slot)
    → ((s : Slot) → SlotInv s → SlotInv (f s))
    → All SlotInv xs
    → All SlotInv (update_masked 0 mask f xs)
All-always mask f xs keep v =
    All-update_masked SlotInv 0 mask f (λ _. false) xs (λ s h _. keep s h)
      (any_masked-none 0 mask xs) v

step-Inv : (c : StubMotorController) (call : Call) → Inv c → Inv (step c call)
unfolding step
step-Inv c (wakes mask) v = All-always mask (set_awake true) c.slots wake-SlotInv v
step-Inv c (sleeps mask) v = elim (Bool-cases (any_masked 0 mask is_moving c.slots)) [
  | inl busy ↦ rw (busy, step) v
  | inr idle ↦
      rw (idle, step)
        (All-update_masked SlotInv 0 mask (set_awake false) is_moving c.slots
          (λ s h m. set_awake-SlotInv false s m h) idle v)
]
step-Inv c (moves mask target speed accel now) v =
    elim (Bool-cases (any_masked 0 mask is_moving c.slots)) [
      | inl busy ↦ rw (busy, step) v
      | inr idle ↦
          rw (idle, step) (All-always mask _ c.slots (start_move-SlotInv target speed accel now) v)
    ]
step-Inv c (homes mask overshoot backoff speed accel range now) v =
    elim (Bool-cases (any_masked 0 mask is_moving c.slots)) [
      | inl busy ↦ rw (busy, step) v
      | inr idle ↦
          rw (idle, step) (All-always mask _ c.slots (start_home-SlotInv _ speed accel now) v)
    ]
step-Inv c (limits enabled) v = v
step-Inv c (ticks now) v =
    All-map SlotInv SlotInv _ c.slots (tick_slot-SlotInv c.thermal_limits_enabled now) v

run-Inv : (c : StubMotorController) (calls : List Call) → Inv c → Inv (run c calls)
unfolding run
run-Inv c [] v = v
run-Inv c (call ∷ calls) v = run-Inv (step c call) calls (step-Inv c call v)

-- After any sequence of calls on a new controller, each motor moves exactly while its plan is
-- active and its operation is under way, is awake while it moves, and has its budget in range.
pub run-init-Inv : (count : ℕ) (calls : List Call) → Inv (run (init count) calls)
unfolding init
run-init-Inv count calls = run-Inv _ calls (fresh_slots-SlotInv 0 _)
