-- ===== src/Hardware/Safety.antt =====
-- Thermal protection by the hardware controller's tick.
use kinetic_mirror_matrix_es.Prelude.{
  ℕ, ◌+◌, ◌≡◌, inl, inr, refl, sym, ap, subst, ◌∙◌, Bool, true, false, List, [], ◌∷◌, arith, some,
  get_elem?,
}
use kinetic_mirror_matrix_es.Prelude.Int.{ltb_ℤ}
use kinetic_mirror_matrix_es.Motor.Mask.{map-eq-some}
use kinetic_mirror_matrix_es.Motor.{overrun_tenths, record_op}
use kinetic_mirror_matrix_es.Hardware.{FasAdapter, Axis, Event, HardwareMotorController}
use kinetic_mirror_matrix_es.Hardware.Tick.{sync_loop, run_barrier, finish_homing, tick}
use kinetic_mirror_matrix_es.Hardware.Tick.Axes.{
  sync_axis, sync_loop-update_each, get_elem?-update_each, IsOff, sync_axis-IsOff,
}
use kinetic_mirror_matrix_es.Hardware.Tick.Barrier.{
  Pointwise, Pointwise-at, Advanced, run_barrier-all_or_none,
}

-- What the barriers leave alone: a motor that is not homing, and every budget.
record Spared (a b : Axis) : Type 0 where
  not_homing : a.homing.active ≡ false → b ≡ a
  same_budget : b.motor.budget_tenths ≡ a.motor.budget_tenths

Spared-refl : (xs : List Axis) → Pointwise Spared xs xs
Spared-refl [] = tt
Spared-refl (a ∷ xs) = (record { not_homing = λ _. refl; same_budget = refl }, Spared-refl xs)

Advanced-Spared : (phase : ℕ) (a b : Axis) → Advanced phase a b → Spared a b
Advanced-Spared phase a b h = record {
  not_homing = λ e. h.others (ground arith);
  same_budget = h.same_budget;
}

Advanced-Spared-all :
    (phase : ℕ) (xs ys : List Axis) → Pointwise (Advanced phase) xs ys → Pointwise Spared xs ys
Advanced-Spared-all phase [] [] h = tt
Advanced-Spared-all phase [] (b ∷ ys) h = h
Advanced-Spared-all phase (a ∷ xs) [] h = h
Advanced-Spared-all phase (a ∷ xs) (b ∷ ys) h =
    (Advanced-Spared phase a b h.0, Advanced-Spared-all phase xs ys h.1)

run_barrier-Spared :
    (fas : FasAdapter) (phase : ℕ) (s : fas.State) (axes : List Axis) (events : List Event)
    → Pointwise Spared axes (run_barrier fas phase (s, axes, events)).1
run_barrier-Spared fas phase s axes events =
    elim (run_barrier-all_or_none fas phase s axes events) [
      | inl (_, e) ↦ rw e (Spared-refl axes)
      | inr (_, h) ↦ Advanced-Spared-all phase axes _ h
    ]

finish_homing-budget :
    (now i : ℕ) (a : Axis) → (finish_homing now i a).motor.budget_tenths ≡ a.motor.budget_tenths
unfolding record_op
finish_homing-budget now i a = ground arith

finish_homing-off : (now i : ℕ) (a : Axis) → a.homing.active ≡ false → finish_homing now i a ≡ a
finish_homing-off now i a e = ground arith

-- A motor through the four stages of a tick, from the state a0 before it to r.
tick_stages-IsOff :
    (fas : FasAdapter) (enabled : Bool) (now i : ℕ) (s : fas.State) (a0 a1 a2 a3 r : Axis)
    → enabled ≡ true
    → sync_axis fas enabled now s i a0 ≡ a1
    → Spared a1 a2
    → Spared a2 a3
    → finish_homing now i a3 ≡ r
    → ltb_ℤ r.motor.budget_tenths overrun_tenths ≡ true
    → IsOff r
tick_stages-IsOff fas enabled now i s a0 a1 a2 a3 r on e1 s1 s2 e3 low =
    let b3 : r.motor.budget_tenths ≡ a3.motor.budget_tenths =
      ap (λ (x : Axis). x.motor.budget_tenths) (sym e3) ∙ finish_homing-budget now i a3 in
    let b1 = b3 ∙ s2.same_budget ∙ s1.same_budget in
    let on1 : sync_axis fas true now s i a0 ≡ a1 = rw on at e1 in
    let low1 = rw b1 at low in
    let off1 : IsOff a1 = subst IsOff on1 (sync_axis-IsOff fas now s i a0 (rw on1 low1)) in
    let e2 = s1.not_homing off1.no_homing in
    let off2 : IsOff a2 = subst IsOff (sym e2) off1 in
    let e3' = s2.not_homing off2.no_homing in
    let off3 : IsOff a3 = subst IsOff (sym e3') off2 in
    subst IsOff (sym (finish_homing-off now i a3 off3.no_homing) ∙ e3) off3

-- After a tick with the thermal limits on, every motor whose budget is more than five seconds
-- below zero is off: asleep, not moving, its SLEEP bit low, its WAKE override cleared and its
-- homing sequence abandoned.
pub tick-IsOff :
    (fas : FasAdapter) (c : HardwareMotorController fas) (now j : ℕ) (r : Axis)
    → c.thermal_limits_enabled ≡ true
    → get_elem? (tick fas c now).axes j ≡ some r
    → ltb_ℤ r.motor.budget_tenths overrun_tenths ≡ true
    → IsOff r
unfolding tick
tick-IsOff fas c now j r on e low =
    let synced = sync_loop fas c.thermal_limits_enabled now c.fas_state 0 [] c.axes c.events in
    let first = run_barrier fas 0 (c.fas_state, synced.0, synced.1) in
    let second = run_barrier fas 1 first in
    let f = sync_axis fas c.thermal_limits_enabled now c.fas_state in
    let (a3, at3, e3) =
      map-eq-some _ _ (sym (get_elem?-update_each 0 (finish_homing now) second.1 j) ∙ e) in
    let (a2, at2, s2) =
      Pointwise-at Spared first.1 second.1 j (run_barrier-Spared fas 1 first.0 first.1 first.2)
        at3 in
    let (a1, at1, s1) =
      Pointwise-at Spared synced.0 first.1 j
        (run_barrier-Spared fas 0 c.fas_state synced.0 synced.1) at2 in
    let same =
      sync_loop-update_each fas c.thermal_limits_enabled now c.fas_state 0 [] c.axes c.events in
    let (a0, _, e1) = map-eq-some _ _ (
      sym (get_elem?-update_each 0 f c.axes j)
      ∙ sym (ap (λ (xs : List Axis). get_elem? xs j) same)
      ∙ at1) in
    tick_stages-IsOff fas c.thermal_limits_enabled now (0 + j) c.fas_state a0 a1 a2 a3 r on e1 s1 s2
      e3 low
