-- ===== src/Hardware/Tick/Barrier.antt =====
-- The group barrier of the homing sequence.
use kinetic_mirror_matrix_es.Prelude.{
  ℕ, zero, suc, subst, ◌+◌, ◌≡◌, ◌⊎◌, inl, inr, refl, sym, ◌∙◌, Bool, true, false, List, [], ◌∷◌,
  ◌++◌, arith, some, get_elem?, Bool-cases,
}
use mathlib.Core.List.{append-nil, append_assoc}
use mathlib.Core.Option.{some-injective}
use mathlib.Core.Bool.{false≢true}
use kinetic_mirror_matrix_es.Hardware.{FasAdapter, Axis, Event, started, latch, any_each}
use kinetic_mirror_matrix_es.Prelude.Int.{◌+ℤ◌}
use kinetic_mirror_matrix_es.Hardware.Tick.{
  next_distance, in_leg, leg_moving, barrier_open, start_leg, start_legs, run_barrier,
}

-- A relation between the motors before and after, index by index.
abbrev pub Pointwise : (Axis → Axis → Type 0) → List Axis → List Axis → Type 0
Pointwise R [] [] = Unit
Pointwise R [] (b ∷ ys) = ⊥
Pointwise R (a ∷ xs) [] = ⊥
Pointwise R (a ∷ xs) (b ∷ ys) = R a b × Pointwise R xs ys

-- A motor of the leg goes on to the next one and moves under power; any other is as it was.
pub record Advanced (phase : ℕ) (a b : Axis) : Type 0 where
  pub others : in_leg phase 0 a ≡ false → b ≡ a
  pub next_phase : in_leg phase 0 a ≡ true → b.homing.phase ≡ phase + 1
  pub moves : in_leg phase 0 a ≡ true → (b.motor.moving ≡ true) × (b.sleep_bit ≡ true)
  pub same_plan : b.homing.active ≡ a.homing.active
  pub same_budget : b.motor.budget_tenths ≡ a.motor.budget_tenths

Advanced-refl : (phase : ℕ) (a : Axis) → in_leg phase 0 a ≡ false → Advanced phase a a
Advanced-refl phase a e = record {
  others = λ _. refl;
  next_phase = λ h. absurd (false≢true (sym e ∙ h));
  moves = λ h. absurd (false≢true (sym e ∙ h));
  same_plan = refl;
  same_budget = refl;
}

pub Pointwise-at :
    (R : Axis → Axis → Type 0) (xs ys : List Axis) (j : ℕ) {y : Axis}
    → Pointwise R xs ys
    → get_elem? ys j ≡ some y
    → (x : Axis) × (get_elem? xs j ≡ some x) × R x y
Pointwise-at R [] [] j h e = cc
Pointwise-at R [] (b ∷ ys) j h e = absurd h
Pointwise-at R (a ∷ xs) [] j h e = absurd h
Pointwise-at R (a ∷ xs) (b ∷ ys) zero {y} h e = (a, refl, subst (R a) (some-injective b y e) h.0)
Pointwise-at R (a ∷ xs) (b ∷ ys) (suc j) h e = Pointwise-at R xs ys j h.1 e

module _ (fas : FasAdapter) (phase : ℕ) where
  start_leg-Advanced :
      (s : fas.State) (i : ℕ) (a : Axis)
      → in_leg phase 0 a ≡ true
      → Advanced phase a (start_leg fas s phase i a)
  start_leg-Advanced s i a e = record {
    others = λ h. absurd (false≢true (sym h ∙ e));
    next_phase = λ _. refl;
    moves = λ _. (refl, refl);
    same_plan = refl;
    same_budget = refl;
  }

  pub start_legs-Pointwise :
      (s : fas.State) (i : ℕ) (before axes : List Axis) (events : List Event)
      → (ys : List Axis) × ((start_legs fas phase s i before axes events).1 ≡ before ++ ys)
        × Pointwise (Advanced phase) axes ys
  unfolding start_legs
  start_legs-Pointwise s i before [] events = ([], sym (append-nil before), tt)
  start_legs-Pointwise s i before (a ∷ rest) events = elim (Bool-cases (in_leg phase 0 a)) [
    | inl hit ↦
        let a' = start_leg fas s phase i a in
        let target = fas.current_position s i +ℤ next_distance phase a.homing in
        let s' = (fas.start_move_abs s i target a.homing.speed a.homing.accel).0 in
        let log = latch (before ++ a' ∷ rest) ∷ started i target ∷ [] in
        let (ys, e, r) = start_legs-Pointwise s' (suc i) (before ++ a' ∷ []) rest (events ++ log) in
        (
          a' ∷ ys,
          rw (hit, start_legs) (e ∙ append_assoc before (a' ∷ []) ys),
          (start_leg-Advanced s i a hit, r),
        )
    | inr miss ↦
        let (ys, e, r) = start_legs-Pointwise s (suc i) (before ++ a ∷ []) rest events in
        (
          a ∷ ys,
          rw (miss, start_legs) (e ∙ append_assoc before (a ∷ []) ys),
          (Advanced-refl phase a miss, r),
        )
  ]

abbrev pub NoneMoves : ℕ → List Axis → Type 0
NoneMoves phase axes = (j : ℕ) (a : Axis) → get_elem? axes j ≡ some a → leg_moving phase 0 a ≡ false

any_each-none :
    (p : Axis → Bool) (i : ℕ) (axes : List Axis)
    → any_each i (λ _. p) axes ≡ false
    → (j : ℕ) (a : Axis) → get_elem? axes j ≡ some a
    → p a ≡ false
unfolding any_each
any_each-none p i [] e j a at = cc
any_each-none p i (x ∷ axes) e zero a at = ground arith
any_each-none p i (x ∷ axes) e (suc j) a at = any_each-none p (suc i) axes (ground arith) j a at

-- The next leg starts for every motor of the group at once, and only where none of them still
-- moves: behind a closed barrier nothing changes, and behind an open one no motor of the leg
-- moves, each of them goes on to the next phase under power, and every other motor is as it was.
pub run_barrier-all_or_none :
    (fas : FasAdapter) (phase : ℕ) (s : fas.State) (axes : List Axis) (events : List Event)
    → ((barrier_open phase axes ≡ false)
        × (run_barrier fas phase (s, axes, events) ≡ (s, axes, events)))
      ⊎ (NoneMoves phase axes
          × Pointwise (Advanced phase) axes (run_barrier fas phase (s, axes, events)).1)
unfolding run_barrier
run_barrier-all_or_none fas phase s axes events = elim (Bool-cases (barrier_open phase axes)) [
  | inl open_now ↦
      let (ys, e, r) = start_legs-Pointwise fas phase s 0 [] axes events in
      inr (
        (λ j a at. any_each-none (leg_moving phase 0) 0 axes (still phase axes open_now) j a at),
        rw (open_now, run_barrier, e) r,
      )
  | inr closed ↦ inl (closed, rw (closed, run_barrier) refl)
]
  where
    still :
        (phase : ℕ) (axes : List Axis)
        → barrier_open phase axes ≡ true
        → any_each 0 (leg_moving phase) axes ≡ false
    still phase axes h = unfold barrier_open in ground arith
