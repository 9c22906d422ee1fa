-- ===== src/Hardware/Latch.antt =====
-- The shift register always shows the controller's DIR and SLEEP bits, and a move is latched before
-- any motor starts.
use kinetic_mirror_matrix_es.Prelude.{
  ℕ, suc, ◌≡◌, refl, sym, ap, ◌∙◌, Bool, true, not, ◌&&◌, List, [], ◌∷◌, ◌++◌, map, arith, Option,
  some, none, Bool-cases, inl, inr,
}
use mathlib.Core.List.{append-nil, append_assoc}
use kinetic_mirror_matrix_es.Prelude.Int.{ℤ, ◌+ℤ◌}
use kinetic_mirror_matrix_es.Hardware.{FasAdapter, Axis, Event, latched, started, latch}
use kinetic_mirror_matrix_es.Hardware.Tick.{
  observe, idle_sleep, overrun_sleep, finish_op, log_sleep, sync_loop, start_leg, start_legs,
  in_leg, next_distance,
}

-- The last bits that the register was given.
abbrev pub shown_or : Option Event → List Event → Option Event
shown_or e [] = e
shown_or e (latched d s ∷ events) = shown_or (some (latched d s)) events
shown_or e (started i t ∷ events) = shown_or e events

abbrev pub shown : List Event → Option Event
shown = shown_or none

abbrev pub IsShown : List Axis → List Event → Type 0
IsShown axes events = shown events ≡ some (latch axes)

pub shown_or-append :
    (e : Option Event) (xs ys : List Event) → shown_or e (xs ++ ys) ≡ shown_or (shown_or e xs) ys
shown_or-append e [] ys = refl
shown_or-append e (latched d s ∷ xs) ys = shown_or-append (some (latched d s)) xs ys
shown_or-append e (started i t ∷ xs) ys = shown_or-append e xs ys

-- A latch at the end is what is shown; a start changes nothing.
pub latch-IsShown :
    (events : List Event) (axes : List Axis) → IsShown axes (events ++ latch axes ∷ [])
latch-IsShown events axes = shown_or-append none events (latch axes ∷ [])

pub shown-started :
    (events : List Event) (i : ℕ) (t : ℤ) → shown (events ++ started i t ∷ []) ≡ shown events
shown-started events i t = shown_or-append none events (started i t ∷ [])

map-same :
    (f : Axis → Bool) (before rest : List Axis) (a b : Axis)
    → f b ≡ f a
    → map f (before ++ b ∷ rest) ≡ map f (before ++ a ∷ rest)
map-same f [] rest a b e = rw e refl
map-same f (x ∷ before) rest a b e = ap (◌∷◌ (f x)) (map-same f before rest a b e)

-- Motors with the same bits at one place look the same to the register.
latch-same :
    (before rest : List Axis) (a b : Axis)
    → b.dir_bit ≡ a.dir_bit
    → b.sleep_bit ≡ a.sleep_bit
    → latch (before ++ b ∷ rest) ≡ latch (before ++ a ∷ rest)
latch-same before rest a b d s =
    rw (map-same (λ x. x.dir_bit) before rest a b d, map-same (λ x. x.sleep_bit) before rest a b s)

log_sleep-IsShown :
    (before rest : List Axis) (a b : Axis) (events : List Event)
    → b.dir_bit ≡ a.dir_bit
    → (b.sleep_bit ≡ true → a.sleep_bit ≡ true)
    → IsShown (before ++ a ∷ rest) events
    → IsShown (before ++ b ∷ rest) (log_sleep before a b rest events)
log_sleep-IsShown before rest a b events d s h =
    elim (Bool-cases (a.sleep_bit && not b.sleep_bit)) [
      | inl low ↦ rw low (latch-IsShown events (before ++ b ∷ rest))
      | inr same ↦ rw same (h ∙ ap some (sym (latch-same before rest a b d (ground arith))))
    ]

pub IsShown-along :
    {xs ys : List Axis} {o : Option Event} → xs ≡ ys → o ≡ some (latch xs) → o ≡ some (latch ys)
IsShown-along e h = h ∙ ap (λ (zs : List Axis). some (latch zs)) e

-- The motor at the head joins those that the loop is done with.
IsShown-next :
    (before rest : List Axis) (a : Axis) {o : Option Event}
    → o ≡ some (latch (before ++ a ∷ rest))
    → o ≡ some (latch ((before ++ a ∷ []) ++ rest))
IsShown-next before rest a h = IsShown-along (sym (append_assoc before (a ∷ []) rest)) h

-- What the stages of the first loop do to the bits.
record OnlySleeps (a b : Axis) : Type 0 where
  dir : b.dir_bit ≡ a.dir_bit
  sleep : b.sleep_bit ≡ true → a.sleep_bit ≡ true

idle_sleep-OnlySleeps : (running : Bool) (a : Axis) → OnlySleeps a (idle_sleep running a)
unfolding idle_sleep
idle_sleep-OnlySleeps running a = record { dir = ground arith; sleep = λ e. ground arith }

overrun_sleep-OnlySleeps :
    (enabled : Bool) (now : ℕ) (a : Axis) → OnlySleeps a (overrun_sleep enabled now a)
unfolding overrun_sleep
overrun_sleep-OnlySleeps enabled now a = record { dir = ground arith; sleep = λ e. ground arith }

finish_op-bits :
    (now : ℕ) (a : Axis)
    → ((finish_op now a).dir_bit ≡ a.dir_bit) × ((finish_op now a).sleep_bit ≡ a.sleep_bit)
unfolding finish_op
finish_op-bits now a = ground arith

module _ (fas : FasAdapter) where
  pub sync_loop-IsShown :
      (enabled : Bool) (now : ℕ) (s : fas.State) (i : ℕ) (before axes : List Axis)
      (events : List Event)
      → IsShown (before ++ axes) events
      → let r = sync_loop fas enabled now s i before axes events in IsShown r.0 r.1
  unfolding sync_loop
  sync_loop-IsShown enabled now s i before [] events h = IsShown-along (append-nil before) h
  sync_loop-IsShown enabled now s i before (a ∷ rest) events h =
      let running = fas.is_moving s i in
      let seen = record a { motor = observe now running (fas.current_position s i) a.motor } in
      let idle = idle_sleep running seen in
      let cooled = overrun_sleep enabled now idle in
      let b1 = idle_sleep-OnlySleeps running seen in
      let b2 = overrun_sleep-OnlySleeps enabled now idle in
      let b3 = finish_op-bits now cooled in
      let h1 = log_sleep-IsShown before rest a idle events b1.dir b1.sleep h in
      let h2 =
        log_sleep-IsShown before rest idle cooled (log_sleep before a idle rest events) b2.dir
          b2.sleep h1 in
      let h3 =
        h2 ∙ ap some (sym (latch-same before rest cooled (finish_op now cooled) b3.0 b3.1)) in
      sync_loop-IsShown enabled now s (suc i) (before ++ finish_op now cooled ∷ []) rest
        (log_sleep before idle cooled rest (log_sleep before a idle rest events))
        (IsShown-next before rest (finish_op now cooled) h3)

  pub start_legs-IsShown :
      (phase : ℕ) (s : fas.State) (i : ℕ) (before axes : List Axis) (events : List Event)
      → IsShown (before ++ axes) events
      → let r = start_legs fas phase s i before axes events in IsShown r.1 r.2
  unfolding start_legs
  start_legs-IsShown phase s i before [] events h = IsShown-along (append-nil before) h
  start_legs-IsShown phase s i before (a ∷ rest) events h = elim (Bool-cases (in_leg phase i a)) [
    | inl hit ↦
        let target = fas.current_position s i +ℤ next_distance phase a.homing in
        let s' = (fas.start_move_abs s i target a.homing.speed a.homing.accel).0 in
        let a' = start_leg fas s phase i a in
        let log = latch (before ++ a' ∷ rest) ∷ started i target ∷ [] in
        rw (hit, start_legs)
          (start_legs-IsShown phase s' (suc i) (before ++ a' ∷ []) rest (events ++ log)
            (IsShown-next before rest a' (shown_or-append none events log)))
    | inr miss ↦
        rw (miss, start_legs)
          (start_legs-IsShown phase s (suc i) (before ++ a ∷ []) rest events
            (IsShown-next before rest a h))
  ]
