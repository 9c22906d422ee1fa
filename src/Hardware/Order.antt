-- ===== src/Hardware/Order.antt =====
-- The order of the effects of a move: the outputs first, then the starts, each selected motor once.
use kinetic_mirror_matrix_es.Prelude.{
  ℕ, zero, suc, ◌≡◌, sym, ◌∙◌, Bool, true, false, ◌&&◌, List, [], ◌∷◌, ◌++◌, if◌then◌else◌,
  Bool-cases, inl, inr, length,
}
use mathlib.Core.List.{append_assoc, append-nil}
use kinetic_mirror_matrix_es.Prelude.Int.{ℤ}
use kinetic_mirror_matrix_es.Motor.Mask.{selected}
use kinetic_mirror_matrix_es.Hardware.{FasAdapter, Event, started, HardwareMotorController, latch}
use kinetic_mirror_matrix_es.Hardware.Commands.{is_any_moving_for_mask, start_moves, move_abs_mask}

-- The starts of the n motors from index i on that the mask selects, in order.
abbrev pub starts : ℕ → ℕ → ℕ → ℤ → List Event
starts zero i mask target = []
starts (suc n) i mask target =
    if selected mask i
    then started i target ∷ starts n (suc i) mask target
    else starts n (suc i) mask target

module _ (fas : FasAdapter) where
  start_moves-starts :
      (n i mask : ℕ) (target speed accel : ℤ) (s : fas.State) (events : List Event) (ok : Bool)
      → (start_moves fas n i mask target speed accel s events ok).1
        ≡ events ++ starts n i mask target
  unfolding start_moves
  start_moves-starts zero i mask target speed accel s events ok = sym (append-nil events)
  start_moves-starts (suc n) i mask target speed accel s events ok =
      elim (Bool-cases (selected mask i)) [
        | inl hit ↦
            let r = fas.start_move_abs s i target speed accel in
            rw (hit, start_moves)
              (start_moves-starts n (suc i) mask target speed accel r.0
                  (events ++ started i target ∷ []) (ok && r.1)
                ∙ append_assoc events (started i target ∷ []) (starts n (suc i) mask target))
        | inr miss ↦
            rw (miss, start_moves)
              (start_moves-starts n (suc i) mask target speed accel s events ok)
      ]

  -- A move that is not refused first latches the new DIR and SLEEP bits of all motors, once, and
  -- then starts each selected motor once, by rising index and to the target; it has no other effect.
  pub move_abs_mask-order :
      (c : HardwareMotorController fas) (mask : ℕ) (target speed accel : ℤ) (now : ℕ)
      → is_any_moving_for_mask fas c mask ≡ false
      → let c' = (move_abs_mask fas c mask target speed accel now).0 in
        c'.events ≡ c.events ++ latch c'.axes ∷ starts (length c'.axes) 0 mask target
  unfolding move_abs_mask
  move_abs_mask-order c mask target speed accel now idle =
      rw (idle, move_abs_mask)
        (start_moves-starts _ 0 mask target speed accel c.fas_state _ true
          ∙ append_assoc c.events _ _)
