-- ===== src/SharedStep/Landing.antt =====
-- The course of a move from its start on.
use kinetic_mirror_matrix_es.Prelude.{
  ℕ, zero, suc, ◌≡◌, refl, sym, ◌∙◌, Bool, true, false, not, ◌&&◌, List, [], ◌∷◌, some, none, arith,
  if◌then◌else◌, get_elem?, set,
}
use kinetic_mirror_matrix_es.Prelude.Int.{ℤ, ltb_ℤ, eq_of_parts}
use kinetic_mirror_matrix_es.SharedStep.{
  Adapter, Channel, Slot, flush_latch, maybe_start_gen, put_channel, set_gen_speed, with_channel,
}
use kinetic_mirror_matrix_es.SharedStep.Moves.{
  aim, aimed, at_least_one, ensure_running, halted, planned_flip, start_channel, start_flip,
  start_later, start_move_abs, start_now, turned_now,
}
use kinetic_mirror_matrix_es.SharedStep.Updates.{is_moving}
use kinetic_mirror_matrix_es.SharedStep.Holds.{Holds-cases, Holds, Holds-if, flush-Holds}
use kinetic_mirror_matrix_es.SharedStep.Progress.{
  Holds-channels, Towards, Underway, landed, progress-Holds, underway,
}

set-get :
    (cs : List Channel) (i : ℕ) (c d : Channel)
    → get_elem? cs i ≡ some c
    → get_elem? (set cs i d) i ≡ some d
set-get [] i c d h = ground (arith, h)
set-get (x ∷ cs) zero c d h = refl
set-get (x ∷ cs) (suc i) c d h = set-get cs i c d h

under : {i : ℕ} {t : ℤ} {a : Adapter} → Holds i (Underway t) a → Holds i (Towards t) a
under h = record { channel = h.channel; found = h.found; holds = underway h.holds }

-- There is a channel i.
abbrev There : ℕ → Adapter → Type 0
There i a = Holds i (λ s. s ≡ s) a

put-There :
    (i : ℕ) (P : Slot → Type 0) (d : Channel) (a : Adapter)
    → There i a
    → P d.slot
    → Holds i P (put_channel i d a)
put-There i P d a h p = record {
  channel = d;
  found = set-get a.channels i h.channel d h.found;
  holds = p;
}

heads :
    (p t : ℤ)
    → (not (ltb_ℤ p t) && not (ltb_ℤ t p)) ≡ false
    → (if ltb_ℤ p t then ltb_ℤ p t else ltb_ℤ t p) ≡ true
heads p t h = ground (arith, h)

stands : (p t : ℤ) → (not (ltb_ℤ p t) && not (ltb_ℤ t p)) ≡ true → p ≡ t
stands p t h = eq_of_parts p t (ground (arith, h))

ensure_running-channels : (now : ℕ) (a : Adapter) → (ensure_running now a).channels ≡ a.channels
unfolding ensure_running maybe_start_gen set_gen_speed
ensure_running-channels now a = ground arith

-- The channel that is asked to go to t.
module _ (now i : ℕ) (desired need : Bool) (t : ℤ) (c : Channel) (at : c.slot.target ≡ t)
    (ahead : (if desired
        then ltb_ℤ c.slot.position c.slot.target
        else ltb_ℤ c.slot.target c.slot.position)
      ≡ true) where
  start_now-Holds :
      (a : Adapter) → There i a → Holds i (Underway t) (start_now now i desired need c a)
  unfolding start_now
  start_now-Holds a h = flush-Holds i (Underway t) _ (
      put-There i (Underway t) _ _
        (Holds-if i (λ s. s ≡ s) need _ a
          (Holds-channels i (λ s. s ≡ s) (flush_latch (put_channel i (turned_now desired need c) a))
            _ refl
            (flush-Holds i (λ s. s ≡ s) _
              (put-There i (λ s. s ≡ s) (turned_now desired need c) a h refl)))
          h)
        (refl, at, ahead))

  start_flip-Holds :
      (a : Adapter) → There i a → Holds i (Underway t) (start_flip now i desired need c a)
  unfolding start_flip start_later
  start_flip-Holds a h =
      elim (planned_flip now need a)
        as (λ w. Holds i (Underway t) (elim w [
          | none ↦ start_now now i desired need c a
          | some w ↦ start_later now i desired w c a
        ])) [
          | none ↦ start_now-Holds a h
          | some w ↦ put-There i (Underway t) _ a h (refl, at, ahead)
        ]

aim-There :
    (i : ℕ) (speed accel : ℤ) (need : Bool) (c : Channel) (a : Adapter)
    → There i a
    → There i (aim i speed accel need c a)
unfolding aim
aim-There i speed accel need c a h =
    let b = record a { v_max_sps = at_least_one speed; a_sps2 = at_least_one accel } in
    let q = put-There i (λ s. s ≡ s) c b (Holds-channels i (λ s. s ≡ s) a b refl h) refl in
    Holds-if i (λ s. s ≡ s) need _ _ (flush-Holds i (λ s. s ≡ s) _ q) q

start_channel-Holds :
    (now i : ℕ) (t speed accel : ℤ) (c : Channel) (a : Adapter)
    → There i a
    → (not (ltb_ℤ c.slot.position t) && not (ltb_ℤ t c.slot.position)) ≡ false
    → Holds i (Underway t) (start_channel now i t speed accel c a)
unfolding start_channel
start_channel-Holds now i t speed accel c a h e =
    let desired = ltb_ℤ c.slot.position t in
    let need = if desired then not c.dir_bit else c.dir_bit in
    let c' = aimed t speed need c in
    let b = aim i speed accel need c' a in
    Holds-channels i (Underway t) (start_flip now i desired need c' b) _
      (ensure_running-channels now _)
      (start_flip-Holds now i desired need t c' refl (heads c.slot.position t e) b
        (aim-There i speed accel need c' a h))

-- Questions whether motors move, each with its time and its motor.
abbrev pub asks : List (ℕ × ℕ) → Adapter → Adapter
asks [] a = a
asks ((now, j) ∷ qs) a = asks qs ((is_moving now j a).0)

asks-Holds :
    (i : ℕ) (t : ℤ) (qs : List (ℕ × ℕ)) (a : Adapter)
    → Holds i (Towards t) a
    → Holds i (Towards t) (asks qs a)
unfolding is_moving
asks-Holds i t [] a h = h
asks-Holds i t ((now, j) ∷ qs) a h = asks-Holds i t qs _ (progress-Holds i j now t a h)

start_move-Holds :
    (now i : ℕ) (t speed accel : ℤ) (a : Adapter)
    → There i a
    → Holds i (Towards t) ((start_move_abs now i t speed accel a).0)
unfolding start_move_abs with_channel
start_move-Holds now i t speed accel a h =
    elim (get_elem? a.channels i)
        as (λ o.
          get_elem? a.channels i ≡ o
          → Holds i (Towards t) (elim o [
            | none ↦ a
            | some c ↦
                if not (ltb_ℤ c.slot.position t) && not (ltb_ℤ t c.slot.position)
                then put_channel i (halted c) a
                else start_channel now i t speed accel c a
          ])) [ none ↦ (λ e. absent (sym h.found ∙ e)) | some c ↦ (λ e. begin_or_stay c) ]
      refl
  where
    absent : some h.channel ≡ none → Holds i (Towards t) a
    absent e = ground (arith, e)

    begin_or_stay :
        (c : Channel)
        → Holds i (Towards t) (
            if not (ltb_ℤ c.slot.position t) && not (ltb_ℤ t c.slot.position)
            then put_channel i (halted c) a
            else start_channel now i t speed accel c a)
    begin_or_stay c =
        Holds-cases i (Towards t) _ _ _
          (λ e. put-There i (Towards t) (halted c) a h (landed refl (stands c.slot.position t e)))
          (λ e. under (start_channel-Holds now i t speed accel c a h e))

-- Once a motor has been sent to a target, and whatever motors are asked about after that, in any
-- order and at any times, the motor either still moves, with that target strictly ahead of it in
-- its direction, or has stopped with its position exactly at the target.
pub move-lands :
    (now i : ℕ) (target speed accel : ℤ) (a : Adapter) (c : Channel) (qs : List (ℕ × ℕ))
    → get_elem? a.channels i ≡ some c
    → Holds i (Towards target) (asks qs ((start_move_abs now i target speed accel a).0))
move-lands now i target speed accel a c qs g =
    asks-Holds i target qs _ (
      start_move-Holds now i target speed accel a (record { channel = c; found = g; holds = refl }))
