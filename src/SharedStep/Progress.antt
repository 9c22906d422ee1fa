-- ===== src/SharedStep/Progress.antt =====
-- A motor on its way to a target, while motors are brought up to date.
use kinetic_mirror_matrix_es.Prelude.{
  ◌+◌, ◌*◌, ◌/◌, ◌%◌, u32, ℕ, ◌≡◌, refl, sym, ap, subst, ◌∙◌, Bool, true, false, not, ◌&&◌, some,
  arith, ltb, if◌then◌else◌, get_elem?,
}
use kinetic_mirror_matrix_es.Prelude.Int.{ℤ, ltb_ℤ}
use kinetic_mirror_matrix_es.SharedStep.{
  Adapter, Channel, Slot, put_channel, maybe_stop_gen, stop_gen, maybe_start_gen, set_gen_speed,
}
use kinetic_mirror_matrix_es.SharedStep.Ramp.{update_ramp, update_ramp_by, stopped_ramp}
use kinetic_mirror_matrix_es.SharedStep.Updates.{
  reached, stepped, advance, asleep, at_time, integrate, moved, run_flip_scheduler, settle_channel,
  update_progress,
}
use kinetic_mirror_matrix_es.SharedStep.Generator.{with_channel-elim}
use kinetic_mirror_matrix_es.SharedStep.Holds.{
  Holds, put-Holds, Holds-if, Holds-cases, flush_put-Holds, run_flip-Holds,
}

-- The target lies ahead.
abbrev pub heading : Slot → Bool
heading s = if s.dir_positive then ltb_ℤ s.position s.target else ltb_ℤ s.target s.position

abbrev pub Underway : ℤ → Slot → Type 0
Underway t s = (s.moving ≡ true) × (s.target ≡ t) × (heading s ≡ true)

-- It moves and the target lies ahead, or it stands at the target.
pub data Towards (t : ℤ) (s : Slot) : Type 0 where
  underway : Underway t s → Towards t s
  landed : s.moving ≡ false → s.position ≡ t → Towards t s

Towards-if :
    (t : ℤ) (b : Bool) (r s : Slot)
    → (b ≡ true → Towards t r)
    → (b ≡ false → Towards t s)
    → Towards t (if b then r else s)
Towards-if t true r s p q = p refl
Towards-if t false r s p q = q refl

reached-heading :
    (p : ℤ) (s : Slot) → reached p s ≡ false → heading (record s { position = p }) ≡ true
reached-heading p s h = ground (arith, h)

advance-Towards : (t : ℤ) (n : ℕ) (s : Slot) → Underway t s → Towards t (advance n s)
unfolding advance
advance-Towards t n s (m, e, h) =
    Towards-if t (reached (stepped n s) s) _ _ (λ r. landed refl e)
      (λ r. underway (m, e, reached-heading (stepped n s) s r))

integrate-Towards : (t : ℤ) (v dt : ℕ) (s : Slot) → Underway t s → Towards t (integrate v dt s)
unfolding integrate
integrate-Towards t v dt s u =
    let total = dt * v + s.acc_us in
    let steps = u32 (total / 1000000) in
    let s' = record s { acc_us = total % 1000000 } in
    Towards-if t (s.awake && ltb 0 v) (if ltb 0 steps then advance steps s' else s') s
      (λ a.
        Towards-if t (ltb 0 steps) (advance steps s') s' (λ b. advance-Towards t steps s' u)
          (λ b. underway u))
      (λ a. underway u)

update_ramp-channels : (now : ℕ) (a : Adapter) → (update_ramp now a).channels ≡ a.channels
unfolding update_ramp update_ramp_by stopped_ramp stop_gen maybe_start_gen set_gen_speed
update_ramp-channels now a = ground arith

maybe_stop-channels : (a : Adapter) → (maybe_stop_gen a).channels ≡ a.channels
unfolding maybe_stop_gen stop_gen
maybe_stop-channels a = ground arith

-- A change outside the channels.
pub Holds-channels :
    (i : ℕ) (P : Slot → Type 0) (a b : Adapter)
    → b.channels ≡ a.channels
    → Holds i P a
    → Holds i P b
Holds-channels i P a b e h = record { channel = h.channel; found = rw e h.found; holds = h.holds }

some-inj {ℓ} : {A : Type ℓ} (x y : A) → some x ≡ some y → x ≡ y
some-inj x y h = grind (arith, h)

-- The channel that is read is the motor's.
same-Holds :
    (i j : ℕ) (P : Slot → Type 0) (a : Adapter) (c : Channel)
    → get_elem? a.channels j ≡ some c
    → Holds i P a
    → i ≡ j
    → P c.slot
same-Holds i j P a c g h e =
    subst (λ d. P d.slot) (some-inj h.channel c (sym h.found ∙ ap (get_elem? a.channels) e ∙ g))
      h.holds

Towards-awake : (t : ℤ) (s : Slot) (b : Bool) → Towards t s → Towards t (record s { awake = b })
Towards-awake t s b (underway u) = underway u
Towards-awake t s b (landed m p) = landed m p

-- What is known of the motor i while the motor j is brought up to date: a motor that moves is under
-- way until its steps are counted.
module _ (i j now : ℕ) (t : ℤ) where
  abbrev During : Slot → Type 0
  During s = Towards t s × (i ≡ j → Underway t s)

  free : (s : Slot) (b : Bool) → During s → During (record s { awake = b })
  free s b (p, q) = (Towards-awake t s b p, q)

  Towards-at : (s : Slot) → Towards t s → Towards t (record s { last_us = now })
  Towards-at s (underway u) = underway u
  Towards-at s (landed m p) = landed m p

  moving-Underway : (s : Slot) → Towards t s → s.moving ≡ true → Underway t s
  moving-Underway s (underway u) m = u
  moving-Underway s (landed n p) m = ground (arith, n, m)

  same_moving : {c d : Channel} → c ≡ d → d.slot.moving ≡ c.slot.moving
  same_moving e = ap (λ c. c.slot.moving) (sym e)

  weaken : (a : Adapter) → Holds i During a → Holds i (Towards t) a
  weaken a h = record { channel = h.channel; found = h.found; holds = h.holds.0 }

  moved-Holds :
      (c : Channel) (a : Adapter)
      → c.slot.moving ≡ true
      → get_elem? a.channels j ≡ some c
      → Holds i (Towards t) a
      → Holds i (Towards t) (moved now j c a)
  unfolding moved
  moved-Holds c a m g h =
      let c' = at_time now c in
      let h' : Holds i During a = record {
        channel = h.channel;
        found = h.found;
        holds = (
          h.holds,
          λ e. moving-Underway h.channel.slot h.holds (
              same_moving
                (some-inj c h.channel (sym g ∙ ap (get_elem? a.channels) (sym e) ∙ h.found))
              ∙ m),
        );
      } in
      let w : (i ≡ j → During c.slot) = same-Holds i j During a c g h' in
      let w' : (i ≡ j → During c'.slot) = λ e. (Towards-at c.slot ((w e).0), (w e).1) in
      let b = put_channel j c' a in
      let f = run_flip_scheduler j now c' b in
      let hf = run_flip-Holds i During free j now c' b w' (put-Holds i During j c' a w' h') in
      with_channel-elim (Holds i (Towards t)) j f _ (weaken f hf) (λ d k.
        put-Holds i (Towards t) j _ f
          (λ e. integrate-Towards t _ _ d.slot ((same-Holds i j During f d k hf e).1 e))
          (weaken f hf))

  settle-Holds :
      (c : Channel) (a : Adapter)
      → get_elem? a.channels j ≡ some c
      → Holds i (Towards t) a
      → Holds i (Towards t) (settle_channel j c a)
  unfolding settle_channel
  settle-Holds c a g h = Holds-if i (Towards t) c.slot.moving a _ h (
      Holds-channels i (Towards t) _ _ (maybe_stop-channels _) (
        Holds-if i (Towards t) c.slot.forced_awake a _ h (
          flush_put-Holds i (Towards t) j (asleep c) a
            (λ e. Towards-awake t c.slot false (same-Holds i j (Towards t) a c g h e)) h)))

  pub progress-Holds :
      (a : Adapter) → Holds i (Towards t) a → Holds i (Towards t) (update_progress now j a)
  unfolding update_progress
  progress-Holds a h = with_channel-elim (Holds i (Towards t)) j a _ h (λ c g.
      Holds-cases i (Towards t) (not c.slot.moving) a _ (λ m. h)
        (λ m.
          let b = moved now j c a in
          let r =
            Holds-channels i (Towards t) b (update_ramp now b) (update_ramp-channels now b)
              (moved-Holds c a (ground (arith, m)) g h) in
          with_channel-elim (Holds i (Towards t)) j (update_ramp now b) _ r
            (λ d k. settle-Holds d _ k r)))
