-- ===== src/SharedStep/Sound.antt =====
-- The state of the generator, compared with the motors that move.
use kinetic_mirror_matrix_es.Prelude.{
  ℕ, zero, suc, ◌≡◌, refl, ap, sym, ◌∙◌, Bool, true, false, not, ◌||◌, List, [], ◌∷◌, some, none,
  arith, if◌then◌else◌, get_elem?, set, inl, inr, Bool-cases,
}
use kinetic_mirror_matrix_es.SharedStep.{
  Adapter, Channel, any_moving, flush_latch, maybe_start_gen, put_channel, set_gen_speed, stop_gen,
}
use kinetic_mirror_matrix_es.SharedStep.Ramp.{window_from}
use kinetic_mirror_matrix_es.SharedStep.Generator.{Agrees, Quiet-Agrees, Quiet-refl, flush-Quiet}

-- The generator has been told what the adapter keeps, and runs if a motor moves.
pub record Sound (a : Adapter) : Type 0 where
  pub agreeing : Agrees a
  pub driving : (not (any_moving a.channels) || a.gen_running) ≡ true

pub sound :
    (a : Adapter) → Agrees a → (any_moving a.channels ≡ true → a.gen_running ≡ true) → Sound a
sound a h d = record {
  agreeing = h;
  driving = elim (Bool-cases (any_moving a.channels)) [
    | inl e ↦ rw (e, d e) refl
    | inr e ↦ rw e refl
  ];
}

pub driven : (a : Adapter) → Sound a → any_moving a.channels ≡ true → a.gen_running ≡ true
driven a s e = ground (arith, s.driving, e)

pub any_moving-set :
    (cs : List Channel) (i : ℕ) (c c' : Channel)
    → get_elem? cs i ≡ some c
    → c'.slot.moving ≡ c.slot.moving
    → any_moving (set cs i c') ≡ any_moving cs
unfolding any_moving
any_moving-set [] i c c' h e = refl
any_moving-set (x ∷ cs) zero c c' h e = grind (arith, h, e)
any_moving-set (x ∷ cs) (suc i) c c' h e = rw (any_moving-set cs i c c' h e) refl

pub any_moving-stop :
    (cs : List Channel) (i : ℕ) (c : Channel)
    → c.slot.moving ≡ false
    → any_moving (set cs i c) ≡ true
    → any_moving cs ≡ true
unfolding any_moving
any_moving-stop [] i c e h = h
any_moving-stop (x ∷ cs) zero c e h = ground (arith, h, e)
any_moving-stop (x ∷ cs) (suc i) c e h = elim (Bool-cases x.slot.moving) [
  | inl m ↦ rw m refl
  | inr m ↦ rw m (any_moving-stop cs i c e (ground (arith, h, m)))
]

pub any_moving-get :
    (cs : List Channel) (i : ℕ) (c : Channel)
    → get_elem? cs i ≡ some c
    → c.slot.moving ≡ true
    → any_moving cs ≡ true
unfolding any_moving
any_moving-get [] i c h e = ground (arith, h)
any_moving-get (x ∷ cs) zero c h e = grind (arith, h, e)
any_moving-get (x ∷ cs) (suc i) c h e = ground (arith, any_moving-get cs i c h e)

pub window-none :
    (any : Bool) (m : ℕ) (cs : List Channel)
    → window_from any m cs ≡ none
    → (any || any_moving cs) ≡ false
unfolding window_from any_moving
window-none any m [] h = ground (arith, h)
window-none any m (c ∷ cs) h = ground (arith, window-none (any || c.slot.moving) _ cs h)

pub flush-channels : (a : Adapter) → (flush_latch a).channels ≡ a.channels
unfolding flush_latch
flush-channels a = ground arith

pub start_gen-running :
    (now speed : ℕ) (a : Adapter) → (maybe_start_gen now speed a).gen_running ≡ true
unfolding maybe_start_gen set_gen_speed
start_gen-running now speed a = ground arith

pub stop_gen-stops :
    (a : Adapter) → ((stop_gen a).gen_running ≡ false) × ((stop_gen a).channels ≡ a.channels)
unfolding stop_gen
stop_gen-stops a = ground arith

pub Agrees-if : (t : Bool) (b c : Adapter) → Agrees b → Agrees c → Agrees (if t then b else c)
Agrees-if true b c p q = p
Agrees-if false b c p q = q

pub running-if :
    (t : Bool) (b c : Adapter)
    → b.gen_running ≡ true
    → c.gen_running ≡ true
    → (if t then b else c).gen_running ≡ true
running-if true b c p q = p
running-if false b c p q = q

pub Sound-if :
    (t : Bool) (b c : Adapter)
    → (t ≡ true → Sound b)
    → (t ≡ false → Sound c)
    → Sound (if t then b else c)
Sound-if true b c p q = p refl
Sound-if false b c p q = q refl

pub Sound-running : (a : Adapter) → Agrees a → a.gen_running ≡ true → Sound a
Sound-running a h e = sound a h (λ m. e)

pub Sound-still : (a : Adapter) → Agrees a → any_moving a.channels ≡ false → Sound a
Sound-still a h e = record { agreeing = h; driving = rw e refl }

-- A channel whose motor stands.
pub stop-Sound :
    (a : Adapter) (i : ℕ) (c : Channel)
    → c.slot.moving ≡ false
    → Sound a
    → Sound (put_channel i c a)
stop-Sound a i c e s =
    sound (put_channel i c a) s.agreeing (λ m. driven a s (any_moving-stop a.channels i c e m))

-- A channel whose motor moves as before.
pub same-Sound :
    (a : Adapter) (i : ℕ) (c c' : Channel)
    → get_elem? a.channels i ≡ some c
    → c'.slot.moving ≡ c.slot.moving
    → Sound a
    → Sound (put_channel i c' a)
same-Sound a i c c' g e s =
    sound (put_channel i c' a) s.agreeing
      (λ m. driven a s (sym (any_moving-set a.channels i c c' g e) ∙ m))

pub flush-Sound : (a : Adapter) → Sound a → Sound (flush_latch a)
flush-Sound a s =
    let q = flush-Quiet a a (Quiet-refl a) in
    sound (flush_latch a) (Quiet-Agrees a _ q s.agreeing)
      (λ m. q.same_running ∙ driven a s (ap any_moving (sym (flush-channels a)) ∙ m))
