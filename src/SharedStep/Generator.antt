-- ===== src/SharedStep/Generator.antt =====
-- What the generator has been told, compared with what the adapter keeps of it.
use kinetic_mirror_matrix_es.Prelude.{
  ℕ, ◌≡◌, refl, ◌∙◌, Bool, true, false, not, ◌&&◌, List, [], ◌∷◌, ◌++◌, some, arith, leb, ◌==◌,
  if◌then◌else◌, get_elem?, inl, inr, Option-cases,
}
use kinetic_mirror_matrix_es.Timing.{step_period_us}
use kinetic_mirror_matrix_es.SharedStep.{
  Adapter, Channel, Signal, flush_latch, latched, maybe_start_gen, put_channel, speed_set, started,
  stop_gen, stopped, waited, with_channel, log, speed_setting, set_gen_speed,
}
use kinetic_mirror_matrix_es.SharedStep.Moves.{turned_now, start_now}
use kinetic_mirror_matrix_es.SharedStep.Updates.{
  end_flip, flip_dir, flip_high, flip_low, lowered, turned, raised, run_flip_scheduler,
}

-- What the generator does after the calls that it has had.
pub record Heard : Type 0 where
  pub running : Bool
  pub speed : ℕ

abbrev pub hear : Heard → Signal → Heard
hear h (speed_set n) = record h { speed = n }
hear h started = record h { running = true }
hear h stopped = record h { running = false }
hear h (latched dirs sleeps) = h
hear h (waited us) = h

abbrev pub heard : Heard → List Signal → Heard
heard h [] = h
heard h (s ∷ ss) = heard (hear h s) ss

heard-snoc :
    (h : Heard) (ss : List Signal) (s : Signal) → heard h (ss ++ s ∷ []) ≡ hear (heard h ss) s
heard-snoc h [] s = refl
heard-snoc h (t ∷ ss) s = heard-snoc (hear h t) ss s

abbrev pub silent : Heard
silent = record { running = false; speed = 0 }

abbrev pub told : Adapter → Heard
told a = heard silent a.signals

abbrev pub agrees : Bool → ℕ → ℕ → Heard → Bool
agrees false speed period h = not h.running
agrees true speed period h =
    h.running && h.speed == speed && leb 20 speed && period == step_period_us speed

-- The generator has heard what the adapter keeps, and runs no slower than its minimum.
abbrev pub Agrees : Adapter → Type 0
Agrees a = agrees a.gen_running a.current_speed_sps a.period_us (told a) ≡ true

-- A change that concerns the channels and the latch only.
pub record Quiet (a b : Adapter) : Type 0 where
  pub same_running : b.gen_running ≡ a.gen_running
  pub same_speed : b.current_speed_sps ≡ a.current_speed_sps
  pub same_period : b.period_us ≡ a.period_us
  pub same_told : told b ≡ told a

pub Quiet-refl : (a : Adapter) → Quiet a a
Quiet-refl a = record {
  same_running = refl;
  same_speed = refl;
  same_period = refl;
  same_told = refl;
}

pub Quiet-Agrees : (a b : Adapter) → Quiet a b → Agrees a → Agrees b
Quiet-Agrees a b q h = rw (q.same_running, q.same_speed, q.same_period, q.same_told) h

pub told-log : (s : Signal) (a : Adapter) → told (log s a) ≡ hear (told a) s
told-log s a = heard-snoc silent a.signals s

pub Quiet-if : (t : Bool) (a b c : Adapter) → Quiet a b → Quiet a c → Quiet a (if t then b else c)
Quiet-if true a b c p q = p
Quiet-if false a b c p q = q

pub log-Quiet :
    (a : Adapter) (s : Signal) (b : Adapter)
    → told (log s b) ≡ told b
    → Quiet a b
    → Quiet a (log s b)
log-Quiet a s b e q = record {
  same_running = q.same_running;
  same_speed = q.same_speed;
  same_period = q.same_period;
  same_told = e ∙ q.same_told;
}

pub put-Quiet :
    (a : Adapter) (i : ℕ) (c : Channel) (b : Adapter) → Quiet a b → Quiet a (put_channel i c b)
put-Quiet a i c b q = record {
  same_running = q.same_running;
  same_speed = q.same_speed;
  same_period = q.same_period;
  same_told = q.same_told;
}

pub flush-Quiet : (a b : Adapter) → Quiet a b → Quiet a (flush_latch b)
unfolding flush_latch
flush-Quiet a b q = Quiet-if b.attached a _ b (log-Quiet a _ b (told-log _ b) q) q

-- A question that `with_channel` answers by cases.
pub with_channel-elim {ℓ} :
    (P : Adapter → Type ℓ) (i : ℕ) (a : Adapter) (f : Channel → Adapter)
    → P a
    → ((c : Channel) → get_elem? a.channels i ≡ some c → P (f c))
    → P (with_channel i a f)
unfolding with_channel
with_channel-elim P i a f none_case some_case = elim (Option-cases (get_elem? a.channels i)) [
  | inl e ↦ rw (with_channel, e) none_case
  | inr (c, e) ↦ rw (with_channel, e) (some_case c e)
]

speed_setting_ge : (speed : ℕ) → leb 20 (speed_setting speed) ≡ true
unfolding speed_setting
speed_setting_ge speed = ground arith

pub set_speed-Agrees :
    (now n : ℕ) (a : Adapter) → leb 20 n ≡ true → Agrees a → Agrees (set_gen_speed now n a)
unfolding set_gen_speed
set_speed-Agrees now n a slow h =
    ground (arith, told-log (speed_set n) a, told-log started (log (speed_set n) a), slow, h)

pub start_gen-Agrees :
    (now speed : ℕ) (a : Adapter) → Agrees a → Agrees (maybe_start_gen now speed a)
unfolding maybe_start_gen
start_gen-Agrees now speed a h =
    ground (arith, h, set_speed-Agrees now (speed_setting speed) a (speed_setting_ge speed) h)

pub stop_gen-Agrees : (a : Adapter) → Agrees a → Agrees (stop_gen a)
unfolding stop_gen
stop_gen-Agrees a h = ground (arith, told-log stopped (record a { gen_running = false }), h)

waits-Quiet : (a : Adapter) (us : ℕ) (b : Adapter) → Quiet a b → Quiet a (log (waited us) b)
waits-Quiet a us b q = log-Quiet a (waited us) b (told-log (waited us) b) q

-- The phases of a flip.
module _ (a : Adapter) (i now : ℕ) where
  pub flush_put-Quiet :
      (c : Channel) (b : Adapter) → Quiet a b → Quiet a (flush_latch (put_channel i c b))
  flush_put-Quiet c b q = flush-Quiet a (put_channel i c b) (put-Quiet a i c b q)

  end_flip-Quiet : (c : Channel) (b : Adapter) → Quiet a b → Quiet a (end_flip i c b)
  unfolding end_flip
  end_flip-Quiet c b q = flush_put-Quiet (raised c) b q

  flip_high-Quiet : (c : Channel) (b : Adapter) → Quiet a b → Quiet a (flip_high i now c b)
  unfolding flip_high
  flip_high-Quiet c b q = Quiet-if _ a _ b (end_flip-Quiet c b q) q

  flip_dir-Quiet : (c : Channel) (b : Adapter) → Quiet a b → Quiet a (flip_dir i now c b)
  unfolding flip_dir
  flip_dir-Quiet c b q =
      Quiet-if _ a _ _
        (Quiet-if _ a _ b (flip_high-Quiet (turned c) _ (flush_put-Quiet (turned c) b q)) q)
        (flip_high-Quiet c b q)

  flip_low-Quiet : (c : Channel) (b : Adapter) → Quiet a b → Quiet a (flip_low i now c b)
  unfolding flip_low
  flip_low-Quiet c b q =
      Quiet-if _ a _ _
        (Quiet-if _ a _ b (flip_dir-Quiet (lowered c) _ (flush_put-Quiet (lowered c) b q)) q)
        (flip_dir-Quiet c b q)

  pub run_flip-Quiet :
      (c : Channel) (b : Adapter) → Quiet a b → Quiet a (run_flip_scheduler i now c b)
  unfolding run_flip_scheduler
  run_flip-Quiet c b q = Quiet-if _ a b _ q (
      Quiet-if _ a (put_channel i _ b) _ (put-Quiet a i _ b q) (
        Quiet-if _ a _ _ (end_flip-Quiet (record c { dir_bit = c.flip.new_dir_positive }) b q)
          (flip_low-Quiet c b q)))

  pub start_now-Quiet :
      (desired need : Bool) (c : Channel) (b : Adapter)
      → Quiet a b
      → Quiet a (start_now now i desired need c b)
  unfolding start_now
  start_now-Quiet desired need c b q =
      flush_put-Quiet _ _ (
        Quiet-if need a _ b (waits-Quiet a 3 _ (flush_put-Quiet (turned_now desired need c) b q)) q)
