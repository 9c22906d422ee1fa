-- ===== src/SharedStep/Holds.antt =====
-- What is known of one motor while channels change.
use kinetic_mirror_matrix_es.Prelude.{
  ℕ, zero, suc, ◌≡◌, refl, ap, Bool, true, false, List, [], ◌∷◌, some, if◌then◌else◌, get_elem?,
  set, inl, inr, ◌⊎◌,
}
use kinetic_mirror_matrix_es.SharedStep.{Adapter, Channel, Slot, flush_latch, put_channel}
use kinetic_mirror_matrix_es.SharedStep.Updates.{
  end_flip, flip_dir, flip_high, flip_low, lowered, raised, run_flip_scheduler, turned,
}
use kinetic_mirror_matrix_es.SharedStep.Sound.{flush-channels}

-- The motor of channel i is as P says.
pub record Holds (i : ℕ) (P : Slot → Type 0) (a : Adapter) : Type 0 where
  pub channel : Channel
  pub found : get_elem? a.channels i ≡ some channel
  pub holds : P channel.slot

get-set :
    (cs : List Channel) (i j : ℕ) (c d : Channel)
    → get_elem? cs i ≡ some c
    → ((i ≡ j) × (get_elem? (set cs j d) i ≡ some d)) ⊎ (get_elem? (set cs j d) i ≡ some c)
get-set [] i j c d h = inr h
get-set (x ∷ cs) zero zero c d h = inl (refl, refl)
get-set (x ∷ cs) zero (suc j) c d h = inr h
get-set (x ∷ cs) (suc i) zero c d h = inr h
get-set (x ∷ cs) (suc i) (suc j) c d h = elim (get-set cs i j c d h) [
  | inl (e, f) ↦ inl (ap suc e, f)
  | inr f ↦ inr f
]

module _ (i : ℕ) (P : Slot → Type 0) where
  pub put-Holds :
      (j : ℕ) (d : Channel) (a : Adapter)
      → (i ≡ j → P d.slot)
      → Holds i P a
      → Holds i P (put_channel j d a)
  put-Holds j d a w h = elim (get-set a.channels i j h.channel d h.found) [
    | inl (e, f) ↦ record { channel = d; found = f; holds = w e }
    | inr f ↦ record { channel = h.channel; found = f; holds = h.holds }
  ]

  pub flush-Holds : (a : Adapter) → Holds i P a → Holds i P (flush_latch a)
  flush-Holds a h = record {
    channel = h.channel;
    found = rw (flush-channels a) h.found;
    holds = h.holds;
  }

  pub Holds-if :
      (t : Bool) (b c : Adapter) → Holds i P b → Holds i P c → Holds i P (if t then b else c)
  Holds-if true b c p q = p
  Holds-if false b c p q = q

  pub Holds-cases :
      (b : Bool) (x y : Adapter)
      → (b ≡ true → Holds i P x)
      → (b ≡ false → Holds i P y)
      → Holds i P (if b then x else y)
  Holds-cases true x y p q = p refl
  Holds-cases false x y p q = q refl

  pub flush_put-Holds :
      (j : ℕ) (d : Channel) (a : Adapter)
      → (i ≡ j → P d.slot)
      → Holds i P a
      → Holds i P (flush_latch (put_channel j d a))
  flush_put-Holds j d a w h = flush-Holds _ (put-Holds j d a w h)

-- A property of a motor that does not ask whether it is awake.
module _ (i : ℕ) (P : Slot → Type 0)
    (free : (s : Slot) (b : Bool) → P s → P (record s { awake = b })) (j now : ℕ) where
  end_flip-Holds :
      (c : Channel) (a : Adapter) → (i ≡ j → P c.slot) → Holds i P a → Holds i P (end_flip j c a)
  unfolding end_flip
  end_flip-Holds c a w h = flush_put-Holds i P j (raised c) a (λ e. free c.slot true (w e)) h

  flip_high-Holds :
      (c : Channel) (a : Adapter)
      → (i ≡ j → P c.slot)
      → Holds i P a
      → Holds i P (flip_high j now c a)
  unfolding flip_high
  flip_high-Holds c a w h = Holds-if i P _ _ a (end_flip-Holds c a w h) h

  flip_dir-Holds :
      (c : Channel) (a : Adapter)
      → (i ≡ j → P c.slot)
      → Holds i P a
      → Holds i P (flip_dir j now c a)
  unfolding flip_dir
  flip_dir-Holds c a w h =
      Holds-if i P _ _ _
        (Holds-if i P _ _ a
          (flip_high-Holds (turned c) _ w (flush_put-Holds i P j (turned c) a w h)) h)
        (flip_high-Holds c a w h)

  flip_low-Holds :
      (c : Channel) (a : Adapter)
      → (i ≡ j → P c.slot)
      → Holds i P a
      → Holds i P (flip_low j now c a)
  unfolding flip_low
  flip_low-Holds c a w h =
      Holds-if i P _ _ _
        (Holds-if i P _ _ a
          (flip_dir-Holds (lowered c) _ w (flush_put-Holds i P j (lowered c) a w h)) h)
        (flip_dir-Holds c a w h)

  pub run_flip-Holds :
      (c : Channel) (a : Adapter)
      → (i ≡ j → P c.slot)
      → Holds i P a
      → Holds i P (run_flip_scheduler j now c a)
  unfolding run_flip_scheduler
  run_flip-Holds c a w h = Holds-if i P _ a _ h (
      Holds-if i P _ _ _ (put-Holds i P j _ a w h) (
        Holds-if i P _ _ _ (end_flip-Holds (record c { dir_bit = c.flip.new_dir_positive }) a w h)
          (flip_low-Holds c a w h)))
