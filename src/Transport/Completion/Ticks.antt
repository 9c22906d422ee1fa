-- ===== src/Transport/Completion/Ticks.antt =====
-- lib/transport/src/CompletionTracker.cpp, `Tick`: the DONE events of a tick and the entries it keeps.
use kinetic_mirror_matrix_es.Prelude.{ℕ, ◌≡◌, ◌⊎◌, Bool, true, false, List, [], ◌∷◌, some, none}
use kinetic_mirror_matrix_es.Prelude.Int.{pos, negsuc, pos_part, ltb_ℤ}
use kinetic_mirror_matrix_es.Transport.Events.{Event}
use kinetic_mirror_matrix_es.Transport.Dispatcher.{ResponseDispatcher, emit}
use kinetic_mirror_matrix_es.Transport.Completion.{
  Pending, View, Fate, actual_from, drop_entry, keep_entry, finish, done_of,
}

-- The events, emitted one after the other.
abbrev pub emit_all : List Event → ResponseDispatcher → ResponseDispatcher
emit_all [] d = d
emit_all (e ∷ es) d = emit_all es (emit e d)

-- The entry names no controller, or is not active.
abbrev pub Dead : Pending → Type 0
Dead p = (p.controller ≡ none) ⊎ (p.active ≡ false)

-- No motor of the entry has a finished operation with a duration.
abbrev pub untimed : View → Pending → Bool
untimed v p = ltb_ℤ (actual_from 0 p.mask (negsuc 0) v.motors) (pos 0)

-- The longest duration of an operation that a motor of the entry has finished.
abbrev pub duration : View → Pending → ℕ
duration v p = pos_part (actual_from 0 p.mask (negsuc 0) v.motors)

-- The entries before a tick, those after it, and what it sends.
pub data Ticked (look : ℕ → View) : List Pending → List Pending → List Event → Type 0 where
  nothing : Ticked look [] [] []
  dropped :
      {p : Pending} {ps ks : List Pending} {es : List Event}
      → Dead p
      → Ticked look ps ks es
      → Ticked look (p ∷ ps) ks es
  waits :
      {p : Pending} {ps ks : List Pending} {es : List Event} (c : ℕ)
      → p.controller ≡ some c
      → p.active ≡ true
      → ((look c).moving p.mask ≡ true) ⊎ (untimed (look c) p ≡ true)
      → Ticked look ps ks es
      → Ticked look (p ∷ ps) (p ∷ ks) es
  sends :
      {p : Pending} {ps ks : List Pending} {es : List Event} (c : ℕ)
      → p.controller ≡ some c
      → p.active ≡ true
      → (look c).moving p.mask ≡ false
      → untimed (look c) p ≡ false
      → Ticked look ps ks es
      → Ticked look (p ∷ ps) ks (done_of p (duration (look c) p) ∷ es)

-- What a tick does with an entry, by the reasons for it.
data Reason (look : ℕ → View) (p : Pending) : Fate → Type 0 where
  dead : Dead p → Reason look p drop_entry
  busy :
      (c : ℕ)
      → p.controller ≡ some c
      → p.active ≡ true
      → ((look c).moving p.mask ≡ true) ⊎ (untimed (look c) p ≡ true)
      → Reason look p keep_entry
  over :
      (c : ℕ)
      → p.controller ≡ some c
      → p.active ≡ true
      → (look c).moving p.mask ≡ false
      → untimed (look c) p ≡ false
      → Reason look p (finish (duration (look c) p))
