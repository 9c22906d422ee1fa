-- ===== src/Transport/Completion/Once.antt =====
-- The tracker sends the DONE of an operation once.
use kinetic_mirror_matrix_es.Prelude.{
  ℕ, ◌==◌, ◌≡◌, refl, sym, subst, Bool, false, ◌||◌, List, [], ◌∷◌, ◌++◌, arith, Bool-cases, inl,
  inr,
}
use kinetic_mirror_matrix_es.Text.{Bytes, eq_bytes, is_empty}
use kinetic_mirror_matrix_es.Transport.Dispatcher.{ResponseDispatcher, emit}
use kinetic_mirror_matrix_es.Transport.Completion.{
  Pending, View, Fate, drop_entry, keep_entry, finish, fate, done_of, tick, without_cmd,
  register_operation, remove_controller, points_to,
}

pub Fate-cases :
    {P : Type 0} (f : Fate)
    → (f ≡ drop_entry → P)
    → (f ≡ keep_entry → P)
    → ((ms : ℕ) → f ≡ finish ms → P)
    → P
Fate-cases drop_entry d k s = d refl
Fate-cases keep_entry d k s = k refl
Fate-cases (finish ms) d k s = s ms refl

pub tick-keep :
    (look : ℕ → View) (p : Pending) (ps : List Pending) (d : ResponseDispatcher)
    → fate look p ≡ keep_entry
    → tick look (p ∷ ps) d ≡ (p ∷ (tick look ps d).0, (tick look ps d).1)
unfolding tick
tick-keep look p ps d kept = rw (kept, tick) refl

-- An entry of the command.
abbrev pub has_cmd : Bytes → List Pending → Bool
has_cmd c [] = false
has_cmd c (p ∷ ps) = eq_bytes p.cmd_id c || has_cmd c ps

-- Each command has one entry at most.
abbrev pub Distinct : List Pending → Type 0
Distinct [] = Unit
Distinct (p ∷ ps) = (has_cmd p.cmd_id ps ≡ false) × Distinct ps

-- Some of the entries of a list, in its order.
data Sub : List Pending → List Pending → Type 0 where
  sub_nil : Sub [] []
  sub_skip : {qs ps : List Pending} (p : Pending) → Sub qs ps → Sub qs (p ∷ ps)
  sub_keep : {qs ps : List Pending} (p : Pending) → Sub qs ps → Sub (p ∷ qs) (p ∷ ps)

Sub-has_cmd :
    (c : Bytes) {qs ps : List Pending} → Sub qs ps → has_cmd c ps ≡ false → has_cmd c qs ≡ false
Sub-has_cmd c sub_nil h = refl
Sub-has_cmd c (sub_skip p s) h = Sub-has_cmd c s (ground arith)
Sub-has_cmd c (sub_keep p s) h = let rest = Sub-has_cmd c s (ground arith) in ground arith

Sub-Distinct : {qs ps : List Pending} → Sub qs ps → Distinct ps → Distinct qs
Sub-Distinct sub_nil h = tt
Sub-Distinct (sub_skip p s) h = Sub-Distinct s h.1
Sub-Distinct (sub_keep p s) h = (Sub-has_cmd p.cmd_id s h.0, Sub-Distinct s h.1)

without_cmd-Sub : (c : Bytes) (ps : List Pending) → Sub (without_cmd c ps) ps
unfolding without_cmd
without_cmd-Sub c [] = sub_nil
without_cmd-Sub c (p ∷ ps) = elim (Bool-cases (eq_bytes p.cmd_id c)) [
  | inl same ↦ rw (same, without_cmd) (sub_skip p (without_cmd-Sub c ps))
  | inr other ↦ rw (other, without_cmd) (sub_keep p (without_cmd-Sub c ps))
]

remove_controller-Sub : (c : ℕ) (ps : List Pending) → Sub (remove_controller c ps) ps
unfolding remove_controller
remove_controller-Sub c [] = sub_nil
remove_controller-Sub c (p ∷ ps) = elim (Bool-cases (points_to c p.controller)) [
  | inl same ↦ rw (same, remove_controller) (sub_skip p (remove_controller-Sub c ps))
  | inr other ↦ rw (other, remove_controller) (sub_keep p (remove_controller-Sub c ps))
]

tick-Sub :
    (look : ℕ → View) (ps : List Pending) (d : ResponseDispatcher) → Sub (tick look ps d).0 ps
unfolding tick
tick-Sub look [] d = sub_nil
tick-Sub look (p ∷ ps) d =
    Fate-cases (fate look p) (λ dropped. rw (dropped, tick) (sub_skip p (tick-Sub look ps d)))
      (λ kept.
        subst (λ r. Sub r.0 (p ∷ ps)) (sym (tick-keep look p ps d kept))
          (sub_keep p (tick-Sub look ps d)))
      (λ ms done. rw (done, tick) (sub_skip p (tick-Sub look ps (emit (done_of p ms) d))))

eq_bytes_comm : (s t : Bytes) → eq_bytes s t ≡ eq_bytes t s
eq_bytes_comm [] [] = refl
eq_bytes_comm [] (d ∷ t) = refl
eq_bytes_comm (c ∷ s) [] = refl
eq_bytes_comm (c ∷ s) (d ∷ t) = let rest = eq_bytes_comm s t in ground arith

without_cmd-gone : (c : Bytes) (ps : List Pending) → has_cmd c (without_cmd c ps) ≡ false
unfolding without_cmd
without_cmd-gone c [] = refl
without_cmd-gone c (p ∷ ps) = elim (Bool-cases (eq_bytes p.cmd_id c)) [
  | inl same ↦ rw (same, without_cmd) (without_cmd-gone c ps)
  | inr other ↦ rw (other, without_cmd, other) (without_cmd-gone c ps)
]

has_cmd-last :
    (c : Bytes) (ps : List Pending) (n : Pending)
    → has_cmd c ps ≡ false
    → eq_bytes n.cmd_id c ≡ false
    → has_cmd c (ps ++ (n ∷ [])) ≡ false
has_cmd-last c [] n h e = ground arith
has_cmd-last c (p ∷ ps) n h e = let rest = has_cmd-last c ps n (ground arith) e in ground arith

last-Distinct :
    (ps : List Pending) (n : Pending)
    → has_cmd n.cmd_id ps ≡ false
    → Distinct ps
    → Distinct (ps ++ (n ∷ []))
last-Distinct [] n h k = (refl, tt)
last-Distinct (p ∷ ps) n h k =
    let apart = eq_bytes_comm n.cmd_id p.cmd_id in
    (has_cmd-last p.cmd_id ps n k.0 (ground arith), last-Distinct ps n (ground arith) k.1)

-- The calls of a tracker.
pub data Call : Type 0 where
  registers : Bytes → Bytes → ℕ → ℕ → Call
  ticks : (ℕ → View) → Call
  removes : ℕ → Call
  clears : Call

abbrev pub State : Type 0
State = List Pending × ResponseDispatcher

abbrev pub step : Call → State → State
step (registers cmd_id action mask c) (ps, d) = (register_operation cmd_id action mask c ps, d)
step (ticks look) (ps, d) = tick look ps d
step (removes c) (ps, d) = (remove_controller c ps, d)
step clears (ps, d) = ([], d)

abbrev pub run : List Call → State → State
run [] s = s
run (c ∷ cs) s = run cs (step c s)

register-Distinct :
    (cmd_id action : Bytes) (mask c : ℕ) (ps : List Pending)
    → Distinct ps
    → Distinct (register_operation cmd_id action mask c ps)
unfolding register_operation
register-Distinct cmd_id action mask c ps h = elim (Bool-cases (is_empty cmd_id || mask == 0)) [
  | inl nothing ↦ rw (nothing, register_operation) h
  | inr something ↦
      rw (something, register_operation)
        (last-Distinct (without_cmd cmd_id ps) _ (without_cmd-gone cmd_id ps)
          (Sub-Distinct (without_cmd-Sub cmd_id ps) h))
]

step-Distinct : (c : Call) (s : State) → Distinct s.0 → Distinct (step c s).0
step-Distinct (registers cmd_id action mask c) s h = register-Distinct cmd_id action mask c s.0 h
step-Distinct (ticks look) s h = Sub-Distinct (tick-Sub look s.0 s.1) h
step-Distinct (removes c) s h = Sub-Distinct (remove_controller-Sub c s.0) h
step-Distinct clears s h = tt

run-Distinct : (cs : List Call) (s : State) → Distinct s.0 → Distinct (run cs s).0
run-Distinct [] s h = h
run-Distinct (c ∷ cs) s h = run-Distinct cs (step c s) (step-Distinct c s h)

-- Whatever the calls of a tracker that starts empty, no two of its entries are of one command.
pub run-empty-Distinct : (cs : List Call) (d : ResponseDispatcher) → Distinct (run cs ([], d)).0
run-empty-Distinct cs d = run-Distinct cs ([], d) tt
