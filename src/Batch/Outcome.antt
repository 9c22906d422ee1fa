-- ===== src/Batch/Outcome.antt =====
-- What a batch leaves behind on each of its paths.
use kinetic_mirror_matrix_es.Prelude.{
  ℕ, zero, suc, ◌≡◌, refl, sym, ◌∙◌, Bool, true, false, not, List, [], ◌∷◌, some, none, arith,
  length, get_elem?, Bool-cases, Option-cases, inl, inr,
}
use mathlib.Core.Bool.{false≢true}
use kinetic_mirror_matrix_es.Controller.{MotorController}
use kinetic_mirror_matrix_es.Text.{Bytes}
use kinetic_mirror_matrix_es.Commands.{ParsedCommand}
use kinetic_mirror_matrix_es.Handlers.{Context, emit_line}
use kinetic_mirror_matrix_es.Handlers.Motion.{any_moving}
use kinetic_mirror_matrix_es.Batch.{
  Aggregate, Handler, add_lines, dispatch, execute, finish_batch, first_unknown, knows_action,
  make_error_result, overlap, run_commands, set_batch_state,
}

module _ (ctl : MotorController) (next_id : ℕ → Bytes) where
  finish_batch-state :
      (g : Aggregate) (x : Context ctl)
      → ((finish_batch ctl next_id g x).1.in_batch ≡ x.in_batch)
        × ((finish_batch ctl next_id g x).1.batch_initially_idle ≡ x.batch_initially_idle)
  unfolding finish_batch emit_line
  finish_batch-state g x = elim (Option-cases g.est_ms) [
    | inl unseen ↦ rw (unseen, finish_batch) (refl, refl)
    | inr (est, seen) ↦ rw (seen, finish_batch) (refl, refl)
  ]

  run_commands-state :
      (hs : List (Handler ctl)) (prev idle : Bool) (now_ms : ℕ) (g : Aggregate)
      (cs : List ParsedCommand) (x : Context ctl)
      → ((run_commands ctl next_id hs prev idle now_ms g cs x).1.in_batch ≡ prev)
        × ((run_commands ctl next_id hs prev idle now_ms g cs x).1.batch_initially_idle ≡ idle)
  unfolding run_commands
  run_commands-state hs prev idle now_ms g [] x =
      finish_batch-state g (set_batch_state ctl next_id prev idle x)
  run_commands-state hs prev idle now_ms g (c ∷ cs) x =
      elim (Bool-cases (dispatch ctl next_id hs c now_ms x).0.is_error) [
        | inl bad ↦ rw (bad, run_commands) (refl, refl)
        | inr ok ↦
            rw (ok, run_commands)
              (run_commands-state hs prev idle now_ms
                (add_lines g (dispatch ctl next_id hs c now_ms x).0.lines) cs
                (dispatch ctl next_id hs c now_ms x).1)
      ]

  -- A batch leaves the batch state as it found it, on every path and whatever its handlers do:
  -- after a conflict, an unknown action, a command that fails and a batch that runs to its end.
  pub execute-restores :
      (hs : List (Handler ctl)) (cs : List ParsedCommand) (now_ms : ℕ) (x : Context ctl)
      → ((execute ctl next_id hs cs now_ms x).1.in_batch ≡ x.in_batch)
        × ((execute ctl next_id hs cs now_ms x).1.batch_initially_idle ≡ x.batch_initially_idle)
  unfolding execute make_error_result emit_line
  execute-restores hs cs now_ms x =
      elim (Bool-cases (overlap (length (ctl.motors x.controller)) 0 cs)) [
        | inl clash ↦ rw (clash, execute) (refl, refl)
        | inr apart ↦ elim (Option-cases (first_unknown ctl next_id hs cs)) [
          | inr (action, unknown) ↦ rw (apart, unknown, execute) (refl, refl)
          | inl known ↦
              rw (apart, known, execute)
                (run_commands-state hs x.in_batch x.batch_initially_idle now_ms
                  (record { lines = []; est_ms = none }) cs
                  (set_batch_state ctl next_id true (not (any_moving (ctl.motors x.controller))) x))
        ]
      ]

  first_unknown-none :
      (hs : List (Handler ctl)) (cs : List ParsedCommand) (i : ℕ) {c : ParsedCommand}
      → first_unknown ctl next_id hs cs ≡ none
      → get_elem? cs i ≡ some c
      → knows_action ctl next_id hs c.action ≡ true
  unfolding first_unknown
  first_unknown-none hs [] i n at = cc
  first_unknown-none hs (d ∷ cs) zero n at = ground arith
  first_unknown-none hs (d ∷ cs) (suc i) n at = first_unknown-none hs cs i (ground arith) at

  -- A batch with a command whose action no handler knows, at any place, is an error, and leaves
  -- the controller and the pending operations as they are: no command before it is run either.
  pub execute-unknown :
      (hs : List (Handler ctl)) (cs : List ParsedCommand) (now_ms : ℕ) (x : Context ctl) (i : ℕ)
      {c : ParsedCommand}
      → get_elem? cs i ≡ some c
      → knows_action ctl next_id hs c.action ≡ false
      → ((execute ctl next_id hs cs now_ms x).0.is_error ≡ true)
        × ((execute ctl next_id hs cs now_ms x).1.controller ≡ x.controller)
        × ((execute ctl next_id hs cs now_ms x).1.pending ≡ x.pending)
  unfolding execute make_error_result emit_line
  execute-unknown hs cs now_ms x i at stranger =
      elim (Bool-cases (overlap (length (ctl.motors x.controller)) 0 cs)) [
        | inl clash ↦ rw (clash, execute) (refl, refl, refl)
        | inr apart ↦ elim (Option-cases (first_unknown ctl next_id hs cs)) [
          | inr (action, unknown) ↦ rw (apart, unknown, execute) (refl, refl, refl)
          | inl known ↦ absurd (false≢true (sym stranger ∙ first_unknown-none hs cs i known at))
        ]
      ]
