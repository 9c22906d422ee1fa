-- ===== src/Batch.antt =====
-- lib/MotorControl/src/command/CommandBatchExecutor.cpp and CommandRouter.cpp: the commands of one
-- line, run one after the other by the first handler that knows their action. The handlers are a
-- parameter.
pub mod Outcome
use kinetic_mirror_matrix_es.Prelude.{
  ℕ, ◌-◌, ◌+◌, ◌*◌, ◌%◌, ◌^◌, ◌==◌, Bool, true, false, not, ◌&&◌, ◌||◌, List, [], ◌∷◌, ◌++◌, Option,
  some, none, ltb, length, if◌then◌else◌,
}
use Prim.Native.Nat.{bit_and, bit_or}
use kinetic_mirror_matrix_es.Controller.{MotorController}
use kinetic_mirror_matrix_es.Text.{
  Bytes, codes, drop_spaces, eq_bytes, is_empty, parse_id_mask, read_digits, split,
  starts_with_digit, to_string, trim,
}
use kinetic_mirror_matrix_es.Commands.{ParsedCommand}
use kinetic_mirror_matrix_es.Transport.{Field, ResponseLine, is_ack, make_ack_line, make_error_line}
use kinetic_mirror_matrix_es.Handlers.{CommandResult, Context, emit_line, failed, issue}
use kinetic_mirror_matrix_es.Handlers.Motion.{any_moving}

-- The sign and the digits of `std::stoul`, with a 32-bit `unsigned long`; it throws where there is
-- no digit, and where the number is out of range.
abbrev unsigned : Bool → Bytes → Option ℕ
unsigned negative s =
    if starts_with_digit s
    then (let (n, rest) = read_digits 0 s in
        if ltb n (2 ^ 32) then some (if negative then (2 ^ 32 - n) % 2 ^ 32 else n) else none)
    else none

unfoldable stoul_sign : Bytes → Option ℕ
unfolding read_digits
stoul_sign [] = none
stoul_sign (c ∷ s) =
    if c == b'-'
    then unsigned true s
    else if c == b'+'
    then unsigned false s
    else unsigned false (c ∷ s)

unfoldable pub extract_uint_field : List Field → Bytes → Option ℕ
unfolding stoul_sign drop_spaces
extract_uint_field [] key = none
extract_uint_field (f ∷ fs) key =
    let rest = extract_uint_field fs key in
    if eq_bytes f.key key then stoul_sign (drop_spaces f.value) else rest

abbrev takes_list : Bytes → Bool
takes_list action =
    eq_bytes action (codes "MOVE")
    || eq_bytes action (codes "M")
    || eq_bytes action (codes "HOME")
    || eq_bytes action (codes "H")

unfoldable pub is_motion_action : Bytes → Bool
is_motion_action action =
    takes_list action || eq_bytes action (codes "WAKE") || eq_bytes action (codes "SLEEP")

abbrev mask_or_zero : Option ℕ → ℕ
mask_or_zero none = 0
mask_or_zero (some mask) = mask

abbrev first_part_mask : ℕ → List Bytes → ℕ
first_part_mask n [] = 0
first_part_mask n (p ∷ ps) = mask_or_zero (parse_id_mask (trim p) n)

unfoldable pub mask_for : ℕ → ParsedCommand → ℕ
unfolding is_motion_action parse_id_mask split trim
mask_for motor_count command =
    if not (is_motion_action command.action)
    then 0
    else if takes_list command.action
    then first_part_mask motor_count (split (trim command.args) b',')
    else mask_or_zero (parse_id_mask (trim command.args) motor_count)

-- The loop that detects an overlap.
unfoldable pub overlap : ℕ → ℕ → List ParsedCommand → Bool
unfolding mask_for
overlap motor_count seen [] = false
overlap motor_count seen (c ∷ cs) =
    let mask = mask_for motor_count c in
    not (mask == 0) && not (bit_and mask seen == 0) || overlap motor_count (bit_or seen mask) cs

pub record Handler (ctl : MotorController) : Type 0 where
  pub can_handle : Bytes → Bool
  pub execute : ParsedCommand → ℕ → Context ctl → CommandResult × Context ctl

-- The lines so far, and the largest estimate of an ACK.
pub record Aggregate : Type 0 where
  pub lines : List ResponseLine
  pub est_ms : Option ℕ

abbrev max_est : Option ℕ → ℕ → ℕ
max_est none value = value
max_est (some est) value = if ltb est value then value else est

unfoldable pub add_lines : Aggregate → List ResponseLine → Aggregate
unfolding extract_uint_field
add_lines g [] = g
add_lines g (line ∷ lines) =
    elim (if is_ack line then extract_uint_field line.fields (codes "est_ms") else none) [
      | some value ↦ add_lines (record g { est_ms = some (max_est g.est_ms value) }) lines
      | none ↦ add_lines (record g { lines = g.lines ++ (line ∷ []) }) lines
    ]

module _ (ctl : MotorController) (next_id : ℕ → Bytes) where
  unfoldable pub knows_action : List (Handler ctl) → Bytes → Bool
  knows_action [] action = false
  knows_action (h ∷ hs) action = h.can_handle action || knows_action hs action

  -- `MakeErrorResult`, with a fresh id.
  unfoldable pub make_error_result :
      Bytes → Bytes → Bytes → Context ctl → CommandResult × Context ctl
  unfolding emit_line
  make_error_result code reason action x =
      let line = make_error_line (next_id x.issued) code reason [] in
      (failed line, emit_line ctl action line (issue ctl x))

  unfoldable pub dispatch :
      List (Handler ctl) → ParsedCommand → ℕ → Context ctl → CommandResult × Context ctl
  unfolding make_error_result
  dispatch [] command now_ms x = make_error_result (codes "E01") (codes "BAD_CMD") command.action x
  dispatch (h ∷ hs) command now_ms x = elim (h.can_handle command.action) [
    | true ↦ h.execute command now_ms x
    | false ↦ dispatch hs command now_ms x
  ]

  -- The first command whose action no handler knows.
  unfoldable pub first_unknown : List (Handler ctl) → List ParsedCommand → Option Bytes
  unfolding knows_action
  first_unknown hs [] = none
  first_unknown hs (c ∷ cs) =
      let rest = first_unknown hs cs in if knows_action hs c.action then rest else some c.action

  abbrev pub set_batch_state : Bool → Bool → Context ctl → Context ctl
  set_batch_state in_batch initially_idle x = record x {
    in_batch = in_batch;
    batch_initially_idle = initially_idle;
  }

  -- `if (saw_est)`
  unfoldable pub finish_batch : Aggregate → Context ctl → CommandResult × Context ctl
  unfolding emit_line to_string
  finish_batch g x = elim g.est_ms [
    | none ↦ (record { is_error = false; lines = g.lines }, x)
    | some est ↦
        let line =
          make_ack_line (next_id x.issued)
            (record { key = codes "est_ms"; value = to_string est } ∷ []) in
        (
          record { is_error = false; lines = g.lines ++ (line ∷ []) },
          emit_line ctl [] line (issue ctl x),
        )
  ]

  -- The loop over the commands, and what follows it; the two flags are the batch state to restore.
  unfoldable pub run_commands :
      List (Handler ctl)
      → Bool
      → Bool
      → ℕ
      → Aggregate
      → List ParsedCommand
      → Context ctl
      → CommandResult × Context ctl
  unfolding dispatch add_lines finish_batch
  run_commands hs prev idle now_ms g [] x = finish_batch g (set_batch_state prev idle x)
  run_commands hs prev idle now_ms g (c ∷ cs) x =
      let (result, y) = dispatch hs c now_ms x in
      elim result.is_error [
        | true ↦ (result, set_batch_state prev idle y)
        | false ↦ run_commands hs prev idle now_ms (add_lines g result.lines) cs y
      ]

  unfoldable pub execute :
      List (Handler ctl) → List ParsedCommand → ℕ → Context ctl → CommandResult × Context ctl
  unfolding overlap first_unknown make_error_result run_commands any_moving
  execute hs commands now_ms x =
      let motors = ctl.motors x.controller in
      if overlap (length motors) 0 commands
      then make_error_result (codes "E03") (codes "BAD_PARAM MULTI_CMD_CONFLICT") [] x
      else elim (first_unknown hs commands) [
        | some action ↦ make_error_result (codes "E01") (codes "BAD_CMD") action x
        | none ↦
            run_commands hs x.in_batch x.batch_initially_idle now_ms
              (record { lines = []; est_ms = none }) commands
              (set_batch_state true (not (any_moving motors)) x)
      ]
