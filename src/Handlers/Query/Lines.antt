-- ===== src/Handlers/Query/Lines.antt =====
-- lib/MotorControl/src/command/CommandHandlers.cpp: the texts and the lines of STATUS, GET and HELP.
use kinetic_mirror_matrix_es.Prelude.{
  ℕ, suc, ◌+◌, ◌/◌, ◌%◌, Bool, List, [], ◌∷◌, ◌++◌, Option, some, none, ◌==◌, if◌then◌else◌,
}
use kinetic_mirror_matrix_es.Prelude.Int.{ℤ, pos, negsuc, pos_part, neg_part, ltb_ℤ}
use kinetic_mirror_matrix_es.Motor.{MotorState}
use kinetic_mirror_matrix_es.StatusPublisher.{ttfc_tenths}
use kinetic_mirror_matrix_es.Text.{Bytes, codes, to_string}
use kinetic_mirror_matrix_es.Transport.{Field, ResponseLine, data_line, info_line, make_ack_line}

abbrev pub field : Bytes → Bytes → Field
field key value = record { key = key; value = value }

-- `std::to_string` of an integer.
abbrev pub show_int : ℤ → Bytes
show_int (pos n) = to_string n
show_int (negsuc n) = b'-' ∷ to_string (n + 1)

unfoldable pub format_tenths : ℕ → Bytes
format_tenths tenths = to_string (tenths / 10) ++ (b'.' ∷ to_string (tenths % 10))

unfoldable pub format_signed_tenths : ℤ → Bytes
format_signed_tenths tenths =
    (if ltb_ℤ tenths (pos 0) then b'-' ∷ [] else [])
    ++ format_tenths (pos_part tenths + neg_part tenths)

abbrev pub bool_to_flag : Bool → Bytes
bool_to_flag value = if value then codes "1" else codes "0"

abbrev pub plain_line : ResponseLine
plain_line = make_ack_line [] []

-- The text before the first byte `c`, and the text behind it.
unfoldable pub cut_at : ℕ → Bytes → Option (Bytes × Bytes)
cut_at c [] = none
cut_at c (d ∷ s) =
    if d == c
    then some ([], s)
    else elim (cut_at c s) [ none ↦ none | some (before, after) ↦ some (d ∷ before, after) ]

abbrev pub timing_fields : MotorState → List Field
timing_fields m =
    field (codes "est_ms") (to_string m.last_op_est_ms)
    ∷ field (codes "started_ms") (to_string m.last_op_started_ms)
    ∷ (if m.last_op_ongoing
        then []
        else field (codes "actual_ms") (to_string m.last_op_last_ms) ∷ [])

-- A line of STATUS.
unfoldable pub status_line : MotorState → ResponseLine
status_line m = record plain_line {
  type = data_line;
  fields =
      field (codes "id") (to_string m.id)
      ∷ field (codes "pos") (show_int m.position)
      ∷ field (codes "moving") (bool_to_flag m.moving)
      ∷ field (codes "awake") (bool_to_flag m.awake)
      ∷ field (codes "homed") (bool_to_flag m.homed)
      ∷ field (codes "steps_since_home") (to_string m.steps_since_home)
      ∷ field (codes "budget_s") (format_signed_tenths m.budget_tenths)
      ∷ field (codes "ttfc_s") (format_tenths (ttfc_tenths m))
      ∷ field (codes "speed") (show_int m.speed)
      ∷ field (codes "accel") (show_int m.accel)
      ∷ timing_fields m;
}

-- The motors from id i on.
abbrev pub status_lines : List MotorState → List ResponseLine
status_lines [] = []
status_lines (m ∷ motors) = status_line m ∷ status_lines motors

-- A line of GET LAST_OP_TIMING.
abbrev pub timing_line : ℕ → MotorState → ResponseLine
timing_line i m = record plain_line {
  type = data_line;
  fields =
      field (codes "id") (to_string i)
      ∷ field (codes "ongoing") (bool_to_flag m.last_op_ongoing)
      ∷ timing_fields m;
}

abbrev pub timing_lines : ℕ → List MotorState → List ResponseLine
timing_lines i [] = []
timing_lines i (m ∷ motors) = timing_line i m ∷ timing_lines (suc i) motors

abbrev pub help_lines : List Bytes → List ResponseLine
help_lines [] = []
help_lines (text ∷ texts) = record plain_line { type = info_line; raw = text } ∷ help_lines texts
