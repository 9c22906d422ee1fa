-- ===== src/Transport/Lines.antt =====
-- lib/transport/src/CommandSchema.cpp: the text of a line and of a response, as the serial console
-- prints them, and the lines with warnings.
use kinetic_mirror_matrix_es.Prelude.{Bool, true, false, List, [], ◌∷◌, ◌++◌, if◌then◌else◌}
use kinetic_mirror_matrix_es.Text.{Bytes, codes, is_empty}
use kinetic_mirror_matrix_es.Transport.{
  Field, ResponseLine, ResponseLineType, ack_line, data_line, error_line, info_line,
  make_control_line, unknown_line, warn_line,
}

abbrev pub make_info_line : Bytes → Bytes → Bytes → List Field → ResponseLine
make_info_line = make_control_line info_line

abbrev pub make_data_line : List Field → ResponseLine
make_data_line fields = record {
  type = data_line;
  msg_id = [];
  code = [];
  reason = [];
  fields = fields;
  raw = [];
}

abbrev is_warning : ResponseLine → Bool
is_warning line = elim line.type [ warn_line ↦ true | _ ↦ false ]

unfoldable pub collect_warnings : List ResponseLine → List ResponseLine
collect_warnings [] = []
collect_warnings (line ∷ lines) =
    let rest = collect_warnings lines in if is_warning line then line ∷ rest else rest

abbrev show_field : Field → Bytes
show_field f = f.key ++ (b'=' ∷ f.value)

-- Each field behind a blank.
unfoldable pub spaced_fields : List Field → Bytes
spaced_fields [] = []
spaced_fields (f ∷ fs) = b' ' ∷ (show_field f ++ spaced_fields fs)

-- The fields with a blank between them.
abbrev joined_fields : List Field → Bytes
joined_fields [] = []
joined_fields (f ∷ fs) = show_field f ++ spaced_fields fs

abbrev spaced : Bytes → Bytes
spaced [] = []
spaced (c ∷ s) = b' ' ∷ c ∷ s

abbrev shown_id : Bytes → Bytes
shown_id msg_id = if is_empty msg_id then [] else codes " msg_id=" ++ msg_id

-- The three kinds of line with a code and a reason differ in their first word.
unfoldable pub control_text : Bytes → ResponseLine → Bytes
unfolding spaced_fields
control_text word line =
    word
    ++ (shown_id line.msg_id
        ++ (spaced line.code ++ (spaced line.reason ++ spaced_fields line.fields)))

unfoldable pub text_by_type : ResponseLineType → ResponseLine → Bytes
unfolding control_text spaced_fields
text_by_type ack_line line = codes "CTRL:ACK" ++ (shown_id line.msg_id ++ spaced_fields line.fields)
text_by_type warn_line line = control_text (codes "CTRL:WARN") line
text_by_type error_line line = control_text (codes "CTRL:ERR") line
text_by_type info_line line = control_text (codes "CTRL:INFO") line
text_by_type data_line line = joined_fields line.fields
text_by_type unknown_line line = joined_fields line.fields

unfoldable pub serialize_line : ResponseLine → Bytes
unfolding text_by_type
serialize_line line = if is_empty line.raw then text_by_type line.type line else line.raw

-- The lines after the first, each behind a newline.
unfoldable pub later_lines : List ResponseLine → Bytes
unfolding serialize_line
later_lines [] = []
later_lines (line ∷ lines) = b'\n' ∷ (serialize_line line ++ later_lines lines)

unfoldable pub format_serial_response : List ResponseLine → Bytes
unfolding later_lines
format_serial_response [] = []
format_serial_response (line ∷ lines) = serialize_line line ++ later_lines lines
