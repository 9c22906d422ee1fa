-- ===== src/Transport.antt =====
-- lib/transport/include/transport/CommandSchema.h and src/CommandSchema.cpp: the lines that answer
-- a command, the catalog of errors, and the status of a response. A text is a list of bytes.
pub mod Events
pub mod Status
pub mod Dispatcher
pub mod Completion
pub mod Lines
use kinetic_mirror_matrix_es.Prelude.{
  ℕ, Bool, true, false, List, [], ◌∷◌, ◌++◌, map, Option, some, none, if◌then◌else◌,
}
use kinetic_mirror_matrix_es.Text.{Bytes, codes, eq_bytes, is_empty}

pub data ResponseLineType : Type 0 where
  ack_line warn_line error_line info_line data_line unknown_line : ResponseLineType

pub record Field : Type 0 where
  pub key : Bytes
  pub value : Bytes

-- The member `tokens` is written nowhere in the modelled code, and left out.
pub record ResponseLine : Type 0 where
  pub type : ResponseLineType
  pub msg_id : Bytes
  pub code : Bytes
  pub reason : Bytes
  pub fields : List Field
  pub raw : Bytes

pub data CompletionStatus : Type 0 where
  ok_status error_status unknown_status : CompletionStatus

-- Every entry of the catalog has the status `kError`; its description is prose, left out.
pub record ErrorDescriptor : Type 0 where
  pub code : Bytes
  pub reason : Option Bytes
  pub status : CompletionStatus

abbrev with_reason : Bytes → Bytes → ErrorDescriptor
with_reason code reason = record { code = code; reason = some reason; status = error_status }

abbrev without_reason : Bytes → ErrorDescriptor
without_reason code = record { code = code; reason = none; status = error_status }

unfoldable pub error_catalog : List ErrorDescriptor
error_catalog =
    with_reason (codes "E01") (codes "BAD_CMD")
    ∷ with_reason (codes "E02") (codes "BAD_ID")
    ∷ with_reason (codes "E03") (codes "BAD_PARAM")
    ∷ with_reason (codes "E04") (codes "BUSY")
    ∷ with_reason (codes "E07") (codes "POS_OUT_OF_RANGE")
    ∷ with_reason (codes "E10") (codes "THERMAL_REQ_GT_MAX")
    ∷ with_reason (codes "E11") (codes "THERMAL_NO_BUDGET")
    ∷ with_reason (codes "E12") (codes "THERMAL_NO_BUDGET_WAKE")
    ∷ without_reason (codes "NET_BAD_PARAM")
    ∷ without_reason (codes "NET_SAVE_FAILED")
    ∷ without_reason (codes "NET_SCAN_AP_ONLY")
    ∷ without_reason (codes "NET_BUSY_CONNECTING")
    ∷ without_reason (codes "NET_CONNECT_FAILED")
    ∷ without_reason (codes "MQTT_BAD_PAYLOAD")
    ∷ without_reason (codes "MQTT_UNSUPPORTED_ACTION")
    ∷ without_reason (codes "MQTT_BAD_PARAM")
    ∷ without_reason (codes "MQTT_CONFIG_SAVE_FAILED")
    ∷ []

unfoldable pub find_code : Bytes → List ErrorDescriptor → Option ErrorDescriptor
find_code code [] = none
find_code code (e ∷ es) = if eq_bytes code e.code then some e else find_code code es

unfoldable pub lookup_error : Bytes → Option ErrorDescriptor
unfolding find_code error_catalog
lookup_error code = find_code code error_catalog

abbrev pub make_control_line : ResponseLineType → Bytes → Bytes → Bytes → List Field → ResponseLine
make_control_line type msg_id code reason fields = record {
  type = type;
  msg_id = msg_id;
  code = code;
  reason = reason;
  fields = fields;
  raw = [];
}

abbrev pub make_ack_line : Bytes → List Field → ResponseLine
make_ack_line msg_id fields = record {
  type = ack_line;
  msg_id = msg_id;
  code = [];
  reason = [];
  fields = fields;
  raw = [];
}

abbrev pub make_warn_line : Bytes → Bytes → Bytes → List Field → ResponseLine
make_warn_line = make_control_line warn_line

abbrev pub make_error_line : Bytes → Bytes → Bytes → List Field → ResponseLine
make_error_line = make_control_line error_line

abbrev pub is_ack : ResponseLine → Bool
is_ack line = elim line.type [ ack_line ↦ true | _ ↦ false ]

abbrev pub is_error_line : ResponseLine → Bool
is_error_line line = elim line.type [ error_line ↦ true | _ ↦ false ]

unfoldable pub find_ack_line : List ResponseLine → Option ResponseLine
find_ack_line [] = none
find_ack_line (line ∷ lines) = if is_ack line then some line else find_ack_line lines

unfoldable pub find_primary_error : List ResponseLine → Option ResponseLine
find_primary_error [] = none
find_primary_error (line ∷ lines) =
    if is_error_line line then some line else find_primary_error lines

abbrev pub error_status_of : ResponseLine → CompletionStatus
error_status_of line =
    if is_empty line.code
    then error_status
    else elim (lookup_error line.code) [ none ↦ error_status | some desc ↦ desc.status ]

unfoldable pub derive_completion_status : List ResponseLine → CompletionStatus
unfolding find_ack_line find_primary_error lookup_error
derive_completion_status lines = elim (find_primary_error lines) [
  | some line ↦ error_status_of line
  | none ↦ elim (find_ack_line lines) [ some line ↦ ok_status | none ↦ unknown_status ]
]
