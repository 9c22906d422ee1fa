-- ===== src/Transport/Events.antt =====
-- lib/transport/include/transport/ResponseModel.h and src/ResponseModel.cpp: the events that are
-- sent to the transports, and their passage from and to the lines of a response. A `std::map` is
-- a list of entries in the order of their keys.
use kinetic_mirror_matrix_es.Prelude.{
  Bool, true, false, ◌||◌, List, [], ◌∷◌, ◌++◌, Option, some, none, if◌then◌else◌,
}
use kinetic_mirror_matrix_es.Text.{Bytes, codes, eq_bytes, is_empty, less_bytes}
use kinetic_mirror_matrix_es.Transport.{
  Field, ResponseLine, ResponseLineType, ack_line, warn_line, error_line, info_line, data_line,
  unknown_line,
}

pub data EventType : Type 0 where
  ack_event done_event warn_event error_event info_event data_event : EventType

pub record Event : Type 0 where
  pub type : EventType
  pub cmd_id : Bytes
  pub action : Bytes
  pub code : Bytes
  pub reason : Bytes
  pub raw : Bytes
  pub attributes : List Field

abbrev map_line_type : ResponseLineType → EventType
map_line_type ack_line = ack_event
map_line_type warn_line = warn_event
map_line_type error_line = error_event
map_line_type info_line = info_event
map_line_type data_line = data_event
map_line_type unknown_line = info_event

-- `out[key] = value` of a `std::map`.
unfoldable pub assign : Bytes → Bytes → List Field → List Field
assign k v [] = record { key = k; value = v } ∷ []
assign k v (f ∷ fs) =
    let rest = assign k v fs in
    if less_bytes k f.key
    then record { key = k; value = v } ∷ f ∷ fs
    else if eq_bytes k f.key
    then record { key = k; value = v } ∷ fs
    else f ∷ rest

unfoldable pub fields_into : List Field → List Field → List Field
unfolding assign
fields_into out [] = out
fields_into out (f ∷ fs) = fields_into (assign f.key f.value out) fs

abbrev fields_to_map : List Field → List Field
fields_to_map fields = fields_into [] fields

unfoldable pub find_field : Bytes → List Field → Option Bytes
find_field k [] = none
find_field k (f ∷ fs) = if eq_bytes k f.key then some f.value else find_field k fs

abbrev map_event_type : EventType → ResponseLineType
map_event_type ack_event = ack_line
map_event_type warn_event = warn_line
map_event_type error_event = error_line
map_event_type info_event = info_line
map_event_type data_event = data_line
map_event_type done_event = info_line

-- `s.rfind (p, 0) == 0`.
unfoldable pub starts_with : Bytes → Bytes → Bool
starts_with [] s = true
starts_with (c ∷ p) [] = false
starts_with (c ∷ p) (d ∷ s) = if eq_bytes (c ∷ []) (d ∷ []) then starts_with p s else false

abbrev is_info : EventType → Bool
is_info type = elim type [ info_event ↦ true | _ ↦ false ]

-- The two tests that make an event a DONE.
abbrev done_status : Option Bytes → Bool
done_status none = false
done_status (some status) = eq_bytes status (codes "done") || eq_bytes status (codes "DONE")

unfoldable pub build_event : ResponseLine → Bytes → Event
unfolding fields_into find_field starts_with
build_event line action =
    let attributes = fields_to_map line.fields in
    let type =
      if done_status (find_field (codes "status") attributes)
      then done_event
      else map_line_type line.type in
    record {
      type =
          if is_info type
          then (if starts_with (codes "CTRL:DONE") line.raw then done_event else type)
          else type;
      cmd_id = line.msg_id;
      action = action;
      code = line.code;
      reason = line.reason;
      raw = line.raw;
      attributes = attributes;
    }

-- ` key=value` for each entry.
unfoldable pub show_fields : List Field → Bytes
show_fields [] = []
show_fields (f ∷ fs) = b' ' ∷ f.key ++ (b'=' ∷ f.value ++ show_fields fs)

abbrev is_done : EventType → Bool
is_done type = elim type [ done_event ↦ true | _ ↦ false ]

-- ` name=text`, where there is a text.
abbrev show_part : Bytes → Bytes → Bytes
show_part name text = if is_empty text then [] else b' ' ∷ name ++ (b'=' ∷ text)

unfoldable pub event_to_line : Event → ResponseLine
unfolding show_fields
event_to_line e = record {
  type = map_event_type e.type;
  msg_id = e.cmd_id;
  code = e.code;
  reason = e.reason;
  fields = e.attributes;
  raw =
      if is_empty e.raw
      then (if is_done e.type
          then codes "CTRL:DONE"
            ++ (show_part (codes "cmd_id") e.cmd_id
                ++ (show_part (codes "action") e.action ++ show_fields e.attributes))
          else [])
      else e.raw;
}
