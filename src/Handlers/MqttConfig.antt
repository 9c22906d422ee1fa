-- ===== src/Handlers/MqttConfig.antt =====
-- lib/MotorControl/src/command/CommandHandlers.cpp, the class `MqttConfigCommandHandler`: MQTT
-- GET_CONFIG and SET_CONFIG over the settings of ConfigStore.
pub mod Pairs
pub mod Reported
use kinetic_mirror_matrix_es.Handlers.MqttConfig.Pairs.{
  KeyValues, parse_key_value_args, Parsed, parsed, invalid,
}
use kinetic_mirror_matrix_es.Prelude.{
  ℕ, Bool, true, false, not, ◌||◌, List, [], ◌∷◌, Option, some, none, ◌==◌, ◌%◌, ◌^◌, if◌then◌else◌,
}
use kinetic_mirror_matrix_es.Prelude.Int.{ℤ, pos, pos_part, ltb_ℤ}
use kinetic_mirror_matrix_es.ConfigStore.{
  BrokerConfig, ConfigStore, ConfigUpdate, apply_update, current_config,
}
use kinetic_mirror_matrix_es.Controller.{MotorController}
use kinetic_mirror_matrix_es.Text.{
  Bytes, codes, eq_bytes, is_empty, parse_int, quote_string, to_string, to_upper_copy, trim,
}
use kinetic_mirror_matrix_es.Transport.{Field, make_error_line}
use kinetic_mirror_matrix_es.Handlers.{CommandResult, Context, issue, make_result_with_line}
use kinetic_mirror_matrix_es.Handlers.Query.{make_done_fields}
use kinetic_mirror_matrix_es.Handlers.Query.Lines.{field}

abbrev pub config_fields : BrokerConfig → List Field
config_fields cfg =
    field (codes "host") (quote_string cfg.host)
    ∷ field (codes "port") (to_string cfg.port)
    ∷ field (codes "user") (quote_string cfg.user)
    ∷ field (codes "pass") (quote_string cfg.pass)
    ∷ []

abbrev pub no_update : ConfigUpdate
no_update = record {
  host_set = false;
  host_use_default = false;
  host = [];
  port_set = false;
  port_use_default = false;
  port = 0;
  user_set = false;
  user_use_default = false;
  user = [];
  pass_set = false;
  pass_use_default = false;
  pass = [];
}

abbrev pub reset_update : ConfigUpdate
reset_update = record no_update {
  host_set = true;
  host_use_default = true;
  port_set = true;
  port_use_default = true;
  user_set = true;
  user_use_default = true;
  pass_set = true;
  pass_use_default = true;
}

-- The error of an argument: its reason, and its field.
pub record Fault : Type 0 where
  pub reason : Bytes
  pub fields : List Field

abbrev pub fault_of : Bytes → Bytes → Bytes → Fault
fault_of reason key value = record { reason = reason; fields = field key value ∷ [] }

pub data Built (A : Type 0) : Type 0 where
  built : A → Built A
  faulty : Fault → Built A

abbrev with_port : Option ℤ → Bytes → ConfigUpdate → Built ConfigUpdate
with_port none value u = faulty (fault_of (codes "INVALID_PORT") (codes "detail") value)
with_port (some v) value u =
    if not (ltb_ℤ (pos 0) v) || ltb_ℤ (pos 65535) v
    then faulty (fault_of (codes "INVALID_PORT") (codes "detail") value)
    else built (record u { port_set = true; port = pos_part v % 2 ^ 16 })

-- One pair of SET_CONFIG, its key in capitals and its value trimmed.
unfoldable pub apply_pair : Bytes → Bytes → ConfigUpdate → Built ConfigUpdate
apply_pair key value u =
    if eq_bytes (to_upper_copy value) (codes "DEFAULT")
    then faulty (fault_of (codes "UNSUPPORTED_DEFAULT") (codes "field") key)
    else if eq_bytes key (codes "HOST")
    then built (record u { host_set = true; host = value })
    else if eq_bytes key (codes "PORT")
    then with_port (parse_int value) value u
    else if eq_bytes key (codes "USER")
    then built (record u { user_set = true; user = value })
    else if eq_bytes key (codes "PASS") || eq_bytes key (codes "PASSWORD")
    then built (record u { pass_set = true; pass = value })
    else faulty (fault_of (codes "UNSUPPORTED_FIELD") (codes "field") key)

unfoldable pub apply_pairs : KeyValues → ConfigUpdate → Built ConfigUpdate
apply_pairs [] u = built u
apply_pairs (p ∷ pairs) u = elim (apply_pair (to_upper_copy (trim p.0)) (trim p.1) u) [
  | built u' ↦ apply_pairs pairs u'
  | faulty f ↦ faulty f
]

abbrev missing_fields : Built ConfigUpdate
missing_fields = faulty (record { reason = codes "MISSING_FIELDS"; fields = [] })

abbrev pairs_update : Parsed KeyValues → Built ConfigUpdate
pairs_update (parsed []) = missing_fields
pairs_update (parsed (p ∷ pairs)) = apply_pairs (p ∷ pairs) no_update
pairs_update (invalid error) = faulty (fault_of (codes "INVALID") (codes "detail") error)

abbrev is_reset : Bytes → Bool
is_reset tail_upper = eq_bytes tail_upper (codes "RESET") || eq_bytes tail_upper (codes "DEFAULTS")

-- The update that the arguments of SET_CONFIG ask for.
unfoldable pub build_update : Bytes → Built ConfigUpdate
build_update tail =
    if is_empty tail
    then missing_fields
    else if is_reset (to_upper_copy tail)
    then built reset_update
    else pairs_update (parse_key_value_args tail)

-- The text up to the first blank or tab, and the trimmed text behind it.
unfoldable pub split_args : Bytes → Bytes × Bytes
split_args [] = ([], [])
split_args (c ∷ s) =
    let (sub, tail) = split_args s in if c == b' ' || c == 9 then ([], trim s) else (c ∷ sub, tail)

module _ (ctl : MotorController) where
  -- The answer, the context and the settings.
  abbrev pub Outcome : Type 0
  Outcome = (CommandResult × Context ctl) × ConfigStore

  abbrev pub refuse_config :
      Bytes → Bytes → Bytes → List Field → Context ctl → ConfigStore → Outcome
  refuse_config msg_id code reason fields x store = (
    make_result_with_line ctl (codes "MQTT") (make_error_line msg_id code reason fields) x,
    store,
  )

  unfoldable pub report_config : Bytes → Context ctl → ConfigStore → Outcome
  report_config msg_id x store =
      let (loaded, cfg) = current_config store in
      (make_done_fields ctl (codes "MQTT") msg_id (config_fields cfg) x, loaded)

  abbrev save_failed : Bytes → Bytes → Context ctl → ConfigStore → Outcome
  save_failed error msg_id x store =
      refuse_config msg_id (codes "MQTT_CONFIG_SAVE_FAILED") (codes "FAILED")
        (if is_empty error then [] else field (codes "detail") error ∷ []) x store

  -- What `ApplyUpdate` answered, with its error text.
  abbrev answer_update : Option Bytes × Bool → Bytes → Context ctl → ConfigStore → Outcome
  answer_update (error, true) msg_id x store = report_config msg_id x store
  answer_update (none, false) msg_id x store = save_failed [] msg_id x store
  answer_update (some error, false) msg_id x store = save_failed error msg_id x store

  unfoldable pub set_config : Built ConfigUpdate → Bytes → Context ctl → ConfigStore → Outcome
  set_config (faulty f) msg_id x store =
      refuse_config msg_id (codes "MQTT_BAD_PARAM") f.reason f.fields x store
  set_config (built u) msg_id x store =
      let (store', answer) = apply_update store u (some []) in answer_update answer msg_id x store'

  abbrev run_config : Bytes → Bytes → Bytes → Context ctl → ConfigStore → Outcome
  run_config sub tail msg_id x store =
      if eq_bytes (to_upper_copy sub) (codes "GET_CONFIG")
      then (if is_empty tail
          then report_config msg_id x store
          else refuse_config msg_id (codes "MQTT_BAD_PARAM") (codes "UNEXPECTED_ARGS") [] x store)
      else if eq_bytes (to_upper_copy sub) (codes "SET_CONFIG")
      then set_config (build_update tail) msg_id x store
      else refuse_config msg_id (codes "MQTT_UNSUPPORTED_ACTION") (codes "UNSUPPORTED")
          (field (codes "requested") (to_upper_copy sub) ∷ []) x store

  unfoldable pub execute_config : (ℕ → Bytes) → Bytes → Context ctl → ConfigStore → Outcome
  execute_config next_id args x store =
      let msg_id = next_id x.issued in
      let (sub, tail) = split_args (trim args) in
      if is_empty (trim args)
      then refuse_config msg_id (codes "MQTT_BAD_PARAM") (codes "MISSING_SUBCOMMAND") []
          (issue ctl x) store
      else run_config sub tail msg_id (issue ctl x) store
