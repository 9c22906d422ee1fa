-- ===== src/ConfigStore.antt =====
-- lib/mqtt_config: MqttConfigStore.h and src/MqttConfigStore.cpp, the settings of the MQTT broker
-- and the preferences that keep them, in the native build, where MQTT_CONFIG_USE_PREFERENCES is 0.
-- The `std::map` behind the preferences is a list of entries with different keys. The defaults,
-- which a header outside the repository may set, are an argument. An `std::string *error` is an
-- option, `none` where it is null. The operations run under a lock, one after the other.
pub mod Preferences
pub mod Persisted
pub mod Kept
pub mod Checks
use kinetic_mirror_matrix_es.Prelude.{
  ℕ, ◌+◌, ◌%◌, ◌^◌, Bool, true, false, not, ◌&&◌, ◌||◌, List, [], ◌∷◌, Option, some, none, ltb,
  ◌==◌, length, u32, if◌then◌else◌,
}
use kinetic_mirror_matrix_es.Prelude.Int.{pos, pos_part, ltb_ℤ}
use kinetic_mirror_matrix_es.ConfigStore.Preferences.{
  Entries, PreferencesAdapter, adapter, begin, end, put_string, get_string, remove, has_key,
}
use kinetic_mirror_matrix_es.Text.{Bytes, codes, eq_bytes, is_empty, strtol, at_end, to_string}

pub record BrokerConfig : Type 0 where
  pub host : Bytes
  pub port : ℕ
  pub user : Bytes
  pub pass : Bytes
  pub host_overridden : Bool
  pub port_overridden : Bool
  pub user_overridden : Bool
  pub pass_overridden : Bool

pub record ConfigUpdate : Type 0 where
  pub host_set : Bool
  pub host_use_default : Bool
  pub host : Bytes
  pub port_set : Bool
  pub port_use_default : Bool
  pub port : ℕ
  pub user_set : Bool
  pub user_use_default : Bool
  pub user : Bytes
  pub pass_set : Bool
  pub pass_use_default : Bool
  pub pass : Bytes

-- The cast is to `uint16_t`.
unfoldable pub parse_port : Bytes → ℕ → ℕ
parse_port value fallback =
    if is_empty value
    then fallback
    else (let (parsed, rest) = strtol value in
        if not (at_end rest) || not (ltb_ℤ (pos 0) parsed) || ltb_ℤ (pos 65535) parsed
        then fallback
        else pos_part parsed % 2 ^ 16)

unfoldable pub apply_default_flags : BrokerConfig → BrokerConfig → BrokerConfig
apply_default_flags defaults config = record config {
  host_overridden = not (eq_bytes config.host defaults.host);
  port_overridden = not (config.port == defaults.port);
  user_overridden = not (eq_bytes config.user defaults.user);
  pass_overridden = not (eq_bytes config.pass defaults.pass);
}

-- The members, with the static map of the preferences.
pub record ConfigStore : Type 0 where
  pub defaults : BrokerConfig
  pub current : BrokerConfig
  pub loaded : Bool
  pub revision : ℕ
  pub store : Entries

-- The values of the class DefaultsProvider.
abbrev pub no_overrides : Bytes → ℕ → Bytes → Bytes → BrokerConfig
no_overrides host port user pass = record {
  host = host;
  port = port;
  user = user;
  pass = pass;
  host_overridden = false;
  port_overridden = false;
  user_overridden = false;
  pass_overridden = false;
}

abbrev pub initial : Bytes → ℕ → Bytes → Bytes → ConfigStore
initial host port user pass = record {
  defaults = no_overrides host port user pass;
  current = no_overrides host port user pass;
  loaded = false;
  revision = 1;
  store = [];
}

-- A setting other than the port, as `loadLocked` reads it.
abbrev pub read_text : Bytes → Bytes → PreferencesAdapter → Bytes
unfolding has_key get_string
read_text key default p = if has_key key p then get_string key default p else default

unfoldable pub load_locked : ConfigStore → BrokerConfig
unfolding begin apply_default_flags parse_port has_key get_string
load_locked s =
    let (prefs, began) = begin true (adapter s.store) in
    if not began
    then apply_default_flags s.defaults s.defaults
    else apply_default_flags s.defaults (record s.defaults {
      host = read_text (codes "host") s.defaults.host prefs;
      port =
          if has_key (codes "port") prefs
          then parse_port (get_string (codes "port") [] prefs) s.defaults.port
          else s.defaults.port;
      user = read_text (codes "user") s.defaults.user prefs;
      pass = read_text (codes "pass") s.defaults.pass prefs;
    })

-- What `putString` and `remove` answer is not looked at.
unfoldable pub write_string : Bytes → Bool → Bytes → PreferencesAdapter → PreferencesAdapter
unfolding put_string remove
write_string key overridden value prefs =
    if overridden then (put_string key value prefs).0 else (remove key prefs).0

-- The entries after the call, and its answer.
unfoldable pub persist_locked : Entries → BrokerConfig → Entries × Bool
unfolding write_string begin end
persist_locked store config =
    let (prefs, began) = begin false (adapter store) in
    if not began
    then (prefs.store, false)
    else (let host = write_string (codes "host") config.host_overridden config.host prefs in
        let port =
          write_string (codes "port") config.port_overridden (to_string config.port) host in
        let user = write_string (codes "user") config.user_overridden config.user port in
        let pass = write_string (codes "pass") config.pass_overridden config.pass user in
        ((end pass).store, true))

unfoldable pub ensure_loaded_locked : ConfigStore → ConfigStore
unfolding load_locked
ensure_loaded_locked s =
    if s.loaded
    then s
    else record s { current = load_locked s; loaded = true; revision = u32 (s.revision + 1) }

unfoldable pub set_error : Bytes → Option Bytes → Option Bytes
set_error msg none = none
set_error msg (some text) = some msg

abbrev pub clear : Option Bytes → Option Bytes
clear none = none
clear (some text) = some []

-- What the check of one field sets the error to, where the field is refused.
unfoldable pub host_fault : ConfigUpdate → Option Bytes
host_fault u =
    if u.host_set && not u.host_use_default
    then (if is_empty u.host
        then some (codes "host cannot be empty")
        else if ltb 190 (length u.host)
        then some (codes "host too long")
        else none)
    else none

unfoldable pub port_fault : ConfigUpdate → Option Bytes
port_fault u =
    if (u.port_set && not u.port_use_default) && (u.port == 0 || ltb 65535 u.port)
    then some (codes "port out of range")
    else none

unfoldable pub user_fault : ConfigUpdate → Option Bytes
user_fault u =
    if (u.user_set && not u.user_use_default) && ltb 64 (length u.user)
    then some (codes "user too long")
    else none

unfoldable pub pass_fault : ConfigUpdate → Option Bytes
pass_fault u =
    if (u.pass_set && not u.pass_use_default) && ltb 128 (length u.pass)
    then some (codes "pass too long")
    else none

-- Returns at the first fault.
abbrev pub first_fault : List (Option Bytes) → Option Bytes
first_fault [] = none
first_fault (none ∷ rest) = first_fault rest
first_fault (some msg ∷ rest) = some msg

unfoldable pub fault : ConfigUpdate → Option Bytes
fault u = first_fault (host_fault u ∷ port_fault u ∷ user_fault u ∷ pass_fault u ∷ [])

unfoldable pub validate_update : ConfigUpdate → Option Bytes → Option Bytes × Bool
validate_update u error = elim (fault u) [
  | some msg ↦ (set_error msg error, false)
  | none ↦ (clear error, true)
]

abbrev pub merge_field {ℓ} : {A : Type ℓ} → Bool → Bool → A → A → A → A
merge_field is_set use_default default value old =
    if is_set then (if use_default then default else value) else old

unfoldable pub merge_update : ConfigStore → ConfigUpdate → BrokerConfig
merge_update s u = apply_default_flags s.defaults (record s.current {
  host = merge_field u.host_set u.host_use_default s.defaults.host u.host s.current.host;
  port = merge_field u.port_set u.port_use_default s.defaults.port u.port s.current.port;
  user = merge_field u.user_set u.user_use_default s.defaults.user u.user s.current.user;
  pass = merge_field u.pass_set u.pass_use_default s.defaults.pass u.pass s.current.pass;
})

-- `error && !error->empty()`
abbrev pub has_error : Option Bytes → Bool
has_error none = false
has_error (some text) = not (is_empty text)

-- A store that is loaded; `mergeUpdate` clears the error.
unfoldable pub apply_loaded :
    ConfigStore → ConfigUpdate → Option Bytes → ConfigStore × (Option Bytes × Bool)
apply_loaded s u error =
    let (checked, valid) = validate_update u error in
    if not valid
    then (s, (checked, false))
    else (let merged = merge_update s u in
        let (store, saved) = persist_locked s.store merged in
        if has_error (clear checked)
        then (s, (clear checked, false))
        else if not saved
        then (
          record s { store = store },
          (set_error (codes "failed to persist mqtt config") (clear checked), false),
        )
        else (
          record s { current = merged; revision = u32 (s.revision + 1); store = store },
          (clear checked, true),
        ))

unfoldable pub apply_update :
    ConfigStore → ConfigUpdate → Option Bytes → ConfigStore × (Option Bytes × Bool)
apply_update s u error = apply_loaded (ensure_loaded_locked s) u error

-- `Current`, with the copy of the settings that it returns.
unfoldable pub current_config : ConfigStore → ConfigStore × BrokerConfig
unfolding ensure_loaded_locked
current_config s = let loaded = ensure_loaded_locked s in (loaded, loaded.current)

unfoldable pub reload : ConfigStore → ConfigStore
unfolding ensure_loaded_locked
reload s = ensure_loaded_locked (record s { loaded = false })

unfoldable pub reset_for_tests : ConfigStore → ConfigStore
reset_for_tests s = record s { current = s.defaults; loaded = false; revision = 1; store = [] }
