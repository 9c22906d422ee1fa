-- ===== src/Tests/SettingsTests.antt =====
-- The settings of the broker at concrete inputs.
use kinetic_mirror_matrix_es.Prelude.{
  ◌≡◌, ◌≢◌, ◌↔◌, refl, true, false, [], List, ◌∷◌, some, none, arith,
}
use kinetic_mirror_matrix_es.Text.{codes, strtol, to_string}
use kinetic_mirror_matrix_es.ConfigStore.{
  ConfigStore, ConfigUpdate, apply_default_flags, apply_loaded, apply_update, current_config,
  ensure_loaded_locked, fault, host_fault, initial, load_locked, merge_update, parse_port,
  pass_fault, persist_locked, port_fault, reload, set_error, user_fault, validate_update,
  write_string,
}
use kinetic_mirror_matrix_es.ConfigStore.Preferences.{
  begin, end, get_string, has_key, put_string, remove,
}
use kinetic_mirror_matrix_es.ConfigStore.Checks.{Allowed, apply_update-Allowed}
use kinetic_mirror_matrix_es.ConfigStore.Kept.{
  Call, current_call, reload_call, run, run-reload, update_call,
}

-- A new host and port, the default password, and the user as it was.
abbrev new_host : ConfigUpdate
new_host = record {
  host_set = true;
  host_use_default = false;
  host = codes "broker.local";
  port_set = true;
  port_use_default = false;
  port = 8883;
  user_set = false;
  user_use_default = false;
  user = [];
  pass_set = true;
  pass_use_default = true;
  pass = [];
}

abbrev no_port : ConfigUpdate
no_port = record new_host { port = 0 }

abbrev settings : ConfigStore
settings = initial (codes "127.0.0.1") 1883 [] []

port_is_read : parse_port (codes "8883") 1883 ≡ 8883
unfolding parse_port strtol
port_is_read = refl

bad_port_is_ignored : parse_port (codes "88x") 1883 ≡ 1883
unfolding parse_port strtol
bad_port_is_ignored = refl

update_is_stored :
    (apply_update settings new_host none).0.store
    ≡ (codes "port", codes "8883") ∷ (codes "host", codes "broker.local") ∷ []
unfolding apply_update apply_loaded validate_update fault host_fault port_fault user_fault
    pass_fault merge_update apply_default_flags persist_locked write_string begin end put_string
    remove ensure_loaded_locked load_locked has_key get_string parse_port to_string
update_is_stored = refl

says_why : (apply_update settings no_port (some [])).1 ≡ (some (codes "port out of range"), false)
unfolding apply_update apply_loaded validate_update fault host_fault port_fault user_fault
    pass_fault set_error
says_why = refl

abbrev calls : List Call
calls = current_call ∷ update_call new_host (some []) ∷ reload_call ∷ update_call no_port none ∷ []

run-reload_example :
    (reload (run calls (initial (codes "127.0.0.1") 1883 [] []))).current
    ≡ (current_config (run calls (initial (codes "127.0.0.1") 1883 [] []))).1
run-reload_example = run-reload (codes "127.0.0.1") [] [] 1883 calls (omega arith)

apply_update-Allowed_example :
    (((apply_update settings new_host (some [])).1.1 ≡ true) ↔ Allowed new_host)
    × ((apply_update settings new_host (some [])).1.1 ≡ false
        → ((apply_update settings new_host (some [])).0 ≡ ensure_loaded_locked settings)
          × ((apply_update settings new_host (some [])).1.0 ≢ some []))
apply_update-Allowed_example = apply_update-Allowed settings new_host []
