-- ===== src/ConfigStore/Preferences.antt =====
-- lib/mqtt_config/src/MqttConfigStore.cpp: the class PreferencesAdapter in the native build. The
-- `std::map` of the preferences is a list of entries.
use kinetic_mirror_matrix_es.Prelude.{
  Bool, true, false, not, ◌||◌, List, [], ◌∷◌, Option, some, none, if◌then◌else◌,
}
use kinetic_mirror_matrix_es.Text.{Bytes, eq_bytes}

abbrev pub Entries : Type 0
Entries = List (Bytes × Bytes)

abbrev pub find : Bytes → Entries → Option Bytes
find key [] = none
find key (e ∷ rest) = if eq_bytes e.0 key then some e.1 else find key rest

abbrev pub erase : Bytes → Entries → Entries
erase key [] = []
erase key (e ∷ rest) = if eq_bytes e.0 key then erase key rest else e ∷ erase key rest

-- `store()[key] = value`
abbrev pub assign_entry : Bytes → Bytes → Entries → Entries
assign_entry key value entries = (key, value) ∷ erase key entries

-- The adapter, with the static map that it reads and writes.
pub record PreferencesAdapter : Type 0 where
  pub began : Bool
  pub read_only : Bool
  pub store : Entries

abbrev pub adapter : Entries → PreferencesAdapter
adapter store = record { began = false; read_only = false; store = store }

unfoldable pub begin : Bool → PreferencesAdapter → PreferencesAdapter × Bool
begin read_only p = (record p { read_only = read_only; began = true }, true)

unfoldable pub end : PreferencesAdapter → PreferencesAdapter
end p = record p { began = false }

unfoldable pub put_string : Bytes → Bytes → PreferencesAdapter → PreferencesAdapter × Bool
put_string key value p =
    if not p.began || p.read_only
    then (p, false)
    else (record p { store = assign_entry key value p.store }, true)

unfoldable pub get_string : Bytes → Bytes → PreferencesAdapter → Bytes
get_string key default p = elim (find key p.store) [ none ↦ default | some value ↦ value ]

unfoldable pub remove : Bytes → PreferencesAdapter → PreferencesAdapter × Bool
remove key p =
    if not p.began || p.read_only
    then (p, false)
    else (record p { store = erase key p.store }, true)

unfoldable pub has_key : Bytes → PreferencesAdapter → Bool
has_key key p = elim (find key p.store) [ none ↦ false | some value ↦ true ]
