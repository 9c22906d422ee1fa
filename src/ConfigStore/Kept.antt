-- ===== src/ConfigStore/Kept.antt =====
-- lib/mqtt_config/src/MqttConfigStore.cpp: calls of the store, one after the other.
use kinetic_mirror_matrix_es.Prelude.{
  ℕ, ◌+◌, ◌≡◌, refl, Bool, true, false, List, [], ◌∷◌, Option, arith, u32, if◌then◌else◌,
  Option-cases, inl, inr,
}
use kinetic_mirror_matrix_es.Text.{Bytes, codes}
use kinetic_mirror_matrix_es.ConfigStore.Preferences.{Entries, begin, has_key}
use kinetic_mirror_matrix_es.ConfigStore.Checks.{
  Allowed, apply_loaded-accepts, apply_loaded-refuses, fault-Allowed, updated,
}
use kinetic_mirror_matrix_es.ConfigStore.Persisted.{IsPort, load_locked-written}
use kinetic_mirror_matrix_es.ConfigStore.{
  BrokerConfig, ConfigStore, ConfigUpdate, apply_default_flags, apply_loaded, apply_update,
  current_config, ensure_loaded_locked, fault, initial, load_locked, merge_field, merge_update,
  parse_port, reload, reset_for_tests,
}

pub data Call : Type 0 where
  current_call reload_call reset_call : Call
  update_call : ConfigUpdate → Option Bytes → Call

abbrev pub apply : Call → ConfigStore → ConfigStore
unfolding current_config reload reset_for_tests apply_update
apply current_call s = (current_config s).0
apply reload_call s = reload s
apply reset_call s = reset_for_tests s
apply (update_call u e) s = (apply_update s u e).0

abbrev pub run : List Call → ConfigStore → ConfigStore
run [] s = s
run (c ∷ calls) s = run calls (apply c s)

-- The settings that are loaded are those that a load would give.
abbrev merged : ConfigStore → ConfigUpdate → BrokerConfig
merged s u = record s.current {
  host = merge_field u.host_set u.host_use_default s.defaults.host u.host s.current.host;
  port = merge_field u.port_set u.port_use_default s.defaults.port u.port s.current.port;
  user = merge_field u.user_set u.user_use_default s.defaults.user u.user s.current.user;
  pass = merge_field u.pass_set u.pass_use_default s.defaults.pass u.pass s.current.pass;
}

pub record Kept (s : ConfigStore) : Type 0 where
  pub good_defaults : IsPort s.defaults.port
  pub good_current : IsPort s.current.port
  pub kept : s.loaded ≡ true → load_locked s ≡ s.current

parse_port-IsPort :
    (value : Bytes) (fallback : ℕ) → IsPort fallback → IsPort (parse_port value fallback)
unfolding parse_port
parse_port-IsPort value fallback h = ground arith

IsPort-if : (t : Bool) {a b : ℕ} → IsPort a → IsPort b → IsPort (if t then a else b)
IsPort-if true h k = h
IsPort-if false h k = k

load_locked-IsPort : (s : ConfigStore) → IsPort s.defaults.port → IsPort (load_locked s).port
unfolding load_locked begin apply_default_flags
load_locked-IsPort s h =
    IsPort-if (has_key (codes "port") (record { began = true; read_only = true; store = s.store }))
      (parse_port-IsPort _ s.defaults.port h) h

ensure_loaded_locked-Kept : (s : ConfigStore) → Kept s → Kept (ensure_loaded_locked s)
unfolding ensure_loaded_locked load_locked
ensure_loaded_locked-Kept s k = ensure s.loaded k.kept
  where
    ensure :
        (loaded : Bool)
        → (loaded ≡ true → load_locked s ≡ s.current)
        → Kept (
            if loaded then s else record s {
              current = load_locked s;
              loaded = true;
              revision = u32 (s.revision + 1);
            })
    ensure true h = record {
      good_defaults = k.good_defaults;
      good_current = k.good_current;
      kept = λ e. h refl;
    }
    ensure false h = record {
      good_defaults = k.good_defaults;
      good_current = load_locked-IsPort s k.good_defaults;
      kept = λ e. refl;
    }

merge_field-IsPort :
    (is_set use_default : Bool) (default value old : ℕ)
    → IsPort default
    → IsPort old
    → (is_set ≡ true → use_default ≡ false → IsPort value)
    → IsPort (merge_field is_set use_default default value old)
merge_field-IsPort true true default value old d o v = d
merge_field-IsPort true false default value old d o v = v refl refl
merge_field-IsPort false use_default default value old d o v = o

merge_update-IsPort :
    (s : ConfigStore) (u : ConfigUpdate) → Kept s → Allowed u → IsPort (merge_update s u).port
unfolding merge_update apply_default_flags
merge_update-IsPort s u k a =
    merge_field-IsPort u.port_set u.port_use_default s.defaults.port u.port s.current.port
      k.good_defaults k.good_current a.port

updated-Kept : (s : ConfigStore) (u : ConfigUpdate) → Kept s → Allowed u → Kept (updated s u)
unfolding merge_update apply_default_flags
updated-Kept s u k a = record {
  good_defaults = k.good_defaults;
  good_current = merge_update-IsPort s u k a;
  kept = λ e. load_locked-written (updated s u) (merged s u) s.store (merge_update-IsPort s u k a);
}

apply_loaded-Kept :
    (s : ConfigStore) (u : ConfigUpdate) (e : Option Bytes) → Kept s → Kept (apply_loaded s u e).0
apply_loaded-Kept s u e k = elim (Option-cases (fault u)) [
  | inl ok ↦ rw (apply_loaded-accepts s u e ok) (updated-Kept s u k ((fault-Allowed u).0 ok))
  | inr (msg, bad) ↦ rw (apply_loaded-refuses s u e msg bad) k
]

unloaded-Kept :
    (s : ConfigStore) (revision : ℕ) (current : BrokerConfig) (store : Entries)
    → Kept s
    → IsPort current.port
    → Kept (record s { current = current; loaded = false; revision = revision; store = store })
unloaded-Kept s revision current store k h = record {
  good_defaults = k.good_defaults;
  good_current = h;
  kept = λ e. cc;
}

apply-Kept : (c : Call) (s : ConfigStore) → Kept s → Kept (apply c s)
unfolding current_config reload reset_for_tests apply_update
apply-Kept current_call s k = ensure_loaded_locked-Kept s k
apply-Kept reload_call s k =
    ensure_loaded_locked-Kept (record s { loaded = false })
      (unloaded-Kept s s.revision s.current s.store k k.good_current)
apply-Kept reset_call s k = unloaded-Kept s 1 s.defaults [] k k.good_defaults
apply-Kept (update_call u e) s k =
    apply_loaded-Kept (ensure_loaded_locked s) u e (ensure_loaded_locked-Kept s k)

pub run-Kept : (calls : List Call) (s : ConfigStore) → Kept s → Kept (run calls s)
run-Kept [] s k = k
run-Kept (c ∷ calls) s k = run-Kept calls (apply c s) (apply-Kept c s k)

initial-Kept :
    (host user pass : Bytes) (port : ℕ) → IsPort port → Kept (initial host port user pass)
initial-Kept host user pass port h = record { good_defaults = h; good_current = h; kept = λ e. cc }

-- A store that starts with a default port from 1 to 65535 loses no setting: after any calls, the
-- settings in use are those that a restart loads from the preferences.
pub run-reload :
    (host user pass : Bytes) (port : ℕ) (calls : List Call)
    → IsPort port
    → (reload (run calls (initial host port user pass))).current
      ≡ (current_config (run calls (initial host port user pass))).1
unfolding reload current_config ensure_loaded_locked load_locked
run-reload host user pass port calls h =
    same (run calls (initial host port user pass)) _
      (run-Kept calls (initial host port user pass) (initial-Kept host user pass port h)).kept
  where
    same :
        (s : ConfigStore) (loaded : Bool)
        → (loaded ≡ true → load_locked s ≡ s.current)
        → load_locked s
          ≡ (if loaded then s else record s {
            current = load_locked s;
            loaded = true;
            revision = u32 (s.revision + 1);
          }).current
    same s true k = k refl
    same s false k = refl
