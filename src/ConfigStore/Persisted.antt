-- ===== src/ConfigStore/Persisted.antt =====
-- lib/mqtt_config/src/MqttConfigStore.cpp: the settings in memory and the stored preferences.
use kinetic_mirror_matrix_es.Prelude.{
  ℕ, ◌≤◌, ◌<◌, ◌≡◌, refl, sym, ◌∙◌, ap, Bool, true, false, not, [], ◌∷◌, Option, some, none, arith,
  ◌==◌, if◌then◌else◌, Bool-cases, inl, inr,
}
use kinetic_mirror_matrix_es.Text.{Bytes, codes, eq_bytes, to_string, is_empty, starts_with_digit}
use kinetic_mirror_matrix_es.Text.Numbers.{
  eq_bytes_refl, eq_bytes→≡, strtol-to_string, starts-to_string,
}
use kinetic_mirror_matrix_es.ConfigStore.Preferences.{
  Entries, PreferencesAdapter, begin, end, put_string, get_string, remove, has_key, find, erase,
  assign_entry,
}
use kinetic_mirror_matrix_es.ConfigStore.{
  BrokerConfig, ConfigStore, apply_default_flags, load_locked, parse_port, persist_locked,
  read_text, write_string,
}

find-erase_self : (key : Bytes) (e : Entries) → find key (erase key e) ≡ none
find-erase_self key [] = refl
find-erase_self key (x ∷ e) = elim (Bool-cases (eq_bytes x.0 key)) [
  | inl same ↦ rw same (find-erase_self key e)
  | inr other ↦ rw (other, other) (find-erase_self key e)
]

-- The entry of another key stays.
find-erase_ne :
    (key other : Bytes) (e : Entries)
    → eq_bytes key other ≡ false
    → find other (erase key e) ≡ find other e
find-erase_ne key other [] h = refl
find-erase_ne key other (x ∷ e) h = elim (Bool-cases (eq_bytes x.0 key)) [
  | inl same ↦ rw (same, eq_bytes→≡ x.0 key same, h) (find-erase_ne key other e h)
  | inr differs ↦ rw (differs, find-erase_ne key other e h) refl
]

abbrev saved : Bool → Bytes → Option Bytes
saved overridden value = if overridden then some value else none

-- What `write_string` leaves in the map.
abbrev written : Bytes → Bool → Bytes → Entries → Entries
written key overridden value e = if overridden then assign_entry key value e else erase key e

find-written_self :
    (key value : Bytes) (overridden : Bool) (e : Entries)
    → find key (written key overridden value e) ≡ saved overridden value
find-written_self key value true e = rw (eq_bytes_refl key) refl
find-written_self key value false e = find-erase_self key e

find-written_ne :
    (key other value : Bytes) (overridden : Bool) (e : Entries)
    → eq_bytes key other ≡ false
    → find other (written key overridden value e) ≡ find other e
find-written_ne key other value true e h = rw h (find-erase_ne key other e h)
find-written_ne key other value false e h = find-erase_ne key other e h

abbrev opened : Entries → PreferencesAdapter
opened e = record { began = true; read_only = false; store = e }

write_string-opened :
    (key value : Bytes) (overridden : Bool) (e : Entries)
    → write_string key overridden value (opened e) ≡ opened (written key overridden value e)
unfolding write_string put_string remove
write_string-opened key value true e = refl
write_string-opened key value false e = refl

abbrev with_host : BrokerConfig → Entries → Entries
with_host c e = written (codes "host") c.host_overridden c.host e

abbrev with_port : BrokerConfig → Entries → Entries
with_port c e = written (codes "port") c.port_overridden (to_string c.port) (with_host c e)

abbrev with_user : BrokerConfig → Entries → Entries
with_user c e = written (codes "user") c.user_overridden c.user (with_port c e)

abbrev pub all_written : BrokerConfig → Entries → Entries
all_written c e = written (codes "pass") c.pass_overridden c.pass (with_user c e)

pub persist_locked-written :
    (e : Entries) (c : BrokerConfig) → persist_locked e c ≡ (all_written c e, true)
unfolding persist_locked begin end
persist_locked-written e c =
    ap (λ p. ((end p).store, true))
      (ap (write_string (codes "pass") c.pass_overridden c.pass) (
          ap (write_string (codes "user") c.user_overridden c.user) (
            ap (write_string (codes "port") c.port_overridden (to_string c.port))
              (write_string-opened (codes "host") c.host c.host_overridden e)
            ∙ write_string-opened (codes "port") (to_string c.port) c.port_overridden
                (with_host c e))
          ∙ write_string-opened (codes "user") c.user c.user_overridden (with_port c e))
        ∙ write_string-opened (codes "pass") c.pass c.pass_overridden (with_user c e))

find-host :
    (c : BrokerConfig) (e : Entries)
    → find (codes "host") (all_written c e) ≡ saved c.host_overridden c.host
find-host c e =
    find-written_ne (codes "pass") (codes "host") c.pass c.pass_overridden (with_user c e) refl
    ∙ find-written_ne (codes "user") (codes "host") c.user c.user_overridden (with_port c e) refl
    ∙ find-written_ne (codes "port") (codes "host") (to_string c.port) c.port_overridden
        (with_host c e) refl
    ∙ find-written_self (codes "host") c.host c.host_overridden e

find-port :
    (c : BrokerConfig) (e : Entries)
    → find (codes "port") (all_written c e) ≡ saved c.port_overridden (to_string c.port)
find-port c e =
    find-written_ne (codes "pass") (codes "port") c.pass c.pass_overridden (with_user c e) refl
    ∙ find-written_ne (codes "user") (codes "port") c.user c.user_overridden (with_port c e) refl
    ∙ find-written_self (codes "port") (to_string c.port) c.port_overridden (with_host c e)

find-user :
    (c : BrokerConfig) (e : Entries)
    → find (codes "user") (all_written c e) ≡ saved c.user_overridden c.user
find-user c e =
    find-written_ne (codes "pass") (codes "user") c.pass c.pass_overridden (with_user c e) refl
    ∙ find-written_self (codes "user") c.user c.user_overridden (with_port c e)

find-pass :
    (c : BrokerConfig) (e : Entries)
    → find (codes "pass") (all_written c e) ≡ saved c.pass_overridden c.pass
find-pass c e = find-written_self (codes "pass") c.pass c.pass_overridden (with_user c e)

-- A port that the settings may have.
abbrev pub IsPort : ℕ → Type 0
IsPort port = (0 < port) × (port ≤ 65535)

not-empty : (s : Bytes) → starts_with_digit s ≡ true → is_empty s ≡ false
not-empty [] h = cc
not-empty (c ∷ s) h = refl

parse_port-to_string : (port default : ℕ) → IsPort port → parse_port (to_string port) default ≡ port
unfolding parse_port
parse_port-to_string port default h =
    rw (not-empty (to_string port) (starts-to_string port), strtol-to_string port (omega arith))
      (ground arith)

read_text-saved :
    (key value default : Bytes) (p : PreferencesAdapter)
    → find key p.store ≡ saved (not (eq_bytes value default)) value
    → read_text key default p ≡ value
unfolding has_key get_string
read_text-saved key value default p h = elim (Bool-cases (eq_bytes value default)) [
  | inl same ↦ rw (h, has_key, get_string, same) (sym (eq_bytes→≡ value default same))
  | inr differs ↦ rw (h, has_key, get_string, differs) refl
]

read_port-saved :
    (port default : ℕ) (p : PreferencesAdapter)
    → IsPort port
    → find (codes "port") p.store ≡ saved (not (port == default)) (to_string port)
    → (if has_key (codes "port") p
        then parse_port (get_string (codes "port") [] p) default
        else default)
      ≡ port
unfolding has_key get_string
read_port-saved port default p good h = elim (Bool-cases (port == default)) [
  | inl same ↦ rw (h, has_key, get_string, same) (ground arith)
  | inr differs ↦ rw (h, has_key, get_string, differs) (parse_port-to_string port default good)
]

abbrev flagged : ConfigStore → BrokerConfig → BrokerConfig
unfolding apply_default_flags
flagged s c = apply_default_flags s.defaults c

-- The adapter that reads what was written.
abbrev reading : ConfigStore → BrokerConfig → Entries → PreferencesAdapter
reading s c e = record { began = true; read_only = true; store = all_written (flagged s c) e }

-- The settings `c` with the flags that say which of them differ from the defaults.
pub load_locked-written :
    (s : ConfigStore) (c : BrokerConfig) (e : Entries)
    → IsPort c.port
    → load_locked (record s { store = all_written (apply_default_flags s.defaults c) e })
      ≡ apply_default_flags s.defaults c
unfolding load_locked apply_default_flags begin
load_locked-written s c e good =
    rw
      (
        read_text-saved (codes "host") c.host s.defaults.host (reading s c e)
            (find-host (flagged s c) e),
        read_port-saved c.port s.defaults.port (reading s c e) good (find-port (flagged s c) e),
        read_text-saved (codes "user") c.user s.defaults.user (reading s c e)
            (find-user (flagged s c) e),
        read_text-saved (codes "pass") c.pass s.defaults.pass (reading s c e)
            (find-pass (flagged s c) e),
      )
      refl
