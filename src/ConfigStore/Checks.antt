-- ===== src/ConfigStore/Checks.antt =====
-- lib/mqtt_config/src/MqttConfigStore.cpp: which updates are accepted, and what a call leaves.
use kinetic_mirror_matrix_es.Prelude.{
  ◌+◌, ◌≤◌, ◌<◌, ◌≡◌, if◌then◌else◌, ap, ◌≢◌, ◌↔◌, refl, sym, ◌∙◌, true, false, [], ◌∷◌, Option,
  some, none, arith, length, u32, Option-cases, inl, inr,
}
use kinetic_mirror_matrix_es.Text.{Bytes, is_empty}
use kinetic_mirror_matrix_es.ConfigStore.Persisted.{all_written, persist_locked-written}
use kinetic_mirror_matrix_es.ConfigStore.{
  ConfigStore, ConfigUpdate, apply_loaded, apply_update, clear, ensure_loaded_locked, load_locked,
  fault, first_fault, has_error, host_fault, merge_update, pass_fault, port_fault, set_error,
  user_fault, validate_update,
}

-- The limits of an update: they hold for the fields that it sets to a value of its own.
pub record Allowed (u : ConfigUpdate) : Type 0 where
  pub host :
      u.host_set ≡ true → u.host_use_default ≡ false → (0 < length u.host) × (length u.host ≤ 190)
  pub port : u.port_set ≡ true → u.port_use_default ≡ false → (0 < u.port) × (u.port ≤ 65535)
  pub user : u.user_set ≡ true → u.user_use_default ≡ false → length u.user ≤ 64
  pub pass : u.pass_set ≡ true → u.pass_use_default ≡ false → length u.pass ≤ 128

is_empty-length : (s : Bytes) → is_empty s ≡ false → 0 < length s
is_empty-length [] h = cc
is_empty-length (c ∷ s) h = omega arith

length-is_empty : (s : Bytes) → 0 < length s → is_empty s ≡ false
length-is_empty [] h = absurd (omega arith)
length-is_empty (c ∷ s) h = refl

host_fault-Allowed :
    (u : ConfigUpdate)
    → (host_fault u ≡ none) ↔ (
        u.host_set ≡ true
        → u.host_use_default ≡ false
        → (0 < length u.host) × (length u.host ≤ 190))
unfolding host_fault
host_fault-Allowed u = ground (arith, is_empty-length u.host, length-is_empty u.host)

port_fault-Allowed :
    (u : ConfigUpdate)
    → (port_fault u ≡ none)
      ↔ (u.port_set ≡ true → u.port_use_default ≡ false → (0 < u.port) × (u.port ≤ 65535))
unfolding port_fault
port_fault-Allowed u = ground arith

user_fault-Allowed :
    (u : ConfigUpdate)
    → (user_fault u ≡ none) ↔ (u.user_set ≡ true → u.user_use_default ≡ false → length u.user ≤ 64)
unfolding user_fault
user_fault-Allowed u = ground arith

pass_fault-Allowed :
    (u : ConfigUpdate)
    → (pass_fault u ≡ none) ↔ (u.pass_set ≡ true → u.pass_use_default ≡ false → length u.pass ≤ 128)
unfolding pass_fault
pass_fault-Allowed u = ground arith

first_fault-none :
    (a b c d : Option Bytes)
    → first_fault (a ∷ b ∷ c ∷ d ∷ []) ≡ none
    → (a ≡ none) × ((b ≡ none) × ((c ≡ none) × (d ≡ none)))
first_fault-none none none none none h = (refl, (refl, (refl, refl)))
first_fault-none (some x) b c d h = cc
first_fault-none none (some x) c d h = cc
first_fault-none none none (some x) d h = cc
first_fault-none none none none (some x) h = cc

-- An update has no fault exactly where it keeps the limits.
pub fault-Allowed : (u : ConfigUpdate) → (fault u ≡ none) ↔ Allowed u
unfolding fault
fault-Allowed u = (to, from)
  where
    to : fault u ≡ none → Allowed u
    to h =
        let (host, (port, (user, pass))) = first_fault-none _ _ _ _ h in
        record {
          host = (host_fault-Allowed u).0 host;
          port = (port_fault-Allowed u).0 port;
          user = (user_fault-Allowed u).0 user;
          pass = (pass_fault-Allowed u).0 pass;
        }

    from : Allowed u → fault u ≡ none
    from a =
        rw
          (
            (host_fault-Allowed u).1 a.host,
            (port_fault-Allowed u).1 a.port,
            (user_fault-Allowed u).1 a.user,
            (pass_fault-Allowed u).1 a.pass,
          )
          refl

-- The store after an accepted update.
abbrev pub updated : ConfigStore → ConfigUpdate → ConfigStore
updated s u = record s {
  current = merge_update s u;
  revision = u32 (s.revision + 1);
  store = all_written (merge_update s u) s.store;
}

clear-clear : (e : Option Bytes) → clear (clear e) ≡ clear e
clear-clear none = refl
clear-clear (some t) = refl

has_error-clear : (e : Option Bytes) → has_error (clear e) ≡ false
has_error-clear none = refl
has_error-clear (some t) = refl

validate_update-accepts :
    (u : ConfigUpdate) (e : Option Bytes) → fault u ≡ none → validate_update u e ≡ (clear e, true)
unfolding validate_update
validate_update-accepts u e h = rw (validate_update, h) refl

validate_update-refuses :
    (u : ConfigUpdate) (e : Option Bytes) (msg : Bytes)
    → fault u ≡ some msg
    → validate_update u e ≡ (set_error msg e, false)
unfolding validate_update
validate_update-refuses u e msg h = rw (validate_update, h) refl

-- Without a fault the update is saved and takes effect.
pub apply_loaded-accepts :
    (s : ConfigStore) (u : ConfigUpdate) (e : Option Bytes)
    → fault u ≡ none
    → apply_loaded s u e ≡ (updated s u, (clear e, true))
unfolding apply_loaded
apply_loaded-accepts s u e h =
    rw
      (
        validate_update-accepts u e h,
        clear-clear e,
        has_error-clear e,
        persist_locked-written s.store (merge_update s u),
      )
      refl

-- With a fault nothing is changed but the error.
pub apply_loaded-refuses :
    (s : ConfigStore) (u : ConfigUpdate) (e : Option Bytes) (msg : Bytes)
    → fault u ≡ some msg
    → apply_loaded s u e ≡ (s, (set_error msg e, false))
unfolding apply_loaded
apply_loaded-refuses s u e msg h = rw (validate_update-refuses u e msg h) refl

none-some : {msg : Bytes} → ¬ (none ≡ some msg)
none-some h = cc

first_fault-says :
    (a b c d : Option Bytes)
    → a ≢ some []
    → b ≢ some []
    → c ≢ some []
    → d ≢ some []
    → first_fault (a ∷ b ∷ c ∷ d ∷ []) ≢ some []
first_fault-says (some x) b c d ha hb hc hd = ha
first_fault-says none (some x) c d ha hb hc hd = hb
first_fault-says none none (some x) d ha hb hc hd = hc
first_fault-says none none none (some x) ha hb hc hd = hd
first_fault-says none none none none ha hb hc hd = λ h. cc

host_fault-says : (u : ConfigUpdate) → host_fault u ≢ some []
unfolding host_fault
host_fault-says u h = ground arith

port_fault-says : (u : ConfigUpdate) → port_fault u ≢ some []
unfolding port_fault
port_fault-says u h = ground arith

user_fault-says : (u : ConfigUpdate) → user_fault u ≢ some []
unfolding user_fault
user_fault-says u h = ground arith

pass_fault-says : (u : ConfigUpdate) → pass_fault u ≢ some []
unfolding pass_fault
pass_fault-says u h = ground arith

fault-says : (u : ConfigUpdate) → fault u ≢ some []
unfolding fault
fault-says u =
    first_fault-says (host_fault u) (port_fault u) (user_fault u) (pass_fault u) (host_fault-says u)
      (port_fault-says u) (user_fault-says u) (pass_fault-says u)

set_error-says :
    (u : ConfigUpdate) (text msg : Bytes) → fault u ≡ some msg → set_error msg (some text) ≢ some []
unfolding set_error
set_error-says u text msg h e = fault-says u (h ∙ e)

-- An update is accepted exactly where each field that it sets to a value of its own keeps the
-- limits of that field: a host of 1 to 190 bytes, a port from 1 to 65535, a user of 64 bytes at
-- most, a password of 128 at most. A refused one leaves the store as it is, loaded, and gives a
-- reason where the caller asks for one.
pub apply_update-Allowed :
    (s : ConfigStore) (u : ConfigUpdate) (text : Bytes)
    → (((apply_update s u (some text)).1.1 ≡ true) ↔ Allowed u)
      × ((apply_update s u (some text)).1.1 ≡ false
          → ((apply_update s u (some text)).0 ≡ ensure_loaded_locked s)
            × ((apply_update s u (some text)).1.0 ≢ some []))
unfolding apply_update
apply_update-Allowed s u text = elim (Option-cases (fault u)) [
  | inl ok ↦
      rw (apply_loaded-accepts (ensure_loaded_locked s) u (some text) ok)
        (((λ h. (fault-Allowed u).0 ok), λ h. refl), λ h. cc)
  | inr (msg, bad) ↦ rw (apply_loaded-refuses (ensure_loaded_locked s) u (some text) msg bad) (
    ((λ h. cc), λ a. absurd (none-some (sym ((fault-Allowed u).1 a) ∙ bad))),
    λ h. (refl, set_error-says u text msg bad),
  )
]

pub ensure_loaded-loaded : (s : ConfigStore) → s.loaded ≡ true → ensure_loaded_locked s ≡ s
unfolding ensure_loaded_locked
ensure_loaded-loaded s h =
    ap
      (λ t.
        if t
        then s
        else record s { current = load_locked s; loaded = true; revision = u32 (s.revision + 1) })
      h

ensure_loaded-sets : (s : ConfigStore) → (ensure_loaded_locked s).loaded ≡ true
unfolding ensure_loaded_locked
ensure_loaded-sets s = ground arith

-- Loading a second time changes nothing.
pub ensure_loaded-twice :
    (s : ConfigStore) → ensure_loaded_locked (ensure_loaded_locked s) ≡ ensure_loaded_locked s
ensure_loaded-twice s = ensure_loaded-loaded (ensure_loaded_locked s) (ensure_loaded-sets s)
