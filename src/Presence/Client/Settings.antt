-- ===== src/Presence/Client/Settings.antt =====
-- lib/mqtt_presence/src/MqttPresenceClient.cpp with lib/mqtt_config/src/MqttConfigStore.cpp: how new
-- settings of the broker reach the client.
use kinetic_mirror_matrix_es.Prelude.{
  ℕ, ◌+◌, ◌≡◌, refl, sym, ap, subst, ◌∙◌, Bool, not, true, false, [], ◌∷◌, ◌==◌, u32, Option, some,
  none, arith, if◌then◌else◌, Bool-cases, inl, inr,
}
use kinetic_mirror_matrix_es.Text.{Bytes, is_empty}
use kinetic_mirror_matrix_es.Text.Trim.{empty-nil}
use kinetic_mirror_matrix_es.PublishQueue.{PublishMessage, Queue}
use kinetic_mirror_matrix_es.Presence.{
  MqttPresenceClient, keep_pending, note_changes, offline_payload, prepared, publish_due,
  publish_ready, update_identity_if_needed,
}
use kinetic_mirror_matrix_es.Presence
use kinetic_mirror_matrix_es.Net.{Status}
use kinetic_mirror_matrix_es.ConfigStore.{
  BrokerConfig, ConfigStore, ConfigUpdate, apply_update, current_config,
}
use kinetic_mirror_matrix_es.ConfigStore.Checks.{
  Allowed, apply_loaded-accepts, ensure_loaded-loaded, fault-Allowed, updated,
}
use kinetic_mirror_matrix_es.Presence.Client.{AsyncMqttClient, Impl, desired_client_id}
use kinetic_mirror_matrix_es.Presence.Client.Operations.{
  advance, attempt, drain, drain_publish_queue, log, loop, loop_logic, publish_now,
}
use kinetic_mirror_matrix_es.Presence.Client.Broker.{
  apply_broker_config, credentials, maybe_refresh_broker_config, refresh_client_id,
  refresh_client_identity, refresh_will, size16,
}

-- The broker and the login that the library connects with.
pub record Seen : Type 0 where
  pub host : Bytes
  pub port : ℕ
  pub user : Bytes
  pub pass : Option Bytes

abbrev pub wanted : BrokerConfig → Seen
wanted cfg = record {
  host = cfg.host;
  port = cfg.port;
  user = cfg.user;
  pass = if is_empty cfg.pass then none else some cfg.pass;
}

abbrev seen_at : Bytes → ℕ → Bytes → Seen
seen_at host port user = record { host = host; port = port; user = user; pass = none }

-- A revision is never the one before it.
revision-moves : (n : ℕ) → (u32 (n + 1) == n) ≡ false
revision-moves n = ground arith

publish_due-keeps :
    {W A : Type 0} (publish : W → PublishMessage → W × Bool) (f : W → A)
    → ((w : W) (m : PublishMessage) → f (publish w m).0 ≡ f w)
    → (now_ms : ℕ) (c : MqttPresenceClient) (w : W) → f (publish_due publish now_ms c w).1 ≡ f w
unfolding publish_due publish_ready keep_pending
publish_due-keeps publish f keeps now_ms c w = ground (arith, keeps w (prepared c))

if-keeps :
    {W A : Type 0} (f : W → A) (t : Bool) (x y : MqttPresenceClient × W) {a : A}
    → f x.1 ≡ a
    → f y.1 ≡ a
    → f (if t then x else y).1 ≡ a
if-keeps f true x y p q = p
if-keeps f false x y p q = q

loop-keeps :
    {W A : Type 0} (publish : W → PublishMessage → W × Bool) (f : W → A)
    → ((w : W) (m : PublishMessage) → f (publish w m).0 ≡ f w)
    → (now_ms : ℕ) (status : Status) (c : MqttPresenceClient) (w : W)
    → f (Presence.loop publish now_ms status c w).1 ≡ f w
unfolding Presence.loop
loop-keeps publish f keeps now_ms status c w =
    let c' = update_identity_if_needed status c in
    if-keeps f (not c'.connected) (c', w) (publish_due publish now_ms (note_changes c') w) refl
      (publish_due-keeps publish f keeps now_ms (note_changes c') w)

module _ (l : AsyncMqttClient) (seen : l.Client → Seen) where
  -- What the source relies on: the library keeps the broker and the login that it was given last,
  -- whatever else is asked of it.
  pub record Remembers : Type 0 where
    pub sets :
        (c : l.Client) (host : Bytes) (port : ℕ) (user : Bytes) (pass : Option Bytes)
        → seen (l.set_credentials (l.set_server c host port) user pass)
          ≡ record { host = host; port = port; user = user; pass = pass }
    pub connects : (c : l.Client) → seen (l.connect c) ≡ seen c
    pub disconnects : (c : l.Client) → seen (l.disconnect c) ≡ seen c
    pub publishes :
        (c : l.Client) (topic : Bytes) (qos : ℕ) (retain : Bool) (payload : Bytes) (size : ℕ)
        → seen (l.publish c topic qos retain payload size).0 ≡ seen c
    pub will :
        (c : l.Client) (topic : Bytes) (qos : ℕ) (retain : Bool) (payload : Bytes) (size : ℕ)
        → seen (l.set_will c topic qos retain payload size) ≡ seen c
    pub client_id : (c : l.Client) (id : Bytes) → seen (l.set_client_id c id) ≡ seen c

  -- The library has the broker and the login of the settings.
  pub Uses : BrokerConfig → Impl l → Type 0
  Uses cfg i = seen i.client ≡ wanted cfg

  credentials-seen :
      Remembers
      → (cfg : BrokerConfig) (c : l.Client)
      → seen (credentials l cfg (l.set_server c cfg.host cfg.port)) ≡ wanted cfg
  credentials-seen r cfg c = elim (Bool-cases (is_empty cfg.user)) [
    | inr named ↦ rw named (r.sets c cfg.host cfg.port cfg.user _)
    | inl unnamed ↦ elim (Bool-cases (is_empty cfg.pass)) [
      | inr secret ↦ rw (unnamed, secret) (r.sets c cfg.host cfg.port cfg.user (some cfg.pass))
      | inl open_access ↦
          rw (unnamed, open_access)
            (r.sets c cfg.host cfg.port [] none
              ∙ ap (λ (u : Bytes). seen_at cfg.host cfg.port u) (sym (empty-nil cfg.user unnamed)))
    ]
  ]

  apply_broker_config-Uses :
      Remembers → (cfg : BrokerConfig) (i : Impl l) → Uses cfg (apply_broker_config l cfg true i)
  unfolding Uses apply_broker_config
  apply_broker_config-Uses r cfg i =
      let c = credentials l cfg (l.set_server i.client cfg.host cfg.port) in
      ground (arith, credentials-seen r cfg i.client, r.disconnects c)

  refreshed-Uses :
      Remembers
      → (store : ConfigStore) (i : Impl l) → (store.revision == i.last_config_revision) ≡ false
      → Uses (current_config store).1 (maybe_refresh_broker_config l store i).1
  unfolding Uses maybe_refresh_broker_config
  refreshed-Uses r store i new = rw new (apply_broker_config-Uses r (current_config store).1 i)

  publish_now-seen :
      Remembers → (c : l.Client) (m : PublishMessage) → seen (publish_now l c m).0 ≡ seen c
  unfolding publish_now
  publish_now-seen r c m =
      ground (arith, r.publishes c m.topic m.qos m.retain m.payload (size16 m.payload))

  refresh-seen :
      Remembers
      → (prefix : Bytes) (i : Impl l)
      → seen (refresh_client_identity l prefix i).client ≡ seen i.client
  unfolding refresh_client_identity refresh_client_id refresh_will
  refresh-seen r prefix i = ground (
    arith,
    r.will i.client i.logic.topic 0 false offline_payload (size16 offline_payload),
    r.client_id i.client (desired_client_id prefix i.logic.topic),
    r.client_id (refresh_will l i).client (desired_client_id prefix i.logic.topic),
  )

  drain-seen : Remembers → (c : l.Client) (queue : Queue) → seen (drain l c queue).0 ≡ seen c
  unfolding drain
  drain-seen r c [] = refl
  drain-seen r c (m ∷ queue) =
      let sent = l.publish c m.topic m.qos m.retain m.payload (size16 m.payload) in
      let rest = drain-seen r sent.0 queue in
      ground (arith, rest, r.publishes c m.topic m.qos m.retain m.payload (size16 m.payload))

  advance-seen :
      Remembers
      → (now_ms : ℕ) (status : Status) (i : Impl l)
      → seen (advance l now_ms status i).client ≡ seen i.client
  unfolding advance attempt log drain_publish_queue
  advance-seen r now_ms status i =
      ground (arith, r.connects i.client, drain-seen r i.client i.publish_queue)

  loop-Uses :
      Remembers
      → (prefix : Bytes) (now_ms : ℕ) (status : Status) (store : ConfigStore) (i : Impl l)
      → (store.revision == i.last_config_revision) ≡ false
      → Uses (current_config store).1 (loop l prefix now_ms status store i).1
  unfolding Uses loop loop_logic
  loop-Uses r prefix now_ms status store i new =
      let j = (maybe_refresh_broker_config l store i).1 in
      advance-seen r now_ms status _
      ∙ refresh-seen r prefix _
      ∙ loop-keeps (publish_now l) seen (publish_now-seen r) now_ms status j.logic j.client
      ∙ refreshed-Uses r store i new

  -- A library that keeps the broker and the login that it was given last; a client whose settings
  -- are up to date, and settings that are loaded: whatever an allowed update says, the next `loop`
  -- leaves the library with the host, the port, the user and the password that are in force after
  -- the update, where an empty password is none.
  pub update-loop-Uses :
      Remembers
      → (prefix : Bytes) (now_ms : ℕ) (status : Status) (store : ConfigStore) (i : Impl l)
        (u : ConfigUpdate) (error : Option Bytes)
      → store.revision ≡ i.last_config_revision
      → store.loaded ≡ true
      → Allowed u
      → let store' = (apply_update store u error).0 in
        Uses (current_config store').1 (loop l prefix now_ms status store' i).1
  unfolding apply_update
  update-loop-Uses r prefix now_ms status store i u error same loaded ok =
      rw
        (
          ensure_loaded-loaded store loaded,
          apply_loaded-accepts store u error ((fault-Allowed u).1 ok),
        )
        (loop-Uses r prefix now_ms status (updated store u) i (
          subst (λ n. (u32 (store.revision + 1) == n) ≡ false) same
            (revision-moves store.revision)))
