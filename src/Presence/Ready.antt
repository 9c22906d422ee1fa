-- ===== src/Presence/Ready.antt =====
-- lib/mqtt_presence/src/MqttPresenceClient.cpp: the message that is kept, and the address.
use kinetic_mirror_matrix_es.Prelude.{
  ◌≡◌, refl, ap, sym, ◌∙◌, true, false, ◌||◌, [], ◌∷◌, if◌then◌else◌, Bool-cases, inl, inr,
}
use kinetic_mirror_matrix_es.Text.{Bytes, is_empty, eq_bytes}
use kinetic_mirror_matrix_es.Net.{Status, no_ip}
use kinetic_mirror_matrix_es.PublishQueue.{PublishMessage}
use kinetic_mirror_matrix_es.Text.Numbers.{eq_bytes→≡}
use kinetic_mirror_matrix_es.Presence.{
  MqttPresenceClient, build_ready_payload, ip_of, prepared, update_identity_if_needed, update_ip,
  update_mac_topic,
}

-- The message for a topic and an address.
abbrev pub ready_message : Bytes → Bytes → PublishMessage
unfolding build_ready_payload
ready_message topic ip = record {
  topic = topic;
  payload = build_ready_payload ip;
  qos = 0;
  retain = false;
  is_status = true;
}

-- The message that is kept has the values of the constructor, and an address is known.
pub record Ready (c : MqttPresenceClient) : Type 0 where
  pub has_ip : is_empty c.last_ip ≡ false
  pub qos : c.ready_publish.qos ≡ 0
  pub retain : c.ready_publish.retain ≡ false
  pub is_status : c.ready_publish.is_status ≡ true

pub ip_of-known : (status : Status) → is_empty (ip_of status) ≡ false
ip_of-known status = known status.ip
  where
    known : (ip : Bytes) → is_empty (if is_empty ip then no_ip else ip) ≡ false
    known [] = refl
    known (c ∷ s) = refl

pub prepared-ready :
    (c : MqttPresenceClient) → Ready c → prepared c ≡ ready_message c.topic c.last_ip
unfolding build_ready_payload
prepared-ready c r = rw (r.has_ip, r.qos, r.retain, r.is_status) refl

update_ip-last_ip : (ip : Bytes) (c : MqttPresenceClient) → (update_ip ip c).last_ip ≡ ip
unfolding update_ip
update_ip-last_ip ip c = elim (Bool-cases (eq_bytes ip c.last_ip)) [
  | inl same ↦ rw same (sym (eq_bytes→≡ ip c.last_ip same))
  | inr other ↦ rw other refl
]

update_mac_topic-last_ip :
    (normalized : Bytes) (c : MqttPresenceClient)
    → (update_mac_topic normalized c).last_ip ≡ c.last_ip
unfolding update_mac_topic
update_mac_topic-last_ip normalized c =
    elim (Bool-cases (is_empty normalized || eq_bytes normalized c.mac_topic)) [
      | inl same ↦ rw same refl
      | inr other ↦ rw other refl
    ]

pub update_identity-last_ip :
    (status : Status) (c : MqttPresenceClient)
    → (update_identity_if_needed status c).last_ip ≡ ip_of status
unfolding update_identity_if_needed
update_identity-last_ip status c = elim (Bool-cases (is_empty status.mac)) [
  | inl unknown ↦ rw unknown (update_ip-last_ip (ip_of status) c)
  | inr known ↦ rw known (update_mac_topic-last_ip _ _ ∙ update_ip-last_ip (ip_of status) c)
]

-- The same members under a record with others changed.
pub same-Ready :
    {c d : MqttPresenceClient}
    → Ready c
    → d.last_ip ≡ c.last_ip
    → d.ready_publish ≡ c.ready_publish
    → Ready d
same-Ready r h k = record {
  has_ip = ap is_empty h ∙ r.has_ip;
  qos = ap (λ m. m.qos) k ∙ r.qos;
  retain = ap (λ m. m.retain) k ∙ r.retain;
  is_status = ap (λ m. m.is_status) k ∙ r.is_status;
}
