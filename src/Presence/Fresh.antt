-- ===== src/Presence/Fresh.antt =====
-- lib/mqtt_presence/src/MqttPresenceClient.cpp: when the last message is still the one for now.
use kinetic_mirror_matrix_es.Presence.Ready.{Ready, ready_message, prepared-ready, ip_of-known}
use kinetic_mirror_matrix_es.Prelude.{
  sym, ℕ, ◌≡◌, ◌⊎◌, refl, ap, ◌∙◌, Bool, true, false, ◌||◌, Option, some, arith, if◌then◌else◌,
  Bool-cases, inl, inr,
}
use kinetic_mirror_matrix_es.Text.{Bytes, is_empty, eq_bytes}
use kinetic_mirror_matrix_es.Net.{Status, fit}
use kinetic_mirror_matrix_es.PublishQueue.{PublishMessage}
use kinetic_mirror_matrix_es.Presence.{
  MqttPresenceClient, ip_of, fresh, make, normalize_mac_to_topic, note_changes, differs, prepared,
  published, update_identity_if_needed, update_ip, update_mac_topic,
}

module _ {W : Type 0} (publish : W → PublishMessage → W × Bool)
    (last : W → Option PublishMessage) where
  -- While connected with nothing due, the last accepted message is the one for now.
  pub record Fresh (c : MqttPresenceClient) (w : W) : Type 0 where
    pub ready : Ready c
    pub fresh :
        c.connected ≡ true
        → c.publish_pending ≡ false
        → c.immediate_requested ≡ false
        → last w ≡ some (ready_message c.topic c.last_ip)

  update_ip-Fresh :
      (ip : Bytes) (c : MqttPresenceClient) (w : W)
      → is_empty ip ≡ false
      → Fresh c w
      → Fresh (update_ip ip c) w
  unfolding update_ip
  update_ip-Fresh ip c w known f = elim (Bool-cases (eq_bytes ip c.last_ip)) [
    | inl same ↦ rw same f
    | inr other ↦ rw other (record {
      ready = record {
        has_ip = known;
        qos = f.ready.qos;
        retain = f.ready.retain;
        is_status = f.ready.is_status;
      };
      fresh = λ h k l. ground arith;
    })
  ]

  update_mac_topic-Fresh :
      (normalized : Bytes) (c : MqttPresenceClient) (w : W)
      → Fresh c w
      → Fresh (update_mac_topic normalized c) w
  unfolding update_mac_topic
  update_mac_topic-Fresh normalized c w f =
      elim (Bool-cases (is_empty normalized || eq_bytes normalized c.mac_topic)) [
        | inl same ↦ rw same f
        | inr other ↦ rw other (record {
          ready = record {
            has_ip = f.ready.has_ip;
            qos = f.ready.qos;
            retain = f.ready.retain;
            is_status = refl;
          };
          fresh = λ h k l. cc;
        })
      ]

  pub update_identity-Fresh :
      (status : Status) (c : MqttPresenceClient) (w : W)
      → Fresh c w
      → Fresh (update_identity_if_needed status c) w
  unfolding update_identity_if_needed
  update_identity-Fresh status c w f =
      let f' : Fresh (update_ip (ip_of status) c) w =
        update_ip-Fresh (ip_of status) c w (ip_of-known status) f in
      elim (is_empty status.mac)
        as (λ t.
          Fresh
            (if t
              then update_ip (ip_of status) c
              else update_mac_topic (normalize_mac_to_topic (fit 18 status.mac))
                  (update_ip (ip_of status) c))
            w) [ true ↦ f' | false ↦ update_mac_topic-Fresh _ _ w f' ]

  pub due-Fresh :
      (c : MqttPresenceClient) (w : W) → Ready c → Fresh (record c { immediate_requested = true }) w
  due-Fresh c w r = record {
    ready = record { has_ip = r.has_ip; qos = r.qos; retain = r.retain; is_status = r.is_status };
    fresh = λ h k l. cc;
  }

  pub Fresh-if :
      (t : Bool) (a b : MqttPresenceClient) (w : W)
      → Fresh a w
      → Fresh b w
      → Fresh (if t then a else b) w
  Fresh-if true a b w f g = f
  Fresh-if false a b w f g = g

  note_changes-Fresh : (c : MqttPresenceClient) (w : W) → Fresh c w → Fresh (note_changes c) w
  unfolding note_changes
  note_changes-Fresh c w f = Fresh-if _ _ c w (due-Fresh c w f.ready) f

  -- The broker was told the topic and the address, and knows the motion and the power.
  pub record Told (c : MqttPresenceClient) (w : W) : Type 0 where
    pub message : last w ≡ some (ready_message c.topic c.last_ip)
    pub motion : c.last_motion_active ≡ c.motion_active
    pub power : c.last_power_active ≡ c.power_active

  -- The present message was refused just now, and is still due.
  pub record Refused (c : MqttPresenceClient) (w : W) : Type 0 where
    pub due : c.publish_pending ≡ true
    pub refused :
        (before : W) × ((publish before (ready_message c.topic c.last_ip)).1 ≡ false)
        × ((publish before (ready_message c.topic c.last_ip)).0 ≡ w)

  -- Published, or refused and still due.
  pub record Outcome (s : MqttPresenceClient × W) : Type 0 where
    pub stays : Fresh s.0 s.1
    pub told : Refused s.0 s.1 ⊎ Told s.0 s.1

  pub published-Outcome :
      (now_ms : ℕ) (c : MqttPresenceClient) (w : W)
      → Ready c
      → last w ≡ some (prepared c)
      → Outcome (published now_ms c, w)
  published-Outcome now_ms c w r h =
      let e : last w ≡ some (ready_message c.topic c.last_ip) = h ∙ ap some (prepared-ready c r) in
      record {
        stays = record {
          ready = record {
            has_ip = r.has_ip;
            qos = r.qos;
            retain = r.retain;
            is_status = r.is_status;
          };
          fresh = λ k l m. e;
        };
        told = inr (record { message = e; motion = refl; power = refl });
      }

  pub refused-Outcome :
      (c : MqttPresenceClient) (w : W)
      → Ready c
      → (publish w (prepared c)).1 ≡ false
      → Outcome (
        record c { ready_publish = prepared c; publish_pending = true },
        (publish w (prepared c)).0,
      )
  refused-Outcome c w r is_no = record {
    stays = record {
      ready = record { has_ip = r.has_ip; qos = r.qos; retain = r.retain; is_status = r.is_status };
      fresh = λ h k l. cc;
    };
    told = inl (record {
      due = refl;
      refused = (
        w,
        ap (λ m. (publish w m).1) (sym (prepared-ready c r)) ∙ is_no,
        ap (λ m. (publish w m).0) (sym (prepared-ready c r)),
      );
    });
  }

  same-differs : (a b : Bool) → differs a b ≡ false → b ≡ a
  same-differs true true h = refl
  same-differs true false h = cc
  same-differs false true h = cc
  same-differs false false h = refl

  pub Outcome-if :
      (t : Bool) (a b : MqttPresenceClient × W)
      → Outcome a
      → (t ≡ false → Outcome b)
      → Outcome (if t then a else b)
  Outcome-if true a b f g = f
  Outcome-if false a b f g = g refl

  or_false : (a b : Bool) → a || b ≡ false → (a ≡ false) × (b ≡ false)
  or_false a b h = ground arith

  -- Nothing is due, and nothing has changed.
  pub idle-Outcome :
      (c : MqttPresenceClient) (w : W)
      → Fresh c w
      → c.connected ≡ true
      → differs c.motion_active c.last_motion_active || differs c.power_active c.last_power_active
        ≡ false
      → c.publish_pending || c.immediate_requested ≡ false
      → Outcome (c, w)
  idle-Outcome c w f on same due =
      let (motion, power) = or_false _ _ same in
      let (pending, immediate) = or_false _ _ due in
      record {
        stays = f;
        told = inr (record {
          message = f.fresh on pending immediate;
          motion = same-differs c.motion_active c.last_motion_active motion;
          power = same-differs c.power_active c.last_power_active power;
        });
      }

  pub make-Fresh : (mac : Bytes) (status : Status) (w : W) → Fresh (make mac status) w
  unfolding make
  make-Fresh mac status w =
      update_identity-Fresh status (fresh (normalize_mac_to_topic mac)) w (record {
        ready = record { has_ip = refl; qos = refl; retain = refl; is_status = refl };
        fresh = λ h k l. cc;
      })
