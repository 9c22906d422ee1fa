-- ===== src/Presence/Current.antt =====
-- lib/mqtt_presence/src/MqttPresenceClient.cpp: what the broker was last told of the node.
use kinetic_mirror_matrix_es.Presence.Calls.{
  Call, motion_call, power_call, force_call, disconnected_call, loop_call, refresh_call,
  connected_call, failure_call, apply, run, run-append,
}
use kinetic_mirror_matrix_es.Presence.Fresh.{
  Fresh, update_identity-Fresh, due-Fresh, Fresh-if, Told, Outcome, published-Outcome, Refused,
  refused-Outcome, Outcome-if, idle-Outcome, make-Fresh,
}
use kinetic_mirror_matrix_es.Presence.Ready.{Ready, update_identity-last_ip, same-Ready}
use kinetic_mirror_matrix_es.Prelude.{
  ℕ, ◌≡◌, ◌⊎◌, refl, ◌∙◌, Bool, true, false, not, ◌||◌, List, [], ◌∷◌, ◌++◌, Option, some, arith,
  if◌then◌else◌, Bool-cases, inl, inr,
}
use kinetic_mirror_matrix_es.Text.{Bytes}
use kinetic_mirror_matrix_es.Net.{Status}
use kinetic_mirror_matrix_es.PublishQueue.{PublishMessage}
use kinetic_mirror_matrix_es.Presence.{
  MqttPresenceClient, force_immediate, handle_connect_failure, handle_connected,
  handle_disconnected, ip_of, keep_pending, loop, make, note_changes, differs, prepared,
  publish_due, publish_ready, set_motion_active, set_power_active, update_identity_if_needed,
}

module _ {W : Type 0} (publish : W → PublishMessage → W × Bool) (last : W → Option PublishMessage)
    (accepts : (w : W) (m : PublishMessage)
      → (publish w m).1 ≡ true
      → last (publish w m).0 ≡ some m)
    (refuses : (w : W) (m : PublishMessage)
      → (publish w m).1 ≡ false
      → last (publish w m).0 ≡ last w) where
  publish_ready-Outcome :
      (now_ms : ℕ) (c : MqttPresenceClient) (w : W)
      → Ready c
      → Outcome publish last (keep_pending (publish_ready publish now_ms c w))
  unfolding publish_ready keep_pending
  publish_ready-Outcome now_ms c w r = elim (Bool-cases (publish w (prepared c)).1) [
    | inl took ↦ rw took (
        published-Outcome publish last now_ms c (publish w (prepared c)).0 r
          (accepts w (prepared c) took))
    | inr refused ↦ rw refused (refused-Outcome publish last c w r refused)
  ]

  publish_due-any :
      (now_ms : ℕ) (c : MqttPresenceClient) (w : W)
      → Ready c
      → (c.publish_pending || c.immediate_requested ≡ false → Outcome publish last (c, w))
      → Outcome publish last (publish_due publish now_ms c w)
  unfolding publish_due
  publish_due-any now_ms c w r h =
      Outcome-if publish last (c.publish_pending || c.immediate_requested)
        (keep_pending (publish_ready publish now_ms c w)) (c, w)
        (publish_ready-Outcome now_ms c w r) h

  -- The client connected, the changes noted.
  publish_due-Outcome :
      (now_ms : ℕ) (c : MqttPresenceClient) (w : W)
      → Fresh publish last c w
      → c.connected ≡ true
      → Outcome publish last (publish_due publish now_ms (note_changes c) w)
  unfolding note_changes
  publish_due-Outcome now_ms c w f on =
      elim (Bool-cases (
        differs c.motion_active c.last_motion_active
        || differs c.power_active c.last_power_active)) [
          | inl changed ↦ rw changed (
              publish_due-any now_ms (record c { immediate_requested = true }) w
                (due-Fresh publish last c w f.ready).ready (λ h. absurd (ground arith)))
          | inr same ↦
              rw same (publish_due-any now_ms c w f.ready (idle-Outcome publish last c w f on same))
        ]

  publish_due-keeps :
      (now_ms : ℕ) (c : MqttPresenceClient) (w : W)
      → ((publish_due publish now_ms (note_changes c) w).0.last_ip ≡ c.last_ip)
        × ((publish_due publish now_ms (note_changes c) w).0.connected ≡ c.connected)
  unfolding publish_due publish_ready keep_pending note_changes
  publish_due-keeps now_ms c w = ground arith

  -- One `loop`, by whether the client is connected.
  loop-if :
      (now_ms : ℕ) (c : MqttPresenceClient) (w : W) (on : Bool)
      → c.connected ≡ on
      → Fresh publish last c w
      → Fresh publish last
          (if not on then (c, w) else publish_due publish now_ms (note_changes c) w).0
          (if not on then (c, w) else publish_due publish now_ms (note_changes c) w).1
  loop-if now_ms c w true h f = (publish_due-Outcome now_ms c w f h).stays
  loop-if now_ms c w false h f = f

  apply-Fresh :
      (x : Call) (c : MqttPresenceClient) (w : W)
      → Fresh publish last c w
      → Fresh publish last (apply publish x (c, w)).0 (apply publish x (c, w)).1
  unfolding apply set_motion_active set_power_active force_immediate handle_disconnected loop
      handle_connected handle_connect_failure
  apply-Fresh (motion_call active) c w f = record {
    ready = same-Ready f.ready refl refl;
    fresh = f.fresh;
  }
  apply-Fresh (power_call active) c w f = record {
    ready = same-Ready f.ready refl refl;
    fresh = f.fresh;
  }
  apply-Fresh force_call c w f = due-Fresh publish last c w f.ready
  apply-Fresh disconnected_call c w f = record {
    ready = same-Ready f.ready refl refl;
    fresh = λ h k l. cc;
  }
  apply-Fresh (loop_call now_ms status) c w f =
      loop-if now_ms (update_identity_if_needed status c) w _ refl
        (update_identity-Fresh publish last status c w f)
  apply-Fresh (refresh_call status) c w f = update_identity-Fresh publish last status c w f
  apply-Fresh (connected_call now_ms broker_info) c w f = record {
    ready = same-Ready f.ready refl refl;
    fresh = λ h k l. cc;
  }
  apply-Fresh (failure_call details) c w f =
      Fresh-if publish last c.failure_logged _ _ w f
        (record { ready = same-Ready f.ready refl refl; fresh = f.fresh })

  run-Fresh :
      (calls : List Call) (c : MqttPresenceClient) (w : W)
      → Fresh publish last c w
      → Fresh publish last (run publish calls (c, w)).0 (run publish calls (c, w)).1
  run-Fresh [] c w f = f
  run-Fresh (x ∷ calls) c w f = run-Fresh calls _ _ (apply-Fresh x c w f)

  loop-told :
      (now_ms : ℕ) (c : MqttPresenceClient) (w : W) (on : Bool)
      → c.connected ≡ on
      → Fresh publish last c w
      → let s = (if not on then (c, w) else publish_due publish now_ms (note_changes c) w) in
        s.0.connected ≡ true
        → (s.0.last_ip ≡ c.last_ip) × (Refused publish last s.0 s.1 ⊎ Told publish last s.0 s.1)
  loop-told now_ms c w true h f on =
      ((publish_due-keeps now_ms c w).0, (publish_due-Outcome now_ms c w f h).told)
  loop-told now_ms c w false h f on = absurd (ground arith)

  -- Where the function that publishes says whether the broker got the message: after any calls, a
  -- `loop` of a connected client leaves the broker with the node's present topic and address as
  -- the last message, and the present motion and power noted, unless that message was offered to
  -- the function last and refused; it then stays pending for the next `loop`. The address is the
  -- one of the network's status.
  pub run-loop-Told :
      (mac : Bytes) (initial status : Status) (w : W) (calls : List Call) (now_ms : ℕ)
      → let s = run publish (calls ++ loop_call now_ms status ∷ []) (make mac initial, w) in
        s.0.connected ≡ true
        → (s.0.last_ip ≡ ip_of status) × (Refused publish last s.0 s.1 ⊎ Told publish last s.0 s.1)
  unfolding apply loop
  run-loop-Told mac initial status w calls now_ms =
      rw (run-append publish calls (loop_call now_ms status) (make mac initial, w)) (λ on.
        let s = run publish calls (make mac initial, w) in
        let f : Fresh publish last s.0 s.1 =
          run-Fresh calls (make mac initial) w (make-Fresh publish last mac initial w) in
        let c = update_identity_if_needed status s.0 in
        let (ip, told) =
          loop-told now_ms c s.1 c.connected refl
            (update_identity-Fresh publish last status s.0 s.1 f) on in
        (ip ∙ update_identity-last_ip status s.0, told))
