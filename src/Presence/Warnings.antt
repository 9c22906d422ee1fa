-- ===== src/Presence/Warnings.antt =====
-- lib/mqtt_presence/src/MqttPresenceClient.cpp: the lines that are logged for failures to connect.
use kinetic_mirror_matrix_es.Prelude.{
  ap, refl, ℕ, suc, ◌+◌, ◌≤◌, ◌≡◌, ◌∙◌, Bool, true, false, List, [], ◌∷◌, ◌++◌, take, arith,
  if◌then◌else◌,
}
use kinetic_mirror_matrix_es.Text.{Bytes, codes, eq_bytes}
use kinetic_mirror_matrix_es.Net.{Status}
use kinetic_mirror_matrix_es.PublishQueue.{PublishMessage}
use kinetic_mirror_matrix_es.Presence.{
  MqttPresenceClient, failure_line, force_immediate, handle_connect_failure, handle_connected,
  handle_disconnected, keep_pending, loop, make, note_changes, publish_due, publish_ready,
  set_motion_active, set_power_active, update_identity_if_needed, update_ip, update_mac_topic,
}
use kinetic_mirror_matrix_es.Presence.Calls.{
  Call, motion_call, power_call, force_call, disconnected_call, loop_call, refresh_call,
  connected_call, failure_call, apply, run,
}

abbrev is_warning : Bytes → Bool
is_warning line = eq_bytes (take 9 line) (codes "CTRL:WARN")

-- The warnings of a log.
abbrev pub warnings : List Bytes → ℕ
warnings [] = 0
warnings (line ∷ log) = (if is_warning line then 1 else 0) + warnings log

abbrev is_connection : Call → Bool
is_connection (connected_call now_ms broker_info) = true
is_connection _ = false

-- The connections among some calls.
abbrev pub connections : List Call → ℕ
connections [] = 0
connections (x ∷ calls) = (if is_connection x then 1 else 0) + connections calls

warnings-append : (log more : List Bytes) → warnings (log ++ more) ≡ warnings log + warnings more
warnings-append [] more = omega arith
warnings-append (line ∷ log) more = omega (arith, warnings-append log more)

-- A failure may be logged for each connection, and one before the first.
record Warned (n : ℕ) (c : MqttPresenceClient) : Type 0 where
  room : warnings c.log + (if c.failure_logged then 0 else 1) ≤ n

same-Warned :
    {n : ℕ} (c d : MqttPresenceClient)
    → d.log ≡ c.log
    → d.failure_logged ≡ c.failure_logged
    → Warned n c
    → Warned n d
same-Warned c d h k w = record { room = rw (h, k) w.room }

record Same (c d : MqttPresenceClient) : Type 0 where
  log : d.log ≡ c.log
  logged : d.failure_logged ≡ c.failure_logged

update_identity-Same :
    (status : Status) (c : MqttPresenceClient) → Same c (update_identity_if_needed status c)
unfolding update_identity_if_needed update_ip update_mac_topic
update_identity-Same status c = record { log = ground arith; logged = ground arith }

loop-Same :
    {W : Type 0} (publish : W → PublishMessage → W × Bool) (now_ms : ℕ) (status : Status)
    (c : MqttPresenceClient) (w : W)
    → Same (update_identity_if_needed status c) (loop publish now_ms status c w).0
unfolding loop publish_due publish_ready keep_pending note_changes
loop-Same publish now_ms status c w = record { log = ground arith; logged = ground arith }

more-Warned : (n m : ℕ) (c : MqttPresenceClient) → n ≤ m → Warned n c → Warned m c
more-Warned n m c h w = record { room = omega (arith, w.room) }

connected-Warned :
    (now_ms n : ℕ) (broker_info : Bytes) (c : MqttPresenceClient)
    → Warned n c
    → Warned (suc n) (handle_connected now_ms broker_info c)
unfolding handle_connected
connected-Warned now_ms n broker_info c w = record {
  room = ground (
    arith,
    w.room,
    warnings-append c.log ((codes "CTRL: MQTT_CONNECTED broker=" ++ broker_info) ∷ []),
  );
}

failure-Warned :
    (n : ℕ) (details : Bytes) (c : MqttPresenceClient)
    → Warned n c
    → Warned n (handle_connect_failure details c)
unfolding handle_connect_failure
failure-Warned n details c w = record {
  room = ground (arith, w.room, warnings-append c.log (failure_line details ∷ []));
}

connected-warnings :
    (now_ms : ℕ) (broker_info : Bytes) (c : MqttPresenceClient)
    → warnings (handle_connected now_ms broker_info c).log ≡ warnings c.log
unfolding handle_connected
connected-warnings now_ms broker_info c =
    ground
      (arith, warnings-append c.log ((codes "CTRL: MQTT_CONNECTED broker=" ++ broker_info) ∷ []))

failure-log :
    (now_ms : ℕ) (broker_info details : Bytes) (c : MqttPresenceClient)
    → (handle_connect_failure details (handle_connected now_ms broker_info c)).log
      ≡ (handle_connected now_ms broker_info c).log ++ (failure_line details ∷ [])
unfolding handle_connect_failure handle_connected
failure-log now_ms broker_info details c = refl

connected-failure :
    (now_ms : ℕ) (broker_info details : Bytes) (c : MqttPresenceClient)
    → warnings (handle_connect_failure details (handle_connected now_ms broker_info c)).log
      ≡ warnings c.log + 1
connected-failure now_ms broker_info details c =
    ap warnings (failure-log now_ms broker_info details c)
    ∙ warnings-append (handle_connected now_ms broker_info c).log (failure_line details ∷ [])
    ∙ ap (λ n. n + 1) (connected-warnings now_ms broker_info c)

module _ {W : Type 0} (publish : W → PublishMessage → W × Bool) where
  apply-Warned :
      (x : Call) (n : ℕ) (c : MqttPresenceClient) (w : W)
      → Warned n c
      → Warned ((if is_connection x then 1 else 0) + n) (apply publish x (c, w)).0
  unfolding apply set_motion_active set_power_active force_immediate handle_disconnected
  apply-Warned (motion_call active) n c w h = record { room = omega (arith, h.room) }
  apply-Warned (power_call active) n c w h = record { room = omega (arith, h.room) }
  apply-Warned force_call n c w h = record { room = omega (arith, h.room) }
  apply-Warned disconnected_call n c w h = record { room = omega (arith, h.room) }
  apply-Warned (loop_call now_ms status) n c w h =
      let kept = update_identity-Same status c in
      let same = loop-Same publish now_ms status c w in
      more-Warned n _ _ (omega arith)
        (same-Warned c _ (same.log ∙ kept.log) (same.logged ∙ kept.logged) h)
  apply-Warned (refresh_call status) n c w h =
      let kept = update_identity-Same status c in
      more-Warned n _ _ (omega arith) (same-Warned c _ kept.log kept.logged h)
  apply-Warned (connected_call now_ms broker_info) n c w h =
      more-Warned (suc n) _ _ (omega arith) (connected-Warned now_ms n broker_info c h)
  apply-Warned (failure_call details) n c w h =
      more-Warned n _ _ (omega arith) (failure-Warned n details c h)

  run-Warned :
      (calls : List Call) (n : ℕ) (c : MqttPresenceClient) (w : W)
      → Warned n c
      → Warned (connections calls + n) (run publish calls (c, w)).0
  run-Warned [] n c w h = more-Warned n _ _ (omega arith) h
  run-Warned (x ∷ calls) n c w h =
      more-Warned (connections calls + ((if is_connection x then 1 else 0) + n)) _ _ (omega arith)
        (run-Warned calls _ _ _ (apply-Warned x n c w h))

  run-warnings_from :
      (calls : List Call) (c : MqttPresenceClient) (w : W)
      → connections calls ≡ 0
      → warnings (run publish calls (c, w)).0.log ≤ warnings c.log + 1
  run-warnings_from calls c w none_connects =
      let n = warnings c.log + 1 in
      let room : Warned n c = record { room = ground arith } in
      omega (arith, (run-Warned calls n c w room).room, none_connects)

  run-after :
      (xs ys : List Call) (s : MqttPresenceClient × W)
      → run publish (xs ++ ys) s ≡ run publish ys (run publish xs s)
  run-after [] ys s = refl
  run-after (x ∷ xs) ys s = run-after xs ys (apply publish x s)

  -- After any calls, however often a connection fails then: calls among which the client does not
  -- connect add one warning to the log at most, and a connection with a failure after it adds
  -- exactly one.
  pub run-warnings :
      (mac : Bytes) (status : Status) (w : W) (before calls : List Call)
      → connections calls ≡ 0
      → let s = run publish before (make mac status, w) in
        (warnings (run publish (before ++ calls) (make mac status, w)).0.log ≤ warnings s.0.log + 1)
        × ((now_ms : ℕ) (broker_info details : Bytes)
            → warnings
                (run publish
                  (before ++ (connected_call now_ms broker_info ∷ failure_call details ∷ []))
                  (make mac status, w)).0.log
              ≡ warnings s.0.log + 1)
  unfolding apply
  run-warnings mac status w before calls none_connects =
      let s = run publish before (make mac status, w) in
      (
        rw (run-after before calls (make mac status, w))
            (run-warnings_from calls s.0 s.1 none_connects),
        λ now_ms broker_info details.
            let pair = connected_call now_ms broker_info ∷ failure_call details ∷ [] in
            rw (run-after before pair (make mac status, w))
              (connected-failure now_ms broker_info details s.0),
      )
