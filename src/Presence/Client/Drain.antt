-- ===== src/Presence/Client/Drain.antt =====
-- lib/mqtt_presence/src/MqttPresenceClient.cpp, `drainPublishQueue`: the messages that wait and
-- those that the broker has.
use kinetic_mirror_matrix_es.Prelude.{
  ℕ, ◌≡◌, refl, ap, ◌∙◌, Bool, true, false, List, [], ◌∷◌, ◌++◌, map, take, ◌==◌, ==_iff,
  if◌then◌else◌, Bool-cases, inl, inr,
}
use mathlib.Core.List.{append_assoc}
use kinetic_mirror_matrix_es.Text.{Bytes}
use kinetic_mirror_matrix_es.PublishQueue.{PublishMessage, Queue}
use kinetic_mirror_matrix_es.Presence.Client.{AsyncMqttClient, Impl}
use kinetic_mirror_matrix_es.Presence.Client.Operations.{drain, drain_publish_queue}
use kinetic_mirror_matrix_es.Presence.Client.Broker.{size16}

-- What is sent of a message: of its payload, the bytes that its 16-bit length counts.
pub record Packet : Type 0 where
  pub topic : Bytes
  pub qos : ℕ
  pub retain : Bool
  pub payload : Bytes

abbrev pub packet : PublishMessage → Packet
packet m = record {
  topic = m.topic;
  qos = m.qos;
  retain = m.retain;
  payload = take (size16 m.payload) m.payload;
}

module _ (l : AsyncMqttClient) (sent : l.Client → List Packet) where
  abbrev pub publish : l.Client → PublishMessage → l.Client × ℕ
  publish client m = l.publish client m.topic m.qos m.retain m.payload (size16 m.payload)

  -- What the source relies on: the library sends a message that it gives an id, and no other.
  abbrev pub Sends : Type 0
  Sends =
      (client : l.Client) (m : PublishMessage)
      → sent (publish client m).0
        ≡ (if (publish client m).1 == 0 then sent client else sent client ++ (packet m ∷ []))

  -- Nothing waits, or the first message was refused.
  pub data Stopped : Queue → Type 0 where
    emptied : Stopped []
    refused :
        (client : l.Client) (m : PublishMessage) (queue : Queue)
        → (publish client m).1 ≡ 0
        → Stopped (m ∷ queue)

  pub record Drained (client : l.Client) (queue : Queue) (after : l.Client × Queue) : Type 0 where
    pub kept : sent after.0 ++ map packet after.1 ≡ sent client ++ map packet queue
    pub stopped : Stopped after.1

  sent-refused :
      Sends
      → (client : l.Client) (m : PublishMessage) → (publish client m).1 == 0 ≡ true
      → sent (publish client m).0 ≡ sent client
  sent-refused sends client m h =
      sends client m ∙ ap (λ t. if t then sent client else sent client ++ (packet m ∷ [])) h

  sent-taken :
      Sends
      → (client : l.Client) (m : PublishMessage) → (publish client m).1 == 0 ≡ false
      → sent (publish client m).0 ≡ sent client ++ (packet m ∷ [])
  sent-taken sends client m h =
      sends client m ∙ ap (λ t. if t then sent client else sent client ++ (packet m ∷ [])) h

  drain-Drained :
      Sends → (client : l.Client) (queue : Queue) → Drained client queue (drain l client queue)
  unfolding drain
  drain-Drained sends client [] = record { kept = refl; stopped = emptied }
  drain-Drained sends client (m ∷ queue) = elim (Bool-cases ((publish client m).1 == 0)) [
    | inl zero_id ↦ rw zero_id (record {
      kept = ap (λ s. s ++ map packet (m ∷ queue)) (sent-refused sends client m zero_id);
      stopped = refused client m queue ((==_iff _ 0).0 zero_id);
    })
    | inr taken ↦
        let rest : Drained (publish client m).0 queue (drain l (publish client m).0 queue) =
          drain-Drained sends (publish client m).0 queue in
        rw taken (record {
          kept =
              rest.kept
              ∙ ap (λ s. s ++ map packet queue) (sent-taken sends client m taken)
              ∙ append_assoc (sent client) (packet m ∷ []) (map packet queue);
          stopped = rest.stopped;
        })
  ]

  -- A client that is connected, and whose library sends what it gives an id: no waiting message is
  -- lost, sent twice or sent out of order. Those sent and those that still wait are together the
  -- ones sent before and those that waited, in order, and a message waits only behind one that the
  -- library has refused. A message is sent with the bytes of its payload that the payload's length,
  -- in 16 bits, counts.
  pub drain_publish_queue-Drained :
      Sends
      → (i : Impl l) → l.connected i.client ≡ true
      → Drained i.client i.publish_queue
          ((drain_publish_queue l i).client, (drain_publish_queue l i).publish_queue)
  unfolding drain_publish_queue
  drain_publish_queue-Drained sends i h = rw h (drain-Drained sends i.client i.publish_queue)
