-- ===== src/StatusPublisher/Heartbeat.antt =====
-- lib/mqtt_status/src/MqttStatusPublisher.cpp: when a snapshot is published.
use kinetic_mirror_matrix_es.Prelude.{
  ℕ, ◌<◌, ◌≡◌, refl, sym, ◌∙◌, Bool, true, false, not, ◌||◌, List, [], ◌∷◌, Option, some, arith,
  leb, ◌==◌, ==_iff, sub32, if◌then◌else◌, Bool-cases, inl, inr,
}
use kinetic_mirror_matrix_es.Text.{Bytes, is_empty, eq_bytes}
use kinetic_mirror_matrix_es.Motor.{MotorState}
use kinetic_mirror_matrix_es.Net.{Status}
use kinetic_mirror_matrix_es.PublishQueue.{PublishMessage}
use kinetic_mirror_matrix_es.StatusPublisher.{
  MqttStatusPublisher, any_moving, build_snapshot, force, interval_for, loop, make, message,
  publish_snapshot, set_topic, wants,
}

pub data Call : Type 0 where
  topic_call : Bytes → Call
  force_call : Call
  loop_call : ℕ → Status → List MotorState → Call

module _ {W : Type 0} (hash : Bytes → ℕ) (publish : W → PublishMessage → W × Bool) where
  unfoldable pub apply : Call → MqttStatusPublisher × W → MqttStatusPublisher × W
  apply (topic_call topic) (p, w) = (set_topic topic p, w)
  apply force_call (p, w) = (force p, w)
  apply (loop_call now_ms status motors) (p, w) = loop hash publish now_ms status motors p w

  abbrev pub run : List Call → MqttStatusPublisher × W → MqttStatusPublisher × W
  run [] s = s
  run (x ∷ calls) s = run calls (apply x s)

quiet-parts :
    (forced known equal due : Bool)
    → (forced || (not known || not equal)) || (not known || due) ≡ false
    → (forced ≡ false) × ((known ≡ true) × ((equal ≡ true) × (due ≡ false)))
quiet-parts forced known equal due h = ground arith

leb-lt : (a b : ℕ) → leb a b ≡ false → b < a
leb-lt a b h = ground arith

self-lt : (now_ms interval : ℕ) → 0 < interval → sub32 now_ms now_ms < interval
self-lt now_ms interval h = omega arith

module _ {W : Type 0} (hash : Bytes → ℕ) (publish : W → PublishMessage → W × Bool)
    (last : W → Option PublishMessage)
    (accepts : (w : W) (m : PublishMessage)
      → (publish w m).1 ≡ true
      → last (publish w m).0 ≡ some m)
    (refuses : (w : W) (m : PublishMessage)
      → (publish w m).1 ≡ false
      → last (publish w m).0 ≡ last w) where
  -- The intervals are positive, and what is kept is of the last accepted snapshot.
  record Kept (p : MqttStatusPublisher) (w : W) : Type 0 where
    idle : 0 < p.idle_interval_ms
    motion : 0 < p.motion_interval_ms
    hashed : p.has_last_hash ≡ true → p.last_hash ≡ hash p.last_payload
    accepted :
        p.has_last_hash ≡ true
        → p.force_immediate ≡ false
        → last w ≡ some (message p.topic p.last_payload)

  Kept-if :
      (t : Bool) (a b : MqttStatusPublisher × W)
      → (t ≡ true → Kept a.0 a.1)
      → Kept b.0 b.1
      → Kept (if t then a else b).0 (if t then a else b).1
  Kept-if true a b h k = h refl
  Kept-if false a b h k = k

  -- The snapshot is kept, and it was published not longer ago than the interval.
  pub record Current (now_ms : ℕ) (motion_active : Bool) (scratch : Bytes) (p : MqttStatusPublisher)
      (w : W) : Type 0 where
    pub told : last w ≡ some (message p.topic p.last_payload)
    pub same : hash p.last_payload ≡ hash scratch
    pub recent : sub32 now_ms p.last_publish_ms < interval_for motion_active p

  published-Kept :
      (now_ms : ℕ) (scratch : Bytes) (p : MqttStatusPublisher) (w : W)
      → Kept p w
      → Kept
          (publish_snapshot hash publish now_ms scratch p w).0
          (publish_snapshot hash publish now_ms scratch p w).1
  unfolding publish_snapshot
  published-Kept now_ms scratch p w k = elim (Bool-cases (publish w (message p.topic scratch)).1) [
    | inl took ↦ rw took (record {
      idle = k.idle;
      motion = k.motion;
      hashed = λ h. refl;
      accepted = λ h f. accepts w (message p.topic scratch) took;
    })
    | inr refused ↦ rw refused (record {
      idle = k.idle;
      motion = k.motion;
      hashed = k.hashed;
      accepted = λ h f. refuses w (message p.topic scratch) refused ∙ k.accepted h f;
    })
  ]

  loop-Kept :
      (now_ms : ℕ) (status : Status) (motors : List MotorState) (p : MqttStatusPublisher) (w : W)
      → Kept p w
      → Kept
          (loop hash publish now_ms status motors p w).0
          (loop hash publish now_ms status motors p w).1
  unfolding loop
  loop-Kept now_ms status motors p w k =
      Kept-if (is_empty p.topic) (p, w)
        (if wants hash publish now_ms (any_moving motors) (build_snapshot status motors) p
          then publish_snapshot hash publish now_ms (build_snapshot status motors) p w
          else (p, w))
        (λ e. k)
        (Kept-if (wants hash publish now_ms (any_moving motors) (build_snapshot status motors) p)
          (publish_snapshot hash publish now_ms (build_snapshot status motors) p w) (p, w)
          (λ e. published-Kept now_ms (build_snapshot status motors) p w k) k)

  set_topic-Kept :
      (topic : Bytes) (p : MqttStatusPublisher) (w : W) → Kept p w → Kept (set_topic topic p) w
  unfolding set_topic
  set_topic-Kept topic p w k = elim (Bool-cases (eq_bytes topic p.topic)) [
    | inl same ↦ rw same k
    | inr other ↦
        rw other
          (record { idle = k.idle; motion = k.motion; hashed = k.hashed; accepted = λ h f. cc })
  ]

  apply-Kept :
      (x : Call) (p : MqttStatusPublisher) (w : W)
      → Kept p w
      → Kept (apply hash publish x (p, w)).0 (apply hash publish x (p, w)).1
  unfolding apply force
  apply-Kept (topic_call topic) p w k = set_topic-Kept topic p w k
  apply-Kept force_call p w k = record {
    idle = k.idle;
    motion = k.motion;
    hashed = k.hashed;
    accepted = λ h f. cc;
  }
  apply-Kept (loop_call now_ms status motors) p w k = loop-Kept now_ms status motors p w k

  run-Kept :
      (calls : List Call) (p : MqttStatusPublisher) (w : W)
      → Kept p w
      → Kept (run hash publish calls (p, w)).0 (run hash publish calls (p, w)).1
  run-Kept [] p w k = k
  run-Kept (x ∷ calls) p w k = run-Kept calls _ _ (apply-Kept x p w k)

  make-Kept : (idle motion : ℕ) (w : W) → Kept (make idle motion) w
  unfolding make
  make-Kept idle motion w = record {
    idle = ground arith;
    motion = ground arith;
    hashed = λ h. cc;
    accepted = λ h f. cc;
  }

  -- Nothing to publish.
  quiet-Current :
      (now_ms : ℕ) (motion_active : Bool) (scratch : Bytes) (p : MqttStatusPublisher) (w : W)
      → Kept p w
      → wants hash publish now_ms motion_active scratch p ≡ false
      → Current now_ms motion_active scratch p w
  unfolding wants
  quiet-Current now_ms motion_active scratch p w k h =
      let (forced, (known, (equal, fresh))) =
        quiet-parts p.force_immediate p.has_last_hash (hash scratch == p.last_hash) _ h in
      record {
        told = k.accepted known forced;
        same = sym (k.hashed known) ∙ sym ((==_iff (hash scratch) p.last_hash).0 equal);
        recent = leb-lt (interval_for motion_active p) (sub32 now_ms p.last_publish_ms) fresh;
      }

  positive :
      (motion_active : Bool) (p : MqttStatusPublisher) (w : W)
      → Kept p w
      → 0 < interval_for motion_active p
  positive true p w k = k.motion
  positive false p w k = k.idle

  published-Current :
      (now_ms : ℕ) (motion_active : Bool) (scratch : Bytes) (p : MqttStatusPublisher) (w : W)
      → Kept p w
      → (publish w (message p.topic scratch)).1 ≡ true
      → Current now_ms motion_active scratch
          (publish_snapshot hash publish now_ms scratch p w).0
          (publish_snapshot hash publish now_ms scratch p w).1
  unfolding publish_snapshot
  published-Current now_ms motion_active scratch p w k took = rw took (record {
    told = accepts w (message p.topic scratch) took;
    same = refl;
    recent = self-lt now_ms (interval_for motion_active p) (positive motion_active p w k);
  })

  Current-if :
      (t : Bool) (now_ms : ℕ) (motion_active : Bool) (scratch : Bytes)
      (a b : MqttStatusPublisher × W)
      → Current now_ms motion_active scratch a.0 a.1
      → (t ≡ false → Current now_ms motion_active scratch b.0 b.1)
      → Current now_ms motion_active scratch (if t then a else b).0 (if t then a else b).1
  Current-if true now_ms motion_active scratch a b h k = h
  Current-if false now_ms motion_active scratch a b h k = k refl

  loop-Current :
      (now_ms : ℕ) (status : Status) (motors : List MotorState) (p : MqttStatusPublisher) (w : W)
      → Kept p w
      → is_empty p.topic ≡ false
      → (publish w (message p.topic (build_snapshot status motors))).1 ≡ true
      → Current now_ms
          (any_moving motors)
          (build_snapshot status motors)
          (loop hash publish now_ms status motors p w).0
          (loop hash publish now_ms status motors p w).1
  unfolding loop
  loop-Current now_ms status motors p w k named took = rw named (
      Current-if (wants hash publish now_ms (any_moving motors) (build_snapshot status motors) p)
        now_ms (any_moving motors) (build_snapshot status motors)
        (publish_snapshot hash publish now_ms (build_snapshot status motors) p w) (p, w)
        (published-Current now_ms (any_moving motors) (build_snapshot status motors) p w k took)
        (quiet-Current now_ms (any_moving motors) (build_snapshot status motors) p w k))

  -- After any calls, a `loop` with a topic whose message the broker would accept leaves the broker
  -- with a snapshot under the present topic that has the hash of the present one, and that was
  -- published less than an interval ago: the short one where a motor moves, else the long one.
  pub run-loop-Current :
      (idle motion : ℕ) (w : W) (calls : List Call) (now_ms : ℕ) (status : Status)
      (motors : List MotorState)
      → let s = run hash publish calls (make idle motion, w) in
        is_empty s.0.topic ≡ false
        → (publish s.1 (message s.0.topic (build_snapshot status motors))).1 ≡ true
        → Current now_ms
            (any_moving motors)
            (build_snapshot status motors)
            (loop hash publish now_ms status motors s.0 s.1).0
            (loop hash publish now_ms status motors s.0 s.1).1
  run-loop-Current idle motion w calls now_ms status motors named took =
      loop-Current now_ms status motors _ _
        (run-Kept calls (make idle motion) w (make-Kept idle motion w)) named took
