-- ===== src/MqttServer/Limits.antt =====
-- lib/mqtt_commands/src/MqttCommandServer.cpp: what is done to a server, and the limits that hold.
use kinetic_mirror_matrix_es.Prelude.{
  ℕ, ◌≤◌, ◌≡◌, ◌&&◌, Bool, true, false, not, ◌||◌, Option, none, some, List, [], ◌∷◌, ◌++◌, length,
  arith, if◌then◌else◌, ◌==◌,
}
use kinetic_mirror_matrix_es.Prelude.Int.{ltb_ℤ, pos}
use kinetic_mirror_matrix_es.Motor.{MotorState}
use kinetic_mirror_matrix_es.Text.{Bytes, codes, eq_bytes, is_empty}
use kinetic_mirror_matrix_es.Transport.{
  ResponseLine, derive_completion_status, find_ack_line, ok_status,
}
use kinetic_mirror_matrix_es.Transport.Events.{Event}
use kinetic_mirror_matrix_es.MqttServer.{
  Payloads, Pending, Server, Stream, find_cached, found, handle_duplicate_command, log_duplicate,
  publish, record_completed, replay,
}
use kinetic_mirror_matrix_es.MqttServer.Waiting.{put_stream, without_stream}
use kinetic_mirror_matrix_es.MqttServer.Dispatch.{
  any_error, complete_pending, execute_dispatch, finalize_completed, finalize_from, first_done,
  id_to_bind, respond_now, stream_consumes_response,
}
use kinetic_mirror_matrix_es.MqttServer.Events.{
  actual_ms_of, bind_stream_to_message_id, ensure_stream, handle_dispatcher_event, has_errors,
  publish_ack_from_stream,
}
use kinetic_mirror_matrix_es.MqttServer.Events.Limits.{
  Bounded, ack-Bounded, bind-Bounded, ensure-Bounded, handle-Bounded, publish-Bounded,
  record-Bounded,
}

-- What is done to a server: an event, a new command, the message id of a command, an answer that is
-- kept, the response of a command that ran, a look at the motors, or a command received again.
pub data Call : Type 0 where
  hears : Event → Call
  opens : Bytes → Bytes → ℕ → ℕ → Call
  binds : Bytes → Stream → Call
  answers_with : Bytes → Bytes → Bytes → Call
  dispatches :
      (ℕ → Bool)
      → Bytes
      → Bytes
      → ℕ
      → List ResponseLine
      → Bytes
      → List Event
      → Option Stream
      → ℕ
      → Call
  finalizes : (ℕ → Bool) → List MotorState → Call
  repeats : Bytes → ℕ → Call

Bounded-at : (t : Bool) (x y : Server) → Bounded x → Bounded y → Bounded (if t then x else y)
Bounded-at true x y p q = p
Bounded-at false x y p q = q

answered-Bounded :
    (t : Bool) (x y : (Server × Stream) × Bool)
    → Bounded x.0.0
    → Bounded y.0.0
    → Bounded (if t then x else y).0.0
answered-Bounded true x y p q = p
answered-Bounded false x y p q = q

record Same (s t : Server) : Type 0 where
  recent : t.recent ≡ s.recent
  order : t.orphan_order ≡ s.orphan_order
  cache : t.duplicate_cache ≡ s.duplicate_cache

Same-Bounded : (s t : Server) → Same s t → Bounded s → Bounded t
Same-Bounded s t e b = record {
  answers = rw (e.recent, e.cache) b.answers;
  waiting = rw (e.order) b.waiting;
}

repeat-Same : (id : Bytes) (now : ℕ) (s : Server) → Same s (handle_duplicate_command id now s).0
unfolding handle_duplicate_command log_duplicate replay
repeat-Same id now s = record { recent = ground arith; order = ground arith; cache = ground arith }

module _ (p : Payloads) where
  pub apply : Call → Server → Server
  unfolding handle_dispatcher_event ensure_stream bind_stream_to_message_id record_completed
      execute_dispatch finalize_completed handle_duplicate_command
  apply (hears e) s = handle_dispatcher_event p e s
  apply (opens cmd_id action mask now) s = ensure_stream cmd_id action mask now s
  apply (binds msg_id st) s = (bind_stream_to_message_id p msg_id (s, st)).0
  apply (answers_with id ack done) s = record_completed id ack done s
  apply (dispatches moving id action mask lines contract_id events st now) s =
      execute_dispatch p moving id action mask lines contract_id events st now s
  apply (finalizes moving states) s = finalize_completed p moving states s
  apply (repeats id now) s = (handle_duplicate_command id now s).0

  pub apply_all : List Call → Server → Server
  unfolding apply
  apply_all [] s = s
  apply_all (c ∷ cs) s = apply_all cs (apply c s)

  complete-Bounded :
      (states : List MotorState) (q : Pending) (s : Server)
      → Bounded s
      → Bounded (complete_pending p states q s)
  unfolding complete_pending
  complete-Bounded states q s b = record-Bounded _ _ _ _ (publish-Bounded _ s b)

  finalize_from-Bounded :
      (moving : ℕ → Bool) (states : List MotorState) (qs : List Pending) (s : Server)
      → Bounded s
      → Bounded (finalize_from p moving states qs s)
  unfolding finalize_from
  finalize_from-Bounded moving states [] s b = b
  finalize_from-Bounded moving states (q ∷ qs) s b = finalize_from-Bounded moving states qs _ (
      Bounded-at (moving q.mask) _ _ (record { answers = b.answers; waiting = b.waiting })
        (complete-Bounded states q s b))

  respond-Bounded :
      (moving : ℕ → Bool) (id action : Bytes) (mask : ℕ) (lines : List ResponseLine)
      (events : List Event) (now : ℕ) (s : Server)
      → Bounded s
      → Bounded (respond_now p moving id action mask lines events now s)
  unfolding respond_now
  respond-Bounded moving id action mask lines events now s b =
      let accepted = found (find_ack_line lines) && not (has_errors lines) in
      let ack_payload = if accepted then p.ack id action lines else [] in
      let acked : Bounded (if accepted then publish ack_payload s else s) =
        Bounded-at accepted (publish ack_payload s) s (publish-Bounded ack_payload s b) b in
      let server = if accepted then publish ack_payload s else s in
      let status = derive_completion_status lines in
      let is_ok : Bool = elim status [ ok_status ↦ true | _ ↦ false ] in
      let known = actual_ms_of (first_done events) lines in
      let actual_ms = if is_ok && ltb_ℤ known (pos 0) then pos 0 else known in
      let payload = p.completion id action lines status mask now false actual_ms in
      let q : Pending = record {
        cmd_id = id;
        action = action;
        lines = lines;
        ack_payload = ack_payload;
        mask = mask;
        started_ms = now;
      } in
      Bounded-at (is_ok && eq_bytes action (codes "MOVE") && not (mask == 0) && moving mask)
        (record server { pending = server.pending ++ q ∷ [] })
        (record_completed id ack_payload payload (publish payload server))
        (record { answers = acked.answers; waiting = acked.waiting })
        (record-Bounded id ack_payload payload (publish payload server)
          (publish-Bounded payload server acked))

  consumes-Bounded :
      (action : Bytes) (lines : List ResponseLine) (contract_id : Bytes) (events : List Event)
      (s : Server) (st : Stream)
      → Bounded s
      → Bounded (stream_consumes_response p action lines contract_id events (s, st)).0.0
  unfolding stream_consumes_response
  consumes-Bounded action lines contract_id events s st b =
      let named = record st { action = if is_empty st.action then action else st.action } in
      let id = id_to_bind contract_id (find_ack_line lines) named in
      let bound = bind_stream_to_message_id p id (s, named) in
      let r : Bounded bound.0 = bind-Bounded p id s named b in
      elim (first_done events)
        as (λ o.
          let answered : (Server × Stream) × Bool = elim o [
            | some e ↦
                (let (s', st') = bind_stream_to_message_id p e.cmd_id bound in
                  (publish_ack_from_stream p (s', record st' { lines = lines }), true))
            | none ↦
                if not (any_error events) && bound.1.saw_event
                then (publish_ack_from_stream p bound, true)
                else (bound, false)
          ] in
          Bounded answered.0.0) [
            | some e ↦
                (let (s', st') = bind_stream_to_message_id p e.cmd_id bound in
                  ack-Bounded p s' (record st' { lines = lines })
                    (bind-Bounded p e.cmd_id bound.0 bound.1 r))
            | none ↦
                answered-Bounded (not (any_error events) && bound.1.saw_event)
                  (publish_ack_from_stream p bound, true) (bound, false)
                  (ack-Bounded p bound.0 bound.1 r) r
          ]

  -- The server and the stream of the answer, put back among the streams.
  dispatch-Bounded :
      (moving : ℕ → Bool) (id action : Bytes) (mask : ℕ) (lines : List ResponseLine)
      (contract_id : Bytes) (events : List Event) (now : ℕ) (consumed : Server × Bool)
      → Bounded consumed.0
      → Bounded (
          if consumed.1 || found (find_cached id consumed.0.recent)
          then consumed.0
          else respond_now p moving id action mask lines events now
              (record consumed.0 { streams = without_stream id consumed.0.streams }))
  dispatch-Bounded moving id action mask lines contract_id events now consumed b =
      Bounded-at (consumed.1 || found (find_cached id consumed.0.recent)) _ _ b (
        respond-Bounded moving id action mask lines events now _
          (record { answers = b.answers; waiting = b.waiting }))

  execute-Bounded :
      (moving : ℕ → Bool) (id action : Bytes) (mask : ℕ) (lines : List ResponseLine)
      (contract_id : Bytes) (events : List Event) (stream_ref : Option Stream) (now : ℕ)
      (s : Server)
      → Bounded s
      → Bounded (execute_dispatch p moving id action mask lines contract_id events stream_ref now s)
  unfolding execute_dispatch
  execute-Bounded moving id action mask lines contract_id events none now s b =
      dispatch-Bounded moving id action mask lines contract_id events now (s, false) b
  execute-Bounded moving id action mask lines contract_id events (some st) now s b =
      let ((s', st'), handled) =
        stream_consumes_response p action lines contract_id events (s, st) in
      let r = consumes-Bounded action lines contract_id events s st b in
      dispatch-Bounded moving id action mask lines contract_id events now
        (record s' { streams = put_stream st' s'.streams }, handled)
        (record { answers = r.answers; waiting = r.waiting })

  apply-Bounded : (c : Call) (s : Server) → Bounded s → Bounded (apply c s)
  unfolding apply finalize_completed
  apply-Bounded (hears e) s b = handle-Bounded p e s b
  apply-Bounded (opens id action mask now) s b = ensure-Bounded p id action mask now s b
  apply-Bounded (binds id st) s b = bind-Bounded p id s st b
  apply-Bounded (answers_with id ack done) s b = record-Bounded id ack done s b
  apply-Bounded (dispatches moving id action mask lines contract_id events st now) s b =
      execute-Bounded moving id action mask lines contract_id events st now s b
  apply-Bounded (finalizes moving states) s b =
      finalize_from-Bounded moving states s.pending (record s { pending = [] })
        (record { answers = b.answers; waiting = b.waiting })
  apply-Bounded (repeats id now) s b = Same-Bounded s _ (repeat-Same id now s) b

  -- A server within its limits, and any sequence of the dispatcher's events, new commands, message
  -- ids, answers that are kept, responses of commands that ran, looks at the motors and commands
  -- received again: it never keeps more answers than its cache may hold, nor the ids of more than
  -- four commands whose stream is unknown.
  pub apply_all-Bounded :
      (cs : List Call) (s : Server)
      → length s.recent ≤ s.duplicate_cache
      → length s.orphan_order ≤ 4
      → (length (apply_all cs s).recent ≤ (apply_all cs s).duplicate_cache)
        × (length (apply_all cs s).orphan_order ≤ 4)
  unfolding apply_all
  apply_all-Bounded [] s r o = (r, o)
  apply_all-Bounded (c ∷ cs) s r o =
      let b = apply-Bounded c s (record { answers = r; waiting = o }) in
      apply_all-Bounded cs (apply c s) b.answers b.waiting
