-- ===== src/MqttServer/Dispatch.antt =====
-- lib/mqtt_commands/src/MqttCommandServer.cpp: what the server makes of the response to a command,
-- and the commands that wait for their motors. What the controller says meanwhile is an argument:
-- whether a motor of a mask moves, and the states of the motors.
use kinetic_mirror_matrix_es.Prelude.{
  ℕ, suc, ◌^◌, Bool, true, false, not, ◌&&◌, ◌||◌, Option, none, some, List, [], ◌∷◌, ◌++◌, ltb,
  ◌==◌, if◌then◌else◌,
}
use kinetic_mirror_matrix_es.Prelude.Int.{ℤ, pos, negsuc, sub_ℕ, ltb_ℤ}
use kinetic_mirror_matrix_es.Motor.{MotorState}
use kinetic_mirror_matrix_es.Motor.Mask.{selected}
use kinetic_mirror_matrix_es.Text.{Bytes, codes, eq_bytes, is_empty}
use kinetic_mirror_matrix_es.Transport.{
  ResponseLine, derive_completion_status, find_ack_line, ok_status,
}
use kinetic_mirror_matrix_es.Transport.Events.{Event}
use kinetic_mirror_matrix_es.MqttServer.{
  Payloads, Pending, Server, Stream, find_cached, found, publish, record_completed,
}
use kinetic_mirror_matrix_es.MqttServer.Waiting.{put_stream, without_stream}
use kinetic_mirror_matrix_es.MqttServer.Events.{
  actual_ms_of, bind_stream_to_message_id, has_errors, is_done, is_error, publish_ack_from_stream,
}

unfoldable pub first_done : List Event → Option Event
first_done [] = none
first_done (e ∷ es) = if is_done e.type then some e else first_done es

unfoldable pub any_error : List Event → Bool
any_error [] = false
any_error (e ∷ es) = is_error e.type || any_error es

-- The id of the ACK, else the one of the contract, where the stream has none.
unfoldable pub id_to_bind : Bytes → Option ResponseLine → Stream → Bytes
id_to_bind contract_id ack st =
    let ack_id : Bytes = elim ack [ none ↦ [] | some line ↦ line.msg_id ] in
    if is_empty st.msg_id then if is_empty ack_id then contract_id else ack_id else []

-- The duration since the motors' last operations, as the comparison of unsigned numbers takes it.
unfoldable pub longest_from : ℕ → ℕ → Option ℕ → List MotorState → Option ℕ
longest_from i mask longest [] = longest
longest_from i mask longest (m ∷ ms) =
    let known : ℕ = elim longest [ none ↦ 0 | some n ↦ n ] in
    longest_from (suc i) mask
      (if ltb i 32 && selected mask i && not m.last_op_ongoing
        then some (if ltb known m.last_op_last_ms then m.last_op_last_ms else known)
        else longest)
      ms

-- The stored `int32_t`, or -1 where no motor has ended an operation.
unfoldable pub pending_actual_ms : List MotorState → ℕ → ℤ
unfolding longest_from
pending_actual_ms states mask =
    if mask == 0 then negsuc 0 else elim (longest_from 0 mask none states) [
      | none ↦ negsuc 0
      | some n ↦ if ltb n (2 ^ 31) then pos n else sub_ℕ n (2 ^ 32)
    ]

module _ (p : Payloads) where
  -- Whether the dispatcher's events answer the command.
  unfoldable pub stream_consumes_response :
      Bytes → List ResponseLine → Bytes → List Event → Server × Stream → (Server × Stream) × Bool
  unfolding find_ack_line first_done any_error id_to_bind bind_stream_to_message_id
      publish_ack_from_stream
  stream_consumes_response action lines contract_id events (s, st) =
      let named = record st { action = if is_empty st.action then action else st.action } in
      let bound =
        bind_stream_to_message_id p (id_to_bind contract_id (find_ack_line lines) named)
          (s, named) in
      elim (first_done events) [
        | some e ↦
            (let (s', st') = bind_stream_to_message_id p e.cmd_id bound in
              (publish_ack_from_stream p (s', record st' { lines = lines }), true))
        | none ↦
            if not (any_error events) && bound.1.saw_event
            then (publish_ack_from_stream p bound, true)
            else (bound, false)
      ]

  unfoldable pub pending_payload : List MotorState → Pending → Bytes
  unfolding pending_actual_ms
  pending_payload states q =
      p.completion q.cmd_id q.action q.lines ok_status q.mask q.started_ms true
        (pending_actual_ms states q.mask)

  unfoldable pub complete_pending : List MotorState → Pending → Server → Server
  unfolding pending_payload record_completed
  complete_pending states q s =
      record_completed q.cmd_id q.ack_payload (pending_payload states q)
        (publish (pending_payload states q) s)

  -- The loop over the pending commands; those that wait on are put back in their order.
  unfoldable pub finalize_from : (ℕ → Bool) → List MotorState → List Pending → Server → Server
  unfolding complete_pending
  finalize_from moving states [] s = s
  finalize_from moving states (q ∷ qs) s = finalize_from moving states qs (
      if moving q.mask
      then record s { pending = s.pending ++ q ∷ [] }
      else complete_pending states q s)

  unfoldable pub finalize_completed : (ℕ → Bool) → List MotorState → Server → Server
  unfolding finalize_from
  finalize_completed moving states s =
      finalize_from moving states s.pending (record s { pending = [] })

  -- A MOVE that is accepted waits for its motors; any other command is done at once.
  unfoldable pub respond_now :
      (ℕ → Bool) → Bytes → Bytes → ℕ → List ResponseLine → List Event → ℕ → Server → Server
  unfolding find_ack_line derive_completion_status has_errors actual_ms_of first_done
      record_completed
  respond_now moving cmd_id action mask lines events now_ms s =
      let status = derive_completion_status lines in
      let accepted = found (find_ack_line lines) && not (has_errors lines) in
      let ack_payload = if accepted then p.ack cmd_id action lines else [] in
      let acked = if accepted then publish ack_payload s else s in
      let is_ok : Bool = elim status [ ok_status ↦ true | _ ↦ false ] in
      let known = actual_ms_of (first_done events) lines in
      let actual_ms = if is_ok && ltb_ℤ known (pos 0) then pos 0 else known in
      let payload = p.completion cmd_id action lines status mask now_ms false actual_ms in
      if is_ok && eq_bytes action (codes "MOVE") && not (mask == 0) && moving mask
      then record acked {
        pending =
            acked.pending
            ++ record {
              cmd_id = cmd_id;
              action = action;
              lines = lines;
              ack_payload = ack_payload;
              mask = mask;
              started_ms = now_ms;
            }
              ∷ [];
      }
      else record_completed cmd_id ack_payload payload (publish payload acked)

  -- What the stream and the cache leave over is answered here, and the stream erased. The stream is
  -- the one that was found before the command ran; events may have erased its entry since.
  unfoldable pub execute_dispatch :
      (ℕ → Bool)
      → Bytes
      → Bytes
      → ℕ
      → List ResponseLine
      → Bytes
      → List Event
      → Option Stream
      → ℕ
      → Server
      → Server
  unfolding stream_consumes_response put_stream find_cached without_stream respond_now
  execute_dispatch moving cmd_id action mask lines contract_id events stream_ref now_ms s =
      let consumed : Server × Bool = elim stream_ref [
        | none ↦ (s, false)
        | some st ↦
            (let ((s', st'), handled) =
                stream_consumes_response action lines contract_id events (s, st) in
              (record s' { streams = put_stream st' s'.streams }, handled))
      ] in
      if consumed.1 || found (find_cached cmd_id consumed.0.recent)
      then consumed.0
      else respond_now moving cmd_id action mask lines events now_ms
          (record consumed.0 { streams = without_stream cmd_id consumed.0.streams })
