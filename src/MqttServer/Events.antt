-- ===== src/MqttServer/Events.antt =====
-- lib/mqtt_commands/src/MqttCommandServer.cpp: what the server makes of the dispatcher's events. An
-- event belongs to the stream of its command, or waits as an orphan until a stream takes its id.
-- A stream that the source holds by a reference is passed beside the server, and written back.
pub mod Limits
pub mod Finish
use kinetic_mirror_matrix_es.Prelude.{
  ℕ, suc, Bool, true, false, not, ◌&&◌, ◌||◌, Option, none, some, List, [], ◌∷◌, ◌++◌, ltb, ◌==◌,
  if◌then◌else◌, length,
}
use kinetic_mirror_matrix_es.Prelude.Int.{ℤ, pos, negsuc, ltb_ℤ}
use kinetic_mirror_matrix_es.Text.{Bytes, codes, eq_bytes, is_empty}
use kinetic_mirror_matrix_es.Transport.{
  CompletionStatus, ResponseLine, derive_completion_status, error_line, find_ack_line, ok_status,
  unknown_status, is_error_line,
}
use kinetic_mirror_matrix_es.Transport.Events.{
  Event, EventType, ack_event, done_event, error_event, event_to_line, find_field,
}
use kinetic_mirror_matrix_es.MqttServer.{
  Orphans, Payloads, Server, Stream, extract_int_field, find_stream, parse_long, publish,
  record_completed,
}
use kinetic_mirror_matrix_es.MqttServer.Waiting.{
  max_orphan_commands, orphans_of, without_orphans, without_id, without_stream, put_stream,
  add_to_orphans, drop_oldest, add_orphan,
}

unfoldable pub extract_actual_ms : Option Event → ℤ
unfolding parse_long find_field
extract_actual_ms none = negsuc 0
extract_actual_ms (some done) = elim (find_field (codes "actual_ms") done.attributes) [
  | none ↦ negsuc 0
  | some value ↦ parse_long value (negsuc 0)
]

abbrev pub action_or_unknown : Stream → Bytes
action_or_unknown st = if is_empty st.action then codes "UNKNOWN" else st.action

-- `collectErrors` is asked only whether there is an error.
unfoldable pub has_errors : List ResponseLine → Bool
has_errors [] = false
has_errors (line ∷ lines) = is_error_line line || has_errors lines

abbrev is_unknown : CompletionStatus → Bool
is_unknown unknown_status = true
is_unknown _ = false

unfoldable pub completion_status : Option Event → List ResponseLine → CompletionStatus
unfolding derive_completion_status has_errors
completion_status (some done) lines = ok_status
completion_status none lines =
    let status = derive_completion_status lines in
    if is_unknown status && not (has_errors lines) then ok_status else status

unfoldable pub actual_ms_of : Option Event → List ResponseLine → ℤ
unfolding extract_actual_ms find_ack_line extract_int_field
actual_ms_of done lines =
    let actual_ms = extract_actual_ms done in
    if ltb_ℤ actual_ms (pos 0)
    then elim (find_ack_line lines) [
      | none ↦ actual_ms
      | some line ↦ elim (extract_int_field line.fields (codes "actual_ms")) [
        | none ↦ actual_ms
        | some parsed ↦ parsed
      ]
    ]
    else actual_ms

-- The stream of the command, else the one that has the event's id as its message id.
unfoldable pub by_message_id : Bytes → List Stream → Option Stream
by_message_id id [] = none
by_message_id id (st ∷ sts) =
    if not (is_empty st.msg_id) && eq_bytes st.msg_id id then some st else by_message_id id sts

unfoldable pub stream_for : Bytes → List Stream → Option Stream
unfolding find_stream by_message_id
stream_for id sts = elim (find_stream id sts) [ some st ↦ some st | none ↦ by_message_id id sts ]

-- The stream with the event's line.
unfoldable pub seen : Event → Stream → Stream
unfolding event_to_line
seen e st = record st {
  saw_event = true;
  action = if not (is_empty e.action) && is_empty st.action then e.action else st.action;
  lines = st.lines ++ event_to_line e ∷ [];
}

abbrev pub is_done : EventType → Bool
is_done done_event = true
is_done _ = false

abbrev pub is_error : EventType → Bool
is_error error_event = true
is_error _ = false

-- The ACK, where there is an ACK line and a payload.
unfoldable pub publish_found_ack : Option ResponseLine → Bytes → Server × Stream → Server × Stream
publish_found_ack none payload (s, st) = (s, st)
publish_found_ack (some line) payload (s, st) =
    if is_empty payload
    then (s, st)
    else (publish payload s, record st { ack_payload = payload; ack_published = true })

module _ (p : Payloads) where
  unfoldable pub publish_ack_from_stream : Server × Stream → Server × Stream
  unfolding find_ack_line publish_found_ack
  publish_ack_from_stream (s, st) =
      if st.ack_published || is_empty st.lines
      then (s, st)
      else publish_found_ack (find_ack_line st.lines)
          (p.ack st.cmd_id (action_or_unknown st) st.lines) (s, st)

  unfoldable pub stream_completion : Option Event → Stream → Bytes
  unfolding completion_status actual_ms_of
  stream_completion done st =
      p.completion st.cmd_id (action_or_unknown st) st.lines (completion_status done st.lines)
        st.mask st.started_ms (not (st.mask == 0) && not (st.started_ms == 0))
        (actual_ms_of done st.lines)

  unfoldable pub publish_completion_from_stream : Option Event → Server × Stream → Server × Stream
  unfolding stream_completion record_completed
  publish_completion_from_stream done (s, st) =
      if st.done_published
      then (s, st)
      else (let payload = stream_completion done st in
          (
            record_completed st.cmd_id st.ack_payload payload (publish payload s),
            record st { done_published = true },
          ))

  -- The `switch` over the event's type.
  unfoldable pub publish_by_type : EventType → Event → Server × Stream → Server × Stream
  unfolding publish_ack_from_stream publish_completion_from_stream
  publish_by_type ack_event e x = publish_ack_from_stream x
  publish_by_type done_event e x = publish_completion_from_stream (some e) x
  publish_by_type _ e x = x

  unfoldable pub process_stream_event : Event → Server × Stream → Server × Stream
  unfolding publish_by_type seen
  process_stream_event e (s, st) = publish_by_type e.type e (s, seen e st)

  -- The stream takes the event, and is erased by a DONE.
  unfoldable pub route_event : Event → Stream → Server → Server
  unfolding process_stream_event without_stream put_stream
  route_event e st s =
      let (s', st') = process_stream_event e (s, st) in
      record s' {
        streams =
            if is_done e.type
            then without_stream st.cmd_id s'.streams
            else put_stream st' s'.streams;
      }

  unfoldable pub handle_dispatcher_event : Event → Server → Server
  unfolding stream_for add_orphan route_event
  handle_dispatcher_event e s =
      if is_empty e.cmd_id then s else elim (stream_for e.cmd_id s.streams) [
        | none ↦ add_orphan e s
        | some st ↦ route_event e st s
      ]

  unfoldable pub process_events : List Event → Server × Stream → Server × Stream
  unfolding process_stream_event
  process_events [] x = x
  process_events (e ∷ es) x = process_events es (process_stream_event e x)

  -- The orphans that wait for the message id belong to the stream.
  unfoldable pub take_orphans : Option (List Event) → Bytes → Server × Stream → Server × Stream
  unfolding process_events without_stream put_stream without_orphans without_id
  take_orphans none msg_id (s, st) = (record s { streams = put_stream st s.streams }, st)
  take_orphans (some events) msg_id (s, st) =
      let (s', st') = process_events events (s, st) in
      let taken = record st' { saw_event = true } in
      (
        record s' {
          streams =
              if taken.done_published
              then without_stream st.cmd_id s'.streams
              else put_stream taken s'.streams;
          orphan_events = without_orphans msg_id s'.orphan_events;
          orphan_order = without_id msg_id s'.orphan_order;
        },
        taken,
      )

  unfoldable pub bind_stream_to_message_id : Bytes → Server × Stream → Server × Stream
  unfolding take_orphans
  bind_stream_to_message_id msg_id (s, st) =
      if is_empty msg_id
      then (s, st)
      else take_orphans (orphans_of msg_id s.orphan_events) msg_id
          (s, record st { msg_id = msg_id })

-- A command that is started; one that is known is brought up to date.
unfoldable pub ensure_stream : Bytes → Bytes → ℕ → ℕ → Server → Server
unfolding find_stream put_stream
ensure_stream cmd_id action mask started_ms s = elim (find_stream cmd_id s.streams) [
  | some st ↦ record s {
    streams =
        put_stream
          (record st {
            action = if is_empty st.action then action else st.action;
            mask = if mask == 0 then st.mask else mask;
            started_ms = if started_ms == 0 then st.started_ms else started_ms;
          })
          s.streams;
  }
  | none ↦ record s {
    streams =
        s.streams
        ++ record {
          cmd_id = cmd_id;
          msg_id = [];
          action = action;
          lines = [];
          mask = mask;
          started_ms = started_ms;
          saw_event = false;
          ack_published = false;
          done_published = false;
          ack_payload = [];
        }
          ∷ [];
  }
]
