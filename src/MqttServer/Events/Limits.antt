-- ===== src/MqttServer/Events/Limits.antt =====
-- What the server keeps of answers and of events without a stream.
use kinetic_mirror_matrix_es.Prelude.{
  ℕ, ◌≤◌, Bool, true, false, Option, none, some, List, [], ◌∷◌, ◌++◌, if◌then◌else◌, length, arith,
}
use kinetic_mirror_matrix_es.Text.{Bytes, is_empty}
use kinetic_mirror_matrix_es.Transport.{ResponseLine, find_ack_line}
use kinetic_mirror_matrix_es.Transport.Events.{
  Event, EventType, ack_event, data_event, done_event, error_event, info_event, warn_event,
}
use kinetic_mirror_matrix_es.MqttServer.{
  Orphans, Payloads, Server, Stream, newest, publish, record_completed,
}
use kinetic_mirror_matrix_es.MqttServer.Events.{
  take_orphans, publish_found_ack, bind_stream_to_message_id, ensure_stream,
  handle_dispatcher_event, process_events, process_stream_event, publish_ack_from_stream,
  publish_by_type, publish_completion_from_stream, route_event, seen, stream_for,
}
use kinetic_mirror_matrix_es.MqttServer.Waiting.{
  without_orphans, add_orphan, add_to_orphans, drop_oldest, orphans_of, without_id,
}

-- No more answers are kept than the cache holds, and no more than four ids of orphans.
pub record Bounded (s : Server) : Type 0 where
  pub answers : length s.recent ≤ s.duplicate_cache
  pub waiting : length s.orphan_order ≤ 4

newest-length {ℓ} : {A : Type ℓ} (n : ℕ) (xs : List A) → length (newest n xs) ≤ n
unfolding newest
newest-length n [] = omega arith
newest-length n (x ∷ xs) = ground (arith, newest-length n xs)

drop_oldest-length : (ids : List Bytes) (os : List Orphans) → length (drop_oldest ids os).0 ≤ 4
unfolding drop_oldest
drop_oldest-length [] os = omega arith
drop_oldest-length (id ∷ ids) os = ground (arith, drop_oldest-length ids (without_orphans id os))

pub publish-Bounded : (payload : Bytes) (s : Server) → Bounded s → Bounded (publish payload s)
publish-Bounded payload s b = record { answers = b.answers; waiting = b.waiting }

pub record-Bounded :
    (id ack done : Bytes) (s : Server) → Bounded s → Bounded (record_completed id ack done s)
unfolding record_completed
record-Bounded id ack done s b = record {
  answers = ground (
    arith,
    b.answers,
    newest-length s.duplicate_cache
        (s.recent ++ record { cmd_id = id; ack_payload = ack; completion_payload = done } ∷ []),
  );
  waiting = ground (arith, b.waiting);
}

add_orphan-Bounded : (e : Event) (s : Server) → Bounded s → Bounded (add_orphan e s)
unfolding add_orphan
add_orphan-Bounded e s b =
    elim (orphans_of e.cmd_id s.orphan_events)
      as (λ o. Bounded (elim o [
        | some events ↦ record s { orphan_events = add_to_orphans e s.orphan_events }
        | none ↦
            (let (order, kept) =
                drop_oldest (s.orphan_order ++ e.cmd_id ∷ [])
                  (s.orphan_events ++ record { msg_id = e.cmd_id; events = [] } ∷ []) in
              record s { orphan_order = order; orphan_events = add_to_orphans e kept })
      ])) [
        | some events ↦ record { answers = b.answers; waiting = b.waiting }
        | none ↦ record {
          answers = b.answers;
          waiting =
              drop_oldest-length (s.orphan_order ++ e.cmd_id ∷ [])
                (s.orphan_events ++ record { msg_id = e.cmd_id; events = [] } ∷ []);
        }
      ]

Bounded-if :
    (t : Bool) (x y : Server × Stream) → Bounded x.0 → Bounded y.0 → Bounded (if t then x else y).0
Bounded-if true x y p q = p
Bounded-if false x y p q = q

found-Bounded :
    (o : Option ResponseLine) (payload : Bytes) (s : Server) (st : Stream)
    → Bounded s
    → Bounded (publish_found_ack o payload (s, st)).0
unfolding publish_found_ack
found-Bounded none payload s st b = b
found-Bounded (some line) payload s st b = Bounded-if _ (s, st) _ b (publish-Bounded payload s b)

without_id-length : (id : Bytes) (xs : List Bytes) → length (without_id id xs) ≤ length xs
unfolding without_id
without_id-length id [] = omega arith
without_id-length id (x ∷ xs) = ground (arith, without_id-length id xs)

module _ (p : Payloads) where
  pub ack-Bounded :
      (s : Server) (st : Stream) → Bounded s → Bounded (publish_ack_from_stream p (s, st)).0
  unfolding publish_ack_from_stream
  ack-Bounded s st b = Bounded-if _ (s, st) _ b (found-Bounded (find_ack_line st.lines) _ s st b)

  completion-Bounded :
      (o : Option Event) (s : Server) (st : Stream)
      → Bounded s
      → Bounded (publish_completion_from_stream p o (s, st)).0
  unfolding publish_completion_from_stream
  completion-Bounded o s st b =
      Bounded-if st.done_published (s, st) _ b
        (record-Bounded st.cmd_id st.ack_payload _ _ (publish-Bounded _ s b))

  type-Bounded :
      (t : EventType) (e : Event) (s : Server) (st : Stream)
      → Bounded s
      → Bounded (publish_by_type p t e (s, st)).0
  unfolding publish_by_type
  type-Bounded ack_event e s st b = ack-Bounded s st b
  type-Bounded done_event e s st b = completion-Bounded (some e) s st b
  type-Bounded warn_event e s st b = b
  type-Bounded error_event e s st b = b
  type-Bounded info_event e s st b = b
  type-Bounded data_event e s st b = b

  process-Bounded :
      (e : Event) (s : Server) (st : Stream)
      → Bounded s
      → Bounded (process_stream_event p e (s, st)).0
  unfolding process_stream_event seen
  process-Bounded e s st b = type-Bounded e.type e s (seen e st) b

  pub handle-Bounded :
      (e : Event) (s : Server) → Bounded s → Bounded (handle_dispatcher_event p e s)
  unfolding handle_dispatcher_event route_event
  handle-Bounded e s b =
      elim (is_empty e.cmd_id)
        as (λ t. Bounded (
          if t then s else elim (stream_for e.cmd_id s.streams) [
            | none ↦ add_orphan e s
            | some st ↦ route_event p e st s
          ])) [
            | true ↦ b
            | false ↦
                elim (stream_for e.cmd_id s.streams)
                  as (λ o.
                    Bounded (elim o [ none ↦ add_orphan e s | some st ↦ route_event p e st s ])) [
                      | none ↦ add_orphan-Bounded e s b
                      | some st ↦
                          (let r = process-Bounded e s st b in
                            record { answers = r.answers; waiting = r.waiting })
                    ]
          ]

  events-Bounded :
      (es : List Event) (s : Server) (st : Stream)
      → Bounded s
      → Bounded (process_events p es (s, st)).0
  unfolding process_events
  events-Bounded [] s st b = b
  events-Bounded (e ∷ es) s st b =
      let (s', st') = process_stream_event p e (s, st) in
      events-Bounded es s' st' (process-Bounded e s st b)

  pub ensure-Bounded :
      (id action : Bytes) (mask now : ℕ) (s : Server)
      → Bounded s
      → Bounded (ensure_stream id action mask now s)
  unfolding ensure_stream
  ensure-Bounded id action mask now s b = record {
    answers = ground (arith, b.answers);
    waiting = ground (arith, b.waiting);
  }

  take-Bounded :
      (o : Option (List Event)) (id : Bytes) (s : Server) (st : Stream)
      → Bounded s
      → Bounded (take_orphans p o id (s, st)).0
  unfolding take_orphans
  take-Bounded none id s st b = record { answers = b.answers; waiting = b.waiting }
  take-Bounded (some es) id s st b =
      let r = events-Bounded es s st b in
      record {
        answers = r.answers;
        waiting =
            omega
              (arith, without_id-length id (process_events p es (s, st)).0.orphan_order, r.waiting);
      }

  pub bind-Bounded :
      (id : Bytes) (s : Server) (st : Stream)
      → Bounded s
      → Bounded (bind_stream_to_message_id p id (s, st)).0
  unfolding bind_stream_to_message_id
  bind-Bounded id s st b =
      Bounded-if (is_empty id) (s, st) _ b
        (take-Bounded (orphans_of id s.orphan_events) id s (record st { msg_id = id }) b)
