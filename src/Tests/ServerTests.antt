-- ===== src/Tests/ServerTests.antt =====
-- The server of MQTT commands at concrete inputs.
use kinetic_mirror_matrix_es.Prelude.{
  ◌==◌, map, ◌≡◌, ◌≤◌, refl, true, false, List, [], ◌∷◌, ◌++◌, none, arith, length,
}
use kinetic_mirror_matrix_es.Prelude.Int.{pos, negsuc}
use kinetic_mirror_matrix_es.Text.{Bytes, codes}
use kinetic_mirror_matrix_es.Transport.Events.{Event, done_event}
use kinetic_mirror_matrix_es.MqttServer.{
  Payloads, Pending, Server, Stream, find_cached, find_pending, find_stream,
  handle_duplicate_command, parse_long, record_completed, unquote,
}
use kinetic_mirror_matrix_es.MqttServer.Limits.{
  Call, apply_all, apply_all-Bounded, binds, dispatches, finalizes, hears, opens, answers_with,
  repeats,
}
use kinetic_mirror_matrix_es.MqttServer.Dispatch.{finalize_completed, pending_payload}
use kinetic_mirror_matrix_es.MqttServer.Motions.{ended, finalize_completed-parts, waiting_on}
use kinetic_mirror_matrix_es.MqttServer.Replays.{record-duplicate}

abbrev texts : Payloads
texts = record {
  ack = λ cmd_id action lines. codes "ack " ++ cmd_id;
  completion = λ cmd_id action lines status mask started show actual. codes "done " ++ cmd_id;
}

abbrev empty : Server
empty = record {
  streams = [];
  orphan_events = [];
  orphan_order = [];
  recent = [];
  pending = [];
  published = [];
  log = [];
  duplicate_cache = 12;
  duplicate_log_interval_ms = 1000;
  last_duplicate_log_ms = 0;
}

abbrev event_of : Bytes → Event
event_of id = record {
  type = done_event;
  cmd_id = id;
  action = codes "MOVE";
  code = [];
  reason = [];
  raw = [];
  attributes = record { key = codes "actual_ms"; value = codes "12" } ∷ [];
}

abbrev moving : Stream
moving = record {
  cmd_id = codes "a";
  msg_id = codes "7";
  action = codes "MOVE";
  lines = [];
  mask = 1;
  started_ms = 5;
  saw_event = false;
  ack_published = false;
  done_published = false;
  ack_payload = [];
}

abbrev busy : Server
busy = record empty { streams = moving ∷ [] }

quoted : unquote (codes "\"a\\\"b\"") ≡ codes "a\"b"
unfolding unquote
quoted = refl

negative : parse_long (codes "-12") (pos 0) ≡ negsuc 11
unfolding parse_long
negative = refl

record-duplicate_example :
    ((handle_duplicate_command
        (codes "a")
        2000
        (record_completed (codes "a") (codes "x") (codes "y") empty)).1
      ≡ true)
    × ((handle_duplicate_command
          (codes "a")
          2000
          (record_completed (codes "a") (codes "x") (codes "y") empty)).0.published
        ≡ [] ++ codes "x" ∷ codes "y" ∷ [])
    × ((handle_duplicate_command
          (codes "a")
          2000
          (record_completed (codes "a") (codes "x") (codes "y") empty)).0.recent
        ≡ (record_completed (codes "a") (codes "x") (codes "y") empty).recent)
unfolding find_stream find_pending find_cached
record-duplicate_example =
    record-duplicate (codes "a") (codes "x") (codes "y") 2000 empty (omega arith) refl refl refl
      refl refl

abbrev calls : List Call
calls =
    hears (event_of (codes "1"))
    ∷ hears (event_of (codes "2"))
    ∷ opens (codes "a") (codes "MOVE") 1 5
    ∷ binds (codes "2") moving
    ∷ hears (event_of (codes "a"))
    ∷ answers_with (codes "b") [] (codes "y")
    ∷ dispatches (λ mask. true) (codes "c") (codes "MOVE") 1 [] (codes "3") [] none 9
    ∷ finalizes (λ mask. false) []
    ∷ repeats (codes "b") 10
    ∷ []

apply_all-Bounded_example :
    (length (apply_all texts calls empty).recent ≤ (apply_all texts calls empty).duplicate_cache)
    × (length (apply_all texts calls empty).orphan_order ≤ 4)
apply_all-Bounded_example = apply_all-Bounded texts calls empty (omega arith) (omega arith)

abbrev waiting : Pending
waiting = record {
  cmd_id = codes "a";
  action = codes "MOVE";
  lines = [];
  ack_payload = [];
  mask = 1;
  started_ms = 5;
}

abbrev two_moves : Server
two_moves = record empty {
  pending = waiting ∷ record waiting { cmd_id = codes "b"; mask = 2 } ∷ [];
}

finalize_completed-parts_example :
    ((finalize_completed texts (λ mask. mask == 1) [] two_moves).pending
      ≡ waiting_on (λ mask. mask == 1) two_moves.pending)
    × ((finalize_completed texts (λ mask. mask == 1) [] two_moves).published
        ≡ [] ++ map (pending_payload texts []) (ended (λ mask. mask == 1) two_moves.pending))
finalize_completed-parts_example = finalize_completed-parts texts (λ mask. mask == 1) [] two_moves
