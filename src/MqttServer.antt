-- ===== src/MqttServer.antt =====
-- lib/mqtt_commands/src/MqttCommandServer.cpp: the server that takes commands from MQTT. Here are
-- its texts and its state: the streams of commands under way, the events that came before their
-- stream was known, and the answers that are kept for duplicates. An `unordered_map` is a list of
-- entries with different keys; where the source searches one by a message id, the first entry of
-- the list is taken. The texts of the payloads, which the JSON library prints, are parameters.
pub mod Waiting
pub mod Limits
pub mod Events
pub mod Replays
pub mod Dispatch
pub mod Motions
use kinetic_mirror_matrix_es.Prelude.{
  ℕ, suc, ◌+◌, Bool, true, false, not, ◌&&◌, ◌||◌, Option, none, some, List, [], ◌∷◌, ◌++◌, ltb,
  leb, ◌==◌, if◌then◌else◌, length, sub32,
}
use kinetic_mirror_matrix_es.Prelude.Int.{ℤ, pos, sub_ℕ}
use kinetic_mirror_matrix_es.Text.{
  Bytes, codes, eq_bytes, is_empty, is_digit, read_digits, long_max,
}
use kinetic_mirror_matrix_es.Transport.{CompletionStatus, Field, ResponseLine}
use kinetic_mirror_matrix_es.Transport.Events.{Event}

unfoldable pub all_digits : Bytes → Bool
all_digits [] = true
all_digits (c ∷ s) = is_digit c && all_digits s

-- The text after a sign, and whether the sign is a minus.
abbrev without_sign : Bytes → Bool × Bytes
without_sign [] = (false, [])
without_sign (c ∷ s) = (c == b'-', if c == b'-' || c == b'+' then s else c ∷ s)

unfoldable pub is_integer : Bytes → Bool
unfolding all_digits
is_integer value = let (negative, s) = without_sign value in not (is_empty s) && all_digits s

-- `std::stol` throws where the number does not fit.
unfoldable pub parse_long : Bytes → ℤ → ℤ
unfolding is_integer read_digits
parse_long value fallback =
    let (negative, s) = without_sign value in
    let n = (read_digits 0 s).0 in
    if not (is_integer value) || ltb (if negative then suc long_max else long_max) n
    then fallback
    else if negative
    then sub_ℕ 0 n
    else pos n

-- The text between the quotes; the last byte is the closing quote.
unfoldable pub unescape : Bool → Bytes → Bytes
unescape escaped [] = []
unescape escaped (c ∷ []) = []
unescape escaped (c ∷ d ∷ s) =
    let starts = not escaped && c == b'\\' in
    let rest = unescape starts (d ∷ s) in if starts then rest else c ∷ rest

unfoldable pub ends_quoted : Bytes → Bool
ends_quoted [] = false
ends_quoted (c ∷ []) = c == b'"'
ends_quoted (c ∷ d ∷ s) = ends_quoted (d ∷ s)

unfoldable pub unquote : Bytes → Bytes
unfolding ends_quoted unescape
unquote [] = []
unquote (c ∷ s) = if c == b'"' && ends_quoted s then unescape false s else c ∷ s

-- `none` is the result `false`.
unfoldable pub extract_int_field : List Field → Bytes → Option ℤ
unfolding parse_long unquote
extract_int_field [] key = none
extract_int_field (f ∷ fs) key =
    if eq_bytes f.key key
    then some (parse_long (unquote f.value) (pos 0))
    else extract_int_field fs key

pub record Cached : Type 0 where
  pub cmd_id : Bytes
  pub ack_payload : Bytes
  pub completion_payload : Bytes

pub record Stream : Type 0 where
  pub cmd_id : Bytes
  pub msg_id : Bytes
  pub action : Bytes
  pub lines : List ResponseLine
  pub mask : ℕ
  pub started_ms : ℕ
  pub saw_event : Bool
  pub ack_published : Bool
  pub done_published : Bool
  pub ack_payload : Bytes

-- A command that waits for its motors; `awaiting_motor_finish` is always set. The command line and
-- the targets are not read again.
pub record Pending : Type 0 where
  pub cmd_id : Bytes
  pub action : Bytes
  pub lines : List ResponseLine
  pub ack_payload : Bytes
  pub mask : ℕ
  pub started_ms : ℕ

pub record Orphans : Type 0 where
  pub msg_id : Bytes
  pub events : List Event

-- `published` logs the payloads that are given to `publish_`, and `log` the ids of the duplicates
-- that are logged.
pub record Server : Type 0 where
  pub streams : List Stream
  pub orphan_events : List Orphans
  pub orphan_order : List Bytes
  pub recent : List Cached
  pub pending : List Pending
  pub published : List Bytes
  pub log : List Bytes
  pub duplicate_cache : ℕ
  pub duplicate_log_interval_ms : ℕ
  pub last_duplicate_log_ms : ℕ

-- The texts of an ACK and of a completion: the command's id, its action and the lines of its
-- response, then the status, the mask, the start, whether the motors are shown, and the duration.
pub record Payloads : Type 0 where
  pub ack : Bytes → Bytes → List ResponseLine → Bytes
  pub completion : Bytes → Bytes → List ResponseLine → CompletionStatus → ℕ → ℕ → Bool → ℤ → Bytes

abbrev pub publish : Bytes → Server → Server
publish payload s = record s { published = s.published ++ payload ∷ [] }

-- `while (size > capacity) pop_front`.
unfoldable pub newest {ℓ} : {A : Type ℓ} → ℕ → List A → List A
newest capacity [] = []
newest capacity (x ∷ xs) =
    let rest = newest capacity xs in if ltb capacity (suc (length xs)) then rest else x ∷ xs

unfoldable pub record_completed : Bytes → Bytes → Bytes → Server → Server
unfolding newest
record_completed cmd_id ack_payload completion_payload s =
    if s.duplicate_cache == 0 then s else record s {
      recent = newest s.duplicate_cache (
          s.recent
          ++ record {
            cmd_id = cmd_id;
            ack_payload = ack_payload;
            completion_payload = completion_payload;
          }
            ∷ []);
    }

unfoldable pub find_stream : Bytes → List Stream → Option Stream
find_stream cmd_id [] = none
find_stream cmd_id (st ∷ sts) =
    if eq_bytes st.cmd_id cmd_id then some st else find_stream cmd_id sts

unfoldable pub find_pending : Bytes → List Pending → Option Pending
find_pending cmd_id [] = none
find_pending cmd_id (p ∷ ps) = if eq_bytes p.cmd_id cmd_id then some p else find_pending cmd_id ps

unfoldable pub find_cached : Bytes → List Cached → Option Cached
find_cached cmd_id [] = none
find_cached cmd_id (c ∷ cs) = if eq_bytes c.cmd_id cmd_id then some c else find_cached cmd_id cs

abbrev pub found {ℓ} : {A : Type ℓ} → Option A → Bool
found none = false
found (some a) = true

unfoldable pub is_duplicate : Bytes → Server → Bool
unfolding find_stream find_pending find_cached
is_duplicate cmd_id s =
    found (find_stream cmd_id s.streams)
    || (found (find_pending cmd_id s.pending) || found (find_cached cmd_id s.recent))

unfoldable pub log_duplicate : Bytes → ℕ → Server → Server
log_duplicate cmd_id now_ms s =
    if ltb (sub32 now_ms s.last_duplicate_log_ms) s.duplicate_log_interval_ms
    then s
    else record s { last_duplicate_log_ms = now_ms; log = s.log ++ cmd_id ∷ [] }

abbrev pub publish_text : Bytes → Server → Server
publish_text payload s = if is_empty payload then s else publish payload s

-- The answers to a command that is pending or done. The dispatcher's `Replay` finds nothing, since
-- its cache holds no response.
unfoldable pub replay : Bytes → Server → Server
unfolding find_pending find_cached
replay cmd_id s = elim (find_pending cmd_id s.pending) [
  | some p ↦ publish_text p.ack_payload s
  | none ↦ elim (find_cached cmd_id s.recent) [
    | some c ↦ publish_text c.completion_payload (publish_text c.ack_payload s)
    | none ↦ s
  ]
]

unfoldable pub handle_duplicate_command : Bytes → ℕ → Server → Server × Bool
unfolding is_duplicate log_duplicate replay find_stream
handle_duplicate_command cmd_id now_ms s =
    if not (is_duplicate cmd_id s)
    then (s, false)
    else (let logged = log_duplicate cmd_id now_ms s in
        (
          elim (find_stream cmd_id s.streams) [
            | some st ↦
                if is_empty st.ack_payload
                then replay cmd_id logged
                else publish st.ack_payload logged
            | none ↦ replay cmd_id logged
          ],
          true,
        ))
