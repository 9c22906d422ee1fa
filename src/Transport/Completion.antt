-- ===== src/Transport/Completion.antt =====
-- lib/transport/src/CompletionTracker.cpp: the operations whose DONE is still to be sent. What a
-- tick asks of the controller behind a pointer is the argument `look`.
pub mod Once
pub mod Ticks
use kinetic_mirror_matrix_es.Prelude.{
  ℕ, zero, suc, ◌+◌, ◌^◌, ◌==◌, Bool, true, false, not, ◌&&◌, ◌||◌, List, [], ◌∷◌, ◌++◌, Option,
  some, none, ltb, if◌then◌else◌,
}
use kinetic_mirror_matrix_es.Prelude.Int.{ℤ, pos, negsuc, pos_part, ltb_ℤ, sub_ℕ}
use kinetic_mirror_matrix_es.Motor.{MotorState}
use kinetic_mirror_matrix_es.Motor.Mask.{selected}
use kinetic_mirror_matrix_es.Text.{Bytes, codes, eq_bytes, is_empty, to_string}
use kinetic_mirror_matrix_es.Transport.{Field}
use kinetic_mirror_matrix_es.Transport.Events.{Event, done_event, assign}
use kinetic_mirror_matrix_es.Transport.Dispatcher.{ResponseDispatcher, emit}

-- A null pointer is `none`.
pub record Pending : Type 0 where
  pub cmd_id : Bytes
  pub action : Bytes
  pub mask : ℕ
  pub controller : Option ℕ
  pub active : Bool

unfoldable pub without_cmd : Bytes → List Pending → List Pending
without_cmd cmd_id [] = []
without_cmd cmd_id (p ∷ ps) =
    if eq_bytes p.cmd_id cmd_id then without_cmd cmd_id ps else p ∷ without_cmd cmd_id ps

unfoldable pub register_operation : Bytes → Bytes → ℕ → ℕ → List Pending → List Pending
unfolding without_cmd
register_operation cmd_id action mask controller ps =
    if is_empty cmd_id || mask == 0
    then ps
    else without_cmd cmd_id ps
      ++ (record {
        cmd_id = cmd_id;
        action = action;
        mask = mask;
        controller = some controller;
        active = true;
      }
          ∷ [])

-- What `isAnyMovingForMask` and `state` tell of a controller.
pub record View : Type 0 where
  pub moving : ℕ → Bool
  pub motors : List MotorState

-- `static_cast<int32_t>`
abbrev to_int32 : ℕ → ℤ
to_int32 n = if ltb n (2 ^ 31) then pos n else sub_ℕ n (2 ^ 32)

abbrev max_ℤ : ℤ → ℤ → ℤ
max_ℤ a b = if ltb_ℤ a b then b else a

-- The loop over the motors, from index i on.
unfoldable pub actual_from : ℕ → ℕ → ℤ → List MotorState → ℤ
unfolding selected
actual_from i mask actual_ms [] = actual_ms
actual_from i mask actual_ms (m ∷ ms) =
    if ltb i 32 && selected mask i && not m.last_op_ongoing
    then actual_from (suc i) mask (max_ℤ actual_ms (to_int32 m.last_op_last_ms)) ms
    else actual_from (suc i) mask actual_ms ms

-- What a tick does with an entry: drop it, keep it, or send its DONE with a duration.
pub data Fate : Type 0 where
  drop_entry keep_entry : Fate
  finish : ℕ → Fate

unfoldable pub fate : (ℕ → View) → Pending → Fate
unfolding actual_from
fate look p = elim p.controller [
  | none ↦ drop_entry
  | some c ↦
      if not p.active
      then drop_entry
      else if (look c).moving p.mask
      then keep_entry
      else (let actual_ms = actual_from 0 p.mask (negsuc 0) (look c).motors in
          if ltb_ℤ actual_ms (pos 0) then keep_entry else finish (pos_part actual_ms))
]

abbrev pub done_of : Pending → ℕ → Event
done_of p actual_ms = record {
  type = done_event;
  cmd_id = p.cmd_id;
  action = p.action;
  code = [];
  reason = [];
  raw = [];
  attributes =
      assign (codes "actual_ms") (to_string actual_ms)
        (record { key = codes "status"; value = codes "done" } ∷ []);
}

-- The entries that stay, and the events that are emitted.
unfoldable pub tick :
    (ℕ → View) → List Pending → ResponseDispatcher → List Pending × ResponseDispatcher
unfolding fate emit assign to_string
tick look [] d = ([], d)
tick look (p ∷ ps) d = elim (fate look p) [
  | drop_entry ↦ tick look ps d
  | keep_entry ↦ (let (kept, sent) = tick look ps d in (p ∷ kept, sent))
  | finish ms ↦ tick look ps (emit (done_of p ms) d)
]

abbrev points_to : ℕ → Option ℕ → Bool
points_to c none = false
points_to c (some d) = c == d

-- `RemoveController`, for a pointer that is not null.
unfoldable pub remove_controller : ℕ → List Pending → List Pending
remove_controller c [] = []
remove_controller c (p ∷ ps) =
    if points_to c p.controller then remove_controller c ps else p ∷ remove_controller c ps
