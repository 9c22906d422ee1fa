-- ===== src/PublishQueue.antt =====
-- lib/mqtt_presence/include/mqtt/PublishQueuePolicy.h: the queue of messages that wait to be
-- published. The deque is a list, oldest first; the function always returns `true`, so it is
-- modelled by the queue that it leaves. Topics and payloads are byte lists.
pub mod Policy
use kinetic_mirror_matrix_es.Prelude.{
  ℕ, Bool, true, false, List, [], ◌∷◌, ◌++◌, length, leb, if◌then◌else◌,
}

-- The struct of lib/mqtt_presence/include/mqtt/MqttPresenceClient.h.
pub record PublishMessage : Type 0 where
  pub topic : List ℕ
  pub payload : List ℕ
  pub qos : ℕ
  pub retain : Bool
  pub is_status : Bool

abbrev pub Queue : Type 0
Queue = List PublishMessage

abbrev pub has_status : Queue → Bool
has_status [] = false
has_status (pending ∷ queue) = if pending.is_status then true else has_status queue

-- The first pending status update is overwritten in its place.
unfoldable pub replace_status : Queue → PublishMessage → Queue
replace_status [] msg = []
replace_status (pending ∷ queue) msg =
    if pending.is_status then msg ∷ queue else pending ∷ replace_status queue msg

-- `erase` at what `find_if` found.
unfoldable pub erase_status : Queue → Queue
erase_status [] = []
erase_status (pending ∷ queue) = if pending.is_status then queue else pending ∷ erase_status queue

abbrev pop_front : Queue → Queue
pop_front [] = []
pop_front (pending ∷ queue) = queue

-- What a full queue gives up for a command response.
unfoldable pub make_room : Queue → Queue
unfolding erase_status
make_room queue = if has_status queue then erase_status queue else pop_front queue

unfoldable pub enqueue_publish_message : Queue → ℕ → PublishMessage → Queue
unfolding replace_status make_room
enqueue_publish_message queue capacity msg =
    if msg.is_status
    then (if has_status queue
        then replace_status queue msg
        else if leb capacity (length queue)
        then queue
        else queue ++ msg ∷ [])
    else (if leb capacity (length queue) then make_room queue else queue) ++ msg ∷ []
