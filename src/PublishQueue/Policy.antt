-- ===== src/PublishQueue/Policy.antt =====
-- What the publish queue promises: its bound, one status update at most, and which messages a
-- full queue gives up.
use kinetic_mirror_matrix_es.Prelude.{
  ℕ, suc, ◌+◌, ◌-◌, ◌≤◌, ◌<◌, ◌≡◌, true, false, [], ◌∷◌, ◌++◌, refl, arith, length, length-append,
  drop, leb, ◌&&◌, not, if◌then◌else◌,
}
use mathlib.Core.List.{append-nil}
use kinetic_mirror_matrix_es.PublishQueue.{
  PublishMessage, Queue, has_status, replace_status, erase_status, make_room,
  enqueue_publish_message,
}

abbrev pub count_status : Queue → ℕ
count_status [] = 0
count_status (pending ∷ queue) = (if pending.is_status then 1 else 0) + count_status queue

-- The command responses of the queue, in order.
abbrev pub commands : Queue → Queue
commands [] = []
commands (pending ∷ queue) = if pending.is_status then commands queue else pending ∷ commands queue

length-replace_status : (q : Queue) (m : PublishMessage) → length (replace_status q m) ≡ length q
unfolding replace_status
length-replace_status [] m = refl
length-replace_status (p ∷ q) m = ground (arith, length-replace_status q m)

length-erase_status : (q : Queue) → has_status q ≡ true → suc (length (erase_status q)) ≡ length q
unfolding erase_status
length-erase_status [] h = ground arith
length-erase_status (p ∷ q) h = ground (arith, length-erase_status q)

length-make_room : (q : Queue) → length (make_room q) ≡ length q - 1
unfolding make_room
length-make_room [] = refl
length-make_room (p ∷ q) = ground (arith, length-erase_status (p ∷ q))

-- A queue within its capacity stays within it, whatever is put in.
pub enqueue-bounded :
    (q : Queue) (capacity : ℕ) (m : PublishMessage)
    → 0 < capacity
    → length q ≤ capacity
    → length (enqueue_publish_message q capacity m) ≤ capacity
unfolding enqueue_publish_message
enqueue-bounded q c m h k = ground (
  arith,
  length-replace_status q m,
  length-make_room q,
  length-append q (m ∷ []),
  length-append (make_room q) (m ∷ []),
)

count_status-append : (q r : Queue) → count_status (q ++ r) ≡ count_status q + count_status r
count_status-append [] r = omega arith
count_status-append (p ∷ q) r = omega (arith, count_status-append q r)

count-has_status : (q : Queue) → has_status q ≡ false → count_status q ≡ 0
count-has_status [] h = refl
count-has_status (p ∷ q) h = ground (arith, count-has_status q)

count-replace_status :
    (q : Queue) (m : PublishMessage)
    → m.is_status ≡ true
    → count_status (replace_status q m) ≡ count_status q
unfolding replace_status
count-replace_status [] m h = refl
count-replace_status (p ∷ q) m h = ground (arith, count-replace_status q m)

count-erase_status : (q : Queue) → count_status (erase_status q) ≤ count_status q
unfolding erase_status
count-erase_status [] = omega arith
count-erase_status (p ∷ q) = ground (arith, count-erase_status q)

count-make_room : (q : Queue) → count_status (make_room q) ≤ count_status q
unfolding make_room
count-make_room [] = omega arith
count-make_room (p ∷ q) = ground (arith, count-erase_status (p ∷ q))

-- A queue with one status update at most keeps that property, whatever is put in.
pub enqueue-one_status :
    (q : Queue) (capacity : ℕ) (m : PublishMessage)
    → count_status q ≤ 1
    → count_status (enqueue_publish_message q capacity m) ≤ 1
unfolding enqueue_publish_message
enqueue-one_status q c m k = ground (
  arith,
  count-replace_status q m,
  count-has_status q,
  count-make_room q,
  count_status-append q (m ∷ []),
  count_status-append (make_room q) (m ∷ []),
)

commands-replace_status :
    (q : Queue) (m : PublishMessage)
    → m.is_status ≡ true
    → commands (replace_status q m) ≡ commands q
unfolding replace_status
commands-replace_status [] m h = refl
commands-replace_status (p ∷ q) m h = ground (arith, commands-replace_status q m)

commands-append : (q r : Queue) → commands (q ++ r) ≡ commands q ++ commands r
commands-append [] r = refl
commands-append (p ∷ q) r = ground (arith, commands-append q r)

commands-erase_status : (q : Queue) → commands (erase_status q) ≡ commands q
unfolding erase_status
commands-erase_status [] = refl
commands-erase_status (p ∷ q) = ground (arith, commands-erase_status q)

commands-pop_front :
    (p : PublishMessage) (q : Queue)
    → has_status (p ∷ q) ≡ false
    → commands q ≡ drop 1 (commands (p ∷ q))
commands-pop_front p q h = ground arith

commands-make_room :
    (q : Queue)
    → commands (make_room q) ≡ (if has_status q then commands q else drop 1 (commands q))
unfolding make_room
commands-make_room [] = refl
commands-make_room (p ∷ q) = ground (arith, commands-erase_status (p ∷ q), commands-pop_front p q)

-- A status update never displaces a command response: the responses stay as they are, in order.
pub enqueue-status_commands :
    (q : Queue) (capacity : ℕ) (m : PublishMessage)
    → m.is_status ≡ true
    → commands (enqueue_publish_message q capacity m) ≡ commands q
unfolding enqueue_publish_message
enqueue-status_commands q c m s =
    ground (arith, commands-replace_status q m, commands-append q (m ∷ []), append-nil (commands q))

-- A command response always gets in, as the last. The earlier responses stay in order, and the
-- oldest of them is dropped only where the queue is full and holds no status update.
pub enqueue-command_commands :
    (q : Queue) (capacity : ℕ) (m : PublishMessage)
    → m.is_status ≡ false
    → commands (enqueue_publish_message q capacity m)
      ≡ (if leb capacity (length q) && not (has_status q) then drop 1 (commands q) else commands q)
        ++ m ∷ []
unfolding enqueue_publish_message
enqueue-command_commands q c m s = ground (
  arith,
  commands-make_room q,
  commands-append q (m ∷ []),
  commands-append (make_room q) (m ∷ []),
)
