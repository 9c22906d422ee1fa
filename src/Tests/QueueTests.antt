-- ===== src/Tests/QueueTests.antt =====
-- The publish queue at concrete inputs.
use kinetic_mirror_matrix_es.Prelude.{ℕ, ◌≡◌, refl, Bool, true, false, [], ◌∷◌}
use kinetic_mirror_matrix_es.PublishQueue.{PublishMessage, Queue, enqueue_publish_message}

abbrev message : ℕ → Bool → PublishMessage
message n status = record {
  topic = [];
  payload = n ∷ [];
  qos = 1;
  retain = false;
  is_status = status;
}

-- Full, with one status update in the middle.
abbrev full : Queue
full = message 1 false ∷ message 2 true ∷ message 3 false ∷ []

drops_the_status :
    enqueue_publish_message full 3 (message 4 false)
    ≡ message 1 false ∷ message 3 false ∷ message 4 false ∷ []
unfolding enqueue_publish_message
drops_the_status = refl
