-- ===== src/MqttServer/Replays.antt =====
-- Duplicates of commands that are done.
use kinetic_mirror_matrix_es.Prelude.{
  ℕ, suc, ◌≡◌, ◌<◌, refl, ap, ◌∙◌, Bool, true, false, ◌||◌, none, some, List, [], ◌∷◌, ◌++◌, ltb,
  ◌==◌, length, arith, Bool-cases, inl, inr,
}
use mathlib.Core.List.{append_assoc}
use kinetic_mirror_matrix_es.Text.{Bytes, eq_bytes, is_empty}
use kinetic_mirror_matrix_es.Text.Numbers.{eq_bytes_refl}
use kinetic_mirror_matrix_es.MqttServer.{
  Cached, Server, find_cached, find_pending, find_stream, handle_duplicate_command, is_duplicate,
  log_duplicate, newest, record_completed, replay,
}

find-tail :
    (id : Bytes) (x : Cached) (xs : List Cached)
    → find_cached id (x ∷ xs) ≡ none
    → find_cached id xs ≡ none
unfolding find_cached
find-tail id x xs h = ground (arith, h)

find-append :
    (id : Bytes) (xs : List Cached) (c : Cached)
    → find_cached id xs ≡ none
    → eq_bytes c.cmd_id id ≡ true
    → find_cached id (xs ++ c ∷ []) ≡ some c
unfolding find_cached
find-append id [] c h e = rw e refl
find-append id (x ∷ xs) c h e = elim (Bool-cases (eq_bytes x.cmd_id id)) [
  | inl y ↦ ground (arith, rw (y, find_cached) at h)
  | inr n ↦ rw n (find-append id xs c (rw (n, find_cached) at h) e)
]

-- The newest answer is never dropped.
find-newest :
    (id : Bytes) (capacity : ℕ) (xs : List Cached) (c : Cached)
    → 0 < capacity
    → find_cached id xs ≡ none
    → eq_bytes c.cmd_id id ≡ true
    → find_cached id (newest capacity (xs ++ c ∷ [])) ≡ some c
unfolding find_cached newest
find-newest id capacity [] c l h e = ground (arith, l, e)
find-newest id capacity (x ∷ xs) c l h e =
    elim (Bool-cases (ltb capacity (suc (length (xs ++ c ∷ []))))) [
      | inl y ↦ rw y (find-newest id capacity xs c l (find-tail id x xs h) e)
      | inr n ↦ rw n (find-append id (x ∷ xs) c h e)
    ]

record-find :
    (id ack done : Bytes) (s : Server)
    → 0 < s.duplicate_cache
    → find_cached id s.recent ≡ none
    → find_cached id (record_completed id ack done s).recent
      ≡ some (record { cmd_id = id; ack_payload = ack; completion_payload = done })
unfolding record_completed
record-find id ack done s l h = elim (Bool-cases (s.duplicate_cache == 0)) [
  | inl z ↦ ground (arith, z, l)
  | inr n ↦
      rw (record_completed, n) (find-newest id s.duplicate_cache s.recent _ l h (eq_bytes_refl id))
]

record-rest :
    (id ack done : Bytes) (s : Server)
    → ((record_completed id ack done s).streams ≡ s.streams)
      × ((record_completed id ack done s).pending ≡ s.pending)
      × ((record_completed id ack done s).published ≡ s.published)
unfolding record_completed
record-rest id ack done s = ground arith

log-rest :
    (id : Bytes) (now : ℕ) (s : Server)
    → ((log_duplicate id now s).recent ≡ s.recent)
      × ((log_duplicate id now s).pending ≡ s.pending)
      × ((log_duplicate id now s).published ≡ s.published)
unfolding log_duplicate
log-rest id now s = ground arith

replay-cached :
    (id : Bytes) (s : Server) (c : Cached)
    → find_pending id s.pending ≡ none
    → find_cached id s.recent ≡ some c
    → is_empty c.ack_payload ≡ false
    → is_empty c.completion_payload ≡ false
    → ((replay id s).published ≡ s.published ++ c.ack_payload ∷ c.completion_payload ∷ [])
      × ((replay id s).recent ≡ s.recent)
unfolding replay
replay-cached id s c p r a d =
    rw (replay, p, r, a, d)
      (append_assoc s.published (c.ack_payload ∷ []) (c.completion_payload ∷ []), refl)

or_true : (b : Bool) → (b || true) ≡ true
or_true b = ground arith

duplicate-cached :
    (id : Bytes) (now : ℕ) (s : Server) (c : Cached)
    → find_stream id s.streams ≡ none
    → find_cached id s.recent ≡ some c
    → handle_duplicate_command id now s ≡ (replay id (log_duplicate id now s), true)
unfolding handle_duplicate_command is_duplicate
duplicate-cached id now s c st r =
    let dup : (is_duplicate id s ≡ true) = rw (is_duplicate, st, r) (or_true _) in
    rw (handle_duplicate_command, dup, st) refl

-- A command that is done, whose id is not in use otherwise, is a duplicate when it comes again:
-- the ACK and the completion that were recorded are published once more, in this order, and the
-- answers that are kept stay as they are.
pub record-duplicate :
    (id ack done : Bytes) (now : ℕ) (s : Server)
    → 0 < s.duplicate_cache
    → find_stream id s.streams ≡ none
    → find_pending id s.pending ≡ none
    → find_cached id s.recent ≡ none
    → is_empty ack ≡ false
    → is_empty done ≡ false
    → ((handle_duplicate_command id now (record_completed id ack done s)).1 ≡ true)
      × ((handle_duplicate_command id now (record_completed id ack done s)).0.published
          ≡ s.published ++ ack ∷ done ∷ [])
      × ((handle_duplicate_command id now (record_completed id ack done s)).0.recent
          ≡ (record_completed id ack done s).recent)
record-duplicate id ack done now s l st p c a d =
    let s' = record_completed id ack done s in
    let (streams, pending, published) = record-rest id ack done s in
    let (recent', pending', published') = log-rest id now s' in
    let hit = record-find id ack done s l c in
    let (answers, kept) =
      replay-cached id (log_duplicate id now s') _ (ap (find_pending id) (pending' ∙ pending) ∙ p)
        (ap (find_cached id) recent' ∙ hit) a d in
    rw (duplicate-cached id now s' _ (ap (find_stream id) streams ∙ st) hit)
      (refl, answers ∙ ap (λ ps. ps ++ ack ∷ done ∷ []) (published' ∙ published), kept ∙ recent')
